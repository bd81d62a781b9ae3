-- ===== src/Monitoring/Alarms.antt =====
-- What a health check leaves when the database does not answer: the lemmas on the transition to
-- critical, the notifier and the emergency stop.
use crypto_trading_system.Base.{
  suc, ◌≡◌, refl, ap, ◌∙◌, inl, inr, Bool, Bool-cases, true, false, not, Option, none, some, arith,
}
use crypto_trading_system.Models.{Result, ok, raise}
use crypto_trading_system.Risk.Engine.{RiskEngine, update_system_health}
use crypto_trading_system.Risk.EmergencyStop.{
  EmergencyStop, EmergencyReason, Step, activate, activate_attempts_all,
}
use crypto_trading_system.Monitoring.Monitors.{
  CheckFailed, DatabaseHealthMonitor, DatabaseHealthStatus, RiskHealthStatus, unavailable,
  check_database,
}
use crypto_trading_system.Monitoring.Coordinator.{
  HealthCoordinator, HealthInputs, SystemHealthResult, critical, same_status, NotificationLevel,
  notifier_raised, notify, trigger, raise_alarm, finish_check, NotifierError, handle_transition,
  overall_status, database_health, database_status, is_unavailable, critical_level, warning_level,
  info_level,
}

abbrev pub is_ok : {E A : Type 0} → Result E A → Bool
is_ok (ok _) = true
is_ok (raise _) = false

-- Whether the connection check answers that the database is there.
abbrev pub connects : Result CheckFailed Bool → Bool
connects (ok b) = b
connects (raise e) = false

abbrev pub IsActive : Option EmergencyStop → Type 0
IsActive stop = (s : EmergencyStop) × ((stop ≡ some s) × (s.active ≡ true))

abbrev pub IsGated : {D : Type 0} → Option (RiskEngine D) → Type 0
IsGated engine = (e : RiskEngine _) → engine ≡ some e → e.database_available ≡ false

pub activate-active :
    (fails : Step → Bool) (reason : EmergencyReason) (e : EmergencyStop)
    → (activate fails reason e).0.active ≡ true
unfolding activate
activate-active fails reason e = elim (Bool-cases e.active) [
  | inl h ↦ ground arith
  | inr h ↦ (activate_attempts_all fails reason e h).0
]

pub check_database_down :
    (connected checkpoint : Result CheckFailed Bool) (latency : _) (m : DatabaseHealthMonitor)
    → connects connected ≡ false
    → (check_database connected checkpoint latency m).1.status ≡ unavailable
unfolding check_database
check_database_down (raise e) checkpoint latency m h = refl
check_database_down (ok false) checkpoint latency m h = refl
check_database_down (ok true) checkpoint latency m h = cc

pub overall-critical :
    (database : Option DatabaseHealthStatus) (risk : Option RiskHealthStatus)
    → database ≡ some unavailable
    → overall_status database risk ≡ critical
unfolding overall_status
overall-critical database risk h = ground arith

module _ {D : Type 0} where
  pub gated_of :
      (engine : Option (RiskEngine D)) (status : DatabaseHealthStatus)
      → status ≡ unavailable
      → IsGated (elim engine [
        | none ↦ none
        | some e ↦ some (update_system_health (not (is_unavailable status)) true e)
      ])
  unfolding update_system_health
  gated_of none status down e eq = ground arith
  gated_of (some e') status down e eq = ground arith

  -- What the check of a database that is down leaves.
  pub record Downed (h h' : HealthCoordinator D) : Type 0 where
    pub gated : IsGated h'.risk_engine
    pub stop : h'.emergency_stop ≡ h.emergency_stop
    pub last : h'.last_status ≡ h.last_status
    pub told : h'.has_notifier ≡ h.has_notifier

  pub database_health_down :
      (x : HealthInputs) (h : HealthCoordinator D) (m : DatabaseHealthMonitor)
      → h.database_monitor ≡ some m
      → connects x.connected ≡ false
      → Downed h (database_health x h).0
        × (database_status (database_health x h).1 ≡ some unavailable)
  unfolding database_health
  database_health_down x h m e down =
      let gone = check_database_down x.connected x.checkpoint x.latency m down in
      rw e (
        record { gated = gated_of h.risk_engine _ gone; stop = refl; last = refl; told = refl },
        ap some gone,
      )

  pub notify_keeps_engine :
      (x : HealthInputs) (level : NotificationLevel) (h : HealthCoordinator D)
      → (notify x level h).0.risk_engine ≡ h.risk_engine
  unfolding notify
  notify_keeps_engine x level h = ground arith

  pub trigger_keeps_engine :
      (x : HealthInputs) (r : SystemHealthResult) (h : HealthCoordinator D)
      → (trigger x r h).risk_engine ≡ h.risk_engine
  unfolding trigger
  trigger_keeps_engine x r h = ground arith

  pub alarm_keeps_engine :
      (x : HealthInputs) (r : SystemHealthResult) (h : HealthCoordinator D)
      → (raise_alarm x r h).0.risk_engine ≡ h.risk_engine
  unfolding raise_alarm
  alarm_keeps_engine x r h =
      let told = record h { critical_count = suc h.critical_count } in
      ground (
        arith,
        notify_keeps_engine x critical_level told,
        trigger_keeps_engine x r (notify x critical_level told).0,
      )

  pub handle_keeps_engine :
      (x : HealthInputs) (r : SystemHealthResult) (h : HealthCoordinator D)
      → (handle_transition x r h).0.risk_engine ≡ h.risk_engine
  unfolding handle_transition
  handle_keeps_engine x r h = ground (
    arith,
    notify_keeps_engine x warning_level h,
    notify_keeps_engine x info_level h,
    alarm_keeps_engine x r h,
  )

  pub trigger-IsActive :
      (x : HealthInputs) (r : SystemHealthResult) (h : HealthCoordinator D) (stop : EmergencyStop)
      → h.emergency_stop ≡ some stop
      → IsActive (trigger x r h).emergency_stop
  unfolding trigger
  trigger-IsActive x r h stop has = rw has (_, (refl, activate-active x.step_fails _ stop))

  pub notify_quiet :
      (x : HealthInputs) (level : NotificationLevel) (h : HealthCoordinator D)
      → x.notifier_fails ≡ false
      → ((notify x level h).0.emergency_stop ≡ h.emergency_stop) × ((notify x level h).1 ≡ ok tt)
  unfolding notify
  notify_quiet x level h quiet = ground arith

  pub alarm-IsActive :
      (x : HealthInputs) (r : SystemHealthResult) (h : HealthCoordinator D) (stop : EmergencyStop)
      → h.emergency_stop ≡ some stop
      → x.notifier_fails ≡ false
      → IsActive (raise_alarm x r h).0.emergency_stop × ((raise_alarm x r h).1 ≡ ok tt)
  unfolding raise_alarm
  alarm-IsActive x r h stop has quiet =
      let (same, sent) =
        notify_quiet x critical_level (record h { critical_count = suc h.critical_count }) quiet in
      rw (raise_alarm, sent) (trigger-IsActive x r _ stop (same ∙ has), refl)

  pub handle_alerts :
      (x : HealthInputs) (r : SystemHealthResult) (h : HealthCoordinator D)
      → r.status ≡ critical
      → same_status h.last_status critical ≡ false
      → handle_transition x r h ≡ raise_alarm x r h
  unfolding handle_transition
  handle_alerts x r h e new = rw (e, new) refl

  pub alarm_raises :
      (x : HealthInputs) (r : SystemHealthResult) (h : HealthCoordinator D)
      → h.has_notifier ≡ true
      → x.notifier_fails ≡ true
      → ((raise_alarm x r h).0.emergency_stop ≡ h.emergency_stop)
        × ((raise_alarm x r h).0.last_status ≡ h.last_status)
        × ((raise_alarm x r h).1 ≡ raise notifier_raised)
  unfolding raise_alarm notify
  alarm_raises x r h has fails = ground arith

  pub finish_keeps_engine :
      (r : SystemHealthResult) (p : HealthCoordinator D × Result NotifierError (Unit {0}))
      → (finish_check r p).0.risk_engine ≡ p.0.risk_engine
  unfolding finish_check
  finish_keeps_engine r (h, ok _) = refl
  finish_keeps_engine r (h, raise e) = refl

  pub finish-IsActive :
      (r : SystemHealthResult) (p : HealthCoordinator D × Result NotifierError (Unit {0}))
      → r.status ≡ critical
      → IsActive p.0.emergency_stop × (p.1 ≡ ok tt)
      → IsActive (finish_check r p).0.emergency_stop
        × ((finish_check r p).0.last_status ≡ some critical)
        × (is_ok (finish_check r p).1 ≡ true)
  unfolding finish_check
  finish-IsActive r (h, ok _) e (active, done) = (active, ap some e, refl)
  finish-IsActive r (h, raise _) e (active, done) = absurd (ground arith)

  pub finish_raises :
      (r : SystemHealthResult) (p : HealthCoordinator D × Result NotifierError (Unit {0}))
      → p.1 ≡ raise notifier_raised
      → finish_check r p ≡ (p.0, raise notifier_raised)
  unfolding finish_check
  finish_raises r (h, ok _) e = absurd (ground arith)
  finish_raises r (h, raise x) e = ground arith

  pub answer_alarm :
      (x : HealthInputs) (r : SystemHealthResult) (h : HealthCoordinator D) (stop : EmergencyStop)
      → r.status ≡ critical
      → same_status h.last_status critical ≡ false
      → h.emergency_stop ≡ some stop
      → x.notifier_fails ≡ false
      → let (h', answer) = finish_check r (handle_transition x r h) in
        IsActive h'.emergency_stop × (h'.last_status ≡ some critical) × (is_ok answer ≡ true)
  answer_alarm x r h stop bad new has quiet =
      finish-IsActive r (handle_transition x r h) bad
        (rw (handle_alerts x r h bad new) (alarm-IsActive x r h stop has quiet))

  pub answer_raises :
      (x : HealthInputs) (r : SystemHealthResult) (h : HealthCoordinator D)
      → r.status ≡ critical
      → same_status h.last_status critical ≡ false
      → h.has_notifier ≡ true
      → x.notifier_fails ≡ true
      → let (h', answer) = finish_check r (handle_transition x r h) in
        (h'.emergency_stop ≡ h.emergency_stop)
        × (h'.last_status ≡ h.last_status)
        × (answer ≡ raise notifier_raised)
  answer_raises x r h bad new has fails =
      let (stop, last, sent) = alarm_raises x r h has fails in
      rw (handle_alerts x r h bad new, finish_raises r (raise_alarm x r h) sent) (stop, last, refl)
