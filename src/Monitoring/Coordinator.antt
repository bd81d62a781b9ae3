-- ===== src/Monitoring/Coordinator.antt =====
-- `HealthCoordinator.check_now` of app/monitoring/health_coordinator.py. What the injected checks
-- of the database answer, whether the notifier raises, and which steps of the emergency stop raise,
-- are arguments; the wording of the reasons is left out.
use crypto_trading_system.Base.{
  ℕ, suc, Bool, true, false, ◌||◌, not, ltb, if◌then◌else◌, Option, none, some, List, [], ◌∷◌, ◌++◌,
  length, is_some,
}
use crypto_trading_system.Decimal.{Decimal, dec_zero}
use crypto_trading_system.Models.{Result, ok, raise}
use crypto_trading_system.Indicators.Slices.{last_slice}
use crypto_trading_system.Risk.Engine.{RiskEngine, update_system_health}
use crypto_trading_system.Risk.EmergencyStop.{
  EmergencyStop, EmergencyReason, db_failure, reconciliation_failed, runtime_error, Step, activate,
}
use crypto_trading_system.Monitoring.Monitors.{
  CheckFailed, DatabaseHealthMonitor, DatabaseHealthStatus, database_ok, degraded, unavailable,
  DatabaseHealthResult, check_database, RiskHealthStatus, risk_warning, risk_critical,
  RiskHealthReason, RiskHealthResult, check_risk,
}

pub data SystemHealthStatus : Type 0 where
  healthy system_degraded critical : SystemHealthStatus

pub data HealthReason : Type 0 where
  database_reason : HealthReason
  risk_reason : RiskHealthReason → HealthReason

pub record SystemHealthResult : Type 0 where
  pub status : SystemHealthStatus
  pub database : Option DatabaseHealthStatus
  pub risk : Option RiskHealthStatus
  pub reasons : List HealthReason
  pub checked_at : ℕ

pub data NotificationLevel : Type 0 where
  info_level warning_level critical_level : NotificationLevel

pub data NotifierError : Type 0 where
  notifier_raised : NotifierError

-- The notifications are those that the notifier was asked to send, whether or not it raised.
pub record HealthCoordinator (D : Type 0) : Type 0 where
  pub database_monitor : Option DatabaseHealthMonitor
  pub has_risk_monitor : Bool
  pub risk_engine : Option (RiskEngine D)
  pub emergency_stop : Option EmergencyStop
  pub has_notifier : Bool
  pub notifications : List NotificationLevel
  pub last_status : Option SystemHealthStatus
  pub check_count : ℕ
  pub critical_count : ℕ
  pub history : List SystemHealthResult

-- What the world answers during one check.
pub record HealthInputs : Type 0 where
  pub connected : Result CheckFailed Bool
  pub checkpoint : Result CheckFailed Bool
  pub latency : ℕ
  pub now : ℕ
  pub notifier_fails : Bool
  pub step_fails : Step → Bool

abbrev pub is_unavailable : DatabaseHealthStatus → Bool
is_unavailable database_ok = false
is_unavailable degraded = false
is_unavailable unavailable = true

abbrev pub is_database_degraded : DatabaseHealthStatus → Bool
is_database_degraded degraded = true
is_database_degraded _ = false

abbrev pub is_risk_critical : RiskHealthStatus → Bool
is_risk_critical risk_critical = true
is_risk_critical _ = false

abbrev pub is_risk_warning : RiskHealthStatus → Bool
is_risk_warning risk_warning = true
is_risk_warning _ = false

abbrev pub holds : {A : Type 0} → (A → Bool) → Option A → Bool
holds p none = false
holds p (some a) = p a

unfoldable pub overall_status :
    Option DatabaseHealthStatus → Option RiskHealthStatus → SystemHealthStatus
overall_status database risk =
    if holds is_unavailable database || holds is_risk_critical risk
    then critical
    else if holds is_database_degraded database || holds is_risk_warning risk
    then system_degraded
    else healthy

-- `previous == current`
abbrev pub same_status : Option SystemHealthStatus → SystemHealthStatus → Bool
same_status (some healthy) healthy = true
same_status (some system_degraded) system_degraded = true
same_status (some critical) critical = true
same_status _ _ = false

-- `_classify_emergency`; the pipeline is never asked.
unfoldable pub classify_emergency : SystemHealthResult → EmergencyReason
classify_emergency r =
    if holds is_unavailable r.database
    then db_failure
    else if holds is_risk_critical r.risk
    then reconciliation_failed
    else runtime_error

abbrev pub risk_reasons : List RiskHealthReason → List HealthReason
risk_reasons [] = []
risk_reasons (r ∷ rs) = risk_reason r ∷ risk_reasons rs

-- `history[-100:]`, once it is longer than that.
unfoldable pub remember_result :
    SystemHealthResult → List SystemHealthResult → List SystemHealthResult
remember_result r history =
    let longer = history ++ (r ∷ []) in
    if ltb 100 (length longer) then last_slice 100 longer else longer

abbrev pub database_reasons : Option DatabaseHealthResult → List HealthReason
database_reasons none = []
database_reasons (some r) = if r.trading_enabled then [] else database_reason ∷ []

abbrev pub database_status : Option DatabaseHealthResult → Option DatabaseHealthStatus
database_status none = none
database_status (some r) = some r.status

module _ {D : Type 0} where
  -- A call of the notifier, if there is one; it may raise.
  unfoldable pub notify :
      HealthInputs
      → NotificationLevel
      → HealthCoordinator D
      → HealthCoordinator D × Result NotifierError (Unit {0})
  notify x level h =
      if h.has_notifier
      then (
        record h { notifications = h.notifications ++ (level ∷ []) },
        if x.notifier_fails then raise notifier_raised else ok tt,
      )
      else (h, ok tt)

  -- `emergency_stop.activate`, whose exceptions are caught and logged.
  unfoldable pub trigger :
      HealthInputs → SystemHealthResult → HealthCoordinator D → HealthCoordinator D
  unfolding classify_emergency activate
  trigger x r h = elim h.emergency_stop [
    | none ↦ h
    | some stop ↦ record h {
      emergency_stop = some (activate x.step_fails (classify_emergency r) stop).0;
    }
  ]

  -- The transition to CRITICAL: the notification, and then the stop.
  unfoldable pub raise_alarm :
      HealthInputs
      → SystemHealthResult
      → HealthCoordinator D
      → HealthCoordinator D × Result NotifierError (Unit {0})
  unfolding notify trigger
  raise_alarm x r h =
      let (h', sent) =
        notify x critical_level (record h { critical_count = suc h.critical_count }) in
      elim sent [ raise e ↦ (h', raise e) | ok _ ↦ (trigger x r h', ok tt) ]

  -- `_handle_transition`
  unfoldable pub handle_transition :
      HealthInputs
      → SystemHealthResult
      → HealthCoordinator D
      → HealthCoordinator D × Result NotifierError (Unit {0})
  unfolding raise_alarm
  handle_transition x r h =
      if same_status h.last_status r.status then (h, ok tt) else elim r.status [
        | critical ↦ raise_alarm x r h
        | system_degraded ↦ notify x warning_level h
        | healthy ↦ if is_some h.last_status then notify x info_level h else (h, ok tt)
      ]

  -- The check of the database, which also tells the risk engine.
  unfoldable pub database_health :
      HealthInputs → HealthCoordinator D → HealthCoordinator D × Option DatabaseHealthResult
  unfolding update_system_health check_database
  database_health x h = elim h.database_monitor [
    | none ↦ (h, none)
    | some m ↦
        (let (m', r) = check_database x.connected x.checkpoint x.latency m in
          (
            record h {
              database_monitor = some m';
              risk_engine = elim h.risk_engine [
                | none ↦ none
                | some e ↦ some (update_system_health (not (is_unavailable r.status)) true e)
              ];
            },
            some r,
          ))
  ]

  -- After the handler: the exception goes on, or the status is remembered.
  unfoldable pub finish_check :
      SystemHealthResult
      → HealthCoordinator D × Result NotifierError (Unit {0})
      → HealthCoordinator D × Result NotifierError SystemHealthResult
  finish_check r (h, raise e) = (h, raise e)
  finish_check r (h, ok _) = (record h { last_status = some r.status }, ok r)

module _ {D : Type 0} ⦃dec : Decimal D⦄ where
  unfoldable pub risk_health : HealthCoordinator D → Option (RiskHealthResult D)
  unfolding check_risk
  risk_health h =
      if h.has_risk_monitor
      then elim h.risk_engine [ none ↦ none | some e ↦ some (check_risk dec_zero e) ]
      else none

  abbrev pub risk_status_of : Option (RiskHealthResult D) → Option RiskHealthStatus
  risk_status_of none = none
  risk_status_of (some r) = some r.risk_status

  abbrev pub reasons_of : Option (RiskHealthResult D) → List HealthReason
  reasons_of none = []
  reasons_of (some r) = if r.trading_enabled then [] else risk_reasons r.reasons

  -- The result of the monitors, and the coordinator after it is stored.
  unfoldable pub examine :
      HealthInputs → HealthCoordinator D → HealthCoordinator D × SystemHealthResult
  unfolding database_health risk_health overall_status remember_result
  examine x h =
      let (h1, database) = database_health x (record h { check_count = suc h.check_count }) in
      let risk = risk_health h1 in
      let r : SystemHealthResult = record {
        status = overall_status (database_status database) (risk_status_of risk);
        database = database_status database;
        risk = risk_status_of risk;
        reasons = database_reasons database ++ reasons_of risk;
        checked_at = x.now;
      } in
      (record h1 { history = remember_result r h1.history }, r)

  unfoldable pub check_now :
      HealthInputs
      → HealthCoordinator D
      → HealthCoordinator D × Result NotifierError SystemHealthResult
  unfolding examine handle_transition finish_check
  check_now x h = let (h1, r) = examine x h in finish_check r (handle_transition x r h1)
