-- ===== src/Monitoring/Gating.antt =====
-- What a health check does about a database that does not answer: the emergency stop, the risk
-- engine's gate on new exposure, and the failing notifier.
use crypto_trading_system.Base.{
  suc, ◌≡◌, sym, ap, ◌∙◌, inl, inr, Bool-cases, true, false, none, some, arith,
}
use crypto_trading_system.Decimal.{Decimal}
use crypto_trading_system.Models.{raise}
use crypto_trading_system.Risk.Engine.{RiskEngine}
use crypto_trading_system.Risk.Trade.{Trade, reducing}
use crypto_trading_system.Risk.Check.{check_trade}
use crypto_trading_system.Risk.Approval.{check_trade_approves}
use crypto_trading_system.Risk.EmergencyStop.{EmergencyStop}
use crypto_trading_system.Monitoring.Monitors.{DatabaseHealthMonitor}
use crypto_trading_system.Monitoring.Coordinator.{
  HealthCoordinator, HealthInputs, critical, same_status, notifier_raised, handle_transition,
  examine, check_now,
}
use crypto_trading_system.Monitoring.Alarms.{
  Downed, IsActive, answer_alarm, answer_raises, connects, database_health_down,
  finish_keeps_engine, handle_keeps_engine, is_ok, overall-critical,
}

module _ {D : Type 0} ⦃dec : Decimal D⦄ where
  examine_down :
      (x : HealthInputs) (h : HealthCoordinator D) (m : DatabaseHealthMonitor)
      → h.database_monitor ≡ some m
      → connects x.connected ≡ false
      → Downed h (examine x h).0 × ((examine x h).1.status ≡ critical)
  unfolding examine
  examine_down x h m e down =
      let (d, gone) =
        database_health_down x (record h { check_count = suc h.check_count }) m e down in
      (
        record { gated = d.gated; stop = d.stop; last = d.last; told = d.told },
        overall-critical _ _ gone,
      )

  gate_refuses :
      (e : RiskEngine D) (t : Trade D)
      → e.database_available ≡ false
      → t.database_available ≡ none
      → reducing t ≡ false
      → (check_trade e t).1.approved ≡ false
  gate_refuses e t closed own adds = elim (Bool-cases (check_trade e t).1.approved) [
    | inr refused ↦ refused
    | inl approved ↦ elim ((check_trade_approves e t).0 approved).1 [
      | inl less ↦ absurd (ground arith)
      | inr within ↦ let up = within.database_up in absurd (ground arith)
    ]
  ]

  -- A health check whose database does not answer closes the engine's gate, whatever the notifier and
  -- the emergency stop do: afterwards the risk engine approves no trade that adds exposure and leaves
  -- the database's state to the engine.
  pub check_now_gates :
      (x : HealthInputs) (h : HealthCoordinator D) (m : DatabaseHealthMonitor)
      → h.database_monitor ≡ some m
      → connects x.connected ≡ false
      → (e : RiskEngine D) → (check_now x h).0.risk_engine ≡ some e
      → (t : Trade D) → t.database_available ≡ none
      → reducing t ≡ false
      → (check_trade e t).1.approved ≡ false
  unfolding check_now
  check_now_gates x h m monitor down e engine t own adds =
      let (d, _) = examine_down x h m monitor down in
      let (h1, r) = examine x h in
      gate_refuses e t
        (d.gated e (
          sym (handle_keeps_engine x r h1)
          ∙ (sym (finish_keeps_engine r (handle_transition x r h1)) ∙ engine)))
        own adds

  -- A health check whose database does not answer, in a coordinator that was not critical yet and whose
  -- notifier does not raise, returns with the emergency stop active and the critical status remembered,
  -- whichever steps of the stop fail.
  pub check_now-IsActive :
      (x : HealthInputs) (h : HealthCoordinator D) (m : DatabaseHealthMonitor)
      (stop : EmergencyStop)
      → h.database_monitor ≡ some m
      → connects x.connected ≡ false
      → same_status h.last_status critical ≡ false
      → h.emergency_stop ≡ some stop
      → x.notifier_fails ≡ false
      → let h' = (check_now x h).0 in
        IsActive h'.emergency_stop
        × (h'.last_status ≡ some critical)
        × (is_ok (check_now x h).1 ≡ true)
  unfolding check_now
  check_now-IsActive x h m stop monitor down new has quiet =
      let (d, bad) = examine_down x h m monitor down in
      let (h1, r) = examine x h in
      answer_alarm x r h1 stop bad (ap (λ s. same_status s critical) d.last ∙ new) (d.stop ∙ has)
        quiet

  -- If the notifier raises, a health check that finds the database gone raises its exception and leaves
  -- the emergency stop and the remembered status as they were.
  pub check_now_raises :
      (x : HealthInputs) (h : HealthCoordinator D) (m : DatabaseHealthMonitor)
      → h.database_monitor ≡ some m
      → connects x.connected ≡ false
      → same_status h.last_status critical ≡ false
      → h.has_notifier ≡ true
      → x.notifier_fails ≡ true
      → let h' = (check_now x h).0 in
        (h'.emergency_stop ≡ h.emergency_stop)
        × (h'.last_status ≡ h.last_status)
        × ((check_now x h).1 ≡ raise notifier_raised)
  unfolding check_now
  check_now_raises x h m monitor down new has fails =
      let (d, bad) = examine_down x h m monitor down in
      let (h1, r) = examine x h in
      let (stop, last, sent) =
        answer_raises x r h1 bad (ap (λ s. same_status s critical) d.last ∙ new) (d.told ∙ has)
          fails in
      (stop ∙ d.stop, last ∙ d.last, sent)
