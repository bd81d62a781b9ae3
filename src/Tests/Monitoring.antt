-- ===== src/Tests/Monitoring.antt =====
-- Health checks of a database that does not answer.
use crypto_trading_system.Base.Text.{lower_in}
use crypto_trading_system.Decimal.{sum}
use crypto_trading_system.Base.{◌≡◌, refl, Bool, true, false, none, some, []}
use crypto_trading_system.Base.Int.{ℤ, pos, ◌-ℤ◌, ◌+ℤ◌, ◌*ℤ◌}
use crypto_trading_system.Decimal.Integers.{integers}
use crypto_trading_system.Models.{ok, raise}
use crypto_trading_system.Risk.Engine.{RiskEngine, new_engine, update_system_health}
use crypto_trading_system.Risk.Trade.{
  Trade, reducing, exposure_increase, after, before, position_signed_value,
}
use crypto_trading_system.Risk.Check.{check_trade}
use crypto_trading_system.Risk.EmergencyStop.{EmergencyStop}
use crypto_trading_system.Monitoring.Monitors.{DatabaseHealthMonitor, check_failed}
use crypto_trading_system.Monitoring.Coordinator.{
  HealthCoordinator, HealthInputs, critical, notifier_raised, check_now, healthy,
}
use crypto_trading_system.Monitoring.Alarms.{IsActive, is_ok}
use crypto_trading_system.Monitoring.Gating.{check_now_gates, check_now-IsActive, check_now_raises}
use crypto_trading_system.Tests.Risk.{config, sell_half}

abbrev monitor : DatabaseHealthMonitor
monitor = record { has_checkpoint_check = true; latency_warning = 500; transaction_errors = 0 }

abbrev idle_stop : EmergencyStop
idle_stop = record { active = false; reason = none; log = [] }

abbrev coordinator : HealthCoordinator ℤ
coordinator = record {
  database_monitor = some monitor;
  has_risk_monitor = true;
  risk_engine = some (new_engine config false none);
  emergency_stop = some idle_stop;
  has_notifier = true;
  notifications = [];
  last_status = some healthy;
  check_count = 4;
  critical_count = 0;
  history = [];
}

-- The connection is lost, and every step of the emergency stop fails.
abbrev outage : Bool → HealthInputs
outage notifier_fails = record {
  connected = raise check_failed;
  checkpoint = ok true;
  latency = 30;
  now = 9;
  notifier_fails = notifier_fails;
  step_fails = λ step. true;
}

abbrev buy : Trade ℤ
buy = record sell_half { side = "Buy"; current_balance = pos 900 }

adds_exposure : reducing buy ≡ false
unfolding reducing exposure_increase ◌-ℤ◌ after ◌+ℤ◌ before sum position_signed_value lower_in ◌*ℤ◌
adds_exposure = refl

abbrev gated : RiskEngine ℤ
gated = update_system_health false true (new_engine config false none)

-- The notifier raises, and the gate is closed all the same.
engine_after : (check_now (outage true) coordinator).0.risk_engine ≡ some gated
unfolding check_now
engine_after = refl

check_now_gates_example : (check_trade gated buy).1.approved ≡ false
check_now_gates_example =
    check_now_gates (outage true) coordinator monitor refl refl gated engine_after buy refl
      adds_exposure

check_now-IsActive_example :
    let h' = (check_now (outage false) coordinator).0 in
    IsActive h'.emergency_stop
    × (h'.last_status ≡ some critical)
    × (is_ok (check_now (outage false) coordinator).1 ≡ true)
check_now-IsActive_example =
    check_now-IsActive (outage false) coordinator monitor idle_stop refl refl refl refl refl

check_now_raises_example :
    let h' = (check_now (outage true) coordinator).0 in
    (h'.emergency_stop ≡ some idle_stop)
    × (h'.last_status ≡ some healthy)
    × ((check_now (outage true) coordinator).1 ≡ raise notifier_raised)
check_now_raises_example =
    check_now_raises (outage true) coordinator monitor refl refl refl refl refl
