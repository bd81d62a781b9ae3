-- ===== src/Tests/Risk.antt =====
-- A risk engine, trades that it approves and refuses, and an emergency stop.
use crypto_trading_system.Base.{
  ◌≡◌, refl, Bool, true, false, none, some, List, [], ◌∷◌, arith, ◌⊎◌, ◌↔◌,
}
use crypto_trading_system.Base.Int.{ℤ, pos, ◌+ℤ◌, ◌*ℤ◌}
use crypto_trading_system.Base.Text.{lower_is, lower_in}
use crypto_trading_system.Decimal.{◌<?◌, ◌⊗◌, sum}
use crypto_trading_system.Decimal.Integers.{integers}
use crypto_trading_system.Risk.Engine.{
  RiskConfig, RiskEngine, low, new_engine, state_of, set_emergency_stop,
}
use crypto_trading_system.Risk.Trade.{
  HeldPosition, Trade, before, values_of, position_signed_value, reducing,
}
use crypto_trading_system.Risk.Check.{check_trade}
use crypto_trading_system.Risk.Limits.{IsOrderly, WithinLimits}
use crypto_trading_system.Risk.Approval.{check_trade_approves, check_trade_lets_reduce}
use crypto_trading_system.Risk.State.{Update, failure, equity, pnl, emergency}
use crypto_trading_system.Risk.EmergencyStop.{EmergencyStop, Step, record_risk_event}

abbrev pub config : RiskConfig ℤ
config = record {
  max_risk_per_trade = pos 1;
  max_position_size = pos 1;
  max_asset_exposure = pos 1;
  max_capital_utilization = pos 1;
  daily_loss_limit = pos 1;
  weekly_loss_limit = pos 1;
  max_drawdown = pos 1;
  max_open_positions = 5;
  stale_data_threshold_minutes = 10;
}

abbrev pub stopped_engine : RiskEngine ℤ
stopped_engine = set_emergency_stop true "Manual" (new_engine config false none)

abbrev held : HeldPosition ℤ
held = record { symbol = some "BTCUSDT"; side = "long"; value = pos 100 }

abbrev pub sell_half : Trade ℤ
sell_half = record {
  symbol = "BTCUSDT";
  side = "Sell";
  quantity = pos 5;
  price = pos 10;
  current_balance = pos 0;
  current_positions = ("BTCUSDT", held) ∷ [];
  total_capital = pos 1000;
  stop_loss_price = none;
  database_available = none;
  api_available = some false;
  reconciliation_ok = none;
  order_statuses = "mystery" ∷ [];
  now = 7;
}

check_trade_approves_example :
    ((check_trade stopped_engine sell_half).1.approved ≡ true)
    ↔ (IsOrderly sell_half × ((reducing sell_half ≡ true) ⊎ WithinLimits stopped_engine sell_half))
check_trade_approves_example = check_trade_approves stopped_engine sell_half

orderly : IsOrderly sell_half
unfolding lower_is
orderly = ground arith

covered : (before sell_half <? sell_half.quantity ⊗ sell_half.price) ≡ false
unfolding before sum ◌+ℤ◌ position_signed_value lower_in values_of ◌*ℤ◌
covered = refl

not_buying : lower_is sell_half.side "buy" ≡ false
unfolding lower_is
not_buying = refl

check_trade_lets_reduce_example :
    let result = (check_trade stopped_engine sell_half).1 in
    (result.approved ≡ true)
    × (result.events ≡ [])
    × (result.reasons ≡ [])
    × (result.risk_level ≡ low)
check_trade_lets_reduce_example =
    check_trade_lets_reduce stopped_engine sell_half orderly not_buying covered

abbrev stored_engine : RiskEngine ℤ
stored_engine = record (new_engine config true none) {
  saved_state = some (state_of (new_engine config true none));
}

abbrev day : List (Update ℤ)
day =
    equity (pos 90) ∷ pnl (pos 3) (pos 4) ∷ failure ∷ emergency true "Manual" ∷ equity (pos 80) ∷ []

abbrev armed : EmergencyStop
armed = record { active = false; reason = none; log = [] }

-- Recording the risk event fails.
abbrev one_fails : Step → Bool
one_fails record_risk_event = true
one_fails _ = false
