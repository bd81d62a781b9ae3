-- ===== src/Tests/Strategies.antt =====
-- A breakout that is armed, waits for one candle and is retested on the next; and a safety order.
use crypto_trading_system.Base.{
  ℕ, zero, suc, ◌+◌, ◌<◌, String, ◌≡◌, refl, Bool, true, false, Option, none, some, List, [], ◌∷◌,
  arith, get_or_else,
}
use crypto_trading_system.Base.Dict.{lookup}
use crypto_trading_system.Base.Int.{ℤ, pos, ◌/ℤ◌, ◌-ℤ◌, ◌*ℤ◌}
use crypto_trading_system.Decimal.{◌<?◌, ◌⊖◌, ◌⊘◌}
use crypto_trading_system.Decimal.Integers.{integers}
use crypto_trading_system.Models.{ok}
use crypto_trading_system.Indicators.Prices.{maximum}
use crypto_trading_system.Indicators.Regime.{trend_up}
use crypto_trading_system.Backtest.Signals.{Bar, Signal, signal, one, Fill, PositionView}
use crypto_trading_system.Strategies.Dca.{
  Readings, DcaConfig, DcaState, is_trend_up, safety_order, made_signal, dca_should_add,
  dca_on_fill, too_volatile,
}
use crypto_trading_system.Strategies.Retest.{
  RetestConfig, idle, breakout_armed, Breakout, SymbolState, new_symbol_state, enter_step,
}
use crypto_trading_system.Strategies.Phases.{IsSetup, enter_step-IsSetup}
use crypto_trading_system.Strategies.Levels.{IsRetest, enter_step_entry, StaysArmed, armed_ends}
use crypto_trading_system.Strategies.Entries.{after_calls, after_calls-enter_step}
use crypto_trading_system.Strategies.Safety.{dca_should_add_level}

abbrev rising : Readings ℤ
rising = record {
  ema_50 = some (pos 8);
  ema_200 = some (pos 5);
  rsi = some (pos 40);
  regime = some trend_up;
  volatility = none;
}

abbrev bar : ℕ → ℕ → ℕ → Bar ℤ (Readings ℤ)
bar time low close = record {
  symbol = "BTCUSDT";
  open_time = time;
  open_price = none;
  high = some (pos (close + 1));
  low = some (pos low);
  close = pos close;
  volume = none;
  indicators = rising;
}

abbrev dca : DcaConfig ℤ
dca = record {
  parameters_version = "v1";
  base_order_pct = pos 1;
  safety_order_1_pct = pos 1;
  safety_order_2_pct = pos 1;
  safety_order_3_pct = pos 1;
  rsi_entry_threshold = pos 45;
  take_profit_pct = pos 5;
  stop_loss_pct = pos 1;
  trailing_stop_activation = pos 3;
  trailing_stop_distance = pos 2;
  max_holding_periods = 100;
  max_capital_per_position = pos 1;
}

abbrev config : RetestConfig ℤ
config = record { dca = dca; resistance_lookback_bars = 20; retest_timeout_bars = 24 }

abbrev breakout : Breakout ℤ
breakout = record {
  breakout_time = 1;
  breakout_level = pos 10;
  breakout_close = pos 12;
  bars_since_breakout = 0;
}

abbrev setup : SymbolState ℤ
setup = record {
  phase = breakout_armed;
  breakout = some breakout;
  recent_highs = pos 10 ∷ pos 13 ∷ [];
  last_observed_time = some 1;
  last_prior_resistance = some (pos 10);
}

setup-IsSetup : IsSetup config setup
setup-IsSetup = record { pending = omega arith; window = omega arith }

-- Above the level: the setup waits.
abbrev waiting : Bar ℤ (Readings ℤ)
waiting = bar 2 11 12

abbrev retest : Bar ℤ (Readings ℤ)
retest = bar 3 9 11

enter_step-IsSetup_example :
    let (y', entry) = enter_step config waiting rising false setup in
    IsSetup config y' × ((e : Option (Breakout ℤ)) × (entry ≡ ok e))
enter_step-IsSetup_example =
    enter_step-IsSetup config waiting rising false setup (omega arith) (omega arith) setup-IsSetup

abbrev older : Breakout ℤ
older = record breakout { bars_since_breakout = 1 }

retested : (enter_step config retest rising false setup).1 ≡ ok (some older)
unfolding enter_step too_volatile
retested = refl

enter_step_entry_example :
    IsRetest config retest rising setup older
    × (false ≡ false)
    × ((enter_step config retest rising false setup).0.phase ≡ idle)
enter_step_entry_example =
    enter_step_entry config retest rising false setup (omega arith) (omega arith) retested

abbrev quick : RetestConfig ℤ
quick = record config { resistance_lookback_bars = 1 }

-- The first candle gives the resistance, and the second one breaks out.
abbrev up_to_breakout : List (Bar ℤ (Readings ℤ) × Readings ℤ × Bool)
up_to_breakout = (bar 1 9 10, rising, false) ∷ (bar 2 11 12, rising, false) ∷ []

abbrev entered : Breakout ℤ
entered = record {
  breakout_time = 2;
  breakout_level = pos 11;
  breakout_close = pos 12;
  bars_since_breakout = 1;
}

enters :
    (enter_step quick
      (bar 3 10 12)
      rising
      false
      (after_calls quick up_to_breakout new_symbol_state)).1
    ≡ ok (some entered)
unfolding after_calls enter_step too_volatile maximum
enters = refl

after_calls-enter_step_example :
    let y = after_calls quick up_to_breakout new_symbol_state in
    IsRetest quick (bar 3 10 12) rising y entered
    × (false ≡ false)
    × ((enter_step quick (bar 3 10 12) rising false y).0.phase ≡ idle)
after_calls-enter_step_example =
    after_calls-enter_step quick up_to_breakout (bar 3 10 12) rising false
      (tt, (omega arith, omega arith)) enters

-- The breakout's own candle, handed to the strategy a second time, makes the entry.
own_candle : (enter_step config (bar 1 9 11) rising false setup).1 ≡ ok (some older)
unfolding enter_step too_volatile
own_candle = refl

waits : StaysArmed config setup ((waiting, rising, false) ∷ [])
unfolding enter_step too_volatile
waits = (refl, tt)

armed_ends_example : 1 + 0 < 24
armed_ends_example =
    armed_ends config ((waiting, rising, false) ∷ []) breakout setup refl refl (omega arith) waits

abbrev held : DcaState ℤ
held = record { dca_levels = ("BTCUSDT", 1) ∷ []; trailing_highs = []; signals_made = 1 }

abbrev position : PositionView ℤ
position = record {
  symbol = "BTCUSDT";
  side = "long";
  entry_price = pos 20;
  quantity = pos 2;
  unrealized_pnl_pct = pos 0;
  holding_periods = 4;
  capital = pos 1000;
  high_water_mark = none;
}

abbrev fill : Fill ℤ
fill = record {
  fill_id = "f";
  order_id = "o";
  symbol = "BTCUSDT";
  side = "buy";
  quantity = pos 2;
  price = pos 9;
  commission = pos 0;
  timestamp = 3;
  run_id = "";
  signal_id = "s";
}

abbrev proposed : Signal ℤ
proposed =
    made_signal (record { strategy = "TrendDCA"; parameters_version = "v1"; signal_id = "s" })
      retest rising "open_long" (pos 11) (pos 90) "DCA safety order 2" none none (some 2)

proposes :
    (dca_should_add "TrendDCA" (λ n. "s") dca retest rising position held).1 ≡ one (signal proposed)
unfolding dca_should_add lookup ◌/ℤ◌ ◌-ℤ◌ ◌*ℤ◌
proposes = refl

dca_should_add_level_example :
    let level = get_or_else (lookup "BTCUSDT" held.dca_levels) zero in
    (is_trend_up rising.regime ≡ true)
    × ((order : ℤ × ℤ × String) × (safety_order dca level ≡ some order)
        × (((position.entry_price ⊖ retest.close) ⊘ position.entry_price <? order.0) ≡ false))
    × (level < 3)
    × (lookup "BTCUSDT" (dca_on_fill proposed fill held).dca_levels ≡ some (suc level))
dca_should_add_level_example =
    dca_should_add_level "TrendDCA" (λ n. "s") dca retest rising position held fill proposes
