-- ===== src/Backtest/Signals.antt =====
-- The candles and signals of a backtest: the domain models of app/models/trading.py, the interface
-- of app/strategies/base_strategy.py, and `_normalize_signal` of app/backtest/backtest_engine.py.
-- Of a signal's `metadata` only the "dca_level" is ever read, and its `indicators` are not; every
-- number is a decimal.
use crypto_trading_system.Base.{
  ℕ, String, ◌=ₛ◌, Bool, true, false, if◌then◌else◌, Option, none, some, List, [], ◌∷◌, get_or_else,
}
use crypto_trading_system.Decimal.{Decimal, dec_zero}
use crypto_trading_system.Models.{Result, ok, raise}
use crypto_trading_system.Backtest.Portfolio.{Portfolio}

-- A row of `candles`; a missing opening price, high or low is read as the close.
pub record Bar (D I : Type 0) : Type 0 where
  pub symbol : String
  pub open_time : ℕ
  pub open_price : Option D
  pub high : Option D
  pub low : Option D
  pub close : D
  pub volume : Option D
  pub indicators : I

pub data SignalAction : Type 0 where
  buy sell open_long close : SignalAction

pub record Signal (D : Type 0) : Type 0 where
  pub action : String
  pub symbol : String
  pub price : D
  pub quantity : D
  pub timestamp : ℕ
  pub reason : String
  pub stop_loss : Option D
  pub take_profit : Option D
  pub strategy : String
  pub parameters_version : String
  pub regime : Option String
  pub dca_level : Option ℕ
  pub signal_id : String
  pub run_id : String

-- A signal that a strategy gives as a mapping; only the action has no default.
pub record SignalMapping (D : Type 0) : Type 0 where
  pub action : Option String
  pub symbol : Option String
  pub price : Option D
  pub quantity : Option D
  pub reason : Option String
  pub stop_loss : Option D
  pub take_profit : Option D
  pub strategy : Option String
  pub parameters_version : Option String
  pub regime : Option String
  pub dca_level : Option ℕ

pub data RawSignal (D : Type 0) : Type 0 where
  signal : Signal D → RawSignal D
  mapping : SignalMapping D → RawSignal D

-- What a strategy returns: nothing, one signal, or several.
pub data Answer (D : Type 0) : Type 0 where
  nothing : Answer D
  one : RawSignal D → Answer D
  several : List (RawSignal D) → Answer D

pub record Fill (D : Type 0) : Type 0 where
  pub fill_id : String
  pub order_id : String
  pub symbol : String
  pub side : String
  pub quantity : D
  pub price : D
  pub commission : D
  pub timestamp : ℕ
  pub run_id : String
  pub signal_id : String

-- The portfolio state that `should_enter` sees.
pub record EntryView (D : Type 0) : Type 0 where
  pub has_position : Bool
  pub capital : D
  pub available_balance : D

-- The position state that `should_exit` and `should_add_dca` see.
pub record PositionView (D : Type 0) : Type 0 where
  pub symbol : String
  pub side : String
  pub entry_price : D
  pub quantity : D
  pub unrealized_pnl_pct : D
  pub holding_periods : ℕ
  pub capital : D
  pub high_water_mark : Option D

-- `BaseStrategy` with the state S that its methods change; `should_add_dca` is optional.
pub record BaseStrategy (D I S : Type 0) : Type 0 where
  pub should_enter : Bar D I → I → EntryView D → S → S × Answer D
  pub should_exit : Bar D I → I → PositionView D → S → S × Answer D
  pub should_add_dca : Option (Bar D I → I → PositionView D → S → S × Answer D)
  pub on_fill : Signal D → Fill D → S → S

pub data Strategy (D I S : Type 0) : Type 0 where
  legacy : (Bar D I → Portfolio D → S → S × Answer D) → Strategy D I S
  based : BaseStrategy D I S → Strategy D I S

pub data BacktestError : Type 0 where
  missing_action unknown_action lookback_not_positive bad_end_policy : BacktestError

-- `SignalAction(text)`
unfoldable pub parse_action : String → Option SignalAction
parse_action s =
    if s =ₛ "buy"
    then some buy
    else if s =ₛ "sell"
    then some sell
    else if s =ₛ "open_long"
    then some open_long
    else if s =ₛ "close"
    then some close
    else none

abbrev pub is_entry : SignalAction → Bool
is_entry buy = true
is_entry sell = false
is_entry open_long = true
is_entry close = false

unfoldable pub as_signal_list : {D : Type 0} → Answer D → List (RawSignal D)
as_signal_list nothing = []
as_signal_list (one s) = s ∷ []
as_signal_list (several ss) = ss

module _ {D : Type 0} ⦃dec : Decimal D⦄ {I : Type 0} where
  -- `_normalize_signal`; `fresh` is the id that `uuid4` draws for a signal made from a mapping.
  unfoldable pub normalize_signal :
      RawSignal D → Bar D I → ℕ → String → String → Result BacktestError (Signal D)
  normalize_signal (signal s) candle timestamp run_id fresh = ok s
  normalize_signal (mapping m) candle timestamp run_id fresh = elim m.action [
    | none ↦ raise missing_action
    | some action ↦ ok (record {
      action = action;
      symbol = get_or_else m.symbol candle.symbol;
      price = get_or_else m.price candle.close;
      quantity = get_or_else m.quantity dec_zero;
      timestamp = timestamp;
      reason = get_or_else m.reason "";
      stop_loss = m.stop_loss;
      take_profit = m.take_profit;
      strategy = get_or_else m.strategy "";
      parameters_version = get_or_else m.parameters_version "";
      regime = m.regime;
      dca_level = m.dca_level;
      signal_id = fresh;
      run_id = run_id;
    })
  ]
