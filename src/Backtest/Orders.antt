-- ===== src/Backtest/Orders.antt =====
-- The state of `BacktestEngine` and the way of one order through slippage, risk check and portfolio:
-- app/backtest/backtest_engine.py. What the engine reads from outside, the ids of `uuid4`, the
-- draws of the slippage generator and the clock of the risk engine, is numbered by `ticks`.
use crypto_trading_system.Base.{
  ℕ, zero, suc, ◌-◌, ◌/◌, String, ◌=ₛ◌, Bool, ltb, if◌then◌else◌, Option, none, some, List, [], ◌∷◌,
}
use crypto_trading_system.Base.Dict.{Dict}
use crypto_trading_system.Decimal.{Decimal}
use crypto_trading_system.Models.{Result, ok, raise}
use crypto_trading_system.Risk.Engine.{RiskLevel, RiskEvent, RiskEngine}
use crypto_trading_system.Risk.Trade.{HeldPosition, Trade}
use crypto_trading_system.Risk.Check.{RiskCheckResult}
use crypto_trading_system.Trading.OrderId.{decimal}
use crypto_trading_system.Backtest.Costs.{CommissionConfig, SlippageConfig}
use crypto_trading_system.Backtest.Position.{Position, position_value}
use crypto_trading_system.Backtest.Portfolio.{Portfolio, new_portfolio, total_equity}
use crypto_trading_system.Backtest.Signals.{Signal, Fill, BacktestError, bad_end_policy}
use Prim.Native.String.{◌++◌ as ◌++ₛ◌}

pub record BacktestConfig (D : Type 0) : Type 0 where
  pub initial_balance : D
  pub commission_config : CommissionConfig D
  pub slippage_config : SlippageConfig D
  pub end_position_policy : String

-- `BacktestConfig.__post_init__`
unfoldable pub check_config :
    {D : Type 0} → BacktestConfig D → Result BacktestError (BacktestConfig D)
check_config c =
    if c.end_position_policy =ₛ "liquidate"
    then ok c
    else if c.end_position_policy =ₛ "mark_to_market"
    then ok c
    else raise bad_end_policy

pub record Order (D : Type 0) : Type 0 where
  pub order_id : String
  pub signal : Signal D
  pub side : String
  pub quantity : D
  pub requested_price : D
  pub created_at : ℕ
  pub run_id : String
  pub signal_id : String

pub data DecisionCode : Type 0 where
  no_position : DecisionCode
  by_event : RiskEvent → DecisionCode

-- A decision, without the wording of its reasons.
pub record RiskDecision (D : Type 0) : Type 0 where
  pub order_id : String
  pub approved : Bool
  pub risk_level : RiskLevel
  pub codes : List DecisionCode
  pub requested_quantity : D
  pub approved_quantity : Option D
  pub run_id : String
  pub signal_id : String

pub record BacktestEngine (D : Type 0) : Type 0 where
  pub config : BacktestConfig D
  pub portfolio : Portfolio D
  pub risk_engine : RiskEngine D
  pub signals : List (Signal D)
  pub risk_decisions : List (RiskDecision D)
  pub orders : List (Order D)
  pub fills : List (Fill D)
  pub sequence : ℕ
  pub ticks : ℕ

-- The world outside: what the reading of a number gives.
pub record Outside (D : Type 0) : Type 0 where
  pub uuid : ℕ → String
  pub random : ℕ → D
  pub clock : ℕ → ℕ

abbrev digit_count : ℕ → ℕ → ℕ
digit_count zero n = 0
digit_count (suc fuel) n = if ltb n 10 then 1 else suc (digit_count fuel (n / 10))

abbrev zeros : ℕ → String
zeros zero = ""
zeros (suc n) = "0" ++ₛ zeros n

-- `f"bt-{prefix}-{n:08d}"`
unfoldable pub numbered_id : String → ℕ → String
numbered_id prefix n =
    "bt-" ++ₛ (prefix ++ₛ ("-" ++ₛ (zeros (8 - digit_count (suc n) n) ++ₛ decimal n)))

module _ {D : Type 0} where
  -- `_next_id` counts first and names then.
  unfoldable pub next_id : String → BacktestEngine D → BacktestEngine D × String
  unfolding numbered_id
  next_id prefix e = (record e { sequence = suc e.sequence }, numbered_id prefix (suc e.sequence))

  abbrev pub tick : BacktestEngine D → BacktestEngine D
  tick e = record e { ticks = suc e.ticks }

-- What is known of an order once its execution candidate is checked.
pub record Candidate (D : Type 0) : Type 0 where
  pub price : D
  pub quantity : D
  pub result : RiskCheckResult D

module _ {D : Type 0} ⦃dec : Decimal D⦄ where
  -- `__init__`
  unfoldable pub new_backtest : BacktestConfig D → RiskEngine D → BacktestEngine D
  unfolding new_portfolio
  new_backtest config risk_engine = record {
    config = config;
    portfolio = new_portfolio config.initial_balance;
    risk_engine = risk_engine;
    signals = [];
    risk_decisions = [];
    orders = [];
    fills = [];
    sequence = 0;
    ticks = 0;
  }

  unfoldable pub held_positions : Dict (Position D) → Dict (HeldPosition D)
  held_positions [] = []
  held_positions ((key, p) ∷ ps) =
      (key, record { symbol = some p.symbol; side = p.side; value = position_value p })
      ∷ held_positions ps

  unfoldable pub trade_of_order : Order D → D → ℕ → Portfolio D → Trade D
  unfolding held_positions
  trade_of_order o price now p = record {
    symbol = o.signal.symbol;
    side = o.side;
    quantity = o.quantity;
    price = price;
    current_balance = p.balance;
    current_positions = held_positions p.positions;
    total_capital = total_equity p;
    stop_loss_price = o.signal.stop_loss;
    database_available = none;
    api_available = none;
    reconciliation_ok = none;
    order_statuses = [];
    now = now;
  }
