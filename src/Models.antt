-- ===== src/Models.antt =====
-- The data that the paper-trading components exchange: app/models/candle.py, market_event.py,
-- paper_order_state.py, paper_fill_state.py, paper_position_state.py and paper_state.py. Times are
-- microseconds of UTC; the event's `source` and `request_metadata` carry no behaviour.
use crypto_trading_system.Base.{ℕ, String, leb, if◌then◌else◌, Option, ◌≡◌, refl, ◌⊎◌, inl, inr}
use crypto_trading_system.Decimal.{Decimal, ◌<?◌, max, min}

-- What a call gives back: a value, or the exception that it raises.
pub data Result {ℓ} (E : Type ℓ) (A : Type ℓ) : Type ℓ where
  ok : A → Result E A
  raise : E → Result E A

pub Result-cases :
    {E A : Type 0} (r : Result E A) → ((x : E) × (r ≡ raise x)) ⊎ ((a : A) × (r ≡ ok a))
Result-cases (raise x) = inl (x, refl)
Result-cases (ok a) = inr (a, refl)

pub record Candle (D : Type 0) : Type 0 where
  pub symbol : String
  pub open_time : ℕ
  pub close_time : ℕ
  pub open_price : D
  pub high : D
  pub low : D
  pub close : D
  pub volume : D

pub data CandleError : Type 0 where
  close_not_after_open invalid_high invalid_low : CandleError

module _ {D : Type 0} ⦃dec : Decimal D⦄ where
  -- `Candle.validate`
  unfoldable pub validate : Candle D → Result CandleError (Unit {0})
  validate c =
      if leb c.close_time c.open_time
      then raise close_not_after_open
      else if c.high <? max c.open_price c.close
      then raise invalid_high
      else if min c.open_price c.close <? c.low
      then raise invalid_low
      else ok tt

pub record MarketEvent (D : Type 0) : Type 0 where
  pub candle : Candle D
  pub sequence : ℕ

pub data OrderSide : Type 0 where
  buy sell : OrderSide

-- `OrderSide.value`, the text that an order row keeps.
unfoldable pub side_value : OrderSide → String
side_value buy = "BUY"
side_value sell = "SELL"

pub record PaperOrderState (D : Type 0) : Type 0 where
  pub order_id : String
  pub symbol : String
  pub side : String
  pub quantity : D
  pub status : String
  pub created_at : ℕ
  pub client_order_id : Option String
  pub run_id : Option String
  pub signal_id : Option String

pub record PaperFillState (D : Type 0) : Type 0 where
  pub fill_id : String
  pub order_id : String
  pub symbol : String
  pub quantity : D
  pub price : D
  pub executed_at : ℕ
  pub run_id : Option String
  pub signal_id : Option String

pub record PaperPositionState (D : Type 0) : Type 0 where
  pub symbol : String
  pub quantity : D
  pub average_price : D

pub record PaperRuntimeState (D : Type 0) : Type 0 where
  pub last_processed_timestamp : Option ℕ
  pub last_market_sequence : ℕ
  pub cash_balance : D
