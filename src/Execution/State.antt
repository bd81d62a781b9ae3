-- ===== src/Execution/State.antt =====
-- The state of `PaperExecutionEngine`, the arguments of a call, and the tests that its operations make.
-- Times and fresh identifiers are arguments of a call.
use crypto_trading_system.Base.{
  ℕ, String, ◌=ₛ◌, Bool, true, false, ◌&&◌, leb, if◌then◌else◌, Option, none, some, List, [], ◌∷◌,
  ◌++◌,
}
use crypto_trading_system.Base.Dict.{Dict, lookup, insert}
use crypto_trading_system.Models.{
  Result, ok, raise, Candle, CandleError, OrderSide, buy, sell, PaperOrderState, PaperFillState,
  PaperPositionState,
}

pub record ExecutionRequest (D : Type 0) : Type 0 where
  pub symbol : String
  pub side : OrderSide
  pub quantity : D

-- `status` is always `ExecutionStatus.FILLED`.
pub record ExecutionResult (D : Type 0) : Type 0 where
  pub symbol : String
  pub side : OrderSide
  pub quantity : D
  pub price : D

pub data ExecutionError : Type 0 where
  bad_quantity bad_market_price no_market_candle sell_exceeds_position : ExecutionError
  missing_order unknown_fill_state bad_side : ExecutionError
  bad_candle : CandleError → ExecutionError

pub record FillResult (D : Type 0) : Type 0 where
  pub quantity : D
  pub price : D
  pub executed_at : ℕ

-- A coroutine that `_schedule` has handed to the event loop.
pub data Write (D : Type 0) : Type 0 where
  save_state : Write D
  persist_execution : PaperOrderState D → PaperFillState D → PaperPositionState D → Write D

-- `has_loop`: the engine is called where an event loop runs.
pub record Engine (D : Type 0) : Type 0 where
  pub has_repository : Bool
  pub has_loop : Bool
  pub last_candle : Option (Candle D)
  pub last_processed_timestamp : Option ℕ
  pub last_sequence : ℕ
  pub cash_balance : D
  pub positions : Dict (PaperPositionState D)
  pub orders : Dict (PaperOrderState D)
  pub fills : Dict (PaperFillState D)
  pub client_orders : Dict String
  pub pending_writes : List (Write D)

-- The identifiers that `uuid4` draws and the clock reading of one call of `execute`.
pub record Draw : Type 0 where
  pub order_id : String
  pub fill_id : String
  pub now : ℕ

-- The keyword arguments of `execute`.
pub record Tags : Type 0 where
  pub client_order_id : Option String
  pub run_id : Option String
  pub signal_id : Option String

abbrev pub is_sell : OrderSide → Bool
is_sell buy = false
is_sell sell = true

-- `OrderSide(text)`
unfoldable pub parse_side : String → Option OrderSide
parse_side s = if s =ₛ "BUY" then some buy else if s =ₛ "SELL" then some sell else none

-- `client_order_id or str(uuid4())`: the empty text is falsy.
unfoldable pub order_id_of : Option String → String → String
order_id_of none fresh = fresh
order_id_of (some c) fresh = if c =ₛ "" then fresh else c

-- `timestamp is not None and open_time <= timestamp`
unfoldable pub is_replay : Option ℕ → ℕ → Bool
is_replay none opened = false
is_replay (some t) opened = leb opened t

-- `client_order_id is not None and client_order_id in self._client_orders`
unfoldable pub known_order : Option String → Dict String → Option String
known_order none known = none
known_order (some c) known = lookup c known

unfoldable pub remember : Option String → String → Dict String → Dict String
remember none order_id known = known
remember (some c) order_id known = insert c order_id known

module _ {D : Type 0} where
  -- `_schedule`, for an engine with a repository: without a running loop the write is dropped.
  unfoldable pub schedule : Write D → Engine D → Engine D
  schedule w e =
      if e.has_repository && e.has_loop
      then record e { pending_writes = e.pending_writes ++ (w ∷ []) }
      else e

  -- `next((item for item in self.fills.values() if item.order_id == order_id), None)`
  unfoldable pub find_fill : String → Dict (PaperFillState D) → Option (PaperFillState D)
  find_fill order_id [] = none
  find_fill order_id ((_, f) ∷ rest) =
      if f.order_id =ₛ order_id then some f else find_fill order_id rest

  -- The branch of `execute` that answers a repeated client order.
  unfoldable pub repeated_result : String → Engine D → Result ExecutionError (ExecutionResult D)
  unfolding find_fill parse_side
  repeated_result order_id e = elim (lookup order_id e.orders) [
    | none ↦ raise missing_order
    | some order ↦ elim (find_fill order_id e.fills) [
      | none ↦ raise unknown_fill_state
      | some fill ↦ elim (parse_side order.side) [
        | none ↦ raise bad_side
        | some side ↦ ok (record {
          symbol = order.symbol;
          side = side;
          quantity = fill.quantity;
          price = fill.price;
        })
      ]
    ]
  ]

  -- `market_price`, or the close of the last candle.
  unfoldable pub execution_price : Option D → Option (Candle D) → Option D
  execution_price (some p) candle = some p
  execution_price none none = none
  execution_price none (some c) = some c.close
