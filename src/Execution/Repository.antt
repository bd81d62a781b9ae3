-- ===== src/Execution/Repository.antt =====
-- The tables behind app/database/paper_state_repository_pg.py, the writes that the engine schedules,
-- `flush`, and `restore_state`. A table is a dictionary under the key of its conflict clause, in
-- insertion order; its columns are those that database/migrations 048, 049 and 051 give it.
use crypto_trading_system.Base.{
  String, ◌=ₛ◌, all, Bool, Option, none, some, List, [], ◌∷◌, any, not, if◌then◌else◌,
}
use crypto_trading_system.Base.Dict.{Dict, lookup, insert, contains}
use crypto_trading_system.Models.{
  Result, ok, raise, PaperOrderState, PaperFillState, PaperPositionState, PaperRuntimeState,
}
use crypto_trading_system.Execution.State.{Engine, Write, save_state, persist_execution}

-- `numeric` is what a NUMERIC(20,8) column keeps of a number that it has room for.
pub record Database (D : Type 0) : Type 0 where
  pub numeric : D → D
  pub runtime_state : Option (PaperRuntimeState D)
  pub order_rows : Dict (PaperOrderState D)
  pub fill_rows : Dict (PaperFillState D)
  pub position_rows : Dict (PaperPositionState D)

pub data RestoreError : Type 0 where
  fills_reference_missing_orders unexpected_keyword : RestoreError

-- The columns of the tables, and the fields of the dataclasses that `State(**dict(row))` builds.
abbrev pub position_columns : List String
position_columns = "id" ∷ "symbol" ∷ "quantity" ∷ "average_price" ∷ "updated_at" ∷ []

abbrev pub order_columns : List String
order_columns =
    "id" ∷ "order_id" ∷ "symbol" ∷ "status" ∷ "created_at" ∷ "client_order_id" ∷ "side" ∷ "quantity"
    ∷ "run_id" ∷ "signal_id" ∷ []

abbrev pub fill_columns : List String
fill_columns =
    "id" ∷ "order_id" ∷ "symbol" ∷ "quantity" ∷ "price" ∷ "commission" ∷ "executed_at" ∷ "fill_id"
    ∷ "run_id" ∷ "signal_id" ∷ []

abbrev pub position_fields : List String
position_fields = "symbol" ∷ "quantity" ∷ "average_price" ∷ []

abbrev pub order_fields : List String
order_fields =
    "order_id" ∷ "symbol" ∷ "side" ∷ "quantity" ∷ "status" ∷ "created_at" ∷ "client_order_id"
    ∷ "run_id" ∷ "signal_id" ∷ []

abbrev pub fill_fields : List String
fill_fields =
    "fill_id" ∷ "order_id" ∷ "symbol" ∷ "quantity" ∷ "price" ∷ "executed_at" ∷ "run_id"
    ∷ "signal_id" ∷ []

-- Every column is a field that the constructor takes.
unfoldable pub takes : List String → List String → Bool
takes fields columns = all (λ column. any (λ field. column =ₛ field) fields) columns

-- `[State(**dict(row)) for row in rows]`, of `SELECT *`: a column that is no field raises a TypeError
-- at the first row.
unfoldable pub load_rows :
    {V : Type 0} → List String → List String → Dict V → Result RestoreError (Dict V)
unfolding takes
load_rows fields columns [] = ok []
load_rows fields columns (row ∷ rows) =
    if takes fields columns then ok (row ∷ rows) else raise unexpected_keyword

-- `{x.key: x for x in rows}`
unfoldable pub index_by {ℓ} : {V : Type ℓ} → (V → String) → Dict V → Dict V → Dict V
index_by key acc [] = acc
index_by key acc ((_, v) ∷ rows) = index_by key (insert (key v) v acc) rows

module _ {D : Type 0} where
  -- What the columns keep of an order, a fill and a position.
  unfoldable pub stored_order : (D → D) → PaperOrderState D → PaperOrderState D
  stored_order numeric o = record o { quantity = numeric o.quantity }

  unfoldable pub stored_fill : (D → D) → PaperFillState D → PaperFillState D
  stored_fill numeric f = record f { quantity = numeric f.quantity; price = numeric f.price }

  unfoldable pub stored_position : (D → D) → PaperPositionState D → PaperPositionState D
  stored_position numeric p = record p {
    quantity = numeric p.quantity;
    average_price = numeric p.average_price;
  }

  -- `save_order`: a known order keeps its row and takes the new status.
  unfoldable pub save_order : PaperOrderState D → Database D → Database D
  unfolding stored_order
  save_order o db = elim (lookup o.order_id db.order_rows) [
    | none ↦ record db { order_rows = insert o.order_id (stored_order db.numeric o) db.order_rows }
    | some old ↦ record db {
      order_rows = insert o.order_id (record old { status = o.status }) db.order_rows;
    }
  ]

  -- `save_fill`, where the database takes `ON CONFLICT(fill_id)`: a known fill keeps its row.
  unfoldable pub save_fill : PaperFillState D → Database D → Database D
  unfolding stored_fill
  save_fill f db = elim (lookup f.fill_id db.fill_rows) [
    | none ↦ record db { fill_rows = insert f.fill_id (stored_fill db.numeric f) db.fill_rows }
    | some _ ↦ db
  ]

  unfoldable pub save_position : PaperPositionState D → Database D → Database D
  unfolding stored_position
  save_position p db = record db {
    position_rows = insert p.symbol (stored_position db.numeric p) db.position_rows;
  }

  -- The snapshot that `_save_state` takes of the engine when it runs.
  unfoldable pub runtime_state_of : Engine D → PaperRuntimeState D
  runtime_state_of e = record {
    last_processed_timestamp = e.last_processed_timestamp;
    last_market_sequence = e.last_sequence;
    cash_balance = e.cash_balance;
  }

  unfoldable pub stored_runtime_state : (D → D) → PaperRuntimeState D → PaperRuntimeState D
  stored_runtime_state numeric s = record s { cash_balance = numeric s.cash_balance }

  unfoldable pub save_runtime_state : Engine D → Database D → Database D
  unfolding runtime_state_of stored_runtime_state
  save_runtime_state e db = record db {
    runtime_state = some (stored_runtime_state db.numeric (runtime_state_of e));
  }

  unfoldable pub run_write : Engine D → Write D → Database D → Database D
  unfolding save_order save_fill save_position save_runtime_state
  run_write e save_state db = save_runtime_state e db
  run_write e (persist_execution order fill position) db =
      save_runtime_state e (save_position position (save_fill fill (save_order order db)))

  unfoldable pub run_writes : Engine D → List (Write D) → Database D → Database D
  unfolding run_write
  run_writes e [] db = db
  run_writes e (w ∷ ws) db = run_writes e ws (run_write e w db)

  -- `flush`: every scheduled write is awaited, and leaves the set of pending ones.
  unfoldable pub flush : Engine D → Database D → Engine D × Database D
  unfolding run_writes
  flush e db = (record e { pending_writes = [] }, run_writes e e.pending_writes db)

  -- `{order.client_order_id: order.order_id for order in orders if …}`, over rows read so far
  unfoldable pub client_index : Dict String → Dict (PaperOrderState D) → Dict String
  client_index known [] = known
  client_index known ((_, o) ∷ rows) =
      client_index (elim o.client_order_id [ none ↦ known | some c ↦ insert c o.order_id known ])
        rows

  -- A fill names an order that is not among the orders read.
  unfoldable pub has_unknown_order : Dict (PaperFillState D) → Dict (PaperOrderState D) → Bool
  has_unknown_order fills orders = any (λ f. not (contains (f.1).order_id orders)) fills

  unfoldable pub apply_runtime_state : Option (PaperRuntimeState D) → Engine D → Engine D
  apply_runtime_state none e = e
  apply_runtime_state (some s) e = record e {
    last_sequence = s.last_market_sequence;
    last_processed_timestamp = s.last_processed_timestamp;
    cash_balance = s.cash_balance;
  }

  -- `PaperTradingRuntime._checkpoint`: the pending writes, then the runtime state.
  unfoldable pub checkpoint : Engine D → Database D → Engine D × Database D
  unfolding flush save_runtime_state
  checkpoint e db = let (e', db') = flush e db in (e', save_runtime_state e' db')

  -- The orders and fills that the rows give; the books are in place also when it raises.
  unfoldable pub restore_orders :
      Dict (PaperOrderState D)
      → Dict (PaperFillState D)
      → Engine D
      → Engine D × Result RestoreError (Unit {0})
  unfolding index_by client_index has_unknown_order
  restore_orders orders fills e =
      let e' = record e {
        orders = index_by (λ o. o.order_id) [] orders;
        fills = index_by (λ f. f.fill_id) [] fills;
        client_orders = client_index [] orders;
      } in
      if has_unknown_order e'.fills e'.orders
      then (e', raise fills_reference_missing_orders)
      else (e', ok tt)

  -- After the runtime state: the positions, and then the orders and the fills.
  unfoldable pub restore_books : Database D → Engine D → Engine D × Result RestoreError (Unit {0})
  unfolding load_rows index_by restore_orders
  restore_books db e = elim (load_rows position_fields position_columns db.position_rows) [
    | raise x ↦ (e, raise x)
    | ok positions ↦
        (let e' = record e { positions = index_by (λ p. p.symbol) [] positions } in
          elim (load_rows order_fields order_columns db.order_rows) [
            | raise x ↦ (e', raise x)
            | ok orders ↦ elim (load_rows fill_fields fill_columns db.fill_rows) [
              | raise x ↦ (e', raise x)
              | ok fills ↦ restore_orders orders fills e'
            ]
          ])
  ]

  -- `restore_state`
  unfoldable pub restore_state : Database D → Engine D → Engine D × Result RestoreError (Unit {0})
  unfolding apply_runtime_state restore_books
  restore_state db e =
      if not e.has_repository
      then (e, ok tt)
      else restore_books db (apply_runtime_state db.runtime_state e)
