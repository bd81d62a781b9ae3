-- ===== src/Execution/Recovery.antt =====
-- What market events and executions leave in the tables, and what a restart makes of the rows that a
-- checkpoint has written.
use crypto_trading_system.Base.{
  ◌≡◌, ap, refl, sym, ◌∙◌, Bool, true, false, ◌&&◌, if◌then◌else◌, [], ◌∷◌, Option, none, some,
  arith, ◌⊎◌, inl, inr, Option-cases,
}
use crypto_trading_system.Base.Dict.{Dict, lookup, map_values}
use crypto_trading_system.Decimal.{Decimal}
use crypto_trading_system.Models.{
  ok, raise, MarketEvent, PaperOrderState, PaperFillState, PaperPositionState, PaperRuntimeState,
}
use crypto_trading_system.Execution.State.{
  Engine, ExecutionRequest, FillResult, Draw, Tags, order_id_of, execution_price,
}
use crypto_trading_system.Execution.Engine.{book_fill, on_market_event, execute}
use crypto_trading_system.Execution.Repository.{
  Database, checkpoint, restore_state, restore_books, restore_orders, load_rows, takes,
  unexpected_keyword, index_by, client_index, has_unknown_order, stored_order, stored_fill,
  stored_position, stored_runtime_state, runtime_state_of, apply_runtime_state,
}
use crypto_trading_system.Execution.Rows.{run_writes_numeric}
use crypto_trading_system.Execution.Durable.{
  IsDurable, market_saved, market_books, book_fill-IsDurable,
}

abbrev pub lacks_rows : {V : Type 0} → Dict V → Bool
lacks_rows [] = true
lacks_rows (_ ∷ _) = false

lacks_rows-map_values :
    {V W : Type 0} (f : V → W) (d : Dict V) → lacks_rows (map_values f d) ≡ lacks_rows d
lacks_rows-map_values f [] = refl
lacks_rows-map_values f (_ ∷ _) = refl

module _ {D : Type 0} ⦃dec : Decimal D⦄ where
  -- If the tables, with the pending writes, hold the books, then a market event keeps it so.
  pub on_market_event-IsDurable :
      (ev : MarketEvent D) (e : Engine D) (db : Database D)
      → IsDurable e db
      → IsDurable (on_market_event ev e).0 db
  on_market_event-IsDurable ev e db d =
      let (r, l, o, f, p, c) = market_books ev e in
      record {
        persists = r ∙ d.persists;
        looped = l ∙ d.looped;
        orders_saved = λ x.
            (market_saved ev e db x).0
            ∙ d.orders_saved x
            ∙ ap (map_values (stored_order db.numeric)) (sym o);
        fills_saved = λ x.
            (market_saved ev e db x).1
            ∙ d.fills_saved x
            ∙ ap (map_values (stored_fill db.numeric)) (sym f);
        positions_saved = λ x.
            (market_saved ev e db x).2
            ∙ d.positions_saved x
            ∙ ap (map_values (stored_position db.numeric)) (sym p);
        orders_keyed = rw o d.orders_keyed;
        fills_keyed = rw f d.fills_keyed;
        positions_keyed = rw p d.positions_keyed;
        clients_indexed = rw (o, c) d.clients_indexed;
        fills_known = rw (f, o) d.fills_known;
      }

  execute_books_at :
      (request : ExecutionRequest D) (price : Option D) (tags : Tags) (draw : Draw) (e : Engine D)
      (p : D)
      → execution_price price e.last_candle ≡ some p
      → ((execute request price tags draw e).0 ≡ e)
        ⊎ ((execute request price tags draw e).0
            ≡ book_fill request
                (record { quantity = request.quantity; price = p; executed_at = draw.now })
                tags
                draw
                e)
  unfolding execute
  execute_books_at request price tags draw e p h = ground arith

  execute_unpriced :
      (request : ExecutionRequest D) (price : Option D) (tags : Tags) (draw : Draw) (e : Engine D)
      → execution_price price e.last_candle ≡ none
      → (execute request price tags draw e).0 ≡ e
  unfolding execute
  execute_unpriced request price tags draw e h = ground arith

  -- `execute` either leaves the engine alone or books one fill of the request.
  execute_books :
      (request : ExecutionRequest D) (price : Option D) (tags : Tags) (draw : Draw) (e : Engine D)
      → ((execute request price tags draw e).0 ≡ e)
        ⊎ ((fill : FillResult D) × ((execute request price tags draw e).0
              ≡ book_fill request fill tags draw e))
  execute_books request price tags draw e =
      elim (Option-cases (execution_price price e.last_candle)) [
        | inl missing ↦ inl (execute_unpriced request price tags draw e missing)
        | inr (p, found) ↦ elim (execute_books_at request price tags draw e p found) [
          | inl same ↦ inl same
          | inr booked ↦ inr (_, booked)
        ]
      ]

  pub execute-IsDurable :
      (request : ExecutionRequest D) (price : Option D) (tags : Tags) (draw : Draw) (e : Engine D)
      (db : Database D)
      → IsDurable e db
      → lookup (order_id_of tags.client_order_id draw.order_id) e.orders ≡ none
      → lookup draw.fill_id e.fills ≡ none
      → IsDurable (execute request price tags draw e).0 db
  execute-IsDurable request price tags draw e db d new_id new_fill_id =
      elim (execute_books request price tags draw e) [
        | inl same ↦ rw same d
        | inr (fill, booked) ↦
            rw booked (book_fill-IsDurable request fill tags draw e db d new_id new_fill_id)
      ]

  -- An engine of a new process, with a repository.
  pub record IsFresh (e : Engine D) : Type 0 where
    pub persists : e.has_repository ≡ true
    pub no_positions : e.positions ≡ []
    pub no_orders : e.orders ≡ []
    pub no_fills : e.fills ≡ []
    pub no_clients : e.client_orders ≡ []

  -- Nothing has been executed.
  abbrev pub has_empty_books : Engine D → Bool
  has_empty_books e = lacks_rows e.positions && (lacks_rows e.orders && lacks_rows e.fills)

  restore_books_verdict :
      (db : Database D) (e : Engine D) (ps : Dict (PaperPositionState D))
      (os : Dict (PaperOrderState D)) (fs : Dict (PaperFillState D))
      → db.position_rows ≡ ps
      → db.order_rows ≡ os
      → db.fill_rows ≡ fs
      → IsFresh e
      → let (e', r) = restore_books db e in
        (r ≡ (
          if lacks_rows ps && (lacks_rows os && lacks_rows fs)
          then ok tt
          else raise unexpected_keyword))
        × (e' ≡ e)
  unfolding restore_books load_rows takes restore_orders index_by client_index has_unknown_order
  restore_books_verdict db e (p ∷ ps) os fs h k l f = rw h (refl, refl)
  restore_books_verdict db e [] (o ∷ os) fs h k l f = rw (h, k) (refl, rw f.no_positions refl)
  restore_books_verdict db e [] [] (x ∷ fs) h k l f = rw (h, k, l) (refl, rw f.no_positions refl)
  restore_books_verdict db e [] [] [] h k l f =
      rw (h, k, l) (refl, ground (arith, f.no_positions, f.no_orders, f.no_fills, f.no_clients))

  -- The tables that a checkpoint leaves: the rows of the books, and the runtime state.
  checkpoint_rows :
      (e : Engine D) (db : Database D)
      → IsDurable e db
      → let db' = (checkpoint e db).1 in
        (db'.order_rows ≡ map_values (stored_order db.numeric) e.orders)
        × (db'.fill_rows ≡ map_values (stored_fill db.numeric) e.fills)
        × (db'.position_rows ≡ map_values (stored_position db.numeric) e.positions)
        × (db'.runtime_state ≡ some (stored_runtime_state db.numeric (runtime_state_of e)))
  unfolding checkpoint runtime_state_of
  checkpoint_rows e db d = (
    d.orders_saved e,
    d.fills_saved e,
    d.positions_saved e,
    rw (run_writes_numeric e e.pending_writes db) refl,
  )

  restore_verdict :
      (db : Database D) (fresh : Engine D) (s : PaperRuntimeState D)
      → db.runtime_state ≡ some s
      → IsFresh fresh
      → restore_state db fresh ≡ restore_books db (apply_runtime_state (some s) fresh)
  unfolding restore_state
  restore_verdict db fresh s h f = rw (f.persists, h) refl

  applied-IsFresh :
      (s : PaperRuntimeState D) (fresh : Engine D)
      → IsFresh fresh
      → IsFresh (apply_runtime_state (some s) fresh)
  unfolding apply_runtime_state
  applied-IsFresh s fresh f = record {
    persists = f.persists;
    no_positions = f.no_positions;
    no_orders = f.no_orders;
    no_fills = f.no_fills;
    no_clients = f.no_clients;
  }

  -- For a database that takes every statement: let the tables, with the pending writes, hold the books
  -- of an engine, and let it take a checkpoint. An engine of a new process with a repository then
  -- restores without raising exactly if nothing had been executed; otherwise it raises the TypeError of
  -- a column that is no field. In both cases it takes over the boundaries, and the cash as its column
  -- keeps it, and its books stay empty.
  pub checkpoint-restore :
      (e fresh : Engine D) (db : Database D)
      → IsDurable e db
      → IsFresh fresh
      → let (fresh', r) = restore_state (checkpoint e db).1 fresh in
        (r ≡ (if has_empty_books e then ok tt else raise unexpected_keyword))
        × (fresh'.last_sequence ≡ e.last_sequence)
        × (fresh'.last_processed_timestamp ≡ e.last_processed_timestamp)
        × (fresh'.cash_balance ≡ db.numeric e.cash_balance)
        × (fresh'.positions ≡ [])
        × (fresh'.orders ≡ [])
        × (fresh'.fills ≡ [])
        × (fresh'.client_orders ≡ [])
  unfolding apply_runtime_state stored_runtime_state runtime_state_of
  checkpoint-restore e fresh db d f =
      let (o, l, p, s) = checkpoint_rows e db d in
      let state = stored_runtime_state db.numeric (runtime_state_of e) in
      let applied = apply_runtime_state (some state) fresh in
      let (answer, same) =
        restore_books_verdict (checkpoint e db).1 applied _ _ _ p o l
          (applied-IsFresh state fresh f) in
      rw (restore_verdict (checkpoint e db).1 fresh state s f) (
        answer
            ∙ rw
                (
                  lacks_rows-map_values (stored_position db.numeric) e.positions,
                  lacks_rows-map_values (stored_order db.numeric) e.orders,
                  lacks_rows-map_values (stored_fill db.numeric) e.fills,
                )
                refl,
        ap (λ x. x.last_sequence) same,
        ap (λ x. x.last_processed_timestamp) same,
        ap (λ x. x.cash_balance) same,
        ap (λ x. x.positions) same ∙ f.no_positions,
        ap (λ x. x.orders) same ∙ f.no_orders,
        ap (λ x. x.fills) same ∙ f.no_fills,
        ap (λ x. x.client_orders) same ∙ f.no_clients,
      )
