-- ===== src/Execution/Durable.antt =====
-- Agreement of the engine's books with the tables and the writes still pending, up to what the
-- numeric columns keep, and what a market event and a booked fill do to it.
use crypto_trading_system.Base.{String, eq_iff, ◌≡◌, refl, true, false, none, [], arith}
use crypto_trading_system.Base.Dict.{lookup, insert, lookup-insert, KeysDistinct, map_values}
use crypto_trading_system.Base.Dict.Keyed.{
  KeysDistinct-insert, OwnKeys, OwnKeys-insert, map_values-insert, lookup-map_values,
}
use crypto_trading_system.Decimal.{Decimal}
use crypto_trading_system.Models.{MarketEvent}
use crypto_trading_system.Execution.State.{
  Engine, save_state, persist_execution, ExecutionRequest, FillResult, Draw, Tags, order_id_of,
}
use crypto_trading_system.Execution.Engine.{
  book_fill, new_order, new_fill, new_position, on_market_event,
}
use crypto_trading_system.Execution.Rows.{
  run_writes-append, run_writes_numeric, client_index-insert, has_unknown_order-insert_order,
  has_unknown_order-insert_fill,
}
use crypto_trading_system.Execution.Repository.{
  Database, run_write, run_writes, client_index, stored_order, stored_fill, stored_position,
  has_unknown_order,
}

module _ {D : Type 0} where
  -- The writes are scheduled, and the tables, with those still pending, hold a row for each entry
  -- of the books: the entry, with its numbers as the columns keep them.
  pub record IsDurable (e : Engine D) (db : Database D) : Type 0 where
    pub persists : e.has_repository ≡ true
    pub looped : e.has_loop ≡ true
    pub orders_saved :
        (x : Engine D)
        → (run_writes x e.pending_writes db).order_rows
          ≡ map_values (stored_order db.numeric) e.orders
    pub fills_saved :
        (x : Engine D)
        → (run_writes x e.pending_writes db).fill_rows ≡ map_values (stored_fill db.numeric) e.fills
    pub positions_saved :
        (x : Engine D)
        → (run_writes x e.pending_writes db).position_rows
          ≡ map_values (stored_position db.numeric) e.positions
    pub orders_keyed : OwnKeys (λ o. o.order_id) e.orders × KeysDistinct e.orders
    pub fills_keyed : OwnKeys (λ f. f.fill_id) e.fills × KeysDistinct e.fills
    pub positions_keyed : OwnKeys (λ p. p.symbol) e.positions × KeysDistinct e.positions
    pub clients_indexed : client_index [] e.orders ≡ e.client_orders
    pub fills_known : has_unknown_order e.fills e.orders ≡ false

module _ {D : Type 0} ⦃dec : Decimal D⦄ where
  pub market_saved :
      (ev : MarketEvent D) (e : Engine D) (db : Database D) (x : Engine D)
      → let e' = (on_market_event ev e).0 in
        let old = run_writes x e.pending_writes db in
        let new = run_writes x e'.pending_writes db in
        (new.order_rows ≡ old.order_rows)
        × (new.fill_rows ≡ old.fill_rows)
        × (new.position_rows ≡ old.position_rows)
  unfolding on_market_event run_write
  market_saved ev e db x = ground (arith, run_writes-append x e.pending_writes save_state db)

  pub market_books :
      (ev : MarketEvent D) (e : Engine D)
      → let e' = (on_market_event ev e).0 in
        (e'.has_repository ≡ e.has_repository)
        × (e'.has_loop ≡ e.has_loop)
        × (e'.orders ≡ e.orders)
        × (e'.fills ≡ e.fills)
        × (e'.positions ≡ e.positions)
        × (e'.client_orders ≡ e.client_orders)
  unfolding on_market_event
  market_books ev e = ground arith

  module _ (request : ExecutionRequest D) (fill : FillResult D) (tags : Tags) (draw : Draw)
      (e : Engine D) (db : Database D) (d : IsDurable e db)
      (new_id : lookup (order_id_of tags.client_order_id draw.order_id) e.orders ≡ none)
      (new_fill_id : lookup draw.fill_id e.fills ≡ none) where
    abbrev oid : String
    oid = order_id_of tags.client_order_id draw.order_id

    book_fill-saved :
        (x : Engine D)
        → let e' = book_fill request fill tags draw e in
          let db' = run_writes x e'.pending_writes db in
          (db'.order_rows ≡ map_values (stored_order db.numeric) e'.orders)
          × (db'.fill_rows ≡ map_values (stored_fill db.numeric) e'.fills)
          × (db'.position_rows ≡ map_values (stored_position db.numeric) e'.positions)
    unfolding book_fill run_write
    book_fill-saved x =
        let order = new_order request fill tags draw in
        let fill_state = new_fill request fill tags draw in
        let position = new_position request fill e in
        ground (
          arith,
          d.persists,
          d.looped,
          d.orders_saved x,
          d.fills_saved x,
          d.positions_saved x,
          run_writes_numeric x e.pending_writes db,
          map_values-insert (stored_order db.numeric) oid order e.orders,
          map_values-insert (stored_fill db.numeric) draw.fill_id fill_state e.fills,
          map_values-insert (stored_position db.numeric) request.symbol position e.positions,
          lookup-map_values (stored_order db.numeric) oid e.orders new_id,
          lookup-map_values (stored_fill db.numeric) draw.fill_id e.fills new_fill_id,
          run_writes-append x e.pending_writes (persist_execution order fill_state position) db,
        )

    book_fill-known :
        let e' = book_fill request fill tags draw e in has_unknown_order e'.fills e'.orders ≡ false
    unfolding book_fill
    book_fill-known = ground (
      arith,
      has_unknown_order-insert_order oid (new_order request fill tags draw) e.fills e.orders,
      has_unknown_order-insert_fill draw.fill_id (new_fill request fill tags draw) e.fills
          (insert oid (new_order request fill tags draw) e.orders),
      lookup-insert oid oid (new_order request fill tags draw) e.orders,
      eq_iff oid oid,
    )

    book_fill-books :
        let e' = book_fill request fill tags draw e in
        (e'.has_repository ≡ true)
        × (e'.has_loop ≡ true)
        × (e'.orders ≡ insert oid (new_order request fill tags draw) e.orders)
        × (e'.fills ≡ insert draw.fill_id (new_fill request fill tags draw) e.fills)
        × (e'.positions ≡ insert request.symbol (new_position request fill e) e.positions)
    unfolding book_fill
    book_fill-books = ground (arith, d.persists, d.looped)

    book_fill-indexed :
        let e' = book_fill request fill tags draw e in client_index [] e'.orders ≡ e'.client_orders
    unfolding book_fill
    book_fill-indexed =
        ground (arith, client_index-insert [] oid (new_order request fill tags draw) e.orders)

    pub book_fill-IsDurable : IsDurable (book_fill request fill tags draw e) db
    unfolding new_order new_fill new_position
    book_fill-IsDurable =
        let (r, l, o, f, p) = book_fill-books in
        record {
          persists = r;
          looped = l;
          orders_saved = λ x. (book_fill-saved x).0;
          fills_saved = λ x. (book_fill-saved x).1;
          positions_saved = λ x. (book_fill-saved x).2;
          orders_keyed = rw o (
            OwnKeys-insert (λ o. o.order_id) oid _ e.orders refl d.orders_keyed.0,
            KeysDistinct-insert oid _ e.orders d.orders_keyed.1,
          );
          fills_keyed = rw f (
            OwnKeys-insert (λ f. f.fill_id) draw.fill_id _ e.fills refl d.fills_keyed.0,
            KeysDistinct-insert draw.fill_id _ e.fills d.fills_keyed.1,
          );
          positions_keyed = rw p (
            OwnKeys-insert (λ p. p.symbol) request.symbol _ e.positions refl d.positions_keyed.0,
            KeysDistinct-insert request.symbol _ e.positions d.positions_keyed.1,
          );
          clients_indexed = book_fill-indexed;
          fills_known = book_fill-known;
        }
