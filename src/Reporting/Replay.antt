-- ===== src/Reporting/Replay.antt =====
-- The fills of the paper execution engine, replayed by `PaperPnLTracker`: the positions that the
-- tracker derives from the history are those that the engine keeps.
use crypto_trading_system.Base.{
  String, ◌=ₛ◌, eq_iff, eq_refl, ◌≡◌, refl, ap, ◌∙◌, false, ◌&&◌, some, none, List, [], ◌∷◌, ◌++◌,
  arith, inl, inr, if◌then◌else◌,
}
use crypto_trading_system.Base.Dict.{Dict, lookup, insert, values, lookup-insert}
use crypto_trading_system.Base.Dict.Keyed.{insert_new}
use crypto_trading_system.Decimal.{Decimal, ◌<?◌}
use crypto_trading_system.Models.{
  ok, OrderSide, buy, sell, side_value, PaperOrderState, PaperFillState, Result-cases,
}
use crypto_trading_system.Execution.State.{
  Engine, ExecutionRequest, FillResult, Draw, Tags, is_sell, order_id_of, schedule,
}
use crypto_trading_system.Execution.Engine.{
  book_fill, held_quantity, new_position, new_quantity, new_order, new_fill,
}
use crypto_trading_system.Execution.Positions.{held_after}
use crypto_trading_system.Reporting.Lots.{
  Lot, LotBook, replay_side, book_purchase, book_sale, replay_order, replay_fill, replay_fills,
  index_orders, tracked_lot, no_lots, bought_lot, sold_lot,
}

replay_side-side_value : (s : OrderSide) → replay_side (side_value s) ≡ some s
unfolding replay_side side_value
replay_side-side_value buy = refl
replay_side-side_value sell = refl

values-append :
    {V : Type 0} (d : Dict V) (k : String) (v : V)
    → values (d ++ ((k, v) ∷ [])) ≡ values d ++ (v ∷ [])
values-append [] k v = refl
values-append ((j, w) ∷ d) k v = ap (λ r. w ∷ r) (values-append d k v)

values-insert :
    {V : Type 0} (k : String) (v : V) (d : Dict V)
    → lookup k d ≡ none
    → values (insert k v d) ≡ values d ++ (v ∷ [])
values-insert k v d h = ap values (insert_new k v d h) ∙ values-append d k v

index_orders-append :
    {D : Type 0} (known : Dict (PaperOrderState D)) (orders : List (PaperOrderState D))
    (o : PaperOrderState D)
    → index_orders known (orders ++ (o ∷ [])) ≡ insert o.order_id o (index_orders known orders)
unfolding index_orders
index_orders-append known [] o = refl
index_orders-append known (p ∷ orders) o = index_orders-append (insert p.order_id p known) orders o

module _ {D : Type 0} ⦃dec : Decimal D⦄ where
  -- The tracker and the engine hold the same quantity of every symbol.
  abbrev pub Mirrors : LotBook D → Engine D → Type 0
  Mirrors b e = (s : String) → (tracked_lot s b.position_tracker).quantity ≡ held_quantity s e

  tracked-insert :
      (s symbol : String) (lot : Lot D) (lots : Dict (Lot D))
      → (tracked_lot s (insert symbol lot lots)).quantity
        ≡ (if symbol =ₛ s then lot.quantity else (tracked_lot s lots).quantity)
  unfolding tracked_lot
  tracked-insert s symbol lot lots = ground (arith, lookup-insert symbol s lot lots)

  -- A fill that does not oversell is replayed, and moves the quantity as the engine does.
  replay_order_quantity :
      (side : OrderSide) (f : PaperFillState D) (b : LotBook D)
      → (is_sell side && ((tracked_lot f.symbol b.position_tracker).quantity <? f.quantity)) ≡ false
      → (b' : LotBook D) × (replay_order side f b ≡ ok b')
        × ((s : String)
            → (tracked_lot s b'.position_tracker).quantity ≡ (
                if f.symbol =ₛ s
                then new_quantity side (tracked_lot f.symbol b.position_tracker).quantity f.quantity
                else (tracked_lot s b.position_tracker).quantity))
  unfolding replay_order book_purchase book_sale new_quantity bought_lot sold_lot
  replay_order_quantity buy f b c =
      (book_purchase f b, refl, λ s. tracked-insert s f.symbol _ b.position_tracker)
  replay_order_quantity sell f b c = (
    book_sale f b,
    ground arith,
    λ s.
        tracked-insert s f.symbol (sold_lot f (tracked_lot f.symbol b.position_tracker))
          b.position_tracker,
  )

  -- One fill of the engine, replayed on a book that mirrors it.
  replay_order-Mirrors :
      (request : ExecutionRequest D) (fill : FillResult D) (tags : Tags) (draw : Draw)
      (e : Engine D) (b : LotBook D)
      → Mirrors b e
      → (is_sell request.side && (held_quantity request.symbol e <? fill.quantity)) ≡ false
      → (b' : LotBook D) × (replay_order request.side (new_fill request fill tags draw) b ≡ ok b')
        × Mirrors b' (book_fill request fill tags draw e)
  unfolding new_fill new_position
  replay_order-Mirrors request fill tags draw e b m c =
      let (b', replayed, moved) =
        replay_order_quantity request.side (new_fill request fill tags draw) b
          (ground (arith, m request.symbol)) in
      (
        b',
        replayed,
        λ s. ground (arith, moved s, held_after s request fill tags draw e, m request.symbol, m s),
      )

  new_order_id :
      (request : ExecutionRequest D) (fill : FillResult D) (tags : Tags) (draw : Draw)
      → (new_order request fill tags draw).order_id ≡ order_id_of tags.client_order_id draw.order_id
  unfolding new_order
  new_order_id request fill tags draw = refl

  replay_fill-new :
      (request : ExecutionRequest D) (fill : FillResult D) (tags : Tags) (draw : Draw)
      (orders : Dict (PaperOrderState D)) (b : LotBook D) {b' : LotBook D}
      → replay_order request.side (new_fill request fill tags draw) b ≡ ok b'
      → replay_fill
          (insert
            (order_id_of tags.client_order_id draw.order_id)
            (new_order request fill tags draw)
            orders)
          (new_fill request fill tags draw)
          b
        ≡ ok b'
  unfolding replay_fill new_fill new_order
  replay_fill-new request fill tags draw orders b {b'} h =
      let order_id = order_id_of tags.client_order_id draw.order_id in
      ground (
        arith,
        eq_refl order_id,
        lookup-insert order_id order_id (new_order request fill tags draw) orders,
        replay_side-side_value request.side,
      )

  replay_fill-insert :
      (k : String) (o : PaperOrderState D) (orders : Dict (PaperOrderState D))
      (f : PaperFillState D) (b : LotBook D) {b' : LotBook D}
      → lookup k orders ≡ none
      → replay_fill orders f b ≡ ok b'
      → replay_fill (insert k o orders) f b ≡ ok b'
  unfolding replay_fill
  replay_fill-insert k o orders f b {b'} n h =
      ground (arith, lookup-insert k f.order_id o orders, eq_iff k f.order_id)

  -- What a further order does to a replay that went through: nothing.
  replay_fills-insert :
      (k : String) (o : PaperOrderState D) (orders : Dict (PaperOrderState D))
      (fills : List (PaperFillState D)) (b : LotBook D) {b' : LotBook D}
      → lookup k orders ≡ none
      → replay_fills orders fills b ≡ ok b'
      → replay_fills (insert k o orders) fills b ≡ ok b'
  unfolding replay_fills
  replay_fills-insert k o orders [] b n h = h
  replay_fills-insert k o orders (f ∷ fills) b {b'} n h =
      elim (Result-cases (replay_fill orders f b)) [
        | inl (x, raised) ↦ ground arith
        | inr (b1, replayed) ↦ ground (
          arith,
          replay_fill-insert k o orders f b {b' = b1} n replayed,
          replay_fills-insert k o orders fills b1 {b' = b'} n,
        )
      ]

  replay_fills-append :
      (orders : Dict (PaperOrderState D)) (fills : List (PaperFillState D)) (f : PaperFillState D)
      (b : LotBook D) {b1 b2 : LotBook D}
      → replay_fills orders fills b ≡ ok b1
      → replay_fill orders f b1 ≡ ok b2
      → replay_fills orders (fills ++ (f ∷ [])) b ≡ ok b2
  unfolding replay_fills
  replay_fills-append orders [] f b {b1} {b2} h k = ground arith
  replay_fills-append orders (g ∷ fills) f b {b1} {b2} h k =
      elim (Result-cases (replay_fill orders g b)) [
        | inl (x, raised) ↦ ground arith
        | inr (b', replayed) ↦
            ground (arith, replay_fills-append orders fills f b' {b1 = b1} {b2 = b2})
      ]

  -- The orders of the engine stand under their own ids, and its history replays into a book that
  -- mirrors it.
  pub record IsReplayable (e : Engine D) : Type 0 where
    pub indexed : index_orders [] (values e.orders) ≡ e.orders
    pub lots : LotBook D
    pub replayed : replay_fills e.orders (values e.fills) no_lots ≡ ok lots
    pub mirrored : Mirrors lots e

  pub book_fill-IsReplayable :
      (request : ExecutionRequest D) (fill : FillResult D) (tags : Tags) (draw : Draw)
      (e : Engine D)
      → IsReplayable e
      → lookup (order_id_of tags.client_order_id draw.order_id) e.orders ≡ none
      → lookup draw.fill_id e.fills ≡ none
      → (is_sell request.side && (held_quantity request.symbol e <? fill.quantity)) ≡ false
      → IsReplayable (book_fill request fill tags draw e)
  unfolding book_fill schedule
  book_fill-IsReplayable request fill tags draw e h no_order no_fill c =
      let order = new_order request fill tags draw in
      let order_id = order_id_of tags.client_order_id draw.order_id in
      let f = new_fill request fill tags draw in
      let (b', replayed, moved) =
        replay_order-Mirrors request fill tags draw e h.lots h.mirrored c in
      record {
        indexed = ground (
          arith,
          h.indexed,
          values-insert order_id order e.orders no_order,
          index_orders-append [] (values e.orders) order,
          new_order_id request fill tags draw,
        );
        lots = b';
        replayed = ground (
          arith,
          values-insert draw.fill_id f e.fills no_fill,
          replay_fills-append (insert order_id order e.orders) (values e.fills) f no_lots
              {b1 = h.lots} {b2 = b'}
              (replay_fills-insert order_id order e.orders (values e.fills) no_lots {b' = h.lots}
                no_order h.replayed)
              (replay_fill-new request fill tags draw e.orders h.lots {b' = b'} replayed),
        );
        mirrored = moved;
      }
