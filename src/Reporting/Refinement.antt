-- ===== src/Reporting/Refinement.antt =====
-- The runs of the paper execution engine whose fills `PaperPnLTracker` replays, and the refinement of
-- the engine's positions by the trackers of `calculate_realized_pnl`.
use crypto_trading_system.Base.{
  String, ◌≡◌, sym, false, ◌&&◌, Option, none, [], arith, inl, inr, Option-cases,
}
use crypto_trading_system.Base.Dict.{lookup, values}
use crypto_trading_system.Decimal.{Decimal, dec_zero, ◌<?◌}
use crypto_trading_system.Models.{ok, MarketEvent}
use crypto_trading_system.Execution.State.{
  Engine, ExecutionRequest, FillResult, Draw, Tags, is_sell, order_id_of, execution_price, schedule,
}
use crypto_trading_system.Execution.Engine.{
  execute, execute_new, simulate_fill, book_fill, held_quantity, on_market_event,
}
use crypto_trading_system.Execution.Positions.{filled}
use crypto_trading_system.Reporting.Tracker.{PnlTracker, calculate_realized_pnl}
use crypto_trading_system.Reporting.Lots.{LotBook, replay_fills, index_orders, tracked_lot, no_lots}
use crypto_trading_system.Reporting.Replay.{Mirrors, IsReplayable, book_fill-IsReplayable}

module _ {D : Type 0} ⦃dec : Decimal D⦄ where
  -- The state that a run reaches: from an engine without orders, fills and holdings, by market
  -- events and by orders whose ids are not in use.
  pub data Reached : Engine D → Type 0 where
    start :
        (e : Engine D)
        → e.orders ≡ []
        → e.fills ≡ []
        → ((s : String) → held_quantity s e ≡ dec_zero)
        → Reached e
    by_event : (ev : MarketEvent D) (e : Engine D) → Reached e → Reached (on_market_event ev e).0
    by_order :
        (request : ExecutionRequest D) (price : Option D) (tags : Tags) (draw : Draw) (e : Engine D)
        → Reached e
        → lookup (order_id_of tags.client_order_id draw.order_id) e.orders ≡ none
        → lookup draw.fill_id e.fills ≡ none
        → Reached (execute request price tags draw e).0

  start-IsReplayable :
      (e : Engine D)
      → e.orders ≡ []
      → e.fills ≡ []
      → ((s : String) → held_quantity s e ≡ dec_zero)
      → IsReplayable e
  unfolding index_orders replay_fills tracked_lot lookup
  start-IsReplayable e o f h = record {
    indexed = ground arith;
    lots = no_lots;
    replayed = ground arith;
    mirrored = λ s. sym (h s);
  }

  event-IsReplayable :
      (ev : MarketEvent D) (e : Engine D) → IsReplayable e → IsReplayable (on_market_event ev e).0
  unfolding on_market_event schedule held_quantity
  event-IsReplayable ev e h = record {
    indexed = ground (arith, h.indexed);
    lots = h.lots;
    replayed = ground (arith, h.replayed);
    mirrored = λ s. ground (arith, h.mirrored s);
  }

  -- What holds before a call and after a fill that does not oversell, holds after the call.
  execute_induction :
      (P : Engine D → Type 0) (request : ExecutionRequest D) (price : Option D) (tags : Tags)
      (draw : Draw) (e : Engine D)
      → P e
      → ((fill : FillResult D)
          → (is_sell request.side && (held_quantity request.symbol e <? fill.quantity)) ≡ false
          → P (book_fill request fill tags draw e))
      → P (execute request price tags draw e).0
  unfolding execute execute_new simulate_fill
  execute_induction P request price tags draw e h step =
      elim (Option-cases (execution_price price e.last_candle)) [
        | inl missing ↦ ground (arith, h)
        | inr (p, found) ↦ ground (arith, h, step (filled request p draw.now))
      ]

  Reached-IsReplayable : (e : Engine D) → Reached e → IsReplayable e
  Reached-IsReplayable _ (start e o f h) = start-IsReplayable e o f h
  Reached-IsReplayable _ (by_event ev e r) = event-IsReplayable ev e (Reached-IsReplayable e r)
  Reached-IsReplayable _ (by_order request price tags draw e r no_order no_fill) =
      let h = Reached-IsReplayable e r in
      execute_induction IsReplayable request price tags draw e h
        (λ fill c. book_fill-IsReplayable request fill tags draw e h no_order no_fill c)

  -- On the fills and orders of any engine that a run reaches, `calculate_realized_pnl` does not
  -- raise: no order is missing, no sale exceeds what was tracked. The trackers that it ends with
  -- hold of every symbol the quantity that the engine holds.
  pub calculate_realized_pnl_refines :
      (e : Engine D) (t : PnlTracker D)
      → Reached e
      → (b : LotBook D) × (replay_fills (index_orders [] (values e.orders)) (values e.fills) no_lots
          ≡ ok b)
        × ((calculate_realized_pnl (values e.fills) (values e.orders) t).1 ≡ ok b.realized_pnl)
        × Mirrors b e
  unfolding calculate_realized_pnl
  calculate_realized_pnl_refines e t r =
      let h = Reached-IsReplayable e r in
      (
        h.lots,
        ground (arith, h.indexed, h.replayed),
        ground (arith, h.indexed, h.replayed),
        h.mirrored,
      )
