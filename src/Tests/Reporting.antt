-- ===== src/Tests/Reporting.antt =====
-- The profit tracker on the history of the engine that bought, and on snapshots of it.
use crypto_trading_system.Base.{◌≡◌, ◌≤◌, ◌+◌, refl, none, some, [], ◌∷◌, length, All, false}
use crypto_trading_system.Base.Int.{ℤ, pos, negsuc}
use crypto_trading_system.Base.Dict.{values, lookup, insert}
use crypto_trading_system.Decimal.Integers.{integers}
use crypto_trading_system.Decimal.{◌<?◌}
use crypto_trading_system.Models.{ok}
use crypto_trading_system.Execution.Engine.{held_quantity, execute, on_market_event, book_fill}
use crypto_trading_system.Reporting.Lots.{
  LotBook, index_orders, replay_fills, no_lots, replay_fill, replay_order,
}
use crypto_trading_system.Reporting.Tracker.{
  PnlTracker, new_tracker, record_snapshot, calculate_realized_pnl,
}
use crypto_trading_system.Reporting.Metrics.{calculate_metrics}
use crypto_trading_system.Reporting.Curve.{
  IsCurve, record_snapshot-IsCurve, calculate_metrics_bounds,
}
use crypto_trading_system.Reporting.Replay.{Mirrors}
use crypto_trading_system.Reporting.Refinement.{
  Reached, start, by_event, by_order, calculate_realized_pnl_refines,
}
use crypto_trading_system.Tests.Execution.{
  empty_engine, first_event, buy_two, tagged, drawn, seen, bought, no_orders, no_fills,
}

abbrev tracker : PnlTracker ℤ
unfolding new_tracker
tracker = new_tracker (pos 1000) (pos 0)

abbrev traded : PnlTracker ℤ
traded = record tracker { trade_pnls = pos 5 ∷ negsuc 1 ∷ pos 0 ∷ [] }

abbrev snapped : PnlTracker ℤ
snapped = (record_snapshot none 9 1 (some bought) none none traded).0

bought-Reached : Reached bought
unfolding held_quantity lookup
bought-Reached =
    by_order buy_two none (tagged "c-1") drawn seen
      (by_event first_event empty_engine (start empty_engine refl refl (λ s. refl))) no_orders
      no_fills

calculate_realized_pnl_refines_example :
    (b : LotBook ℤ) × (replay_fills
        (index_orders [] (values bought.orders))
        (values bought.fills)
        no_lots
      ≡ ok b)
    × ((calculate_realized_pnl (values bought.fills) (values bought.orders) tracker).1
        ≡ ok b.realized_pnl)
    × Mirrors b bought
calculate_realized_pnl_refines_example =
    calculate_realized_pnl_refines bought tracker bought-Reached

tracker-IsCurve : IsCurve traded
unfolding tracker
tracker-IsCurve = record { points_below = tt; capital_below = refl }

record_snapshot-IsCurve_example : IsCurve snapped
record_snapshot-IsCurve_example =
    record_snapshot-IsCurve none 9 1 (some bought) none none traded tracker-IsCurve

realized_zero :
    (calculate_realized_pnl (values bought.fills) (values bought.orders) tracker).1 ≡ ok (pos 0)
unfolding calculate_realized_pnl execute lookup on_market_event book_fill insert replay_fill
    replay_order
realized_zero = refl

calculate_metrics_bounds_example :
    let m = calculate_metrics snapped in
    (m.win_count + m.loss_count ≤ m.total_trades)
    × (m.total_trades ≡ length snapped.trade_pnls)
    × ((1 ≤ m.total_trades)
        → All (λ p. (m.max_drawdown <? p.drawdown) ≡ false) snapped.equity_curve)
calculate_metrics_bounds_example = calculate_metrics_bounds snapped
