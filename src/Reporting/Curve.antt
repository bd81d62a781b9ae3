-- ===== src/Reporting/Curve.antt =====
-- The equity curve of `PaperPnLTracker` and the metrics over it: app/reporting/paper_pnl.py.
use crypto_trading_system.Base.{
  ℕ, ◌≤◌, ◌+◌, ◌≡◌, false, Option, sym, Option-cases, List, [], ◌∷◌, length, All, All-append, arith,
  subst, inl, inr,
}
use crypto_trading_system.Decimal.{
  Decimal, dec_zero, ◌⊖◌, ◌<?◌, max, le_trans, le-max_left, le-max_right, sum, sum-append, lt_asymm,
  sum_from, sum-nil,
}
use crypto_trading_system.Models.{
  ok, PaperOrderState, PaperFillState, OrderSide, buy, sell, Result-cases,
}
use crypto_trading_system.Execution.State.{Engine}
use crypto_trading_system.Base.Dict.{Dict, lookup}
use crypto_trading_system.Reporting.Lots.{
  LotBook, book_purchase, book_sale, replay_order, replay_fill, replay_fills, replay_side, no_lots,
  index_orders, tracked_lot, trade_pnl,
}
use crypto_trading_system.Reporting.Tracker.{
  PnlTracker, PnlRecord, EquityPoint, record_snapshot, keep_record, raised_peak, point_of,
  calculate_realized_pnl,
}
use crypto_trading_system.Reporting.Metrics.{calculate_metrics, gains, drops, worst, greatest}

module _ {D : Type 0} ⦃dec : Decimal D⦄ where
  -- A point lies at or below the peak, and its drawdown is zero or more.
  abbrev pub IsBelow : D → EquityPoint D → Type 0
  IsBelow peak p = ((peak <? p.equity) ≡ false) × ((p.drawdown <? dec_zero) ≡ false)

  pub record IsCurve (t : PnlTracker D) : Type 0 where
    pub points_below : All (IsBelow t.peak_equity) t.equity_curve
    pub capital_below : (t.peak_equity <? t.initial_capital) ≡ false

  rise-IsBelow :
      (a b : D) (points : List (EquityPoint D))
      → (b <? a) ≡ false
      → All (IsBelow a) points
      → All (IsBelow b) points
  rise-IsBelow a b [] h k = tt
  rise-IsBelow a b (p ∷ points) h k =
      ((le_trans p.equity a b k.0.0 h, k.0.1), rise-IsBelow a b points h k.1)

  raised_peak_above :
      (peak equity : D)
      → ((raised_peak peak equity <? peak) ≡ false) × ((raised_peak peak equity <? equity) ≡ false)
  unfolding raised_peak
  raised_peak_above peak equity =
      ground (arith, dec.lt_irrefl equity, dec.lt_irrefl peak, lt_asymm peak equity)

  point_of-IsBelow :
      (sequence : ℕ) (r : PnlRecord D) (peak : D)
      → (peak <? r.equity) ≡ false
      → IsBelow peak (point_of sequence r peak)
  unfolding point_of
  point_of-IsBelow sequence r peak h = (h, le-max_left dec_zero (peak ⊖ r.equity))

  keep_record-IsCurve :
      (sequence : ℕ) (r : PnlRecord D) (t : PnlTracker D)
      → IsCurve t
      → IsCurve (keep_record sequence r t)
  unfolding keep_record
  keep_record-IsCurve sequence r t h =
      let peak = raised_peak t.peak_equity r.equity in
      let above = raised_peak_above t.peak_equity r.equity in
      record {
        points_below =
            All-append (IsBelow peak) t.equity_curve _
              (rise-IsBelow t.peak_equity peak t.equity_curve above.0 h.points_below)
              (point_of-IsBelow sequence r peak above.1, tt);
        capital_below = le_trans t.initial_capital t.peak_equity peak h.capital_below above.0;
      }

  -- A snapshot, with or without an engine and with or without given profits, keeps the curve in
  -- order: every point lies at or below the peak, its drawdown is zero or more, and the peak is at
  -- least the initial capital.
  pub record_snapshot-IsCurve :
      (timestamp : Option ℕ) (now sequence : ℕ) (engine : Option (Engine D))
      (realized unrealized : Option D) (t : PnlTracker D)
      → IsCurve t
      → IsCurve (record_snapshot timestamp now sequence engine realized unrealized t).0
  unfolding record_snapshot
  record_snapshot-IsCurve timestamp now sequence engine realized unrealized t h =
      keep_record-IsCurve sequence _ t h

  -- A sale adds its profit to the total and to the list, a purchase to neither.
  replay_order-sum :
      (side : OrderSide) (f : PaperFillState D) (b : LotBook D) {b' : LotBook D}
      → b.realized_pnl ≡ sum b.trade_pnl_records
      → replay_order side f b ≡ ok b'
      → b'.realized_pnl ≡ sum b'.trade_pnl_records
  unfolding replay_order book_purchase book_sale
  replay_order-sum buy f b h e = ground arith
  replay_order-sum sell f b h e = ground (
    arith,
    sum-append b.trade_pnl_records (trade_pnl f (tracked_lot f.symbol b.position_tracker)),
  )

  replay_fill-sum :
      (orders : Dict (PaperOrderState D)) (f : PaperFillState D) (b : LotBook D) {b' : LotBook D}
      → b.realized_pnl ≡ sum b.trade_pnl_records
      → replay_fill orders f b ≡ ok b'
      → b'.realized_pnl ≡ sum b'.trade_pnl_records
  unfolding replay_fill
  replay_fill-sum orders f b {b'} h e = elim (Option-cases (lookup f.order_id orders)) [
    | inl missing ↦ ground arith
    | inr (order, found) ↦ elim (Option-cases (replay_side order.side)) [
      | inl unknown ↦ ground arith
      | inr (side, known) ↦ replay_order-sum side f b {b' = b'} h (ground arith)
    ]
  ]

  replay_fills-sum :
      (orders : Dict (PaperOrderState D)) (fills : List (PaperFillState D)) (b : LotBook D)
      {b' : LotBook D}
      → b.realized_pnl ≡ sum b.trade_pnl_records
      → replay_fills orders fills b ≡ ok b'
      → b'.realized_pnl ≡ sum b'.trade_pnl_records
  unfolding replay_fills
  replay_fills-sum orders [] b h e = ground arith
  replay_fills-sum orders (f ∷ fills) b {b'} h e = elim (Result-cases (replay_fill orders f b)) [
    | inl (x, raised) ↦ ground arith
    | inr (b1, replayed) ↦
        replay_fills-sum orders fills b1 {b' = b'} (replay_fill-sum orders f b h replayed)
          (ground arith)
  ]

  total_of_metrics :
      (t : PnlTracker D) → (calculate_metrics t).total_realized_pnl ≡ sum t.trade_pnls
  unfolding calculate_metrics sum sum_from
  total_of_metrics t = ground arith

  -- When the realized profit of a history is calculated, the metrics report the same total from
  -- then on: the sum over the single trades.
  pub metrics-calculate_realized_pnl :
      (fills : List (PaperFillState D)) (orders : List (PaperOrderState D)) (t : PnlTracker D)
      {d : D}
      → (calculate_realized_pnl fills orders t).1 ≡ ok d
      → (calculate_metrics (calculate_realized_pnl fills orders t).0).total_realized_pnl ≡ d
  unfolding calculate_realized_pnl
  metrics-calculate_realized_pnl fills orders t h =
      elim (Result-cases (replay_fills (index_orders [] orders) fills no_lots)) [
        | inl (x, raised) ↦ ground arith
        | inr (b, replayed) ↦ ground (
          arith,
          total_of_metrics (record t { trade_pnls = b.trade_pnl_records }),
          replay_fills-sum (index_orders [] orders) fills no_lots (sym (sum-nil {D = D})) replayed,
        )
      ]

  wins_and_losses : (xs : List D) → length (gains xs) + length (drops xs) ≤ length xs
  unfolding gains drops
  wins_and_losses [] = omega arith
  wins_and_losses (x ∷ xs) = ground (arith, wins_and_losses xs, lt_asymm dec_zero x)

  greatest_above :
      (field : EquityPoint D → D) (acc : D) (points : List (EquityPoint D))
      → ((greatest field acc points <? acc) ≡ false)
        × All (λ p. (greatest field acc points <? field p) ≡ false) points
  unfolding greatest
  greatest_above field acc [] = (dec.lt_irrefl acc, tt)
  greatest_above field acc (p ∷ points) =
      let rest = greatest_above field (max acc (field p)) points in
      let m = greatest field (max acc (field p)) points in
      (
        le_trans acc (max acc (field p)) m (le-max_left acc (field p)) rest.0,
        (le_trans (field p) (max acc (field p)) m (le-max_right acc (field p)) rest.0, rest.1),
      )

  worst_above :
      (field : EquityPoint D → D) (points : List (EquityPoint D))
      → All (λ p. (worst field points <? field p) ≡ false) points
  unfolding worst
  worst_above field [] = tt
  worst_above field (p ∷ points) = greatest_above field (field p) points

  max_drawdown-worst :
      (t : PnlTracker D)
      → 1 ≤ (calculate_metrics t).total_trades
      → worst (λ p. p.drawdown) t.equity_curve ≡ (calculate_metrics t).max_drawdown
  unfolding calculate_metrics
  max_drawdown-worst t h = ground arith

  -- Wins and losses are at most the trades. Once a trade is closed, the reported maximal drawdown
  -- is at least the drawdown of every point of the curve.
  pub calculate_metrics_bounds :
      (t : PnlTracker D)
      → let m = calculate_metrics t in
        (m.win_count + m.loss_count ≤ m.total_trades)
        × (m.total_trades ≡ length t.trade_pnls)
        × ((1 ≤ m.total_trades) → All (λ p. (m.max_drawdown <? p.drawdown) ≡ false) t.equity_curve)
  unfolding calculate_metrics
  calculate_metrics_bounds t = (
    ground (arith, wins_and_losses t.trade_pnls),
    ground arith,
    λ h.
        subst (λ m. All (λ p. (m <? p.drawdown) ≡ false) t.equity_curve) (max_drawdown-worst t h)
          (worst_above (λ p. p.drawdown) t.equity_curve),
  )
