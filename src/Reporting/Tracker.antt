-- ===== src/Reporting/Tracker.antt =====
-- The state of `PaperPnLTracker` and its operations: app/reporting/paper_pnl.py. The clock reading
-- that a snapshot without a timestamp takes is an argument.
use crypto_trading_system.Base.{
  ℕ, if◌then◌else◌, Option, none, some, List, [], ◌∷◌, ◌++◌, get_or_else,
}
use crypto_trading_system.Base.Dict.{Dict}
use crypto_trading_system.Decimal.{Decimal, literal, dec_zero, ◌⊕◌, ◌⊖◌, ◌⊗◌, ◌⊘◌, ◌<?◌, ◌=?◌, max}
use crypto_trading_system.Models.{
  Result, ok, raise, PaperOrderState, PaperFillState, PaperPositionState,
}
use crypto_trading_system.Execution.State.{Engine}
use crypto_trading_system.Reporting.Lots.{
  PnlError, no_lots, index_orders, replay_fills, engine_price, calculate_unrealized_pnl, fees_from,
  slippage_from,
}

pub record PnlRecord (D : Type 0) : Type 0 where
  pub timestamp : ℕ
  pub equity : D
  pub realized_pnl : D
  pub unrealized_pnl : D
  pub total_pnl : D
  pub fees_paid : D
  pub slippage : D
  pub cash_balance : D
  pub position_value : D

pub record EquityPoint (D : Type 0) : Type 0 where
  pub timestamp : ℕ
  pub sequence : ℕ
  pub equity : D
  pub drawdown : D
  pub drawdown_pct : D

pub record PnlTracker (D : Type 0) : Type 0 where
  pub initial_capital : D
  pub fee_rate : D
  pub pnl_records : List (PnlRecord D)
  pub equity_curve : List (EquityPoint D)
  pub trade_pnls : List D
  pub fees_paid : D
  pub slippage_total : D
  pub peak_equity : D
  pub entry_prices : Dict D

module _ {D : Type 0} ⦃dec : Decimal D⦄ where
  -- `__init__`
  unfoldable pub new_tracker : D → D → PnlTracker D
  new_tracker initial_capital fee_rate = record {
    initial_capital = initial_capital;
    fee_rate = fee_rate;
    pnl_records = [];
    equity_curve = [];
    trade_pnls = [];
    fees_paid = dec_zero;
    slippage_total = dec_zero;
    peak_equity = initial_capital;
    entry_prices = [];
  }

  unfoldable pub last_equity : D → List (PnlRecord D) → D
  last_equity equity [] = equity
  last_equity equity (r ∷ records) = last_equity r.equity records

  unfoldable pub current_equity : PnlTracker D → D
  unfolding last_equity
  current_equity t = last_equity t.initial_capital t.pnl_records

  unfoldable pub current_drawdown : PnlTracker D → D
  unfolding current_equity
  current_drawdown t = elim t.pnl_records [
    | [] ↦ dec_zero
    | _ ∷ _ ↦ max dec_zero (t.peak_equity ⊖ current_equity t)
  ]

  unfoldable pub current_drawdown_pct : PnlTracker D → D
  unfolding current_drawdown
  current_drawdown_pct t =
      if t.peak_equity =? dec_zero
      then dec_zero
      else (current_drawdown t ⊘ t.peak_equity) ⊗ literal 100 0

  unfoldable pub calculate_realized_pnl :
      List (PaperFillState D)
      → List (PaperOrderState D)
      → PnlTracker D
      → PnlTracker D × Result PnlError D
  unfolding index_orders replay_fills
  calculate_realized_pnl fills orders t =
      elim (replay_fills (index_orders [] orders) fills no_lots) [
        | raise x ↦ (t, raise x)
        | ok b ↦ (record t { trade_pnls = b.trade_pnl_records }, ok b.realized_pnl)
      ]

  unfoldable pub calculate_fees : List (PaperFillState D) → PnlTracker D → PnlTracker D × D
  unfolding fees_from
  calculate_fees fills t =
      let total_fees = fees_from t.fee_rate dec_zero fills in
      (record t { fees_paid = total_fees }, total_fees)

  unfoldable pub calculate_slippage :
      List (PaperFillState D) → Dict D → PnlTracker D → PnlTracker D × D
  unfolding slippage_from
  calculate_slippage fills expected_prices t =
      let total_slippage = slippage_from expected_prices dec_zero fills in
      (record t { slippage_total = total_slippage }, total_slippage)

  -- `position_values`: a price of zero is falsy and adds nothing.
  unfoldable pub value_from : Engine D → D → Dict (PaperPositionState D) → D
  unfolding engine_price
  value_from e acc [] = acc
  value_from e acc ((symbol, p) ∷ positions) =
      let rest = λ (a : D). value_from e a positions in
      if dec_zero <? p.quantity
      then elim (engine_price e.last_candle symbol) [
        | none ↦ rest acc
        | some price ↦ if price =? dec_zero then rest acc else rest (acc ⊕ p.quantity ⊗ price)
      ]
      else rest acc

  unfoldable pub snapshot_unrealized : Option (Engine D) → Option D → D
  unfolding calculate_unrealized_pnl engine_price
  snapshot_unrealized engine (some u) = u
  snapshot_unrealized none none = dec_zero
  snapshot_unrealized (some e) none =
      calculate_unrealized_pnl e.positions (engine_price e.last_candle)

  unfoldable pub snapshot_cash : Option (Engine D) → PnlTracker D → D
  snapshot_cash none t = t.initial_capital
  snapshot_cash (some e) t = e.cash_balance

  unfoldable pub snapshot_value : Option (Engine D) → D
  unfolding value_from
  snapshot_value none = dec_zero
  snapshot_value (some e) = value_from e dec_zero e.positions

  unfoldable pub snapshot_equity : Option (Engine D) → D → PnlTracker D → D
  unfolding snapshot_value
  snapshot_equity none total_pnl t = t.initial_capital ⊕ total_pnl
  snapshot_equity (some e) total_pnl t = e.cash_balance ⊕ snapshot_value (some e)

  unfoldable pub snapshot_record :
      ℕ → Option (Engine D) → Option D → Option D → PnlTracker D → PnlRecord D
  unfolding snapshot_unrealized snapshot_cash snapshot_value snapshot_equity
  snapshot_record timestamp engine realized_pnl unrealized_pnl t =
      let realized = get_or_else realized_pnl dec_zero in
      let unrealized = snapshot_unrealized engine unrealized_pnl in
      record {
        timestamp = timestamp;
        equity = snapshot_equity engine (realized ⊕ unrealized) t;
        realized_pnl = realized;
        unrealized_pnl = unrealized;
        total_pnl = realized ⊕ unrealized;
        fees_paid = t.fees_paid;
        slippage = t.slippage_total;
        cash_balance = snapshot_cash engine t;
        position_value = snapshot_value engine;
      }

  -- The peak is raised first, then the drop below it is taken.
  unfoldable pub raised_peak : D → D → D
  raised_peak peak equity = if peak <? equity then equity else peak

  unfoldable pub point_of : ℕ → PnlRecord D → D → EquityPoint D
  point_of sequence r peak =
      let drawdown = max dec_zero (peak ⊖ r.equity) in
      record {
        timestamp = r.timestamp;
        sequence = sequence;
        equity = r.equity;
        drawdown = drawdown;
        drawdown_pct = if dec_zero <? peak then (drawdown ⊘ peak) ⊗ literal 100 0 else dec_zero;
      }

  unfoldable pub keep_record : ℕ → PnlRecord D → PnlTracker D → PnlTracker D
  unfolding raised_peak point_of
  keep_record sequence r t =
      let peak = raised_peak t.peak_equity r.equity in
      record t {
        peak_equity = peak;
        pnl_records = t.pnl_records ++ (r ∷ []);
        equity_curve = t.equity_curve ++ (point_of sequence r peak ∷ []);
      }

  unfoldable pub record_snapshot :
      Option ℕ
      → ℕ
      → ℕ
      → Option (Engine D)
      → Option D
      → Option D
      → PnlTracker D
      → PnlTracker D × PnlRecord D
  unfolding snapshot_record keep_record
  record_snapshot timestamp now sequence engine realized_pnl unrealized_pnl t =
      let r = snapshot_record (get_or_else timestamp now) engine realized_pnl unrealized_pnl t in
      (keep_record sequence r t, r)

  unfoldable pub reset : PnlTracker D → PnlTracker D
  reset t = record t {
    pnl_records = [];
    equity_curve = [];
    trade_pnls = [];
    fees_paid = dec_zero;
    slippage_total = dec_zero;
    peak_equity = t.initial_capital;
    entry_prices = [];
  }
