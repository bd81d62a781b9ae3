-- ===== src/Reporting/Metrics.antt =====
-- `PaperPnLTracker.calculate_metrics`: app/reporting/paper_pnl.py.
use crypto_trading_system.Base.{ℕ, if◌then◌else◌, List, [], ◌∷◌, length}
use crypto_trading_system.Decimal.{Decimal, literal, dec_zero, ◌⊘◌, ◌<?◌, abs, max, sum}
use crypto_trading_system.Reporting.Tracker.{EquityPoint, PnlTracker}

pub record TradingMetrics (D : Type 0) : Type 0 where
  pub total_realized_pnl : D
  pub total_unrealized_pnl : D
  pub total_fees : D
  pub total_slippage : D
  pub win_count : ℕ
  pub loss_count : ℕ
  pub total_trades : ℕ
  pub win_rate : D
  pub avg_win : D
  pub avg_loss : D
  pub profit_factor : D
  pub max_drawdown : D
  pub max_drawdown_pct : D

module _ {D : Type 0} ⦃dec : Decimal D⦄ where
  unfoldable pub gains : List D → List D
  gains [] = []
  gains (p ∷ pnls) = let rest = gains pnls in if dec_zero <? p then p ∷ rest else rest

  unfoldable pub drops : List D → List D
  drops [] = []
  drops (p ∷ pnls) = let rest = drops pnls in if p <? dec_zero then p ∷ rest else rest

  unfoldable pub mean : List D → D
  mean [] = dec_zero
  mean (x ∷ xs) = sum (x ∷ xs) ⊘ literal (length (x ∷ xs)) 0

  unfoldable pub profit_factor_of : D → D → D
  profit_factor_of gross_profit gross_loss =
      if dec_zero <? gross_loss
      then gross_profit ⊘ gross_loss
      else if dec_zero <? gross_profit
      then literal 999 0
      else dec_zero

  -- `max` of a list of drawdowns, each of which is zero or more; zero when there is none.
  unfoldable pub greatest : (EquityPoint D → D) → D → List (EquityPoint D) → D
  greatest field acc [] = acc
  greatest field acc (p ∷ points) = greatest field (max acc (field p)) points

  unfoldable pub worst : (EquityPoint D → D) → List (EquityPoint D) → D
  unfolding greatest
  worst field [] = dec_zero
  worst field (p ∷ points) = greatest field (field p) points

  abbrev pub no_metrics : PnlTracker D → TradingMetrics D
  no_metrics t = record {
    total_realized_pnl = dec_zero;
    total_unrealized_pnl = dec_zero;
    total_fees = t.fees_paid;
    total_slippage = t.slippage_total;
    win_count = 0;
    loss_count = 0;
    total_trades = 0;
    win_rate = dec_zero;
    avg_win = dec_zero;
    avg_loss = dec_zero;
    profit_factor = dec_zero;
    max_drawdown = dec_zero;
    max_drawdown_pct = dec_zero;
  }

  unfoldable pub calculate_metrics : PnlTracker D → TradingMetrics D
  unfolding gains drops mean profit_factor_of worst
  calculate_metrics t = elim t.trade_pnls [
    | [] ↦ no_metrics t
    | _ ∷ _ ↦
        let wins = gains t.trade_pnls in
        let losses = drops t.trade_pnls in
        record (no_metrics t) {
          win_count = length wins;
          loss_count = length losses;
          total_trades = length t.trade_pnls;
          avg_win = mean wins;
          avg_loss = abs (mean losses);
          total_realized_pnl = sum t.trade_pnls;
          win_rate = literal (length wins) 0 ⊘ literal (length t.trade_pnls) 0;
          profit_factor = profit_factor_of (sum wins) (abs (sum losses));
          max_drawdown = worst (λ p. p.drawdown) t.equity_curve;
          max_drawdown_pct = worst (λ p. p.drawdown_pct) t.equity_curve;
        }
  ]
