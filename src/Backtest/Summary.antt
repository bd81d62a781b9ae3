-- ===== src/Backtest/Summary.antt =====
-- `BacktestEngine._calculate_results`, and the results of a whole run: app/backtest/backtest_engine.py.
use crypto_trading_system.Base.{ℕ, suc, ltb, if◌then◌else◌, Option, List, [], ◌∷◌, length, map}
use crypto_trading_system.Decimal.{Decimal, literal, dec_zero, ◌⊘◌, ◌<?◌, abs, sum}
use crypto_trading_system.Models.{Result, ok, raise}
use crypto_trading_system.Backtest.Portfolio.{Portfolio, TradeRecord, opened, closed}
use crypto_trading_system.Backtest.Signals.{Bar, Signal, Fill, Strategy, BacktestError}
use crypto_trading_system.Backtest.Orders.{BacktestEngine, Outside, Order, RiskDecision}
use crypto_trading_system.Backtest.Run.{run}

-- `sharpe_ratio` and `recovery_time_days` keep their defaults.
pub record BacktestResult (D : Type 0) : Type 0 where
  pub portfolio : Portfolio D
  pub total_trades : ℕ
  pub winning_trades : ℕ
  pub losing_trades : ℕ
  pub total_pnl : D
  pub max_drawdown : D
  pub win_rate : D
  pub profit_factor : D
  pub average_trade : D
  pub average_win : D
  pub average_loss : D
  pub max_consecutive_losses : ℕ
  pub signals : List (Signal D)
  pub risk_decisions : List (RiskDecision D)
  pub orders : List (Order D)
  pub fills : List (Fill D)

abbrev max_count : ℕ → ℕ → ℕ
max_count a b = if ltb a b then b else a

module _ {D : Type 0} where
  -- The profits of the trades of type "close".
  unfoldable pub closed_pnls : List (TradeRecord D) → List D
  closed_pnls [] = []
  closed_pnls (opened _ ∷ trades) = closed_pnls trades
  closed_pnls (closed r ∷ trades) = r.pnl ∷ closed_pnls trades

module _ {D : Type 0} ⦃dec : Decimal D⦄ where
  unfoldable pub winning : List D → List D
  winning [] = []
  winning (p ∷ pnls) = let rest = winning pnls in if dec_zero <? p then p ∷ rest else rest

  unfoldable pub losing : List D → List D
  losing [] = []
  losing (p ∷ pnls) = let rest = losing pnls in if dec_zero <? p then rest else p ∷ rest

  unfoldable pub average : List D → D
  average [] = dec_zero
  average (x ∷ xs) = sum (x ∷ xs) ⊘ literal (length (x ∷ xs)) 0

  -- The longest run of losses, after `current` losses in a row and `longest` so far.
  unfoldable pub longest_losses : ℕ → ℕ → List D → ℕ
  longest_losses current longest [] = longest
  longest_losses current longest (p ∷ pnls) =
      let current' = if dec_zero <? p then 0 else suc current in
      longest_losses current' (max_count longest current') pnls

  unfoldable pub profit_ratio : List D → D
  unfolding winning losing
  profit_ratio pnls =
      let gross_loss = sum (map (λ l. abs l) (losing pnls)) in
      if dec_zero <? gross_loss then sum (winning pnls) ⊘ gross_loss else dec_zero

  unfoldable pub win_rate_of : List D → D
  unfolding winning
  win_rate_of [] = dec_zero
  win_rate_of (p ∷ pnls) = literal (length (winning (p ∷ pnls))) 0 ⊘ literal (length (p ∷ pnls)) 0

  unfoldable pub calculate_results : BacktestEngine D → BacktestResult D
  unfolding closed_pnls winning losing average longest_losses profit_ratio win_rate_of
  calculate_results e =
      let pnls = closed_pnls e.portfolio.trade_history in
      record {
        portfolio = e.portfolio;
        total_trades = length pnls;
        winning_trades = length (winning pnls);
        losing_trades = length (losing pnls);
        total_pnl = sum pnls;
        max_drawdown = e.portfolio.max_drawdown;
        win_rate = win_rate_of pnls;
        profit_factor = profit_ratio pnls;
        average_trade = average pnls;
        average_win = average (winning pnls);
        average_loss = average (losing pnls);
        max_consecutive_losses = longest_losses 0 0 pnls;
        signals = e.signals;
        risk_decisions = e.risk_decisions;
        orders = e.orders;
        fills = e.fills;
      }

module _ {D : Type 0} ⦃dec : Decimal D⦄ {I S : Type 0} where
  -- `run`
  unfoldable pub run_backtest :
      Outside D
      → Strategy D I S
      → Option (Bar D I → ℕ → I)
      → List (Bar D I)
      → S
      → BacktestEngine D
      → BacktestEngine D × Result BacktestError (BacktestResult D)
  unfolding calculate_results
  run_backtest world strategy provider candles state e =
      let (e', result) = run world strategy provider candles state e in
      elim result [ raise x ↦ (e', raise x) | ok _ ↦ (e', ok (calculate_results e')) ]
