-- ===== src/Backtest/Counts.antt =====
-- The numbers of `BacktestEngine._calculate_results` against the books of the portfolio.
use crypto_trading_system.Base.{
  ℕ, suc, ◌+◌, ◌≤◌, ◌≡◌, refl, ◌∙◌, ap, List, [], ◌∷◌, length, map, arith,
}
use crypto_trading_system.Decimal.{Decimal, dec_zero, ◌⊕◌, sum, sum_from}
use crypto_trading_system.Backtest.Portfolio.{TradeRecord, opened, closed, pnl_of, realized_pnl}
use crypto_trading_system.Backtest.Orders.{BacktestEngine}
use crypto_trading_system.Backtest.Summary.{
  closed_pnls, winning, losing, longest_losses, calculate_results,
}

module _ {D : Type 0} ⦃dec : Decimal D⦄ where
  winning_and_losing : (pnls : List D) → length (winning pnls) + length (losing pnls) ≡ length pnls
  unfolding winning losing
  winning_and_losing [] = refl
  winning_and_losing (p ∷ pnls) = ground (arith, winning_and_losing pnls)

  longest_below :
      (pnls : List D) (current longest bound : ℕ)
      → longest ≤ bound
      → current + length (losing pnls) ≤ bound
      → longest_losses current longest pnls ≤ bound
  unfolding longest_losses losing
  longest_below [] current longest bound h k = h
  longest_below (p ∷ pnls) current longest bound h k = ground (
    arith,
    longest_below pnls 0 longest bound,
    longest_below pnls (suc current) longest bound,
    longest_below pnls (suc current) (suc current) bound,
    longest_below pnls 0 0 bound,
  )

  -- The entries of type "open" have no profit and add nothing.
  sum_from-closed_pnls :
      (trades : List (TradeRecord D)) (acc : D)
      → sum_from acc (closed_pnls trades) ≡ sum_from acc (map pnl_of trades)
  unfolding sum_from closed_pnls pnl_of
  sum_from-closed_pnls [] acc = refl
  sum_from-closed_pnls (opened r ∷ trades) acc =
      sum_from-closed_pnls trades acc
      ∙ ap (λ a. sum_from a (map pnl_of trades)) (ground (arith, dec.add_zero acc))
  sum_from-closed_pnls (closed r ∷ trades) acc = sum_from-closed_pnls trades (acc ⊕ r.pnl)

  -- The results of a backtest agree with its portfolio: winning and losing trades make up the
  -- total, the total profit is the portfolio's realized profit, and the longest series of losses
  -- is no longer than the losses.
  pub calculate_results_agree :
      (e : BacktestEngine D)
      → let r = calculate_results e in
        (r.winning_trades + r.losing_trades ≡ r.total_trades)
        × (r.total_pnl ≡ realized_pnl e.portfolio)
        × (r.max_consecutive_losses ≤ r.losing_trades)
  unfolding calculate_results realized_pnl sum
  calculate_results_agree e =
      let pnls = closed_pnls e.portfolio.trade_history in
      (
        winning_and_losing pnls,
        sum_from-closed_pnls e.portfolio.trade_history dec_zero,
        longest_below pnls 0 0 (length (losing pnls)) (omega arith) (omega arith),
      )
