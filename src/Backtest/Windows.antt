-- ===== src/Backtest/Windows.antt =====
-- The results of a walk-forward run and the windows that they are of.
use crypto_trading_system.Base.{
  ℕ, String, ◌+◌, ◌≤◌, ◌≡◌, refl, subst, Option, List, [], ◌∷◌, map, length, arith, All, inl, inr,
}
use crypto_trading_system.Decimal.{Decimal, dec_zero, ◌<?◌, lt_asymm}
use crypto_trading_system.Models.{Result, ok, raise, Result-cases}
use crypto_trading_system.Risk.Engine.{RiskEngine}
use crypto_trading_system.Backtest.Signals.{Bar, Strategy, BacktestError}
use crypto_trading_system.Backtest.Orders.{BacktestEngine, BacktestConfig, Outside}
use crypto_trading_system.Backtest.Run.{run}
use crypto_trading_system.Backtest.Summary.{BacktestResult, run_backtest, calculate_results}
use crypto_trading_system.Backtest.Counts.{calculate_results_agree}
use crypto_trading_system.Backtest.WalkForward.{
  WalkForwardConfig, WalkForwardWindow, WindowError, generate_walk_forward_windows, windows_of,
}
use crypto_trading_system.Backtest.Forward.{
  WalkForwardWindowResult, WalkForwardResult, ForwardError, total, count, run_test_window,
  run_window, run_windows, run_fixed_parameter_walk_forward, forward_result, summarise,
  test_candles,
}

module _ {D : Type 0} where
  -- A backtest's trades are won or lost.
  abbrev pub IsCounted : BacktestResult D → Type 0
  IsCounted r = r.winning_trades + r.losing_trades ≡ r.total_trades

  abbrev IsTallied : WalkForwardWindowResult D → Type 0
  IsTallied r = r.winning_trades + r.losing_trades ≡ r.total_trades

  tallied_total :
      (rs : List (WalkForwardWindowResult D))
      → All IsTallied rs
      → total (map (λ r. r.total_trades) rs)
        ≡ total (map (λ r. r.winning_trades) rs) + total (map (λ r. r.losing_trades) rs)
  tallied_total [] h = refl
  tallied_total (r ∷ rs) (h, hs) = let rest = tallied_total rs hs in omega arith

module _ {D : Type 0} ⦃dec : Decimal D⦄ where
  signs_apart :
      (rs : List (WalkForwardWindowResult D))
      → count (λ r. dec_zero <? r.total_pnl) rs + count (λ r. r.total_pnl <? dec_zero) rs
        ≤ length rs
  signs_apart [] = ground arith
  signs_apart (r ∷ rs) = ground (arith, signs_apart rs, lt_asymm dec_zero r.total_pnl)

  forward_result_agrees :
      (symbol interval : String) (config : WalkForwardConfig D)
      (generated : Result WindowError (List WalkForwardWindow))
      (run_all : List WalkForwardWindow → Result ForwardError (List (WalkForwardWindowResult D)))
      → ((windows : List WalkForwardWindow) (ws : List (WalkForwardWindowResult D))
          → run_all windows ≡ ok ws
          → All IsTallied ws × (map (λ w. w.window) ws ≡ windows))
      → (result : WalkForwardResult D)
      → forward_result symbol interval config generated run_all ≡ ok result
      → (map (λ w. w.window) result.windows ≡ windows_of generated)
        × (result.profitable_windows + result.losing_windows + result.flat_windows
            ≡ length result.windows)
        × (result.total_oos_trades
            ≡ total (map (λ w. w.winning_trades) result.windows)
              + total (map (λ w. w.losing_trades) result.windows))
  unfolding forward_result summarise
  forward_result_agrees symbol interval config (raise e) run_all tallied result h =
      absurd (ground arith)
  forward_result_agrees symbol interval config (ok windows) run_all tallied result h =
      elim (Result-cases (run_all windows)) [
        | inl (e, failed) ↦ absurd (ground arith)
        | inr (ws, done) ↦
            let (counted, order) = tallied windows ws done in
            let trades = tallied_total ws counted in
            let signs = signs_apart ws in
            let same : summarise symbol interval config ws ≡ result = ground arith in
            subst
              (λ r.
                (map (λ w. w.window) r.windows ≡ windows)
                × (r.profitable_windows + r.losing_windows + r.flat_windows ≡ length r.windows)
                × (r.total_oos_trades
                    ≡ total (map (λ w. w.winning_trades) r.windows)
                      + total (map (λ w. w.losing_trades) r.windows)))
              same (order, omega arith, trades)
      ]

module _ {D : Type 0} ⦃dec : Decimal D⦄ {I : Type 0} where
  run_window-IsTallied :
      (run_test : List (Bar D I) → Result BacktestError (BacktestResult D))
      → ((chosen : List (Bar D I)) (r : BacktestResult D) → run_test chosen ≡ ok r → IsCounted r)
      → (candles : List (Bar D I)) (interval : String) (config : WalkForwardConfig D)
        (window : WalkForwardWindow) (w : WalkForwardWindowResult D)
      → run_window run_test candles interval config window ≡ ok w
      → IsTallied w × (w.window ≡ window)
  unfolding run_window
  run_window-IsTallied run_test counted candles interval config window w h =
      elim (Result-cases (run_test (test_candles window candles))) [
        | inl (e, failed) ↦ absurd (ground arith)
        | inr (r, done) ↦ let agreed = counted (test_candles window candles) r done in ground arith
      ]

  run_windows-IsTallied :
      (run_test : List (Bar D I) → Result BacktestError (BacktestResult D))
      → ((chosen : List (Bar D I)) (r : BacktestResult D) → run_test chosen ≡ ok r → IsCounted r)
      → (candles : List (Bar D I)) (interval : String) (config : WalkForwardConfig D)
        (windows : List WalkForwardWindow) (ws : List (WalkForwardWindowResult D))
      → run_windows run_test candles interval config windows ≡ ok ws
      → All IsTallied ws × (map (λ w. w.window) ws ≡ windows)
  unfolding run_windows
  run_windows-IsTallied run_test counted candles interval config [] ws h = ground arith
  run_windows-IsTallied run_test counted candles interval config (window ∷ windows) ws h =
      elim (Result-cases (run_window run_test candles interval config window)) [
        | inl (e, failed) ↦ absurd (ground arith)
        | inr (w, done) ↦
            elim (Result-cases (run_windows run_test candles interval config windows)) [
              | inl (e, failed) ↦ absurd (ground arith)
              | inr (rest, finished) ↦
                  let first =
                    run_window-IsTallied run_test counted candles interval config window w done in
                  let others =
                    run_windows-IsTallied run_test counted candles interval config windows rest
                      finished in
                  (ground arith, ground arith)
            ]
      ]

module _ {D : Type 0} ⦃dec : Decimal D⦄ {I S : Type 0} where
  run_backtest-IsCounted :
      (world : Outside D) (strategy : Strategy D I S) (provider : Option (Bar D I → ℕ → I))
      (candles : List (Bar D I)) (state : S) (e : BacktestEngine D) (r : BacktestResult D)
      → (run_backtest world strategy provider candles state e).1 ≡ ok r
      → IsCounted r
  unfolding run_backtest
  run_backtest-IsCounted world strategy provider candles state e r h =
      let (e', answer) = run world strategy provider candles state e in
      let (agreed, _, _) = calculate_results_agree e' in
      elim (Result-cases answer) [
        | inl (x, failed) ↦ absurd (ground arith)
        | inr (_, done) ↦
            let same : calculate_results e' ≡ r = ground arith in subst IsCounted same agreed
      ]

  run_test_window-IsCounted :
      (world : Outside D) (factory : String → Strategy D I S × S) (costs : BacktestConfig D)
      (risk : RiskEngine D) (symbol : String) (config : WalkForwardConfig D)
      (chosen : List (Bar D I)) (r : BacktestResult D)
      → run_test_window world factory costs risk symbol config chosen ≡ ok r
      → IsCounted r
  unfolding run_test_window
  run_test_window-IsCounted world factory costs risk symbol config chosen r h =
      run_backtest-IsCounted world (factory symbol).0 _ chosen (factory symbol).1 _ r h

  -- A walk-forward run that returns has one result for each generated window, in their order; its
  -- profitable, losing and flat windows are all of them, and its trades out of sample are the won
  -- and the lost ones of the windows.
  pub run_fixed_parameter_walk_forward_agrees :
      (world : Outside D) (factory : String → Strategy D I S × S) (costs : BacktestConfig D)
      (risk : RiskEngine D) (candles : List (Bar D I)) (symbol interval : String) (start end : ℕ)
      (config : WalkForwardConfig D) (result : WalkForwardResult D)
      → run_fixed_parameter_walk_forward world factory costs risk candles symbol interval start end
          config
        ≡ ok result
      → (map (λ w. w.window) result.windows
          ≡ windows_of (generate_walk_forward_windows start end config))
        × (result.profitable_windows + result.losing_windows + result.flat_windows
            ≡ length result.windows)
        × (result.total_oos_trades
            ≡ total (map (λ w. w.winning_trades) result.windows)
              + total (map (λ w. w.losing_trades) result.windows))
  unfolding run_fixed_parameter_walk_forward
  run_fixed_parameter_walk_forward_agrees world factory costs risk candles symbol interval start end
        config result h =
      forward_result_agrees symbol interval config (generate_walk_forward_windows start end config)
        _
        (run_windows-IsTallied (run_test_window world factory costs risk symbol config)
          (run_test_window-IsCounted world factory costs risk symbol config) candles interval
          config)
        result h
