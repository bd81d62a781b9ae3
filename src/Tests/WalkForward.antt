-- ===== src/Tests/WalkForward.antt =====
-- A walk-forward run with one window of a day.
use crypto_trading_system.Backtest.Exits.{check_intrabar_exits}
use crypto_trading_system.Backtest.Run.{run}
use crypto_trading_system.Base.{◌+◌, ◌≡◌, refl, false, [], ◌∷◌, map, length, none}
use crypto_trading_system.Base.Int.{ℤ, pos}
use crypto_trading_system.Decimal.Integers.{integers}
use crypto_trading_system.Models.{Result, ok, raise}
use crypto_trading_system.Risk.Engine.{new_engine}
use crypto_trading_system.Backtest.WalkForward.{
  WalkForwardConfig, generate_walk_forward_windows, windows_of,
}
use crypto_trading_system.Backtest.Forward.{
  WalkForwardResult, ForwardError, run_fixed_parameter_walk_forward, summarise, total,
}
use crypto_trading_system.Backtest.Windows.{run_fixed_parameter_walk_forward_agrees}
use crypto_trading_system.Tests.Simulation.{bar, world, strategy, costs, limits}

abbrev daily : WalkForwardConfig ℤ
daily = record { train_days = 1; test_days = 1; step_days = 1; initial_balance = pos 1000 }

abbrev answer : Result ForwardError (WalkForwardResult ℤ)
answer =
    run_fixed_parameter_walk_forward world (λ symbol. (strategy, 0)) costs
      (new_engine limits false none) (bar 5 9 9 ∷ bar 86400 10 12 ∷ []) "BTCUSDT" "1d" 0 172800
      daily

abbrev result_of : Result ForwardError (WalkForwardResult ℤ) → WalkForwardResult ℤ
result_of (raise e) = summarise "" "" daily []
result_of (ok result) = result

abbrev returned : WalkForwardResult ℤ
returned = result_of answer

returns : answer ≡ ok returned
unfolding run_fixed_parameter_walk_forward run check_intrabar_exits
returns = refl

run_fixed_parameter_walk_forward_agrees_example :
    (map (λ w. w.window) returned.windows
      ≡ windows_of (generate_walk_forward_windows 0 172800 daily))
    × (returned.profitable_windows + returned.losing_windows + returned.flat_windows
        ≡ length returned.windows)
    × (returned.total_oos_trades
        ≡ total (map (λ w. w.winning_trades) returned.windows)
          + total (map (λ w. w.losing_trades) returned.windows))
run_fixed_parameter_walk_forward_agrees_example =
    run_fixed_parameter_walk_forward_agrees world (λ symbol. (strategy, 0)) costs
      (new_engine limits false none) (bar 5 9 9 ∷ bar 86400 10 12 ∷ []) "BTCUSDT" "1d" 0 172800
      daily returned returns
