-- ===== src/Backtest/Forward.antt =====
-- `run_fixed_parameter_walk_forward` of app/backtest/walk_forward.py: a backtest for each test window.
-- Open times are seconds here; the strategy factory and the engine that a window starts with are
-- arguments.
use crypto_trading_system.Base.{
  ℕ, String, ◌+◌, ◌-◌, Bool, ◌&&◌, ltb, leb, ◌==◌, if◌then◌else◌, some, List, [], ◌∷◌, map, length,
}
use crypto_trading_system.Decimal.{Decimal, dec_zero, literal, ◌<?◌, ◌⊘◌, sum}
use crypto_trading_system.Models.{Result, ok, raise}
use crypto_trading_system.Risk.Engine.{RiskEngine}
use crypto_trading_system.Backtest.Portfolio.{total_equity}
use crypto_trading_system.Backtest.Signals.{Bar, Strategy, BacktestError}
use crypto_trading_system.Backtest.Orders.{BacktestConfig, Outside, new_backtest}
use crypto_trading_system.Backtest.Summary.{BacktestResult, run_backtest}
use crypto_trading_system.Backtest.WalkForward.{
  WalkForwardConfig, WindowError, WalkForwardWindow, generate_walk_forward_windows,
  validate_test_candles,
}

pub record WalkForwardWindowResult (D : Type 0) : Type 0 where
  pub window : WalkForwardWindow
  pub candle_count : ℕ
  pub initial_balance : D
  pub final_equity : D
  pub total_pnl : D
  pub total_trades : ℕ
  pub winning_trades : ℕ
  pub losing_trades : ℕ
  pub win_rate : D
  pub profit_factor : D
  pub max_drawdown : D

pub record WalkForwardResult (D : Type 0) : Type 0 where
  pub symbol : String
  pub interval : String
  pub config : WalkForwardConfig D
  pub windows : List (WalkForwardWindowResult D)
  pub total_oos_pnl : D
  pub profitable_windows : ℕ
  pub losing_windows : ℕ
  pub flat_windows : ℕ
  pub total_oos_trades : ℕ

pub data ForwardError : Type 0 where
  window_error : WindowError → ForwardError
  backtest_error : BacktestError → ForwardError

abbrev pub total : List ℕ → ℕ
total [] = 0
total (n ∷ ns) = n + total ns

-- How many of the numbers pass the test.
abbrev pub count {ℓ} : {A : Type ℓ} → (A → Bool) → List A → ℕ
count p [] = 0
count p (a ∷ l) = (if p a then 1 else 0) + count p l

module _ {D I : Type 0} where
  -- The candles that open in the window's test range.
  unfoldable pub test_candles : WalkForwardWindow → List (Bar D I) → List (Bar D I)
  test_candles window [] = []
  test_candles window (c ∷ candles) =
      let rest = test_candles window candles in
      if leb window.test_start c.open_time && ltb c.open_time window.test_end
      then c ∷ rest
      else rest

module _ {D : Type 0} ⦃dec : Decimal D⦄ where
  unfoldable pub return_pct : WalkForwardWindowResult D → D
  return_pct r = r.total_pnl ⊘ r.initial_balance

  unfoldable pub profitable_window_rate : WalkForwardResult D → D
  profitable_window_rate r =
      if length r.windows == 0
      then dec_zero
      else literal r.profitable_windows 0 ⊘ literal (length r.windows) 0

  abbrev pub window_result :
      WalkForwardConfig D → WalkForwardWindow → ℕ → BacktestResult D → WalkForwardWindowResult D
  window_result config window candle_count r = record {
    window = window;
    candle_count = candle_count;
    initial_balance = config.initial_balance;
    final_equity = total_equity r.portfolio;
    total_pnl = r.total_pnl;
    total_trades = r.total_trades;
    winning_trades = r.winning_trades;
    losing_trades = r.losing_trades;
    win_rate = r.win_rate;
    profit_factor = r.profit_factor;
    max_drawdown = r.max_drawdown;
  }

  -- The totals over the windows.
  unfoldable pub summarise :
      String → String → WalkForwardConfig D → List (WalkForwardWindowResult D) → WalkForwardResult D
  summarise symbol interval config results =
      let profitable = count (λ r. dec_zero <? r.total_pnl) results in
      let losing = count (λ r. r.total_pnl <? dec_zero) results in
      record {
        symbol = symbol;
        interval = interval;
        config = config;
        windows = results;
        total_oos_pnl = sum (map (λ r. r.total_pnl) results);
        profitable_windows = profitable;
        losing_windows = losing;
        flat_windows = length results - profitable - losing;
        total_oos_trades = total (map (λ r. r.total_trades) results);
      }

  -- The backtests over the windows, if there are any, and the totals.
  unfoldable pub forward_result :
      String
      → String
      → WalkForwardConfig D
      → Result WindowError (List WalkForwardWindow)
      → (List WalkForwardWindow → Result ForwardError (List (WalkForwardWindowResult D)))
      → Result ForwardError (WalkForwardResult D)
  unfolding summarise
  forward_result symbol interval config (raise e) run_all = raise (window_error e)
  forward_result symbol interval config (ok windows) run_all = elim (run_all windows) [
    | raise e ↦ raise e
    | ok results ↦ ok (summarise symbol interval config results)
  ]

module _ {D : Type 0} ⦃dec : Decimal D⦄ {I : Type 0} where
  unfoldable pub run_window :
      (List (Bar D I) → Result BacktestError (BacktestResult D))
      → List (Bar D I)
      → String
      → WalkForwardConfig D
      → WalkForwardWindow
      → Result ForwardError (WalkForwardWindowResult D)
  unfolding test_candles validate_test_candles
  run_window run_test candles interval config window =
      let chosen = test_candles window candles in
      elim (validate_test_candles (map (λ c. c.open_time) chosen) interval window) [
        | raise e ↦ raise (window_error e)
        | ok _ ↦ elim (run_test chosen) [
          | raise e ↦ raise (backtest_error e)
          | ok r ↦ ok (window_result config window (length chosen) r)
        ]
      ]

  unfoldable pub run_windows :
      (List (Bar D I) → Result BacktestError (BacktestResult D))
      → List (Bar D I)
      → String
      → WalkForwardConfig D
      → List WalkForwardWindow
      → Result ForwardError (List (WalkForwardWindowResult D))
  unfolding run_window
  run_windows run_test candles interval config [] = ok []
  run_windows run_test candles interval config (window ∷ windows) =
      elim (run_window run_test candles interval config window) [
        | raise e ↦ raise e
        | ok r ↦ elim (run_windows run_test candles interval config windows) [
          | raise e ↦ raise e
          | ok rs ↦ ok (r ∷ rs)
        ]
      ]

module _ {D : Type 0} ⦃dec : Decimal D⦄ {I S : Type 0} where
  -- `_run_test_window`: a fresh strategy and a fresh engine, with the configured balance.
  unfoldable pub run_test_window :
      Outside D
      → (String → Strategy D I S × S)
      → BacktestConfig D
      → RiskEngine D
      → String
      → WalkForwardConfig D
      → List (Bar D I)
      → Result BacktestError (BacktestResult D)
  unfolding run_backtest new_backtest
  run_test_window world factory costs risk symbol config candles =
      let (strategy, state) = factory symbol in
      (run_backtest world strategy (some (λ c index. c.indicators)) candles state
        (new_backtest (record costs { initial_balance = config.initial_balance }) risk)).1

  unfoldable pub run_fixed_parameter_walk_forward :
      Outside D
      → (String → Strategy D I S × S)
      → BacktestConfig D
      → RiskEngine D
      → List (Bar D I)
      → String
      → String
      → ℕ
      → ℕ
      → WalkForwardConfig D
      → Result ForwardError (WalkForwardResult D)
  unfolding generate_walk_forward_windows run_windows run_test_window forward_result
  run_fixed_parameter_walk_forward world factory costs risk candles symbol interval start end
        config =
      forward_result symbol interval config (generate_walk_forward_windows start end config) (
        run_windows (run_test_window world factory costs risk symbol config) candles interval
          config)
