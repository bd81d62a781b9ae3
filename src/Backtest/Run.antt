-- ===== src/Backtest/Run.antt =====
-- `BacktestEngine.run`: the loop over the candles and the liquidation at the end. The peak of the
-- equity is not zero where it divides.
use crypto_trading_system.Base.{
  ℕ, suc, String, ◌=ₛ◌, Bool, false, if◌then◌else◌, Option, none, some, List, [], ◌∷◌, length,
  get_or_else,
}
use crypto_trading_system.Base.Dict.{Dict}
use crypto_trading_system.Decimal.{Decimal, ◌⊖◌, ◌⊘◌, max}
use crypto_trading_system.Models.{Result, ok, raise}
use crypto_trading_system.Risk.Engine.{update_equity}
use crypto_trading_system.Backtest.Position.{Position}
use crypto_trading_system.Backtest.Portfolio.{total_equity}
use crypto_trading_system.Backtest.Exits.{Levels, check_intrabar_exits, update_positions}
use crypto_trading_system.Backtest.Signals.{Bar, nothing, Strategy, BacktestError, as_signal_list}
use crypto_trading_system.Backtest.Orders.{BacktestEngine, Outside, tick}
use crypto_trading_system.Backtest.Volumes.{recent_volume}
use crypto_trading_system.Backtest.Candles.{
  RunState, process_signal, close_signal, execute_pending, execute_exits, strategy_signals,
  queue_signals,
}

module _ {D I : Type 0} where
  -- The provider's indicators, or those that stand in the candle.
  abbrev pub indicators_of : Option (Bar D I → ℕ → I) → Bar D I → ℕ → I
  indicators_of none c index = c.indicators
  indicators_of (some f) c index = f c index

  abbrev pub last_of : Bar D I → List (Bar D I) → Bar D I
  last_of c [] = c
  last_of c (d ∷ rest) = last_of d rest

module _ {D : Type 0} ⦃dec : Decimal D⦄ {I : Type 0} where
  -- The candle's own levels, under its symbol.
  unfoldable pub levels_of : Bar D I → Dict (Levels D)
  levels_of c =
      (
        c.symbol,
        record {
          open_price = get_or_else c.open_price c.close;
          high = get_or_else c.high c.close;
          low = get_or_else c.low c.close;
        },
      )
      ∷ []

  -- The portfolio marked to the close, and the risk engine told of its equity.
  unfoldable pub mark_to_close : Bar D I → BacktestEngine D → BacktestEngine D
  unfolding update_positions
  mark_to_close c e =
      let p =
        update_positions ((c.symbol, c.close) ∷ []) c.open_time
          ((c.symbol, get_or_else c.high c.close) ∷ []) e.portfolio in
      record e { portfolio = p; risk_engine = update_equity (total_equity p) e.risk_engine }

  -- The positions that are left are closed at the last close.
  unfoldable pub liquidate :
      Outside D
      → List (Bar D I)
      → String
      → Bar D I
      → Dict (Position D)
      → BacktestEngine D
      → BacktestEngine D × Result BacktestError (Unit {0})
  unfolding process_signal close_signal recent_volume
  liquidate world candles run_id last [] e = (e, ok tt)
  liquidate world candles run_id last ((symbol, p) ∷ rest) e =
      let s =
        close_signal world symbol last.close p.quantity last.open_time "End of backtest" run_id e in
      let (e', result) =
        process_signal world s last.open_time (recent_volume candles (length candles) symbol)
          (tick e) in
      elim result [ raise x ↦ (e', raise x) | ok _ ↦ liquidate world candles run_id last rest e' ]

  unfoldable pub end_run :
      Outside D
      → String
      → List (Bar D I)
      → BacktestEngine D
      → BacktestEngine D × Result BacktestError (Unit {0})
  unfolding liquidate
  end_run world run_id [] e = (e, ok tt)
  end_run world run_id (c ∷ rest) e =
      if e.config.end_position_policy =ₛ "liquidate"
      then liquidate world (c ∷ rest) run_id (last_of c rest) e.portfolio.positions e
      else (e, ok tt)

module _ {D : Type 0} ⦃dec : Decimal D⦄ {S : Type 0} where
  -- Peak and drawdown at the end of a candle.
  unfoldable pub measure : RunState D S → RunState D S
  measure r =
      let equity = total_equity r.engine.portfolio in
      let peak = max r.peak_equity equity in
      record r {
        peak_equity = peak;
        engine = record r.engine {
          portfolio = record r.engine.portfolio {
            max_drawdown = max r.engine.portfolio.max_drawdown ((peak ⊖ equity) ⊘ peak);
          };
        };
      }

module _ {D : Type 0} ⦃dec : Decimal D⦄ {I S : Type 0} where
  -- The end of a candle: the strategy is asked unless a level was hit.
  unfoldable pub end_candle :
      Outside D
      → Strategy D I S
      → Option (Bar D I → ℕ → I)
      → String
      → ℕ
      → Bar D I
      → Bool
      → RunState D S
      → RunState D S × Result BacktestError (Unit {0})
  unfolding mark_to_close measure strategy_signals queue_signals as_signal_list
  end_candle world strategy provider run_id index c closed r =
      let marked = record r { engine = mark_to_close c r.engine } in
      let indicators = indicators_of provider c index in
      let (state, answer) =
        if closed
        then (r.strategy_state, nothing)
        else strategy_signals strategy c indicators marked.engine.portfolio r.strategy_state in
      let (queued, result) =
        queue_signals world c run_id (as_signal_list answer)
          (record marked { strategy_state = state }) in
      elim result [ raise x ↦ (queued, raise x) | ok _ ↦ (measure queued, ok tt) ]

  unfoldable pub run_candle :
      Outside D
      → Strategy D I S
      → Option (Bar D I → ℕ → I)
      → String
      → List (Bar D I)
      → ℕ
      → Bar D I
      → RunState D S
      → RunState D S × Result BacktestError (Unit {0})
  unfolding levels_of execute_pending execute_exits end_candle
  run_candle world strategy provider run_id candles index c r =
      let (r1, executed) =
        execute_pending world strategy candles index (get_or_else c.open_price c.close) c.open_time
          r.pending_signals (record r { pending_signals = [] }) in
      elim executed [
        | raise x ↦ (r1, raise x)
        | ok _ ↦
            (let (e, exits) =
                execute_exits world candles index c.open_time run_id
                  (check_intrabar_exits (levels_of c) r1.engine.portfolio.positions) false
                  r1.engine in
              let r2 = record r1 { engine = e } in
              elim exits [
                | raise x ↦ (r2, raise x)
                | ok closed ↦ end_candle world strategy provider run_id index c closed r2
              ])
      ]

  unfoldable pub run_candles :
      Outside D
      → Strategy D I S
      → Option (Bar D I → ℕ → I)
      → String
      → List (Bar D I)
      → ℕ
      → List (Bar D I)
      → RunState D S
      → RunState D S × Result BacktestError (Unit {0})
  unfolding run_candle
  run_candles world strategy provider run_id candles index [] r = (r, ok tt)
  run_candles world strategy provider run_id candles index (c ∷ rest) r =
      let (r', result) = run_candle world strategy provider run_id candles index c r in
      elim result [
        | raise x ↦ (r', raise x)
        | ok _ ↦ run_candles world strategy provider run_id candles (suc index) rest r'
      ]

  -- The part of `run` before the results; `uuid4` names the run.
  unfoldable pub run :
      Outside D
      → Strategy D I S
      → Option (Bar D I → ℕ → I)
      → List (Bar D I)
      → S
      → BacktestEngine D
      → BacktestEngine D × Result BacktestError (Unit {0})
  unfolding run_candles end_run
  run world strategy provider candles state e =
      let run_id = world.uuid e.ticks in
      let (r, result) = run_candles world strategy provider run_id candles 0 candles (record {
        engine = tick e;
        strategy_state = state;
        pending_signals = [];
        peak_equity = e.config.initial_balance;
      }) in
      elim result [ raise x ↦ (r.engine, raise x) | ok _ ↦ end_run world run_id candles r.engine ]
