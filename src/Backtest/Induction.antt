-- ===== src/Backtest/Induction.antt =====
-- What every step of `BacktestEngine.run` keeps, the whole run keeps.
use crypto_trading_system.Base.{
  ℕ, suc, String, Bool, Option, List, [], ◌∷◌, length, get_or_else, false, if◌then◌else◌, arith,
  inl, inr, Option-cases, is_some, ◌||◌, ◌++◌,
}
use crypto_trading_system.Base.Dict.{Dict, lookup}
use crypto_trading_system.Decimal.{Decimal}
use crypto_trading_system.Models.{Result-cases}
use crypto_trading_system.Risk.Engine.{RiskEngine}
use crypto_trading_system.Backtest.Position.{Position}
use crypto_trading_system.Backtest.Exits.{ExitLevelEvent, update_positions, check_intrabar_exits}
use crypto_trading_system.Backtest.Signals.{
  Bar, Signal, RawSignal, Answer, nothing, Strategy, normalize_signal, as_signal_list,
}
use crypto_trading_system.Backtest.Orders.{BacktestEngine, Outside, tick}
use crypto_trading_system.Backtest.Engine.{create_and_execute_order}
use crypto_trading_system.Backtest.Volumes.{recent_volume}
use crypto_trading_system.Backtest.Candles.{
  RunState, process_signal, close_signal, reason_text, execute_pending, execute_exits,
  queue_signals, told_of_fill, strategy_signals,
}
use crypto_trading_system.Backtest.Run.{
  levels_of, mark_to_close, measure, end_candle, run_candle, run_candles, liquidate, last_of,
  end_run, run, indicators_of,
}

module _ {D : Type 0} ⦃dec : Decimal D⦄ where
  -- The four ways in which a run changes the engine.
  pub record IsKept (P : BacktestEngine D → Type 0) : Type 0 where
    pub by_order :
        (world : Outside D) (s : Signal D) (price : D) (timestamp : ℕ) (volume : Option D)
        (e : BacktestEngine D)
        → P e
        → P (create_and_execute_order world s price timestamp volume e).0
    pub by_audit :
        (signals : List (Signal D)) (ticks : ℕ) (e : BacktestEngine D)
        → P e
        → P (record e { signals = signals; ticks = ticks })
    pub by_mark :
        (prices : Dict D) (timestamp : ℕ) (highs : Dict D) (risk : RiskEngine D)
        (e : BacktestEngine D)
        → P e
        → P (record e {
          portfolio = update_positions prices timestamp highs e.portfolio;
          risk_engine = risk;
        })
    pub by_drawdown :
        (drawdown : D) (e : BacktestEngine D)
        → P e
        → P (record e { portfolio = record e.portfolio { max_drawdown = drawdown } })

module _ {D : Type 0} ⦃dec : Decimal D⦄ (P : BacktestEngine D → Type 0) (k : IsKept P) where
  process_signal_keeps :
      (world : Outside D) (s : Signal D) (timestamp : ℕ) (volume : Option D) (ticks : ℕ)
      (e : BacktestEngine D)
      → P e
      → P (process_signal world s timestamp volume (record e { ticks = ticks })).0
  unfolding process_signal
  process_signal_keeps world s timestamp volume ticks e h =
      k.by_order world s s.price timestamp volume _ (k.by_audit _ ticks e h)

module _ {D : Type 0} ⦃dec : Decimal D⦄ {S : Type 0} (P : BacktestEngine D → Type 0)
    (k : IsKept P) where
  measure_keeps : (r : RunState D S) → P r.engine → P (measure r).engine
  unfolding measure
  measure_keeps r h = k.by_drawdown _ r.engine h

module _ {D : Type 0} ⦃dec : Decimal D⦄ {I : Type 0} (P : BacktestEngine D → Type 0)
    (k : IsKept P) where
  execute_exits_keeps :
      (world : Outside D) (candles : List (Bar D I)) (index timestamp : ℕ) (run_id : String)
      (events : List (ExitLevelEvent D)) (closed : Bool) (e : BacktestEngine D)
      → P e
      → P (execute_exits world candles index timestamp run_id events closed e).0
  unfolding execute_exits
  execute_exits_keeps world candles index timestamp run_id [] closed e h = h
  execute_exits_keeps world candles index timestamp run_id (x ∷ events) closed e h =
      elim (Option-cases (lookup x.symbol e.portfolio.positions)) [
        | inl gone ↦
            ground
              (arith, execute_exits_keeps world candles index timestamp run_id events closed e h)
        | inr (p, held) ↦
            let s =
              close_signal world x.symbol x.reference_price p.quantity timestamp
                (reason_text x.reason) run_id e in
            let volume = recent_volume candles index x.symbol in
            let step = process_signal world s timestamp volume (tick e) in
            let kept = process_signal_keeps P k world s timestamp volume (suc e.ticks) e h in
            elim (Result-cases step.1) [
              | inl (err, raised) ↦ ground (arith, kept)
              | inr (fill, filled) ↦ ground (
                arith,
                execute_exits_keeps world candles index timestamp run_id events
                    (is_some fill || closed) step.0 kept,
              )
            ]
      ]

  liquidate_keeps :
      (world : Outside D) (candles : List (Bar D I)) (run_id : String) (last : Bar D I)
      (ps : Dict (Position D)) (e : BacktestEngine D)
      → P e
      → P (liquidate world candles run_id last ps e).0
  unfolding liquidate
  liquidate_keeps world candles run_id last [] e h = h
  liquidate_keeps world candles run_id last ((symbol, p) ∷ ps) e h =
      let s =
        close_signal world symbol last.close p.quantity last.open_time "End of backtest" run_id e in
      let volume = recent_volume candles (length candles) symbol in
      let step = process_signal world s last.open_time volume (tick e) in
      let kept = process_signal_keeps P k world s last.open_time volume (suc e.ticks) e h in
      elim (Result-cases step.1) [
        | inl (err, raised) ↦ ground (arith, kept)
        | inr (fill, filled) ↦
            ground (arith, liquidate_keeps world candles run_id last ps step.0 kept)
      ]

  end_run_keeps :
      (world : Outside D) (run_id : String) (candles : List (Bar D I)) (e : BacktestEngine D)
      → P e
      → P (end_run world run_id candles e).0
  unfolding end_run
  end_run_keeps world run_id [] e h = h
  end_run_keeps world run_id (c ∷ rest) e h =
      ground (
        arith,
        h,
        liquidate_keeps world (c ∷ rest) run_id (last_of c rest) e.portfolio.positions e h,
      )

  mark_to_close_keeps : (c : Bar D I) (e : BacktestEngine D) → P e → P (mark_to_close c e)
  unfolding mark_to_close
  mark_to_close_keeps c e h = k.by_mark _ _ _ _ e h

module _ {D : Type 0} ⦃dec : Decimal D⦄ {I S : Type 0} (P : BacktestEngine D → Type 0)
    (k : IsKept P) where
  execute_pending_keeps :
      (world : Outside D) (strategy : Strategy D I S) (candles : List (Bar D I)) (index : ℕ)
      (price : D) (timestamp : ℕ) (pending : List (Signal D)) (r : RunState D S)
      → P r.engine
      → P (execute_pending world strategy candles index price timestamp pending r).0.engine
  unfolding execute_pending
  execute_pending_keeps world strategy candles index price timestamp [] r h = h
  execute_pending_keeps world strategy candles index price timestamp (s ∷ pending) r h =
      let volume = recent_volume candles index s.symbol in
      let step = create_and_execute_order world s price timestamp volume r.engine in
      let kept = k.by_order world s price timestamp volume r.engine h in
      elim (Result-cases step.1) [
        | inl (x, raised) ↦ ground (arith, kept)
        | inr (fill, filled) ↦ ground (
          arith,
          execute_pending_keeps world strategy candles index price timestamp pending
              (record r {
                engine = step.0;
                strategy_state = told_of_fill strategy s fill r.strategy_state;
              })
              kept,
        )
      ]

  queue_signals_keeps :
      (world : Outside D) (c : Bar D I) (run_id : String) (raw : List (RawSignal D))
      (r : RunState D S)
      → P r.engine
      → P (queue_signals world c run_id raw r).0.engine
  unfolding queue_signals
  queue_signals_keeps world c run_id [] r h = h
  queue_signals_keeps world c run_id (x ∷ raw) r h =
      elim (Result-cases (normalize_signal x c c.open_time run_id (world.uuid r.engine.ticks))) [
        | inl (err, raised) ↦ ground (arith, h)
        | inr (s, normal) ↦ ground (
          arith,
          queue_signals_keeps world c run_id raw
              (record r {
                engine = record r.engine {
                  signals = r.engine.signals ++ (s ∷ []);
                  ticks = suc r.engine.ticks;
                };
                pending_signals = r.pending_signals ++ (s ∷ []);
              })
              (k.by_audit _ _ r.engine h),
        )
      ]

  end_candle_keeps :
      (world : Outside D) (strategy : Strategy D I S) (provider : Option (Bar D I → ℕ → I))
      (run_id : String) (index : ℕ) (c : Bar D I) (closed : Bool) (r : RunState D S)
      → P r.engine
      → P (end_candle world strategy provider run_id index c closed r).0.engine
  unfolding end_candle
  end_candle_keeps world strategy provider run_id index c closed r h =
      let marked = record r { engine = mark_to_close c r.engine } in
      let asked : S × Answer D =
        if closed
        then (r.strategy_state, nothing)
        else strategy_signals strategy c (indicators_of provider c index) marked.engine.portfolio
            r.strategy_state in
      let queued =
        queue_signals world c run_id (as_signal_list asked.1)
          (record marked { strategy_state = asked.0 }) in
      let kept =
        queue_signals_keeps world c run_id (as_signal_list asked.1)
          (record marked { strategy_state = asked.0 }) (mark_to_close_keeps P k c r.engine h) in
      elim (Result-cases queued.1) [
        | inl (x, raised) ↦ ground (arith, kept)
        | inr (u, went) ↦ ground (arith, measure_keeps P k queued.0 kept)
      ]

  run_candle_keeps :
      (world : Outside D) (strategy : Strategy D I S) (provider : Option (Bar D I → ℕ → I))
      (run_id : String) (candles : List (Bar D I)) (index : ℕ) (c : Bar D I) (r : RunState D S)
      → P r.engine
      → P (run_candle world strategy provider run_id candles index c r).0.engine
  unfolding run_candle
  run_candle_keeps world strategy provider run_id candles index c r h =
      let cleared = record r { pending_signals = [] } in
      let price = get_or_else c.open_price c.close in
      let first =
        execute_pending world strategy candles index price c.open_time r.pending_signals cleared in
      let kept =
        execute_pending_keeps world strategy candles index price c.open_time r.pending_signals
          cleared h in
      let events = check_intrabar_exits (levels_of c) first.0.engine.portfolio.positions in
      let second =
        execute_exits world candles index c.open_time run_id events false first.0.engine in
      let kept' =
        execute_exits_keeps P k world candles index c.open_time run_id events false first.0.engine
          kept in
      elim (Result-cases first.1) [
        | inl (x, raised) ↦ ground (arith, kept)
        | inr (u, went) ↦ elim (Result-cases second.1) [
          | inl (x, raised) ↦ ground (arith, kept')
          | inr (closed, exits) ↦ ground (
            arith,
            end_candle_keeps world strategy provider run_id index c closed
                (record first.0 { engine = second.0 }) kept',
          )
        ]
      ]

  run_candles_keeps :
      (world : Outside D) (strategy : Strategy D I S) (provider : Option (Bar D I → ℕ → I))
      (run_id : String) (candles : List (Bar D I)) (index : ℕ) (rest : List (Bar D I))
      (r : RunState D S)
      → P r.engine
      → P (run_candles world strategy provider run_id candles index rest r).0.engine
  unfolding run_candles
  run_candles_keeps world strategy provider run_id candles index [] r h = h
  run_candles_keeps world strategy provider run_id candles index (c ∷ rest) r h =
      let step = run_candle world strategy provider run_id candles index c r in
      let kept = run_candle_keeps world strategy provider run_id candles index c r h in
      elim (Result-cases step.1) [
        | inl (x, raised) ↦ ground (arith, kept)
        | inr (u, went) ↦ ground (
          arith,
          run_candles_keeps world strategy provider run_id candles (suc index) rest step.0 kept,
        )
      ]

  pub run_keeps :
      (world : Outside D) (strategy : Strategy D I S) (provider : Option (Bar D I → ℕ → I))
      (candles : List (Bar D I)) (state : S) (e : BacktestEngine D)
      → P e
      → P (run world strategy provider candles state e).0
  unfolding run
  run_keeps world strategy provider candles state e h =
      let begun : RunState D S = record {
        engine = tick e;
        strategy_state = state;
        pending_signals = [];
        peak_equity = e.config.initial_balance;
      } in
      let run_id = world.uuid e.ticks in
      let looped = run_candles world strategy provider run_id candles 0 candles begun in
      let kept =
        run_candles_keeps world strategy provider run_id candles 0 candles begun
          (k.by_audit _ _ e h) in
      elim (Result-cases looped.1) [
        | inl (x, raised) ↦ ground (arith, kept)
        | inr (u, went) ↦
            ground (arith, end_run_keeps P k world run_id candles looped.0.engine kept)
      ]
