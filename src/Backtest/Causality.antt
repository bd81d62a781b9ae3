-- ===== src/Backtest/Causality.antt =====
-- No candle of a backtest is seen before its time: what a run has done after some candles does not
-- depend on the candles after them.
use crypto_trading_system.Base.{
  ℕ, zero, suc, ◌+◌, ◌≤◌, ◌<◌, String, ◌≡◌, refl, sym, ap, ◌∙◌, Bool, ◌||◌, false, is_some,
  get_or_else, Option, List, [], ◌∷◌, ◌++◌, length, take, reverse, arith, inl, inr, Option-cases,
}
use crypto_trading_system.Base.Dict.{lookup}
use crypto_trading_system.Decimal.{Decimal}
use crypto_trading_system.Models.{ok, Result-cases}
use crypto_trading_system.Backtest.Exits.{ExitLevelEvent, check_intrabar_exits}
use crypto_trading_system.Backtest.Signals.{Bar, Signal, Strategy}
use crypto_trading_system.Backtest.Orders.{BacktestEngine, Outside, tick}
use crypto_trading_system.Backtest.Engine.{create_and_execute_order}
use crypto_trading_system.Backtest.Volumes.{
  average_completed_volume, recent_volume, completed_volumes, mean_volume,
}
use crypto_trading_system.Backtest.Candles.{
  RunState, process_signal, close_signal, reason_text, execute_pending, execute_exits, told_of_fill,
}
use crypto_trading_system.Backtest.Run.{levels_of, run_candle, run_candles}

take-append : {A : Type 0} (n : ℕ) (xs ys : List A) → n ≤ length xs → take n (xs ++ ys) ≡ take n xs
take-append zero xs ys h = refl
take-append (suc n) [] ys h = absurd (omega (arith, h))
take-append (suc n) (x ∷ xs) ys h = ap (λ r. x ∷ r) (take-append n xs ys (omega (arith, h)))

module _ {D : Type 0} ⦃dec : Decimal D⦄ {I : Type 0} where
  -- Two lists of candles under which the slippage model knows the same volumes at a candle.
  abbrev SameVolumes : List (Bar D I) → List (Bar D I) → ℕ → Type 0
  SameVolumes cs cs' index = (s : String) → recent_volume cs index s ≡ recent_volume cs' index s

  past_volume :
      (past future future' : List (Bar D I)) (index : ℕ) (s : String) (lookback : ℕ)
      → index ≤ length past
      → average_completed_volume (past ++ future) index s lookback
        ≡ average_completed_volume (past ++ future') index s lookback
  unfolding average_completed_volume
  past_volume past future future' index s zero h = refl
  past_volume past future future' index s (suc lookback) h =
      ap (λ cs. ok (mean_volume (completed_volumes s (suc lookback) (reverse cs))))
        (take-append index past future h ∙ sym (take-append index past future' h))

  past-SameVolumes :
      (past future future' : List (Bar D I)) (index : ℕ)
      → index ≤ length past
      → SameVolumes (past ++ future) (past ++ future') index
  unfolding recent_volume
  past-SameVolumes past future future' index h s =
      ground (arith, past_volume past future future' index s 20 h)

  execute_exits_same :
      (world : Outside D) (cs cs' : List (Bar D I)) (index timestamp : ℕ) (run_id : String)
      (events : List (ExitLevelEvent D)) (closed : Bool) (e : BacktestEngine D)
      → SameVolumes cs cs' index
      → execute_exits world cs index timestamp run_id events closed e
        ≡ execute_exits world cs' index timestamp run_id events closed e
  unfolding execute_exits
  execute_exits_same world cs cs' index timestamp run_id [] closed e h = refl
  execute_exits_same world cs cs' index timestamp run_id (x ∷ events) closed e h =
      elim (Option-cases (lookup x.symbol e.portfolio.positions)) [
        | inl gone ↦
            ground (arith, execute_exits_same world cs cs' index timestamp run_id events closed e h)
        | inr (p, held) ↦
            let s =
              close_signal world x.symbol x.reference_price p.quantity timestamp
                (reason_text x.reason) run_id e in
            let step =
              process_signal world s timestamp (recent_volume cs index x.symbol) (tick e) in
            elim (Result-cases step.1) [
              | inl (err, raised) ↦ ground (arith, h x.symbol)
              | inr (fill, filled) ↦ ground (
                arith,
                h x.symbol,
                execute_exits_same world cs cs' index timestamp run_id events
                    (is_some fill || closed) step.0 h,
              )
            ]
      ]

module _ {D : Type 0} ⦃dec : Decimal D⦄ {I S : Type 0} where
  execute_pending_same :
      (world : Outside D) (strategy : Strategy D I S) (cs cs' : List (Bar D I)) (index : ℕ)
      (price : D) (timestamp : ℕ) (pending : List (Signal D)) (r : RunState D S)
      → SameVolumes cs cs' index
      → execute_pending world strategy cs index price timestamp pending r
        ≡ execute_pending world strategy cs' index price timestamp pending r
  unfolding execute_pending
  execute_pending_same world strategy cs cs' index price timestamp [] r h = refl
  execute_pending_same world strategy cs cs' index price timestamp (s ∷ pending) r h =
      let step =
        create_and_execute_order world s price timestamp (recent_volume cs index s.symbol)
          r.engine in
      elim (Result-cases step.1) [
        | inl (x, raised) ↦ ground (arith, h s.symbol)
        | inr (fill, filled) ↦ ground (
          arith,
          h s.symbol,
          execute_pending_same world strategy cs cs' index price timestamp pending
              (record r {
                engine = step.0;
                strategy_state = told_of_fill strategy s fill r.strategy_state;
              })
              h,
        )
      ]

  run_candle_same :
      (world : Outside D) (strategy : Strategy D I S) (provider : Option (Bar D I → ℕ → I))
      (run_id : String) (cs cs' : List (Bar D I)) (index : ℕ) (c : Bar D I) (r : RunState D S)
      → SameVolumes cs cs' index
      → run_candle world strategy provider run_id cs index c r
        ≡ run_candle world strategy provider run_id cs' index c r
  unfolding run_candle
  run_candle_same world strategy provider run_id cs cs' index c r h =
      let cleared = record r { pending_signals = [] } in
      let price = get_or_else c.open_price c.close in
      let first =
        execute_pending world strategy cs index price c.open_time r.pending_signals cleared in
      let events = check_intrabar_exits (levels_of c) first.0.engine.portfolio.positions in
      ground (
        arith,
        execute_pending_same world strategy cs cs' index price c.open_time r.pending_signals cleared
            h,
        execute_exits_same world cs cs' index c.open_time run_id events false first.0.engine h,
      )

  run_candles_same :
      (world : Outside D) (strategy : Strategy D I S) (provider : Option (Bar D I → ℕ → I))
      (run_id : String) (cs cs' : List (Bar D I)) (index : ℕ) (rest : List (Bar D I))
      (r : RunState D S)
      → ((i : ℕ) → i < index + length rest → SameVolumes cs cs' i)
      → run_candles world strategy provider run_id cs index rest r
        ≡ run_candles world strategy provider run_id cs' index rest r
  unfolding run_candles
  run_candles_same world strategy provider run_id cs cs' index [] r h = refl
  run_candles_same world strategy provider run_id cs cs' index (c ∷ rest) r h =
      let step = run_candle world strategy provider run_id cs index c r in
      ground (
        arith,
        run_candle_same world strategy provider run_id cs cs' index c r (h index (omega arith)),
        run_candles_same world strategy provider run_id cs cs' (suc index) rest step.0
            (λ i b. h i (omega (arith, b))),
      )

  -- What a run has done after its first candles, the state of the strategy, the orders, the fills and
  -- the pending signals included, is the same whatever candles follow them. The volume that the
  -- slippage of an execution at the next opening is computed from does not depend on them either,
  -- the candle of the execution among them.
  pub run_candles_causal :
      (world : Outside D) (strategy : Strategy D I S) (provider : Option (Bar D I → ℕ → I))
      (run_id : String) (past future future' : List (Bar D I)) (r : RunState D S)
      → (run_candles world strategy provider run_id (past ++ future) 0 past r
          ≡ run_candles world strategy provider run_id (past ++ future') 0 past r)
        × ((s : String) (lookback : ℕ)
            → average_completed_volume (past ++ future) (length past) s lookback
              ≡ average_completed_volume (past ++ future') (length past) s lookback)
  run_candles_causal world strategy provider run_id past future future' r = (
    run_candles_same world strategy provider run_id (past ++ future) (past ++ future') 0 past r
        (λ i b. past-SameVolumes past future future' i (omega (arith, b))),
    λ s lookback. past_volume past future future' (length past) s lookback (omega arith),
  )
