-- ===== src/Trading/Kept.antt =====
-- Predicates on engines that the loop over market events keeps.
use crypto_trading_system.Base.{
  ℕ, suc, ◌≡◌, true, Option, none, some, List, [], ◌∷◌, arith, inl, inr,
}
use crypto_trading_system.Decimal.{Decimal}
use crypto_trading_system.Models.{Result-cases, MarketEvent}
use crypto_trading_system.Execution.State.{Engine, ExecutionRequest, Draw, Tags, schedule}
use crypto_trading_system.Execution.Engine.{
  on_market_event, execute, held_quantity, book_fill, execute_new,
}
use crypto_trading_system.Execution.Repository.{Database, checkpoint, flush}
use crypto_trading_system.Execution.Positions.{IsLong, execute-IsLong}
use crypto_trading_system.Trading.State.{
  PaperTradingRuntime, RiskManager, Strategy, checkpoint_runtime, validate_request, tags_of,
  count_candle, checkpoint_due, reconcile_due, heartbeat, finish_candle,
}
use crypto_trading_system.Trading.Runtime.{
  execute_request, handle_request, handle_requests, run_strategy, process_accepted, process_candle,
  process_events,
}

-- A predicate on engines that market events, executions and checkpoints keep.
pub record IsKept {D : Type 0} ⦃dec : Decimal D⦄ (P : Engine D → Type 0) : Type 0 where
  pub market : (ev : MarketEvent D) (e : Engine D) → P e → P (on_market_event ev e).0
  pub order :
      (request : ExecutionRequest D) (price : Option D) (tags : Tags) (draw : Draw) (e : Engine D)
      → P e
      → P (execute request price tags draw e).0
  pub saved : (e : Engine D) (db : Database D) → P e → P (checkpoint e db).0

module _ {D S : Type 0} ⦃dec : Decimal D⦄ (P : Engine D → Type 0) (k : IsKept P) where
  checkpoint_runtime_keeps :
      (rt : PaperTradingRuntime D S) → P rt.engine → P (checkpoint_runtime rt).engine
  unfolding checkpoint_runtime
  checkpoint_runtime_keeps rt h = ground (arith, k.saved rt.engine rt.database h)

  finish_candle_keeps :
      (n : ℕ) (rt : PaperTradingRuntime D S) → P rt.engine → P (finish_candle n rt).0.engine
  unfolding finish_candle count_candle checkpoint_due reconcile_due heartbeat
  finish_candle_keeps n rt h = ground (arith, checkpoint_runtime_keeps (count_candle rt) h)

  execute_request_keeps :
      (n i : ℕ) (draw : Draw) (request : ExecutionRequest D) (rt : PaperTradingRuntime D S)
      → P rt.engine
      → P (execute_request n i draw request rt).0.engine
  unfolding execute_request
  execute_request_keeps n i draw request rt h =
      ground (arith, k.order request none (tags_of rt n i request) draw rt.engine h)

  module _ (manager : Option (RiskManager D S)) where
    handle_request_keeps :
        (n i : ℕ) (draw : Draw) (request : ExecutionRequest D) (rt : PaperTradingRuntime D S)
        → P rt.engine
        → P (handle_request manager n i draw request rt).0.engine
    unfolding handle_request
    handle_request_keeps n i draw request rt h = ground (
      arith,
      execute_request_keeps n i draw request
          (record rt { risk = (validate_request manager request rt.engine rt.risk).0 }) h,
    )

    handle_requests_keeps :
        (n : ℕ) (draws : ℕ → Draw) (i : ℕ) (requests : List (ExecutionRequest D))
        (rt : PaperTradingRuntime D S)
        → P rt.engine
        → P (handle_requests manager n draws i requests rt).0.engine
    unfolding handle_requests
    handle_requests_keeps n draws i [] rt h = h
    handle_requests_keeps n draws i (request ∷ requests) rt h =
        let one = handle_request_keeps n i (draws i) request rt h in
        ground (
          arith,
          one,
          handle_requests_keeps n draws (suc i) requests
              (handle_request manager n i (draws i) request rt).0 one,
        )

    run_strategy_keeps :
        (strategy : Option (Strategy D)) (draws : ℕ → Draw) (ev : MarketEvent D)
        (rt : PaperTradingRuntime D S)
        → P rt.engine
        → P (run_strategy strategy manager draws ev rt).0.engine
    unfolding run_strategy
    run_strategy_keeps none draws ev rt h = h
    run_strategy_keeps (some strategy) draws ev rt h =
        elim (Result-cases (strategy ev.candle rt.engine)) [
          | inl (x, failed) ↦ ground arith
          | inr (requests, asked) ↦
              ground (arith, handle_requests_keeps ev.sequence draws 0 requests rt h)
        ]

    module _ (strategy : Option (Strategy D)) where
      process_accepted_keeps :
          (draws : ℕ → Draw) (ev : MarketEvent D) (rt : PaperTradingRuntime D S)
          → P rt.engine
          → P (process_accepted strategy manager draws ev rt).0.engine
      unfolding process_accepted
      process_accepted_keeps draws ev rt h =
          let one = run_strategy_keeps strategy draws ev rt h in
          ground (
            arith,
            one,
            finish_candle_keeps ev.sequence (run_strategy strategy manager draws ev rt).0 one,
          )

      pub process_candle_keeps :
          (draws : ℕ → Draw) (ev : MarketEvent D) (rt : PaperTradingRuntime D S)
          → P rt.engine
          → P (process_candle strategy manager draws ev rt).0.engine
      unfolding process_candle
      process_candle_keeps draws ev rt h =
          let one = k.market ev rt.engine h in
          ground (
            arith,
            one,
            process_accepted_keeps draws ev
                (record rt { engine = (on_market_event ev rt.engine).0 }) one,
          )

      pub process_events_keeps :
          (evs : List (MarketEvent D × (ℕ → Draw))) (rt : PaperTradingRuntime D S)
          → P rt.engine
          → P (process_events strategy manager evs rt).0.engine
      unfolding process_events
      process_events_keeps [] rt h = h
      process_events_keeps ((ev, draws) ∷ evs) rt h =
          let one = process_candle_keeps draws ev rt h in
          ground (
            arith,
            one,
            process_events_keeps evs (process_candle strategy manager draws ev rt).0 one,
          )

module _ {D : Type 0} ⦃dec : Decimal D⦄ where
  pub IsLong-IsKept : IsKept {D = D} IsLong
  unfolding on_market_event schedule held_quantity checkpoint flush
  IsLong-IsKept = record {
    market = λ ev e h s. ground (arith, h s);
    order = λ request price tags draw e h. execute-IsLong request price tags draw e h;
    saved = λ e db h s. ground (arith, h s);
  }

  abbrev pub HasRepository : Engine D → Type 0
  HasRepository e = e.has_repository ≡ true

  pub HasRepository-IsKept : IsKept HasRepository
  unfolding on_market_event schedule execute execute_new book_fill checkpoint flush
  HasRepository-IsKept = record {
    market = λ ev e h. ground arith;
    order = λ request price tags draw e h. ground (arith);
    saved = λ e db h. ground arith;
  }
