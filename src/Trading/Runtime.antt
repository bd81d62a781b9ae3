-- ===== src/Trading/Runtime.antt =====
-- The loop of `PaperTradingRuntime`. The strategy and the risk manager are arguments: the strategy's
-- answer may be an exception, and the risk manager keeps a state `S` of its own.
use crypto_trading_system.Base.{
  ℕ, suc, Bool, true, false, leb, ◌&&◌, if◌then◌else◌, Option, none, some, List, [], ◌∷◌,
}
use crypto_trading_system.Decimal.{Decimal}
use crypto_trading_system.Models.{ok, raise, MarketEvent}
use crypto_trading_system.Execution.State.{ExecutionRequest, Draw}
use crypto_trading_system.Execution.Engine.{on_market_event, execute}
use crypto_trading_system.Trading.State.{
  already_running, execution_error, PaperTradingRuntime, Strategy, RiskManager, Outcome,
  checkpoint_runtime, restore_runtime, validate_request, tags_of, finish_candle,
}

module _ {D S : Type 0} ⦃dec : Decimal D⦄ where
  -- The execution of one approved request.
  unfoldable pub execute_request :
      ℕ → ℕ → Draw → ExecutionRequest D → PaperTradingRuntime D S → Outcome D S
  unfolding tags_of
  execute_request sequence index draw request rt =
      let (e', answer) = execute request none (tags_of rt sequence index request) draw rt.engine in
      elim answer [
        | raise x ↦ (record rt { engine = e' }, raise (execution_error x))
        | ok _ ↦ (record rt { engine = e' }, ok tt)
      ]

  -- One request: what the risk manager refuses is skipped.
  unfoldable pub handle_request :
      Option (RiskManager D S)
      → ℕ
      → ℕ
      → Draw
      → ExecutionRequest D
      → PaperTradingRuntime D S
      → Outcome D S
  unfolding validate_request execute_request
  handle_request manager sequence index draw request rt =
      let (s', approved) = validate_request manager request rt.engine rt.risk in
      let rt' = record rt { risk = s' } in
      if approved then execute_request sequence index draw request rt' else (rt', ok tt)

  -- The loop over the strategy's requests; the first exception ends it.
  unfoldable pub handle_requests :
      Option (RiskManager D S)
      → ℕ
      → (ℕ → Draw)
      → ℕ
      → List (ExecutionRequest D)
      → PaperTradingRuntime D S
      → Outcome D S
  unfolding handle_request
  handle_requests manager sequence draws index [] rt = (rt, ok tt)
  handle_requests manager sequence draws index (request ∷ requests) rt =
      let (rt', answer) = handle_request manager sequence index (draws index) request rt in
      elim answer [
        | raise x ↦ (rt', raise x)
        | ok _ ↦ handle_requests manager sequence draws (suc index) requests rt'
      ]

  -- The strategy runs if there is one, trading is enabled and the source is ready.
  unfoldable pub run_strategy :
      Option (Strategy D)
      → Option (RiskManager D S)
      → (ℕ → Draw)
      → MarketEvent D
      → PaperTradingRuntime D S
      → Outcome D S
  unfolding handle_requests
  run_strategy none manager draws ev rt = (rt, ok tt)
  run_strategy (some strategy) manager draws ev rt =
      if rt.trading_enabled && rt.source_ready
      then elim (strategy ev.candle rt.engine) [
        | raise x ↦ (rt, raise x)
        | ok requests ↦ handle_requests manager ev.sequence draws 0 requests rt
      ]
      else (rt, ok tt)

  -- After the engine has accepted the event.
  unfoldable pub process_accepted :
      Option (Strategy D)
      → Option (RiskManager D S)
      → (ℕ → Draw)
      → MarketEvent D
      → PaperTradingRuntime D S
      → Outcome D S
  unfolding run_strategy finish_candle
  process_accepted strategy manager draws ev rt =
      let (rt', answer) = run_strategy strategy manager draws ev rt in
      elim answer [ raise x ↦ (rt', raise x) | ok _ ↦ finish_candle ev.sequence rt' ]

  -- `_process_candle`
  unfoldable pub process_candle :
      Option (Strategy D)
      → Option (RiskManager D S)
      → (ℕ → Draw)
      → MarketEvent D
      → PaperTradingRuntime D S
      → Outcome D S
  unfolding process_accepted
  process_candle strategy manager draws ev rt =
      if leb ev.sequence rt.engine.last_sequence
      then (rt, ok tt)
      else (let (e', answer) = on_market_event ev rt.engine in
          elim answer [
            | raise x ↦ (record rt { engine = e' }, raise (execution_error x))
            | ok false ↦ (record rt { engine = e' }, ok tt)
            | ok true ↦ process_accepted strategy manager draws ev (record rt { engine = e' })
          ])

  -- The events that arrive until the shutdown is requested, each with the identifiers drawn for it.
  unfoldable pub process_events :
      Option (Strategy D)
      → Option (RiskManager D S)
      → List (MarketEvent D × (ℕ → Draw))
      → PaperTradingRuntime D S
      → Outcome D S
  unfolding process_candle
  process_events strategy manager [] rt = (rt, ok tt)
  process_events strategy manager ((ev, draws) ∷ evs) rt =
      let (rt', answer) = process_candle strategy manager draws ev rt in
      elim answer [ raise x ↦ (rt', raise x) | ok _ ↦ process_events strategy manager evs rt' ]

  unfoldable pub start_and_process :
      Option (Strategy D)
      → Option (RiskManager D S)
      → Bool
      → List (MarketEvent D × (ℕ → Draw))
      → PaperTradingRuntime D S
      → Outcome D S
  unfolding restore_runtime process_events
  start_and_process strategy manager restore_on_start evs rt =
      let (rt', answer) = if restore_on_start then restore_runtime rt else (rt, ok tt) in
      elim answer [ raise x ↦ (rt', raise x) | ok _ ↦ process_events strategy manager evs rt' ]

  -- `run_async`: the final checkpoint is taken whether or not the loop raised.
  unfoldable pub run_async :
      Option (Strategy D)
      → Option (RiskManager D S)
      → Bool
      → List (MarketEvent D × (ℕ → Draw))
      → PaperTradingRuntime D S
      → Outcome D S
  unfolding start_and_process checkpoint_runtime
  run_async strategy manager restore_on_start evs rt =
      if rt.is_running
      then (rt, raise already_running)
      else (let (rt', answer) =
            start_and_process strategy manager restore_on_start evs
              (record rt { is_running = true }) in
          (record (checkpoint_runtime rt') { is_running = false }, answer))
