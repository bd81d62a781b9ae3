-- ===== src/Pipeline/Market.antt =====
-- `process_market_event` of app/pipeline/market_pipeline.py: from the strategy to the checkpoint,
-- and what an exception leaves.
use crypto_trading_system.Base.{
  ℕ, String, Bool, false, leb, if◌then◌else◌, none, some, List, [], ◌∷◌, ◌++◌,
}
use crypto_trading_system.Base.Dict.{insert}
use crypto_trading_system.Models.{Result, ok, raise}
use crypto_trading_system.Pipeline.State.{
  degraded, stopped, last_sequence, mark_processed, processed, ignored, status_warmup, failed,
  strategy, risk, execution, persistence, checkpoint,
}
use crypto_trading_system.Pipeline.Steps.{
  Answers, MarketPipeline, Outcome, PipelineError, PipelineEvent, PipelineResult, PipelineStep, Run,
  call, change, is_trading_ready, no_outcome, observe_market, prepare, reach, return, ◌>>=◌, ◌>>◌,
}

-- `execution_engine.execute(signal, event.sequence)`
abbrev pub ask_execution : ℕ → MarketPipeline → MarketPipeline
ask_execution sequence p = record p { executed = p.executed ++ (sequence ∷ []) }

-- `_risk_event`, whose own exceptions are caught.
abbrev pub report_event : ℕ → MarketPipeline → MarketPipeline
report_event sequence p = record p { risk_events = p.risk_events ++ (sequence ∷ []) }

-- `persistence.checkpoint(symbol, sequence)`
abbrev pub write_checkpoint :
    Result PipelineError (Unit {0}) → PipelineEvent → MarketPipeline → MarketPipeline
write_checkpoint (ok _) event p = record p {
  checkpoints = insert event.symbol event.sequence p.checkpoints;
}
write_checkpoint (raise _) event p = p

abbrev pub mark : PipelineEvent → MarketPipeline → MarketPipeline
mark event p = record p { tracker = mark_processed event.symbol event.sequence p.tracker }

module _ {S R X : Type 0} where
  -- The risk decision on a signal, and its execution or its report.
  unfoldable pub settle :
      (R → Bool) → PipelineEvent → Answers S R X → S → PipelineStep (Outcome S R X)
  settle approved event a s = do
    decision ← call a.judged
    reach risk
    if approved decision
        then (do
          change (ask_execution event.sequence)
          x ← call a.executed
          reach execution
          return (record {
            signal = some s;
            risk_decision = some decision;
            execution_result = some x;
          }))
        else (do
          change (report_event event.sequence)
          return
              (record { signal = some s; risk_decision = some decision; execution_result = none }))

  unfoldable pub ask_strategy :
      (R → Bool) → PipelineEvent → Answers S R X → PipelineStep (Outcome S R X)
  unfolding settle
  ask_strategy approved event a = do
    signal ← call a.evaluated
    reach strategy
    elim signal [ none ↦ return no_outcome | some s ↦ settle approved event a s ]

  -- The strategy is asked only where the symbol is ready.
  unfoldable pub trade : (R → Bool) → PipelineEvent → Answers S R X → PipelineStep (Outcome S R X)
  unfolding ask_strategy is_trading_ready
  trade approved event a r =
      if is_trading_ready event.symbol r.pipeline
      then ask_strategy approved event a r
      else (r, ok no_outcome)

  -- The rows and the checkpoint, and then the sequence that is processed.
  unfoldable pub store : PipelineEvent → Answers S R X → PipelineStep (Unit {0})
  store event a = do
    call a.persisted
    change (write_checkpoint a.checkpointed event)
    call a.checkpointed
    reach persistence
    reach checkpoint
    change (mark event)

  -- From the strategy to the end of the event.
  unfoldable pub finish_event :
      (R → Bool) → PipelineEvent → Answers S R X → PipelineStep (Outcome S R X)
  unfolding trade store
  finish_event approved event a = do outcome ← trade approved event a; store event a; return outcome

  -- After the preparation.
  unfoldable pub follow_up :
      (R → Bool) → PipelineEvent → Answers S R X → List String → Bool → PipelineStep (Outcome S R X)
  unfolding observe_market finish_event
  follow_up approved event a names has_regime = do
    change (observe_market event.symbol names has_regime)
    finish_event approved event a

  -- The body of the `try`.
  unfoldable pub run_event :
      (R → Bool) → PipelineEvent → Answers S R X → PipelineStep (Outcome S R X)
  unfolding prepare follow_up
  run_event approved event a = do
    (names, has_regime) ← prepare event a
    follow_up approved event a names has_regime

  -- After an exception.
  unfoldable pub give_up : PipelineEvent → Answers S R X → MarketPipeline → MarketPipeline
  give_up event a p =
      write_checkpoint a.checkpointed_after event
        (report_event event.sequence (record p { tracker = record p.tracker { state = degraded } }))

  unfoldable pub answer :
      PipelineEvent
      → Answers S R X
      → Run × Result PipelineError (Outcome S R X)
      → MarketPipeline × PipelineResult S R X
  unfolding give_up is_trading_ready
  answer event a (r, raise e) = (
    give_up event a r.pipeline,
    record {
      status = failed;
      sequence = event.sequence;
      trading_ready = false;
      outcome = no_outcome;
      stages = r.stages;
    },
  )
  answer event a (r, ok outcome) =
      let is_now_ready = is_trading_ready event.symbol r.pipeline in
      (
        r.pipeline,
        record {
          status = if is_now_ready then processed else status_warmup;
          sequence = event.sequence;
          trading_ready = is_now_ready;
          outcome = outcome;
          stages = r.stages;
        },
      )

  unfoldable pub process_market_event :
      (R → Bool)
      → PipelineEvent
      → Answers S R X
      → MarketPipeline
      → MarketPipeline × PipelineResult S R X
  unfolding last_sequence run_event answer is_trading_ready
  process_market_event approved event a p =
      if leb event.sequence (last_sequence event.symbol p.tracker)
      then (
        p,
        record {
          status = ignored;
          sequence = event.sequence;
          trading_ready = is_trading_ready event.symbol p;
          outcome = no_outcome;
          stages = [];
        },
      )
      else answer event a (run_event approved event a (record { pipeline = p; stages = [] }))

-- `stop`, after the running refresh of the mart.
unfoldable pub stop_pipeline : MarketPipeline → MarketPipeline
stop_pipeline p = record p { tracker = record p.tracker { state = stopped } }
