-- ===== src/Pipeline/Steps.antt =====
-- What `MarketPipeline` of app/pipeline/market_pipeline.py keeps, and the steps that an event takes
-- up to its regime. The services are injected: what each call answers while an event is processed
-- is an argument, and a service that is missing answers with an exception. The run and signal
-- labels and the refresh of the mart are left out.
use crypto_trading_system.Base.{
  ℕ, String, Bool, ◌&&◌, ltb, if◌then◌else◌, Option, none, List, [], ◌∷◌, ◌++◌,
}
use crypto_trading_system.Base.Dict.{Dict}
use crypto_trading_system.Models.{Result, ok, raise}
use crypto_trading_system.Pipeline.State.{
  is_state_ready, warmup, ready, observe, is_ready, all_ready, add_to, PipelineStateTracker,
  mark_processed, PipelineStatus, PipelineStage, raw, dds, indicators_stage, regime_stage,
}

pub data PipelineError : Type 0 where
  service_failed open_candle : PipelineError

-- The symbol, the close time and the sequence of an event.
pub record PipelineEvent : Type 0 where
  pub symbol : String
  pub close_time : ℕ
  pub sequence : ℕ

-- `executed`, `risk_events` and `checkpoints` are what the services were told: the sequences that
-- the engine was asked to execute, those of the reported events, and the saved checkpoints.
pub record MarketPipeline : Type 0 where
  pub tracker : PipelineStateTracker
  pub symbols : List String
  pub executed : List ℕ
  pub risk_events : List ℕ
  pub checkpoints : Dict ℕ

pub record Answers (S R X : Type 0) : Type 0 where
  pub now : ℕ
  pub saved : Result PipelineError (Unit {0})
  pub normalized : Result PipelineError (Unit {0})
  pub validated : Result PipelineError (Unit {0})
  pub advanced : Result PipelineError (Unit {0})
  pub calculated : Result PipelineError (List String)
  pub detected : Result PipelineError Bool
  pub evaluated : Result PipelineError (Option S)
  pub judged : Result PipelineError R
  pub executed : Result PipelineError X
  pub persisted : Result PipelineError (Unit {0})
  pub checkpointed : Result PipelineError (Unit {0})
  -- the checkpoint of a failed event
  pub checkpointed_after : Result PipelineError (Unit {0})

-- What an event has led to: the signal, the decision and the execution.
pub record Outcome (S R X : Type 0) : Type 0 where
  pub signal : Option S
  pub risk_decision : Option R
  pub execution_result : Option X

pub record PipelineResult (S R X : Type 0) : Type 0 where
  pub status : PipelineStatus
  pub sequence : ℕ
  pub trading_ready : Bool
  pub outcome : Outcome S R X
  pub stages : List PipelineStage

-- The state while an event is processed, which an exception does not undo.
pub record Run : Type 0 where
  pub pipeline : MarketPipeline
  pub stages : List PipelineStage

abbrev pub PipelineStep : Type 0 → Type 0
PipelineStep A = Run → Run × Result PipelineError A

infixl 5 ◌>>=◌ ◌>>◌
abbrev pub ◌>>=◌ : {A B : Type 0} → PipelineStep A → (A → PipelineStep B) → PipelineStep B
◌>>=◌ m f r = elim (m r).1 [ raise e ↦ ((m r).0, raise e) | ok a ↦ f a (m r).0 ]

abbrev pub ◌>>◌ : {A B : Type 0} → PipelineStep A → PipelineStep B → PipelineStep B
m >> k = m >>= λ _. k

abbrev pub return : {A : Type 0} → A → PipelineStep A
return a r = (r, ok a)

-- `await self._call(...)`, for a service whose effects are not kept here.
abbrev pub call : {A : Type 0} → Result PipelineError A → PipelineStep A
call answer r = (r, answer)

-- `stages.append`
abbrev pub reach : PipelineStage → PipelineStep (Unit {0})
reach s r = (record r { stages = r.stages ++ (s ∷ []) }, ok tt)

abbrev pub change : (MarketPipeline → MarketPipeline) → PipelineStep (Unit {0})
change f r = (record r { pipeline = f r.pipeline }, ok tt)

-- `is_trading_ready`, of a symbol that is given.
unfoldable pub is_trading_ready : String → MarketPipeline → Bool
unfolding is_ready
is_trading_ready symbol p = is_state_ready p.tracker.state && is_ready symbol p.tracker.readiness

unfoldable pub restore_checkpoint : Dict ℕ → MarketPipeline → MarketPipeline
restore_checkpoint [] p = p
restore_checkpoint ((symbol, sequence) ∷ saved) p =
    restore_checkpoint saved (record p { tracker = mark_processed symbol sequence p.tracker })

-- `_validate_closed_event`; times here are all in UTC.
unfoldable pub validate_closed_event : PipelineEvent → ℕ → Result PipelineError (Unit {0})
validate_closed_event event now = if ltb now event.close_time then raise open_candle else ok tt

-- From the raw row to the regime: the names of the indicators, and whether there is a regime.
unfoldable pub prepare :
    {S R X : Type 0} → PipelineEvent → Answers S R X → PipelineStep (List String × Bool)
unfolding validate_closed_event
prepare event a = do
  call a.saved
  reach raw
  call (validate_closed_event event a.now)
  call a.normalized
  call a.validated
  reach dds
  call a.advanced
  names ← call a.calculated
  reach indicators_stage
  has_regime ← call a.detected
  reach regime_stage
  return (names, has_regime)

-- The readiness after the observation.
unfoldable pub observe_market : String → List String → Bool → MarketPipeline → MarketPipeline
unfolding observe all_ready
observe_market symbol names has_regime p =
    let symbols = add_to symbol p.symbols in
    let readiness = observe symbol names has_regime p.tracker.readiness in
    record p {
      symbols = symbols;
      tracker = record p.tracker {
        readiness = readiness;
        state = if all_ready symbols readiness then ready else warmup;
      };
    }

abbrev pub no_outcome : {S R X : Type 0} → Outcome S R X
no_outcome = record { signal = none; risk_decision = none; execution_result = none }
