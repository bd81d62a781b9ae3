-- ===== src/Tests/Pipeline.antt =====
-- Events of the market pipeline: one that is traded, and one whose rows cannot be saved.
use crypto_trading_system.Base.{
  ℕ, ◌≡◌, refl, ◌⊎◌, Bool, true, false, leb, some, [], ◌∷◌, if◌then◌else◌,
}
use crypto_trading_system.Base.Dict.{lookup, insert}
use crypto_trading_system.Models.{Result, ok, raise}
use crypto_trading_system.Pipeline.State.{starting, ignored, last_sequence}
use crypto_trading_system.Pipeline.Steps.{
  PipelineError, service_failed, PipelineEvent, MarketPipeline, Answers, restore_checkpoint,
}
use crypto_trading_system.Pipeline.Market.{process_market_event}
use crypto_trading_system.Pipeline.Guards.{IsGuarded, process_market_event-IsGuarded}
use crypto_trading_system.Pipeline.Lost.{
  advances, process_market_event-last_sequences, failed_event_lost,
}

abbrev fresh : MarketPipeline
fresh = record {
  tracker = record {
    state = starting;
    readiness = record { required_candles = 1; candle_counts = []; indicators = []; regimes = [] };
    last_sequences = [];
  };
  symbols = [];
  executed = [];
  risk_events = [];
  checkpoints = [];
}

abbrev event : PipelineEvent
event = record { symbol = "BTCUSDT"; close_time = 60; sequence = 1 }

-- The signal is `7`, the decision approves, and the rows are saved as `persisted` says.
abbrev answers : Result PipelineError (Unit {0}) → Answers ℕ Bool ℕ
answers persisted = record {
  now = 61;
  saved = ok tt;
  normalized = ok tt;
  validated = ok tt;
  advanced = ok tt;
  calculated = ok ("ATR" ∷ "EMA" ∷ "RSI" ∷ []);
  detected = ok true;
  evaluated = ok (some 7);
  judged = ok true;
  executed = ok 3;
  persisted = persisted;
  checkpointed = ok tt;
  checkpointed_after = ok tt;
}

abbrev is_approved : Bool → Bool
is_approved b = b

traded : (process_market_event is_approved event (answers (ok tt)) fresh).0.executed ≡ 1 ∷ []
unfolding process_market_event lookup insert
traded = refl

process_market_event-IsGuarded_example :
    let p' = (process_market_event is_approved event (answers (ok tt)) fresh).0 in
    (p'.executed ≡ []) ⊎ IsGuarded is_approved event (answers (ok tt)) fresh p'
process_market_event-IsGuarded_example =
    process_market_event-IsGuarded is_approved event (answers (ok tt)) fresh

process_market_event-last_sequences_example :
    let (p', result) = process_market_event is_approved event (answers (ok tt)) fresh in
    p'.tracker.last_sequences ≡ (if advances result.status then insert "BTCUSDT" 1 [] else [])
process_market_event-last_sequences_example =
    process_market_event-last_sequences is_approved event (answers (ok tt)) fresh

abbrev unsaved : Answers ℕ Bool ℕ
unsaved = answers (raise service_failed)

failed_event_lost_example :
    let p' = (process_market_event is_approved event unsaved fresh).0 in
    ((b : Answers ℕ Bool ℕ) (q : MarketPipeline)
      → (process_market_event is_approved event b (restore_checkpoint p'.checkpoints q)).1.status
        ≡ ignored)
    × (leb 1 (last_sequence "BTCUSDT" p'.tracker) ≡ false)
unfolding process_market_event lookup insert
failed_event_lost_example = failed_event_lost is_approved event unsaved fresh refl refl (refl, tt)
