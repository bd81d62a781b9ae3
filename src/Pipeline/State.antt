-- ===== src/Pipeline/State.antt =====
-- app/pipeline/pipeline_state.py and events.py. The names of indicators are those that `observe` keeps,
-- in upper case; the sets are lists.
use crypto_trading_system.Base.{
  ℕ, String, ◌+◌, ◌=ₛ◌, Bool, true, false, ◌&&◌, leb, if◌then◌else◌, List, [], ◌∷◌, any, all,
  get_or_else,
}
use crypto_trading_system.Base.Dict.{Dict, lookup, insert}

pub data PipelineState : Type 0 where
  starting warmup ready running degraded stopped : PipelineState

abbrev pub is_state_ready : PipelineState → Bool
is_state_ready ready = true
is_state_ready _ = false

pub record MarketReadiness : Type 0 where
  pub required_candles : ℕ
  pub candle_counts : Dict ℕ
  pub indicators : Dict (List String)
  pub regimes : List String

abbrev pub member : String → List String → Bool
member x = any (λ y. x =ₛ y)

-- `symbols.add(symbol)`
abbrev pub add_to : String → List String → List String
add_to x xs = if member x xs then xs else x ∷ xs

-- `observe`: the names of the indicators, and whether there is a regime.
unfoldable pub observe : String → List String → Bool → MarketReadiness → MarketReadiness
observe symbol names has_regime m = record m {
  candle_counts = insert symbol (get_or_else (lookup symbol m.candle_counts) 0 + 1) m.candle_counts;
  indicators = insert symbol names m.indicators;
  regimes = if has_regime then add_to symbol m.regimes else m.regimes;
}

-- `seed`
unfoldable pub seed : String → ℕ → MarketReadiness → MarketReadiness
seed symbol count m =
    let known = get_or_else (lookup symbol m.candle_counts) 0 in
    record m {
      candle_counts = insert symbol (if leb known count then count else known) m.candle_counts;
    }

abbrev pub required_names : List String
required_names = "EMA" ∷ "RSI" ∷ "ATR" ∷ []

unfoldable pub is_ready : String → MarketReadiness → Bool
is_ready symbol m =
    leb m.required_candles (get_or_else (lookup symbol m.candle_counts) 0)
    && all (λ name. member name (get_or_else (lookup symbol m.indicators) [])) required_names
    && member symbol m.regimes

abbrev pub is_nonempty : List String → Bool
is_nonempty [] = false
is_nonempty (_ ∷ _) = true

unfoldable pub all_ready : List String → MarketReadiness → Bool
unfolding is_ready
all_ready symbols m = is_nonempty symbols && all (λ symbol. is_ready symbol m) symbols

pub record PipelineStateTracker : Type 0 where
  pub state : PipelineState
  pub readiness : MarketReadiness
  pub last_sequences : Dict ℕ

unfoldable pub last_sequence : String → PipelineStateTracker → ℕ
last_sequence symbol t = get_or_else (lookup symbol t.last_sequences) 0

unfoldable pub mark_processed : String → ℕ → PipelineStateTracker → PipelineStateTracker
mark_processed symbol sequence t = record t {
  last_sequences = insert symbol sequence t.last_sequences;
}

pub data PipelineStatus : Type 0 where
  processed ignored status_warmup failed : PipelineStatus

pub data PipelineStage : Type 0 where
  raw dds indicators_stage regime_stage strategy risk execution persistence checkpoint :
      PipelineStage
