-- ===== src/Monitoring/Heartbeat.antt =====
-- `Heartbeat` of app/monitoring/heartbeat.py: the beats of a runtime, and the rows that they save.
use crypto_trading_system.Base.{
  ℕ, String, Bool, ltb, ◌-◌, if◌then◌else◌, Option, none, some, List, [], ◌∷◌, ◌++◌, map,
}
use crypto_trading_system.Base.Text.{codes, to_upper}
use crypto_trading_system.Models.{Result, ok, raise}

-- A state is held as the codes of its letters.
pub record RuntimeHealth : Type 0 where
  pub runtime_id : String
  pub status : List ℕ
  pub sequence : ℕ
  pub heartbeat_time : ℕ
  pub last_market_event_time : Option ℕ
  pub created_at : ℕ

unfoldable pub uptime : RuntimeHealth → ℕ
uptime r = r.heartbeat_time - r.created_at

-- The rows are those of the repository, where there is one.
pub record Heartbeat : Type 0 where
  pub runtime_id : String
  pub has_repository : Bool
  pub rows : List RuntimeHealth
  pub started_at : ℕ
  pub last_successful_cycle : Option ℕ
  pub last_market_event_time : Option ℕ
  pub sequence : ℕ
  pub state : List ℕ

pub data HeartbeatError : Type 0 where
  sequence_moves_backwards : HeartbeatError

abbrev pub later : Option ℕ → Option ℕ → Option ℕ
later none old = old
later (some new) old = some new

-- After the test of the sequence.
unfoldable pub record_beat : ℕ → Option ℕ → ℕ → Heartbeat → Heartbeat × RuntimeHealth
record_beat sequence market_time now h =
    let snapshot : RuntimeHealth = record {
      runtime_id = h.runtime_id;
      status = h.state;
      sequence = sequence;
      heartbeat_time = now;
      last_market_event_time = later market_time h.last_market_event_time;
      created_at = h.started_at;
    } in
    (
      record h {
        sequence = sequence;
        last_market_event_time = later market_time h.last_market_event_time;
        last_successful_cycle = some now;
        rows = if h.has_repository then h.rows ++ (snapshot ∷ []) else h.rows;
      },
      snapshot,
    )

-- `beat`: the state is stored before the sequence is tested, also where the test then raises.
unfoldable pub beat :
    String → Option ℕ → Option ℕ → ℕ → Heartbeat → Heartbeat × Result HeartbeatError RuntimeHealth
unfolding record_beat
beat state sequence market_time now h =
    let h' = record h { state = map to_upper (codes state) } in
    elim sequence [
      | none ↦ (let (h2, r) = record_beat h'.sequence market_time now h' in (h2, ok r))
      | some n ↦
          if ltb n h'.sequence
          then (h', raise sequence_moves_backwards)
          else (let (h2, r) = record_beat n market_time now h' in (h2, ok r))
    ]
