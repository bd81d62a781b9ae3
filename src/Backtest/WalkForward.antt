-- ===== src/Backtest/WalkForward.antt =====
-- Windows of app/backtest/walk_forward.py. Times are seconds; the counts of days are natural numbers,
-- so that of the invalid ones only zero is met.
use crypto_trading_system.Base.{
  ℕ, zero, suc, ◌+◌, ◌-◌, ◌*◌, ◌/◌, ◌<◌, String, ◌=ₛ◌, ◌≡◌, refl, Bool, true, false, not, ltb, leb,
  ◌==◌, length, if◌then◌else◌, Option, none, some, List, [], ◌∷◌, arith, get_elem?,
}
use crypto_trading_system.Decimal.{Decimal, dec_zero, ◌≤?◌}
use crypto_trading_system.Models.{Result, ok, raise}

pub record WalkForwardConfig (D : Type 0) : Type 0 where
  pub train_days : ℕ
  pub test_days : ℕ
  pub step_days : ℕ
  pub initial_balance : D

pub data WindowError : Type 0 where
  bad_train_days bad_test_days bad_step_days bad_initial_balance end_not_greater : WindowError
  range_too_short unsupported_interval incomplete_window time_gap : WindowError

pub record WalkForwardWindow : Type 0 where
  pub index : ℕ
  pub train_start : ℕ
  pub train_end : ℕ
  pub test_start : ℕ
  pub test_end : ℕ

-- `_INTERVAL_SECONDS`
unfoldable pub interval_seconds : String → Option ℕ
interval_seconds s =
    if s =ₛ "5m"
    then some 300
    else if s =ₛ "15m"
    then some 900
    else if s =ₛ "1h"
    then some 3600
    else if s =ₛ "4h"
    then some 14400
    else if s =ₛ "1d"
    then some 86400
    else none

-- The window whose training starts at `anchor`.
unfoldable pub window_at : ℕ → ℕ → ℕ → ℕ → WalkForwardWindow
window_at train_delta test_delta anchor index = record {
  index = index;
  train_start = anchor;
  train_end = anchor + train_delta;
  test_start = anchor + train_delta;
  test_end = anchor + train_delta + test_delta;
}

-- The loop; each round moves the anchor on by at least one.
unfoldable pub generate_from : ℕ → ℕ → ℕ → ℕ → ℕ → ℕ → ℕ → List WalkForwardWindow
unfolding window_at
generate_from zero train_delta test_delta step_delta end anchor index = []
generate_from (suc fuel) train_delta test_delta step_delta end anchor index =
    let window = window_at train_delta test_delta anchor index in
    let rest =
      generate_from fuel train_delta test_delta step_delta end (anchor + step_delta) (suc index) in
    if ltb end window.test_end then [] else window ∷ rest

unfoldable pub some_windows : List WalkForwardWindow → Result WindowError (List WalkForwardWindow)
some_windows [] = raise range_too_short
some_windows (window ∷ windows) = ok (window ∷ windows)

-- The distance from one consecutive pair to the next is the step.
unfoldable pub is_even : ℕ → List ℕ → Bool
is_even step [] = true
is_even step (t ∷ []) = true
is_even step (t ∷ u ∷ times) =
    let rest = is_even step (u ∷ times) in if u == t + step then rest else false

-- `_validate_test_candles`, on the open times of the candles
unfoldable pub validate_test_candles :
    List ℕ → String → WalkForwardWindow → Result WindowError (Unit {0})
unfolding interval_seconds is_even
validate_test_candles times interval window = elim (interval_seconds interval) [
  | none ↦ raise unsupported_interval
  | some step ↦
      if not (length times == (window.test_end - window.test_start) / step)
      then raise incomplete_window
      else if is_even step times
      then ok tt
      else raise time_gap
]

-- `timedelta(days=n)`
abbrev pub days : ℕ → ℕ
days n = n * 86400

module _ {D : Type 0} ⦃dec : Decimal D⦄ where
  -- `WalkForwardConfig(…)` with its `__post_init__`
  unfoldable pub new_config : WalkForwardConfig D → Result WindowError (WalkForwardConfig D)
  new_config c =
      if c.train_days == 0
      then raise bad_train_days
      else if c.test_days == 0
      then raise bad_test_days
      else if c.step_days == 0
      then raise bad_step_days
      else if c.initial_balance ≤? dec_zero
      then raise bad_initial_balance
      else ok c

module _ {D : Type 0} where
  -- The length of the range is fuel enough, since a round takes at least a second of it.
  unfoldable pub generate_walk_forward_windows :
      ℕ → ℕ → WalkForwardConfig D → Result WindowError (List WalkForwardWindow)
  unfolding generate_from some_windows
  generate_walk_forward_windows start end c =
      if leb end start
      then raise end_not_greater
      else some_windows (
          generate_from (suc (end - start)) (days c.train_days) (days c.test_days)
            (days c.step_days) end start 1)

-- Reading the loop: position `k` holds the window `k` steps on, as long as that ends in the range.
get_elem?-generate_from :
    (fuel train_delta test_delta step_delta end anchor index k : ℕ)
    → 0 < step_delta
    → end < anchor + fuel
    → get_elem? (generate_from fuel train_delta test_delta step_delta end anchor index) k ≡ (
        if leb (anchor + k * step_delta + train_delta + test_delta) end
        then some (window_at train_delta test_delta (anchor + k * step_delta) (index + k))
        else none)
unfolding generate_from window_at
get_elem?-generate_from zero t s d end anchor index k p h = ground arith
get_elem?-generate_from (suc fuel) t s d end anchor index zero p h = ground arith
get_elem?-generate_from (suc fuel) t s d end anchor index (suc k) p h =
    ground (arith, get_elem?-generate_from fuel t s d end (anchor + d) (suc index) k p)

-- The windows of an answer; none of an exception.
abbrev pub windows_of : Result WindowError (List WalkForwardWindow) → List WalkForwardWindow
windows_of (raise x) = []
windows_of (ok windows) = windows

windows_of-some_windows : (ws : List WalkForwardWindow) → windows_of (some_windows ws) ≡ ws
unfolding some_windows
windows_of-some_windows [] = refl
windows_of-some_windows (w ∷ ws) = refl

module _ {D : Type 0} where
  -- For a valid configuration, the windows of a range are exactly the complete ones, in order: the
  -- one at position k starts k steps after the range and is there exactly if its test ends within
  -- the range. Its test begins where its training of the configured length ends, and no window is
  -- partial.
  pub get_elem?-generate_walk_forward_windows :
      (start end : ℕ) (c : WalkForwardConfig D) (k : ℕ)
      → start < end
      → 0 < c.step_days
      → get_elem? (windows_of (generate_walk_forward_windows start end c)) k ≡ (
          if leb (start + k * days c.step_days + days c.train_days + days c.test_days) end
          then some (record {
            index = suc k;
            train_start = start + k * days c.step_days;
            train_end = start + k * days c.step_days + days c.train_days;
            test_start = start + k * days c.step_days + days c.train_days;
            test_end = start + k * days c.step_days + days c.train_days + days c.test_days;
          })
          else none)
  unfolding generate_walk_forward_windows window_at
  get_elem?-generate_walk_forward_windows start end c k h p =
      let t = days c.train_days in
      let s = days c.test_days in
      let d = days c.step_days in
      let fuel = suc (end - start) in
      ground (
        arith,
        windows_of-some_windows (generate_from fuel t s d end start 1),
        get_elem?-generate_from fuel t s d end start 1 k (omega (arith, p)) (omega (arith, h)),
      )
