-- ===== src/Runtime/Schedule.antt =====
-- app/runtime/scheduler.py and session_manager.py. A moment is its local reading in the schedule's
-- time zone: the zone's rules are the standard library's. Times of day count microseconds from
-- midnight, days are ordinals, and weekday 0 is Monday.
use crypto_trading_system.Base.{
  ℕ, ◌+◌, ◌-◌, ◌*◌, ◌≤◌, ◌<◌, ◌≡◌, Bool, true, false, ◌&&◌, not, ltb, leb, ◌==◌, any, Bool-cases,
  if◌then◌else◌, Option, none, some, List, arith, ◌⊎◌, ◌↔◌, inl, inr,
}
use crypto_trading_system.Models.{Result, ok, raise}

-- `moment.astimezone(...)` of an aware moment; a naive one has no local reading.
pub record LocalTime : Type 0 where
  pub day : ℕ
  pub weekday : ℕ
  pub time : ℕ

pub record TradingSchedule : Type 0 where
  pub start : ℕ
  pub end : ℕ
  pub weekdays : List ℕ

pub data ScheduleError : Type 0 where
  end_not_later naive_moment : ScheduleError

-- `TradingSchedule(...)` with its `__post_init__`
unfoldable pub new_schedule : ℕ → ℕ → List ℕ → Result ScheduleError TradingSchedule
new_schedule start end weekdays =
    if leb end start
    then raise end_not_later
    else ok (record { start = start; end = end; weekdays = weekdays })

unfoldable pub localize : Option LocalTime → Result ScheduleError LocalTime
localize none = raise naive_moment
localize (some t) = ok t

-- `contains`, of a localized moment
unfoldable pub contains : TradingSchedule → LocalTime → Bool
contains s t = any (λ d. t.weekday == d) s.weekdays && leb s.start t.time && ltb t.time s.end

-- `session_id`: the day stands for the text that is formatted from it.
unfoldable pub session_id : TradingSchedule → LocalTime → Option ℕ
unfolding contains
session_id s t = if not (contains s t) then none else some t.day

-- `close_at`: the end of the schedule on the day of the moment
unfoldable pub close_at : TradingSchedule → LocalTime → Option LocalTime
unfolding contains
close_at s t = if not (contains s t) then none else some (record t { time = s.end })

abbrev pub microseconds_per_day : ℕ
microseconds_per_day = 86400000000

-- Microseconds from midnight of day 0.
abbrev pub instant : LocalTime → ℕ
instant t = t.day * microseconds_per_day + t.time

-- `seconds_until_close`, in microseconds; `max(0.0, …)` is the truncated difference.
unfoldable pub until_close : TradingSchedule → LocalTime → Option ℕ
unfolding close_at
until_close s t = elim (close_at s t) [ none ↦ none | some c ↦ some (instant c - instant t) ]

pub record TradingSession : Type 0 where
  pub session_id : ℕ
  pub started_at : LocalTime
  pub scheduled_close_at : LocalTime

pub record SessionManager : Type 0 where
  pub schedule : TradingSchedule
  pub current : Option TradingSession

-- `SessionManager.open` at the clock reading `now`
unfoldable pub open_session : LocalTime → SessionManager → SessionManager × Option TradingSession
unfolding session_id close_at
open_session now m = elim (session_id m.schedule now) [
  | none ↦ (record m { current = none }, none)
  | some sid ↦ elim (close_at m.schedule now) [
    | none ↦ (record m { current = none }, none)
    | some close ↦
        (let session : TradingSession = record {
          session_id = sid;
          started_at = now;
          scheduled_close_at = close;
        } in
          (record m { current = some session }, some session))
  ]
]

unfoldable pub entries_allowed : LocalTime → SessionManager → Bool
unfolding contains
entries_allowed now m = elim m.current [ none ↦ false | some _ ↦ contains m.schedule now ]

unfoldable pub session_until_close : LocalTime → SessionManager → Option ℕ
unfolding until_close
session_until_close now m = elim m.current [ none ↦ none | some _ ↦ until_close m.schedule now ]

unfoldable pub close_session : SessionManager → SessionManager × Option TradingSession
close_session m = (record m { current = none }, m.current)

-- A moment lies inside the window exactly on a scheduled weekday, from the start on and before the
-- end: the closing time itself is outside.
abbrev pub InWindow : TradingSchedule → LocalTime → Type 0
InWindow s t = (any (λ d. t.weekday == d) s.weekdays ≡ true) × (s.start ≤ t.time) × (t.time < s.end)

InWindow-contains : (s : TradingSchedule) (t : LocalTime) → contains s t ≡ true → InWindow s t
unfolding contains
InWindow-contains s t h = ground arith

-- Opening succeeds exactly inside the window. The session then carries the day's identity, entries
-- are allowed at once, and the time left is positive and ends at the schedule's end on that day.
-- Outside the window nothing is open and no entry is allowed.
pub open_session_cases :
    (now : LocalTime) (m : SessionManager)
    → let (m', session) = open_session now m in
      (InWindow m.schedule now
        × (session
            ≡ some (record {
              session_id = now.day;
              started_at = now;
              scheduled_close_at = record now { time = m.schedule.end };
            }))
        × (m'.current ≡ session)
        × (entries_allowed now m' ≡ true)
        × ((left : ℕ) × (session_until_close now m' ≡ some left)
            × (0 < left)
            × (now.time + left ≡ m.schedule.end)))
      ⊎ ((InWindow m.schedule now → ⊥)
          × (session ≡ none)
          × (m'.current ≡ none)
          × (entries_allowed now m' ≡ false)
          × (session_until_close now m' ≡ none))
unfolding open_session entries_allowed session_until_close
open_session_cases now m = elim (Bool-cases (contains m.schedule now)) [
  | inl inside ↦ inl (
    InWindow-contains m.schedule now inside,
    ground arith,
    ground arith,
    ground arith,
    (m.schedule.end - now.time, ground arith, ground arith, ground arith),
  )
  | inr outside ↦ inr (λ w. ground arith, ground arith, ground arith, ground arith, ground arith)
]

-- Two openings inside the window give the same session identity exactly if they fall on one day.
pub session_id_per_day :
    (s : TradingSchedule) (a b : LocalTime)
    → InWindow s a
    → InWindow s b
    → (session_id s a ≡ session_id s b) ↔ (a.day ≡ b.day)
unfolding session_id
session_id_per_day s a b h k = (λ e. ground arith, λ e. ground arith)
