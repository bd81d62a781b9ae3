-- ===== src/Runtime/Lifecycle.antt =====
-- app/runtime/lifecycle.py: `RuntimeState`, its table of transitions, and `RuntimeLifecycle`.
use crypto_trading_system.Base.{
  ◌≡◌, ◌≢◌, refl, Bool, true, false, List, [], ◌∷◌, ◌++◌, arith, ◌⊎◌, inl, inr, any, ap, Bool-cases,
  if◌then◌else◌,
}
use crypto_trading_system.Models.{Result, ok, raise}

pub data RuntimeState : Type 0 where
  created preflight restoring warmup running stopping stopped : RuntimeState

-- `_NEXT`
unfoldable pub next_states : RuntimeState → List RuntimeState
next_states created = preflight ∷ stopping ∷ []
next_states preflight = restoring ∷ stopping ∷ []
next_states restoring = warmup ∷ stopping ∷ []
next_states warmup = running ∷ stopping ∷ []
next_states running = stopping ∷ []
next_states stopping = stopped ∷ []
next_states stopped = []

abbrev pub same_state : RuntimeState → RuntimeState → Bool
same_state created created = true
same_state preflight preflight = true
same_state restoring restoring = true
same_state warmup warmup = true
same_state running running = true
same_state stopping stopping = true
same_state stopped stopped = true
same_state _ _ = false

pub record RuntimeLifecycle : Type 0 where
  pub state : RuntimeState
  -- oldest first
  pub history : List RuntimeState

pub data LifecycleError : Type 0 where
  invalid_transition : RuntimeState → RuntimeState → LifecycleError

unfoldable pub new_lifecycle : RuntimeLifecycle
new_lifecycle = record { state = created; history = created ∷ [] }

unfoldable pub transition :
    RuntimeState → RuntimeLifecycle → RuntimeLifecycle × Result LifecycleError (Unit {0})
unfolding next_states
transition target l =
    if any (same_state target) (next_states l.state)
    then (record { state = target; history = l.history ++ (target ∷ []) }, ok tt)
    else (l, raise (invalid_transition l.state target))

-- Requests in turn; a refused one raises, and the caller goes on with the state as it is.
pub transitions : List RuntimeState → RuntimeLifecycle → RuntimeLifecycle
transitions [] l = l
transitions (t ∷ ts) l = transitions ts (transition t l).0

-- The stages of a start, in order, and the two of a shutdown.
pub data Stage : RuntimeState → RuntimeState → Type 0 where
  begin : Stage created preflight
  restore : Stage preflight restoring
  warm : Stage restoring warmup
  go : Stage warmup running
  abort : (s : RuntimeState) → s ≢ stopping → s ≢ stopped → Stage s stopping
  finish : Stage stopping stopped

ruleset stages = (begin, restore, warm, go, abort, finish)

table-Stage : (s t : RuntimeState) → any (same_state t) (next_states s) ≡ true → Stage s t
unfolding next_states
table-Stage s t h = grind (arith, stages)

Stage-table : {s t : RuntimeState} → Stage s t → any (same_state t) (next_states s) ≡ true
unfolding next_states
Stage-table begin = refl
Stage-table restore = refl
Stage-table warm = refl
Stage-table go = refl
Stage-table (abort s n m) = ground arith
Stage-table finish = refl

-- A transition is carried out, and recorded, exactly along the stages; any other raises and leaves
-- state and history alone.
pub transition-Stage :
    (target : RuntimeState) (l : RuntimeLifecycle)
    → (Stage l.state target
        × ((transition target l).1 ≡ ok tt)
        × ((transition target l).0
            ≡ record { state = target; history = l.history ++ (target ∷ []) }))
      ⊎ ((Stage l.state target → ⊥)
          × ((transition target l).1 ≡ raise (invalid_transition l.state target))
          × ((transition target l).0 ≡ l))
unfolding transition
transition-Stage target l = elim (Bool-cases (any (same_state target) (next_states l.state))) [
  | inl allowed ↦ inl (table-Stage l.state target allowed, ground arith, ground arith)
  | inr refused ↦ inr (λ st. ground (arith, Stage-table st), ground arith, ground arith)
]

-- The states that a start has gone through when it stands at a state.
abbrev pub start_path : RuntimeState → List RuntimeState
start_path created = created ∷ []
start_path preflight = created ∷ preflight ∷ []
start_path restoring = created ∷ preflight ∷ restoring ∷ []
start_path warmup = created ∷ preflight ∷ restoring ∷ warmup ∷ []
start_path running = created ∷ preflight ∷ restoring ∷ warmup ∷ running ∷ []
start_path stopping = []
start_path stopped = []

-- The history is the path of a start, cut off by a shutdown at any point.
abbrev pub IsTraced : RuntimeState → List RuntimeState → Type 0
IsTraced stopping h =
    (s : RuntimeState) × (s ≢ stopping) × (s ≢ stopped) × (h ≡ start_path s ++ (stopping ∷ []))
IsTraced stopped h =
    (s : RuntimeState) × (s ≢ stopping)
    × (s ≢ stopped)
    × (h ≡ start_path s ++ (stopping ∷ stopped ∷ []))
IsTraced s h = h ≡ start_path s

append_step :
    (xs : List RuntimeState) (x y : RuntimeState)
    → (xs ++ (x ∷ [])) ++ (y ∷ []) ≡ xs ++ (x ∷ y ∷ [])
append_step [] x y = refl
append_step (z ∷ xs) x y = ap (◌∷◌ z) (append_step xs x y)

Stage-IsTraced :
    {s t : RuntimeState} (h : List RuntimeState)
    → Stage s t
    → IsTraced s h
    → IsTraced t (h ++ (t ∷ []))
Stage-IsTraced h begin e = rw e
Stage-IsTraced h restore e = rw e
Stage-IsTraced h warm e = rw e
Stage-IsTraced h go e = rw e
Stage-IsTraced h (abort created n m) e = (created, n, m, rw e)
Stage-IsTraced h (abort preflight n m) e = (preflight, n, m, rw e)
Stage-IsTraced h (abort restoring n m) e = (restoring, n, m, rw e)
Stage-IsTraced h (abort warmup n m) e = (warmup, n, m, rw e)
Stage-IsTraced h (abort running n m) e = (running, n, m, rw e)
Stage-IsTraced h (abort stopping n m) e = absurd (n refl)
Stage-IsTraced h (abort stopped n m) e = absurd (m refl)
Stage-IsTraced h finish (s, n, m, e) = (s, n, m, rw e (append_step (start_path s) stopping stopped))

transition-IsTraced :
    (t : RuntimeState) (l : RuntimeLifecycle)
    → IsTraced l.state l.history
    → IsTraced (transition t l).0.state (transition t l).0.history
transition-IsTraced t l h = elim (transition-Stage t l) [
  | inl (st, _, e) ↦ rw e (Stage-IsTraced l.history st h)
  | inr (_, _, e) ↦ rw e h
]

history_kept :
    (us : List RuntimeState) (l : RuntimeLifecycle)
    → IsTraced l.state l.history
    → IsTraced (transitions us l).state (transitions us l).history
unfolding transitions
history_kept [] l h = h
history_kept (u ∷ us) l h = history_kept us (transition u l).0 (transition-IsTraced u l h)

-- Whatever transitions are asked for, the history of a life cycle is a start that went through
-- preflight, restoring and warmup in this order, cut off at most once by a shutdown: a running
-- application has gone through all of them.
pub transitions-IsTraced :
    (ts : List RuntimeState)
    → IsTraced (transitions ts new_lifecycle).state (transitions ts new_lifecycle).history
transitions-IsTraced ts = history_kept ts new_lifecycle (unfold new_lifecycle in refl)
