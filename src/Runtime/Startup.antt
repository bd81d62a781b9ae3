-- ===== src/Runtime/Startup.antt =====
-- What a start and a stop of the application end with.
use crypto_trading_system.Base.{
  ℕ, String, ◌≤◌, All, any, ltb, not, ◌≡◌, ◌≢◌, refl, Bool, true, false, Option, none, some, List,
  [], ◌∷◌, get_or_else, arith, ◌↔◌, inl, inr, Option-cases,
}
use crypto_trading_system.Base.Dict.{Dict, lookup, contains}
use crypto_trading_system.Decimal.{Decimal}
use crypto_trading_system.Models.{ok, raise}
use crypto_trading_system.Reconciliation.Reconciler.{PaperReconciler, Row, object_row}
use crypto_trading_system.Reconciliation.Agreement.{reconcile_raises_on_objects}
use crypto_trading_system.Risk.Engine.{update_reconciliation}
use crypto_trading_system.Risk.Trade.{Trade, reducing}
use crypto_trading_system.Risk.Check.{check_trade}
use crypto_trading_system.Risk.Approval.{check_trade_approves}
use crypto_trading_system.Runtime.Lifecycle.{
  created, running, stopping, stopped, transition, next_states,
}
use crypto_trading_system.Runtime.Preflight.{run_preflight}
use crypto_trading_system.Runtime.Schedule.{SessionManager, InWindow, open_session_cases}
use crypto_trading_system.Runtime.Application.{
  PaperApplication, Surroundings, preflight_failed, StopStep, await_run_task, request_stop,
  is_insufficient, open_sessions, is_inside, move, abort_start, initial_reconciliation, may_trade,
  begin_running, start, first_failure, stop,
}

-- There is no session manager, or its schedule is open now.
abbrev pub IsInside : {D : Type 0} → Surroundings D → Option SessionManager → Type 0
IsInside env none = Unit
IsInside env (some m) = InWindow m.schedule env.now

-- Each symbol has an answer, and no answer is below the warmup.
pub record IsWarm (symbols : List String) (required : ℕ) (available : Dict ℕ) : Type 0 where
  pub answered : All (λ s. (n : ℕ) × (lookup s available ≡ some n)) symbols
  pub enough : All (λ e. required ≤ e.1) available

short_none :
    (required : ℕ) (available : Dict ℕ)
    → (any (λ (e : String × ℕ). ltb e.1 required) available ≡ false)
      ↔ All (λ e. required ≤ e.1) available
short_none required [] = (λ h. tt, λ h. refl)
short_none required ((s, n) ∷ available) =
    let (to, from) = short_none required available in
    (λ h. ground (arith, to), λ h. ground (arith, from))

contains-lookup :
    (s : String) (available : Dict ℕ)
    → (contains s available ≡ true) ↔ ((n : ℕ) × (lookup s available ≡ some n))
contains-lookup s available = elim (Option-cases (lookup s available)) [
  | inl missing ↦ (λ h. absurd (ground arith), λ h. absurd (ground (arith, h.1)))
  | inr (n, found) ↦ (λ h. (n, found), λ h. ground arith)
]

missing_none :
    (symbols : List String) (available : Dict ℕ)
    → (any (λ s. not (contains s available)) symbols ≡ false)
      ↔ All (λ s. (n : ℕ) × (lookup s available ≡ some n)) symbols
missing_none [] available = (λ h. tt, λ h. refl)
missing_none (s ∷ symbols) available =
    let (to, from) = missing_none symbols available in
    let (found, back) = contains-lookup s available in
    (λ h. (found (ground arith), to (ground arith)), λ h. ground (arith, back h.0, from h.1))

is_insufficient-IsWarm :
    (symbols : List String) (required : ℕ) (available : Dict ℕ)
    → (is_insufficient symbols required available ≡ false) ↔ IsWarm symbols required available
unfolding is_insufficient
is_insufficient-IsWarm symbols required available =
    let short = short_none required available in
    let missing = missing_none symbols available in
    (
      λ h. record { answered = missing.0 (ground arith); enough = short.0 (ground arith) },
      λ w. ground (arith, missing.1 w.answered, short.1 w.enough),
    )

module _ {D : Type 0} ⦃dec : Decimal D⦄ where
  IsInside-iff :
      (env : Surroundings D) (o : Option SessionManager)
      → (is_inside o (open_sessions env.now o).1 ≡ true) ↔ IsInside env o
  unfolding open_sessions
  IsInside-iff env none = (λ h. tt, λ h. refl)
  IsInside-iff env (some m) = (
    λ h. ground (arith, open_session_cases env.now m),
    λ h. ground (arith, open_session_cases env.now m),
  )

  may_trade_iff :
      (env : Surroundings D) (available : Dict ℕ) (app : PaperApplication D)
      → (may_trade env available app ≡ true) ↔ (
          (get_or_else env.bootstrap true ≡ true)
          × (env.source_ready ≡ true)
          × IsWarm env.startup.symbols env.warmup_candles available
          × IsInside env app.session_manager)
  unfolding may_trade
  may_trade_iff env available app =
      let (to, from) = IsInside-iff env app.session_manager in
      let warm = is_insufficient-IsWarm env.startup.symbols env.warmup_candles available in
      (
        λ h. (ground arith, ground arith, warm.0 (ground arith), to (ground arith)),
        λ h. ground (arith, warm.1 h.2, from h.3),
      )

  started :
      (env : Surroundings D) (app : PaperApplication D)
      → app.lifecycle.state ≡ created
      → (start env app).1 ≡ ok tt
      → (available : Dict ℕ) × (env.available ≡ some available)
        × ((start env app).0.lifecycle.state ≡ running)
        × ((start env app).0.has_run_task ≡ true)
        × ((start env app).0.trading_enabled ≡ may_trade env available app)
  unfolding start begin_running abort_start move transition next_states initial_reconciliation
  started env app c h = elim (Option-cases env.available) [
    | inl raised ↦ absurd (ground arith)
    | inr (available, found) ↦ (available, found, ground arith, ground arith, ground arith)
  ]

  -- A start from CREATED that succeeds leaves the application running. Trading is enabled exactly
  -- if the market data could be bootstrapped and is ready, the warmup has an answer for every symbol
  -- and no answer is below the candles that it asks for, and there is no session manager or its window
  -- is open.
  pub start_enables :
      (env : Surroundings D) (app : PaperApplication D)
      → app.lifecycle.state ≡ created
      → (start env app).1 ≡ ok tt
      → let app' = (start env app).0 in
        (app'.lifecycle.state ≡ running)
        × (app'.has_run_task ≡ true)
        × ((available : Dict ℕ) × (env.available ≡ some available)
            × ((app'.trading_enabled ≡ true) ↔ (
                (get_or_else env.bootstrap true ≡ true)
                × (env.source_ready ≡ true)
                × IsWarm env.startup.symbols env.warmup_candles available
                × IsInside env app.session_manager)))
  start_enables env app c h =
      let (available, found, r, t, enabled) = started env app c h in
      let (to, from) = may_trade_iff env available app in
      (r, t, (available, found, (λ e. to (ground arith), λ w. ground (arith, from w))))

  -- A start from CREATED whose preflight fails reports every failed gate, closes the dependencies
  -- and ends in STOPPED with trading disabled; it sets no session and creates no run task.
  pub start_preflight_failed :
      (env : Surroundings D) (app : PaperApplication D)
      → app.lifecycle.state ≡ created
      → (run_preflight env.startup).success ≡ false
      → let (app', answer) = start env app in
        (answer ≡ raise (preflight_failed (run_preflight env.startup).errors))
        × (app'.lifecycle.state ≡ stopped)
        × (app'.is_closed ≡ true)
        × (app'.trading_enabled ≡ false)
        × (app'.has_run_task ≡ app.has_run_task)
        × (app'.session_id ≡ app.session_id)
  unfolding start abort_start move transition next_states
  start_preflight_failed env app c h = ground arith

  -- Whatever the books hold: if the reconciler has readers and reads objects and there is an
  -- order, then after the initial reconciliation the risk
  -- engine approves, of the trades that do not override its reconciliation flag, only those that
  -- add no exposure.
  pub initial_reconciliation_blocks :
      (env : Surroundings D) (app : PaperApplication D) (r : PaperReconciler D) (id : String)
      (rows : List Row) (t : Trade D)
      → app.reconciler ≡ some r
      → r.has_readers ≡ true
      → env.loaded.orders ≡ object_row id ∷ rows
      → t.reconciliation_ok ≡ none
      → (check_trade (initial_reconciliation env app).risk t).1.approved ≡ true
      → reducing t ≡ true
  unfolding initial_reconciliation update_reconciliation
  initial_reconciliation_blocks env app r id rows t c h o n approved =
      elim ((check_trade_approves (initial_reconciliation env app).risk t).0 approved).1 [
        | inl quiet ↦ quiet
        | inr w ↦ ground (
          arith,
          w.reconciled,
          reconcile_raises_on_objects env.clock env.engine env.loaded r id rows h o,
        )
      ]

request_stop_lem :
    {D : Type 0} (app : PaperApplication D)
    → app.lifecycle.state ≢ stopped
    → let app' = request_stop app in
      (app'.lifecycle.state ≡ stopping)
      × (app'.trading_enabled ≡ false)
      × (app'.is_closed ≡ app.is_closed)
      × (app'.has_run_task ≡ app.has_run_task)
      × (app'.session_manager ≡ app.session_manager)
unfolding request_stop move transition next_states
request_stop_lem app n = ground arith

request_stop_again :
    {D : Type 0} (app : PaperApplication D)
    → app.lifecycle.state ≡ stopping
    → app.trading_enabled ≡ false
    → request_stop app ≡ app
unfolding request_stop
request_stop_again app h t = ground arith

-- If the run task of an application not yet stopped has failed, a stop raises before anything is
-- closed and leaves the application in STOPPING, and so does every further stop.
pub stop_never_closes :
    {D : Type 0} (fails : StopStep → Bool) (app : PaperApplication D)
    → app.has_run_task ≡ true
    → fails await_run_task ≡ true
    → app.lifecycle.state ≢ stopped
    → let (app', answer) = stop fails app in
      (answer ≢ ok tt)
      × (app'.lifecycle.state ≡ stopping)
      × (app'.is_closed ≡ app.is_closed)
      × (stop fails app' ≡ (app', answer))
unfolding stop first_failure
stop_never_closes fails app t f n =
    let (state, off, closed, task, _) = request_stop_lem app n in
    ground (arith, state, off, closed, task, request_stop_again (request_stop app) state off)
