-- ===== src/Runtime/Application.antt =====
-- `PaperApplication` of app/runtime/paper_application.py: start, the initial reconciliation and stop.
-- Its dependencies' answers are arguments. Heartbeat, notifications and the health coordinator's
-- start succeed and leave the state alone.
use crypto_trading_system.Base.{
  ℕ, String, Bool, true, false, ◌&&◌, ◌||◌, not, ltb, any, if◌then◌else◌, Option, none, some,
  is_some, List, [], ◌∷◌, get_or_else,
}
use crypto_trading_system.Base.Dict.{Dict}
use crypto_trading_system.Base.Dict
use crypto_trading_system.Decimal.{Decimal}
use crypto_trading_system.Models.{Result, ok, raise}
use crypto_trading_system.Execution.State.{Engine}
use crypto_trading_system.Reconciliation.Reconciler.{PaperReconciler, Loaded, has_fatal, reconcile}
use crypto_trading_system.Risk.Engine.{RiskEngine, update_reconciliation}
use crypto_trading_system.Runtime.Lifecycle.{
  RuntimeState, RuntimeLifecycle, created, preflight, restoring, warmup, running, stopping, stopped,
  same_state, transition,
}
use crypto_trading_system.Runtime.Preflight.{StartupPreflight, Gate, run_preflight}
use crypto_trading_system.Runtime.Schedule.{
  LocalTime, SessionManager, TradingSession, open_session, close_session,
}

pub record PaperApplication (D : Type 0) : Type 0 where
  pub lifecycle : RuntimeLifecycle
  -- also the flag that the application sets on its runtime
  pub trading_enabled : Bool
  pub session_manager : Option SessionManager
  pub session_id : Option ℕ
  pub has_run_task : Bool
  pub is_closed : Bool
  pub risk : RiskEngine D
  pub reconciler : Option (PaperReconciler D)

-- What the dependencies answer during a start.
pub record Surroundings (D : Type 0) : Type 0 where
  pub startup : StartupPreflight D
  pub restore_fails : Bool
  -- no bootstrap, or whether it returns
  pub bootstrap : Option Bool
  -- the candles that the warmup finds for each symbol, unless it raises
  pub available : Option (Dict ℕ)
  pub warmup_candles : ℕ
  pub source_ready : Bool
  pub now : LocalTime
  pub clock : ℕ
  pub engine : Engine D
  pub loaded : Loaded D

pub data StartError : Type 0 where
  not_created restore_failed warmup_failed : StartError
  preflight_failed : List Gate → StartError

-- The calls of `stop` that may raise; one whose dependency is missing never does.
pub data StopStep : Type 0 where
  stop_health await_run_task save_checkpoint pnl_checkpoint beat_stopped close_dependencies :
      StopStep

pub data StopError : Type 0 where
  step_raised : StopStep → StopError

-- `insufficient`: a symbol with too few candles, or with no answer.
unfoldable pub is_insufficient : List String → ℕ → Dict ℕ → Bool
is_insufficient symbols required available =
    any (λ (e : String × ℕ). ltb e.1 required) available
    || any (λ s. not (Dict.contains s available)) symbols

-- `self.dependencies.session_manager.open()`, if there is one
unfoldable pub open_sessions :
    LocalTime → Option SessionManager → Option SessionManager × Option TradingSession
open_sessions now none = (none, none)
open_sessions now (some m) = let (m', session) = open_session now m in (some m', session)

abbrev pub is_inside : Option SessionManager → Option TradingSession → Bool
is_inside none session = true
is_inside (some m) session = is_some session

abbrev pub session_id_of : Option TradingSession → Option ℕ
session_id_of none = none
session_id_of (some s) = some s.session_id

module _ {D : Type 0} where
  -- A transition that the table has at this place.
  unfoldable pub move : RuntimeState → PaperApplication D → PaperApplication D
  move target app = record app { lifecycle = (transition target app.lifecycle).0 }

  -- The start ends after the preflight.
  unfoldable pub abort_start :
      List Gate → PaperApplication D → PaperApplication D × Result StartError (Unit {0})
  unfolding move
  abort_start errors app = (
    record (move stopped (move stopping app)) { trading_enabled = false; is_closed = true },
    raise (preflight_failed errors),
  )

module _ {D : Type 0} ⦃dec : Decimal D⦄ where
  -- `update_reconciliation(not recon_result.has_fatal)`, or False if the reconciliation raises
  unfoldable pub initial_reconciliation : Surroundings D → PaperApplication D → PaperApplication D
  initial_reconciliation env app = elim app.reconciler [
    | none ↦ app
    | some r ↦
        (let (r', answer) = reconcile env.clock env.engine env.loaded r in
          record app {
            reconciler = some r';
            risk =
                update_reconciliation
                  (elim answer [
                    | raise x ↦ false
                    | ok result ↦ not (has_fatal result.discrepancies)
                  ])
                  app.risk;
          })
  ]

  unfoldable pub may_trade : Surroundings D → Dict ℕ → PaperApplication D → Bool
  unfolding is_insufficient open_sessions
  may_trade env available app =
      get_or_else env.bootstrap true
      && env.source_ready
      && not (is_insufficient env.startup.symbols env.warmup_candles available)
      && is_inside app.session_manager (open_sessions env.now app.session_manager).1

  -- From the warmup's answer on.
  unfoldable pub begin_running : Surroundings D → Dict ℕ → PaperApplication D → PaperApplication D
  unfolding may_trade move open_sessions initial_reconciliation
  begin_running env available app =
      let (m, session) = open_sessions env.now app.session_manager in
      initial_reconciliation env (record (move running app) {
        session_manager = m;
        session_id = session_id_of session;
        trading_enabled = may_trade env available app;
        has_run_task = true;
      })

  unfoldable pub start :
      Surroundings D → PaperApplication D → PaperApplication D × Result StartError (Unit {0})
  unfolding move abort_start begin_running
  start env app =
      let result = run_preflight env.startup in
      let restored = move restoring (move preflight app) in
      if not (same_state app.lifecycle.state created)
      then (app, raise not_created)
      else if not result.success
      then abort_start result.errors (move preflight app)
      else if env.restore_fails
      then (restored, raise restore_failed)
      else elim env.available [
        | none ↦ (move warmup restored, raise warmup_failed)
        | some available ↦ (begin_running env available (move warmup restored), ok tt)
      ]

-- The first of the steps that raises.
unfoldable pub first_failure : (StopStep → Bool) → List StopStep → Option StopStep
first_failure fails [] = none
first_failure fails (step ∷ steps) = if fails step then some step else first_failure fails steps

unfoldable pub close_sessions : Option SessionManager → Option SessionManager
close_sessions none = none
close_sessions (some m) = some (close_session m).0

module _ {D : Type 0} where
  -- The calls that stop makes up to the transition to STOPPED, and after it.
  abbrev pub steps_before : PaperApplication D → List StopStep
  steps_before app =
      stop_health
      ∷ (if app.has_run_task then await_run_task else save_checkpoint)
      ∷ pnl_checkpoint
      ∷ []

  unfoldable pub finish_stop :
      (StopStep → Bool) → PaperApplication D → PaperApplication D × Result StopError (Unit {0})
  unfolding move close_sessions first_failure
  finish_stop fails app =
      let app' = record (move stopped app) {
        session_manager = close_sessions app.session_manager;
      } in
      elim (first_failure fails (beat_stopped ∷ close_dependencies ∷ [])) [
        | some step ↦ (app', raise (step_raised step))
        | none ↦ (record app' { is_closed = true }, ok tt)
      ]

  -- Trading ends, and the application is in STOPPING.
  unfoldable pub request_stop : PaperApplication D → PaperApplication D
  unfolding move
  request_stop app =
      record (if same_state app.lifecycle.state stopping then app else move stopping app) {
        trading_enabled = false;
      }

  -- `stop`, under its lock; `fails` says which of the calls raise.
  unfoldable pub stop :
      (StopStep → Bool) → PaperApplication D → PaperApplication D × Result StopError (Unit {0})
  unfolding request_stop first_failure finish_stop
  stop fails app =
      if same_state app.lifecycle.state stopped
      then (app, ok tt)
      else elim (first_failure fails (steps_before app)) [
        | some step ↦ (request_stop app, raise (step_raised step))
        | none ↦ finish_stop fails (request_stop app)
      ]
