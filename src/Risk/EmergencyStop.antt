-- ===== src/Risk/EmergencyStop.antt =====
-- app/risk/emergency_stop.py. A callback may raise: the argument `fails` says which do. The log lists
-- the calls in the order in which they are made.
use crypto_trading_system.Base.{
  Bool-cases, append-nil, append_assoc, ◌≡◌, refl, Bool, true, false, Option, some, List, [], ◌∷◌,
  ◌++◌, arith, if◌then◌else◌, inl, inr,
}
use crypto_trading_system.Models.{Result, ok, raise}

pub data EmergencyReason : Type 0 where
  db_failure market_data_stale reconciliation_failed runtime_error manual_stop : EmergencyReason

-- The injected callbacks, and the critical notification.
pub data Step : Type 0 where
  disable_trading close_execution save_checkpoint record_risk_event notify stop_runtime : Step

pub record EmergencyStop : Type 0 where
  pub active : Bool
  pub reason : Option EmergencyReason
  pub log : List Step

-- `raised` carries what the notifier raises; the group lists the steps that failed.
pub data ActivateError : Type 0 where
  notifier_raised : ActivateError
  exception_group : List Step → ActivateError

-- The loop over the four safety steps: a failing one is noted, and the next is tried.
unfoldable pub attempt :
    (Step → Bool) → List Step → EmergencyStop → List Step → EmergencyStop × List Step
attempt fails [] e errors = (e, errors)
attempt fails (step ∷ steps) e errors =
    attempt fails steps (record e { log = e.log ++ (step ∷ []) })
      (if fails step then errors ++ (step ∷ []) else errors)

abbrev pub safety_steps : List Step
safety_steps = disable_trading ∷ close_execution ∷ save_checkpoint ∷ record_risk_event ∷ []

unfoldable pub verdict : List Step → Result ActivateError Bool
verdict [] = ok true
verdict (step ∷ steps) = raise (exception_group (step ∷ steps))

-- After the loop: the notification, then the runtime's stop.
unfoldable pub conclude :
    (Step → Bool) → EmergencyStop → List Step → EmergencyStop × Result ActivateError Bool
unfolding verdict
conclude fails e errors =
    if fails notify then (record e { log = e.log ++ (notify ∷ []) }, raise notifier_raised) else (
      record e { log = e.log ++ (notify ∷ stop_runtime ∷ []) },
      verdict (if fails stop_runtime then errors ++ (stop_runtime ∷ []) else errors),
    )

-- `activate`; the lock makes calls follow one another.
unfoldable pub activate :
    (Step → Bool) → EmergencyReason → EmergencyStop → EmergencyStop × Result ActivateError Bool
activate fails reason e =
    if e.active
    then (e, ok false)
    else (let (e', errors) =
          attempt fails safety_steps (record e { active = true; reason = some reason }) [] in
        conclude fails e' errors)

-- The steps that fail, in order.
pub failed : (Step → Bool) → List Step → List Step
failed fails [] = []
failed fails (step ∷ steps) = if fails step then step ∷ failed fails steps else failed fails steps

attempt_lem :
    (fails : Step → Bool) (steps : List Step) (e : EmergencyStop) (errors : List Step)
    → attempt fails steps e errors
      ≡ (record e { log = e.log ++ steps }, errors ++ failed fails steps)
unfolding attempt failed
attempt_lem fails [] e errors = simp (append-nil)
attempt_lem fails (step ∷ steps) e errors = elim (Bool-cases (fails step)) [
  | inl f ↦ simp (f, attempt_lem fails steps, append_assoc)
  | inr f ↦ simp (f, attempt_lem fails steps, append_assoc)
]

pub activate_attempts_all :
    (fails : Step → Bool) (reason : EmergencyReason) (e : EmergencyStop)
    → e.active ≡ false
    → let e' = (activate fails reason e).0 in
      (e'.active ≡ true)
      × (e'.reason ≡ some reason)
      × (e'.log
          ≡ e.log
            ++ (safety_steps ++ (if fails notify then notify ∷ [] else notify ∷ stop_runtime ∷ [])))
unfolding activate conclude
activate_attempts_all fails reason e h = ground (
  arith,
  attempt_lem fails safety_steps (record e { active = true; reason = some reason }) [],
  append_assoc e.log safety_steps (notify ∷ []),
  append_assoc e.log safety_steps (notify ∷ stop_runtime ∷ []),
)

failed_one :
    (fails : Step → Bool)
    → failed fails (stop_runtime ∷ []) ≡ (if fails stop_runtime then stop_runtime ∷ [] else [])
unfolding failed
failed_one fails = refl

-- A first activation succeeds exactly if no call fails; otherwise it raises the notifier's
-- exception, or else a group of all the calls that failed.
pub activate-verdict :
    (fails : Step → Bool) (reason : EmergencyReason) (e : EmergencyStop)
    → e.active ≡ false
    → (activate fails reason e).1 ≡ (
        if fails notify
        then raise notifier_raised
        else verdict (failed fails safety_steps ++ failed fails (stop_runtime ∷ [])))
unfolding activate conclude
activate-verdict fails reason e h = ground (
  arith,
  attempt_lem fails safety_steps (record e { active = true; reason = some reason }) [],
  failed_one fails,
  append-nil (failed fails safety_steps),
)

-- Once active, every further activation is refused and changes nothing.
pub activate_once :
    (fails fails' : Step → Bool) (reason reason' : EmergencyReason) (e : EmergencyStop)
    → let e' = (activate fails reason e).0 in activate fails' reason' e' ≡ (e', ok false)
unfolding activate conclude
activate_once fails fails' reason reason' e =
    ground
      (arith, attempt_lem fails safety_steps (record e { active = true; reason = some reason }) [])
