-- ===== src/Runtime/Preflight.antt =====
-- app/runtime/preflight.py. A check that awaits a callback gives what it returns, or nothing if it
-- raises.
use crypto_trading_system.Base.{
  ℕ, ◌+◌, String, ◌=ₛ◌, ◌≡◌, refl, Bool, true, false, ◌&&◌, ◌||◌, not, leb, ◌==◌, all,
  if◌then◌else◌, Option, some, List, [], ◌∷◌, ◌++◌, length, length-append, arith, ◌↔◌, get_or_else,
}
use crypto_trading_system.Base.Text.{codes}
use crypto_trading_system.Decimal.{Decimal, dec_zero, ◌<?◌}

pub data Gate : Type 0 where
  trading_mode exchange_configuration symbol_list initial_capital risk_configuration : Gate
  database_connection migration_state restore_available : Gate

pub record StartupPreflight (D : Type 0) : Type 0 where
  pub trading_mode : String
  pub exchange : String
  pub symbols : List String
  pub initial_capital : D
  pub has_risk_config : Bool
  pub database_check : Option Bool
  pub migration_check : Option Bool
  -- no repository, or whether its `load_state` returns
  pub repository : Option Bool

pub record PreflightResult : Type 0 where
  pub success : Bool
  pub checks : List Gate
  pub errors : List Gate

-- The code points that `str.strip` takes away.
abbrev pub is_space : ℕ → Bool
is_space c =
    (leb 9 c && leb c 13)
    || (leb 28 c && leb c 32)
    || c == 133
    || c == 160
    || c == 5760
    || (leb 8192 c && leb c 8202)
    || c == 8232
    || c == 8233
    || c == 8239
    || c == 8287
    || c == 12288

-- `text.strip()` is truthy.
unfoldable pub has_text : String → Bool
has_text s = not (all is_space (codes s))

abbrev pub is_empty {ℓ} : {A : Type ℓ} → List A → Bool
is_empty [] = true
is_empty (_ ∷ _) = false

-- One gate: its name goes to the checks or to the errors.
unfoldable pub note : Gate → Bool → PreflightResult → PreflightResult
note gate passed r =
    if passed
    then record r { checks = r.checks ++ (gate ∷ []) }
    else record r { errors = r.errors ++ (gate ∷ []) }

abbrev pub no_gates : PreflightResult
no_gates = record { success = false; checks = []; errors = [] }

unfoldable pub note_all : List (Gate × Bool) → PreflightResult → PreflightResult
unfolding note
note_all [] r = r
note_all ((gate, passed) ∷ gates) r = note_all gates (note gate passed r)

note_all-length :
    (gs : List (Gate × Bool)) (r : PreflightResult)
    → length (note_all gs r).checks + length (note_all gs r).errors
      ≡ length gs + (length r.checks + length r.errors)
unfolding note_all note
note_all-length [] r = omega arith
note_all-length ((gate, passed) ∷ gs) r = ground (
  arith,
  note_all-length gs (note gate passed r),
  length-append r.checks (gate ∷ []),
  length-append r.errors (gate ∷ []),
)

is_empty_append : (xs : List Gate) (x : Gate) → is_empty (xs ++ (x ∷ [])) ≡ false
is_empty_append [] x = refl
is_empty_append (y ∷ xs) x = refl

abbrev passes : Gate × Bool → Bool
passes g = g.1

note_all_errors :
    (gs : List (Gate × Bool)) (r : PreflightResult)
    → is_empty (note_all gs r).errors ≡ (is_empty r.errors && all passes gs)
unfolding note_all note
note_all_errors [] r = ground arith
note_all_errors ((gate, passed) ∷ gs) r =
    ground (arith, note_all_errors gs (note gate passed r), is_empty_append r.errors gate)

module _ {D : Type 0} ⦃dec : Decimal D⦄ where
  abbrev pub database_ok : StartupPreflight D → Bool
  database_ok p = get_or_else p.database_check false

  -- The gates in the order of the code.
  unfoldable pub gates : StartupPreflight D → List (Gate × Bool)
  gates p =
      (trading_mode, p.trading_mode =ₛ "paper")
      ∷ (exchange_configuration, has_text p.exchange)
      ∷ (symbol_list, not (is_empty p.symbols) && all has_text p.symbols)
      ∷ (initial_capital, dec_zero <? p.initial_capital)
      ∷ (risk_configuration, p.has_risk_config)
      ∷ (database_connection, database_ok p)
      ∷ (migration_state, database_ok p && get_or_else p.migration_check false)
      ∷ (restore_available, get_or_else p.repository false)
      ∷ []

  -- `run`
  unfoldable pub run_preflight : StartupPreflight D → PreflightResult
  unfolding gates note_all
  run_preflight p = let r = note_all (gates p) no_gates in record r { success = is_empty r.errors }

  -- Every gate is reported exactly once, whichever fail: the eight are split into checks and errors,
  -- and the start may go on exactly if each gate is open.
  pub run_preflight_reports :
      (p : StartupPreflight D)
      → let r = run_preflight p in
        (length r.checks + length r.errors ≡ 8)
        × ((r.success ≡ true) ↔ (
            ((p.trading_mode =ₛ "paper") ≡ true)
            × (has_text p.exchange ≡ true)
            × ((not (is_empty p.symbols) && all has_text p.symbols) ≡ true)
            × ((dec_zero <? p.initial_capital) ≡ true)
            × (p.has_risk_config ≡ true)
            × (p.database_check ≡ some true)
            × (p.migration_check ≡ some true)
            × (p.repository ≡ some true)))
  unfolding run_preflight gates
  run_preflight_reports p = (
    ground (arith, note_all-length (gates p) no_gates),
    (
      λ h. ground (arith, note_all_errors (gates p) no_gates),
      λ h. ground (arith, note_all_errors (gates p) no_gates),
    ),
  )
