-- ===== src/Risk/State.antt =====
-- The state of the risk engine over any sequence of updates.
use crypto_trading_system.Base.{
  ℕ, zero, suc, String, ◌+◌, ◌≤◌, ◌<◌, All, replicate, ◌≡◌, refl, Bool, true, false, some, List, [],
  ◌∷◌, arith,
}
use crypto_trading_system.Decimal.{Decimal, ◌<?◌, le-max_left, le-max_right, le_trans}
use crypto_trading_system.Risk.Engine.{
  RiskEngine, state_of, update_system_health, update_reconciliation, update_data_time, update_pnl,
  update_equity, set_emergency_stop, record_error, reset_errors, reset_daily, reset_weekly,
}

-- A call of one of the updates.
pub data Update (D : Type 0) : Type 0 where
  system_health : Bool → Bool → Update D
  reconciliation : Bool → Update D
  pnl : D → D → Update D
  equity : D → Update D
  emergency : Bool → String → Update D
  data_time : ℕ → Update D
  failure reset_error_count reset_day reset_week : Update D

module _ {D : Type 0} ⦃dec : Decimal D⦄ where
  pub update : Update D → RiskEngine D → RiskEngine D
  update (system_health d a) r = update_system_health d a r
  update (reconciliation ok) r = update_reconciliation ok r
  update (pnl d w) r = update_pnl d w r
  update (equity e) r = update_equity e r
  update (emergency active reason) r = set_emergency_stop active reason r
  update (data_time t) r = update_data_time t r
  update failure r = record_error r
  update reset_error_count r = reset_errors r
  update reset_day r = reset_daily r
  update reset_week r = reset_weekly r

  pub updates : List (Update D) → RiskEngine D → RiskEngine D
  updates [] r = r
  updates (u ∷ us) r = updates us (update u r)

  -- The store holds the state of the engine, or nothing has been saved yet.
  abbrev pub IsSaved : RiskEngine D → Type 0
  IsSaved r = r.saved_state ≡ some (state_of r)

  -- No update but lifting the emergency stop.
  abbrev pub NeverLifts : List (Update D) → Type 0
  NeverLifts us = All (λ u. (reason : String) → u ≡ emergency false reason → ⊥) us

  update_keeps_stop :
      (u : Update D) (r : RiskEngine D)
      → ((reason : String) → u ≡ emergency false reason → ⊥)
      → r.is_emergency_stop ≡ true
      → (update u r).is_emergency_stop ≡ true
  unfolding update update_system_health update_reconciliation update_pnl update_equity
      set_emergency_stop update_data_time record_error reset_errors reset_daily reset_weekly
  update_keeps_stop (emergency true reason) r n h = ground arith
  update_keeps_stop (emergency false reason) r n h = absurd (n reason refl)
  update_keeps_stop _ r n h = ground arith

  -- An emergency stop stays in force under every sequence of updates that does not lift it.
  pub emergency_stop_stays :
      (us : List (Update D)) (r : RiskEngine D)
      → NeverLifts us
      → r.is_emergency_stop ≡ true
      → (updates us r).is_emergency_stop ≡ true
  unfolding updates
  emergency_stop_stays [] r n h = h
  emergency_stop_stays (u ∷ us) r n h =
      emergency_stop_stays us (update u r) n.1 (update_keeps_stop u r n.0 h)

  -- The peak is no lower than the current equity.
  abbrev pub IsPeak : RiskEngine D → Type 0
  IsPeak r = (r.peak_equity <? r.current_equity) ≡ false

  update-IsPeak :
      (u : Update D) (r : RiskEngine D)
      → IsPeak r
      → IsPeak (update u r) × ((update u r).peak_equity <? r.peak_equity) ≡ false
  unfolding update update_system_health update_reconciliation update_pnl update_equity
      set_emergency_stop update_data_time record_error reset_errors reset_daily reset_weekly
  update-IsPeak (equity e) r h =
      ground (arith, le-max_right r.peak_equity e, le-max_left r.peak_equity e)
  update-IsPeak _ r h = ground (arith, dec.lt_irrefl r.peak_equity)

  -- If the peak is not below the current equity, it stays so under every sequence of updates, and
  -- the peak never falls.
  pub updates-IsPeak :
      (us : List (Update D)) (r : RiskEngine D)
      → IsPeak r
      → IsPeak (updates us r) × (((updates us r).peak_equity <? r.peak_equity) ≡ false)
  unfolding updates
  updates-IsPeak [] r h = (h, dec.lt_irrefl r.peak_equity)
  updates-IsPeak (u ∷ us) r h =
      let (h', up) = update-IsPeak u r h in
      let (h'', rest) = updates-IsPeak us (update u r) h' in
      (
        h'',
        le_trans r.peak_equity (update u r).peak_equity (updates us (update u r)).peak_equity up
            rest,
      )

  failures_counted :
      (n : ℕ) (r : RiskEngine D)
      → let r' = updates (replicate n failure) r in
        (r'.consecutive_errors ≡ r.consecutive_errors + n)
        × (0 < n → 5 ≤ r.consecutive_errors + n → r'.is_emergency_stop ≡ true)
  unfolding updates update record_error
  failures_counted zero r = (omega arith, λ h k. absurd (omega arith))
  failures_counted (suc zero) r = ground arith
  failures_counted (suc (suc n)) r = ground (arith, failures_counted (suc n) (record_error r))

  -- One or more errors that bring the count of consecutive errors to five or above leave the
  -- emergency stop in force.
  pub failures_stop :
      (n : ℕ) (r : RiskEngine D)
      → 0 < n
      → 5 ≤ r.consecutive_errors + n
      → (updates (replicate n failure) r).is_emergency_stop ≡ true
  failures_stop n r = (failures_counted n r).1
