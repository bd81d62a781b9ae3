-- ===== src/Indicators/Rsi.antt =====
-- app/indicators/rsi.py.
use crypto_trading_system.Base.{
  ℕ, suc, ◌-◌, ◌&&◌, ltb, if◌then◌else◌, Option, none, some, List, [], ◌∷◌, ◌++◌, length, map,
}
use crypto_trading_system.Decimal.{
  Decimal, literal, dec_zero, ◌⊕◌, ◌⊖◌, ◌⊗◌, ◌⊘◌, ◌=?◌, abs, max, min,
}
use crypto_trading_system.Indicators.Slices.{drop, blanks}
use crypto_trading_system.Indicators.Ema.{simple_average}

module _ {D : Type 0} ⦃dec : Decimal D⦄ where
  unfoldable pub rsi_from_averages : D → D → D
  rsi_from_averages avg_gain avg_loss =
      if avg_gain =? dec_zero && avg_loss =? dec_zero
      then literal 50 0
      else if avg_loss =? dec_zero
      then literal 100 0
      else literal 100 0 ⊖ literal 100 0 ⊘ (literal 1 0 ⊕ avg_gain ⊘ avg_loss)

  unfoldable pub changes : List D → List D
  changes [] = []
  changes (p ∷ []) = []
  changes (p ∷ q ∷ prices) = (q ⊖ p) ∷ changes (q ∷ prices)

  abbrev pub gain : D → D
  gain change = max change dec_zero

  abbrev pub loss : D → D
  loss change = abs (min change dec_zero)

  -- Wilder's smoothing: `(avg * (period - 1) + x) / period`
  unfoldable pub wilder : ℕ → D → D → D
  wilder period avg x = (avg ⊗ literal (period - 1) 0 ⊕ x) ⊘ literal period 0

  -- The loop over the later changes.
  unfoldable pub rsi_after : ℕ → D → D → List D → D
  unfolding wilder
  rsi_after period avg_gain avg_loss [] = rsi_from_averages avg_gain avg_loss
  rsi_after period avg_gain avg_loss (c ∷ cs) =
      rsi_after period (wilder period avg_gain (gain c)) (wilder period avg_loss (loss c)) cs

  unfoldable pub calculate_rsi : List D → ℕ → Option D
  unfolding rsi_after changes simple_average
  calculate_rsi prices period =
      if ltb (length prices) (suc period)
      then none
      else (let cs = changes prices in
          some (
            rsi_after period (simple_average period (map (λ c. gain c) cs))
              (simple_average period (map (λ c. loss c) cs)) (drop period cs)))

  -- The value for each of the later changes.
  unfoldable pub rsi_from : ℕ → D → D → List D → List (Option D)
  unfolding wilder rsi_from_averages
  rsi_from period avg_gain avg_loss [] = []
  rsi_from period avg_gain avg_loss (c ∷ cs) =
      let g = wilder period avg_gain (gain c) in
      let l = wilder period avg_loss (loss c) in
      some (rsi_from_averages g l) ∷ rsi_from period g l cs

  unfoldable pub calculate_rsi_series : List D → ℕ → List (Option D)
  unfolding rsi_from rsi_from_averages changes simple_average
  calculate_rsi_series prices period =
      if ltb (length prices) (suc period)
      then blanks (length prices)
      else (let cs = changes prices in
          let g = simple_average period (map (λ c. gain c) cs) in
          let l = simple_average period (map (λ c. loss c) cs) in
          blanks period ++ (some (rsi_from_averages g l) ∷ rsi_from period g l (drop period cs)))
