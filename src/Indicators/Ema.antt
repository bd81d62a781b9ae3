-- ===== src/Indicators/Ema.antt =====
-- app/indicators/ema.py.
use crypto_trading_system.Base.{
  ℕ, suc, ◌-◌, ltb, if◌then◌else◌, Option, none, some, List, [], ◌∷◌, ◌++◌, length, take, get_elem?,
}
use crypto_trading_system.Decimal.{Decimal, literal, dec_zero, ◌⊕◌, ◌⊖◌, ◌⊗◌, ◌⊘◌, ◌=?◌, sum}
use crypto_trading_system.Indicators.Slices.{drop, last_slice, last_value, blanks}

module _ {A : Type 0} where
  -- `[v for v in values if v is not None]`
  unfoldable pub known_values : List (Option A) → List A
  known_values [] = []
  known_values (none ∷ vs) = known_values vs
  known_values (some v ∷ vs) = v ∷ known_values vs

module _ {D : Type 0} ⦃dec : Decimal D⦄ where
  -- `sum(xs[:period]) / Decimal(period)`
  unfoldable pub simple_average : ℕ → List D → D
  simple_average period xs = sum (take period xs) ⊘ literal period 0

  unfoldable pub multiplier : ℕ → D
  multiplier period = literal 2 0 ⊘ literal (suc period) 0

  unfoldable pub next_ema : ℕ → D → D → D
  unfolding multiplier
  next_ema period ema price = (price ⊖ ema) ⊗ multiplier period ⊕ ema

  unfoldable pub calculate_ema : List D → ℕ → Option D → Option D
  unfolding simple_average next_ema
  calculate_ema prices period previous =
      if ltb (length prices) period then none else elim previous [
        | none ↦ some (simple_average period prices)
        | some ema ↦ elim (last_value prices) [
          | none ↦ none
          | some price ↦ some (next_ema period ema price)
        ]
      ]

  -- The values after an average, one for each further price.
  unfoldable pub ema_from : ℕ → D → List D → List (Option D)
  unfolding next_ema
  ema_from period ema [] = []
  ema_from period ema (price ∷ prices) =
      let ema' = next_ema period ema price in some ema' ∷ ema_from period ema' prices

  unfoldable pub calculate_ema_series : List D → ℕ → List (Option D)
  unfolding simple_average ema_from
  calculate_ema_series prices period =
      if ltb (length prices) period
      then blanks (length prices)
      else blanks (period - 1)
        ++ (some (simple_average period prices)
            ∷ ema_from period (simple_average period prices) (drop period prices))

  -- The first and the last of the latest values, which are `lookback` many.
  unfoldable pub calculate_ema_slope : List (Option D) → ℕ → Option D
  unfolding known_values
  calculate_ema_slope ema_values lookback =
      let valid = known_values ema_values in
      if ltb (length valid) lookback then none else elim (last_value valid) [
        | none ↦ none
        | some current ↦ elim (get_elem? (last_slice lookback valid) 0) [
          | none ↦ none
          | some past ↦ if past =? dec_zero then none else some ((current ⊖ past) ⊘ past)
        ]
      ]
