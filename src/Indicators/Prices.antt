-- ===== src/Indicators/Prices.antt =====
-- app/indicators/price.py.
use crypto_trading_system.Base.{
  ℕ, suc, ltb, if◌then◌else◌, Option, none, some, List, [], ◌∷◌, ◌++◌, length,
}
use crypto_trading_system.Decimal.{Decimal, dec_zero, ◌⊖◌, ◌⊘◌, ◌<?◌, ◌=?◌, max, min}
use crypto_trading_system.Indicators.Slices.{drop, last_slice, blanks}

module _ {D : Type 0} ⦃dec : Decimal D⦄ where
  -- `(value - base) / base`, or zero for a base of zero.
  unfoldable pub relative : D → D → D
  relative value base = if base =? dec_zero then dec_zero else (value ⊖ base) ⊘ base

  unfoldable pub calculate_price_change : D → D → D
  unfolding relative
  calculate_price_change current_price previous_price = relative current_price previous_price

  unfoldable pub calculate_distance_to_ema : D → D → D
  unfolding relative
  calculate_distance_to_ema price ema = relative price ema

  unfoldable pub calculate_high_low_range : D → D → D
  unfolding relative
  calculate_high_low_range high low = relative high low

  -- The closes against those of `period` candles before.
  unfoldable pub changes_over : List D → List D → List (Option D)
  changes_over [] before = []
  changes_over (c ∷ closes) [] = []
  changes_over (c ∷ closes) (b ∷ before) =
      (if dec_zero <? b then some ((c ⊖ b) ⊘ b) else none) ∷ changes_over closes before

  unfoldable pub calculate_price_change_series : List D → ℕ → List (Option D)
  unfolding changes_over
  calculate_price_change_series closes period =
      if ltb (length closes) (suc period)
      then blanks (length closes)
      else blanks period ++ changes_over (drop period closes) closes

  unfoldable pub maximum : List D → Option D
  maximum [] = none
  maximum (x ∷ []) = some x
  maximum (x ∷ y ∷ xs) = maximum (max x y ∷ xs)

  unfoldable pub minimum : List D → Option D
  minimum [] = none
  minimum (x ∷ []) = some x
  minimum (x ∷ y ∷ xs) = minimum (min x y ∷ xs)

  unfoldable pub calculate_max_period : List D → ℕ → Option D
  unfolding maximum
  calculate_max_period prices period =
      if ltb (length prices) period then none else maximum (last_slice period prices)

  unfoldable pub calculate_min_period : List D → ℕ → Option D
  unfolding minimum
  calculate_min_period prices period =
      if ltb (length prices) period then none else minimum (last_slice period prices)
