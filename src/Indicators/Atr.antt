-- ===== src/Indicators/Atr.antt =====
-- app/indicators/atr.py.
use crypto_trading_system.Base.{
  ℕ, suc, Bool, ◌||◌, ltb, if◌then◌else◌, Option, none, some, List, [], ◌∷◌, ◌++◌, length,
}
use crypto_trading_system.Decimal.{Decimal, dec_zero, ◌⊖◌, ◌⊘◌, ◌=?◌, abs, max}
use crypto_trading_system.Models.{Result, ok, raise}
use crypto_trading_system.Indicators.Slices.{IndexError, out_of_range, drop, blanks}
use crypto_trading_system.Indicators.Ema.{simple_average}
use crypto_trading_system.Indicators.Rsi.{wilder}

module _ {D : Type 0} ⦃dec : Decimal D⦄ where
  unfoldable pub calculate_true_range : D → D → D → D
  calculate_true_range high low previous_close =
      max (max (high ⊖ low) (abs (high ⊖ previous_close))) (abs (low ⊖ previous_close))

  -- `calculate_true_range(highs[i], lows[i], closes[i - 1])` for each i from 1 on, where `highs` and
  -- `lows` are given from 1 on and `closes` from 0 on.
  unfoldable pub ranges_from : List D → List D → List D → Result IndexError (List D)
  unfolding calculate_true_range
  ranges_from [] lows closes = ok []
  ranges_from (h ∷ highs) [] closes = raise out_of_range
  ranges_from (h ∷ highs) (l ∷ lows) [] = raise out_of_range
  ranges_from (h ∷ highs) (l ∷ lows) (c ∷ closes) = elim (ranges_from highs lows closes) [
    | raise x ↦ raise x
    | ok trs ↦ ok (calculate_true_range h l c ∷ trs)
  ]

  unfoldable pub true_ranges : List D → List D → List D → Result IndexError (List D)
  unfolding ranges_from
  true_ranges highs lows closes = ranges_from (drop 1 highs) (drop 1 lows) closes

  unfoldable pub too_short : List D → List D → List D → ℕ → Bool
  too_short highs lows closes period =
      ltb (length highs) (suc period)
      || ltb (length lows) (suc period)
      || ltb (length closes) (suc period)

  unfoldable pub atr_after : ℕ → D → List D → D
  unfolding wilder
  atr_after period atr [] = atr
  atr_after period atr (tr ∷ trs) = atr_after period (wilder period atr tr) trs

  unfoldable pub calculate_atr : List D → List D → List D → ℕ → Result IndexError (Option D)
  unfolding too_short true_ranges atr_after simple_average
  calculate_atr highs lows closes period =
      if too_short highs lows closes period then ok none else elim (true_ranges highs lows closes) [
        | raise x ↦ raise x
        | ok trs ↦ ok (some (atr_after period (simple_average period trs) (drop period trs)))
      ]

  unfoldable pub atr_from : ℕ → D → List D → List (Option D)
  unfolding wilder
  atr_from period atr [] = []
  atr_from period atr (tr ∷ trs) =
      let atr' = wilder period atr tr in some atr' ∷ atr_from period atr' trs

  unfoldable pub calculate_atr_series :
      List D → List D → List D → ℕ → Result IndexError (List (Option D))
  unfolding too_short true_ranges atr_from simple_average
  calculate_atr_series highs lows closes period =
      if too_short highs lows closes period
      then ok (blanks (length highs))
      else elim (true_ranges highs lows closes) [
        | raise x ↦ raise x
        | ok trs ↦ ok (
            blanks period
            ++ (some (simple_average period trs)
                ∷ atr_from period (simple_average period trs) (drop period trs)))
      ]

  unfoldable pub calculate_atr_percentage : D → D → D
  calculate_atr_percentage atr price = if price =? dec_zero then dec_zero else atr ⊘ price
