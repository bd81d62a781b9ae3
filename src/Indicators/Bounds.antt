-- ===== src/Indicators/Bounds.antt =====
-- Bounds of the indicators: the ATR is never negative, and the RSI lies between 0 and 100.
use crypto_trading_system.Base.{
  ℕ, zero, suc, ◌-◌, ◌≤◌, ◌≡◌, false, true, some, List, [], ◌∷◌, All, map, take, arith, inl, inr,
  lt→ltb, subst,
}
use crypto_trading_system.Decimal.{
  Decimal, literal, dec_zero, ◌⊕◌, ◌⊖◌, ◌⊗◌, ◌⊘◌, ◌<?◌, abs, min, sum, mul_nonneg, sum_from-nonneg,
  add_nonneg, abs_nonneg, le-max_right, lt-le_trans, le_trans, sub_le, sub_nonneg, add_mono,
  zero_add,
}
use crypto_trading_system.Models.{ok, Result-cases}
use crypto_trading_system.Indicators.Slices.{drop}
use crypto_trading_system.Indicators.Ema.{simple_average}
use crypto_trading_system.Indicators.Rsi.{
  rsi_from_averages, changes, gain, loss, wilder, rsi_after, calculate_rsi,
}
use crypto_trading_system.Indicators.Atr.{
  calculate_true_range, ranges_from, true_ranges, atr_after, calculate_atr,
}

module _ {D : Type 0} ⦃dec : Decimal D⦄ where
  abbrev pub IsNonneg : D → Type 0
  IsNonneg x = (x <? dec_zero) ≡ false

  -- Between 0 and 100, both included.
  abbrev pub IsPercent : D → Type 0
  IsPercent x = IsNonneg x × ((literal 100 0 <? x) ≡ false)

module _ (D : Type 0) ⦃dec : Decimal D⦄ where
  literal-IsNonneg : (n : ℕ) → IsNonneg (literal {D = D} n 0)
  literal-IsNonneg n = ground (arith, dec.lt_literal n 0)

  literal_pos : (n : ℕ) → 1 ≤ n → (dec_zero {D = D} <? literal n 0) ≡ true
  literal_pos n h = ground (arith, dec.lt_literal 0 n, lt→ltb 0 n)

  whole-IsPercent : (n : ℕ) → n ≤ 100 → IsPercent (literal {D = D} n 0)
  whole-IsPercent n h = (literal-IsNonneg n, ground (arith, dec.lt_literal 100 n))

module _ {D : Type 0} ⦃dec : Decimal D⦄ where
  take-IsNonneg : (n : ℕ) (xs : List D) → All IsNonneg xs → All IsNonneg (take n xs)
  take-IsNonneg zero xs h = tt
  take-IsNonneg (suc n) [] h = tt
  take-IsNonneg (suc n) (x ∷ xs) h = (h.0, take-IsNonneg n xs h.1)

  drop-IsNonneg : (n : ℕ) (xs : List D) → All IsNonneg xs → All IsNonneg (drop n xs)
  drop-IsNonneg zero xs h = h
  drop-IsNonneg (suc n) [] h = tt
  drop-IsNonneg (suc n) (x ∷ xs) h = drop-IsNonneg n xs h.1

  simple_average-IsNonneg :
      (period : ℕ) (xs : List D)
      → 1 ≤ period
      → All IsNonneg xs
      → IsNonneg (simple_average period xs)
  unfolding simple_average sum
  simple_average-IsNonneg period xs p h =
      dec.div_nonneg _ _
        (sum_from-nonneg (take period xs) dec_zero (dec.lt_irrefl dec_zero)
          (take-IsNonneg period xs h))
        (literal_pos D period p)

  wilder-IsNonneg :
      (period : ℕ) (avg x : D)
      → 1 ≤ period
      → IsNonneg avg
      → IsNonneg x
      → IsNonneg (wilder period avg x)
  unfolding wilder
  wilder-IsNonneg period avg x p h k =
      dec.div_nonneg _ _
        (add_nonneg (avg ⊗ literal (period - 1) 0) x
          (mul_nonneg avg (literal (period - 1) 0) h (literal-IsNonneg D (period - 1))) k)
        (literal_pos D period p)

  true_range-IsNonneg : (high low close : D) → IsNonneg (calculate_true_range high low close)
  unfolding calculate_true_range
  true_range-IsNonneg high low close =
      le_trans dec_zero (abs (low ⊖ close)) _ (abs_nonneg (low ⊖ close))
        (le-max_right _ (abs (low ⊖ close)))

  ranges_from-IsNonneg :
      (highs lows closes : List D) {trs : List D}
      → ranges_from highs lows closes ≡ ok trs
      → All IsNonneg trs
  unfolding ranges_from
  ranges_from-IsNonneg [] lows closes {trs} e = ground arith
  ranges_from-IsNonneg (h ∷ highs) [] closes {trs} e = absurd (ground arith)
  ranges_from-IsNonneg (h ∷ highs) (l ∷ lows) [] {trs} e = absurd (ground arith)
  ranges_from-IsNonneg (h ∷ highs) (l ∷ lows) (c ∷ closes) {trs} e =
      elim (Result-cases (ranges_from highs lows closes)) [
        | inl (x, raised) ↦ absurd (ground arith)
        | inr (rest, went) ↦
            subst (All IsNonneg) {x = calculate_true_range h l c ∷ rest} (ground arith)
              (true_range-IsNonneg h l c, ranges_from-IsNonneg highs lows closes went)
      ]

  atr_after-IsNonneg :
      (period : ℕ) (trs : List D) (atr : D)
      → 1 ≤ period
      → IsNonneg atr
      → All IsNonneg trs
      → IsNonneg (atr_after period atr trs)
  unfolding atr_after
  atr_after-IsNonneg period [] atr p h k = h
  atr_after-IsNonneg period (tr ∷ trs) atr p h k =
      atr_after-IsNonneg period trs (wilder period atr tr) p (wilder-IsNonneg period atr tr p h k.0)
        k.1

  ratio-IsPercent :
      (rs : D) → IsNonneg rs → IsPercent (literal 100 0 ⊖ literal 100 0 ⊘ (literal 1 0 ⊕ rs))
  ratio-IsPercent rs h =
      let one : D = literal 1 0 in
      let hundred : D = literal 100 0 in
      let above : ((one ⊕ rs) <? one) ≡ false =
        ground (arith, add_mono dec_zero rs one h, zero_add one, dec.add_comm rs one) in
      let positive : (dec_zero <? (one ⊕ rs)) ≡ true =
        lt-le_trans dec_zero one (one ⊕ rs) (literal_pos D 1 (omega arith)) above in
      (
        sub_nonneg hundred (hundred ⊘ (one ⊕ rs))
            (dec.div_le hundred (one ⊕ rs) (literal-IsNonneg D 100) above),
        sub_le hundred (hundred ⊘ (one ⊕ rs))
            (dec.div_nonneg hundred (one ⊕ rs) (literal-IsNonneg D 100) positive),
      )

  rsi_from_averages-IsPercent :
      (g l : D) → IsNonneg g → IsNonneg l → IsPercent (rsi_from_averages g l)
  unfolding rsi_from_averages
  rsi_from_averages-IsPercent g l h k = ground (
    arith,
    whole-IsPercent D 50 (omega arith),
    whole-IsPercent D 100 (omega arith),
    ratio-IsPercent (g ⊘ l),
    dec.div_nonneg g l h,
  )

  gain-IsNonneg : (cs : List D) → All IsNonneg (map (λ c. gain c) cs)
  gain-IsNonneg [] = tt
  gain-IsNonneg (c ∷ cs) = (le-max_right c dec_zero, gain-IsNonneg cs)

  loss-IsNonneg : (cs : List D) → All IsNonneg (map (λ c. loss c) cs)
  loss-IsNonneg [] = tt
  loss-IsNonneg (c ∷ cs) = (abs_nonneg (min c dec_zero), loss-IsNonneg cs)

  rsi_after-IsPercent :
      (period : ℕ) (cs : List D) (g l : D)
      → 1 ≤ period
      → IsNonneg g
      → IsNonneg l
      → IsPercent (rsi_after period g l cs)
  unfolding rsi_after
  rsi_after-IsPercent period [] g l p h k = rsi_from_averages-IsPercent g l h k
  rsi_after-IsPercent period (c ∷ cs) g l p h k =
      rsi_after-IsPercent period cs _ _ p
        (wilder-IsNonneg period g (gain c) p h (le-max_right c dec_zero))
        (wilder-IsNonneg period l (loss c) p k (abs_nonneg (min c dec_zero)))

  -- The RSI of any prices lies between 0 and 100, both included.
  pub calculate_rsi_bounds :
      (prices : List D) (period : ℕ) {r : D}
      → 1 ≤ period
      → calculate_rsi prices period ≡ some r
      → ((r <? dec_zero) ≡ false) × ((literal 100 0 <? r) ≡ false)
  unfolding calculate_rsi
  calculate_rsi_bounds prices period {r} p h =
      let cs = changes prices in
      ground (
        arith,
        rsi_after-IsPercent period (drop period cs) (simple_average period (map (λ c. gain c) cs))
            (simple_average period (map (λ c. loss c) cs)) p
            (simple_average-IsNonneg period (map (λ c. gain c) cs) p (gain-IsNonneg cs))
            (simple_average-IsNonneg period (map (λ c. loss c) cs) p (loss-IsNonneg cs)),
      )

  -- The ATR is zero or more, whatever highs, lows and closes it is given.
  pub calculate_atr_bounds :
      (highs lows closes : List D) (period : ℕ) {a : D}
      → 1 ≤ period
      → calculate_atr highs lows closes period ≡ ok (some a)
      → (a <? dec_zero) ≡ false
  unfolding calculate_atr true_ranges
  calculate_atr_bounds highs lows closes period {a} p h =
      elim (Result-cases (ranges_from (drop 1 highs) (drop 1 lows) closes)) [
        | inl (x, raised) ↦ ground arith
        | inr (trs, went) ↦
            let positive = ranges_from-IsNonneg (drop 1 highs) (drop 1 lows) closes went in
            ground (
              arith,
              atr_after-IsNonneg period (drop period trs) (simple_average period trs) p
                  (simple_average-IsNonneg period trs p positive)
                  (drop-IsNonneg period trs positive),
            )
      ]
