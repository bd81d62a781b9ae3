-- ===== src/Indicators/Shape.antt =====
-- The series of the indicators: one value per candle, the last of them the single value.
use crypto_trading_system.Base.{
  ℕ, zero, suc, ◌+◌, ◌-◌, ◌≤◌, ◌≡◌, refl, ap, false, Bool-cases, Option, none, some, List, [], ◌∷◌,
  ◌++◌, length, length-append, append_assoc, take, map, arith, inl, inr,
}
use crypto_trading_system.Decimal.{Decimal}
use crypto_trading_system.Models.{ok, Result-cases}
use crypto_trading_system.Indicators.Slices.{
  drop, last_value, blanks, length-replicate, length-drop, last_value-append,
}
use crypto_trading_system.Indicators.Ema.{
  calculate_ema, calculate_ema_series, ema_from, next_ema, simple_average,
}
use crypto_trading_system.Indicators.Rsi.{
  rsi_from_averages, changes, gain, loss, wilder, rsi_after, rsi_from, calculate_rsi,
  calculate_rsi_series,
}
use crypto_trading_system.Indicators.Atr.{
  true_ranges, ranges_from, too_short, atr_after, atr_from, calculate_atr, calculate_atr_series,
}

module _ {D : Type 0} ⦃dec : Decimal D⦄ where
  length-ema_from :
      (period : ℕ) (ema : D) (prices : List D) → length (ema_from period ema prices) ≡ length prices
  unfolding ema_from
  length-ema_from period ema [] = refl
  length-ema_from period ema (p ∷ prices) =
      ap suc (length-ema_from period (next_ema period ema p) prices)

  length-rsi_from :
      (period : ℕ) (cs : List D) (g l : D) → length (rsi_from period g l cs) ≡ length cs
  unfolding rsi_from
  length-rsi_from period [] g l = refl
  length-rsi_from period (c ∷ cs) g l = ap suc (length-rsi_from period cs _ _)

  length-atr_from :
      (period : ℕ) (atr : D) (trs : List D) → length (atr_from period atr trs) ≡ length trs
  unfolding atr_from
  length-atr_from period atr [] = refl
  length-atr_from period atr (tr ∷ trs) = ap suc (length-atr_from period (wilder period atr tr) trs)

  length-changes : (prices : List D) → length (changes prices) ≡ length prices - 1
  unfolding changes
  length-changes [] = refl
  length-changes (p ∷ []) = refl
  length-changes (p ∷ q ∷ prices) = omega (arith, length-changes (q ∷ prices))

  length-ranges_from :
      (highs lows closes : List D) {trs : List D}
      → ranges_from highs lows closes ≡ ok trs
      → length trs ≡ length highs
  unfolding ranges_from
  length-ranges_from [] lows closes h = ground arith
  length-ranges_from (x ∷ highs) [] closes h = ground arith
  length-ranges_from (x ∷ highs) (l ∷ lows) [] h = ground arith
  length-ranges_from (x ∷ highs) (l ∷ lows) (c ∷ closes) h =
      elim (Result-cases (ranges_from highs lows closes)) [
        | inl (e, raised) ↦ ground arith
        | inr (rest, went) ↦ ground (arith, length-ranges_from highs lows closes went)
      ]

  length-filled :
      (n : ℕ) (x : Option D) (rest : List (Option D))
      → length (blanks n ++ (x ∷ rest)) ≡ n + suc (length rest)
  length-filled n x rest =
      omega
        (arith, length-append (blanks {A = D} n) (x ∷ rest), length-replicate {A = Option D} n none)

  length-calculate_ema_series :
      (prices : List D) (period : ℕ)
      → 1 ≤ period
      → length (calculate_ema_series prices period) ≡ length prices
  unfolding calculate_ema_series
  length-calculate_ema_series prices period h =
      let ema = simple_average period prices in
      ground (
        arith,
        length-replicate {A = Option D} (length prices) none,
        length-filled (period - 1) (some ema) (ema_from period ema (drop period prices)),
        length-ema_from period ema (drop period prices),
        length-drop period prices,
      )

  length-calculate_rsi_series :
      (prices : List D) (period : ℕ) → length (calculate_rsi_series prices period) ≡ length prices
  unfolding calculate_rsi_series
  length-calculate_rsi_series prices period =
      let cs = changes prices in
      let g = simple_average period (map (λ c. gain c) cs) in
      let l = simple_average period (map (λ c. loss c) cs) in
      ground (
        arith,
        length-replicate {A = Option D} (length prices) none,
        length-filled period (some (rsi_from_averages g l)) (rsi_from period g l (drop period cs)),
        length-rsi_from period (drop period cs) g l,
        length-drop period cs,
        length-changes prices,
      )

  last-rsi_from :
      (period : ℕ) (cs : List D) (g l : D)
      → last_value (some (rsi_from_averages g l) ∷ rsi_from period g l cs)
        ≡ some (some (rsi_after period g l cs))
  unfolding rsi_from rsi_after
  last-rsi_from period [] g l = refl
  last-rsi_from period (c ∷ cs) g l =
      last-rsi_from period cs (wilder period g (gain c)) (wilder period l (loss c))

  last-atr_from :
      (period : ℕ) (trs : List D) (atr : D)
      → last_value (some atr ∷ atr_from period atr trs) ≡ some (some (atr_after period atr trs))
  unfolding atr_from atr_after
  last-atr_from period [] atr = refl
  last-atr_from period (tr ∷ trs) atr = last-atr_from period trs (wilder period atr tr)

  last-blanks : (n : ℕ) → last_value (blanks {A = D} (suc n)) ≡ some none
  last-blanks zero = refl
  last-blanks (suc n) = last-blanks n

  -- The RSI series has one value per price, and its last value is the single RSI of the same prices.
  pub calculate_rsi_series_end :
      (price : D) (prices : List D) (period : ℕ)
      → let s = calculate_rsi_series (price ∷ prices) period in
        (length s ≡ length (price ∷ prices))
        × (last_value s ≡ some (calculate_rsi (price ∷ prices) period))
  unfolding calculate_rsi_series calculate_rsi
  calculate_rsi_series_end price prices period =
      let cs = changes (price ∷ prices) in
      let g = simple_average period (map (λ c. gain c) cs) in
      let l = simple_average period (map (λ c. loss c) cs) in
      (
        length-calculate_rsi_series (price ∷ prices) period,
        ground (
          arith,
          last-blanks (length prices),
          last_value-append (blanks period) (some (rsi_from_averages g l))
              (rsi_from period g l (drop period cs)),
          last-rsi_from period (drop period cs) g l,
        ),
      )

  length-true_ranges :
      (high : D) (highs lows closes : List D) {trs : List D}
      → true_ranges (high ∷ highs) lows closes ≡ ok trs
      → length trs ≡ length highs
  unfolding true_ranges
  length-true_ranges high highs lows closes h = length-ranges_from highs (drop 1 lows) closes h

  long_enough :
      (high : D) (highs lows closes : List D) (period : ℕ)
      → too_short (high ∷ highs) lows closes period ≡ false
      → period ≤ length highs
  unfolding too_short
  long_enough high highs lows closes period h = ground arith

  -- Whenever the ATR series is returned, so is the single ATR; the series has one value per high,
  -- and its last value is that ATR.
  pub calculate_atr_series_end :
      (high : D) (highs lows closes : List D) (period : ℕ) {s : List (Option D)}
      → calculate_atr_series (high ∷ highs) lows closes period ≡ ok s
      → (a : Option D) × (calculate_atr (high ∷ highs) lows closes period ≡ ok a)
        × (last_value s ≡ some a)
        × (length s ≡ length (high ∷ highs))
  unfolding calculate_atr_series calculate_atr
  calculate_atr_series_end high highs lows closes period {s} h =
      elim (Bool-cases (too_short (high ∷ highs) lows closes period)) [
        | inl short ↦ (
          none,
          ground arith,
          ground (arith, last-blanks (length highs)),
          ground (arith, length-replicate {A = Option D} (suc (length highs)) none),
        )
        | inr long ↦ elim (Result-cases (true_ranges (high ∷ highs) lows closes)) [
          | inl (x, raised) ↦ absurd (ground arith)
          | inr (trs, went) ↦
              let atr = simple_average period trs in
              let rest = drop period trs in
              (
                some (atr_after period atr rest),
                ground arith,
                ground (
                  arith,
                  last_value-append (blanks period) (some atr) (atr_from period atr rest),
                  last-atr_from period rest atr,
                ),
                ground (
                  arith,
                  length-filled period (some atr) (atr_from period atr rest),
                  length-atr_from period atr rest,
                  length-drop period trs,
                  length-true_ranges high highs lows closes went,
                  long_enough high highs lows closes period long,
                ),
              )
        ]
      ]

  unfoldable last_ema : ℕ → D → List D → D
  last_ema period ema [] = ema
  last_ema period ema (p ∷ prices) = last_ema period (next_ema period ema p) prices

  ema_from-append :
      (period : ℕ) (prices : List D) (ema p : D)
      → ema_from period ema (prices ++ (p ∷ []))
        ≡ ema_from period ema prices ++ (some (next_ema period (last_ema period ema prices) p) ∷ [])
  unfolding ema_from last_ema
  ema_from-append period [] ema p = refl
  ema_from-append period (q ∷ prices) ema p =
      ap (λ r. some (next_ema period ema q) ∷ r)
        (ema_from-append period prices (next_ema period ema q) p)

  last-ema_from :
      (period : ℕ) (prices : List D) (ema : D)
      → last_value (some ema ∷ ema_from period ema prices)
        ≡ some (some (last_ema period ema prices))
  unfolding ema_from last_ema
  last-ema_from period [] ema = refl
  last-ema_from period (p ∷ prices) ema = last-ema_from period prices (next_ema period ema p)

  pub take-append_long : (n : ℕ) (xs ys : List D) → n ≤ length xs → take n (xs ++ ys) ≡ take n xs
  take-append_long zero xs ys h = refl
  take-append_long (suc n) [] ys h = absurd (omega (arith, h))
  take-append_long (suc n) (x ∷ xs) ys h =
      ap (λ r. x ∷ r) (take-append_long n xs ys (omega (arith, h)))

  drop-append : (n : ℕ) (xs ys : List D) → n ≤ length xs → drop n (xs ++ ys) ≡ drop n xs ++ ys
  drop-append zero xs ys h = refl
  drop-append (suc n) [] ys h = absurd (omega (arith, h))
  drop-append (suc n) (x ∷ xs) ys h = drop-append n xs ys (omega (arith, h))

  last_value-last : (xs : List D) (p : D) → last_value (xs ++ (p ∷ [])) ≡ some p
  last_value-last xs p = last_value-append xs p []

  -- A further price adds one value to the EMA series and changes none: the value that
  -- `calculate_ema` gives for it from the last value of the series so far.
  pub calculate_ema_series_grows :
      (prices : List D) (p : D) (period : ℕ)
      → 1 ≤ period
      → period ≤ length prices
      → (ema : D) × (last_value (calculate_ema_series prices period) ≡ some (some ema))
        × (calculate_ema_series (prices ++ (p ∷ [])) period
            ≡ calculate_ema_series prices period
              ++ (calculate_ema (prices ++ (p ∷ [])) period (some ema) ∷ []))
        × (length (calculate_ema_series prices period) ≡ length prices)
  unfolding calculate_ema_series calculate_ema simple_average
  calculate_ema_series_grows prices p period h k =
      let ema = simple_average period prices in
      let rest = drop period prices in
      (
        last_ema period ema rest,
        ground (
          arith,
          last_value-append (blanks (period - 1)) (some ema) (ema_from period ema rest),
          last-ema_from period rest ema,
        ),
        ground (
          arith,
          length-append prices (p ∷ []),
          take-append_long period prices (p ∷ []) k,
          drop-append period prices (p ∷ []) k,
          ema_from-append period rest ema p,
          last_value-last prices p,
          append_assoc (blanks {A = D} (period - 1)) (some ema ∷ ema_from period ema rest)
              (some (next_ema period (last_ema period ema rest) p) ∷ []),
        ),
        length-calculate_ema_series prices period h,
      )
