-- ===== src/Indicators/Verdicts.antt =====
-- What a trend verdict of `MarketRegimeDetector` rests on, and what the Keltner channel is built
-- around.
use crypto_trading_system.Base.{
  ℕ, ◌≤◌, ◌≡◌, ◌⊎◌, ◌↔◌, refl, false, true, Option-cases, Option, none, some, List, ◌++◌, length,
  length-append, arith, inl, inr, Bool-cases,
}
use crypto_trading_system.Decimal.{Decimal, literal, ◌<?◌, neg, lt_asymm}
use crypto_trading_system.Models.{ok}
use crypto_trading_system.Indicators.Ema.{calculate_ema, simple_average}
use crypto_trading_system.Indicators.Channels.{
  Bands, bands_around, calculate_volatility_regime, calculate_keltner_channels,
}
use crypto_trading_system.Indicators.Regime.{
  MarketRegimeDetector, RegimeInputs, high_volatility, trend_up, trend_down, is_high,
  classify_trend, classify_regime,
}
use crypto_trading_system.Indicators.Shape.{take-append_long}

module _ {D : Type 0} ⦃dec : Decimal D⦄ where
  -- A volatility that is known is not above the threshold, or it is below the low one of 0.3, which
  -- is tested first.
  abbrev pub IsCalm : MarketRegimeDetector D → Option D → Type 0
  IsCalm m none = Unit
  IsCalm m (some v) = ((v <? literal 3 1) ≡ true) ⊎ ((m.high_volatility_threshold <? v) ≡ false)

  -- A volatility that is known, above the threshold and not below the low one.
  abbrev pub IsWild : MarketRegimeDetector D → Option D → Type 0
  IsWild m none = ⊥
  IsWild m (some v) = ((v <? literal 3 1) ≡ false) × ((m.high_volatility_threshold <? v) ≡ true)

  is_high-IsCalm : (m : MarketRegimeDetector D) (v : Option D) → (is_high m v ≡ false) ↔ IsCalm m v
  unfolding is_high calculate_volatility_regime
  is_high-IsCalm m none = (λ h. tt, λ h. refl)
  is_high-IsCalm m (some v) = (
    λ h. elim (Bool-cases (v <? literal 3 1)) [
      | inl small ↦ inl small
      | inr large ↦ inr (ground arith)
    ],
    λ h. elim h [ inl small ↦ ground arith | inr below ↦ ground arith ],
  )

  is_high-IsWild : (m : MarketRegimeDetector D) (v : Option D) → (is_high m v ≡ true) ↔ IsWild m v
  unfolding is_high calculate_volatility_regime
  is_high-IsWild m none = (λ h. cc, λ h. absurd h)
  is_high-IsWild m (some v) = (λ h. ground arith, λ h. ground arith)

  -- Price, medium and long average and slope are known, and the volatility is not too high.
  pub record Evidence (m : MarketRegimeDetector D) (x : RegimeInputs D) : Type 0 where
    pub price : D
    pub ema_50 : D
    pub ema_200 : D
    pub slope : D
    pub price_known : x.current_price ≡ some price
    pub ema_50_known : x.ema_50 ≡ some ema_50
    pub ema_200_known : x.ema_200 ≡ some ema_200
    pub slope_known : x.ema_200_slope ≡ some slope
    pub calm : IsCalm m x.volatility

  -- The values behind a rise: price and medium average above the long average, and a steep slope.
  abbrev pub IsRising : MarketRegimeDetector D → RegimeInputs D → Type 0
  IsRising m x =
      (w : Evidence m x) × ((w.ema_200 <? w.price) ≡ true)
      × ((w.ema_200 <? w.ema_50) ≡ true)
      × ((m.slope_threshold <? w.slope) ≡ true)

  abbrev pub IsFalling : MarketRegimeDetector D → RegimeInputs D → Type 0
  IsFalling m x =
      (w : Evidence m x) × ((w.price <? w.ema_200) ≡ true)
      × ((w.ema_50 <? w.ema_200) ≡ true)
      × ((w.slope <? neg m.slope_threshold) ≡ true)

  high_only :
      (m : MarketRegimeDetector D) (x : RegimeInputs D)
      → (classify_regime m x).0 ≡ high_volatility
      → is_high m x.volatility ≡ true
  unfolding classify_regime classify_trend
  high_only m x h = ground arith

  trend-Evidence :
      (m : MarketRegimeDetector D) (x : RegimeInputs D)
      → (((classify_regime m x).0 ≡ trend_up) → IsRising m x)
        × (((classify_regime m x).0 ≡ trend_down) → IsFalling m x)
  unfolding classify_regime classify_trend
  trend-Evidence m x = elim (Option-cases x.ema_200) [
    | inl none_long ↦ (λ h. absurd (ground arith), λ h. absurd (ground arith))
    | inr (e, long) ↦ elim (Option-cases x.ema_200_slope) [
      | inl none_slope ↦ (λ h. absurd (ground arith), λ h. absurd (ground arith))
      | inr (s, slope) ↦ elim (Option-cases x.current_price) [
        | inl none_price ↦ (λ h. absurd (ground arith), λ h. absurd (ground arith))
        | inr (p, price) ↦ elim (Option-cases x.ema_50) [
          | inl none_medium ↦ (λ h. absurd (ground arith), λ h. absurd (ground arith))
          | inr (q, medium) ↦ elim (Bool-cases (is_high m x.volatility)) [
            | inl wild ↦ (λ h. absurd (ground arith), λ h. absurd (ground arith))
            | inr calm ↦
                let w : Evidence m x = record {
                  price = p;
                  ema_50 = q;
                  ema_200 = e;
                  slope = s;
                  price_known = price;
                  ema_50_known = medium;
                  ema_200_known = long;
                  slope_known = slope;
                  calm = (is_high-IsCalm m x.volatility).0 calm;
                } in
                (
                  λ h. (w, ground arith, ground arith, ground arith),
                  λ h. (w, ground arith, ground arith, ground arith),
                )
          ]
        ]
      ]
    ]
  ]

  -- The verdict is a high volatility exactly if the volatility is known, not low and above its
  -- threshold. It is a rise exactly if it is not that, all values are known, price and medium
  -- average lie above the long average, and its slope above the threshold; and a fall exactly if
  -- they lie below it and the slope below the negative threshold.
  pub classify_regime-Evidence :
      (m : MarketRegimeDetector D) (x : RegimeInputs D)
      → (((classify_regime m x).0 ≡ high_volatility) ↔ IsWild m x.volatility)
        × (((classify_regime m x).0 ≡ trend_up) ↔ IsRising m x)
        × (((classify_regime m x).0 ≡ trend_down) ↔ IsFalling m x)
  unfolding classify_regime classify_trend
  classify_regime-Evidence m x =
      let (up, down) = trend-Evidence m x in
      let (wild, is_wild) = is_high-IsWild m x.volatility in
      (
        (λ h. wild (high_only m x h), λ h. ground (arith, is_wild h)),
        (
          up,
          λ (w, above, medium, steep). ground (
            arith,
            w.price_known,
            w.ema_50_known,
            w.ema_200_known,
            w.slope_known,
            (is_high-IsCalm m x.volatility).1 w.calm,
          ),
        ),
        (
          down,
          λ (w, below, medium, steep). ground (
            arith,
            w.price_known,
            w.ema_50_known,
            w.ema_200_known,
            w.slope_known,
            (is_high-IsCalm m x.volatility).1 w.calm,
            lt_asymm w.price w.ema_200,
          ),
        ),
      )

  -- The middle line of a Keltner channel is the plain average of the oldest closes, as many as the
  -- period has: all closes after them leave it as it is.
  pub calculate_keltner_channels_middle :
      (highs lows closes later : List D) (ema_period atr_period : ℕ) (atr_multiplier : D)
      {b : Bands D}
      → ema_period ≤ length closes
      → calculate_keltner_channels highs lows (closes ++ later) ema_period atr_period atr_multiplier
        ≡ ok (some b)
      → b.middle ≡ simple_average ema_period closes
  unfolding calculate_keltner_channels calculate_ema bands_around simple_average
  calculate_keltner_channels_middle highs lows closes later ema_period atr_period atr_multiplier {b}
        k h =
      ground (arith, length-append closes later, take-append_long ema_period closes later k)
