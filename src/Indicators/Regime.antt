-- ===== src/Indicators/Regime.antt =====
-- `MarketRegimeDetector.detect` of app/indicators/market_regime.py. The historical volatility is an
-- argument; the wording of the reasons is left out.
use crypto_trading_system.Base.{ℕ, Bool, true, false, ◌&&◌, if◌then◌else◌, Option, none, some, List}
use crypto_trading_system.Decimal.{
  Decimal, literal, dec_zero, ◌⊕◌, ◌⊖◌, ◌⊗◌, ◌⊘◌, ◌<?◌, ◌=?◌, neg, min,
}
use crypto_trading_system.Models.{Result, ok, raise}
use crypto_trading_system.Indicators.Slices.{IndexError, last_value}
use crypto_trading_system.Indicators.Ema.{calculate_ema_series, calculate_ema_slope}
use crypto_trading_system.Indicators.Atr.{calculate_atr, calculate_atr_percentage}
use crypto_trading_system.Indicators.Channels.{low, normal, high, calculate_volatility_regime}

pub data MarketRegime : Type 0 where
  unknown trend_up trend_down range high_volatility : MarketRegime

pub record RegimeResult (D : Type 0) : Type 0 where
  pub regime : MarketRegime
  pub confidence : D
  pub ema_20 : Option D
  pub ema_50 : Option D
  pub ema_200 : Option D
  pub atr_percentage : Option D
  pub volatility : Option D

pub record MarketRegimeDetector (D : Type 0) : Type 0 where
  pub ema_short_period : ℕ
  pub ema_medium_period : ℕ
  pub ema_long_period : ℕ
  pub atr_period : ℕ
  pub high_volatility_threshold : D
  pub range_distance_threshold : D
  pub slope_threshold : D

-- The indicators of one candle, before the verdict.
pub record RegimeInputs (D : Type 0) : Type 0 where
  pub current_price : Option D
  pub ema_20 : Option D
  pub ema_50 : Option D
  pub ema_200 : Option D
  pub ema_200_slope : Option D
  pub atr_percentage : Option D
  pub volatility : Option D

module _ {D : Type 0} ⦃dec : Decimal D⦄ where
  -- A list of one value, or `[[x]]` flattened: the EMA at the last candle, if it is known.
  abbrev pub flattened : Option (Option D) → Option D
  flattened none = none
  flattened (some x) = x

  unfoldable pub is_high : MarketRegimeDetector D → Option D → Bool
  unfolding calculate_volatility_regime
  is_high m none = false
  is_high m (some v) =
      elim (calculate_volatility_regime v (literal 3 1) m.high_volatility_threshold) [
        | low ↦ false
        | normal ↦ false
        | high ↦ true
      ]

  -- `a is not None and b is not None and a > c and b > c`
  abbrev pub both_above : Option D → Option D → D → Bool
  both_above (some a) (some b) c = c <? a && c <? b
  both_above (some a) none c = false
  both_above none b c = false

  abbrev pub both_below : Option D → Option D → D → Bool
  both_below (some a) (some b) c = a <? c && b <? c
  both_below (some a) none c = false
  both_below none b c = false

  -- `min(0.9, 0.5 + distance * 10)`
  unfoldable pub trend_confidence : D → D
  trend_confidence distance = min (literal 9 1) (literal 5 1 ⊕ distance ⊗ literal 10 0)

  abbrev pub price_or_zero : Option D → D
  price_or_zero none = dec_zero
  price_or_zero (some p) = p

  -- The verdict where the long average and its slope are known.
  unfoldable pub classify_trend : MarketRegimeDetector D → RegimeInputs D → D → D → MarketRegime × D
  unfolding trend_confidence
  classify_trend m x ema_200 slope =
      let price = price_or_zero x.current_price in
      if both_above x.current_price x.ema_50 ema_200 && m.slope_threshold <? slope
      then (trend_up, trend_confidence ((price ⊖ ema_200) ⊘ ema_200))
      else if both_below x.current_price x.ema_50 ema_200 && slope <? neg m.slope_threshold
      then (trend_down, trend_confidence ((ema_200 ⊖ price) ⊘ ema_200))
      else (range, literal 6 1)

  unfoldable pub classify_regime : MarketRegimeDetector D → RegimeInputs D → MarketRegime × D
  unfolding is_high classify_trend
  classify_regime m x =
      if is_high m x.volatility then (high_volatility, literal 8 1) else elim x.ema_200 [
        | none ↦ (unknown, dec_zero)
        | some ema_200 ↦ elim x.ema_200_slope [
          | none ↦ (unknown, dec_zero)
          | some slope ↦ classify_trend m x ema_200 slope
        ]
      ]

  -- `calculate_atr_percentage`, where there are an average and a price other than zero.
  unfoldable pub known_percentage : Option D → Option D → Option D
  unfolding calculate_atr_percentage
  known_percentage none price = none
  known_percentage (some atr) none = none
  known_percentage (some atr) (some p) =
      if p =? dec_zero then none else some (calculate_atr_percentage atr p)

  unfoldable pub regime_inputs :
      MarketRegimeDetector D → List D → Option D → Option D → RegimeInputs D
  unfolding known_percentage
  regime_inputs m closes atr volatility =
      let long_series = calculate_ema_series closes m.ema_long_period in
      let price = last_value closes in
      record {
        current_price = price;
        ema_20 = flattened (last_value (calculate_ema_series closes m.ema_short_period));
        ema_50 = flattened (last_value (calculate_ema_series closes m.ema_medium_period));
        ema_200 = flattened (last_value long_series);
        ema_200_slope = calculate_ema_slope long_series 10;
        atr_percentage = known_percentage atr price;
        volatility = volatility;
      }

  unfoldable pub detect :
      MarketRegimeDetector D
      → List D
      → List D
      → List D
      → Option D
      → Result IndexError (RegimeResult D)
  unfolding regime_inputs classify_regime
  detect m closes highs lows volatility = elim (calculate_atr highs lows closes m.atr_period) [
    | raise x ↦ raise x
    | ok atr ↦
        (let x = regime_inputs m closes atr volatility in
          let (regime, confidence) = classify_regime m x in
          ok (record {
            regime = regime;
            confidence = confidence;
            ema_20 = x.ema_20;
            ema_50 = x.ema_50;
            ema_200 = x.ema_200;
            atr_percentage = x.atr_percentage;
            volatility = x.volatility;
          }))
  ]
