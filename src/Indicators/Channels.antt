-- ===== src/Indicators/Channels.antt =====
-- app/indicators/volatility.py: bands, channels and the regime of a volatility. The historical
-- volatility is computed in binary floating point and is a value that its users are given; the
-- square root, which is too, is an argument.
use crypto_trading_system.Base.{ℕ, ltb, if◌then◌else◌, Option, none, some, List, length, map}
use crypto_trading_system.Decimal.{Decimal, literal, ◌⊕◌, ◌⊖◌, ◌⊗◌, ◌⊘◌, ◌<?◌, sum}
use crypto_trading_system.Models.{Result, ok, raise}
use crypto_trading_system.Indicators.Slices.{IndexError, last_slice}
use crypto_trading_system.Indicators.Ema.{calculate_ema}
use crypto_trading_system.Indicators.Atr.{calculate_atr}
use crypto_trading_system.Indicators.Volume.{latest_average}

pub data VolatilityRegime : Type 0 where
  low normal high : VolatilityRegime

pub record Bands (D : Type 0) : Type 0 where
  pub upper : D
  pub middle : D
  pub lower : D

-- `max(a, b)` of two periods
abbrev pub longer : ℕ → ℕ → ℕ
longer a b = if ltb a b then b else a

module _ {D : Type 0} ⦃dec : Decimal D⦄ where
  unfoldable pub calculate_volatility_regime : D → D → D → VolatilityRegime
  calculate_volatility_regime volatility low_threshold high_threshold =
      if volatility <? low_threshold
      then low
      else if high_threshold <? volatility
      then high
      else normal

  abbrev pub square : D → D
  square x = x ⊗ x

  unfoldable pub bands_around : D → D → Bands D
  bands_around middle width = record {
    upper = middle ⊕ width;
    middle = middle;
    lower = middle ⊖ width;
  }

  unfoldable pub calculate_bollinger_bands : (D → D) → List D → ℕ → D → Option (Bands D)
  unfolding bands_around latest_average
  calculate_bollinger_bands root closes period std_dev_multiplier =
      if ltb (length closes) period
      then none
      else (let sma = latest_average period closes in
          let variance =
            sum (map (λ c. square (c ⊖ sma)) (last_slice period closes)) ⊘ literal period 0 in
          some (bands_around sma (root variance ⊗ std_dev_multiplier)))

  unfoldable pub calculate_keltner_channels :
      List D → List D → List D → ℕ → ℕ → D → Result IndexError (Option (Bands D))
  unfolding bands_around
  calculate_keltner_channels highs lows closes ema_period atr_period atr_multiplier =
      if ltb (length closes) (longer ema_period atr_period)
      then ok none
      else elim (calculate_ema closes ema_period none) [
        | none ↦ ok none
        | some ema ↦ elim (calculate_atr highs lows closes atr_period) [
          | raise x ↦ raise x
          | ok none ↦ ok none
          | ok (some atr) ↦ ok (some (bands_around ema (atr ⊗ atr_multiplier)))
        ]
      ]
