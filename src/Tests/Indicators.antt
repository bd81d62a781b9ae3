-- ===== src/Tests/Indicators.antt =====
-- The indicators on a few prices.
use crypto_trading_system.Base.{
  ◌≡◌, ◌↔◌, refl, false, none, some, List, [], ◌∷◌, ◌++◌, length, arith,
}
use crypto_trading_system.Base.Int.{ℤ, pos, ◌/ℤ◌, ◌+ℤ◌, ◌*ℤ◌, ◌-ℤ◌}
use crypto_trading_system.Decimal.{literal, dec_zero, ◌<?◌, sum}
use crypto_trading_system.Decimal.Integers.{integers}
use crypto_trading_system.Models.{ok}
use crypto_trading_system.Indicators.Slices.{last_value}
use crypto_trading_system.Indicators.Ema.{calculate_ema, calculate_ema_series}
use crypto_trading_system.Indicators.Rsi.{calculate_rsi, rsi_from_averages}
use crypto_trading_system.Indicators.Atr.{calculate_atr, calculate_atr_series}
use crypto_trading_system.Indicators.Channels.{Bands, calculate_keltner_channels}
use crypto_trading_system.Indicators.Regime.{
  MarketRegimeDetector, RegimeInputs, high_volatility, trend_up, trend_down, classify_regime,
}
use crypto_trading_system.Indicators.Shape.{calculate_ema_series_grows}
use crypto_trading_system.Indicators.Bounds.{calculate_rsi_bounds}
use crypto_trading_system.Indicators.Verdicts.{
  IsWild, IsRising, IsFalling, classify_regime-Evidence,
}

abbrev prices : List ℤ
prices = pos 10 ∷ pos 14 ∷ pos 12 ∷ pos 20 ∷ []

abbrev highs : List ℤ
highs = pos 15 ∷ pos 13 ∷ pos 21 ∷ []

calculate_ema_series_grows_example :
    (ema : ℤ) × (last_value (calculate_ema_series prices 2) ≡ some (some ema))
    × (calculate_ema_series (prices ++ (pos 30 ∷ [])) 2
        ≡ calculate_ema_series prices 2
          ++ (calculate_ema (prices ++ (pos 30 ∷ [])) 2 (some ema) ∷ []))
    × (length (calculate_ema_series prices 2) ≡ length prices)
calculate_ema_series_grows_example =
    calculate_ema_series_grows prices (pos 30) 2 (omega arith) (omega arith)

-- Gains 4, 0, 8 and losses 0, 2, 0.
rsi_of_prices : calculate_rsi prices 1 ≡ some (pos 100)
unfolding calculate_rsi rsi_from_averages ◌/ℤ◌ ◌+ℤ◌ ◌*ℤ◌ sum ◌-ℤ◌
rsi_of_prices = refl

calculate_rsi_bounds_example :
    ((pos 100 <? dec_zero) ≡ false) × ((literal 100 0 <? pos 100) ≡ false)
calculate_rsi_bounds_example = calculate_rsi_bounds prices 1 (omega arith) rsi_of_prices

atr_series_of_prices :
    calculate_atr_series (pos 11 ∷ highs) prices prices 2
    ≡ ok (none ∷ none ∷ some (pos 3) ∷ some (pos 6) ∷ [])
unfolding calculate_atr_series ◌/ℤ◌ sum ◌+ℤ◌ ◌-ℤ◌ ◌*ℤ◌
atr_series_of_prices = refl

abbrev detector : MarketRegimeDetector ℤ
detector = record {
  ema_short_period = 20;
  ema_medium_period = 50;
  ema_long_period = 200;
  atr_period = 14;
  high_volatility_threshold = pos 8;
  range_distance_threshold = pos 2;
  slope_threshold = pos 1;
}

abbrev rising : RegimeInputs ℤ
rising = record {
  current_price = some (pos 120);
  ema_20 = some (pos 115);
  ema_50 = some (pos 110);
  ema_200 = some (pos 100);
  ema_200_slope = some (pos 3);
  atr_percentage = none;
  volatility = some (pos 4);
}

classify_regime-Evidence_example :
    (((classify_regime detector rising).0 ≡ high_volatility) ↔ IsWild detector rising.volatility)
    × (((classify_regime detector rising).0 ≡ trend_up) ↔ IsRising detector rising)
    × (((classify_regime detector rising).0 ≡ trend_down) ↔ IsFalling detector rising)
classify_regime-Evidence_example = classify_regime-Evidence detector rising

abbrev channel : Bands ℤ
channel = record { upper = pos 18; middle = pos 12; lower = pos 6 }

channel_of_prices :
    calculate_keltner_channels
      (pos 11 ∷ highs)
      prices
      ((pos 10 ∷ pos 14 ∷ []) ++ (pos 12 ∷ pos 20 ∷ []))
      2
      2
      (pos 1)
    ≡ ok (some channel)
unfolding calculate_keltner_channels calculate_ema calculate_atr ◌+ℤ◌ ◌/ℤ◌ ◌-ℤ◌ sum ◌*ℤ◌
channel_of_prices = refl
