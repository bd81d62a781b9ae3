-- ===== src/Indicators.antt =====
-- app/indicators/: averages, strength, ranges and volumes of prices, and the market regime.
pub mod Slices
pub mod Ema
pub mod Rsi
pub mod Atr
pub mod Prices
pub mod Volume
pub mod Channels
pub mod Regime
pub mod Shape
pub mod Bounds
pub mod Verdicts
