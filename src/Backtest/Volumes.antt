-- ===== src/Backtest/Volumes.antt =====
-- `BacktestEngine._average_completed_volume`: the volume that the slippage model may know.
use crypto_trading_system.Base.{
  ℕ, zero, suc, String, ◌=ₛ◌, if◌then◌else◌, Option, none, some, List, [], ◌∷◌, length, take,
  reverse,
}
use crypto_trading_system.Decimal.{Decimal, literal, dec_zero, ◌⊘◌, ◌≤?◌, sum}
use crypto_trading_system.Models.{Result, ok, raise}
use crypto_trading_system.Backtest.Signals.{Bar, BacktestError, lookback_not_positive}

module _ {D : Type 0} ⦃dec : Decimal D⦄ where
  unfoldable pub mean_volume : List D → Option D
  mean_volume [] = none
  mean_volume (v ∷ vs) = some (sum (v ∷ vs) ⊘ literal (length (v ∷ vs)) 0)

module _ {D : Type 0} ⦃dec : Decimal D⦄ {I : Type 0} where
  -- The volumes above zero of one symbol, the newest candle first, at most `lookback` of them.
  unfoldable pub completed_volumes : String → ℕ → List (Bar D I) → List D
  completed_volumes symbol zero candles = []
  completed_volumes symbol (suc lookback) [] = []
  completed_volumes symbol (suc lookback) (c ∷ candles) =
      let skipped = completed_volumes symbol (suc lookback) candles in
      if c.symbol =ₛ symbol
      then elim c.volume [
        | none ↦ skipped
        | some v ↦ if v ≤? dec_zero then skipped else v ∷ completed_volumes symbol lookback candles
      ]
      else skipped

  unfoldable pub average_completed_volume :
      List (Bar D I) → ℕ → String → ℕ → Result BacktestError (Option D)
  unfolding completed_volumes mean_volume
  average_completed_volume candles index symbol zero = raise lookback_not_positive
  average_completed_volume candles index symbol (suc lookback) =
      ok (mean_volume (completed_volumes symbol (suc lookback) (reverse (take index candles))))

  -- The call with the default lookback of 20, which never raises.
  unfoldable pub recent_volume : List (Bar D I) → ℕ → String → Option D
  unfolding average_completed_volume
  recent_volume candles index symbol = elim (average_completed_volume candles index symbol 20) [
    | raise _ ↦ none
    | ok v ↦ v
  ]
