-- ===== src/Strategies/Entries.antt =====
-- The entries that `BreakoutRetestStrategy` makes over a row of candles, from its first call on.
use crypto_trading_system.Base.{ℕ, ◌≡◌, sym, subst, Bool, false, Option, none, some, List, [], ◌∷◌}
use crypto_trading_system.Decimal.{Decimal}
use crypto_trading_system.Models.{ok}
use crypto_trading_system.Backtest.Signals.{Bar}
use crypto_trading_system.Strategies.Dca.{Readings}
use crypto_trading_system.Strategies.Retest.{
  RetestConfig, idle, Breakout, SymbolState, new_symbol_state, enter_step,
}
use crypto_trading_system.Strategies.Levels.{
  IsLater, IsSeen, IsRetest, enter_step-IsSeen, enter_step_entry,
}

module _ {D : Type 0} ⦃dec : Decimal D⦄ where
  -- The setup after a row of calls: each with its candle, its readings and whether there is a position.
  unfoldable pub after_calls :
      RetestConfig D → List (Bar D (Readings D) × Readings D × Bool) → SymbolState D → SymbolState D
  after_calls config [] y = y
  after_calls config ((c, x, has_position) ∷ calls) y =
      after_calls config calls (enter_step config c x has_position y).0

  -- Each candle of the row, and then the candle `last`, opens after the one before it.
  abbrev pub IsAscending :
      Option ℕ → List (Bar D (Readings D) × Readings D × Bool) → Bar D (Readings D) → Type 0
  IsAscending seen [] last = IsLater last seen
  IsAscending seen ((c, x, has_position) ∷ calls) last =
      IsLater c seen × IsAscending (some c.open_time) calls last

  after_calls-IsSeen :
      (config : RetestConfig D) (calls : List (Bar D (Readings D) × Readings D × Bool))
      (last : Bar D (Readings D)) (y : SymbolState D)
      → IsAscending y.last_observed_time calls last
      → IsSeen y.last_observed_time y.breakout
      → let y' = after_calls config calls y in
        IsLater last y'.last_observed_time × IsSeen y'.last_observed_time y'.breakout
  unfolding after_calls
  after_calls-IsSeen config [] last y later seen = (later, seen)
  after_calls-IsSeen config ((c, x, has_position) ∷ calls) last y later seen =
      let y' = (enter_step config c x has_position y).0 in
      let (kept, time) = enter_step-IsSeen config c x has_position y later.0 seen in
      after_calls-IsSeen config calls last y'
        (subst (λ t. IsAscending t calls last) (sym time) later.1) kept

  -- From a new setup, whatever the calls on a row of candles in ascending order were: an entry on the
  -- next candle is only made without a position, from a setup that was armed on an earlier candle and
  -- is not yet out of time, on a candle that dips to the breakout's level and closes at or above it, in
  -- no falling regime and no high volatility; after it the setup is idle.
  pub after_calls-enter_step :
      (config : RetestConfig D) (calls : List (Bar D (Readings D) × Readings D × Bool))
      (c : Bar D (Readings D)) (x : Readings D) (has_position : Bool) {b : Breakout D}
      → IsAscending none calls c
      → (enter_step config c x has_position (after_calls config calls new_symbol_state)).1
        ≡ ok (some b)
      → let y = after_calls config calls new_symbol_state in
        IsRetest config c x y b
        × (has_position ≡ false)
        × ((enter_step config c x has_position y).0.phase ≡ idle)
  after_calls-enter_step config calls c x has_position ascending entered =
      let y = after_calls config calls new_symbol_state in
      let (later, seen) = after_calls-IsSeen config calls c new_symbol_state ascending tt in
      enter_step_entry config c x has_position y later seen entered
