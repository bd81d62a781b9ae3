-- ===== src/Strategies/Safety.antt =====
-- The safety orders of `TrendDCAStrategy`, and the levels that their fills reach.
use crypto_trading_system.Base.{
  ℕ, zero, suc, ◌<◌, String, eq_refl, ◌≡◌, true, false, some, arith, inl, inr, Option-cases,
  get_or_else,
}
use crypto_trading_system.Base.Dict.{lookup, lookup-insert}
use crypto_trading_system.Decimal.{Decimal, ◌<?◌, ◌⊖◌, ◌⊘◌}
use crypto_trading_system.Backtest.Signals.{Bar, Signal, signal, one, Fill, PositionView}
use crypto_trading_system.Strategies.Dca.{
  Readings, DcaConfig, DcaState, is_trend_up, safety_order, made_signal, dca_should_add,
  dca_on_fill,
}

module _ {D : Type 0} ⦃dec : Decimal D⦄ where
  safety_order_below :
      (config : DcaConfig D) (level : ℕ) {order : D × D × String}
      → safety_order config level ≡ some order
      → level < 3
  unfolding safety_order
  safety_order_below config zero h = omega arith
  safety_order_below config (suc zero) h = omega arith
  safety_order_below config (suc (suc zero)) h = omega arith
  safety_order_below config (suc (suc (suc n))) h = absurd (ground arith)

  -- A safety order is only proposed in a rising regime and after fewer than three of them, for a
  -- price below the entry by at least the threshold of its level; and its fill raises the level of
  -- the symbol by one, never above three.
  pub dca_should_add_level :
      (name : String) (uuid : ℕ → String) (config : DcaConfig D) (c : Bar D (Readings D))
      (x : Readings D) (p : PositionView D) (s : DcaState D) (f : Fill D) {g : Signal D}
      → (dca_should_add name uuid config c x p s).1 ≡ one (signal g)
      → let level = get_or_else (lookup c.symbol s.dca_levels) zero in
        (is_trend_up x.regime ≡ true)
        × ((order : D × D × String) × (safety_order config level ≡ some order)
            × (((p.entry_price ⊖ c.close) ⊘ p.entry_price <? order.0) ≡ false))
        × (level < 3)
        × (lookup c.symbol (dca_on_fill g f s).dca_levels ≡ some (suc level))
  unfolding dca_should_add made_signal dca_on_fill
  dca_should_add_level name uuid config c x p s f {g} h =
      let level = get_or_else (lookup c.symbol s.dca_levels) zero in
      elim (Option-cases (safety_order config level)) [
        | inl done ↦ absurd (ground arith)
        | inr (order, found) ↦ (
          ground arith,
          (order, found, ground arith),
          safety_order_below config level found,
          ground
              (arith, lookup-insert c.symbol c.symbol (suc level) s.dca_levels, eq_refl c.symbol),
        )
      ]
