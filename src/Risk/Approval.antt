-- ===== src/Risk/Approval.antt =====
-- The trades that `check_trade` approves, and its duty to let a position be reduced.
use crypto_trading_system.Base.{
  ◌≡◌, refl, sym, ◌∙◌, Bool, true, false, [], ◌∷◌, arith, inl, inr, ◌⊎◌, ◌↔◌, if◌then◌else◌,
}
use crypto_trading_system.Base.Text.{lower_is}
use crypto_trading_system.Decimal.{
  Decimal, dec_zero, ◌<?◌, ◌=?◌, ◌⊗◌, ◌⊖◌, ◌⊕◌, abs, max, neg, sub_def, sub_lt, sub_negative,
  sub_nonneg, lt_asymm, lt-le_trans,
}
use crypto_trading_system.Risk.Engine.{invalid_trade, low, RiskEngine}
use crypto_trading_system.Risk.Trade.{Trade, reducing, is_invalid, before, after, exposure_increase}
use crypto_trading_system.Risk.Check.{check_trade, guards}
use crypto_trading_system.Risk.Limits.{
  IsOrderly, WithinLimits, failing, guards-WithinLimits, WithinLimits-guards, check_trade_events,
  approved_iff_no_events, no_adjustment,
}

module _ {D : Type 0} ⦃dec : Decimal D⦄ where
  valid-IsOrderly : (t : Trade D) → is_invalid t ≡ false → IsOrderly t
  unfolding is_invalid
  valid-IsOrderly t h = ground arith

  IsOrderly-valid : (t : Trade D) → IsOrderly t → is_invalid t ≡ false
  unfolding is_invalid
  IsOrderly-valid t h = ground arith

  limits_quiet :
      (r : RiskEngine D) (t : Trade D)
      → ((reducing t ≡ true) ⊎ WithinLimits r t)
      → (reducing t ≡ true) ⊎ (failing (guards r t) ≡ [])
  limits_quiet r t (inl h) = inl h
  limits_quiet r t (inr w) = inr (WithinLimits-guards r t w)

  -- A trade is approved exactly if its side and amounts are valid, and it either adds no exposure or
  -- keeps every one of the limits on new exposure.
  pub check_trade_approves :
      (r : RiskEngine D) (t : Trade D)
      → ((check_trade r t).1.approved ≡ true)
        ↔ (IsOrderly t × ((reducing t ≡ true) ⊎ WithinLimits r t))
  check_trade_approves r t = (
    λ h.
        approved_only (is_invalid t) (reducing t)
          (sym (check_trade_events r t) ∙ (approved_iff_no_events r t).0 h) refl refl,
    λ h.
        (approved_iff_no_events r t).1
          (ground (arith, check_trade_events r t, IsOrderly-valid t h.0, limits_quiet r t h.1)),
  )
    where
      approved_only :
          (b c : Bool)
          → (if b then invalid_trade ∷ [] else if c then [] else failing (guards r t)) ≡ []
          → is_invalid t ≡ b
          → reducing t ≡ c
          → IsOrderly t × ((reducing t ≡ true) ⊎ WithinLimits r t)
      approved_only true c h e f = absurd (ground arith)
      approved_only false true h e f = (valid-IsOrderly t e, inl f)
      approved_only false false h e f = (valid-IsOrderly t e, inr (guards-WithinLimits r t h))

  shrinks :
      (b v : D)
      → (dec_zero <? v) ≡ true
      → (b <? v) ≡ false
      → (max (abs (b ⊕ neg v) ⊖ abs b) dec_zero =? dec_zero) ≡ true
  shrinks b v p h = rw (sub_def b v) (
      ground (
        arith,
        sub_lt b v p,
        sub_nonneg b v h,
        lt-le_trans dec_zero v b p h,
        lt_asymm dec_zero b,
        sub_negative (b ⊖ v) b,
        dec.lt_irrefl dec_zero,
      ))

  sell_reduces :
      (t : Trade D)
      → lower_is t.side "buy" ≡ false
      → (dec_zero <? t.quantity ⊗ t.price) ≡ true
      → (before t <? t.quantity ⊗ t.price) ≡ false
      → reducing t ≡ true
  unfolding reducing after exposure_increase
  sell_reduces t s p h = rw s (shrinks (before t) (t.quantity ⊗ t.price) p h)

  reduced_result :
      (r : RiskEngine D) (t : Trade D)
      → is_invalid t ≡ false
      → reducing t ≡ true
      → let result = (check_trade r t).1 in
        (result.approved ≡ true)
        × (result.events ≡ [])
        × (result.reasons ≡ [])
        × (result.risk_level ≡ low)
  unfolding check_trade
  reduced_result r t v h = ground (arith, no_adjustment r.config t)

  -- A valid sell worth no more than the long exposure that the symbol has is approved without a
  -- remark, whatever state the engine is in: an emergency stop never traps a position.
  pub check_trade_lets_reduce :
      (r : RiskEngine D) (t : Trade D)
      → IsOrderly t
      → lower_is t.side "buy" ≡ false
      → (before t <? t.quantity ⊗ t.price) ≡ false
      → let result = (check_trade r t).1 in
        (result.approved ≡ true)
        × (result.events ≡ [])
        × (result.reasons ≡ [])
        × (result.risk_level ≡ low)
  check_trade_lets_reduce r t o s h =
      reduced_result r t (IsOrderly-valid t o) (sell_reduces t s (dec.mul_pos _ _ o.1 o.2) h)
