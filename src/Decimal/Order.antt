-- ===== src/Decimal/Order.antt =====
-- The order of decimals, as the tests of the code see it.
use crypto_trading_system.Base.{◌≡◌, true, false, arith}
use crypto_trading_system.Decimal.Ops.{Decimal, dec_zero, ◌⊕◌, ◌⊖◌, ◌<?◌, abs, max}

module _ {D : Type 0} ⦃dec : Decimal D⦄ where
  pub lt_asymm : (a b : D) → (a <? b) ≡ true → (b <? a) ≡ false
  lt_asymm a b h = ground (arith, dec.lt_trans a b a, dec.lt_irrefl a)

  pub lt-le_trans : (a b c : D) → (a <? b) ≡ true → (c <? b) ≡ false → (a <? c) ≡ true
  lt-le_trans a b c h k = ground (
    arith,
    dec.lt_trans a b c,
    dec.lt_trans b c a,
    dec.lt_connected b c,
    dec.lt_connected a c,
    dec.lt_trans c a b,
  )

  pub le-lt_trans : (a b c : D) → (b <? a) ≡ false → (b <? c) ≡ true → (a <? c) ≡ true
  le-lt_trans a b c h k = ground (arith, dec.lt_trans a b c, dec.lt_connected a b)

  pub le_trans : (a b c : D) → (b <? a) ≡ false → (c <? b) ≡ false → (c <? a) ≡ false
  le_trans a b c h k = ground (arith, le-lt_trans c b a, lt-le_trans c a b)

  pub le-max_left : (a b : D) → (max a b <? a) ≡ false
  le-max_left a b = ground (arith, dec.lt_irrefl a, lt_asymm a b)

  pub le-max_right : (a b : D) → (max a b <? b) ≡ false
  le-max_right a b = ground (arith, dec.lt_irrefl b, lt_asymm a b)

  pub add_cancel : (a b c : D) → a ⊕ c ≡ b ⊕ c → a ≡ b
  add_cancel a b c h =
      ground
        (arith, dec.lt_connected a b, dec.lt_add a b c, dec.lt_add b a c, dec.lt_irrefl (a ⊕ c))

  pub sub-add_self : (a b : D) → (a ⊕ b) ⊖ b ≡ a
  sub-add_self a b = add_cancel _ _ b (dec.sub_add (a ⊕ b) b)

  -- Subtraction has the sign of the comparison.
  pub sub_nonneg : (a b : D) → (a <? b) ≡ false → ((a ⊖ b) <? dec_zero) ≡ false
  sub_nonneg a b h = ground (
    arith,
    dec.lt_add (a ⊖ b) dec_zero b,
    dec.sub_add a b,
    dec.add_comm dec_zero b,
    dec.add_zero b,
  )

  pub add_nonneg :
      (a b : D) → (a <? dec_zero) ≡ false → (b <? dec_zero) ≡ false → ((a ⊕ b) <? dec_zero) ≡ false
  add_nonneg a b h k = ground (
    arith,
    dec.lt_add dec_zero b a,
    dec.lt_connected dec_zero b,
    dec.add_comm a b,
    dec.add_comm a dec_zero,
    dec.add_zero a,
    dec.lt_trans (dec_zero ⊕ a) (b ⊕ a) dec_zero,
  )

  pub add_mono : (a b c : D) → (b <? a) ≡ false → ((b ⊕ c) <? (a ⊕ c)) ≡ false
  add_mono a b c h = ground (
    arith,
    dec.lt_add a b c,
    dec.lt_connected a b,
    dec.lt_irrefl (a ⊕ c),
    lt_asymm (a ⊕ c) (b ⊕ c),
  )

  pub abs_nonneg : (a : D) → (abs a <? dec_zero) ≡ false
  abs_nonneg a = ground (arith, sub_nonneg dec_zero a, lt_asymm a dec_zero)

  pub zero_add : (a : D) → dec_zero ⊕ a ≡ a
  zero_add a = ground (arith, dec.add_comm dec_zero a, dec.add_zero a)

  -- Subtraction is negative below.
  pub sub_negative : (a b : D) → (a <? b) ≡ true → ((a ⊖ b) <? dec_zero) ≡ true
  sub_negative a b h = ground (arith, add_mono dec_zero (a ⊖ b) b, dec.sub_add a b, zero_add b)

  pub add-neg : (a b : D) → (a ⊕ (dec_zero ⊖ b)) ⊕ b ≡ a
  add-neg a b =
      ground (arith, dec.add_assoc a (dec_zero ⊖ b) b, dec.sub_add dec_zero b, dec.add_zero a)

  pub sub_def : (a b : D) → a ⊕ (dec_zero ⊖ b) ≡ a ⊖ b
  sub_def a b = add_cancel _ _ b (ground (arith, add-neg a b, dec.sub_add a b))

  pub sub_lt : (a b : D) → (dec_zero <? b) ≡ true → ((a ⊖ b) <? a) ≡ true
  sub_lt a b h = ground (
    arith,
    dec.lt_add dec_zero b (a ⊖ b),
    zero_add (a ⊖ b),
    dec.add_comm b (a ⊖ b),
    dec.sub_add a b,
  )
