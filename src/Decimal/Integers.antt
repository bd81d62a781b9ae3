-- ===== src/Decimal/Integers.antt =====
-- The integers as decimals: a concrete arithmetic that satisfies every law of the interface.
use crypto_trading_system.Base.{ℕ, zero, suc, ◌+◌, ◌*◌, ap, ◌≡◌, ◌/◌, ◌^◌, true, false, arith, ltb}
use crypto_trading_system.Base.Int.{
  ℤ, pos, negsuc, pos_part, neg_part, ◌+ℤ◌, ◌-ℤ◌, ◌*ℤ◌, ◌/ℤ◌, ltb_ℤ, int_laws, +ℤ_parts, +ℤ_comm,
  +ℤ_assoc,
}
use native.Mathlib.Nat.{div-le_self}
use crypto_trading_system.Decimal.Ops.{Decimal}

pub lt_trans : (a b c : ℤ) → ltb_ℤ a b ≡ true → ltb_ℤ b c ≡ true → ltb_ℤ a c ≡ true
lt_trans a b c h k = ground arith

pub lt_connected : (a b : ℤ) → ltb_ℤ a b ≡ false → ltb_ℤ b a ≡ false → a ≡ b
lt_connected a b h k = ground arith

pub add_zero : (a : ℤ) → a +ℤ pos 0 ≡ a
add_zero a = omega int_laws

pub sub_add : (a b : ℤ) → (a -ℤ b) +ℤ b ≡ a
sub_add a b = omega int_laws

pub mul_comm : (a b : ℤ) → a *ℤ b ≡ b *ℤ a
unfolding ◌*ℤ◌
mul_comm a b = ground arith

*ℤ_parts :
    (a b : ℤ)
    → pos_part (a *ℤ b) + (pos_part a * neg_part b + neg_part a * pos_part b)
      ≡ neg_part (a *ℤ b) + (pos_part a * pos_part b + neg_part a * neg_part b)
unfolding ◌*ℤ◌
*ℤ_parts a b = ground arith

pub mul_add : (a b c : ℤ) → a *ℤ (b +ℤ c) ≡ (a *ℤ b) +ℤ (a *ℤ c)
mul_add a b c = omega (
  int_laws,
  *ℤ_parts,
  ap (λ (t : ℕ). pos_part a * t) (+ℤ_parts b c),
  ap (λ (t : ℕ). neg_part a * t) (+ℤ_parts b c),
)

pub lt_add : (a b c : ℤ) → ltb_ℤ a b ≡ true → ltb_ℤ (a +ℤ c) (b +ℤ c) ≡ true
unfolding ◌+ℤ◌
lt_add a b c h = ground arith

pub mul_pos :
    (a b : ℤ) → ltb_ℤ (pos 0) a ≡ true → ltb_ℤ (pos 0) b ≡ true → ltb_ℤ (pos 0) (a *ℤ b) ≡ true
unfolding ◌*ℤ◌
mul_pos (pos zero) b h k = ground arith
mul_pos (negsuc m) b h k = ground arith
mul_pos (pos (suc m)) (pos zero) h k = ground arith
mul_pos (pos (suc m)) (negsuc n) h k = ground arith
mul_pos (pos (suc m)) (pos (suc n)) h k = grind arith

pub div_nonneg :
    (a b : ℤ) → ltb_ℤ a (pos 0) ≡ false → ltb_ℤ (pos 0) b ≡ true → ltb_ℤ (a /ℤ b) (pos 0) ≡ false
unfolding ◌/ℤ◌
div_nonneg a (pos n) h k = ground arith
div_nonneg a (negsuc n) h k = ground arith

pub div_le :
    (a b : ℤ) → ltb_ℤ a (pos 0) ≡ false → ltb_ℤ b (pos 1) ≡ false → ltb_ℤ a (a /ℤ b) ≡ false
unfolding ◌/ℤ◌
div_le (pos a) (pos n) h k = ground (arith, div-le_self a n)
div_le (negsuc a) (pos n) h k = ground arith
div_le a (negsuc n) h k = ground arith

pub lt_irrefl : (a : ℤ) → ltb_ℤ a a ≡ false
lt_irrefl a = ground arith

pub lt_literal : (m n : ℕ) → ltb_ℤ (pos (m / 10 ^ 0)) (pos (n / 10 ^ 0)) ≡ ltb m n
lt_literal m n = ground arith

instance abbrev pub integers : Decimal ℤ
integers = record {
  literal = λ m n. pos (m / 10 ^ n);
  add = ◌+ℤ◌;
  sub = ◌-ℤ◌;
  mul = ◌*ℤ◌;
  div = ◌/ℤ◌;
  lt = ltb_ℤ;
  lt_irrefl = lt_irrefl;
  lt_trans = lt_trans;
  lt_connected = lt_connected;
  lt_literal = lt_literal;
  add_comm = +ℤ_comm;
  add_assoc = +ℤ_assoc;
  add_zero = add_zero;
  sub_add = sub_add;
  mul_comm = mul_comm;
  mul_add = mul_add;
  lt_add = lt_add;
  mul_pos = mul_pos;
  div_nonneg = div_nonneg;
  div_le = div_le;
}
