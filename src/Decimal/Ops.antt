-- ===== src/Decimal/Ops.antt =====
-- The operations of `decimal.Decimal`, and the laws that the theorems may use.
use crypto_trading_system.Base.{
  ℕ, ◌≡◌, Bool, true, false, not, ◌&&◌, ltb, if◌then◌else◌, List, [], ◌∷◌,
}

pub record Decimal (D : Type 0) : Type 0 where
  -- `literal n k` is n / 10^k: `Decimal("0.005")` is `literal 5 3`.
  pub literal : ℕ → ℕ → D
  pub add : D → D → D
  pub sub : D → D → D
  pub mul : D → D → D
  pub div : D → D → D
  pub lt : D → D → Bool
  pub lt_irrefl : (a : D) → lt a a ≡ false
  pub lt_trans : (a b c : D) → lt a b ≡ true → lt b c ≡ true → lt a c ≡ true
  pub lt_connected : (a b : D) → lt a b ≡ false → lt b a ≡ false → a ≡ b
  pub lt_literal : (m n : ℕ) → lt (literal m 0) (literal n 0) ≡ ltb m n
  pub add_comm : (a b : D) → add a b ≡ add b a
  pub add_assoc : (a b c : D) → add (add a b) c ≡ add a (add b c)
  pub add_zero : (a : D) → add a (literal 0 0) ≡ a
  pub sub_add : (a b : D) → add (sub a b) b ≡ a
  pub mul_comm : (a b : D) → mul a b ≡ mul b a
  pub mul_add : (a b c : D) → mul a (add b c) ≡ add (mul a b) (mul a c)
  pub lt_add : (a b c : D) → lt a b ≡ true → lt (add a c) (add b c) ≡ true
  pub mul_pos :
      (a b : D)
      → lt (literal 0 0) a ≡ true
      → lt (literal 0 0) b ≡ true
      → lt (literal 0 0) (mul a b) ≡ true
  pub div_nonneg :
      (a b : D)
      → lt a (literal 0 0) ≡ false
      → lt (literal 0 0) b ≡ true
      → lt (div a b) (literal 0 0) ≡ false
  pub div_le :
      (a b : D) → lt a (literal 0 0) ≡ false → lt b (literal 1 0) ≡ false → lt a (div a b) ≡ false

module _ {D : Type 0} ⦃dec : Decimal D⦄ where
  infixl 65 ◌⊕◌ ◌⊖◌
  infixl 70 ◌⊗◌ ◌⊘◌
  infix 50 ◌<?◌ ◌≤?◌ ◌=?◌
  abbrev pub literal : ℕ → ℕ → D
  literal = dec.literal

  -- `Decimal("0")`
  abbrev pub dec_zero : D
  dec_zero = dec.literal 0 0

  abbrev pub ◌⊕◌ : D → D → D
  a ⊕ b = dec.add a b

  abbrev pub ◌⊖◌ : D → D → D
  a ⊖ b = dec.sub a b

  abbrev pub ◌⊗◌ : D → D → D
  a ⊗ b = dec.mul a b

  abbrev pub ◌⊘◌ : D → D → D
  a ⊘ b = dec.div a b

  -- `a < b`, `a <= b` and `a == b`
  abbrev pub ◌<?◌ : D → D → Bool
  a <? b = dec.lt a b

  abbrev pub ◌≤?◌ : D → D → Bool
  a ≤? b = not (dec.lt b a)

  abbrev pub ◌=?◌ : D → D → Bool
  a =? b = not (dec.lt a b) && not (dec.lt b a)

  -- `-a`, `abs(a)`, `max(a, b)` and `min(a, b)`
  abbrev pub neg : D → D
  neg a = dec.sub (dec.literal 0 0) a

  abbrev pub abs : D → D
  abs a = if dec.lt a (dec.literal 0 0) then dec.sub (dec.literal 0 0) a else a

  abbrev pub max : D → D → D
  max a b = if dec.lt a b then b else a

  abbrev pub min : D → D → D
  min a b = if dec.lt b a then b else a

  -- `sum(xs, Decimal("0"))`, from the left
  unfoldable pub sum_from : D → List D → D
  sum_from acc [] = acc
  sum_from acc (x ∷ xs) = sum_from (acc ⊕ x) xs

  unfoldable pub sum : List D → D
  unfolding sum_from
  sum xs = sum_from dec_zero xs
