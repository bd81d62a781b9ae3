-- ===== src/Decimal/Ring.antt =====
-- Sums and products of decimals.
use crypto_trading_system.Base.{◌≡◌, false, All, refl, List, [], ◌∷◌, ◌++◌, arith}
use crypto_trading_system.Decimal.Ops.{Decimal, dec_zero, ◌⊕◌, ◌⊖◌, ◌⊗◌, ◌<?◌, sum, sum_from}
use crypto_trading_system.Decimal.Order.{add_cancel, zero_add, add_nonneg, add_mono, lt_asymm}

module _ {D : Type 0} ⦃dec : Decimal D⦄ where
  pub add_swap : (a b c : D) → (a ⊕ b) ⊕ c ≡ (a ⊕ c) ⊕ b
  add_swap a b c = ground (arith, dec.add_assoc a b c, dec.add_assoc a c b, dec.add_comm b c)

  pub sub_mul : (a b c : D) → (a ⊖ b) ⊗ c ≡ a ⊗ c ⊖ b ⊗ c
  sub_mul a b c = add_cancel _ _ (b ⊗ c) (
      ground (
        arith,
        dec.mul_add c (a ⊖ b) b,
        dec.mul_comm c (a ⊖ b),
        dec.mul_comm c b,
        dec.mul_comm a c,
        dec.sub_add a b,
        dec.sub_add (a ⊗ c) (b ⊗ c),
      ))

  pub sub_add_swap : (a b c : D) → (a ⊕ b) ⊖ c ≡ (a ⊖ c) ⊕ b
  sub_add_swap a b c =
      add_cancel _ _ c
        (ground (arith, dec.sub_add (a ⊕ b) c, add_swap (a ⊖ c) b c, dec.sub_add a c))

  pub add_sub_assoc : (a b c : D) → a ⊕ (b ⊖ c) ≡ (a ⊕ b) ⊖ c
  add_sub_assoc a b c =
      add_cancel _ _ c
        (ground (arith, dec.sub_add (a ⊕ b) c, dec.add_assoc a (b ⊖ c) c, dec.sub_add b c))

  pub sub_swap : (a b c : D) → (a ⊖ b) ⊖ c ≡ (a ⊖ c) ⊖ b
  sub_swap a b c =
      add_cancel _ _ b
        (ground (arith, dec.sub_add (a ⊖ c) b, sub_add_swap (a ⊖ b) b c, dec.sub_add a b))

  -- Taking away a sum takes away one summand after the other.
  pub sub_of_add : (a b c : D) → a ⊖ (b ⊕ c) ≡ (a ⊖ b) ⊖ c
  sub_of_add a b c = add_cancel _ _ (b ⊕ c) (
      ground (
        arith,
        dec.sub_add a (b ⊕ c),
        dec.add_assoc ((a ⊖ b) ⊖ c) c b,
        dec.add_comm c b,
        dec.sub_add (a ⊖ b) c,
        dec.sub_add a b,
      ))

  pub sum_from-append :
      (acc : D) (xs : List D) (y : D) → sum_from acc (xs ++ (y ∷ [])) ≡ sum_from acc xs ⊕ y
  unfolding sum_from
  sum_from-append acc [] y = refl
  sum_from-append acc (x ∷ xs) y = sum_from-append (acc ⊕ x) xs y

  pub sum-nil : sum {D = D} [] ≡ dec_zero
  unfolding sum sum_from
  sum-nil = refl

  pub sum-append : (xs : List D) (y : D) → sum (xs ++ (y ∷ [])) ≡ sum xs ⊕ y
  unfolding sum
  sum-append xs y = sum_from-append dec_zero xs y

  -- Selling for `v` what `t` was spent on.
  pub sale : (b r t v c : D) → (b ⊕ (v ⊖ c)) ⊕ r ≡ (b ⊕ (t ⊕ r)) ⊕ ((v ⊖ t) ⊖ c)
  sale b r t v c = ground (
    arith,
    add_sub_assoc b v c,
    sub_add_swap (b ⊕ v) r c,
    add_swap b v r,
    add_sub_assoc (b ⊕ (t ⊕ r)) (v ⊖ t) c,
    dec.add_comm t r,
    dec.add_assoc b r t,
    add_swap (b ⊕ r) t (v ⊖ t),
    dec.add_assoc (b ⊕ r) (v ⊖ t) t,
    dec.sub_add v t,
  )

  -- Spending `t` moves it from the balance `b` into the holdings `r`.
  pub purchase : (b r t : D) → (b ⊖ t) ⊕ (r ⊕ t) ≡ b ⊕ r
  purchase b r t = ground (arith, dec.add_assoc (b ⊖ t) r t, add_swap (b ⊖ t) r t, dec.sub_add b t)

  pub mul_zero : (a : D) → a ⊗ dec_zero ≡ dec_zero
  mul_zero a = add_cancel _ _ (a ⊗ dec_zero) (
      ground
        (arith, dec.mul_add a dec_zero dec_zero, dec.add_zero dec_zero, zero_add (a ⊗ dec_zero)))

  pub mul_nonneg :
      (a b : D) → (a <? dec_zero) ≡ false → (b <? dec_zero) ≡ false → ((a ⊗ b) <? dec_zero) ≡ false
  mul_nonneg a b h k = ground (
    arith,
    dec.mul_pos a b,
    dec.lt_connected a dec_zero,
    dec.lt_connected b dec_zero,
    mul_zero a,
    mul_zero b,
    dec.mul_comm dec_zero b,
    dec.lt_irrefl dec_zero,
    lt_asymm dec_zero (a ⊗ b),
  )

  pub sum_from-nonneg :
      (xs : List D) (acc : D)
      → (acc <? dec_zero) ≡ false
      → All (λ x. (x <? dec_zero) ≡ false) xs
      → (sum_from acc xs <? dec_zero) ≡ false
  unfolding sum_from
  sum_from-nonneg [] acc h k = h
  sum_from-nonneg (x ∷ xs) acc h k = sum_from-nonneg xs (acc ⊕ x) (add_nonneg acc x h k.0) k.1

  pub sub_le : (a q : D) → (q <? dec_zero) ≡ false → (a <? (a ⊖ q)) ≡ false
  sub_le a q h = ground (
    arith,
    dec.lt_add a (a ⊖ q) q,
    dec.sub_add a q,
    add_mono dec_zero q a,
    zero_add a,
    dec.add_comm q a,
    lt_asymm a (a ⊕ q),
  )
