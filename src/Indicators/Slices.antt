-- ===== src/Indicators/Slices.antt =====
-- Python's slices and last elements, as app/indicators uses them. Periods are positive: a period of
-- zero divides by zero or takes the maximum of nothing, which raises.
use crypto_trading_system.Base.{
  ℕ, zero, suc, ◌-◌, ◌≡◌, refl, ap, Option, none, some, List, [], ◌∷◌, ◌++◌, length, replicate,
  arith,
}

-- `IndexError`
pub data IndexError : Type 0 where
  out_of_range : IndexError

module _ {A : Type 0} where
  -- `xs[n:]`
  abbrev pub drop : ℕ → List A → List A
  drop zero xs = xs
  drop (suc n) [] = []
  drop (suc n) (x ∷ xs) = drop n xs

  -- `xs[-n:]`; `xs[-0:]` is the whole list.
  abbrev pub last_slice : ℕ → List A → List A
  last_slice zero xs = xs
  last_slice (suc n) xs = drop (length xs - suc n) xs

  -- `xs[-1] if xs else None`
  abbrev pub last_value : List A → Option A
  last_value [] = none
  last_value (x ∷ []) = some x
  last_value (x ∷ y ∷ xs) = last_value (y ∷ xs)

  -- `[None] * n`
  abbrev pub blanks : ℕ → List (Option A)
  blanks n = replicate n none

  pub length-replicate : (n : ℕ) (x : A) → length (replicate n x) ≡ n
  length-replicate zero x = refl
  length-replicate (suc n) x = ap suc (length-replicate n x)

  pub length-drop : (n : ℕ) (xs : List A) → length (drop n xs) ≡ length xs - n
  length-drop zero xs = omega arith
  length-drop (suc n) [] = omega arith
  length-drop (suc n) (x ∷ xs) = omega (arith, length-drop n xs)

  pub last_value-append :
      (xs : List A) (y : A) (ys : List A) → last_value (xs ++ (y ∷ ys)) ≡ last_value (y ∷ ys)
  last_value-append [] y ys = refl
  last_value-append (x ∷ []) y ys = refl
  last_value-append (x ∷ x' ∷ xs) y ys = last_value-append (x' ∷ xs) y ys
