-- ===== src/Backtest/Books.antt =====
-- The books of the backtest's `Portfolio`: what `open_position` takes from the balance, what
-- `close_position` gives back, and the account that both keep.
use crypto_trading_system.Base.{
  ℕ, String, ◌=ₛ◌, ◌≡◌, refl, ap, true, false, Option, none, some, List, [], ◌∷◌, ◌++◌, map, arith,
  ◌⊎◌, inl, inr, Option-cases, eq_refl,
}
use crypto_trading_system.Base.Dict.{Dict, lookup, insert, erase, lookup-insert}
use crypto_trading_system.Decimal.{
  Decimal, dec_zero, ◌⊕◌, ◌⊖◌, ◌⊗◌, ◌⊘◌, ◌<?◌, sub_nonneg, zero_add, sub_mul, sub_of_add,
  sum-append, sale, purchase, add_swap,
}
use crypto_trading_system.Backtest.Position.{Position, update_market}
use crypto_trading_system.Backtest.Portfolio.{
  Portfolio, Entry, TradeRecord, open_position, close_position, entry_cost, closing_pnl,
  close_record, open_record, pnl_of, realized_pnl, filled_position, first_fill, dca_fill,
}

map-append_one :
    {A B : Type 0} (f : A → B) (xs : List A) (y : A)
    → map f (xs ++ (y ∷ [])) ≡ map f xs ++ (f y ∷ [])
map-append_one f [] y = refl
map-append_one f (x ∷ xs) y = ap (λ r. f x ∷ r) (map-append_one f xs y)

module _ {D : Type 0} ⦃dec : Decimal D⦄ where
  -- An order to open is accepted exactly if it is long, its quantity is above zero and the balance
  -- covers its cost; then the balance falls by the cost. Otherwise the portfolio stays as it was.
  pub open_position_cases :
      (x : Entry D) (p : Portfolio D)
      → let (p', accepted) = open_position x p in
        (((x.side =ₛ "long") ≡ true)
          × ((dec_zero <? x.quantity) ≡ true)
          × ((p.balance <? entry_cost x) ≡ false)
          × (accepted ≡ true)
          × (p'.balance ≡ p.balance ⊖ entry_cost x)
          × (lookup x.symbol p'.positions ≡ some (filled_position x (lookup x.symbol p.positions))))
        ⊎ ((((x.side =ₛ "long") ≡ false)
              ⊎ (((dec_zero <? x.quantity) ≡ false) ⊎ ((p.balance <? entry_cost x) ≡ true)))
            × (accepted ≡ false)
            × (p' ≡ p))
  unfolding open_position
  open_position_cases x p = ground (
    arith,
    eq_refl x.symbol,
    lookup-insert x.symbol x.symbol (filled_position x (lookup x.symbol p.positions)) p.positions,
  )

  -- Opening never overdraws an account that is not overdrawn.
  pub open_position_solvent :
      (x : Entry D) (p : Portfolio D)
      → (p.balance <? dec_zero) ≡ false
      → ((open_position x p).0.balance <? dec_zero) ≡ false
  open_position_solvent x p h =
      ground (arith, open_position_cases x p, sub_nonneg p.balance (entry_cost x))

  -- What was spent on the open positions.
  unfoldable pub spent : Position D → D
  spent q = q.entry_price ⊗ q.quantity ⊕ q.entry_commission

  unfoldable pub invested : Dict (Position D) → D
  invested [] = dec_zero
  invested ((_, q) ∷ ps) = spent q ⊕ invested ps

  -- Every unit of the initial balance and of the realized profit is in the balance or in an open
  -- position.
  abbrev pub IsBalanced : Portfolio D → Type 0
  IsBalanced p = p.balance ⊕ invested p.positions ≡ p.initial_balance ⊕ realized_pnl p

  invested-append :
      (ps : Dict (Position D)) (s : String) (q : Position D)
      → invested (ps ++ ((s, q) ∷ [])) ≡ invested ps ⊕ spent q
  unfolding invested
  invested-append [] s q = ground (arith, dec.add_zero (spent q), zero_add (spent q))
  invested-append ((j, r) ∷ ps) s q =
      ground (arith, invested-append ps s q, dec.add_assoc (spent r) (invested ps) (spent q))

  invested-erase :
      (ps : Dict (Position D)) (s : String) (q : Position D)
      → lookup s ps ≡ some q
      → invested ps ≡ spent q ⊕ invested (erase s ps)
  unfolding invested lookup erase
  invested-erase [] s q h = ground arith
  invested-erase ((j, r) ∷ ps) s q h = ground (
    arith,
    invested-erase ps s q,
    dec.add_assoc (spent r) (spent q) (invested (erase s ps)),
    dec.add_comm (spent r) (spent q),
    dec.add_assoc (spent q) (spent r) (invested (erase s ps)),
  )

  realized-append :
      (p p' : Portfolio D) (t : TradeRecord D)
      → p'.trade_history ≡ p.trade_history ++ (t ∷ [])
      → realized_pnl p' ≡ realized_pnl p ⊕ pnl_of t
  unfolding realized_pnl
  realized-append p p' t h = ground (
    arith,
    map-append_one pnl_of p.trade_history t,
    sum-append (map pnl_of p.trade_history) (pnl_of t),
  )

  closing_pnl_lem :
      (price commission : D) (q : Position D)
      → closing_pnl price commission q ≡ (price ⊗ q.quantity ⊖ spent q) ⊖ commission
  unfolding closing_pnl spent
  closing_pnl_lem price commission q = ground (
    arith,
    sub_mul price q.entry_price q.quantity,
    sub_of_add (price ⊗ q.quantity) (q.entry_price ⊗ q.quantity) q.entry_commission,
  )

  -- A repeated buy keeps the account if the average price is exact; a first buy always does.
  abbrev pub IsExact : Entry D → Option (Position D) → Type 0
  IsExact x none = Unit
  IsExact x (some q) =
      ((q.entry_price ⊗ q.quantity ⊕ x.price ⊗ x.quantity) ⊘ (q.quantity ⊕ x.quantity))
        ⊗ (q.quantity ⊕ x.quantity)
      ≡ q.entry_price ⊗ q.quantity ⊕ x.price ⊗ x.quantity

  spent-filled :
      (x : Entry D) (o : Option (Position D))
      → IsExact x o
      → spent (filled_position x o)
        ≡ elim o [ none ↦ entry_cost x | some q ↦ spent q ⊕ entry_cost x ]
  unfolding spent filled_position first_fill dca_fill update_market entry_cost
  spent-filled x none h = refl
  spent-filled x (some q) h = ground (
    arith,
    dec.add_assoc (q.entry_price ⊗ q.quantity ⊕ x.price ⊗ x.quantity) q.entry_commission
        x.commission,
    add_swap (q.entry_price ⊗ q.quantity) (x.price ⊗ x.quantity) q.entry_commission,
    dec.add_assoc (q.entry_price ⊗ q.quantity ⊕ q.entry_commission) (x.price ⊗ x.quantity)
        x.commission,
  )

  invested-insert :
      (s : String) (q' : Position D) (ps : Dict (Position D)) (cost : D)
      → spent q' ≡ elim (lookup s ps) [ none ↦ cost | some q ↦ spent q ⊕ cost ]
      → invested (insert s q' ps) ≡ invested ps ⊕ cost
  unfolding invested lookup insert
  invested-insert s q' [] cost h = ground (arith, dec.add_zero cost, zero_add cost)
  invested-insert s q' ((j, r) ∷ ps) cost h = ground (
    arith,
    invested-insert s q' ps cost,
    add_swap (spent r) cost (invested ps),
    dec.add_assoc (spent r) (invested ps) cost,
  )

  -- If the balance and what the open positions cost make up the initial balance and the realized
  -- profit, then they do so after `open_position`, also on the branches that refuse. For a
  -- repeated buy the quotient of the average price has to be exact.
  pub open_position-IsBalanced :
      (x : Entry D) (p : Portfolio D)
      → IsExact x (lookup x.symbol p.positions)
      → IsBalanced p
      → IsBalanced (open_position x p).0
  unfolding open_position open_record pnl_of
  open_position-IsBalanced x p exact h = ground (
    arith,
    invested-insert x.symbol (filled_position x (lookup x.symbol p.positions)) p.positions
        (entry_cost x),
    spent-filled x (lookup x.symbol p.positions) exact,
    realized-append p (open_position x p).0 (open_record x),
    dec.add_zero (realized_pnl p),
    purchase p.balance (invested p.positions) (entry_cost x),
  )

  -- If the balance and what the open positions cost make up the initial balance and the realized
  -- profit, then they do so after `close_position`, whatever the price and whether or not the
  -- symbol is held.
  pub close_position-IsBalanced :
      (symbol : String) (price : D) (timestamp : ℕ) (commission : D) (p : Portfolio D)
      → IsBalanced p
      → IsBalanced (close_position symbol price timestamp commission p).0
  unfolding close_position close_record pnl_of
  close_position-IsBalanced symbol price timestamp commission p h =
      elim (Option-cases (lookup symbol p.positions)) [
        | inl none_held ↦ ground arith
        | inr (q, held) ↦ ground (
          arith,
          invested-erase p.positions symbol q held,
          realized-append p (close_position symbol price timestamp commission p).0
              (close_record symbol price timestamp commission q),
          closing_pnl_lem price commission q,
          sale p.balance (invested (erase symbol p.positions)) (spent q) (price ⊗ q.quantity)
              commission,
          dec.add_assoc p.initial_balance (realized_pnl p) (closing_pnl price commission q),
        )
      ]
