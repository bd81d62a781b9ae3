-- ===== src/Reconciliation/Agreement.antt =====
-- What a reconciliation finds: which differences of books and tables are fatal, and when it finds none.
use crypto_trading_system.Base.{
  ℕ, suc, String, ◌≡◌, true, false, Option, none, some, List, [], ◌∷◌, arith, ◌⊎◌,
}
use crypto_trading_system.Base.Dict.{Dict, lookup, contains}
use crypto_trading_system.Decimal.{Decimal, ◌⊖◌, ◌<?◌, abs}
use crypto_trading_system.Models.{raise}
use crypto_trading_system.Execution.State.{Engine}
use crypto_trading_system.Reconciliation.Reconciler.{
  Row, object_row, Loaded, PaperReconciler, attribute_error, index_rows, key_of, runtime_quantities,
  counts, differ, reconcile,
}

-- Every key of the first dictionary is a key of the second.
abbrev pub Known {ℓ ℓ'} : {A : Type ℓ} {B : Type ℓ'} → Dict A → Dict B → Type 0
Known [] other = Unit
Known ((key, _) ∷ d) other = (contains key other ≡ true) × Known d other

module _ {D : Type 0} ⦃dec : Decimal D⦄ where
  -- A position that the other side lacks is within the tolerance.
  abbrev pub IsCovered : D → Dict (Option D) → Dict (Option D) → Type 0
  IsCovered tolerance [] other = Unit
  IsCovered tolerance ((symbol, q) ∷ ps) other =
      ((contains symbol other ≡ true) ⊎ (counts tolerance q ≡ false)) × IsCovered tolerance ps other

  -- Positions that both sides have differ by at most the tolerance.
  abbrev pub IsClose : D → Dict (Option D) → Dict (Option D) → Type 0
  IsClose tolerance [] other = Unit
  IsClose tolerance ((symbol, q) ∷ ps) other =
      elim (lookup symbol other) [ none ↦ Unit | some q' ↦ differ tolerance q q' ≡ false ]
      × IsClose tolerance ps other

  -- Every row is known to the engine, positions are covered and close, and so is the balance. Orders
  -- and fills of the engine may have no row.
  pub record IsTolerable (r : PaperReconciler D) (e : Engine D)
      (db_orders db_fills : Dict (Unit {0})) (db_positions : Dict (Option D)) (db_balance : D)
      : Type 0 where
    pub orders_known : Known db_orders e.orders
    pub fills_known : Known db_fills e.fills
    pub none_lost : IsCovered r.position_tolerance (runtime_quantities e.positions) db_positions
    pub none_extra : IsCovered r.position_tolerance db_positions (runtime_quantities e.positions)
    pub quantities_close :
        IsClose r.position_tolerance (runtime_quantities e.positions) db_positions
    pub balance_close : (r.balance_tolerance <? abs (e.cash_balance ⊖ db_balance)) ≡ false

  -- Books and tables agree: moreover every order and every fill of the engine has its row.
  pub record IsAgreed (r : PaperReconciler D) (e : Engine D) (db_orders db_fills : Dict (Unit {0}))
      (db_positions : Dict (Option D)) (db_balance : D) : Type 0 where
    pub tolerable : IsTolerable r e db_orders db_fills db_positions db_balance
    pub orders_saved : Known e.orders db_orders
    pub fills_saved : Known e.fills db_fills

  pub reconcile_raises_on_objects :
      (now : ℕ) (e : Engine D) (loaded : Loaded D) (r : PaperReconciler D) (id : String)
      (rows : List Row)
      → r.has_readers ≡ true
      → loaded.orders ≡ object_row id ∷ rows
      → reconcile now e loaded r
        ≡ (record r { total_checks = suc r.total_checks }, raise attribute_error)
  unfolding reconcile index_rows key_of
  reconcile_raises_on_objects now e loaded r id rows h o = ground arith
