-- ===== src/Reconciliation/Reconciler.antt =====
-- app/reconciliation/paper_reconciler.py. A discrepancy is its category, severity and key; the order
-- in which a set is walked is that of the dictionary. There is no callback, as in the application.
use crypto_trading_system.Base.{
  ℕ, suc, String, Bool, true, false, not, if◌then◌else◌, Option, none, some, List, [], ◌∷◌, ◌++◌,
  any, length, get_or_else,
}
use crypto_trading_system.Base.Dict.{Dict, lookup, insert, contains}
use crypto_trading_system.Decimal.{Decimal, dec_zero, ◌⊖◌, ◌<?◌, abs}
use crypto_trading_system.Models.{Result, ok, raise, PaperPositionState}
use crypto_trading_system.Execution.State.{Engine}

pub data DiscrepancySeverity : Type 0 where
  recoverable fatal : DiscrepancySeverity

pub data Category : Type 0 where
  order_missing_in_db order_missing_in_runtime fill_missing_in_db fill_missing_in_runtime : Category
  position_missing_in_db position_missing_in_runtime position_quantity_mismatch : Category
  balance_mismatch : Category

pub record Discrepancy : Type 0 where
  pub category : Category
  pub severity : DiscrepancySeverity
  pub key : String

-- A loaded order or fill: a dict that may have the key, or an object with the attribute.
pub data Row : Type 0 where
  dict_row : Option String → Row
  object_row : String → Row

pub record PositionRow (D : Type 0) : Type 0 where
  pub symbol : Option String
  pub quantity : Option D

-- What `db_reader` loads.
pub record Loaded (D : Type 0) : Type 0 where
  pub orders : List Row
  pub fills : List Row
  pub positions : List (PositionRow D)
  pub cash_balance : Option D

pub record ReconciliationResult (D : Type 0) : Type 0 where
  pub checked_at : ℕ
  pub discrepancies : List Discrepancy
  pub orders_runtime : ℕ
  pub orders_db : ℕ
  pub fills_runtime : ℕ
  pub fills_db : ℕ
  pub balance_runtime : D
  pub balance_db : D
  pub position_symbols_runtime : ℕ
  pub position_symbols_db : ℕ
  pub success : Bool

pub record PaperReconciler (D : Type 0) : Type 0 where
  pub balance_tolerance : D
  pub position_tolerance : D
  pub has_readers : Bool
  pub last_result : Option (ReconciliationResult D)
  pub consecutive_fatal : ℕ
  pub total_checks : ℕ

pub data ReconcileError : Type 0 where
  attribute_error : ReconcileError

-- `o.get("order_id", …)`: an object has no attribute `get`.
unfoldable pub key_of : Row → Result ReconcileError String
key_of (dict_row key) = ok (get_or_else key "")
key_of (object_row key) = raise attribute_error

-- The dict comprehension over the loaded rows, of which only the keys are used.
unfoldable pub index_rows : Dict (Unit {0}) → List Row → Result ReconcileError (Dict (Unit {0}))
unfolding key_of
index_rows acc [] = ok acc
index_rows acc (row ∷ rows) = elim (key_of row) [
  | raise x ↦ raise x
  | ok key ↦ index_rows (insert key tt acc) rows
]

abbrev pub is_fatal : Discrepancy → Bool
is_fatal d = elim d.severity [ recoverable ↦ false | fatal ↦ true ]

-- `has_fatal`
abbrev pub has_fatal : List Discrepancy → Bool
has_fatal ds = any is_fatal ds

-- One discrepancy for each key of the first dictionary that the second lacks.
unfoldable pub absent {ℓ ℓ'} :
    {A : Type ℓ} {B : Type ℓ'} → Category → DiscrepancySeverity → Dict A → Dict B → List Discrepancy
absent category severity [] other = []
absent category severity ((key, _) ∷ d) other =
    let rest = absent category severity d other in
    if contains key other
    then rest
    else record { category = category; severity = severity; key = key } ∷ rest

module _ {D : Type 0} ⦃dec : Decimal D⦄ where
  -- The quantities that `_extract_quantity` finds, of the engine and of the rows.
  unfoldable pub runtime_quantities : Dict (PaperPositionState D) → Dict (Option D)
  runtime_quantities [] = []
  runtime_quantities ((symbol, p) ∷ ps) = (symbol, some p.quantity) ∷ runtime_quantities ps

  unfoldable pub db_quantities : Dict (Option D) → List (PositionRow D) → Dict (Option D)
  db_quantities acc [] = acc
  db_quantities acc (p ∷ ps) = db_quantities (insert (get_or_else p.symbol "") p.quantity acc) ps

  -- `qty is not None and qty > self.position_tolerance`
  abbrev pub counts : D → Option D → Bool
  counts tolerance none = false
  counts tolerance (some q) = tolerance <? q

  unfoldable pub stray : D → Category → Dict (Option D) → Dict (Option D) → List Discrepancy
  stray tolerance category [] other = []
  stray tolerance category ((symbol, q) ∷ ps) other =
      let rest = stray tolerance category ps other in
      if contains symbol other
      then rest
      else if counts tolerance q
      then record { category = category; severity = fatal; key = symbol } ∷ rest
      else rest

  abbrev pub differ : D → Option D → Option D → Bool
  differ tolerance q q' = tolerance <? abs (get_or_else q dec_zero ⊖ get_or_else q' dec_zero)

  unfoldable pub mismatched : D → Dict (Option D) → Dict (Option D) → List Discrepancy
  mismatched tolerance [] other = []
  mismatched tolerance ((symbol, q) ∷ ps) other =
      let rest = mismatched tolerance ps other in
      elim (lookup symbol other) [
        | none ↦ rest
        | some q' ↦
            if differ tolerance q q'
            then record { category = position_quantity_mismatch; severity = fatal; key = symbol }
              ∷ rest
            else rest
      ]

  unfoldable pub balance_check : D → D → D → List Discrepancy
  balance_check tolerance runtime db =
      if tolerance <? abs (runtime ⊖ db)
      then record { category = balance_mismatch; severity = fatal; key = "" } ∷ []
      else []

  unfoldable pub discrepancies_of :
      PaperReconciler D
      → Engine D
      → Dict (Unit {0})
      → Dict (Unit {0})
      → Dict (Option D)
      → D
      → List Discrepancy
  unfolding balance_check
  discrepancies_of r e db_orders db_fills db_positions db_balance =
      let runtime_positions = runtime_quantities e.positions in
      absent order_missing_in_db recoverable e.orders db_orders
      ++ (absent order_missing_in_runtime fatal db_orders e.orders
          ++ (absent fill_missing_in_db recoverable e.fills db_fills
              ++ (absent fill_missing_in_runtime fatal db_fills e.fills
                  ++ (stray r.position_tolerance position_missing_in_db runtime_positions
                        db_positions
                      ++ (stray r.position_tolerance position_missing_in_runtime db_positions
                            runtime_positions
                          ++ (mismatched r.position_tolerance runtime_positions db_positions
                              ++ balance_check r.balance_tolerance e.cash_balance db_balance))))))

  unfoldable pub failed_result : ℕ → ReconciliationResult D
  failed_result now = record {
    checked_at = now;
    discrepancies = [];
    orders_runtime = 0;
    orders_db = 0;
    fills_runtime = 0;
    fills_db = 0;
    balance_runtime = dec_zero;
    balance_db = dec_zero;
    position_symbols_runtime = 0;
    position_symbols_db = 0;
    success = false;
  }

  -- The comparison, once the rows are indexed.
  unfoldable pub compared :
      ℕ
      → Engine D
      → Dict (Unit {0})
      → Dict (Unit {0})
      → Loaded D
      → PaperReconciler D
      → ReconciliationResult D
  unfolding discrepancies_of
  compared now e db_orders db_fills loaded r =
      let db_positions = db_quantities [] loaded.positions in
      let db_balance = get_or_else loaded.cash_balance dec_zero in
      record {
        checked_at = now;
        discrepancies = discrepancies_of r e db_orders db_fills db_positions db_balance;
        orders_runtime = length e.orders;
        orders_db = length db_orders;
        fills_runtime = length e.fills;
        fills_db = length db_fills;
        balance_runtime = e.cash_balance;
        balance_db = db_balance;
        position_symbols_runtime = length e.positions;
        position_symbols_db = length db_positions;
        success = true;
      }

  unfoldable pub store_result : ReconciliationResult D → PaperReconciler D → PaperReconciler D
  store_result result r = record r {
    last_result = some result;
    consecutive_fatal = if has_fatal result.discrepancies then suc r.consecutive_fatal else 0;
  }

  unfoldable pub reconcile :
      ℕ
      → Engine D
      → Loaded D
      → PaperReconciler D
      → PaperReconciler D × Result ReconcileError (ReconciliationResult D)
  unfolding failed_result index_rows compared store_result
  reconcile now e loaded r₀ =
      let r = record r₀ { total_checks = suc r₀.total_checks } in
      if not r.has_readers
      then (record r { last_result = some (failed_result now) }, ok (failed_result now))
      else elim (index_rows [] loaded.orders) [
        | raise x ↦ (r, raise x)
        | ok db_orders ↦ elim (index_rows [] loaded.fills) [
          | raise x ↦ (r, raise x)
          | ok db_fills ↦
              (let result = compared now e db_orders db_fills loaded r in
                (store_result result r, ok result))
        ]
      ]
