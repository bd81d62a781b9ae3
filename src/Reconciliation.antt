-- ===== src/Reconciliation.antt =====
-- app/reconciliation/: the comparison of the engine's books with the tables.
pub mod Reconciler
pub mod Agreement
