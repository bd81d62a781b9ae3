-- ===== src/Trading/State.antt =====
-- The state of `PaperTradingRuntime`, its restoration and checkpoints, and the end of a candle's
-- processing. A failing reconciliation callback is only logged, so its calls are counted; calls of the
-- database and the heartbeat succeed.
use crypto_trading_system.Base.{
  ℕ, zero, suc, ◌%◌, String, Bool, true, not, ltb, ◌==◌, ◌&&◌, if◌then◌else◌, Option, none, some,
  List, [], ◌∷◌, ◌++◌,
}
use crypto_trading_system.Models.{Result, ok, raise, Candle}
use crypto_trading_system.Execution.State.{Engine, ExecutionRequest, ExecutionError, Tags}
use crypto_trading_system.Execution.Repository.{Database, RestoreError, checkpoint}
use crypto_trading_system.Execution.Repository
use crypto_trading_system.Trading.OrderId.{order_tag}

pub data RuntimeError : Type 0 where
  strategy_error zero_division already_running : RuntimeError
  execution_error : ExecutionError → RuntimeError
  restore_error : RestoreError → RuntimeError

pub record PaperTradingRuntime (D S : Type 0) : Type 0 where
  pub engine : Engine D
  pub database : Database D
  pub risk : S
  pub has_repository : Bool
  pub is_running : Bool
  pub candles_processed : ℕ
  pub last_checkpoint_sequence : ℕ
  pub checkpoint_interval : ℕ
  pub reconciliation_interval : ℕ
  pub has_reconcile_callback : Bool
  pub reconciliations : ℕ
  pub has_heartbeat : Bool
  -- the sequence numbers of the heartbeats
  pub beats : List ℕ
  pub trading_enabled : Bool
  pub source_ready : Bool
  pub session_id : Option String
  pub run_id : String

abbrev pub Strategy : Type 0 → Type 0
Strategy D = Candle D → Engine D → Result RuntimeError (List (ExecutionRequest D))

abbrev pub RiskManager : Type 0 → Type 0 → Type 0
RiskManager D S = ExecutionRequest D → Engine D → S → S × Bool

abbrev pub Outcome : Type 0 → Type 0 → Type 0
Outcome D S = PaperTradingRuntime D S × Result RuntimeError (Unit {0})

module _ {D S : Type 0} where
  -- `_checkpoint`; the engine writes only if it has a repository too.
  unfoldable pub checkpoint_runtime : PaperTradingRuntime D S → PaperTradingRuntime D S
  checkpoint_runtime rt =
      if not rt.has_repository
      then rt
      else if rt.engine.has_repository
      then (let (e', db') = checkpoint rt.engine rt.database in
          record rt { engine = e'; database = db'; last_checkpoint_sequence = e'.last_sequence })
      else record rt { last_checkpoint_sequence = rt.engine.last_sequence }

  -- `restore_state`
  unfoldable pub restore_runtime : PaperTradingRuntime D S → Outcome D S
  restore_runtime rt =
      if not rt.has_repository then (rt, ok tt) else elim rt.database.runtime_state [
        | none ↦ (rt, ok tt)
        | some state ↦
            (let (e', answer) = Repository.restore_state rt.database rt.engine in
              elim answer [
                | raise x ↦ (record rt { engine = e' }, raise (restore_error x))
                | ok _ ↦ (
                  record rt { engine = e'; last_checkpoint_sequence = state.last_market_sequence },
                  ok tt,
                )
              ])
      ]

  -- `self.risk_manager is None or await self.risk_manager.validate_request(…)`
  unfoldable pub validate_request :
      Option (RiskManager D S) → ExecutionRequest D → Engine D → S → S × Bool
  validate_request none request e s = (s, true)
  validate_request (some manager) request e s = manager request e s

  unfoldable pub tags_of : PaperTradingRuntime D S → ℕ → ℕ → ExecutionRequest D → Tags
  unfolding order_tag
  tags_of rt sequence index request = record {
    client_order_id = some (order_tag rt.session_id sequence index request);
    run_id = some rt.run_id;
    signal_id = none;
  }

  -- The end of `_process_candle`: the count, the checkpoint, the reconciliation, the heartbeat.
  unfoldable pub count_candle : PaperTradingRuntime D S → PaperTradingRuntime D S
  count_candle rt = record rt { candles_processed = suc rt.candles_processed }

  unfoldable pub checkpoint_due : PaperTradingRuntime D S → Outcome D S
  unfolding checkpoint_runtime
  checkpoint_due rt = elim rt.checkpoint_interval [
    | zero ↦ (rt, raise zero_division)
    | suc n ↦ (if rt.candles_processed % suc n == 0 then checkpoint_runtime rt else rt, ok tt)
  ]

  unfoldable pub reconcile_due : PaperTradingRuntime D S → PaperTradingRuntime D S
  reconcile_due rt =
      if rt.has_reconcile_callback
        && (ltb 0 rt.reconciliation_interval
            && (rt.candles_processed % rt.reconciliation_interval == 0))
      then record rt { reconciliations = suc rt.reconciliations }
      else rt

  unfoldable pub heartbeat : ℕ → PaperTradingRuntime D S → PaperTradingRuntime D S
  heartbeat sequence rt =
      if rt.has_heartbeat then record rt { beats = rt.beats ++ (sequence ∷ []) } else rt

  unfoldable pub finish_candle : ℕ → PaperTradingRuntime D S → Outcome D S
  unfolding count_candle checkpoint_due reconcile_due heartbeat
  finish_candle sequence rt =
      let (rt', answer) = checkpoint_due (count_candle rt) in
      elim answer [
        | raise x ↦ (rt', raise x)
        | ok _ ↦ (heartbeat sequence (reconcile_due rt'), ok tt)
      ]
