-- ===== src/Monitoring/Monitors.antt =====
-- The monitors of app/monitoring: database_health.py, risk_health.py, market_health.py,
-- pipeline_health.py. Times and latencies are numbers of one unit; what the injected
-- checks answer is an argument.
use crypto_trading_system.Base.{
  ℕ, suc, ◌-◌, ◌/◌, String, Bool, true, false, ◌||◌, not, ltb, leb, ◌==◌, if◌then◌else◌, Option,
  none, some, List, [], ◌∷◌,
}
use crypto_trading_system.Base.Dict.{Dict, lookup, insert}
use crypto_trading_system.Decimal.{Decimal, dec_zero, ◌⊖◌, ◌⊗◌, ◌⊘◌, ◌<?◌, abs, max, min}
use crypto_trading_system.Models.{Result, ok, raise}
use crypto_trading_system.Risk.Engine.{RiskEngine}

pub data DatabaseHealthStatus : Type 0 where
  database_ok degraded unavailable : DatabaseHealthStatus

pub record DatabaseHealthResult : Type 0 where
  pub status : DatabaseHealthStatus
  pub latency : ℕ
  pub checkpoint_available : Bool
  pub trading_enabled : Bool

pub record DatabaseHealthMonitor : Type 0 where
  pub has_checkpoint_check : Bool
  pub latency_warning : ℕ
  pub transaction_errors : ℕ

pub data CheckFailed : Type 0 where
  check_failed : CheckFailed

-- `bool(checkpoint_result)`, true where there is no such check.
unfoldable pub checkpoint_result :
    DatabaseHealthMonitor → Result CheckFailed Bool → Result CheckFailed Bool
checkpoint_result m answer = if m.has_checkpoint_check then answer else ok true

abbrev pub database_down : ℕ → DatabaseHealthMonitor → DatabaseHealthMonitor × DatabaseHealthResult
database_down latency m = (
  record m { transaction_errors = suc m.transaction_errors },
  record {
    status = unavailable;
    latency = latency;
    checkpoint_available = false;
    trading_enabled = false;
  },
)

abbrev pub database_up :
    ℕ → Bool → DatabaseHealthMonitor → DatabaseHealthMonitor × DatabaseHealthResult
database_up latency checkpoint m =
    let is_degraded = leb m.latency_warning latency || not checkpoint in
    (
      m,
      record {
        status = if is_degraded then degraded else database_ok;
        latency = latency;
        checkpoint_available = checkpoint;
        trading_enabled = not is_degraded;
      },
    )

-- `DatabaseHealthMonitor.check`: what the connection check and the checkpoint check answer, and the
-- time that they take.
unfoldable pub check_database :
    Result CheckFailed Bool
    → Result CheckFailed Bool
    → ℕ
    → DatabaseHealthMonitor
    → DatabaseHealthMonitor × DatabaseHealthResult
unfolding checkpoint_result
check_database connected checkpoint latency m = elim connected [
  | raise _ ↦ database_down latency m
  | ok false ↦ database_down latency m
  | ok true ↦ elim (checkpoint_result m checkpoint) [
    | raise _ ↦ database_down latency m
    | ok saved ↦ database_up latency saved m
  ]
]

pub data RiskHealthStatus : Type 0 where
  risk_ok risk_warning risk_critical : RiskHealthStatus

pub data RiskHealthReason : Type 0 where
  stop_active database_gone reconciliation_gone drawdown_exceeded daily_loss_exceeded :
      RiskHealthReason
  utilization_exceeded : RiskHealthReason

pub record RiskHealthResult (D : Type 0) : Type 0 where
  pub risk_status : RiskHealthStatus
  pub capital_usage : D
  pub drawdown : D
  pub trading_enabled : Bool
  pub reasons : List RiskHealthReason

unfoldable pub failed_checks : List (Bool × RiskHealthReason) → List RiskHealthReason
failed_checks [] = []
failed_checks ((failed, reason) ∷ checks) =
    let rest = failed_checks checks in if failed then reason ∷ rest else rest

abbrev pub no_reasons : List RiskHealthReason → Bool
no_reasons [] = true
no_reasons (_ ∷ _) = false

module _ {D : Type 0} ⦃dec : Decimal D⦄ where
  unfoldable pub drawdown_of : RiskEngine D → D
  drawdown_of r =
      if dec_zero <? r.peak_equity
      then (r.peak_equity ⊖ r.current_equity) ⊘ r.peak_equity
      else dec_zero

  -- The five checks, and that of the capital usage.
  unfoldable pub risk_checks : D → RiskEngine D → List (Bool × RiskHealthReason)
  unfolding drawdown_of
  risk_checks capital_usage r =
      (r.is_emergency_stop, stop_active)
      ∷ (not r.database_available, database_gone)
      ∷ (not r.reconciliation_ok, reconciliation_gone)
      ∷ (r.config.max_drawdown <? drawdown_of r, drawdown_exceeded)
      ∷ (
        max r.current_equity dec_zero ⊗ r.config.daily_loss_limit <? abs (min r.daily_pnl dec_zero),
        daily_loss_exceeded,
      )
      ∷ (r.config.max_capital_utilization <? capital_usage, utilization_exceeded)
      ∷ []

  -- `RiskHealthMonitor.check`
  unfoldable pub check_risk : D → RiskEngine D → RiskHealthResult D
  unfolding risk_checks failed_checks
  check_risk capital_usage r =
      let reasons = failed_checks (risk_checks capital_usage r) in
      record {
        risk_status = if no_reasons reasons then risk_ok else risk_critical;
        capital_usage = capital_usage;
        drawdown = drawdown_of r;
        trading_enabled = no_reasons reasons;
        reasons = reasons;
      }

pub data MarketHealthStatus : Type 0 where
  market_ok market_warning market_critical : MarketHealthStatus

pub record MarketHealthResult : Type 0 where
  pub status : MarketHealthStatus
  pub lag : ℕ
  pub missing_intervals : ℕ
  pub trading_enabled : Bool

-- The last candle of a series, under the text of its symbol and interval.
pub record MarketHealthMonitor : Type 0 where
  pub warning_after : ℕ
  pub critical_after : ℕ
  pub last_candle : Dict ℕ

pub data ThresholdError : Type 0 where
  warning_not_below_critical : ThresholdError

unfoldable pub new_market_monitor : ℕ → ℕ → Result ThresholdError MarketHealthMonitor
new_market_monitor warning_after critical_after =
    if leb critical_after warning_after
    then raise warning_not_below_critical
    else ok (record {
      warning_after = warning_after;
      critical_after = critical_after;
      last_candle = [];
    })

-- `max(0, int((candle_time - previous) / expected_interval) - 1)`, for a known positive interval.
unfoldable pub missing_between : Option ℕ → ℕ → Option ℕ → ℕ
missing_between none candle_time interval = 0
missing_between (some previous) candle_time none = 0
missing_between (some previous) candle_time (some interval) =
    if interval == 0 then 0 else (candle_time - previous) / interval - 1

abbrev pub is_newer : Option ℕ → ℕ → Bool
is_newer none candle_time = true
is_newer (some previous) candle_time = ltb previous candle_time

unfoldable pub market_status : MarketHealthMonitor → ℕ → ℕ → MarketHealthStatus
market_status m lag missing =
    if ltb m.critical_after lag || not (missing == 0)
    then market_critical
    else if leb m.warning_after lag
    then market_warning
    else market_ok

abbrev pub not_critical : MarketHealthStatus → Bool
not_critical market_ok = true
not_critical market_warning = true
not_critical market_critical = false

-- `MarketHealthMonitor.check`
unfoldable pub check_market :
    String → ℕ → ℕ → Option ℕ → MarketHealthMonitor → MarketHealthMonitor × MarketHealthResult
unfolding missing_between market_status
check_market key candle_time now interval m =
    let previous = lookup key m.last_candle in
    let lag = now - candle_time in
    let missing = missing_between previous candle_time interval in
    let status = market_status m lag missing in
    (
      if is_newer previous candle_time
          then record m { last_candle = insert key candle_time m.last_candle }
          else m,
      record {
        status = status;
        lag = lag;
        missing_intervals = missing;
        trading_enabled = not_critical status;
      },
    )

pub data PipelineHealthStatus : Type 0 where
  pipeline_ready pipeline_degraded pipeline_failed : PipelineHealthStatus

pub record PipelineHealthResult : Type 0 where
  pub status : PipelineHealthStatus
  pub trading_enabled : Bool
  pub emergency_stop : Bool

-- `values.get(name) is None` for some required name.
unfoldable pub some_missing : {V : Type 0} → Dict (Option V) → List String → Bool
some_missing values [] = false
some_missing values (name ∷ names) = elim (lookup name values) [
  | none ↦ true
  | some none ↦ true
  | some (some v) ↦ some_missing values names
]

-- `PipelineHealthMonitor.check`: whether there is an execution error and a pipeline error.
unfoldable pub check_pipeline :
    {V : Type 0} → Dict (Option V) → List String → Bool → Bool → PipelineHealthResult
unfolding some_missing
check_pipeline values required execution_error pipeline_error =
    if execution_error || pipeline_error
    then record { status = pipeline_failed; trading_enabled = false; emergency_stop = true }
    else if some_missing values required
    then record { status = pipeline_degraded; trading_enabled = false; emergency_stop = false }
    else record { status = pipeline_ready; trading_enabled = true; emergency_stop = false }
