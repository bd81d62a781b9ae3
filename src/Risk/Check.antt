-- ===== src/Risk/Check.antt =====
-- `RiskEngine.check_trade`. A reason is the event that it names, or the adjusted quantity; its
-- wording is not modelled.
use crypto_trading_system.Base.{
  ℕ, Bool, true, false, ◌&&◌, not, ltb, leb, if◌then◌else◌, Option, none, some, List, [], ◌∷◌, ◌++◌,
  map, any, length, get_or_else,
}
use crypto_trading_system.Base.Text.{codes, to_lower}
use crypto_trading_system.Decimal.{Decimal, dec_zero, ◌⊖◌, ◌⊗◌, ◌⊘◌, ◌<?◌, abs, max}
use crypto_trading_system.Risk.Engine.{
  RiskLevel, low, medium, high, critical, RiskEvent, max_risk_per_trade, max_position_size,
  max_asset_exposure, max_capital_utilization, insufficient_balance, daily_loss_limit,
  weekly_loss_limit, max_drawdown, emergency_stop, stale_data, api_unavailable,
  database_unavailable, reconciliation_failed, unknown_order_status, invalid_trade, RiskConfig,
  RiskEngine,
}
use crypto_trading_system.Risk.Trade.{
  Trade, has_unknown_status, before, exposure_increase, reducing, is_invalid, is_stale,
  position_pct, utilization, exceeds_risk, exceeds_loss, exceeds_drawdown, is_held,
}

pub data Reason (D : Type 0) : Type 0 where
  rejected_for : RiskEvent → Reason D
  adjusted_to : D → Reason D

pub record RiskCheckResult (D : Type 0) : Type 0 where
  pub approved : Bool
  pub risk_level : RiskLevel
  pub reasons : List (Reason D)
  pub events : List RiskEvent
  pub adjusted_quantity : Option D

-- `list(RiskLevel).index(level)`
unfoldable pub level_index : RiskLevel → ℕ
level_index low = 0
level_index medium = 1
level_index high = 2
level_index critical = 3

-- The nonlocal `events` and `risk_level`; `reasons` grows with `events`.
pub record Report : Type 0 where
  pub events : List RiskEvent
  pub risk_level : RiskLevel

-- `reject`, under its `if`
pub record Guard : Type 0 where
  pub fails : Bool
  pub event : RiskEvent
  pub level : RiskLevel

unfoldable pub reject : RiskEvent → RiskLevel → Report → Report
unfolding level_index
reject event level report = record {
  events = report.events ++ (event ∷ []);
  risk_level =
      if ltb (level_index report.risk_level) (level_index level) then level else report.risk_level;
}

-- The tests in the order of the code, each with its call of `reject`.
unfoldable pub run_guards : List Guard → Report → Report
unfolding reject
run_guards [] report = report
run_guards (g ∷ gs) report =
    run_guards gs (if g.fails then reject g.event g.level report else report)

abbrev pub no_report : Report
no_report = record { events = []; risk_level = low }

abbrev pub is_max_position_size : RiskEvent → Bool
is_max_position_size max_position_size = true
is_max_position_size _ = false

-- `self.x if x is None else x`, for the three operational switches.
abbrev pub is_up : Option Bool → Bool → Bool
is_up override current = get_or_else override current

abbrev pub guard : Bool → RiskEvent → RiskLevel → Guard
guard fails event level = record { fails = fails; event = event; level = level }

module _ {D : Type 0} ⦃dec : Decimal D⦄ where
  -- What blocks new exposure, in the order of the code.
  unfoldable pub guards : RiskEngine D → Trade D → List Guard
  guards r t =
      guard r.is_emergency_stop emergency_stop critical
      ∷ guard (not (is_up t.database_available r.database_available)) database_unavailable critical
      ∷ guard (not (is_up t.api_available r.api_available)) api_unavailable critical
      ∷ guard (not (is_up t.reconciliation_ok r.reconciliation_ok)) reconciliation_failed critical
      ∷ guard (has_unknown_status t.order_statuses) unknown_order_status critical
      ∷ guard (is_stale r.config r.last_data_time t.now) stale_data high
      ∷ guard (r.config.max_position_size <? position_pct t) max_position_size high
      ∷ guard (t.current_balance <? exposure_increase t) insufficient_balance high
      ∷ guard (exceeds_risk r.config t) max_risk_per_trade high
      ∷ guard (r.config.max_asset_exposure <? position_pct t) max_asset_exposure high
      ∷ guard (r.config.max_capital_utilization <? utilization t) max_capital_utilization high
      ∷ guard (exceeds_loss r.daily_pnl t r.config.daily_loss_limit) daily_loss_limit critical
      ∷ guard (exceeds_loss r.weekly_pnl t r.config.weekly_loss_limit) weekly_loss_limit critical
      ∷ guard (exceeds_drawdown r) max_drawdown critical
      ∷ guard
          (not (is_held t.symbol t.current_positions)
            && leb r.config.max_open_positions (length t.current_positions))
          max_position_size medium
      ∷ []

  -- The quantity that would still fit under the position limit.
  unfoldable pub adjusted_quantity_of : RiskConfig D → Trade D → List RiskEvent → Option D
  adjusted_quantity_of config t events =
      let available = max (t.total_capital ⊗ config.max_position_size ⊖ abs (before t)) dec_zero in
      if any is_max_position_size events && dec_zero <? available
      then some (available ⊘ t.price)
      else none

  abbrev adjusted_reason : Option D → List (Reason D)
  adjusted_reason none = []
  adjusted_reason (some q) = adjusted_to q ∷ []

  abbrev is_empty : List (Reason D) → Bool
  is_empty [] = true
  is_empty (_ ∷ _) = false

  unfoldable pub result_of : Report → Option D → RiskCheckResult D
  result_of report adjusted =
      let reasons = map rejected_for report.events ++ adjusted_reason adjusted in
      record {
        approved = is_empty reasons;
        risk_level = report.risk_level;
        reasons = reasons;
        events = report.events;
        adjusted_quantity = adjusted;
      }

  -- `_persist_events`
  unfoldable pub persist_events : Trade D → RiskCheckResult D → RiskEngine D → RiskEngine D
  persist_events t result r =
      if r.has_store
      then record r {
        saved_events =
            r.saved_events
            ++ map
                (λ event. record {
                  event_type = event;
                  risk_level = result.risk_level;
                  symbol = t.symbol;
                  side = map to_lower (codes t.side);
                  quantity = t.quantity;
                  price = t.price;
                })
                result.events;
      }
      else r

  unfoldable pub check_trade : RiskEngine D → Trade D → RiskEngine D × RiskCheckResult D
  unfolding result_of
  check_trade r t =
      if is_invalid t
      then (let result = result_of (reject invalid_trade critical no_report) none in
          (persist_events t result r, result))
      else (let report = if reducing t then no_report else run_guards (guards r t) no_report in
          let result = result_of report (adjusted_quantity_of r.config t report.events) in
          (persist_events t result r, result))
