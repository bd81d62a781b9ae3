-- ===== src/Risk/Engine.antt =====
-- The state of `RiskEngine`, its updates, and the durable snapshot. The injected store is the last
-- snapshot written and the log of events.
use crypto_trading_system.Base.{
  ℕ, suc, String, Bool, true, false, leb, if◌then◌else◌, Option, none, some, List, [],
}
use crypto_trading_system.Decimal.{Decimal, dec_zero, max}

pub data RiskLevel : Type 0 where
  low medium high critical : RiskLevel

pub data RiskEvent : Type 0 where
  max_risk_per_trade max_position_size max_asset_exposure max_capital_utilization : RiskEvent
  insufficient_balance daily_loss_limit weekly_loss_limit max_drawdown emergency_stop : RiskEvent
  stale_data api_unavailable database_unavailable reconciliation_failed : RiskEvent
  unknown_order_status invalid_trade balance_mismatch : RiskEvent

pub record RiskConfig (D : Type 0) : Type 0 where
  pub max_risk_per_trade : D
  pub max_position_size : D
  pub max_asset_exposure : D
  pub max_capital_utilization : D
  pub daily_loss_limit : D
  pub weekly_loss_limit : D
  pub max_drawdown : D
  pub max_open_positions : ℕ
  pub stale_data_threshold_minutes : ℕ

-- What `_state` saves.
pub record SavedRiskState (D : Type 0) : Type 0 where
  pub daily_pnl : D
  pub weekly_pnl : D
  pub peak_equity : D
  pub current_equity : D
  pub is_emergency_stop : Bool
  pub emergency_stop_reason : String
  pub consecutive_errors : ℕ

-- What `_persist_events` saves of one event.
pub record SavedRiskEvent (D : Type 0) : Type 0 where
  pub event_type : RiskEvent
  pub risk_level : RiskLevel
  pub symbol : String
  -- the code points of the side in lower case
  pub side : List ℕ
  pub quantity : D
  pub price : D

pub record RiskEngine (D : Type 0) : Type 0 where
  pub config : RiskConfig D
  pub has_store : Bool
  pub saved_state : Option (SavedRiskState D)
  pub saved_events : List (SavedRiskEvent D)
  pub daily_pnl : D
  pub weekly_pnl : D
  pub peak_equity : D
  pub current_equity : D
  pub is_emergency_stop : Bool
  pub emergency_stop_reason : String
  pub last_data_time : Option ℕ
  pub consecutive_errors : ℕ
  pub database_available : Bool
  pub api_available : Bool
  pub reconciliation_ok : Bool

module _ {D : Type 0} where
  -- `_state`
  unfoldable pub state_of : RiskEngine D → SavedRiskState D
  state_of r = record {
    daily_pnl = r.daily_pnl;
    weekly_pnl = r.weekly_pnl;
    peak_equity = r.peak_equity;
    current_equity = r.current_equity;
    is_emergency_stop = r.is_emergency_stop;
    emergency_stop_reason = r.emergency_stop_reason;
    consecutive_errors = r.consecutive_errors;
  }

  -- `_restore_state`
  unfoldable pub restore_state : SavedRiskState D → RiskEngine D → RiskEngine D
  restore_state s r = record r {
    daily_pnl = s.daily_pnl;
    weekly_pnl = s.weekly_pnl;
    peak_equity = s.peak_equity;
    current_equity = s.current_equity;
    is_emergency_stop = s.is_emergency_stop;
    emergency_stop_reason = s.emergency_stop_reason;
    consecutive_errors = s.consecutive_errors;
  }

  -- `_save_state`
  unfoldable pub save_state : RiskEngine D → RiskEngine D
  unfolding state_of
  save_state r = if r.has_store then record r { saved_state = some (state_of r) } else r

  unfoldable pub update_system_health : Bool → Bool → RiskEngine D → RiskEngine D
  update_system_health database api r = record r {
    database_available = database;
    api_available = api;
  }

  unfoldable pub update_reconciliation : Bool → RiskEngine D → RiskEngine D
  update_reconciliation successful r = record r { reconciliation_ok = successful }

  unfoldable pub update_data_time : ℕ → RiskEngine D → RiskEngine D
  update_data_time timestamp r = record r { last_data_time = some timestamp }

  unfoldable pub update_pnl : D → D → RiskEngine D → RiskEngine D
  unfolding save_state
  update_pnl daily weekly r = save_state (record r { daily_pnl = daily; weekly_pnl = weekly })

  unfoldable pub set_emergency_stop : Bool → String → RiskEngine D → RiskEngine D
  unfolding save_state
  set_emergency_stop active reason r = save_state (record r {
    is_emergency_stop = active;
    emergency_stop_reason = if active then reason else "";
  })

  unfoldable pub record_error : RiskEngine D → RiskEngine D
  unfolding set_emergency_stop save_state
  record_error r =
      let r' = record r { consecutive_errors = suc r.consecutive_errors } in
      if leb 5 r'.consecutive_errors
      then set_emergency_stop true "Too many consecutive errors" r'
      else save_state r'

  unfoldable pub reset_errors : RiskEngine D → RiskEngine D
  unfolding save_state
  reset_errors r = save_state (record r { consecutive_errors = 0 })

module _ {D : Type 0} ⦃dec : Decimal D⦄ where
  unfoldable pub update_equity : D → RiskEngine D → RiskEngine D
  unfolding save_state
  update_equity equity r =
      save_state (record r { current_equity = equity; peak_equity = max r.peak_equity equity })

  unfoldable pub reset_daily : RiskEngine D → RiskEngine D
  unfolding save_state
  reset_daily r = save_state (record r { daily_pnl = dec_zero })

  unfoldable pub reset_weekly : RiskEngine D → RiskEngine D
  unfolding save_state
  reset_weekly r = save_state (record r { weekly_pnl = dec_zero })

  -- `RiskEngine(config, state_store)`
  unfoldable pub new_engine : RiskConfig D → Bool → Option (SavedRiskState D) → RiskEngine D
  unfolding restore_state
  new_engine config has_store stored =
      let fresh : RiskEngine D = record {
        config = config;
        has_store = has_store;
        saved_state = stored;
        saved_events = [];
        daily_pnl = dec_zero;
        weekly_pnl = dec_zero;
        peak_equity = dec_zero;
        current_equity = dec_zero;
        is_emergency_stop = false;
        emergency_stop_reason = "";
        last_data_time = none;
        consecutive_errors = 0;
        database_available = true;
        api_available = true;
        reconciliation_ok = true;
      } in
      if has_store then elim stored [ none ↦ fresh | some s ↦ restore_state s fresh ] else fresh
