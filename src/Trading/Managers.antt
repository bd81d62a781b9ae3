-- ===== src/Trading/Managers.antt =====
-- `RiskEngineAdapter` of app/runtime/dependencies.py and `DefaultRiskManager`.
use crypto_trading_system.Base.{
  ℕ, ◌≡◌, Bool, true, false, if◌then◌else◌, Option, none, some, [], ◌∷◌, arith, inl, inr,
}
use crypto_trading_system.Base.Dict.{Dict}
use crypto_trading_system.Decimal.{Decimal, dec_zero, ◌⊕◌, ◌⊖◌, ◌⊗◌, ◌<?◌, abs}
use crypto_trading_system.Models.{side_value, PaperPositionState}
use crypto_trading_system.Execution.State.{Engine, ExecutionRequest, is_sell}
use crypto_trading_system.Execution.Engine.{held_quantity}
use crypto_trading_system.Risk.Engine.{RiskEngine}
use crypto_trading_system.Risk.Trade.{HeldPosition, Trade, reducing}
use crypto_trading_system.Risk.Check.{check_trade}
use crypto_trading_system.Risk.Approval.{check_trade_approves}

pub record DefaultRiskManager (D : Type 0) : Type 0 where
  pub max_position_size : Option D
  pub max_order_value : Option D

module _ {D : Type 0} ⦃dec : Decimal D⦄ where
  -- `engine.last_candle.close if engine.last_candle else Decimal("0")`
  unfoldable pub last_close : Engine D → D
  last_close e = elim e.last_candle [ none ↦ dec_zero | some c ↦ c.close ]

  unfoldable pub positions_of : Dict (PaperPositionState D) → Dict (HeldPosition D)
  positions_of [] = []
  positions_of ((symbol, p) ∷ ps) =
      (symbol, record { symbol = some symbol; side = "buy"; value = p.quantity ⊗ p.average_price })
      ∷ positions_of ps

  -- The trade that the adapter puts to the risk engine.
  unfoldable pub trade_of : D → ℕ → ExecutionRequest D → Engine D → Trade D
  unfolding last_close positions_of
  trade_of total_capital now request e = record {
    symbol = request.symbol;
    side = side_value request.side;
    quantity = request.quantity;
    price = last_close e;
    current_balance = e.cash_balance;
    current_positions = positions_of e.positions;
    total_capital = total_capital;
    stop_loss_price = none;
    database_available = none;
    api_available = none;
    reconciliation_ok = none;
    order_statuses = [];
    now = now;
  }

  -- `RiskEngineAdapter.validate_request`
  unfoldable pub adapter_validate :
      D → ℕ → ExecutionRequest D → Engine D → RiskEngine D → RiskEngine D × Bool
  unfolding trade_of
  adapter_validate total_capital now request e r =
      let (r', result) = check_trade r (trade_of total_capital now request e) in
      (r', result.approved)

  -- `DefaultRiskManager.validate_request`
  unfoldable pub order_value_allowed : DefaultRiskManager D → ExecutionRequest D → Engine D → Bool
  unfolding last_close
  order_value_allowed m request e = elim m.max_order_value [
    | none ↦ true
    | some limit ↦ if limit <? request.quantity ⊗ last_close e then false else true
  ]

  unfoldable pub position_after : ExecutionRequest D → Engine D → D
  position_after request e =
      if is_sell request.side
      then abs (held_quantity request.symbol e ⊖ request.quantity)
      else held_quantity request.symbol e ⊕ request.quantity

  unfoldable pub default_validate : DefaultRiskManager D → ExecutionRequest D → Engine D → Bool
  unfolding order_value_allowed position_after
  default_validate m request e =
      if order_value_allowed m request e
      then elim m.max_position_size [
        | none ↦ true
        | some limit ↦ if limit <? position_after request e then false else true
      ]
      else false

  -- While the emergency stop is in force, the adapter approves reducing trades only.
  pub adapter_validate_stopped :
      (total_capital : D) (now : ℕ) (request : ExecutionRequest D) (e : Engine D) (r : RiskEngine D)
      → r.is_emergency_stop ≡ true
      → (adapter_validate total_capital now request e r).1 ≡ true
      → reducing (trade_of total_capital now request e) ≡ true
  unfolding adapter_validate
  adapter_validate_stopped total_capital now request e r stop approved =
      elim ((check_trade_approves r (trade_of total_capital now request e)).0 approved).1 [
        | inl h ↦ h
        | inr w ↦ ground (arith, w.no_emergency)
      ]
