-- ===== src/Backtest/Position.antt =====
-- `Position` of app/models/trading.py.
use crypto_trading_system.Base.{ℕ, suc, String, if◌then◌else◌, Option, none, some}
use crypto_trading_system.Decimal.{Decimal, dec_zero, ◌⊖◌, ◌⊗◌, ◌=?◌, max}

pub record Position (D : Type 0) : Type 0 where
  pub symbol : String
  pub side : String
  pub entry_price : D
  pub quantity : D
  pub entry_time : ℕ
  pub stop_loss : Option D
  pub take_profit : Option D
  pub trailing_stop : Option D
  pub unrealized_pnl : D
  pub current_price : Option D
  pub entry_commission : D
  pub high_water_mark : Option D
  pub holding_periods : ℕ

module _ {D : Type 0} ⦃dec : Decimal D⦄ where
  -- `x or default`: a missing value and zero are both falsy.
  unfoldable pub truthy_or : Option D → D → D
  truthy_or none d = d
  truthy_or (some x) d = if x =? dec_zero then d else x

  unfoldable pub position_value : Position D → D
  unfolding truthy_or
  position_value p = truthy_or p.current_price p.entry_price ⊗ p.quantity

  unfoldable pub update_market : D → Option D → Position D → Position D
  unfolding truthy_or
  update_market price high p =
      let observed_high = truthy_or high price in
      record p {
        current_price = some price;
        unrealized_pnl = (price ⊖ p.entry_price) ⊗ p.quantity;
        high_water_mark = some (max (truthy_or p.high_water_mark observed_high) observed_high);
        holding_periods = suc p.holding_periods;
      }
