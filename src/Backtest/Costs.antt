-- ===== src/Backtest/Costs.antt =====
-- app/backtest/commission_model.py and slippage_model.py. The random part of the slippage is an
-- argument: the value that the seeded generator draws for the call.
use crypto_trading_system.Base.{Bool, ◌&&◌, if◌then◌else◌, Option, none, some}
use crypto_trading_system.Decimal.{Decimal, literal, dec_zero, ◌⊕◌, ◌⊖◌, ◌⊗◌, ◌⊘◌, ◌<?◌, max, abs}

pub record CommissionConfig (D : Type 0) : Type 0 where
  pub maker_fee : D
  pub taker_fee : D
  pub minimum_fee : D

pub record SlippageConfig (D : Type 0) : Type 0 where
  pub fixed_slippage : D
  pub random_slippage_min : D
  pub random_slippage_max : D
  pub volume_impact_threshold : D
  pub volume_impact_factor : D

module _ {D : Type 0} ⦃dec : Decimal D⦄ where
  unfoldable pub calculate_commission : CommissionConfig D → D → D → Bool → D
  calculate_commission config quantity price is_maker =
      max ((quantity ⊗ price) ⊗ (if is_maker then config.maker_fee else config.taker_fee))
        config.minimum_fee

  unfoldable pub calculate_total_cost : CommissionConfig D → D → D → Bool → D
  unfolding calculate_commission
  calculate_total_cost config quantity price is_maker =
      quantity ⊗ price ⊕ calculate_commission config quantity price is_maker

  unfoldable pub calculate_net_proceeds : CommissionConfig D → D → D → Bool → D
  unfolding calculate_commission
  calculate_net_proceeds config quantity price is_maker =
      quantity ⊗ price ⊖ calculate_commission config quantity price is_maker

  -- The random part, drawn only if the range is not empty.
  unfoldable pub random_part : SlippageConfig D → D → D → D
  random_part config drawn slippage =
      if config.random_slippage_min <? config.random_slippage_max
      then slippage ⊕ drawn
      else slippage

  unfoldable pub volume_part : SlippageConfig D → D → Option D → D → D
  volume_part config quantity none slippage = slippage
  volume_part config quantity (some average) slippage =
      if dec_zero <? average && config.volume_impact_threshold <? quantity ⊘ average
      then slippage
        ⊕ (quantity ⊘ average ⊖ config.volume_impact_threshold)
          ⊘ config.volume_impact_threshold
          ⊗ config.volume_impact_factor
      else slippage

  unfoldable pub total_slippage : SlippageConfig D → D → Option D → D → D
  unfolding random_part volume_part
  total_slippage config quantity average drawn =
      volume_part config quantity average (random_part config drawn config.fixed_slippage)

  unfoldable pub calculate_slippage : SlippageConfig D → D → D → Option D → D → Bool → D
  unfolding total_slippage
  calculate_slippage config price quantity average drawn is_buy =
      if is_buy
      then price ⊗ (literal 1 0 ⊕ total_slippage config quantity average drawn)
      else price ⊗ (literal 1 0 ⊖ total_slippage config quantity average drawn)

  unfoldable pub calculate_slippage_cost : D → D → D → D
  calculate_slippage_cost reference execution quantity = abs (execution ⊖ reference) ⊗ quantity
