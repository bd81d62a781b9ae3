-- ===== src/Backtest/Engine.antt =====
-- The way of one order of the backtest through slippage, risk check, commission and portfolio:
-- app/backtest/backtest_engine.py.
use crypto_trading_system.Base.{
  ℕ, suc, String, ◌=ₛ◌, Bool, false, not, if◌then◌else◌, Option, none, some, [], ◌∷◌, ◌++◌, map,
  is_some,
}
use crypto_trading_system.Base.Dict.{lookup}
use crypto_trading_system.Decimal.{Decimal}
use crypto_trading_system.Models.{Result, ok, raise}
use crypto_trading_system.Risk.Engine.{high}
use crypto_trading_system.Risk.Check.{check_trade}
use crypto_trading_system.Backtest.Costs.{calculate_commission, calculate_slippage}
use crypto_trading_system.Backtest.Portfolio.{Portfolio, Entry, open_position, close_position}
use crypto_trading_system.Backtest.Signals.{
  Signal, Fill, BacktestError, unknown_action, parse_action, is_entry,
}
use crypto_trading_system.Backtest.Orders.{
  Order, RiskDecision, no_position, by_event, BacktestEngine, Outside, Candidate, next_id,
  trade_of_order,
}

module _ {D : Type 0} ⦃dec : Decimal D⦄ where
  -- Slippage and `_check_risk` for one quantity.
  unfoldable pub check_candidate :
      Outside D → Order D → D → Option D → BacktestEngine D → BacktestEngine D × Candidate D
  unfolding trade_of_order
  check_candidate world o quantity average_volume e =
      let price =
        calculate_slippage e.config.slippage_config o.requested_price quantity average_volume
          (world.random e.ticks) (o.side =ₛ "buy") in
      let trade =
        trade_of_order (record o { quantity = quantity }) price (world.clock (suc e.ticks))
          e.portfolio in
      let (risk, result) = check_trade e.risk_engine trade in
      (
        record e { risk_engine = risk; ticks = suc (suc e.ticks) },
        record { price = price; quantity = quantity; result = result },
      )

  -- A refused order that has an adjusted quantity is checked once more with it.
  unfoldable pub check_order :
      Outside D → Order D → Option D → BacktestEngine D → BacktestEngine D × Candidate D
  unfolding check_candidate
  check_order world o average_volume e =
      let first = check_candidate world o o.quantity average_volume e in
      if first.1.result.approved then first else elim first.1.result.adjusted_quantity [
        | none ↦ first
        | some q ↦ check_candidate world o q average_volume first.0
      ]

  -- `_risk_decision`
  unfoldable pub decision_of : Order D → Candidate D → RiskDecision D
  decision_of o c = record {
    order_id = o.order_id;
    approved = c.result.approved;
    risk_level = c.result.risk_level;
    codes = map by_event c.result.events;
    requested_quantity = o.quantity;
    approved_quantity = if c.result.approved then some c.quantity else none;
    run_id = o.run_id;
    signal_id = o.signal_id;
  }

  unfoldable pub commission_of : Candidate D → BacktestEngine D → D
  commission_of c e = calculate_commission e.config.commission_config c.quantity c.price false

  -- The arguments of `open_position` for a buy.
  unfoldable pub entry_of : Order D → Candidate D → D → Entry D
  entry_of o c commission = record {
    symbol = o.signal.symbol;
    side = "long";
    price = c.price;
    quantity = c.quantity;
    timestamp = o.created_at;
    stop_loss = o.signal.stop_loss;
    take_profit = o.signal.take_profit;
    commission = commission;
  }

  unfoldable pub close_order : Order D → Candidate D → D → Portfolio D → Portfolio D × Bool
  close_order o c commission p =
      let (p', pnl) = close_position o.signal.symbol c.price o.created_at commission p in
      (p', is_some pnl)

  -- The call of the portfolio, and whether it went through.
  unfoldable pub book_order : Order D → Candidate D → BacktestEngine D → Portfolio D × Bool
  unfolding commission_of entry_of close_order
  book_order o c e =
      if o.side =ₛ "buy"
      then open_position (entry_of o c (commission_of c e)) e.portfolio
      else close_order o c (commission_of c e) e.portfolio

  unfoldable pub fill_of : Order D → Candidate D → D → String → Fill D
  fill_of o c commission fill_id = record {
    fill_id = fill_id;
    order_id = o.order_id;
    symbol = o.signal.symbol;
    side = o.side;
    quantity = c.quantity;
    price = c.price;
    commission = commission;
    timestamp = o.created_at;
    run_id = o.run_id;
    signal_id = o.signal_id;
  }

  -- What follows the decision.
  unfoldable pub settle_order :
      Order D → Candidate D → BacktestEngine D → BacktestEngine D × Option (Fill D)
  unfolding book_order fill_of next_id
  settle_order o c e =
      if not c.result.approved
      then (e, none)
      else (let (p, booked) = book_order o c e in
          if not booked
          then (record e { portfolio = p }, none)
          else (let f = fill_of o c (commission_of c e) (next_id "fill" e).1 in
              (
                record e { portfolio = p; sequence = suc e.sequence; fills = e.fills ++ (f ∷ []) },
                some f,
              )))

  unfoldable pub execute_order :
      Outside D → Order D → Option D → BacktestEngine D → BacktestEngine D × Option (Fill D)
  unfolding check_order decision_of settle_order
  execute_order world o average_volume e =
      let (e', c) = check_order world o average_volume e in
      settle_order o c (record e' { risk_decisions = e'.risk_decisions ++ (decision_of o c ∷ []) })

  unfoldable pub refused_for_no_position : Signal D → RiskDecision D
  refused_for_no_position s = record {
    order_id = "";
    approved = false;
    risk_level = high;
    codes = no_position ∷ [];
    requested_quantity = s.quantity;
    approved_quantity = none;
    run_id = s.run_id;
    signal_id = s.signal_id;
  }

  unfoldable pub signal_order : Signal D → String → D → D → ℕ → String → Order D
  signal_order s side quantity requested_price timestamp order_id = record {
    order_id = order_id;
    signal = s;
    side = side;
    quantity = quantity;
    requested_price = requested_price;
    created_at = timestamp;
    run_id = s.run_id;
    signal_id = s.signal_id;
  }

  unfoldable pub place_order :
      Outside D
      → Signal D
      → String
      → D
      → D
      → ℕ
      → Option D
      → BacktestEngine D
      → BacktestEngine D × Option (Fill D)
  unfolding signal_order next_id execute_order
  place_order world s side quantity requested_price timestamp average_volume e =
      let (e', order_id) = next_id "order" e in
      let o = signal_order s side quantity requested_price timestamp order_id in
      execute_order world o average_volume (record e' { orders = e'.orders ++ (o ∷ []) })

  unfoldable pub create_and_execute_order :
      Outside D
      → Signal D
      → D
      → ℕ
      → Option D
      → BacktestEngine D
      → BacktestEngine D × Result BacktestError (Option (Fill D))
  unfolding parse_action place_order refused_for_no_position
  create_and_execute_order world s requested_price timestamp average_volume e =
      elim (parse_action s.action) [
        | none ↦ (e, raise unknown_action)
        | some action ↦
            if is_entry action
            then (let (e', f) =
                  place_order world s "buy" s.quantity requested_price timestamp average_volume e in
                (e', ok f))
            else elim (lookup s.symbol e.portfolio.positions) [
              | none ↦ (
                record e { risk_decisions = e.risk_decisions ++ (refused_for_no_position s ∷ []) },
                ok none,
              )
              | some p ↦
                  (let (e', f) =
                      place_order world s "sell" p.quantity requested_price timestamp average_volume
                        e in
                    (e', ok f))
            ]
      ]
