-- ===== src/Backtest/Portfolio.antt =====
-- `Portfolio` of app/backtest/portfolio.py. The recorded duration of a trade is the difference of the
-- two times recorded with it, and is not a field of its own.
use crypto_trading_system.Base.{
  ℕ, String, ◌=ₛ◌, Bool, true, false, ◌||◌, not, if◌then◌else◌, Option, none, some, List, [], ◌∷◌,
  ◌++◌, map,
}
use crypto_trading_system.Base.Dict.{Dict, lookup, insert, erase}
use crypto_trading_system.Decimal.{Decimal, dec_zero, ◌⊕◌, ◌⊖◌, ◌⊗◌, ◌⊘◌, ◌<?◌, ◌≤?◌, sum}
use crypto_trading_system.Backtest.Position.{Position, position_value, update_market}

pub record OpenRecord (D : Type 0) : Type 0 where
  pub symbol : String
  pub side : String
  pub price : D
  pub quantity : D
  pub timestamp : ℕ
  pub commission : D

pub record CloseRecord (D : Type 0) : Type 0 where
  pub symbol : String
  pub side : String
  pub entry_price : D
  pub exit_price : D
  pub quantity : D
  pub pnl : D
  pub commission : D
  pub entry_time : ℕ
  pub exit_time : ℕ

-- An entry of `trade_history`, by its "type".
pub data TradeRecord (D : Type 0) : Type 0 where
  opened : OpenRecord D → TradeRecord D
  closed : CloseRecord D → TradeRecord D

pub record Portfolio (D : Type 0) : Type 0 where
  pub initial_balance : D
  pub balance : D
  pub positions : Dict (Position D)
  pub closed_positions : List (Position D)
  pub trade_history : List (TradeRecord D)
  pub equity_history : List (ℕ × D)
  pub max_drawdown : D

-- The arguments of `open_position`.
pub record Entry (D : Type 0) : Type 0 where
  pub symbol : String
  pub side : String
  pub price : D
  pub quantity : D
  pub timestamp : ℕ
  pub stop_loss : Option D
  pub take_profit : Option D
  pub commission : D

abbrev or_else : {D : Type 0} → Option D → Option D → Option D
or_else none old = old
or_else (some x) old = some x

module _ {D : Type 0} ⦃dec : Decimal D⦄ where
  unfoldable pub new_portfolio : D → Portfolio D
  new_portfolio initial = record {
    initial_balance = initial;
    balance = initial;
    positions = [];
    closed_positions = [];
    trade_history = [];
    equity_history = [];
    max_drawdown = dec_zero;
  }

  -- The summands of a sum over the positions.
  unfoldable pub over_positions : (Position D → D) → Dict (Position D) → List D
  over_positions f [] = []
  over_positions f ((_, p) ∷ ps) = f p ∷ over_positions f ps

  unfoldable pub total_equity : Portfolio D → D
  unfolding over_positions
  total_equity p = p.balance ⊕ sum (over_positions position_value p.positions)

  unfoldable pub unrealized_pnl : Portfolio D → D
  unfolding over_positions
  unrealized_pnl p = sum (over_positions (λ q. q.unrealized_pnl) p.positions)

  -- `trade.get("pnl", "0")`
  unfoldable pub pnl_of : TradeRecord D → D
  pnl_of (opened _) = dec_zero
  pnl_of (closed r) = r.pnl

  unfoldable pub realized_pnl : Portfolio D → D
  unfolding pnl_of
  realized_pnl p = sum (map pnl_of p.trade_history)

  unfoldable pub entry_cost : Entry D → D
  entry_cost x = x.price ⊗ x.quantity ⊕ x.commission

  unfoldable pub first_fill : Entry D → Position D
  first_fill x = record {
    symbol = x.symbol;
    side = x.side;
    entry_price = x.price;
    quantity = x.quantity;
    entry_time = x.timestamp;
    stop_loss = x.stop_loss;
    take_profit = x.take_profit;
    trailing_stop = none;
    unrealized_pnl = dec_zero;
    current_price = some x.price;
    entry_commission = x.commission;
    high_water_mark = some x.price;
    holding_periods = 0;
  }

  -- A repeated buy: the entry price becomes the average over both quantities.
  unfoldable pub dca_fill : Entry D → Position D → Position D
  unfolding update_market
  dca_fill x p = update_market x.price (some x.price) (record p {
    entry_price = (p.entry_price ⊗ p.quantity ⊕ x.price ⊗ x.quantity) ⊘ (p.quantity ⊕ x.quantity);
    quantity = p.quantity ⊕ x.quantity;
    entry_commission = p.entry_commission ⊕ x.commission;
    current_price = some x.price;
    stop_loss = or_else x.stop_loss p.stop_loss;
    take_profit = or_else x.take_profit p.take_profit;
  })

  unfoldable pub filled_position : Entry D → Option (Position D) → Position D
  unfolding first_fill dca_fill
  filled_position x none = first_fill x
  filled_position x (some p) = dca_fill x p

  unfoldable pub open_record : Entry D → TradeRecord D
  open_record x = opened (record {
    symbol = x.symbol;
    side = x.side;
    price = x.price;
    quantity = x.quantity;
    timestamp = x.timestamp;
    commission = x.commission;
  })

  unfoldable pub open_position : Entry D → Portfolio D → Portfolio D × Bool
  unfolding entry_cost filled_position open_record
  open_position x p =
      if not (x.side =ₛ "long") || x.quantity ≤? dec_zero
      then (p, false)
      else if p.balance <? entry_cost x
      then (p, false)
      else (
        record p {
          balance = p.balance ⊖ entry_cost x;
          positions = insert x.symbol (filled_position x (lookup x.symbol p.positions)) p.positions;
          trade_history = p.trade_history ++ (open_record x ∷ []);
        },
        true,
      )

  unfoldable pub closing_pnl : D → D → Position D → D
  closing_pnl price commission q =
      (price ⊖ q.entry_price) ⊗ q.quantity ⊖ q.entry_commission ⊖ commission

  unfoldable pub close_record : String → D → ℕ → D → Position D → TradeRecord D
  unfolding closing_pnl
  close_record symbol price timestamp commission q = closed (record {
    symbol = symbol;
    side = q.side;
    entry_price = q.entry_price;
    exit_price = price;
    quantity = q.quantity;
    pnl = closing_pnl price commission q;
    commission = commission;
    entry_time = q.entry_time;
    exit_time = timestamp;
  })

  unfoldable pub close_position : String → D → ℕ → D → Portfolio D → Portfolio D × Option D
  unfolding closing_pnl close_record
  close_position symbol price timestamp commission p = elim (lookup symbol p.positions) [
    | none ↦ (p, none)
    | some q ↦ (
      record p {
        balance = p.balance ⊕ (price ⊗ q.quantity ⊖ commission);
        positions = erase symbol p.positions;
        closed_positions =
            p.closed_positions
            ++ (record q { unrealized_pnl = closing_pnl price commission q } ∷ []);
        trade_history = p.trade_history ++ (close_record symbol price timestamp commission q ∷ []);
      },
      some (closing_pnl price commission q),
    )
  ]
