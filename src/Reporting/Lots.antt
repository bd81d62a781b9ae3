-- ===== src/Reporting/Lots.antt =====
-- `PaperPnLTracker.calculate_realized_pnl` and the loops over fills and positions beside it:
-- app/reporting/paper_pnl.py.
use crypto_trading_system.Base.{
  String, if◌then◌else◌, Option, none, some, List, [], ◌∷◌, ◌++◌, get_or_else,
}
use crypto_trading_system.Base.Dict.{Dict, lookup, insert}
use crypto_trading_system.Base.Text.{upper_is}
use crypto_trading_system.Decimal.{Decimal, dec_zero, ◌⊕◌, ◌⊖◌, ◌⊗◌, ◌⊘◌, ◌<?◌, ◌=?◌, abs}
use crypto_trading_system.Models.{
  Result, ok, raise, Candle, OrderSide, buy, sell, PaperOrderState, PaperFillState,
  PaperPositionState,
}

-- The three texts of the `ValueError`.
pub data PnlError : Type 0 where
  order_not_found unsupported_side sell_exceeds_tracked : PnlError

-- `side.upper()`, one of BUY and SELL or refused.
unfoldable pub replay_side : String → Option OrderSide
unfolding upper_is
replay_side s = if upper_is s "BUY" then some buy else if upper_is s "SELL" then some sell else none

-- The entry of `position_tracker` for one symbol.
pub record Lot (D : Type 0) : Type 0 where
  pub quantity : D
  pub avg_cost : D
  pub cost_basis : D

-- The local variables of the loop over the fills.
pub record LotBook (D : Type 0) : Type 0 where
  pub position_tracker : Dict (Lot D)
  pub realized_pnl : D
  pub trade_pnl_records : List D

module _ {D : Type 0} where
  -- `{order.order_id: order for order in orders}`
  unfoldable pub index_orders :
      Dict (PaperOrderState D) → List (PaperOrderState D) → Dict (PaperOrderState D)
  index_orders known [] = known
  index_orders known (o ∷ orders) = index_orders (insert o.order_id o known) orders

module _ {D : Type 0} ⦃dec : Decimal D⦄ where
  unfoldable pub tracked_lot : String → Dict (Lot D) → Lot D
  tracked_lot symbol lots =
      get_or_else (lookup symbol lots)
        (record { quantity = dec_zero; avg_cost = dec_zero; cost_basis = dec_zero })

  unfoldable pub bought_lot : PaperFillState D → Lot D → Lot D
  bought_lot f lot =
      let new_qty = lot.quantity ⊕ f.quantity in
      let new_cost_basis = lot.cost_basis ⊕ f.quantity ⊗ f.price in
      record {
        quantity = new_qty;
        avg_cost = if dec_zero <? new_qty then new_cost_basis ⊘ new_qty else lot.avg_cost;
        cost_basis = new_cost_basis;
      }

  unfoldable pub sold_lot : PaperFillState D → Lot D → Lot D
  sold_lot f lot =
      let new_qty = lot.quantity ⊖ f.quantity in
      record lot {
        quantity = new_qty;
        cost_basis = if dec_zero <? new_qty then new_qty ⊗ lot.avg_cost else dec_zero;
      }

  unfoldable pub trade_pnl : PaperFillState D → Lot D → D
  trade_pnl f lot = f.quantity ⊗ f.price ⊖ f.quantity ⊗ lot.avg_cost

  unfoldable pub book_purchase : PaperFillState D → LotBook D → LotBook D
  unfolding tracked_lot bought_lot
  book_purchase f b = record b {
    position_tracker =
        insert f.symbol (bought_lot f (tracked_lot f.symbol b.position_tracker)) b.position_tracker;
  }

  unfoldable pub book_sale : PaperFillState D → LotBook D → LotBook D
  unfolding tracked_lot sold_lot trade_pnl
  book_sale f b =
      let lot = tracked_lot f.symbol b.position_tracker in
      record {
        position_tracker = insert f.symbol (sold_lot f lot) b.position_tracker;
        realized_pnl = b.realized_pnl ⊕ trade_pnl f lot;
        trade_pnl_records = b.trade_pnl_records ++ (trade_pnl f lot ∷ []);
      }

  unfoldable pub replay_order :
      OrderSide → PaperFillState D → LotBook D → Result PnlError (LotBook D)
  unfolding tracked_lot book_purchase book_sale
  replay_order buy f b = ok (book_purchase f b)
  replay_order sell f b =
      if (tracked_lot f.symbol b.position_tracker).quantity <? f.quantity
      then raise sell_exceeds_tracked
      else ok (book_sale f b)

  unfoldable pub replay_fill :
      Dict (PaperOrderState D) → PaperFillState D → LotBook D → Result PnlError (LotBook D)
  unfolding replay_side
  replay_fill orders_by_id f b = elim (lookup f.order_id orders_by_id) [
    | none ↦ raise order_not_found
    | some order ↦ elim (replay_side order.side) [
      | none ↦ raise unsupported_side
      | some side ↦ replay_order side f b
    ]
  ]

  unfoldable pub replay_fills :
      Dict (PaperOrderState D) → List (PaperFillState D) → LotBook D → Result PnlError (LotBook D)
  replay_fills orders_by_id [] b = ok b
  replay_fills orders_by_id (f ∷ fills) b = elim (replay_fill orders_by_id f b) [
    | raise x ↦ raise x
    | ok b' ↦ replay_fills orders_by_id fills b'
  ]

  abbrev pub no_lots : LotBook D
  no_lots = record { position_tracker = []; realized_pnl = dec_zero; trade_pnl_records = [] }

  -- `EnginePriceProvider.get_price`: the close of the last candle, whatever the symbol.
  unfoldable pub engine_price : Option (Candle D) → String → Option D
  engine_price none symbol = none
  engine_price (some c) symbol = some c.close

  unfoldable pub unrealized_from : (String → Option D) → D → Dict (PaperPositionState D) → D
  unrealized_from get_price acc [] = acc
  unrealized_from get_price acc ((symbol, p) ∷ positions) =
      let rest = λ (a : D). unrealized_from get_price a positions in
      if p.quantity =? dec_zero then rest acc else elim (get_price symbol) [
        | none ↦ rest acc
        | some price ↦ rest (acc ⊕ (price ⊖ p.average_price) ⊗ p.quantity)
      ]

  unfoldable pub calculate_unrealized_pnl : Dict (PaperPositionState D) → (String → Option D) → D
  unfolding unrealized_from
  calculate_unrealized_pnl positions get_price = unrealized_from get_price dec_zero positions

  unfoldable pub fees_from : D → D → List (PaperFillState D) → D
  fees_from rate acc [] = acc
  fees_from rate acc (f ∷ fills) = fees_from rate (acc ⊕ abs (f.quantity ⊗ f.price) ⊗ rate) fills

  unfoldable pub slippage_from : Dict D → D → List (PaperFillState D) → D
  slippage_from expected_prices acc [] = acc
  slippage_from expected_prices acc (f ∷ fills) =
      let expected = get_or_else (lookup f.fill_id expected_prices) f.price in
      slippage_from expected_prices (acc ⊕ abs (f.price ⊖ expected) ⊗ f.quantity) fills
