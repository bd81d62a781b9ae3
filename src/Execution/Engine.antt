-- ===== src/Execution/Engine.antt =====
-- The operations of `PaperExecutionEngine` and `FillSimulator`. A call returns the engine as it stands
-- after a normal return and after a raise alike.
use crypto_trading_system.Base.{
  ℕ, String, Bool, true, false, ◌&&◌, leb, if◌then◌else◌, Option, none, some,
}
use crypto_trading_system.Base.Dict.{lookup, insert}
use crypto_trading_system.Decimal.{Decimal, dec_zero, ◌⊕◌, ◌⊖◌, ◌⊗◌, ◌⊘◌, ◌<?◌, ◌≤?◌, ◌=?◌}
use crypto_trading_system.Models.{
  Result, ok, raise, validate, MarketEvent, OrderSide, buy, sell, side_value, PaperOrderState,
  PaperFillState, PaperPositionState,
}
use crypto_trading_system.Execution.State.{
  ExecutionRequest, ExecutionResult, ExecutionError, bad_quantity, bad_market_price,
  no_market_candle, sell_exceeds_position, bad_candle, FillResult, save_state, persist_execution,
  Engine, Draw, Tags, is_sell, order_id_of, is_replay, known_order, remember, schedule,
  repeated_result, execution_price,
}

module _ {D : Type 0} ⦃dec : Decimal D⦄ where
  unfoldable pub on_market_event : MarketEvent D → Engine D → Engine D × Result ExecutionError Bool
  unfolding validate is_replay schedule
  on_market_event ev e = elim (validate ev.candle) [
    | raise x ↦ (e, raise (bad_candle x))
    | ok _ ↦
        if leb ev.sequence e.last_sequence
        then (e, ok false)
        else if is_replay e.last_processed_timestamp ev.candle.open_time
        then (e, ok false)
        else (
          schedule save_state (record e {
            last_sequence = ev.sequence;
            last_candle = some ev.candle;
            last_processed_timestamp = some ev.candle.open_time;
          }),
          ok true,
        )
  ]

  -- `FillSimulator.execute`
  unfoldable pub simulate_fill : D → D → ℕ → Result ExecutionError (FillResult D)
  simulate_fill quantity market_price now =
      if quantity ≤? dec_zero
      then raise bad_quantity
      else if market_price ≤? dec_zero
      then raise bad_market_price
      else ok (record { quantity = quantity; price = market_price; executed_at = now })

  -- `self.positions.get(symbol)`, read as quantity and average price.
  unfoldable pub held_quantity : String → Engine D → D
  held_quantity symbol e = elim (lookup symbol e.positions) [
    | none ↦ dec_zero
    | some p ↦ p.quantity
  ]

  unfoldable pub held_price : String → Engine D → D
  held_price symbol e = elim (lookup symbol e.positions) [
    | none ↦ dec_zero
    | some p ↦ p.average_price
  ]

  -- `new_qty` and `new_price`
  unfoldable pub new_quantity : OrderSide → D → D → D
  new_quantity sell held filled = held ⊖ filled
  new_quantity buy held filled = held ⊕ filled

  unfoldable pub new_price : OrderSide → D → D → FillResult D → D
  new_price sell held price fill = if dec_zero <? held ⊖ fill.quantity then price else dec_zero
  new_price buy held price fill =
      if held =? dec_zero
      then fill.price
      else (price ⊗ held ⊕ fill.price ⊗ fill.quantity) ⊘ (held ⊕ fill.quantity)

  unfoldable pub new_position : ExecutionRequest D → FillResult D → Engine D → PaperPositionState D
  unfolding held_quantity held_price new_quantity new_price
  new_position request fill e = record {
    symbol = request.symbol;
    quantity = new_quantity request.side (held_quantity request.symbol e) fill.quantity;
    average_price =
        new_price request.side (held_quantity request.symbol e) (held_price request.symbol e) fill;
  }

  unfoldable pub new_order : ExecutionRequest D → FillResult D → Tags → Draw → PaperOrderState D
  unfolding order_id_of side_value
  new_order request fill tags draw = record {
    order_id = order_id_of tags.client_order_id draw.order_id;
    symbol = request.symbol;
    side = side_value request.side;
    quantity = fill.quantity;
    status = "FILLED";
    created_at = draw.now;
    client_order_id = tags.client_order_id;
    run_id = tags.run_id;
    signal_id = tags.signal_id;
  }

  unfoldable pub new_fill : ExecutionRequest D → FillResult D → Tags → Draw → PaperFillState D
  unfolding order_id_of
  new_fill request fill tags draw = record {
    fill_id = draw.fill_id;
    order_id = order_id_of tags.client_order_id draw.order_id;
    symbol = request.symbol;
    quantity = fill.quantity;
    price = fill.price;
    executed_at = draw.now;
    run_id = tags.run_id;
    signal_id = tags.signal_id;
  }

  -- What `execute` writes once the fill is known.
  unfoldable pub book_fill : ExecutionRequest D → FillResult D → Tags → Draw → Engine D → Engine D
  unfolding new_position new_order new_fill order_id_of remember schedule
  book_fill request fill tags draw e =
      let position = new_position request fill e in
      let order = new_order request fill tags draw in
      let fill_state = new_fill request fill tags draw in
      schedule (persist_execution order fill_state position) (record e {
        positions = insert request.symbol position e.positions;
        orders = insert (order_id_of tags.client_order_id draw.order_id) order e.orders;
        fills = insert draw.fill_id fill_state e.fills;
        client_orders =
            remember tags.client_order_id (order_id_of tags.client_order_id draw.order_id)
              e.client_orders;
      })

  unfoldable pub execute_new :
      ExecutionRequest D
      → Option D
      → Tags
      → Draw
      → Engine D
      → Engine D × Result ExecutionError (ExecutionResult D)
  unfolding execution_price simulate_fill
  execute_new request market_price tags draw e = elim (execution_price market_price e.last_candle) [
    | none ↦ (e, raise no_market_candle)
    | some price ↦
        if is_sell request.side && (held_quantity request.symbol e <? request.quantity)
        then (e, raise sell_exceeds_position)
        else elim (simulate_fill request.quantity price draw.now) [
          | raise x ↦ (e, raise x)
          | ok fill ↦
              if is_sell request.side && (held_quantity request.symbol e <? fill.quantity)
              then (e, raise sell_exceeds_position)
              else (
                book_fill request fill tags draw e,
                ok (record {
                  symbol = request.symbol;
                  side = request.side;
                  quantity = fill.quantity;
                  price = fill.price;
                }),
              )
        ]
  ]

  unfoldable pub execute :
      ExecutionRequest D
      → Option D
      → Tags
      → Draw
      → Engine D
      → Engine D × Result ExecutionError (ExecutionResult D)
  unfolding known_order execute_new
  execute request market_price tags draw e =
      elim (known_order tags.client_order_id e.client_orders) [
        | some order_id ↦ (e, repeated_result order_id e)
        | none ↦ execute_new request market_price tags draw e
      ]
