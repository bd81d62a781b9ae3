-- ===== src/Execution/Idempotence.antt =====
-- A client order is executed at most once: a repeated call of `execute` gives the first result.
use crypto_trading_system.Base.{
  String, eq_iff, eq_refl, ◌≡◌, ◌≢◌, refl, Option, none, some, [], ◌∷◌, arith, inl, inr,
  Option-cases,
}
use crypto_trading_system.Base.Dict.{Dict, insert, lookup-insert}
use crypto_trading_system.Decimal.{Decimal}
use crypto_trading_system.Models.{ok, OrderSide, buy, sell, side_value, PaperFillState}
use crypto_trading_system.Execution.State.{
  Engine, ExecutionRequest, ExecutionResult, FillResult, Draw, Tags, execution_price,
  repeated_result, find_fill, parse_side, known_order,
}
use crypto_trading_system.Execution.Engine.{execute, book_fill, new_order, new_fill}

parse_side-side_value : (s : OrderSide) → parse_side (side_value s) ≡ some s
unfolding parse_side side_value
parse_side-side_value buy = refl
parse_side-side_value sell = refl

find_fill-insert :
    {D : Type 0} (c k : String) (f : PaperFillState D) (fills : Dict (PaperFillState D))
    → find_fill c fills ≡ none
    → f.order_id ≡ c
    → find_fill c (insert k f fills) ≡ some f
unfolding find_fill insert
find_fill-insert c k f [] h e = ground (arith, eq_iff f.order_id c)
find_fill-insert c k f ((j, g) ∷ fills) h e =
    ground (arith, eq_iff f.order_id c, find_fill-insert c k f fills)

module _ {D : Type 0} ⦃dec : Decimal D⦄ where
  booked_repeats :
      (request : ExecutionRequest D) (fill : FillResult D) (c : String) (tags : Tags) (draw : Draw)
      (e : Engine D)
      → c ≢ ""
      → tags.client_order_id ≡ some c
      → find_fill c e.fills ≡ none
      → let e' = book_fill request fill tags draw e in
        (known_order tags.client_order_id e'.client_orders ≡ some c)
        × (repeated_result c e'
            ≡ ok (record {
              symbol = request.symbol;
              side = request.side;
              quantity = fill.quantity;
              price = fill.price;
            }))
  unfolding book_fill known_order repeated_result
  booked_repeats request fill c tags draw e ne t unseen = ground (
    arith,
    t,
    eq_iff c "",
    eq_refl c,
    lookup-insert c c c e.client_orders,
    lookup-insert c c (new_order request fill tags draw) e.orders,
    find_fill-insert c draw.fill_id (new_fill request fill tags draw) e.fills,
    parse_side-side_value request.side,
  )

  -- After a first successful execution under a client order id that is not empty and that no fill
  -- carried before, every further call under that id, whatever it asks for, gives the first result
  -- again and leaves the engine as it is.
  pub execute_once :
      (request request' : ExecutionRequest D) (price price' : Option D) (tags tags' : Tags)
      (draw draw' : Draw) (e : Engine D) (c : String) {r : ExecutionResult D}
      → c ≢ ""
      → tags.client_order_id ≡ some c
      → tags'.client_order_id ≡ some c
      → find_fill c e.fills ≡ none
      → (execute request price tags draw e).1 ≡ ok r
      → let e' = (execute request price tags draw e).0 in
        execute request' price' tags' draw' e' ≡ (e', ok r)
  unfolding execute
  execute_once request request' price price' tags tags' draw draw' e c ne t t' unseen h =
      elim (Option-cases (execution_price price e.last_candle)) [
        | inl missing ↦ ground arith
        | inr (p, found) ↦ ground (
          arith,
          booked_repeats request
              (record { quantity = request.quantity; price = p; executed_at = draw.now }) c tags
              draw e,
        )
      ]
