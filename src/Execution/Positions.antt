-- ===== src/Execution/Positions.antt =====
-- What `execute` does to the books: a raise changes nothing, holdings never turn negative, and a
-- client order is executed at most once.
use crypto_trading_system.Base.{
  ℕ, String, ◌=ₛ◌, ◌≡◌, true, false, ◌&&◌, Option, arith, inl, inr, if◌then◌else◌, Option-cases,
}
use crypto_trading_system.Base.Dict.{lookup-insert}
use crypto_trading_system.Decimal.{Decimal, dec_zero, ◌<?◌, lt_asymm, sub_nonneg, add_nonneg}
use crypto_trading_system.Models.{raise}
use crypto_trading_system.Execution.State.{
  Engine, ExecutionRequest, ExecutionError, FillResult, Draw, Tags, is_sell, execution_price,
  schedule,
}
use crypto_trading_system.Execution.Engine.{
  execute, execute_new, book_fill, held_quantity, new_position,
}

module _ {D : Type 0} ⦃dec : Decimal D⦄ where
  -- A call of `execute` that raises leaves the engine as it was.
  pub execute_raise_unchanged :
      (request : ExecutionRequest D) (price : Option D) (tags : Tags) (draw : Draw) (e : Engine D)
      {x : ExecutionError}
      → (execute request price tags draw e).1 ≡ raise x
      → (execute request price tags draw e).0 ≡ e
  unfolding execute
  execute_raise_unchanged request price tags draw e h = ground arith

  -- Every holding is zero or more.
  abbrev pub IsLong : Engine D → Type 0
  IsLong e = (s : String) → (held_quantity s e <? dec_zero) ≡ false

  pub held_after :
      (s : String) (request : ExecutionRequest D) (fill : FillResult D) (tags : Tags) (draw : Draw)
      (e : Engine D)
      → held_quantity s (book_fill request fill tags draw e) ≡ (
          if request.symbol =ₛ s then (new_position request fill e).quantity else held_quantity s e)
  unfolding held_quantity book_fill
  held_after s request fill tags draw e =
      ground (arith, lookup-insert request.symbol s (new_position request fill e) e.positions)

  -- The fill of an order that is not refused.
  abbrev pub filled : ExecutionRequest D → D → ℕ → FillResult D
  filled request price now = record {
    quantity = request.quantity;
    price = price;
    executed_at = now;
  }

  new_position_nonneg :
      (request : ExecutionRequest D) (fill : FillResult D) (e : Engine D)
      → (held_quantity request.symbol e <? dec_zero) ≡ false
      → (dec_zero <? fill.quantity) ≡ true
      → (is_sell request.side && (held_quantity request.symbol e <? fill.quantity)) ≡ false
      → ((new_position request fill e).quantity <? dec_zero) ≡ false
  unfolding new_position
  new_position_nonneg request fill e h p c = ground (
    arith,
    sub_nonneg (held_quantity request.symbol e) fill.quantity,
    add_nonneg (held_quantity request.symbol e) fill.quantity,
    lt_asymm dec_zero fill.quantity,
  )

  -- An order that goes through, seen from one symbol.
  execute_new_held :
      (s : String) (request : ExecutionRequest D) (price : Option D) (tags : Tags) (draw : Draw)
      (e : Engine D)
      → (held_quantity request.symbol e <? dec_zero) ≡ false
      → (held_quantity s e <? dec_zero) ≡ false
      → (held_quantity s (execute_new request price tags draw e).0 <? dec_zero) ≡ false
  unfolding execute_new
  execute_new_held s request price tags draw e h k =
      elim (Option-cases (execution_price price e.last_candle)) [
        | inl missing ↦ ground arith
        | inr (p, found) ↦ ground (
          arith,
          held_after s request (filled request p draw.now) tags draw e,
          new_position_nonneg request (filled request p draw.now) e,
        )
      ]

  -- `execute` brings no engine without negative holdings to a negative one: nothing is sold short.
  pub execute-IsLong :
      (request : ExecutionRequest D) (price : Option D) (tags : Tags) (draw : Draw) (e : Engine D)
      → IsLong e
      → IsLong (execute request price tags draw e).0
  unfolding execute
  execute-IsLong request price tags draw e h s =
      ground (arith, execute_new_held s request price tags draw e (h request.symbol) (h s), h s)

  -- `execute` neither debits nor credits cash, whether it buys, sells, repeats or raises.
  pub execute_keeps_cash :
      (request : ExecutionRequest D) (price : Option D) (tags : Tags) (draw : Draw) (e : Engine D)
      → (execute request price tags draw e).0.cash_balance ≡ e.cash_balance
  unfolding execute execute_new book_fill schedule
  execute_keeps_cash request price tags draw e =
      elim (Option-cases (execution_price price e.last_candle)) [
        | inl missing ↦ ground arith
        | inr (p, found) ↦ ground arith
      ]
