-- ===== src/Backtest/Audit.antt =====
-- The audit trail of a backtest: its cash, its fills and the risk decisions behind them.
use crypto_trading_system.Base.{
  ℕ, suc, String, ◌=ₛ◌, eq_refl, ◌≡◌, refl, Bool, true, false, ◌&&◌, ◌||◌, Option, none, some, List,
  [], ◌∷◌, ◌++◌, length, length-append, any, All, All-append, arith, inl, inr, Option-cases,
  Bool-cases, if◌then◌else◌,
}
use crypto_trading_system.Base.Dict.{lookup}
use crypto_trading_system.Decimal.{Decimal, ◌⊕◌, ◌⊖◌, ◌⊗◌, ◌=?◌}
use crypto_trading_system.Risk.Engine.{RiskEngine}
use crypto_trading_system.Backtest.Portfolio.{
  Portfolio, Entry, TradeRecord, opened, closed, open_position, close_position, open_record,
  close_record, entry_cost,
}
use crypto_trading_system.Backtest.Exits.{update_positions}
use crypto_trading_system.Backtest.Signals.{Signal, Fill, Bar, Strategy, parse_action}
use crypto_trading_system.Backtest.Orders.{
  BacktestEngine, BacktestConfig, Outside, Order, RiskDecision, Candidate, new_backtest, next_id,
}
use crypto_trading_system.Backtest.Engine.{
  check_candidate, check_order, decision_of, commission_of, book_order, entry_of, close_order,
  fill_of, settle_order, execute_order, place_order, signal_order, create_and_execute_order,
  refused_for_no_position,
}
use crypto_trading_system.Backtest.Run.{run}
use crypto_trading_system.Backtest.Induction.{IsKept, run_keeps}

any-append :
    {A : Type 0} (p : A → Bool) (xs : List A) (y : A) → any p (xs ++ (y ∷ [])) ≡ any p xs || p y
any-append p [] y = ground arith
any-append p (x ∷ xs) y = ground (arith, any-append p xs y)

module _ {D : Type 0} ⦃dec : Decimal D⦄ where
  -- What is left of `cash` after the recorded trades, in their order.
  unfoldable pub cash_after : D → List (TradeRecord D) → D
  cash_after cash [] = cash
  cash_after cash (opened r ∷ trades) =
      cash_after (cash ⊖ (r.price ⊗ r.quantity ⊕ r.commission)) trades
  cash_after cash (closed r ∷ trades) =
      cash_after (cash ⊕ (r.exit_price ⊗ r.quantity ⊖ r.commission)) trades

  cash_after-append :
      (trades : List (TradeRecord D)) (cash : D) (t : TradeRecord D)
      → cash_after cash (trades ++ (t ∷ [])) ≡ cash_after (cash_after cash trades) (t ∷ [])
  unfolding cash_after
  cash_after-append [] cash t = refl
  cash_after-append (opened r ∷ trades) cash t = cash_after-append trades _ t
  cash_after-append (closed r ∷ trades) cash t = cash_after-append trades _ t

  -- The balance is the initial balance after the recorded trades.
  abbrev pub IsFunded : Portfolio D → Type 0
  IsFunded p = cash_after p.initial_balance p.trade_history ≡ p.balance

  open_position-IsFunded :
      (x : Entry D) (p : Portfolio D) → IsFunded p → IsFunded (open_position x p).0
  unfolding open_position open_record entry_cost cash_after
  open_position-IsFunded x p h =
      ground (arith, cash_after-append p.trade_history p.initial_balance (open_record x))

  close_position-IsFunded :
      (symbol : String) (price : D) (timestamp : ℕ) (commission : D) (p : Portfolio D)
      → IsFunded p
      → IsFunded (close_position symbol price timestamp commission p).0
  unfolding close_position close_record cash_after
  close_position-IsFunded symbol price timestamp commission p h =
      elim (Option-cases (lookup symbol p.positions)) [
        | inl gone ↦ ground arith
        | inr (q, held) ↦ ground (
          arith,
          cash_after-append p.trade_history p.initial_balance
              (close_record symbol price timestamp commission q),
        )
      ]

  -- A decision that lets the fill happen: approved, of the same order and the same quantity.
  unfoldable pub allows : Fill D → RiskDecision D → Bool
  allows f d =
      d.approved
      && (d.order_id =ₛ f.order_id)
      && elim d.approved_quantity [ none ↦ false | some q ↦ q =? f.quantity ]

  abbrev pub IsAllowed : List (RiskDecision D) → Fill D → Type 0
  IsAllowed decisions f = any (allows f) decisions ≡ true

  -- The books of the engine: cash, trades and fills in step, and each fill allowed.
  pub record IsAudited (e : BacktestEngine D) : Type 0 where
    pub funded : IsFunded e.portfolio
    pub counted : length e.fills ≡ length e.portfolio.trade_history
    pub allowed : All (IsAllowed e.risk_decisions) e.fills

  IsAllowed-append :
      (decisions : List (RiskDecision D)) (d : RiskDecision D) (fills : List (Fill D))
      → All (IsAllowed decisions) fills
      → All (IsAllowed (decisions ++ (d ∷ []))) fills
  IsAllowed-append decisions d [] h = tt
  IsAllowed-append decisions d (f ∷ fills) h = (
    ground (arith, any-append (allows f) decisions d, h.0),
    IsAllowed-append decisions d fills h.1,
  )

  decision-IsAudited :
      (d : RiskDecision D) (e : BacktestEngine D)
      → IsAudited e
      → IsAudited (record e { risk_decisions = e.risk_decisions ++ (d ∷ []) })
  decision-IsAudited d e h = record {
    funded = h.funded;
    counted = h.counted;
    allowed = IsAllowed-append e.risk_decisions d e.fills h.allowed;
  }

  -- A call of the portfolio that goes through adds one trade, and another adds none.
  abbrev pub Records : Portfolio D → Portfolio D × Bool → Type 0
  Records p (p', booked) =
      length p'.trade_history
      ≡ (if booked then suc (length p.trade_history) else length p.trade_history)

  open_position-Records : (x : Entry D) (p : Portfolio D) → Records p (open_position x p)
  unfolding open_position
  open_position-Records x p = ground (arith, length-append p.trade_history (open_record x ∷ []))

  close_order-Records :
      (o : Order D) (c : Candidate D) (commission : D) (p : Portfolio D)
      → Records p (close_order o c commission p)
  unfolding close_order close_position
  close_order-Records o c commission p = elim (Option-cases (lookup o.signal.symbol p.positions)) [
    | inl gone ↦ ground arith
    | inr (q, held) ↦ ground (
      arith,
      length-append p.trade_history
          (close_record o.signal.symbol c.price o.created_at commission q ∷ []),
    )
  ]

  close_order-IsFunded :
      (o : Order D) (c : Candidate D) (commission : D) (p : Portfolio D)
      → IsFunded p
      → IsFunded (close_order o c commission p).0
  unfolding close_order
  close_order-IsFunded o c commission p h =
      close_position-IsFunded o.signal.symbol c.price o.created_at commission p h

  book_order-IsFunded :
      (o : Order D) (c : Candidate D) (e : BacktestEngine D)
      → IsFunded e.portfolio
      → IsFunded (book_order o c e).0
  unfolding book_order
  book_order-IsFunded o c e h = ground (
    arith,
    open_position-IsFunded (entry_of o c (commission_of c e)) e.portfolio h,
    close_order-IsFunded o c (commission_of c e) e.portfolio h,
  )

  book_order-Records :
      (o : Order D) (c : Candidate D) (e : BacktestEngine D)
      → Records e.portfolio (book_order o c e)
  unfolding book_order
  book_order-Records o c e = ground (
    arith,
    open_position-Records (entry_of o c (commission_of c e)) e.portfolio,
    close_order-Records o c (commission_of c e) e.portfolio,
  )

  equal_self : (a : D) → (a =? a) ≡ true
  equal_self a = ground (arith, dec.lt_irrefl a)

  -- The decision on an approved candidate allows the candidate's fill.
  decision_of-allows :
      (o : Order D) (c : Candidate D) (commission : D) (fill_id : String)
      → c.result.approved ≡ true
      → allows (fill_of o c commission fill_id) (decision_of o c) ≡ true
  unfolding allows fill_of decision_of
  decision_of-allows o c commission fill_id h =
      ground (arith, eq_refl o.order_id, equal_self c.quantity)

  settle_order-IsAudited :
      (o : Order D) (c : Candidate D) (e : BacktestEngine D)
      → IsAudited e
      → ((commission : D) (fill_id : String)
          → c.result.approved ≡ true
          → IsAllowed e.risk_decisions (fill_of o c commission fill_id))
      → IsAudited (settle_order o c e).0
  unfolding settle_order next_id
  settle_order-IsAudited o c e h allow = elim (Bool-cases c.result.approved) [
    | inr refused ↦ ground (arith, h)
    | inl approved ↦
        let f = fill_of o c (commission_of c e) (next_id "fill" e).1 in
        elim (Bool-cases (book_order o c e).1) [
          | inr failed ↦ record {
            funded = ground (arith, book_order-IsFunded o c e h.funded);
            counted = ground (arith, h.counted, book_order-Records o c e);
            allowed = ground (arith, h.allowed);
          }
          | inl booked ↦ record {
            funded = ground (arith, book_order-IsFunded o c e h.funded);
            counted =
                ground (arith, h.counted, book_order-Records o c e, length-append e.fills (f ∷ []));
            allowed = ground (
              arith,
              All-append (IsAllowed e.risk_decisions) e.fills (f ∷ []) h.allowed
                  (allow (commission_of c e) (next_id "fill" e).1 approved, tt),
            );
          }
        ]
  ]

  check_candidate-IsAudited :
      (world : Outside D) (o : Order D) (q : D) (volume : Option D) (e : BacktestEngine D)
      → IsAudited e
      → IsAudited (check_candidate world o q volume e).0
  unfolding check_candidate
  check_candidate-IsAudited world o q volume e h = record {
    funded = h.funded;
    counted = h.counted;
    allowed = h.allowed;
  }

  check_order-IsAudited :
      (world : Outside D) (o : Order D) (volume : Option D) (e : BacktestEngine D)
      → IsAudited e
      → IsAudited (check_order world o volume e).0
  unfolding check_order
  check_order-IsAudited world o volume e h =
      let first = check_candidate world o o.quantity volume e in
      let kept = check_candidate-IsAudited world o o.quantity volume e h in
      elim (Option-cases first.1.result.adjusted_quantity) [
        | inl none_left ↦ ground (arith, kept)
        | inr (q, adjusted) ↦
            ground (arith, kept, check_candidate-IsAudited world o q volume first.0 kept)
      ]

  execute_order-IsAudited :
      (world : Outside D) (o : Order D) (volume : Option D) (e : BacktestEngine D)
      → IsAudited e
      → IsAudited (execute_order world o volume e).0
  unfolding execute_order
  execute_order-IsAudited world o volume e h =
      let (e', c) = check_order world o volume e in
      let d = decision_of o c in
      settle_order-IsAudited o c _
        (decision-IsAudited d e' (check_order-IsAudited world o volume e h))
        (λ commission fill_id approved. ground (
          arith,
          any-append (allows (fill_of o c commission fill_id)) e'.risk_decisions d,
          decision_of-allows o c commission fill_id approved,
        ))

  place_order-IsAudited :
      (world : Outside D) (s : Signal D) (side : String) (quantity price : D) (timestamp : ℕ)
      (volume : Option D) (e : BacktestEngine D)
      → IsAudited e
      → IsAudited (place_order world s side quantity price timestamp volume e).0
  unfolding place_order next_id
  place_order-IsAudited world s side quantity price timestamp volume e h =
      execute_order-IsAudited world
        (signal_order s side quantity price timestamp (next_id "order" e).1) volume _
        (record { funded = h.funded; counted = h.counted; allowed = h.allowed })

  -- Whatever the signal, the price and the volume: after `_create_and_execute_order`, also where it
  -- raises or refuses, the balance is still the initial balance after the recorded trades, fills
  -- and trades are equally many, and each fill stands under an approved decision on its order and
  -- quantity.
  pub create_and_execute_order-IsAudited :
      (world : Outside D) (s : Signal D) (price : D) (timestamp : ℕ) (volume : Option D)
      (e : BacktestEngine D)
      → IsAudited e
      → IsAudited (create_and_execute_order world s price timestamp volume e).0
  unfolding create_and_execute_order
  create_and_execute_order-IsAudited world s price timestamp volume e h =
      elim (Option-cases (parse_action s.action)) [
        | inl unknown ↦ ground (arith, h)
        | inr (action, known) ↦ elim (Option-cases (lookup s.symbol e.portfolio.positions)) [
          | inl gone ↦ ground (
            arith,
            decision-IsAudited (refused_for_no_position s) e h,
            place_order-IsAudited world s "buy" s.quantity price timestamp volume e h,
          )
          | inr (p, held) ↦ ground (
            arith,
            place_order-IsAudited world s "sell" p.quantity price timestamp volume e h,
            place_order-IsAudited world s "buy" s.quantity price timestamp volume e h,
          )
        ]
      ]

  IsAudited-IsKept : IsKept {D = D} IsAudited
  unfolding update_positions
  IsAudited-IsKept = record {
    by_order = λ world s price timestamp volume e h.
        create_and_execute_order-IsAudited world s price timestamp volume e h;
    by_audit =
        λ signals ticks e h. record { funded = h.funded; counted = h.counted; allowed = h.allowed };
    by_mark = λ prices timestamp highs risk e h. record {
      funded = h.funded;
      counted = h.counted;
      allowed = h.allowed;
    };
    by_drawdown =
        λ drawdown e h. record { funded = h.funded; counted = h.counted; allowed = h.allowed };
  }

  new_backtest-IsAudited :
      (config : BacktestConfig D) (risk : RiskEngine D) → IsAudited (new_backtest config risk)
  unfolding new_backtest cash_after
  new_backtest-IsAudited config risk = record { funded = refl; counted = refl; allowed = tt }

module _ {D : Type 0} ⦃dec : Decimal D⦄ {I S : Type 0} where
  -- Over a whole run of a new engine, whatever the strategy, the candles and the draws, and also if
  -- the run ends with an exception: the balance is the initial balance after the recorded trades,
  -- fills and trades are equally many, and no fill is without an approved decision on its order
  -- and quantity.
  pub run-IsAudited :
      (world : Outside D) (strategy : Strategy D I S) (provider : Option (Bar D I → ℕ → I))
      (candles : List (Bar D I)) (state : S) (config : BacktestConfig D) (risk : RiskEngine D)
      → IsAudited (run world strategy provider candles state (new_backtest config risk)).0
  run-IsAudited world strategy provider candles state config risk =
      run_keeps IsAudited IsAudited-IsKept world strategy provider candles state
        (new_backtest config risk) (new_backtest-IsAudited config risk)
