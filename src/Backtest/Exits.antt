-- ===== src/Backtest/Exits.antt =====
-- `Portfolio.update_positions`, `check_intrabar_exits` and `check_stops`.
use crypto_trading_system.Base.{
  ℕ, String, ◌=ₛ◌, ◌≡◌, Bool, true, false, ◌&&◌, not, if◌then◌else◌, Option, none, some, List, [],
  ◌∷◌, ◌++◌, arith, ◌⊎◌, inl, inr, Option-cases, Bool-cases,
}
use crypto_trading_system.Base.Dict.{Dict, lookup}
use crypto_trading_system.Decimal.{Decimal, ◌<?◌, ◌≤?◌, min, lt_asymm}
use crypto_trading_system.Backtest.Position.{Position, update_market}
use crypto_trading_system.Backtest.Portfolio.{Portfolio, total_equity}

-- A candle's levels as `check_intrabar_exits` reads them.
pub record Levels (D : Type 0) : Type 0 where
  pub open_price : D
  pub high : D
  pub low : D

pub data ExitReason : Type 0 where
  stop_loss_hit stop_loss_hit_on_gap take_profit_hit : ExitReason

pub record ExitLevelEvent (D : Type 0) : Type 0 where
  pub symbol : String
  pub reference_price : D
  pub reason : ExitReason

module _ {D : Type 0} ⦃dec : Decimal D⦄ where
  -- Every position whose symbol has a price is marked to it.
  unfoldable pub marked : Dict D → Dict D → Dict (Position D) → Dict (Position D)
  marked prices highs [] = []
  marked prices highs ((symbol, p) ∷ ps) =
      (
        symbol,
        elim (lookup symbol prices) [
          | none ↦ p
          | some price ↦ update_market price (lookup symbol highs) p
        ],
      )
      ∷ marked prices highs ps

  unfoldable pub update_positions : Dict D → ℕ → Dict D → Portfolio D → Portfolio D
  unfolding marked
  update_positions prices timestamp highs p =
      let p' = record p { positions = marked prices highs p.positions } in
      record p' { equity_history = p'.equity_history ++ ((timestamp, total_equity p') ∷ []) }

  -- `self.stop_loss is not None and low <= self.stop_loss`
  abbrev pub touches_stop : D → Option D → Bool
  touches_stop low none = false
  touches_stop low (some stop) = low ≤? stop

  abbrev pub touches_take : D → Option D → Bool
  touches_take high none = false
  touches_take high (some take) = take ≤? high

  abbrev level_or : Option D → D → D
  level_or none d = d
  level_or (some x) d = x

  -- The exit of one position on its candle, if any.
  unfoldable pub exit_of : String → Position D → Levels D → Option (ExitLevelEvent D)
  exit_of symbol p c =
      if not (p.side =ₛ "long")
      then none
      else if touches_stop c.low p.stop_loss
      then (let stop = level_or p.stop_loss c.low in
          some (
            if c.open_price ≤? stop
            then record {
              symbol = symbol;
              reference_price = c.open_price;
              reason = stop_loss_hit_on_gap;
            }
            else record { symbol = symbol; reference_price = stop; reason = stop_loss_hit }))
      else if touches_take c.high p.take_profit
      then some (record {
        symbol = symbol;
        reference_price = level_or p.take_profit c.high;
        reason = take_profit_hit;
      })
      else none

  unfoldable pub check_intrabar_exits :
      Dict (Levels D) → Dict (Position D) → List (ExitLevelEvent D)
  unfolding exit_of
  check_intrabar_exits candles [] = []
  check_intrabar_exits candles ((symbol, p) ∷ ps) =
      let rest = check_intrabar_exits candles ps in
      elim (lookup symbol candles) [
        | none ↦ rest
        | some c ↦ elim (exit_of symbol p c) [ none ↦ rest | some event ↦ event ∷ rest ]
      ]

  -- `check_stops`: a symbol stands in the answer once for each level that the price has crossed.
  unfoldable pub check_stops : Dict D → Dict (Position D) → List String
  check_stops prices [] = []
  check_stops prices ((symbol, p) ∷ ps) =
      let rest = check_stops prices ps in
      elim (lookup symbol prices) [
        | none ↦ rest
        | some price ↦
            (if p.side =ₛ "long" && touches_stop price p.stop_loss then symbol ∷ [] else [])
            ++ ((if p.side =ₛ "long" && touches_take price p.take_profit then symbol ∷ [] else [])
                ++ rest)
      ]

  take_cases :
      (symbol : String) (p : Position D) (c : Levels D)
      → (p.side =ₛ "long") ≡ true
      → touches_stop c.low p.stop_loss ≡ false
      → ((take : D) × (p.take_profit ≡ some take)
          × ((c.high <? take) ≡ false)
          × (exit_of symbol p c
              ≡ some
                  (record { symbol = symbol; reference_price = take; reason = take_profit_hit })))
        ⊎ ((touches_take c.high p.take_profit ≡ false) × (exit_of symbol p c ≡ none))
  unfolding exit_of
  take_cases symbol p c long free = elim (Option-cases p.take_profit) [
    | inl none_set ↦ inr (ground arith, ground arith)
    | inr (take, set) ↦ elim (Bool-cases (take ≤? c.high)) [
      | inl touched ↦ inl (take, set, ground arith, ground arith)
      | inr below ↦ inr (ground arith, ground arith)
    ]
  ]

  -- For a long position: the candle's low reaches the stop exactly if the exit is a stop, then at the
  -- lower of stop and opening price, whatever the high did; otherwise the high reaches the target
  -- exactly if the exit is the target, at the target's price and never above it.
  pub exit_of_cases :
      (symbol : String) (p : Position D) (c : Levels D)
      → (p.side =ₛ "long") ≡ true
      → ((stop : D) × (p.stop_loss ≡ some stop)
          × ((stop <? c.low) ≡ false)
          × ((reason : ExitReason) × (exit_of symbol p c
                ≡ some (record {
                  symbol = symbol;
                  reference_price = min stop c.open_price;
                  reason = reason;
                }))))
        ⊎ ((touches_stop c.low p.stop_loss ≡ false)
            × (((take : D) × (p.take_profit ≡ some take)
                  × ((c.high <? take) ≡ false)
                  × (exit_of symbol p c
                      ≡ some (record {
                        symbol = symbol;
                        reference_price = take;
                        reason = take_profit_hit;
                      })))
                ⊎ ((touches_take c.high p.take_profit ≡ false) × (exit_of symbol p c ≡ none))))
  unfolding exit_of
  exit_of_cases symbol p c long = elim (Option-cases p.stop_loss) [
    | inl free ↦ inr (ground arith, take_cases symbol p c long (ground arith))
    | inr (stop, set) ↦ elim (Bool-cases (c.low ≤? stop)) [
      | inl touched ↦ elim (Bool-cases (c.open_price ≤? stop)) [
        | inl gap ↦ inl (
          stop,
          set,
          ground arith,
          (stop_loss_hit_on_gap, ground (arith, dec.lt_connected stop c.open_price)),
        )
        | inr above ↦
            inl
              (stop, set, ground arith, (stop_loss_hit, ground (arith, lt_asymm stop c.open_price)))
      ]
      | inr free ↦ inr (ground arith, take_cases symbol p c long (ground arith))
    ]
  ]
