-- ===== src/Strategies/Phases.antt =====
-- The life of a breakout in `BreakoutRetestStrategy`: armed, retested or dropped.
use crypto_trading_system.Base.{
  ℕ, zero, suc, ◌-◌, ◌≤◌, ◌<◌, ◌≡◌, refl, Bool, Option, none, some, List, [], ◌∷◌, ◌++◌, length,
  arith, ◌⊎◌, inl, inr, Option-cases, ==_iff,
}
use crypto_trading_system.Decimal.{Decimal}
use crypto_trading_system.Models.{ok}
use crypto_trading_system.Indicators.Slices.{last_slice, length-drop}
use crypto_trading_system.Backtest.Signals.{Bar}
use crypto_trading_system.Strategies.Dca.{Readings, high_of}
use crypto_trading_system.Strategies.Retest.{
  RetestConfig, Phase, idle, breakout_armed, Breakout, SymbolState, observe_candle, context_of,
  retest_step, armed_step, idle_step, enter_step, clear_breakout,
}

length-last_slice : {A : Type 0} (n : ℕ) (xs : List A) → 1 ≤ n → length (last_slice n xs) ≤ n
length-last_slice zero xs h = absurd (omega (arith, h))
length-last_slice (suc n) xs h = omega (arith, length-drop (length xs - suc n) xs)

pub Phase-cases : (p : Phase) → (p ≡ idle) ⊎ (p ≡ breakout_armed)
Phase-cases idle = inl refl
Phase-cases breakout_armed = inr refl

module _ {D : Type 0} ⦃dec : Decimal D⦄ where
  -- An armed setup has its breakout, and that is not yet out of time.
  abbrev pub IsPending : RetestConfig D → Phase → Option (Breakout D) → Type 0
  IsPending config idle b = Unit
  IsPending config breakout_armed none = ⊥
  IsPending config breakout_armed (some b) = b.bars_since_breakout < config.retest_timeout_bars

  pub record IsSetup (config : RetestConfig D) (y : SymbolState D) : Type 0 where
    pub pending : IsPending config y.phase y.breakout
    pub window : length y.recent_highs ≤ config.resistance_lookback_bars

  pub observed_phase :
      (config : RetestConfig D) (c : Bar D (Readings D)) (y : SymbolState D)
      → let y' = (observe_candle config c y).0 in (y'.phase ≡ y.phase) × (y'.breakout ≡ y.breakout)
  unfolding observe_candle
  observed_phase config c y = (ground arith, ground arith)

  observe_candle-IsSetup :
      (config : RetestConfig D) (c : Bar D (Readings D)) (y : SymbolState D)
      → 1 ≤ config.resistance_lookback_bars
      → IsSetup config y
      → IsSetup config (observe_candle config c y).0
  unfolding observe_candle
  observe_candle-IsSetup config c y n h = record {
    pending = ground (arith, h.pending);
    window = ground (
      arith,
      h.window,
      length-last_slice config.resistance_lookback_bars (y.recent_highs ++ (high_of c ∷ [])) n,
    );
  }

  -- A candle that is shown twice changes nothing more, and gets the same answer.
  pub observe_candle_twice :
      (config : RetestConfig D) (c : Bar D (Readings D)) (y : SymbolState D)
      → let (y', resistance) = observe_candle config c y in
        observe_candle config c y' ≡ (y', resistance)
  unfolding observe_candle
  observe_candle_twice config c y = ground (arith, ==_iff c.open_time c.open_time)

  armed_step-IsPending :
      (config : RetestConfig D) (c : Bar D (Readings D)) (x : Readings D) (has_position : Bool)
      (b : Breakout D) (y : SymbolState D)
      → y.phase ≡ breakout_armed
      → let y' = (armed_step config c x has_position b y).0 in
        IsPending config y'.phase y'.breakout × (y'.recent_highs ≡ y.recent_highs)
  unfolding armed_step retest_step clear_breakout
  armed_step-IsPending config c x has_position b y p = elim (Option-cases (context_of x)) [
    | inl unknown ↦ ground (arith, p)
    | inr (averages, known) ↦ ground (arith, p)
  ]

  idle_step-IsPending :
      (config : RetestConfig D) (c : Bar D (Readings D)) (x : Readings D) (has_position : Bool)
      (resistance : Option D) (y : SymbolState D)
      → 1 ≤ config.retest_timeout_bars
      → y.phase ≡ idle
      → let y' = idle_step c x has_position resistance y in
        IsPending config y'.phase y'.breakout × (y'.recent_highs ≡ y.recent_highs)
  unfolding idle_step
  idle_step-IsPending config c x has_position resistance y n p = elim (Option-cases resistance) [
    | inl unknown ↦ ground (arith, p)
    | inr (level, known) ↦ elim (Option-cases (context_of x)) [
      | inl missing ↦ ground (arith, p)
      | inr (averages, given) ↦ ground (arith, p)
    ]
  ]

  -- A setup stays in order over every call of `should_enter`, and the call never raises: an armed
  -- setup always has its breakout, not yet out of time, and no more highs are kept than the
  -- lookback asks for.
  pub enter_step-IsSetup :
      (config : RetestConfig D) (c : Bar D (Readings D)) (x : Readings D) (has_position : Bool)
      (y : SymbolState D)
      → 1 ≤ config.resistance_lookback_bars
      → 1 ≤ config.retest_timeout_bars
      → IsSetup config y
      → let (y', entry) = enter_step config c x has_position y in
        IsSetup config y' × ((e : Option (Breakout D)) × (entry ≡ ok e))
  unfolding enter_step
  enter_step-IsSetup config c x has_position y n t h =
      let seen = observe_candle config c y in
      let kept = observe_candle-IsSetup config c y n h in
      elim (Phase-cases seen.0.phase) [
        | inl p ↦
            let after = idle_step-IsPending config c x has_position seen.1 seen.0 t p in
            (
              record {
                pending = ground (arith, after);
                window = ground (arith, after, kept.window);
              },
              (none, ground arith),
            )
        | inr p ↦ elim (Option-cases seen.0.breakout) [
          | inl lost ↦ absurd (ground (arith, kept.pending))
          | inr (b, found) ↦
              let after = armed_step-IsPending config c x has_position b seen.0 p in
              (
                record {
                  pending = ground (arith, after);
                  window = ground (arith, after, kept.window);
                },
                ((armed_step config c x has_position b seen.0).1, ground arith),
              )
        ]
      ]
