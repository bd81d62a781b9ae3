-- ===== src/Strategies/Levels.antt =====
-- The entries of `BreakoutRetestStrategy`, and the end of every armed setup.
use crypto_trading_system.Base.{
  ℕ, suc, ◌+◌, ◌<◌, ◌≤◌, ◌≡◌, refl, sym, subst, Bool, false, Option, none, some, ==_iff, List, [],
  ◌∷◌, length, arith, inl, inr, Option-cases,
}
use crypto_trading_system.Decimal.{Decimal, ◌<?◌}
use crypto_trading_system.Models.{ok}
use crypto_trading_system.Backtest.Signals.{Bar}
use crypto_trading_system.Strategies.Dca.{Readings, low_of, too_volatile, is_trend_down}
use crypto_trading_system.Strategies.Retest.{
  RetestConfig, idle, breakout_armed, Breakout, SymbolState, observe_candle, context_of,
  retest_step, armed_step, idle_step, enter_step, clear_breakout,
}
use crypto_trading_system.Strategies.Phases.{observed_phase, Phase-cases}

module _ {D : Type 0} ⦃dec : Decimal D⦄ where
  -- The candle opens after the last one that the setup has seen.
  abbrev pub IsLater : Bar D (Readings D) → Option ℕ → Type 0
  IsLater c none = Unit
  IsLater c (some seen) = seen < c.open_time

  -- The breakout of a setup is on a candle that it has seen.
  abbrev pub IsSeen : Option ℕ → Option (Breakout D) → Type 0
  IsSeen seen none = Unit
  IsSeen none (some b) = ⊥
  IsSeen (some t) (some b) = b.breakout_time ≤ t

  -- What stands behind an entry for the breakout `b`, made from the setup `y`.
  pub record IsRetest (config : RetestConfig D) (c : Bar D (Readings D)) (x : Readings D)
      (y : SymbolState D) (b : Breakout D) : Type 0 where
    pub was_armed : y.phase ≡ breakout_armed
    pub older : Breakout D
    pub older_known : y.breakout ≡ some older
    pub aged : b.bars_since_breakout ≡ suc older.bars_since_breakout
    pub same_level : b.breakout_level ≡ older.breakout_level
    pub earlier : b.breakout_time < c.open_time
    pub in_time : b.bars_since_breakout < config.retest_timeout_bars
    pub dipped : (b.breakout_level <? low_of c) ≡ false
    pub held : (c.close <? b.breakout_level) ≡ false
    pub calm : too_volatile x.volatility ≡ false
    pub not_falling : is_trend_down x.regime ≡ false

  armed_step_entry :
      (config : RetestConfig D) (c : Bar D (Readings D)) (x : Readings D) (has_position : Bool)
      (older : Breakout D) (y : SymbolState D) {b : Breakout D}
      → (armed_step config c x has_position older y).1 ≡ some b
      → (b ≡ record older { bars_since_breakout = suc older.bars_since_breakout })
        × (b.bars_since_breakout < config.retest_timeout_bars)
        × ((b.breakout_level <? low_of c) ≡ false)
        × ((c.close <? b.breakout_level) ≡ false)
        × (too_volatile x.volatility ≡ false)
        × (is_trend_down x.regime ≡ false)
        × (has_position ≡ false)
        × ((armed_step config c x has_position older y).0.phase ≡ idle)
  unfolding armed_step retest_step clear_breakout
  armed_step_entry config c x has_position older y h = elim (Option-cases (context_of x)) [
    | inl unknown ↦ absurd (ground arith)
    | inr (averages, known) ↦ ground arith
  ]

  seen_of :
      (config : RetestConfig D) (c : Bar D (Readings D)) (y : SymbolState D)
      → (observe_candle config c y).0.last_observed_time ≡ some c.open_time
  unfolding observe_candle
  seen_of config c y = ground (arith, ==_iff c.open_time c.open_time)

  earlier_of :
      (c : Bar D (Readings D)) (seen : Option ℕ) (b : Option (Breakout D)) (older : Breakout D)
      → IsLater c seen
      → IsSeen seen b
      → b ≡ some older
      → older.breakout_time < c.open_time
  earlier_of c seen none older later h found = absurd (ground arith)
  earlier_of c none (some b) older later h found = absurd h
  earlier_of c (some t) (some b) older later h found = ground arith

  -- The same, of a candle that is not older than the last one seen.
  not_later_of :
      (c : Bar D (Readings D)) (seen : Option ℕ) (b : Option (Breakout D))
      → IsLater c seen
      → IsSeen seen b
      → IsSeen (some c.open_time) b
  not_later_of c seen none later h = tt
  not_later_of c none (some b) later h = absurd h
  not_later_of c (some t) (some b) later h = omega (arith, later, h)

  armed_step-IsSeen :
      (config : RetestConfig D) (c : Bar D (Readings D)) (x : Readings D) (has_position : Bool)
      (b : Breakout D) (y : SymbolState D)
      → y.last_observed_time ≡ some c.open_time
      → b.breakout_time ≤ c.open_time
      → let y' = (armed_step config c x has_position b y).0 in
        IsSeen y'.last_observed_time y'.breakout × (y'.last_observed_time ≡ some c.open_time)
  unfolding armed_step retest_step clear_breakout
  armed_step-IsSeen config c x has_position b y seen h = elim (Option-cases (context_of x)) [
    | inl unknown ↦ ground (arith, seen)
    | inr (averages, known) ↦ ground (arith, seen)
  ]

  idle_step-IsSeen :
      (c : Bar D (Readings D)) (x : Readings D) (has_position : Bool) (resistance : Option D)
      (y : SymbolState D)
      → y.last_observed_time ≡ some c.open_time
      → IsSeen (some c.open_time) y.breakout
      → let y' = idle_step c x has_position resistance y in
        IsSeen y'.last_observed_time y'.breakout × (y'.last_observed_time ≡ some c.open_time)
  unfolding idle_step
  idle_step-IsSeen c x has_position resistance y seen h = elim (Option-cases resistance) [
    | inl unknown ↦ ground (arith, seen)
    | inr (level, known) ↦ elim (Option-cases (context_of x)) [
      | inl missing ↦ ground (arith, seen)
      | inr (averages, given) ↦ ground (arith, seen)
    ]
  ]

  -- On a candle that opens after the last one seen, a setup whose breakout is on a candle that it
  -- has seen stays one, and has then seen this candle.
  pub enter_step-IsSeen :
      (config : RetestConfig D) (c : Bar D (Readings D)) (x : Readings D) (has_position : Bool)
      (y : SymbolState D)
      → IsLater c y.last_observed_time
      → IsSeen y.last_observed_time y.breakout
      → let y' = (enter_step config c x has_position y).0 in
        IsSeen y'.last_observed_time y'.breakout × (y'.last_observed_time ≡ some c.open_time)
  unfolding enter_step
  enter_step-IsSeen config c x has_position y later h =
      let (seen, resistance) = observe_candle config c y in
      let time = seen_of config c y in
      let same = observed_phase config c y in
      let dated =
        subst (IsSeen (some c.open_time)) (sym same.1)
          (not_later_of c y.last_observed_time y.breakout later h) in
      elim (Phase-cases seen.phase) [
        | inl p ↦
            let (kept, last) = idle_step-IsSeen c x has_position resistance seen time dated in
            (ground (arith, kept), ground (arith, last))
        | inr p ↦ elim (Option-cases seen.breakout) [
          | inl lost ↦ (ground (arith, dated), ground (arith, time))
          | inr (b, found) ↦
              let (kept, last) =
                armed_step-IsSeen config c x has_position b seen time
                  (subst (IsSeen (some c.open_time)) found dated) in
              (ground (arith, kept), ground (arith, last))
        ]
      ]

  -- On a candle that opens after the last one seen, and for a setup whose breakout is on a candle
  -- that it has seen, an entry is only made without a position, from a setup that was armed on an
  -- earlier candle and is not yet out of time, on a candle that dips to the breakout's level and
  -- closes at or above it, in no falling regime and no high volatility; after it the setup is idle.
  pub enter_step_entry :
      (config : RetestConfig D) (c : Bar D (Readings D)) (x : Readings D) (has_position : Bool)
      (y : SymbolState D) {b : Breakout D}
      → IsLater c y.last_observed_time
      → IsSeen y.last_observed_time y.breakout
      → (enter_step config c x has_position y).1 ≡ ok (some b)
      → IsRetest config c x y b
        × (has_position ≡ false)
        × ((enter_step config c x has_position y).0.phase ≡ idle)
  unfolding enter_step
  enter_step_entry config c x has_position y {b} later dated h =
      let seen = (observe_candle config c y).0 in
      let same = observed_phase config c y in
      elim (Phase-cases seen.phase) [
        | inl p ↦ absurd (ground arith)
        | inr p ↦ elim (Option-cases seen.breakout) [
          | inl lost ↦ absurd (ground arith)
          | inr (older, found) ↦
              let e = armed_step_entry config c x has_position older seen {b = b} (ground arith) in
              let on_earlier = earlier_of c y.last_observed_time y.breakout older later dated in
              (
                record {
                  was_armed = ground (arith, same);
                  older = older;
                  older_known = ground (arith, same);
                  aged = ground (arith, e.0);
                  same_level = ground (arith, e.0);
                  earlier = ground (arith, e.0, on_earlier (ground (arith, same)));
                  in_time = e.1;
                  dipped = e.2;
                  held = e.3;
                  calm = e.4;
                  not_falling = e.5;
                },
                e.6,
                ground (arith, e.7),
              )
        ]
      ]

  -- The calls of `should_enter` on a row of candles, after each of which the setup is armed.
  abbrev pub StaysArmed :
      RetestConfig D → SymbolState D → List (Bar D (Readings D) × Readings D × Bool) → Type 0
  StaysArmed config y [] = Unit
  StaysArmed config y ((c, x, has_position) ∷ rest) =
      let y' = (enter_step config c x has_position y).0 in
      (y'.phase ≡ breakout_armed) × StaysArmed config y' rest

  armed_step_ages :
      (config : RetestConfig D) (c : Bar D (Readings D)) (x : Readings D) (has_position : Bool)
      (b : Breakout D) (y : SymbolState D)
      → (armed_step config c x has_position b y).0.phase ≡ breakout_armed
      → (b' : Breakout D) × ((armed_step config c x has_position b y).0.breakout ≡ some b')
        × (b'.bars_since_breakout ≡ suc b.bars_since_breakout)
        × (b'.bars_since_breakout < config.retest_timeout_bars)
  unfolding armed_step retest_step clear_breakout
  armed_step_ages config c x has_position b y h =
      let older = record b { bars_since_breakout = suc b.bars_since_breakout } in
      elim (Option-cases (context_of x)) [
        | inl unknown ↦ (older, ground arith, refl, ground arith)
        | inr (averages, known) ↦ (older, ground arith, refl, ground arith)
      ]

  enter_step_ages :
      (config : RetestConfig D) (c : Bar D (Readings D)) (x : Readings D) (has_position : Bool)
      (b : Breakout D) (y : SymbolState D)
      → y.phase ≡ breakout_armed
      → y.breakout ≡ some b
      → (enter_step config c x has_position y).0.phase ≡ breakout_armed
      → (b' : Breakout D) × ((enter_step config c x has_position y).0.breakout ≡ some b')
        × (b'.bars_since_breakout ≡ suc b.bars_since_breakout)
        × (b'.bars_since_breakout < config.retest_timeout_bars)
  unfolding enter_step
  enter_step_ages config c x has_position b y p q h =
      let seen = (observe_candle config c y).0 in
      let same = observed_phase config c y in
      let (b', found, aged, in_time) =
        armed_step_ages config c x has_position b seen (ground (arith, same)) in
      (b', ground (arith, same), aged, in_time)

  -- No setup waits for ever: on however many candles it stays armed, they are fewer than the
  -- timeout less the age of the breakout.
  pub armed_ends :
      (config : RetestConfig D) (candles : List (Bar D (Readings D) × Readings D × Bool))
      (b : Breakout D) (y : SymbolState D)
      → y.phase ≡ breakout_armed
      → y.breakout ≡ some b
      → b.bars_since_breakout < config.retest_timeout_bars
      → StaysArmed config y candles
      → length candles + b.bars_since_breakout < config.retest_timeout_bars
  armed_ends config [] b y p q t h = omega (arith, t)
  armed_ends config ((c, x, has_position) ∷ rest) b y p q t h =
      let (b', found, aged, in_time) = enter_step_ages config c x has_position b y p q h.0 in
      omega (
        arith,
        aged,
        armed_ends config rest b' (enter_step config c x has_position y).0 h.0 found in_time h.1,
      )
