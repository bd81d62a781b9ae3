-- ===== src/Strategies/Retest.antt =====
-- `BreakoutRetestStrategy` of app/strategies/breakout_retest.py. A serialised time or decimal is the
-- value itself; of the metadata of an entry only the breakout is kept.
use crypto_trading_system.Base.{
  ℕ, suc, String, ◌=ₛ◌, Bool, false, ◌&&◌, ◌||◌, not, leb, ◌==◌, if◌then◌else◌, Option, none, some,
  List, [], ◌∷◌, ◌++◌, length, get_or_else,
}
use crypto_trading_system.Base.Dict.{Dict, lookup, insert, erase}
use crypto_trading_system.Decimal.{Decimal, ◌<?◌, ◌≤?◌}
use crypto_trading_system.Models.{Result, ok, raise}
use crypto_trading_system.Indicators.Slices.{last_slice}
use crypto_trading_system.Indicators.Prices.{maximum}
use crypto_trading_system.Backtest.Signals.{
  Bar, Signal, Fill, EntryView, PositionView, Answer, nothing, one, signal,
}
use crypto_trading_system.Strategies.Dca.{
  Readings, DcaConfig, DcaState, is_trend_down, high_of, low_of, too_volatile, base_order, stamped,
  counted, dca_should_exit,
}

pub record RetestConfig (D : Type 0) : Type 0 where
  pub dca : DcaConfig D
  pub resistance_lookback_bars : ℕ
  pub retest_timeout_bars : ℕ

pub data RetestError : Type 0 where
  lookback_frozen timeout_frozen armed_without_breakout : RetestError

-- The check of `__init__`.
unfoldable pub check_frozen : {D : Type 0} → RetestConfig D → Result RetestError (RetestConfig D)
check_frozen config =
    if not (config.resistance_lookback_bars == 20)
    then raise lookback_frozen
    else if not (config.retest_timeout_bars == 24)
    then raise timeout_frozen
    else ok config

pub data Phase : Type 0 where
  idle breakout_armed : Phase

pub record Breakout (D : Type 0) : Type 0 where
  pub breakout_time : ℕ
  pub breakout_level : D
  pub breakout_close : D
  pub bars_since_breakout : ℕ

pub record SymbolState (D : Type 0) : Type 0 where
  pub phase : Phase
  pub breakout : Option (Breakout D)
  pub recent_highs : List D
  pub last_observed_time : Option ℕ
  pub last_prior_resistance : Option D

pub record RetestState (D : Type 0) : Type 0 where
  pub base : DcaState D
  pub symbols : Dict (SymbolState D)

abbrev pub same_time : Option ℕ → ℕ → Bool
same_time none t = false
same_time (some u) t = u == t

module _ {D : Type 0} where
  abbrev pub new_symbol_state : SymbolState D
  new_symbol_state = record {
    phase = idle;
    breakout = none;
    recent_highs = [];
    last_observed_time = none;
    last_prior_resistance = none;
  }

  unfoldable pub symbol_state : String → RetestState D → SymbolState D
  symbol_state symbol s = get_or_else (lookup symbol s.symbols) new_symbol_state

  abbrev pub with_symbol : String → SymbolState D → RetestState D → RetestState D
  with_symbol symbol y s = record s { symbols = insert symbol y s.symbols }

  unfoldable pub clear_breakout : SymbolState D → SymbolState D
  clear_breakout y = record y { phase = idle; breakout = none }

module _ {D : Type 0} ⦃dec : Decimal D⦄ where
  -- `_observe_candle`, on the state of the candle's symbol.
  unfoldable pub observe_candle :
      RetestConfig D → Bar D (Readings D) → SymbolState D → SymbolState D × Option D
  observe_candle config c y =
      if same_time y.last_observed_time c.open_time
      then (y, y.last_prior_resistance)
      else (let n = config.resistance_lookback_bars in
          let resistance =
            if leb n (length y.recent_highs) then maximum (last_slice n y.recent_highs) else none in
          (
            record y {
              recent_highs = last_slice n (y.recent_highs ++ (high_of c ∷ []));
              last_observed_time = some c.open_time;
              last_prior_resistance = resistance;
            },
            resistance,
          ))

  -- Where the context is known: whether price and medium average are above the long average.
  abbrev pub is_above : Bar D (Readings D) → D → D → Bool
  is_above c ema_50 ema_200 = ema_200 <? c.close && ema_200 <? ema_50

  abbrev pub touches_level : Bar D (Readings D) → Breakout D → Bool
  touches_level c b = low_of c ≤? b.breakout_level && b.breakout_level ≤? c.close

  -- The known context of a candle: medium and long average, if the regime is known too.
  unfoldable pub context_of : Readings D → Option (D × D)
  context_of x = elim x.ema_50 [
    | none ↦ none
    | some ema_50 ↦ elim x.ema_200 [
      | none ↦ none
      | some ema_200 ↦ elim x.regime [ none ↦ none | some _ ↦ some (ema_50, ema_200) ]
    ]
  ]

  -- An armed setup that is neither called off nor out of time, on a known context.
  unfoldable pub retest_step :
      Bar D (Readings D)
      → Readings D
      → Breakout D
      → D × D
      → SymbolState D
      → SymbolState D × Option (Breakout D)
  unfolding clear_breakout
  retest_step c x b (ema_50, ema_200) y =
      if not (is_above c ema_50 ema_200)
      then (clear_breakout y, none)
      else if too_volatile x.volatility
      then (y, none)
      else if touches_level c b
      then (clear_breakout y, some b)
      else (y, none)

  -- The branch of an armed setup, which first grows older by one bar. The answer is the breakout
  -- that an entry is made for.
  unfoldable pub armed_step :
      RetestConfig D
      → Bar D (Readings D)
      → Readings D
      → Bool
      → Breakout D
      → SymbolState D
      → SymbolState D × Option (Breakout D)
  unfolding context_of retest_step clear_breakout
  armed_step config c x has_position b y =
      let older = record b { bars_since_breakout = suc b.bars_since_breakout } in
      let y' = record y { breakout = some older } in
      if has_position || is_trend_down x.regime
      then (clear_breakout y', none)
      else if leb config.retest_timeout_bars older.bars_since_breakout
      then (clear_breakout y', none)
      else elim (context_of x) [
        | none ↦ (y', none)
        | some averages ↦ retest_step c x older averages y'
      ]

  abbrev pub breaks_out : Bar D (Readings D) → Readings D → D → D × D → Bool
  breaks_out c x resistance (ema_50, ema_200) =
      is_above c ema_50 ema_200
      && (not (is_trend_down x.regime)
          && (not (too_volatile x.volatility) && resistance <? c.close))

  abbrev pub armed : Bar D (Readings D) → D → SymbolState D → SymbolState D
  armed c resistance y = record y {
    phase = breakout_armed;
    breakout = some (record {
      breakout_time = c.open_time;
      breakout_level = resistance;
      breakout_close = c.close;
      bars_since_breakout = 0;
    });
  }

  -- The branch of an idle setup: it can be armed, and makes no entry.
  unfoldable pub idle_step :
      Bar D (Readings D) → Readings D → Bool → Option D → SymbolState D → SymbolState D
  unfolding context_of
  idle_step c x has_position prior_resistance y = elim prior_resistance [
    | none ↦ y
    | some resistance ↦ elim (context_of x) [
      | none ↦ y
      | some averages ↦
          if not has_position && breaks_out c x resistance averages then armed c resistance y else y
    ]
  ]

  -- `should_enter`, on the state of the candle's symbol.
  unfoldable pub enter_step :
      RetestConfig D
      → Bar D (Readings D)
      → Readings D
      → Bool
      → SymbolState D
      → SymbolState D × Result RetestError (Option (Breakout D))
  unfolding observe_candle armed_step idle_step
  enter_step config c x has_position y =
      let (y', prior_resistance) = observe_candle config c y in
      elim y'.phase [
        | idle ↦ (idle_step c x has_position prior_resistance y', ok none)
        | breakout_armed ↦ elim y'.breakout [
          | none ↦ (y', raise armed_without_breakout)
          | some b ↦ (let (y'', entry) = armed_step config c x has_position b y' in (y'', ok entry))
        ]
      ]

  unfoldable pub retest_should_enter :
      (ℕ → String)
      → RetestConfig D
      → Bar D (Readings D)
      → Readings D
      → EntryView D
      → RetestState D
      → RetestState D × Result RetestError (Answer D)
  unfolding enter_step base_order
  retest_should_enter uuid config c x view s =
      let (y, entry) = enter_step config c x view.has_position (symbol_state c.symbol s) in
      let s' = with_symbol c.symbol y s in
      elim entry [
        | raise e ↦ (s', raise e)
        | ok none ↦ (s', ok nothing)
        | ok (some b) ↦ (
          record s' { base = counted s'.base },
          ok (
              one (
                signal (
                  base_order config.dca (stamped "BreakoutRetest" uuid config.dca s'.base) c x
                    view.capital "Breakout retest held" none))),
        )
      ]

  -- The market history goes on, the exits are those of `TrendDCAStrategy`.
  unfoldable pub retest_should_exit :
      (ℕ → String)
      → RetestConfig D
      → Bar D (Readings D)
      → Readings D
      → PositionView D
      → RetestState D
      → RetestState D × Answer D
  unfolding observe_candle dca_should_exit
  retest_should_exit uuid config c x p s =
      let y = (observe_candle config c (symbol_state c.symbol s)).0 in
      let (base, answer) = dca_should_exit "BreakoutRetest" uuid config.dca c x p s.base in
      (record (with_symbol c.symbol y s) { base = base }, answer)

  unfoldable pub retest_should_add :
      RetestConfig D
      → Bar D (Readings D)
      → Readings D
      → PositionView D
      → RetestState D
      → RetestState D × Answer D
  unfolding observe_candle
  retest_should_add config c x p s =
      (with_symbol c.symbol (observe_candle config c (symbol_state c.symbol s)).0 s, nothing)

  -- A new base fill starts a fresh trailing state; there is no DCA state.
  unfoldable pub retest_on_fill : Signal D → Fill D → RetestState D → RetestState D
  retest_on_fill g f s =
      if g.action =ₛ "open_long" || g.action =ₛ "SignalAction.OPEN_LONG"
      then record s {
        base = record s.base { trailing_highs = erase g.symbol s.base.trailing_highs };
      }
      else s
