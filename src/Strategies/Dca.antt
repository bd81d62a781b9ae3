-- ===== src/Strategies/Dca.antt =====
-- `TrendDCAStrategy` of app/strategies/trend_dca.py. The ids that `uuid4` draws for its signals are
-- numbered by the signals made.
use crypto_trading_system.Base.{
  ℕ, zero, suc, String, Bool, true, false, ◌&&◌, ◌||◌, not, leb, if◌then◌else◌, Option, none, some,
  get_or_else, is_some,
}
use crypto_trading_system.Base.Dict.{Dict, lookup, insert, erase}
use crypto_trading_system.Decimal.{Decimal, literal, ◌⊕◌, ◌⊖◌, ◌⊗◌, ◌⊘◌, ◌<?◌, ◌≤?◌, max}
use crypto_trading_system.Indicators.Regime.{
  MarketRegime, unknown, trend_up, trend_down, range, high_volatility,
}
use crypto_trading_system.Backtest.Position.{truthy_or}
use crypto_trading_system.Backtest.Signals.{
  Bar, Signal, signal, Answer, nothing, one, Fill, EntryView, PositionView, BaseStrategy,
}

-- What the strategies read of a candle's indicators.
pub record Readings (D : Type 0) : Type 0 where
  pub ema_50 : Option D
  pub ema_200 : Option D
  pub rsi : Option D
  pub regime : Option MarketRegime
  pub volatility : Option D

pub record DcaConfig (D : Type 0) : Type 0 where
  pub parameters_version : String
  pub base_order_pct : D
  pub safety_order_1_pct : D
  pub safety_order_2_pct : D
  pub safety_order_3_pct : D
  pub rsi_entry_threshold : D
  pub take_profit_pct : D
  pub stop_loss_pct : D
  pub trailing_stop_activation : D
  pub trailing_stop_distance : D
  pub max_holding_periods : ℕ
  pub max_capital_per_position : D

pub record DcaState (D : Type 0) : Type 0 where
  pub dca_levels : Dict ℕ
  pub trailing_highs : Dict D
  pub signals_made : ℕ

-- `str(regime)`
unfoldable pub regime_text : MarketRegime → String
regime_text unknown = "UNKNOWN"
regime_text trend_up = "TREND_UP"
regime_text trend_down = "TREND_DOWN"
regime_text range = "RANGE"
regime_text high_volatility = "HIGH_VOLATILITY"

abbrev pub text_of : Option MarketRegime → Option String
text_of none = none
text_of (some r) = some (regime_text r)

abbrev pub is_trend_up : Option MarketRegime → Bool
is_trend_up (some trend_up) = true
is_trend_up _ = false

abbrev pub is_trend_down : Option MarketRegime → Bool
is_trend_down (some trend_down) = true
is_trend_down _ = false

-- What a strategy gives its signals beside their price and size.
pub record Stamp : Type 0 where
  pub strategy : String
  pub parameters_version : String
  pub signal_id : String

module _ {D : Type 0} ⦃dec : Decimal D⦄ where
  abbrev pub high_of : Bar D (Readings D) → D
  high_of c = get_or_else c.high c.close

  abbrev pub low_of : Bar D (Readings D) → D
  low_of c = get_or_else c.low c.close

  -- `volatility is not None and volatility > 0.8`
  unfoldable pub too_volatile : Option D → Bool
  too_volatile none = false
  too_volatile (some v) = literal 8 1 <? v

  unfoldable pub made_signal :
      Stamp
      → Bar D (Readings D)
      → Readings D
      → String
      → D
      → D
      → String
      → Option D
      → Option D
      → Option ℕ
      → Signal D
  made_signal stamp c x action price quantity reason stop_loss take_profit dca_level = record {
    action = action;
    symbol = c.symbol;
    price = price;
    quantity = quantity;
    timestamp = c.open_time;
    reason = reason;
    stop_loss = stop_loss;
    take_profit = take_profit;
    strategy = stamp.strategy;
    parameters_version = stamp.parameters_version;
    regime = text_of x.regime;
    dca_level = dca_level;
    signal_id = stamp.signal_id;
    run_id = "";
  }

  -- A position's size: the share of the capital for a position, times the share of the order.
  unfoldable pub order_quantity : DcaConfig D → D → D → D → D
  order_quantity config capital share close =
      (capital ⊗ config.max_capital_per_position ⊗ share) ⊘ close

  unfoldable pub base_order :
      DcaConfig D → Stamp → Bar D (Readings D) → Readings D → D → String → Option ℕ → Signal D
  unfolding made_signal order_quantity
  base_order config stamp c x capital reason dca_level =
      made_signal stamp c x "open_long" c.close
        (order_quantity config capital config.base_order_pct c.close) reason
        (some (c.close ⊗ (literal 1 0 ⊖ config.stop_loss_pct)))
        (some (c.close ⊗ (literal 1 0 ⊕ config.take_profit_pct))) dca_level

  -- The conditions of an entry, where the averages and the RSI are known.
  unfoldable pub entry_conditions : DcaConfig D → Bar D (Readings D) → Readings D → D → D → D → Bool
  unfolding too_volatile
  entry_conditions config c x ema_200 ema_50 rsi =
      is_trend_up x.regime
      && (ema_200 <? c.close
          && (ema_200 <? ema_50
              && (rsi ≤? config.rsi_entry_threshold && not (too_volatile x.volatility))))

  unfoldable pub wants_entry : DcaConfig D → Bar D (Readings D) → Readings D → Bool
  unfolding entry_conditions
  wants_entry config c x = elim x.ema_200 [
    | none ↦ false
    | some ema_200 ↦ elim x.ema_50 [
      | none ↦ false
      | some ema_50 ↦ elim x.rsi [
        | none ↦ false
        | some rsi ↦ entry_conditions config c x ema_200 ema_50 rsi
      ]
    ]
  ]

  abbrev pub stamped : String → (ℕ → String) → DcaConfig D → DcaState D → Stamp
  stamped name uuid config s = record {
    strategy = name;
    parameters_version = config.parameters_version;
    signal_id = uuid s.signals_made;
  }

  abbrev pub counted : DcaState D → DcaState D
  counted s = record s { signals_made = suc s.signals_made }

  unfoldable pub dca_should_enter :
      String
      → (ℕ → String)
      → DcaConfig D
      → Bar D (Readings D)
      → Readings D
      → EntryView D
      → DcaState D
      → DcaState D × Answer D
  unfolding wants_entry base_order
  dca_should_enter name uuid config c x view s =
      if not view.has_position && wants_entry config c x
      then (
        counted s,
        one (
            signal (
              base_order config (stamped name uuid config s) c x view.capital "Trend DCA base order"
                (some zero))),
      )
      else (s, nothing)

  -- A close of the whole position.
  unfoldable pub closing :
      String
      → (ℕ → String)
      → DcaConfig D
      → Bar D (Readings D)
      → Readings D
      → D
      → D
      → String
      → DcaState D
      → DcaState D × Answer D
  unfolding made_signal
  closing name uuid config c x price quantity reason s = (
    counted s,
    one (
        signal (
          made_signal (stamped name uuid config s) c x "close" price quantity reason none none
            none)),
  )

  -- The new trailing high, once the position trails or has risen to the activation price.
  unfoldable pub trailed_high :
      DcaConfig D → Bar D (Readings D) → PositionView D → DcaState D → Option D
  unfolding truthy_or
  trailed_high config c p s =
      let known = lookup c.symbol s.trailing_highs in
      let activation = p.entry_price ⊗ (literal 1 0 ⊕ config.trailing_stop_activation) in
      if is_some known || activation ≤? high_of c
      then some (max (truthy_or known (high_of c)) (high_of c))
      else none

  -- The last test of `should_exit`.
  unfoldable pub take_profit_exit :
      String
      → (ℕ → String)
      → DcaConfig D
      → Bar D (Readings D)
      → Readings D
      → PositionView D
      → DcaState D
      → DcaState D × Answer D
  unfolding closing
  take_profit_exit name uuid config c x p s =
      if config.take_profit_pct ≤? p.unrealized_pnl_pct
      then closing name uuid config c x c.close p.quantity "Take profit hit" s
      else (s, nothing)

  unfoldable pub trailing_exit :
      String
      → (ℕ → String)
      → DcaConfig D
      → Bar D (Readings D)
      → Readings D
      → PositionView D
      → DcaState D
      → DcaState D × Answer D
  unfolding trailed_high closing take_profit_exit
  trailing_exit name uuid config c x p s = elim (trailed_high config c p s) [
    | none ↦ take_profit_exit name uuid config c x p s
    | some top ↦
        (let stop = top ⊗ (literal 1 0 ⊖ config.trailing_stop_distance) in
          if low_of c ≤? stop
          then closing name uuid config c x stop p.quantity "Trailing stop hit"
              (record s { trailing_highs = erase c.symbol s.trailing_highs })
          else take_profit_exit name uuid config c x p
              (record s { trailing_highs = insert c.symbol top s.trailing_highs }))
  ]

  unfoldable pub dca_should_exit :
      String
      → (ℕ → String)
      → DcaConfig D
      → Bar D (Readings D)
      → Readings D
      → PositionView D
      → DcaState D
      → DcaState D × Answer D
  unfolding closing trailing_exit
  dca_should_exit name uuid config c x p s =
      if leb config.max_holding_periods p.holding_periods
      then closing name uuid config c x c.close p.quantity "Max holding period reached" s
      else if is_trend_down x.regime
      then closing name uuid config c x c.close p.quantity "Regime changed to TREND_DOWN" s
      else trailing_exit name uuid config c x p s

  -- Threshold and size of the safety order after `level` of them.
  unfoldable pub safety_order : DcaConfig D → ℕ → Option (D × D × String)
  safety_order config zero = some (literal 3 2, config.safety_order_1_pct, "DCA safety order 1")
  safety_order config (suc zero) =
      some (literal 5 2, config.safety_order_2_pct, "DCA safety order 2")
  safety_order config (suc (suc zero)) =
      some (literal 8 2, config.safety_order_3_pct, "DCA safety order 3")
  safety_order config (suc (suc (suc n))) = none

  unfoldable pub dca_should_add :
      String
      → (ℕ → String)
      → DcaConfig D
      → Bar D (Readings D)
      → Readings D
      → PositionView D
      → DcaState D
      → DcaState D × Answer D
  unfolding safety_order made_signal order_quantity
  dca_should_add name uuid config c x p s =
      let level = get_or_else (lookup c.symbol s.dca_levels) zero in
      if not (is_trend_up x.regime) then (s, nothing) else elim (safety_order config level) [
        | none ↦ (s, nothing)
        | some order ↦
            if (p.entry_price ⊖ c.close) ⊘ p.entry_price <? order.0 then (s, nothing) else (
              counted s,
              one (
                  signal (
                    made_signal (stamped name uuid config s) c x "open_long" c.close
                      (order_quantity config p.capital order.1 c.close) order.2 none none
                      (some (suc level)))),
            )
      ]

  -- `on_fill`: the level of a filled order, and a fresh trailing state for a base order.
  unfoldable pub dca_on_fill : Signal D → Fill D → DcaState D → DcaState D
  dca_on_fill g f s = elim g.dca_level [
    | none ↦ s
    | some zero ↦ record s {
      dca_levels = insert g.symbol zero s.dca_levels;
      trailing_highs = erase g.symbol s.trailing_highs;
    }
    | some (suc n) ↦ record s { dca_levels = insert g.symbol (suc n) s.dca_levels }
  ]

  unfoldable pub trend_dca :
      String → (ℕ → String) → DcaConfig D → BaseStrategy D (Readings D) (DcaState D)
  unfolding dca_should_enter dca_should_exit dca_should_add dca_on_fill
  trend_dca name uuid config = record {
    should_enter = dca_should_enter name uuid config;
    should_exit = dca_should_exit name uuid config;
    should_add_dca = some (dca_should_add name uuid config);
    on_fill = dca_on_fill;
  }
