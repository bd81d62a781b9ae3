-- ===== src/Backtest/Candles.antt =====
-- What `BacktestEngine.run` does on one candle: pending signals, exits on levels, and the questions to
-- the strategy. A strategy reads the portfolio and does not write it.
use crypto_trading_system.Base.{
  ℕ, suc, String, Bool, false, ◌||◌, Option, none, some, List, [], ◌∷◌, ◌++◌, is_some,
}
use crypto_trading_system.Base.Dict.{lookup}
use crypto_trading_system.Decimal.{Decimal, dec_zero, ◌⊖◌, ◌⊘◌}
use crypto_trading_system.Models.{Result, ok, raise}
use crypto_trading_system.Backtest.Position.{Position}
use crypto_trading_system.Backtest.Portfolio.{Portfolio, total_equity}
use crypto_trading_system.Backtest.Exits.{
  ExitReason, stop_loss_hit, stop_loss_hit_on_gap, take_profit_hit, ExitLevelEvent,
}
use crypto_trading_system.Backtest.Signals.{
  Bar, Signal, RawSignal, Answer, nothing, one, several, EntryView, PositionView, BaseStrategy,
  Strategy, legacy, based, Fill, BacktestError, normalize_signal,
}
use crypto_trading_system.Backtest.Orders.{BacktestEngine, Outside, tick}
use crypto_trading_system.Backtest.Engine.{create_and_execute_order}
use crypto_trading_system.Backtest.Volumes.{recent_volume}

-- The text of an exit's reason.
unfoldable pub reason_text : ExitReason → String
reason_text stop_loss_hit = "Stop-loss hit"
reason_text stop_loss_hit_on_gap = "Stop-loss hit on gap"
reason_text take_profit_hit = "Take-profit hit"

-- The local variables of `run`, and the state of the strategy.
pub record RunState (D S : Type 0) : Type 0 where
  pub engine : BacktestEngine D
  pub strategy_state : S
  pub pending_signals : List (Signal D)
  pub peak_equity : D

module _ {D : Type 0} ⦃dec : Decimal D⦄ where
  -- `_process_signal` of a signal that the engine owns.
  unfoldable pub process_signal :
      Outside D
      → Signal D
      → ℕ
      → Option D
      → BacktestEngine D
      → BacktestEngine D × Result BacktestError (Option (Fill D))
  process_signal world s timestamp average_volume e =
      create_and_execute_order world s s.price timestamp average_volume
        (record e { signals = e.signals ++ (s ∷ []) })

  -- A CLOSE that the engine makes for a position; its id is drawn.
  unfoldable pub close_signal :
      Outside D → String → D → D → ℕ → String → String → BacktestEngine D → Signal D
  close_signal world symbol price quantity timestamp reason run_id e = record {
    action = "close";
    symbol = symbol;
    price = price;
    quantity = quantity;
    timestamp = timestamp;
    reason = reason;
    stop_loss = none;
    take_profit = none;
    strategy = "backtest_engine";
    parameters_version = "backtest_engine_v1";
    regime = none;
    dca_level = none;
    signal_id = world.uuid e.ticks;
    run_id = run_id;
  }

  unfoldable pub entry_view : Portfolio D → EntryView D
  entry_view p = record {
    has_position = false;
    capital = total_equity p;
    available_balance = p.balance;
  }

  unfoldable pub position_view : Position D → Portfolio D → PositionView D
  position_view q p = record {
    symbol = q.symbol;
    side = q.side;
    entry_price = q.entry_price;
    quantity = q.quantity;
    unrealized_pnl_pct = elim q.current_price [
      | none ↦ dec_zero
      | some price ↦ (price ⊖ q.entry_price) ⊘ q.entry_price
    ];
    holding_periods = q.holding_periods;
    capital = total_equity p;
    high_water_mark = q.high_water_mark;
  }

module _ {D : Type 0} ⦃dec : Decimal D⦄ {I : Type 0} where
  -- The exits on levels; the answer says whether one of them was filled.
  unfoldable pub execute_exits :
      Outside D
      → List (Bar D I)
      → ℕ
      → ℕ
      → String
      → List (ExitLevelEvent D)
      → Bool
      → BacktestEngine D
      → BacktestEngine D × Result BacktestError Bool
  unfolding recent_volume process_signal close_signal reason_text
  execute_exits world candles index timestamp run_id [] closed e = (e, ok closed)
  execute_exits world candles index timestamp run_id (x ∷ events) closed e =
      elim (lookup x.symbol e.portfolio.positions) [
        | none ↦ execute_exits world candles index timestamp run_id events closed e
        | some p ↦
            (let s =
                close_signal world x.symbol x.reference_price p.quantity timestamp
                  (reason_text x.reason) run_id e in
              let (e', result) =
                process_signal world s timestamp (recent_volume candles index x.symbol) (tick e) in
              elim result [
                | raise err ↦ (e', raise err)
                | ok fill ↦
                    execute_exits world candles index timestamp run_id events
                      (is_some fill || closed) e'
              ])
      ]

module _ {D : Type 0} ⦃dec : Decimal D⦄ {I S : Type 0} where
  -- `strategy.on_fill`, for a `BaseStrategy` and a fill.
  unfoldable pub told_of_fill : Strategy D I S → Signal D → Option (Fill D) → S → S
  told_of_fill (legacy f) s fill state = state
  told_of_fill (based b) s none state = state
  told_of_fill (based b) s (some fill) state = b.on_fill s fill state

  -- The pending signals, each at the opening price.
  unfoldable pub execute_pending :
      Outside D
      → Strategy D I S
      → List (Bar D I)
      → ℕ
      → D
      → ℕ
      → List (Signal D)
      → RunState D S
      → RunState D S × Result BacktestError (Unit {0})
  unfolding recent_volume told_of_fill
  execute_pending world strategy candles index open_price timestamp [] r = (r, ok tt)
  execute_pending world strategy candles index open_price timestamp (s ∷ pending) r =
      let (e, result) =
        create_and_execute_order world s open_price timestamp (recent_volume candles index s.symbol)
          r.engine in
      elim result [
        | raise x ↦ (record r { engine = e }, raise x)
        | ok fill ↦
            execute_pending world strategy candles index open_price timestamp pending (record r {
              engine = e;
              strategy_state = told_of_fill strategy s fill r.strategy_state;
            })
      ]

  -- `should_exit`, and `should_add_dca` if that gives nothing.
  unfoldable pub exit_or_dca : BaseStrategy D I S → Bar D I → I → PositionView D → S → S × Answer D
  exit_or_dca b candle indicators view state =
      let (state', answer) = b.should_exit candle indicators view state in
      elim answer [
        | nothing ↦ elim b.should_add_dca [
          | none ↦ (state', nothing)
          | some add ↦ add candle indicators view state'
        ]
        | one s ↦ (state', one s)
        | several ss ↦ (state', several ss)
      ]

  unfoldable pub strategy_signals : Strategy D I S → Bar D I → I → Portfolio D → S → S × Answer D
  unfolding entry_view position_view exit_or_dca
  strategy_signals (legacy f) candle indicators p state = f candle p state
  strategy_signals (based b) candle indicators p state = elim (lookup candle.symbol p.positions) [
    | none ↦ b.should_enter candle indicators (entry_view p) state
    | some q ↦ exit_or_dca b candle indicators (position_view q p) state
  ]

  -- The answers join the audit and wait for the next candle.
  unfoldable pub queue_signals :
      Outside D
      → Bar D I
      → String
      → List (RawSignal D)
      → RunState D S
      → RunState D S × Result BacktestError (Unit {0})
  unfolding normalize_signal
  queue_signals world candle run_id [] r = (r, ok tt)
  queue_signals world candle run_id (raw ∷ rest) r =
      elim (normalize_signal raw candle candle.open_time run_id (world.uuid r.engine.ticks)) [
        | raise x ↦ (r, raise x)
        | ok s ↦ queue_signals world candle run_id rest (record r {
          engine = record r.engine {
            signals = r.engine.signals ++ (s ∷ []);
            ticks = suc r.engine.ticks;
          };
          pending_signals = r.pending_signals ++ (s ∷ []);
        })
      ]
