-- ===== src/Tests/Trading.antt =====
-- A paper-trading runtime over two events, and reconciliations of its books.
use crypto_trading_system.Base.{
  ℕ, ◌≡◌, refl, true, false, ◌&&◌, Option, none, some, List, [], ◌∷◌, ◌⊎◌, inr,
}
use crypto_trading_system.Base.Int.{ℤ, pos, ◌+ℤ◌, ◌-ℤ◌, ◌*ℤ◌}
use crypto_trading_system.Base.Dict.{Dict}
use crypto_trading_system.Decimal.{sum}
use crypto_trading_system.Decimal.Integers.{integers}
use crypto_trading_system.Models.{ok, MarketEvent, sell, side_value}
use crypto_trading_system.Execution.State.{Engine, ExecutionRequest, Draw}
use crypto_trading_system.Execution.Repository.{stored_runtime_state, stored_runtime_state}
use crypto_trading_system.Risk.Engine.{RiskEngine}
use crypto_trading_system.Risk.Trade.{
  reducing, is_invalid, exposure_increase, after, before, position_signed_value,
}
use crypto_trading_system.Risk.Check.{check_trade, adjusted_quantity_of}
use crypto_trading_system.Base.Text.{lower_is, lower_in}
use crypto_trading_system.Trading.State.{
  PaperTradingRuntime, RiskManager, Strategy, validate_request,
}
use crypto_trading_system.Trading.Runtime.{process_candle}
use crypto_trading_system.Trading.Managers.{adapter_validate}
use crypto_trading_system.Trading.Gate.{SameTrades, process_candle_blocked}
use crypto_trading_system.Reconciliation.Reconciler.{dict_row, object_row, Loaded, PaperReconciler}
use crypto_trading_system.Tests.Execution.{
  empty_engine, no_rows, first_event, second_event, buy_two, drawn,
}
use crypto_trading_system.Tests.Risk.{stopped_engine}

-- The adapter of a stopped risk engine is the risk manager.
abbrev runtime : PaperTradingRuntime ℤ (RiskEngine ℤ)
runtime = record {
  engine = empty_engine;
  database = no_rows;
  risk = stopped_engine;
  has_repository = true;
  is_running = false;
  candles_processed = 0;
  last_checkpoint_sequence = 0;
  checkpoint_interval = 1;
  reconciliation_interval = 50;
  has_reconcile_callback = false;
  reconciliations = 0;
  has_heartbeat = true;
  beats = [];
  trading_enabled = true;
  source_ready = true;
  session_id = some "2026-08-10";
  run_id = "run";
}

abbrev buy_always : Option (Strategy ℤ)
buy_always = some (λ c e. ok (buy_two ∷ []))

abbrev adapter : Option (RiskManager ℤ (RiskEngine ℤ))
adapter = some (adapter_validate (pos 1000) 7)

abbrev two_events : List (MarketEvent ℤ × (ℕ → Draw))
two_events = (first_event, λ i. drawn) ∷ (second_event, λ i. drawn) ∷ []

-- It refuses every request.
abbrev refuse : Option (RiskManager ℤ (RiskEngine ℤ))
refuse = some (λ q e s. (s, false))

refuses :
    ((runtime.trading_enabled && runtime.source_ready) ≡ false)
    ⊎ ((q : ExecutionRequest ℤ) (e : Engine ℤ) (s : RiskEngine ℤ)
        → (validate_request refuse q e s).1 ≡ false)
unfolding validate_request
refuses = inr (λ q e s. refl)

process_candle_blocked_example :
    SameTrades empty_engine
      (process_candle buy_always refuse (λ i. drawn) first_event runtime).0.engine
process_candle_blocked_example =
    process_candle_blocked refuse buy_always (λ i. drawn) first_event runtime refuses

abbrev pub holding : Engine ℤ
holding = record empty_engine {
  last_candle = some first_event.candle;
  positions =
      ("BTCUSDT", record { symbol = "BTCUSDT"; quantity = pos 2; average_price = pos 11 }) ∷ [];
}

abbrev sell_one : ExecutionRequest ℤ
sell_one = record { symbol = "BTCUSDT"; side = sell; quantity = pos 1 }

sale_approved : (adapter_validate (pos 1000) 7 sell_one holding stopped_engine).1 ≡ true
unfolding adapter_validate check_trade is_invalid lower_is side_value reducing exposure_increase
    ◌-ℤ◌ after ◌+ℤ◌ before sum position_signed_value lower_in ◌*ℤ◌ adjusted_quantity_of
sale_approved = refl

abbrev pub reconciler : PaperReconciler ℤ
reconciler = record {
  balance_tolerance = pos 0;
  position_tolerance = pos 0;
  has_readers = true;
  last_result = none;
  consecutive_fatal = 3;
  total_checks = 8;
}

-- A reader of dicts that has an order unknown to the engine.
abbrev pub dicts : Loaded ℤ
dicts = record {
  orders = dict_row (some "o-9") ∷ [];
  fills = [];
  positions = record { symbol = some "BTCUSDT"; quantity = some (pos 2) } ∷ [];
  cash_balance = some (pos 1000);
}

abbrev dict_orders : Dict (Unit {0})
dict_orders = ("o-9", tt) ∷ []

-- Rows that are objects.
abbrev pub objects : Loaded ℤ
objects = record dicts { orders = object_row "o-1" ∷ [] }
