-- ===== src/Tests/Application.antt =====
-- Starts and stops of the paper application.
use crypto_trading_system.Base.{
  ℕ, ◌≡◌, ◌≢◌, refl, Bool, true, false, none, some, [], ◌∷◌, get_or_else, arith, ◌↔◌,
}
use crypto_trading_system.Base.Int.{ℤ, pos, ◌+ℤ◌, ◌-ℤ◌, ◌*ℤ◌}
use crypto_trading_system.Base.Dict.{Dict}
use crypto_trading_system.Decimal.{sum}
use crypto_trading_system.Decimal.Integers.{integers}
use crypto_trading_system.Models.{ok}
use crypto_trading_system.Risk.Engine.{new_engine}
use crypto_trading_system.Risk.Trade.{
  Trade, reducing, is_invalid, exposure_increase, after, before, position_signed_value,
}
use crypto_trading_system.Risk.Check.{check_trade, adjusted_quantity_of}
use crypto_trading_system.Base.Text.{lower_is, lower_in}
use crypto_trading_system.Runtime.Lifecycle.{created, running, stopping, stopped, new_lifecycle}
use crypto_trading_system.Runtime.Preflight.{StartupPreflight, run_preflight, has_text}
use crypto_trading_system.Runtime.Application.{
  PaperApplication, Surroundings, StopStep, await_run_task, initial_reconciliation, start, stop,
}
use crypto_trading_system.Runtime.Startup.{
  IsInside, IsWarm, start_enables, initial_reconciliation_blocks, stop_never_closes,
}
use crypto_trading_system.Tests.Risk.{config, sell_half}
use crypto_trading_system.Tests.Runtime.{monday_ten, no_session}
use crypto_trading_system.Tests.Trading.{holding, reconciler, objects}

abbrev paper_mode : StartupPreflight ℤ
paper_mode = record {
  trading_mode = "paper";
  exchange = "mainnet";
  symbols = "BTCUSDT" ∷ [];
  initial_capital = pos 1000;
  has_risk_config = true;
  database_check = some true;
  migration_check = some true;
  repository = some true;
}

abbrev live_mode : StartupPreflight ℤ
live_mode = record paper_mode { trading_mode = "live"; database_check = none }

abbrev application : PaperApplication ℤ
application = record {
  lifecycle = new_lifecycle;
  trading_enabled = false;
  session_manager = some no_session;
  session_id = none;
  has_run_task = false;
  is_closed = false;
  risk = new_engine config false none;
  reconciler = some reconciler;
}

abbrev surroundings : Surroundings ℤ
surroundings = record {
  startup = paper_mode;
  restore_fails = false;
  bootstrap = some true;
  available = some (("BTCUSDT", 300) ∷ []);
  warmup_candles = 250;
  source_ready = true;
  now = monday_ten;
  clock = 7;
  engine = holding;
  loaded = objects;
}

is_created : application.lifecycle.state ≡ created
unfolding new_lifecycle
is_created = refl

start_succeeds : (start surroundings application).1 ≡ ok tt
unfolding start new_lifecycle run_preflight has_text
start_succeeds = refl

start_enables_example :
    let app' = (start surroundings application).0 in
    (app'.lifecycle.state ≡ running)
    × (app'.has_run_task ≡ true)
    × ((available : Dict ℕ) × (surroundings.available ≡ some available)
        × ((app'.trading_enabled ≡ true) ↔ (
            (get_or_else surroundings.bootstrap true ≡ true)
            × (surroundings.source_ready ≡ true)
            × IsWarm surroundings.startup.symbols surroundings.warmup_candles available
            × IsInside surroundings application.session_manager)))
start_enables_example = start_enables surroundings application is_created start_succeeds

live_fails : (run_preflight live_mode).success ≡ false
unfolding run_preflight has_text
live_fails = refl

abbrev sale : Trade ℤ
sale = sell_half

sale_approved :
    (check_trade (initial_reconciliation surroundings application).risk sale).1.approved ≡ true
unfolding check_trade is_invalid lower_is reducing exposure_increase ◌-ℤ◌ after ◌+ℤ◌ before sum
    position_signed_value lower_in ◌*ℤ◌ adjusted_quantity_of
sale_approved = refl

initial_reconciliation_blocks_example : reducing sale ≡ true
initial_reconciliation_blocks_example =
    initial_reconciliation_blocks surroundings application reconciler "o-1" [] sale refl refl refl
      refl sale_approved

abbrev at_work : PaperApplication ℤ
at_work = record application {
  lifecycle = record { state = running; history = [] };
  has_run_task = true;
}

working : at_work.lifecycle.state ≢ stopped
working h = ground (arith, h)

abbrev quiet : StopStep → Bool
quiet step = false

abbrev task_failed : StopStep → Bool
task_failed await_run_task = true
task_failed _ = false

stop_never_closes_example :
    let (app', answer) = stop task_failed at_work in
    (answer ≢ ok tt)
    × (app'.lifecycle.state ≡ stopping)
    × (app'.is_closed ≡ false)
    × (stop task_failed app' ≡ (app', answer))
stop_never_closes_example = stop_never_closes task_failed at_work refl refl working
