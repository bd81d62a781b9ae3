-- ===== src/Tests/Execution.antt =====
-- A paper-trading engine that sees two candles and two orders.
use crypto_trading_system.Base.{
  ℕ, ◌+◌, String, ◌≡◌, ◌≢◌, refl, true, if◌then◌else◌, none, some, List, [], ◌∷◌, arith, eq_iff,
}
use crypto_trading_system.Base.Int.{ℤ, pos, ◌+ℤ◌}
use crypto_trading_system.Base.Dict.{lookup, insert}
use crypto_trading_system.Decimal.Integers.{integers}
use crypto_trading_system.Models.{ok, raise, Candle, MarketEvent, buy, sell}
use crypto_trading_system.Execution.State.{
  Engine, ExecutionRequest, sell_exceeds_position, Draw, Tags, order_id_of, find_fill,
}
use crypto_trading_system.Execution.Engine.{execute, on_market_event, held_quantity, book_fill}
use crypto_trading_system.Execution.Repository.{
  Database, run_writes, client_index, has_unknown_order, checkpoint, restore_state,
  unexpected_keyword,
}
use crypto_trading_system.Execution.Market.{feed, feed_twice}
use crypto_trading_system.Execution.Positions.{IsLong, execute-IsLong}
use crypto_trading_system.Execution.Idempotence.{execute_once}
use crypto_trading_system.Execution.Durable.{IsDurable}
use crypto_trading_system.Execution.Recovery.{
  on_market_event-IsDurable, execute-IsDurable, IsFresh, has_empty_books, checkpoint-restore,
}

abbrev pub empty_engine : Engine ℤ
empty_engine = record {
  has_repository = true;
  has_loop = true;
  last_candle = none;
  last_processed_timestamp = none;
  last_sequence = 0;
  cash_balance = pos 1000;
  positions = [];
  orders = [];
  fills = [];
  client_orders = [];
  pending_writes = [];
}

abbrev pub no_rows : Database ℤ
no_rows = record {
  numeric = λ x. x;
  runtime_state = none;
  order_rows = [];
  fill_rows = [];
  position_rows = [];
}

abbrev pub candle : ℕ → Candle ℤ
candle opened = record {
  symbol = "BTCUSDT";
  open_time = opened;
  close_time = opened + 5;
  open_price = pos 10;
  high = pos 12;
  low = pos 9;
  close = pos 11;
  volume = pos 100;
}

abbrev pub first_event : MarketEvent ℤ
first_event = record { candle = candle 1; sequence = 1 }

abbrev pub second_event : MarketEvent ℤ
second_event = record { candle = candle 6; sequence = 2 }

abbrev pub buy_two : ExecutionRequest ℤ
buy_two = record { symbol = "BTCUSDT"; side = buy; quantity = pos 2 }

abbrev sell_three : ExecutionRequest ℤ
sell_three = record { symbol = "BTCUSDT"; side = sell; quantity = pos 3 }

abbrev pub tagged : String → Tags
tagged c = record { client_order_id = some c; run_id = some "run"; signal_id = none }

abbrev pub drawn : Draw
drawn = record { order_id = "o-1"; fill_id = "f-1"; now = 7 }

abbrev drawn_again : Draw
drawn_again = record { order_id = "o-2"; fill_id = "f-2"; now = 8 }

abbrev pub seen : Engine ℤ
seen = (on_market_event first_event empty_engine).0

abbrev pub bought : Engine ℤ
bought = (execute buy_two none (tagged "c-1") drawn seen).0

empty_engine-IsDurable : IsDurable empty_engine no_rows
unfolding run_writes client_index has_unknown_order
empty_engine-IsDurable = record {
  persists = refl;
  looped = refl;
  orders_saved = λ x. refl;
  fills_saved = λ x. refl;
  positions_saved = λ x. refl;
  orders_keyed = (tt, tt);
  fills_keyed = (tt, tt);
  positions_keyed = (tt, tt);
  clients_indexed = refl;
  fills_known = refl;
}

seen-IsDurable : IsDurable seen no_rows
seen-IsDurable = on_market_event-IsDurable first_event empty_engine no_rows empty_engine-IsDurable

pub no_orders : lookup (order_id_of (some "c-1") "o-1") seen.orders ≡ none
unfolding lookup order_id_of on_market_event
no_orders = refl

pub no_fills : lookup "f-1" seen.fills ≡ none
unfolding lookup on_market_event
no_fills = refl

no_fill_of : find_fill "c-1" seen.fills ≡ none
unfolding find_fill on_market_event
no_fill_of = refl

bought-IsDurable : IsDurable bought no_rows
bought-IsDurable =
    execute-IsDurable buy_two none (tagged "c-1") drawn seen no_rows seen-IsDurable no_orders
      no_fills

empty_engine-IsFresh : IsFresh empty_engine
empty_engine-IsFresh = record {
  persists = refl;
  no_positions = refl;
  no_orders = refl;
  no_fills = refl;
  no_clients = refl;
}

checkpoint-restore_example :
    let (fresh', r) = restore_state (checkpoint bought no_rows).1 empty_engine in
    (r ≡ (if has_empty_books bought then ok tt else raise unexpected_keyword))
    × (fresh'.last_sequence ≡ bought.last_sequence)
    × (fresh'.last_processed_timestamp ≡ bought.last_processed_timestamp)
    × (fresh'.cash_balance ≡ bought.cash_balance)
    × (fresh'.positions ≡ [])
    × (fresh'.orders ≡ [])
    × (fresh'.fills ≡ [])
    × (fresh'.client_orders ≡ [])
checkpoint-restore_example =
    checkpoint-restore bought empty_engine no_rows bought-IsDurable empty_engine-IsFresh

bought_ok :
    (execute buy_two none (tagged "c-1") drawn seen).1
    ≡ ok (record { symbol = "BTCUSDT"; side = buy; quantity = pos 2; price = pos 11 })
unfolding execute on_market_event lookup
bought_ok = refl

abbrev client : String
client = "c-1"

named : client ≢ ""
named h = ground (arith, h, eq_iff client "")

execute_once_example :
    execute sell_three (some (pos 20)) (tagged "c-1") drawn_again bought
    ≡ (bought, ok (record { symbol = "BTCUSDT"; side = buy; quantity = pos 2; price = pos 11 }))
execute_once_example =
    execute_once buy_two sell_three none (some (pos 20)) (tagged "c-1") (tagged "c-1") drawn
      drawn_again seen client named refl refl no_fill_of bought_ok

sell_refused :
    (execute sell_three none (tagged "c-2") drawn_again bought).1 ≡ raise sell_exceeds_position
unfolding execute on_market_event lookup book_fill insert ◌+ℤ◌
sell_refused = refl

seen-IsLong : IsLong seen
unfolding held_quantity on_market_event lookup
seen-IsLong s = refl

execute-IsLong_example : IsLong bought
execute-IsLong_example = execute-IsLong buy_two none (tagged "c-1") drawn seen seen-IsLong

abbrev log : List (MarketEvent ℤ)
log = second_event ∷ first_event ∷ second_event ∷ []

feed_twice_example : feed log (feed log empty_engine).0 ≡ ((feed log empty_engine).0, [])
feed_twice_example = feed_twice log empty_engine
