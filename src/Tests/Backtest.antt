-- ===== src/Tests/Backtest.antt =====
-- A simulated portfolio that buys, buys again and sells.
use crypto_trading_system.Base.{
  arith, leb, if◌then◌else◌, ◌+◌, ◌*◌, get_elem?, ◌≡◌, refl, none, some,
}
use crypto_trading_system.Base.Int.{ℤ, pos, ◌+ℤ◌, ◌*ℤ◌, ◌/ℤ◌}
use crypto_trading_system.Base.Dict.{lookup, insert}
use crypto_trading_system.Decimal.{sum}
use crypto_trading_system.Decimal.Integers.{integers}
use crypto_trading_system.Backtest.Portfolio.{
  Portfolio, Entry, realized_pnl, new_portfolio, open_position, close_position, filled_position,
  first_fill,
}
use crypto_trading_system.Backtest.WalkForward.{
  WalkForwardConfig, windows_of, generate_walk_forward_windows, days,
  get_elem?-generate_walk_forward_windows,
}
use crypto_trading_system.Backtest.Books.{
  IsBalanced, IsExact, open_position-IsBalanced, close_position-IsBalanced, invested,
}

abbrev start : Portfolio ℤ
start = new_portfolio (pos 1000)

abbrev entry : Entry ℤ
entry = record {
  symbol = "BTCUSDT";
  side = "long";
  price = pos 10;
  quantity = pos 4;
  timestamp = 1;
  stop_loss = some (pos 8);
  take_profit = some (pos 20);
  commission = pos 1;
}

abbrev second_entry : Entry ℤ
second_entry = record entry { price = pos 14; timestamp = 2 }

start-IsBalanced : IsBalanced start
unfolding new_portfolio invested realized_pnl sum
start-IsBalanced = refl

start-IsExact : IsExact entry (lookup "BTCUSDT" start.positions)
unfolding new_portfolio lookup
start-IsExact = tt

abbrev opened_once : Portfolio ℤ
opened_once = (open_position entry start).0

opened_once-IsBalanced : IsBalanced opened_once
opened_once-IsBalanced = open_position-IsBalanced entry start start-IsExact start-IsBalanced

-- (10 * 4 + 14 * 4) / 8 is 12.
opened_once-IsExact : IsExact second_entry (lookup "BTCUSDT" opened_once.positions)
unfolding new_portfolio lookup open_position filled_position first_fill ◌+ℤ◌ ◌*ℤ◌ insert ◌/ℤ◌
opened_once-IsExact = refl

open_position-IsBalanced_example : IsBalanced (open_position second_entry opened_once).0
open_position-IsBalanced_example =
    open_position-IsBalanced second_entry opened_once opened_once-IsExact opened_once-IsBalanced

close_position-IsBalanced_example :
    IsBalanced (close_position "BTCUSDT" (pos 9) 3 (pos 1) opened_once).0
close_position-IsBalanced_example =
    close_position-IsBalanced "BTCUSDT" (pos 9) 3 (pos 1) opened_once opened_once-IsBalanced

abbrev half_year : WalkForwardConfig ℤ
half_year = record { train_days = 180; test_days = 60; step_days = 60; initial_balance = pos 500 }

get_elem?-generate_walk_forward_windows_example :
    get_elem? (windows_of (generate_walk_forward_windows 0 31536000 half_year)) 2 ≡ (
      if leb (0 + 2 * days 60 + days 180 + days 60) 31536000
      then some (record {
        index = 3;
        train_start = 0 + 2 * days 60;
        train_end = 0 + 2 * days 60 + days 180;
        test_start = 0 + 2 * days 60 + days 180;
        test_end = 0 + 2 * days 60 + days 180 + days 60;
      })
      else none)
get_elem?-generate_walk_forward_windows_example =
    get_elem?-generate_walk_forward_windows 0 31536000 half_year 2 (omega arith) (omega arith)
