-- ===== src/Trading/OrderId.antt =====
-- The client order id that the runtime gives each request: session, event, position and order.
use crypto_trading_system.Base.{
  ℕ, zero, suc, ◌/◌, ◌%◌, String, ◌=ₛ◌, ltb, ◌==◌, if◌then◌else◌, Option, none, some,
}
use crypto_trading_system.Models.{side_value}
use crypto_trading_system.Execution.State.{ExecutionRequest}
use Prim.Native.String.{◌++◌}

abbrev pub digit : ℕ → String
digit n =
    if n == 0
    then "0"
    else if n == 1
    then "1"
    else if n == 2
    then "2"
    else if n == 3
    then "3"
    else if n == 4
    then "4"
    else if n == 5
    then "5"
    else if n == 6
    then "6"
    else if n == 7
    then "7"
    else if n == 8
    then "8"
    else "9"

-- A number has no more digits than the fuel, which is above it.
abbrev pub digits : ℕ → ℕ → String
digits zero n = ""
digits (suc fuel) n = if ltb n 10 then digit n else digits fuel (n / 10) ++ digit (n % 10)

-- `str(n)`
abbrev pub decimal : ℕ → String
decimal n = digits (suc n) n

-- `self.session_id or 'paper'`
abbrev pub session_or_paper : Option String → String
session_or_paper none = "paper"
session_or_paper (some s) = if s =ₛ "" then "paper" else s

unfoldable pub order_tag : {D : Type 0} → Option String → ℕ → ℕ → ExecutionRequest D → String
order_tag session sequence index request =
    session_or_paper session
    ++ (":"
        ++ (decimal sequence
            ++ (":"
                ++ (decimal index
                    ++ (":" ++ (request.symbol ++ (":" ++ side_value request.side)))))))
