-- ===== src/Tests/Runtime.antt =====
-- A start of the application, and a trading day.
use crypto_trading_system.Base.{none, List, [], ◌∷◌}
use crypto_trading_system.Runtime.Lifecycle.{
  RuntimeState, preflight, running, stopping, stopped, new_lifecycle, transitions, IsTraced,
  transitions-IsTraced,
}
use crypto_trading_system.Runtime.Schedule.{LocalTime, TradingSchedule, SessionManager}

abbrev requests : List RuntimeState
requests = preflight ∷ running ∷ stopping ∷ stopped ∷ []

transitions-IsTraced_example :
    IsTraced (transitions requests new_lifecycle).state (transitions requests new_lifecycle).history
transitions-IsTraced_example = transitions-IsTraced requests

abbrev weekdays_nine_to_five : TradingSchedule
weekdays_nine_to_five = record {
  start = 32400000000;
  end = 61200000000;
  weekdays = 0 ∷ 1 ∷ 2 ∷ 3 ∷ 4 ∷ [];
}

abbrev pub monday_ten : LocalTime
monday_ten = record { day = 739000; weekday = 0; time = 36000000000 }

abbrev pub no_session : SessionManager
no_session = record { schedule = weekdays_nine_to_five; current = none }
