-- ===== src/Execution/Market.antt =====
-- `on_market_event` consumes market events in strictly increasing order, and each at most once.
use crypto_trading_system.Base.{
  ℕ, ◌≤◌, ◌<◌, ◌≡◌, refl, Bool, true, false, Option, none, some, List, [], ◌∷◌, arith, All, ◌⊎◌,
}
use crypto_trading_system.Decimal.{Decimal}
use crypto_trading_system.Models.{Result, ok, raise, validate, MarketEvent}
use crypto_trading_system.Execution.State.{Engine, ExecutionError}
use crypto_trading_system.Execution.Engine.{on_market_event}

-- The time boundary lies before `opened`.
abbrev pub Before : Option ℕ → ℕ → Type 0
Before none opened = Unit
Before (some t) opened = t < opened

-- What has been accepted so far, then the events that are still to come.
abbrev accepted : {D : Type 0} → MarketEvent D → Result ExecutionError Bool → List ℕ → List ℕ
accepted ev (ok true) seen = ev.sequence ∷ seen
accepted ev (ok false) seen = seen
accepted ev (raise _) seen = seen

-- The numbers rise strictly, and all lie above `n`.
abbrev pub Ascending : ℕ → List ℕ → Type 0
Ascending n [] = Unit
Ascending n (m ∷ ms) = (n < m) × Ascending m ms

abbrev Later : Option ℕ → Option ℕ → Type 0
Later none t = Unit
Later (some s) none = ⊥
Later (some s) (some t) = s ≤ t

module _ {D : Type 0} ⦃dec : Decimal D⦄ where
  abbrev pub IsFresh : MarketEvent D → Engine D → Type 0
  IsFresh ev e =
      (validate ev.candle ≡ ok tt)
      × (e.last_sequence < ev.sequence)
      × Before e.last_processed_timestamp ev.candle.open_time

  abbrev pub Advances : MarketEvent D → Engine D → Engine D → Type 0
  Advances ev e e' =
      (e'.last_sequence ≡ ev.sequence)
      × (e'.last_processed_timestamp ≡ some ev.candle.open_time)
      × (e'.last_candle ≡ some ev.candle)
      × (e'.positions ≡ e.positions)
      × (e'.cash_balance ≡ e.cash_balance)

  -- An event is accepted exactly if its candle is valid, its sequence number is above the last one
  -- and its open time after the last one; then the boundaries move to it, and positions and cash
  -- stay. Any other event leaves the engine as it was.
  pub on_market_event_cases :
      (ev : MarketEvent D) (e : Engine D)
      → let (e', r) = on_market_event ev e in
        (IsFresh ev e × (r ≡ ok true) × Advances ev e e')
        ⊎ ((IsFresh ev e → ⊥) × ((r ≡ ok true) → ⊥) × (e' ≡ e))
  unfolding on_market_event
  on_market_event_cases ev e = ground arith

  -- Feeding a list of events, with the sequence numbers of those that were accepted.
  pub feed : List (MarketEvent D) → Engine D → Engine D × List ℕ
  feed [] e = (e, [])
  feed (ev ∷ evs) e =
      let (e', r) = on_market_event ev e in
      let (e'', seen) = feed evs e' in (e'', accepted ev r seen)

  -- The accepted sequence numbers rise strictly, from above the last one on.
  pub feed-Ascending :
      (evs : List (MarketEvent D)) (e : Engine D) → Ascending e.last_sequence (feed evs e).1
  unfolding feed
  feed-Ascending [] e = tt
  feed-Ascending (ev ∷ evs) e =
      ground (arith, on_market_event_cases ev e, feed-Ascending evs (on_market_event ev e).0)

  feed-Later :
      (evs : List (MarketEvent D)) (e : Engine D)
      → (e.last_sequence ≤ (feed evs e).0.last_sequence)
        × Later e.last_processed_timestamp (feed evs e).0.last_processed_timestamp
  unfolding feed
  feed-Later [] e = ground arith
  feed-Later (ev ∷ evs) e =
      ground (arith, on_market_event_cases ev e, feed-Later evs (on_market_event ev e).0)

  abbrev Settled : List (MarketEvent D) → Engine D → Type 0
  Settled evs e = All (λ ev. IsFresh ev e → ⊥) evs

  feed_of_Settled :
      (evs : List (MarketEvent D)) (e : Engine D) → Settled evs e → feed evs e ≡ (e, [])
  unfolding feed
  feed_of_Settled [] e h = refl
  feed_of_Settled (ev ∷ evs) e h = ground (arith, on_market_event_cases ev e, feed_of_Settled evs e)

  event_settles : (ev : MarketEvent D) (e : Engine D) → IsFresh ev (on_market_event ev e).0 → ⊥
  event_settles ev e f = ground (arith, on_market_event_cases ev e)

  stays_settled :
      (ev : MarketEvent D) (evs : List (MarketEvent D)) (e : Engine D)
      → (IsFresh ev e → ⊥)
      → IsFresh ev (feed evs e).0
      → ⊥
  stays_settled ev evs e h f = ground (arith, feed-Later evs e)

  feed-Settled : (evs : List (MarketEvent D)) (e : Engine D) → Settled evs (feed evs e).0
  unfolding feed
  feed-Settled [] e = tt
  feed-Settled (ev ∷ evs) e = (
    stays_settled ev evs (on_market_event ev e).0 (event_settles ev e),
    feed-Settled evs (on_market_event ev e).0,
  )

  -- Feeding a whole log a second time accepts no event of it and changes nothing.
  pub feed_twice :
      (evs : List (MarketEvent D)) (e : Engine D) → feed evs (feed evs e).0 ≡ ((feed evs e).0, [])
  feed_twice evs e = feed_of_Settled evs (feed evs e).0 (feed-Settled evs e)
