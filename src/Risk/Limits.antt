-- ===== src/Risk/Limits.antt =====
-- What an answer of `check_trade` means: which trades are approved, and what each rejection names.
use crypto_trading_system.Base.{
  ℕ, String, sym, ◌+◌, ◌*◌, ◌≤◌, ◌<◌, ◌≡◌, refl, ap, Bool, true, false, not, ◌&&◌, none, some, List,
  [], ◌∷◌, ◌++◌, All, length, append-nil, append_assoc, arith, inl, inr, ◌⊎◌, Option-cases, leb,
  if◌then◌else◌, ◌↔◌,
}
use crypto_trading_system.Base.Text.{lower_is, lower_in}
use crypto_trading_system.Decimal.{Decimal, dec_zero, ◌<?◌, ◌≤?◌, ◌⊘◌, ◌⊖◌, abs}
use crypto_trading_system.Risk.Engine.{RiskEvent, invalid_trade, RiskEngine, RiskConfig}
use crypto_trading_system.Risk.Trade.{
  Trade, reducing, is_invalid, has_unknown_status, is_stale, position_pct, exposure_increase,
  utilization, risk_pct, exceeds_risk, is_held, known_order_statuses,
}
use crypto_trading_system.Risk.Check.{
  Guard, Report, run_guards, reject, guards, no_report, check_trade, adjusted_quantity_of, is_up,
}

-- The events of the guards that fail, in order.
abbrev pub failing : List Guard → List RiskEvent
failing [] = []
failing (g ∷ gs) = if g.fails then g.event ∷ failing gs else failing gs

run_guards-events :
    (gs : List Guard) (report : Report)
    → (run_guards gs report).events ≡ report.events ++ failing gs
unfolding run_guards
run_guards-events [] report = sym (append-nil report.events)
run_guards-events (g ∷ gs) report = ground (
  arith,
  run_guards-events gs report,
  run_guards-events gs (reject g.event g.level report),
  append_assoc report.events (g.event ∷ []) (failing gs),
)

failing_none : (gs : List Guard) → failing gs ≡ [] → All (λ g. g.fails ≡ false) gs
failing_none [] h = tt
failing_none (g ∷ gs) h = ground (arith, failing_none gs)

none_failing : (gs : List Guard) → All (λ g. g.fails ≡ false) gs → failing gs ≡ []
none_failing [] h = refl
none_failing (g ∷ gs) h = ground (arith, none_failing gs)

known_of :
    (ss : List String)
    → has_unknown_status ss ≡ false
    → All (λ s. lower_in s known_order_statuses ≡ true) ss
unfolding has_unknown_status
known_of [] h = tt
known_of (s ∷ ss) h = ground (arith, known_of ss)

known_statuses :
    (ss : List String)
    → All (λ s. lower_in s known_order_statuses ≡ true) ss
    → has_unknown_status ss ≡ false
unfolding has_unknown_status
known_statuses [] h = refl
known_statuses (s ∷ ss) h = ground (arith, known_statuses ss)

-- Python's `not reasons` at a result: no events.
not-false : (b : Bool) → not b ≡ false → b ≡ true
not-false true h = refl
not-false false h = cc

not-true : (b : Bool) → not b ≡ true → b ≡ false
not-true true h = cc
not-true false h = refl

and_false : (a b : Bool) → (a && b) ≡ false → a ≡ true → not b ≡ true
and_false a b h k = ground arith

and_not : (a b : Bool) → (a ≡ true → not b ≡ true) → (a && b) ≡ false
and_not a b h = ground arith

free_slot :
    (held : Bool) (limit n : ℕ) → (held ≡ false → n < limit) → (not held && leb limit n) ≡ false
free_slot held limit n h = ground arith

module _ {D : Type 0} ⦃dec : Decimal D⦄ where
  abbrev pub IsOrderly : Trade D → Type 0
  IsOrderly t =
      ((lower_is t.side "buy" ≡ true) ⊎ (lower_is t.side "sell" ≡ true))
      × ((dec_zero <? t.quantity) ≡ true)
      × ((dec_zero <? t.price) ≡ true)
      × ((dec_zero <? t.total_capital) ≡ true)

  -- The limits that new exposure has to keep.
  pub record WithinLimits (r : RiskEngine D) (t : Trade D) : Type 0 where
    pub no_emergency : r.is_emergency_stop ≡ false
    pub database_up : is_up t.database_available r.database_available ≡ true
    pub api_up : is_up t.api_available r.api_available ≡ true
    pub reconciled : is_up t.reconciliation_ok r.reconciliation_ok ≡ true
    pub statuses_known : All (λ s. lower_in s known_order_statuses ≡ true) t.order_statuses
    pub fresh :
        (seen : ℕ)
        → r.last_data_time ≡ some seen
        → t.now ≤ seen + r.config.stale_data_threshold_minutes * 60000000
    pub position : (position_pct t ≤? r.config.max_position_size) ≡ true
    pub balance : (exposure_increase t ≤? t.current_balance) ≡ true
    pub risk :
        (stop : D)
        → t.stop_loss_price ≡ some stop
        → (risk_pct t stop ≤? r.config.max_risk_per_trade) ≡ true
    pub asset : (position_pct t ≤? r.config.max_asset_exposure) ≡ true
    pub capital : (utilization t ≤? r.config.max_capital_utilization) ≡ true
    pub daily :
        (r.daily_pnl <? dec_zero) ≡ true
        → (abs r.daily_pnl ⊘ t.total_capital ≤? r.config.daily_loss_limit) ≡ true
    pub weekly :
        (r.weekly_pnl <? dec_zero) ≡ true
        → (abs r.weekly_pnl ⊘ t.total_capital ≤? r.config.weekly_loss_limit) ≡ true
    pub drawdown :
        (dec_zero <? r.peak_equity) ≡ true
        → ((r.peak_equity ⊖ r.current_equity) ⊘ r.peak_equity ≤? r.config.max_drawdown) ≡ true
    pub slots :
        is_held t.symbol t.current_positions ≡ false
        → length t.current_positions < r.config.max_open_positions

  fresh_of :
      (r : RiskEngine D) (now : ℕ)
      → is_stale r.config r.last_data_time now ≡ false
      → (seen : ℕ) → r.last_data_time ≡ some seen
      → now ≤ seen + r.config.stale_data_threshold_minutes * 60000000
  unfolding is_stale
  fresh_of r now h seen e = ground arith

  not_stale :
      (r : RiskEngine D) (now : ℕ)
      → ((seen : ℕ)
          → r.last_data_time ≡ some seen
          → now ≤ seen + r.config.stale_data_threshold_minutes * 60000000)
      → is_stale r.config r.last_data_time now ≡ false
  unfolding is_stale
  not_stale r now h = elim (Option-cases r.last_data_time) [
    | inl unknown ↦ ground arith
    | inr (seen, e) ↦ let bound = h seen e in ground arith
  ]

  risk_of :
      (r : RiskEngine D) (t : Trade D)
      → exceeds_risk r.config t ≡ false
      → (stop : D) → t.stop_loss_price ≡ some stop
      → (risk_pct t stop ≤? r.config.max_risk_per_trade) ≡ true
  risk_of r t h stop e = ground arith

  no_risk :
      (r : RiskEngine D) (t : Trade D)
      → ((stop : D)
          → t.stop_loss_price ≡ some stop
          → (risk_pct t stop ≤? r.config.max_risk_per_trade) ≡ true)
      → exceeds_risk r.config t ≡ false
  no_risk r t h = elim (Option-cases t.stop_loss_price) [
    | inl no_stop ↦ ground arith
    | inr (stop, e) ↦ let bound = h stop e in ground arith
  ]

  pub guards-WithinLimits :
      (r : RiskEngine D) (t : Trade D) → failing (guards r t) ≡ [] → WithinLimits r t
  unfolding guards
  guards-WithinLimits r t h =
      let p = failing_none (guards r t) h in
      record {
        no_emergency = p.0;
        database_up = not-false _ (p.1.0);
        api_up = not-false _ (p.1.1.0);
        reconciled = not-false _ (p.1.1.1.0);
        statuses_known = known_of t.order_statuses (p.1.1.1.1.0);
        fresh = fresh_of r t.now (p.1.1.1.1.1.0);
        position = ap not (p.1.1.1.1.1.1.0);
        balance = ap not (p.1.1.1.1.1.1.1.0);
        risk = risk_of r t (p.1.1.1.1.1.1.1.1.0);
        asset = ap not (p.1.1.1.1.1.1.1.1.1.0);
        capital = ap not (p.1.1.1.1.1.1.1.1.1.1.0);
        daily = and_false _ _ (p.1.1.1.1.1.1.1.1.1.1.1.0);
        weekly = and_false _ _ (p.1.1.1.1.1.1.1.1.1.1.1.1.0);
        drawdown = and_false _ _ (p.1.1.1.1.1.1.1.1.1.1.1.1.1.0);
        slots = λ n. ground (arith, p.1.1.1.1.1.1.1.1.1.1.1.1.1.1.0);
      }

  pub WithinLimits-guards :
      (r : RiskEngine D) (t : Trade D) → WithinLimits r t → failing (guards r t) ≡ []
  unfolding guards
  WithinLimits-guards r t w = none_failing (guards r t) (
    w.no_emergency,
    (
      ap not w.database_up,
      (
        ap not w.api_up,
        (
          ap not w.reconciled,
          (
            known_statuses t.order_statuses w.statuses_known,
            (
              not_stale r t.now w.fresh,
              (
                not-true _ w.position,
                (
                  not-true _ w.balance,
                  (
                    no_risk r t w.risk,
                    (
                      not-true _ w.asset,
                      (
                        not-true _ w.capital,
                        (
                          and_not _ _ w.daily,
                          (
                            and_not _ _ w.weekly,
                            (and_not _ _ w.drawdown, (free_slot _ _ _ w.slots, tt)),
                          ),
                        ),
                      ),
                    ),
                  ),
                ),
              ),
            ),
          ),
        ),
      ),
    ),
  )

  pub check_trade_events :
      (r : RiskEngine D) (t : Trade D)
      → (check_trade r t).1.events ≡ (
          if is_invalid t
          then invalid_trade ∷ []
          else if reducing t
          then []
          else failing (guards r t))
  unfolding check_trade reject
  check_trade_events r t = ground (arith, run_guards-events (guards r t) no_report)

  pub no_adjustment :
      (config : RiskConfig D) (t : Trade D) → adjusted_quantity_of config t [] ≡ none
  unfolding adjusted_quantity_of
  no_adjustment config t = refl

  pub approved_iff_no_events :
      (r : RiskEngine D) (t : Trade D)
      → ((check_trade r t).1.approved ≡ true) ↔ ((check_trade r t).1.events ≡ [])
  unfolding check_trade reject
  approved_iff_no_events r t =
      (λ h. ground (arith, no_adjustment r.config t), λ h. ground (arith, no_adjustment r.config t))
