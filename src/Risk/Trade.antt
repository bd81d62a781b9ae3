-- ===== src/Risk/Trade.antt =====
-- The arguments of `RiskEngine.check_trade` and the quantities that it computes from them. `now` is
-- the clock reading, in microseconds.
use crypto_trading_system.Base.{
  ℕ, ◌-◌, ◌*◌, String, ◌=ₛ◌, Bool, false, ◌&&◌, ◌||◌, not, ltb, if◌then◌else◌, Option, none, some,
  List, [], ◌∷◌, any,
}
use crypto_trading_system.Base.Dict.{Dict}
use crypto_trading_system.Base.Text.{lower_is, lower_in}
use crypto_trading_system.Decimal.{
  Decimal, dec_zero, ◌⊕◌, ◌⊖◌, ◌⊗◌, ◌⊘◌, ◌<?◌, ◌≤?◌, ◌=?◌, abs, neg, max, sum,
}
use crypto_trading_system.Risk.Engine.{RiskConfig, RiskEngine}

-- The entries of `current_positions`; `side` and `value` are there or have their defaults.
pub record HeldPosition (D : Type 0) : Type 0 where
  pub symbol : Option String
  pub side : String
  pub value : D

-- The arguments of `check_trade`.
pub record Trade (D : Type 0) : Type 0 where
  pub symbol : String
  pub side : String
  pub quantity : D
  pub price : D
  pub current_balance : D
  pub current_positions : Dict (HeldPosition D)
  pub total_capital : D
  pub stop_loss_price : Option D
  pub database_available : Option Bool
  pub api_available : Option Bool
  pub reconciliation_ok : Option Bool
  pub order_statuses : List String
  pub now : ℕ

abbrev pub known_order_statuses : List String
known_order_statuses =
    "new" ∷ "created" ∷ "open" ∷ "partially_filled" ∷ "filled" ∷ "cancelled" ∷ "canceled"
    ∷ "rejected" ∷ []

-- `{s for s in order_statuses if s.lower() not in KNOWN_ORDER_STATUSES}` is not empty.
unfoldable pub has_unknown_status : List String → Bool
has_unknown_status statuses = any (λ s. not (lower_in s known_order_statuses)) statuses

-- `p.get("symbol") == symbol`
abbrev pub has_symbol : {D : Type 0} → String → HeldPosition D → Bool
has_symbol symbol p = elim p.symbol [ none ↦ false | some s ↦ s =ₛ symbol ]

module _ {D : Type 0} ⦃dec : Decimal D⦄ where
  -- `_position_signed_value`
  unfoldable pub position_signed_value : HeldPosition D → D
  position_signed_value p =
      if lower_in p.side ("sell" ∷ "short" ∷ []) then neg (abs p.value) else abs p.value

  -- The summands of `before` and of `other_exposure`.
  unfoldable pub values_of : String → Dict (HeldPosition D) → List D
  values_of symbol [] = []
  values_of symbol ((_, p) ∷ ps) =
      if has_symbol symbol p
      then position_signed_value p ∷ values_of symbol ps
      else values_of symbol ps

  unfoldable pub others_of : String → Dict (HeldPosition D) → List D
  others_of symbol [] = []
  others_of symbol ((_, p) ∷ ps) =
      if has_symbol symbol p
      then others_of symbol ps
      else abs (position_signed_value p) ∷ others_of symbol ps

  unfoldable pub before : Trade D → D
  unfolding values_of
  before t = sum (values_of t.symbol t.current_positions)

  unfoldable pub after : Trade D → D
  after t =
      before t
      ⊕ (if lower_is t.side "buy" then t.quantity ⊗ t.price else neg (t.quantity ⊗ t.price))

  unfoldable pub exposure_increase : Trade D → D
  exposure_increase t = max (abs (after t) ⊖ abs (before t)) dec_zero

  unfoldable pub reducing : Trade D → Bool
  reducing t = exposure_increase t =? dec_zero

  unfoldable pub is_invalid : Trade D → Bool
  is_invalid t =
      not (lower_is t.side "buy" || lower_is t.side "sell")
      || t.quantity ≤? dec_zero
      || t.price ≤? dec_zero
      || t.total_capital ≤? dec_zero

  -- `age > stale_data_threshold_minutes`, where a time stamp is known
  unfoldable pub is_stale : RiskConfig D → Option ℕ → ℕ → Bool
  is_stale config none now = false
  is_stale config (some seen) now =
      ltb (config.stale_data_threshold_minutes * 60000000) (now - seen)

  unfoldable pub position_pct : Trade D → D
  position_pct t = abs (after t) ⊘ t.total_capital

  unfoldable pub risk_pct : Trade D → D → D
  risk_pct t stop = (exposure_increase t ⊘ t.price) ⊗ abs (t.price ⊖ stop) ⊘ t.total_capital

  unfoldable pub utilization : Trade D → D
  utilization t = (sum (others_of t.symbol t.current_positions) ⊕ abs (after t)) ⊘ t.total_capital

  abbrev pub exceeds_risk : RiskConfig D → Trade D → Bool
  exceeds_risk config t = elim t.stop_loss_price [
    | none ↦ false
    | some stop ↦ config.max_risk_per_trade <? risk_pct t stop
  ]

  abbrev pub exceeds_loss : D → Trade D → D → Bool
  exceeds_loss pnl t limit = pnl <? dec_zero && limit <? abs pnl ⊘ t.total_capital

  abbrev pub exceeds_drawdown : RiskEngine D → Bool
  exceeds_drawdown r =
      dec_zero <? r.peak_equity
      && r.config.max_drawdown <? (r.peak_equity ⊖ r.current_equity) ⊘ r.peak_equity

  abbrev pub is_held : String → Dict (HeldPosition D) → Bool
  is_held symbol ps = any (λ (e : String × HeldPosition D). has_symbol symbol e.1) ps
