-- ===== src/Indicators/Volume.antt =====
-- app/indicators/volume.py.
use crypto_trading_system.Base.{
  ℕ, ◌||◌, not, ltb, ◌==◌, if◌then◌else◌, Option, none, some, List, [], ◌∷◌, length,
}
use crypto_trading_system.Decimal.{Decimal, literal, dec_zero, ◌⊕◌, ◌⊖◌, ◌⊗◌, ◌⊘◌, ◌<?◌, ◌=?◌, sum}
use crypto_trading_system.Models.{Result, ok, raise}
use crypto_trading_system.Indicators.Slices.{IndexError, out_of_range, last_slice}

pub data VolumeTrend : Type 0 where
  increasing decreasing stable : VolumeTrend

module _ {D : Type 0} ⦃dec : Decimal D⦄ where
  -- `sum(xs[-period:]) / Decimal(period)`
  unfoldable pub latest_average : ℕ → List D → D
  latest_average period xs = sum (last_slice period xs) ⊘ literal period 0

  unfoldable pub calculate_average_volume : List D → ℕ → Option D
  unfolding latest_average
  calculate_average_volume volumes period =
      if ltb (length volumes) period then none else some (latest_average period volumes)

  unfoldable pub calculate_volume_ratio : D → D → D
  calculate_volume_ratio current average =
      if average =? dec_zero then dec_zero else current ⊘ average

  unfoldable pub calculate_volume_trend : List D → ℕ → ℕ → Option VolumeTrend
  unfolding latest_average
  calculate_volume_trend volumes short_period long_period =
      if ltb (length volumes) long_period
      then none
      else (let long_avg = latest_average long_period volumes in
          let ratio = latest_average short_period volumes ⊘ long_avg in
          if long_avg =? dec_zero
          then some stable
          else if literal 12 1 <? ratio
          then some increasing
          else if ratio <? literal 8 1
          then some decreasing
          else some stable)

  -- The value after `close`, from that before it.
  unfoldable pub next_obv : D → D → D → D → D
  next_obv obv previous close volume =
      if previous <? close then obv ⊕ volume else if close <? previous then obv ⊖ volume else obv

  unfoldable pub obv_from : D → D → List D → List D → Result IndexError (List D)
  unfolding next_obv
  obv_from obv previous [] volumes = ok []
  obv_from obv previous (c ∷ closes) [] =
      if c =? previous
      then elim (obv_from obv c closes []) [ raise x ↦ raise x | ok rest ↦ ok (obv ∷ rest) ]
      else raise out_of_range
  obv_from obv previous (c ∷ closes) (v ∷ volumes) =
      let obv' = next_obv obv previous c v in
      elim (obv_from obv' c closes volumes) [ raise x ↦ raise x | ok rest ↦ ok (obv' ∷ rest) ]

  unfoldable pub calculate_on_balance_volume : List D → List D → Result IndexError (Option (List D))
  unfolding obv_from
  calculate_on_balance_volume (c ∷ d ∷ closes) (v ∷ w ∷ volumes) =
      elim (obv_from v c (d ∷ closes) (w ∷ volumes)) [
        | raise x ↦ raise x
        | ok rest ↦ ok (some (v ∷ rest))
      ]
  calculate_on_balance_volume _ _ = ok none

  -- The sums of price times volume and of volume.
  unfoldable pub vwap_sums : D → D → List D → List D → List D → List D → D × D
  vwap_sums tpv total (h ∷ highs) (l ∷ lows) (c ∷ closes) (v ∷ volumes) =
      vwap_sums (tpv ⊕ (h ⊕ l ⊕ c) ⊘ literal 3 0 ⊗ v) (total ⊕ v) highs lows closes volumes
  vwap_sums tpv total _ _ _ _ = (tpv, total)

  unfoldable pub calculate_vwap : List D → List D → List D → List D → Option D
  unfolding vwap_sums
  calculate_vwap highs lows closes volumes =
      let n = length highs in
      let (tpv, total) = vwap_sums dec_zero dec_zero highs lows closes volumes in
      if n == 0 || not (n == length lows) || not (n == length closes) || not (n == length volumes)
      then none
      else if total =? dec_zero
      then none
      else some (tpv ⊘ total)
