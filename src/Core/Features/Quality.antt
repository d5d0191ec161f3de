-- ===== src/Core/Features/Quality.antt =====
-- core/feature_engine.py: the quality marks of the funding window, the open interest and the cvd
-- history. A quality dictionary is an association list; an instant before 1970 is the number 0.
use btc_bot.Prelude.{
  ℕ, ◌-◌, ◌+◌, ◌*◌, String, ◌&&◌, Option, none, some, List, [], ◌∷◌, map, length, ltb, leb,
  if◌then◌else◌,
}
use Prim.Native.Nat.{max as max_nat}
use text.Mathlib.Text.{◌==◌}
use btc_bot.Prelude.Double.{Double, nought, max, min}
use btc_bot.Prelude.Sorting.{sort, before}
use btc_bot.Prelude.Tails.{first, last}
use btc_bot.Core.Models.{Time, second, Datum, FeatureQuality, QualityStatus, quality_of}
use btc_bot.Core.Features.Config.{FeatureEngineConfig}
use btc_bot.Core.Features.Snapshot.{FundingRow}
use btc_bot.Core.Features.History.{Histories, days, time_of, or_nought}

module _ {V : Type 0} where
  -- `m[k] = v` and `m.setdefault(k, v)`
  unfoldable pub put : String → V → List (String × V) → List (String × V)
  put k v [] = (k, v) ∷ []
  put k v ((j, w) ∷ m) = if j == k then (k, v) ∷ m else (j, w) ∷ put k v m

  unfoldable pub set_default : String → V → List (String × V) → List (String × V)
  set_default k v [] = (k, v) ∷ []
  set_default k v ((j, w) ∷ m) = if j == k then (j, w) ∷ m else (j, w) ∷ set_default k v m

module _ {W : Type 0} ⦃d : Double W⦄ where
  open d use {div, le, of_nat}

  -- The rows that are no older than `window`.
  unfoldable pub rows_in_window : ℕ → Time → List (FundingRow W) → List (Time × W)
  rows_in_window window now [] = []
  rows_in_window window now (r ∷ rs) =
      let rest = rows_in_window window now rs in
      elim r.funding_time [
        | none ↦ rest
        | some t ↦ if leb now (t + window) then (t, or_nought r.funding_rate) ∷ rest else rest
      ]

  abbrev pub coverage_ratio : ℕ → ℕ → W
  coverage_ratio loaded required = min (div (of_nat loaded) (of_nat required)) (of_nat 1)

  unfoldable pub funding_window_rates :
      FeatureEngineConfig W → List (FundingRow W) → Time → List W × FeatureQuality W
  unfolding rows_in_window sort
  funding_window_rates c funding_history now =
      let window = days c.funding_window_days in
      let rows = sort (before (λ r. r.0)) (rows_in_window window now funding_history) in
      let values = map (λ r. r.1) rows in
      let required = max_nat (c.funding_window_days * 3) 1 in
      let ratio = coverage_ratio (length values) required in
      let metadata =
        ("loaded_samples", Datum.count (length values))
        ∷ ("required_samples", Datum.count required)
        ∷ ("coverage_ratio", Datum.number ratio)
        ∷ ("window_start", Datum.moment (some (now - window)))
        ∷ ("window_end", Datum.moment (some now))
        ∷ ("oldest_timestamp", Datum.moment (time_of (first rows)))
        ∷ ("newest_timestamp", Datum.moment (time_of (last rows)))
        ∷ [] in
      (
        values,
        if le c.funding_coverage_ready ratio
            then quality_of QualityStatus.ready "funding_window_complete" metadata "rest"
            else if le c.funding_coverage_degraded ratio && ltb 0 (length values)
            then quality_of QualityStatus.degraded "funding_window_partial" metadata "rest"
            else quality_of QualityStatus.unavailable "funding_window_insufficient" metadata "rest",
      )

  -- the days between the first and the last sample
  abbrev pub days_between : Option Time → Option Time → W
  days_between (some oldest) (some newest) =
      max (div (div (of_nat (newest - oldest)) (of_nat second)) (of_nat 86_400)) nought
  days_between _ _ = nought

  unfoldable pub oi_quality : FeatureEngineConfig W → Histories W → FeatureQuality W
  oi_quality c h =
      let loaded = length h.oi_history in
      let oldest = time_of (first h.oi_history) in
      let newest = time_of (last h.oi_history) in
      let days_covered = days_between oldest newest in
      let required_days = max (of_nat c.oi_baseline_days) nought in
      let metadata =
        ("loaded_samples", Datum.count loaded)
        ∷ ("required_days", Datum.number required_days)
        ∷ ("days_covered", Datum.number days_covered)
        ∷ ("oldest_timestamp", Datum.moment oldest)
        ∷ ("newest_timestamp", Datum.moment newest)
        ∷ [] in
      if leb 2 loaded && le required_days days_covered
      then quality_of QualityStatus.ready "oi_baseline_mature" metadata "bootstrapped-from-db"
      else if leb 2 loaded
      then quality_of QualityStatus.degraded "oi_baseline_partial" metadata "bootstrapped-from-db"
      else quality_of QualityStatus.unavailable "oi_baseline_insufficient" metadata
          "bootstrapped-from-db"

  unfoldable pub cvd_quality : FeatureEngineConfig W → Histories W → FeatureQuality W
  cvd_quality c h =
      let loaded = length h.cvd_price_history in
      let required = max_nat c.cvd_divergence_bars 1 in
      let metadata =
        ("loaded_bars", Datum.count loaded)
        ∷ ("required_bars", Datum.count required)
        ∷ ("oldest_timestamp", Datum.moment (time_of (first h.cvd_price_history)))
        ∷ ("newest_timestamp", Datum.moment (time_of (last h.cvd_price_history)))
        ∷ [] in
      if leb required loaded
      then quality_of QualityStatus.ready "cvd_history_mature" metadata "bootstrapped-from-db"
      else if ltb 1 loaded
      then quality_of QualityStatus.degraded "cvd_history_partial" metadata "bootstrapped-from-db"
      else quality_of QualityStatus.unavailable "cvd_history_insufficient" metadata
          "bootstrapped-from-db"
