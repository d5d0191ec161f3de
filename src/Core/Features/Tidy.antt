-- ===== src/Core/Features/Tidy.antt =====
-- `FeatureEngine`: what holds of the histories after any calls of `compute`.
use btc_bot.Prelude.{◌+◌, ◌-◌, ◌≤◌, ◌≡◌, arith, String, List, [], ◌∷◌, ◌++◌, length, All}
use btc_bot.Prelude.Double.{Double}
use btc_bot.Prelude.Tails.{length-bounded, All-drop}
use btc_bot.Core.Models.{Time}
use btc_bot.Core.Features.Config.{FeatureEngineConfig}
use btc_bot.Core.Features.Snapshot.{MarketSnapshot}
use btc_bot.Core.Features.History.{Histories, reset, days, upsert, or_nought}
use btc_bot.Core.Features.Engine.{compute, histories_after, compute_oi_stats, force_order_rate}
use btc_bot.Core.Features.Upsert.{
  IsAscending, Until, upsert-Until, upsert-IsAscending, drop-IsAscending, expire-All,
  expire-IsAscending, expire-fresh, expire-upsert_idem, bounded-upsert_idem,
}

module _ {W : Type 0} ⦃d : Double W⦄ (c : FeatureEngineConfig W) where
  -- The histories at a time: in order of time, one sample for each time, none from later, the open
  -- interest no older than its window, and within the bounds on their lengths.
  pub record IsTidy (now : Time) (h : Histories W) : Type 0 where
    pub oi_ascending : IsAscending h.oi_history
    pub oi_until : Until now h.oi_history
    pub oi_fresh : All (λ s. now ≤ s.0 + days c.oi_z_window_days) h.oi_history
    pub cvd_ascending : IsAscending h.cvd_price_history
    pub cvd_until : Until now h.cvd_price_history
    pub cvd_bounded : length h.cvd_price_history ≤ 500
    pub rates_bounded : length h.force_order_rate_history ≤ c.force_order_history_points

  -- The histories after calls of `compute` since the last `reset`, at times that do not go back.
  pub data Reachable : Time → Histories W → Type 0 where
    start : (now : Time) → Reachable now reset
    call :
        {before : Time} {h : Histories W}
        → Reachable before h
        → (s : MarketSnapshot W) → before ≤ s.timestamp
        → (schema_version config_hash : String)
        → Reachable s.timestamp ((compute c h s schema_version config_hash).1)

  Until-mono : {A : Type 0} (a b : Time) (xs : List (Time × A)) → a ≤ b → Until a xs → Until b xs
  Until-mono a b [] le h = tt
  Until-mono a b (x ∷ xs) le h = (omega (arith, h.0), Until-mono a b xs le h.1)

  histories_after-IsTidy :
      (before : Time) (h : Histories W) (s : MarketSnapshot W)
      → IsTidy before h
      → before ≤ s.timestamp
      → IsTidy s.timestamp (histories_after c h s)
  unfolding histories_after compute_oi_stats
  histories_after-IsTidy before h s t le =
      let now = s.timestamp in
      let window = days c.oi_z_window_days in
      let oi_until = Until-mono before now h.oi_history le t.oi_until in
      let oi = upsert (now, s.open_interest) h.oi_history in
      let oi_ascending =
        upsert-IsAscending now s.open_interest h.oi_history t.oi_ascending oi_until in
      let bar : W × W = (s.price, or_nought s.aggtrades_bucket_15m.cvd) in
      let cvd_until = Until-mono before now h.cvd_price_history le t.cvd_until in
      let cvd = upsert (now, bar) h.cvd_price_history in
      record {
        oi_ascending = expire-IsAscending window now oi oi_ascending;
        oi_until =
            expire-All (λ x. x.0 ≤ now) window now oi
              (upsert-Until now s.open_interest h.oi_history oi_until);
        oi_fresh = expire-fresh window now oi oi_ascending;
        cvd_ascending =
            drop-IsAscending (length cvd - 500) cvd
              (upsert-IsAscending now bar h.cvd_price_history t.cvd_ascending cvd_until);
        cvd_until =
            All-drop (λ x. x.0 ≤ now) (length cvd - 500) cvd
              (upsert-Until now bar h.cvd_price_history cvd_until);
        cvd_bounded = length-bounded 500 cvd;
        rates_bounded =
            length-bounded c.force_order_history_points
              (h.force_order_rate_history ++ (force_order_rate s ∷ []));
      }

  -- After any calls of `compute` since a reset, at times that do not go back, the histories are
  -- tidy at the time of the last call.
  pub Reachable-IsTidy : (now : Time) (h : Histories W) → Reachable now h → IsTidy now h
  unfolding compute
  Reachable-IsTidy now h (Reachable.start _) = record {
    oi_ascending = tt;
    oi_until = tt;
    oi_fresh = tt;
    cvd_ascending = tt;
    cvd_until = tt;
    cvd_bounded = omega arith;
    rates_bounded = omega arith;
  }
  Reachable-IsTidy now h (Reachable.call {before = before} {h = h₀} r s le _ _) =
      histories_after-IsTidy before h₀ s (Reachable-IsTidy before h₀ r) le

  -- A second `compute` of the same snapshot leaves the open interest and the cvd history as the
  -- first left them: a sample is not counted twice.
  compute-again :
      (h : Histories W) (s : MarketSnapshot W) (schema_version config_hash : String)
      → let once = (compute c h s schema_version config_hash).1 in
        let twice = (compute c once s schema_version config_hash).1 in
        (twice.oi_history ≡ once.oi_history) × (twice.cvd_price_history ≡ once.cvd_price_history)
  unfolding compute histories_after compute_oi_stats
  compute-again h s _ _ = (
    expire-upsert_idem (days c.oi_z_window_days) (s.timestamp, s.open_interest) h.oi_history,
    bounded-upsert_idem 499 (s.timestamp, (s.price, or_nought s.aggtrades_bucket_15m.cvd))
        h.cvd_price_history,
  )
