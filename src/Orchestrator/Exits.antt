-- ===== src/Orchestrator/Exits.antt =====
-- orchestrator.py, `_process_trade_lifecycle`: what the exits leave alone.
use mathlib.Core.Path.{subst}
use btc_bot.Prelude.{String, List, [], ◌∷◌, inl, inr, Option-cases, Sum-cases}
use btc_bot.Prelude.Double.{Double}
use btc_bot.Core.Models.{Time, Position}
use btc_bot.Core.Funding.{RawSample}
use btc_bot.Storage.Tables.{Tables}
use btc_bot.Storage.State.{get_open_trade_records}
use btc_bot.Storage.Trades.{settle_trade_close}
use btc_bot.Storage.SafeMode.{KeepsSafeMode}
use btc_bot.Storage.Reach.{after_close}
use btc_bot.Storage.Frame.{kept_refl, kept_trans, settle_trade_close-keeps}
use btc_bot.Orchestrator.World.{Settings, Feed}
use btc_bot.Orchestrator.Lifecycle.{close_records, process_trade_lifecycle, exit_at, settlement_of}

module _ {W : Type 0} ⦃d : Double W⦄ (s : Settings W) where
  close_records-keeps :
      (funding_rates : String → Time → Time → List (RawSample W)) (feed : Feed W)
      (rs : List (String × Position W)) (t : Tables W)
      → KeepsSafeMode t (close_records s funding_rates feed rs t).tables
  unfolding close_records
  close_records-keeps funding_rates feed [] t = kept_refl t
  close_records-keeps funding_rates feed (r ∷ rs) t =
      let p = r.1 in
      let at = feed.snapshot.timestamp in
      elim (Option-cases (exit_at s.risk feed.snapshot p)) [
        | inl e ↦ rw (close_records, e) (close_records-keeps funding_rates feed rs t)
        | inr ((price, reason), e) ↦
            let m = settlement_of funding_rates feed p price reason in
            let kept = settle_trade_close-keeps s.store p.position_id m at t in
            rw (close_records, e)
              (elim (Sum-cases (settle_trade_close s.store p.position_id m at t)) [
                | inl (x, f) ↦ rw (close_records, f) (kept_refl t)
                | inr (t', f) ↦
                    rw (close_records, f)
                      (kept_trans t t' _ (subst (λ x. KeepsSafeMode t (after_close t x)) f kept)
                        (close_records-keeps funding_rates feed rs t'))
              ])
      ]

  pub lifecycle-keeps :
      (funding_rates : String → Time → Time → List (RawSample W)) (feed : Feed W) (t : Tables W)
      → KeepsSafeMode t (process_trade_lifecycle s funding_rates feed t).tables
  unfolding process_trade_lifecycle
  lifecycle-keeps funding_rates feed t =
      close_records-keeps funding_rates feed (get_open_trade_records t) t
