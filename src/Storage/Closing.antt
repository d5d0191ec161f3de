-- ===== src/Storage/Closing.antt =====
-- storage/state_store.py, `settle_trade_close`: the trades that stay open.
use mathlib.Core.Path.{subst}
use text.Mathlib.Text.{◌==◌}
use text.Mathlib.TextEquality.{eq_iff}
use mathlib.Core.List.Permᴰ
use btc_bot.Prelude.{
  ◌≡◌, refl, sym, ap, ◌∙◌, arith, Bool, true, ◌&&◌, none, some, String, [], keep, inl, inr,
  Option-cases, All, All-map, All-keep,
}
use btc_bot.Prelude.Double.{Double}
use btc_bot.Prelude.Sorting.{sort, before, sort-perm, All-perm, sort-keep}
use btc_bot.Core.Models.{Time, SettlementMetrics}
use btc_bot.Storage.Tables.{Tables, TradeRow}
use btc_bot.Storage.Queries.{
  is_unset, date_of, fetch_open_trade_positions, get_open_trade_log_for_position, close_position,
  update_trade_log_close,
}
use btc_bot.Storage.Runtime.{Store, save, sync_daily_metrics, refresh_runtime_state}
use btc_bot.Storage.State.{get_open_trade_records}
use btc_bot.Storage.Trades.{settled_after, settle_trade_close}
use btc_bot.Storage.SafeMode.{sync_daily_metrics-IsSynced, refresh_runtime_state-IsFresh}
use btc_bot.Storage.OpenTrades.{
  first-All, first_empty, sort_empty, IsOwned, all-IsOwned, is_other, open_among, records_after,
  records_same,
}
use btc_bot.Storage.Ids.{ids, IsDistinct}
use btc_bot.Storage.Reach.{Reachable, after_close}
use btc_bot.Storage.Sound.{Reachable-IsSound}

module _ {W : Type 0} where
  fetch_open_trade_positions-same :
      (t t' : Tables W)
      → t'.trade_log ≡ t.trade_log
      → t'.positions ≡ t.positions
      → fetch_open_trade_positions t' ≡ fetch_open_trade_positions t
  unfolding fetch_open_trade_positions
  fetch_open_trade_positions-same t t' e f = rw (e, f) refl

  closed_records :
      (trade_id : String) (m : SettlementMetrics W) (at : Time) (position_id : String)
      (t : Tables W)
      → IsOwned position_id trade_id t.trade_log
      → fetch_open_trade_positions
          (update_trade_log_close trade_id m at (close_position position_id at t))
        ≡ keep (is_other position_id) (fetch_open_trade_positions t)
  unfolding fetch_open_trade_positions update_trade_log_close close_position
  closed_records trade_id m at position_id t own =
      ap (sort (before (λ r. r.1.opened_at)))
        (records_after trade_id m at position_id t.trade_log t.positions own)
      ∙ sort-keep (λ r. r.1.opened_at) (is_other position_id) (open_among t.trade_log t.positions)

  -- The trade that is settled belongs to the position, and so does no other of its id.
  found-IsOwned :
      (position_id : String) (t : Tables W) (row : TradeRow W)
      → IsDistinct (ids t.trade_log)
      → get_open_trade_log_for_position t position_id ≡ some row
      → IsOwned position_id row.trade_id t.trade_log
  unfolding get_open_trade_log_for_position
  found-IsOwned position_id t row h e =
      let rs = t.trade_log in
      let q : TradeRow W → Bool = λ r. (r.position_id == position_id) && is_unset r.closed_at in
      let P : TradeRow W → Type 0 = λ x. IsOwned position_id x.trade_id rs in
      let own : All (λ x. q x ≡ true → P x) rs =
        All-map (λ x. IsOwned x.position_id x.trade_id rs) (λ x. q x ≡ true → P x) rs
          (λ x o b.
            subst (λ i. IsOwned i x.trade_id rs)
              ((eq_iff x.position_id position_id).0 (ground arith)) o)
          (all-IsOwned rs h) in
      first-All P _ row e (All-perm P (Permᴰ.symm (sort-perm _ (keep q rs))) (All-keep P q rs own))

  none_found :
      (position_id : String) (t : Tables W)
      → get_open_trade_log_for_position t position_id ≡ none
      → keep (λ r. (r.position_id == position_id) && is_unset r.closed_at) t.trade_log ≡ []
  unfolding get_open_trade_log_for_position
  none_found position_id t e =
      sort_empty _ (keep (λ r. (r.position_id == position_id) && is_unset r.closed_at) t.trade_log)
        (first_empty _ e)

module _ {W : Type 0} ⦃d : Double W⦄ (store : Store W) where
  -- Once a trade of a position is settled, or found not to be there, the open trades are those of
  -- the other positions, in the order they had; here the tables are any that the store's calls reach.
  pub settle_trade_close-records :
      (position_id : String) (settlement : SettlementMetrics W) (closed_at : Time) (t : Tables W)
      → Reachable store t
      → get_open_trade_records
          (after_close t (settle_trade_close store position_id settlement closed_at t))
        ≡ keep (is_other position_id) (get_open_trade_records t)
  unfolding settle_trade_close get_open_trade_records save fetch_open_trade_positions
  settle_trade_close-records position_id settlement closed_at t r =
      elim (Option-cases (get_open_trade_log_for_position t position_id)) [
        | inl e ↦
            rw (after_close, e)
              (ap (sort (before (λ x. x.1.opened_at))) (
                  sym
                    (records_same position_id t.trade_log t.positions (none_found position_id t e)))
                ∙ sort-keep (λ x. x.1.opened_at) (is_other position_id)
                    (open_among t.trade_log t.positions))
        | inr (row, e) ↦
            let t2 =
              update_trade_log_close row.trade_id settlement closed_at
                (close_position position_id closed_at t) in
            let t3 = sync_daily_metrics store (date_of row.opened_at) t2 in
            let t4 = sync_daily_metrics store (date_of closed_at) t3 in
            let fresh = refresh_runtime_state store closed_at t4 in
            let s3 = sync_daily_metrics-IsSynced store (date_of row.opened_at) t2 in
            let s4 = sync_daily_metrics-IsSynced store (date_of closed_at) t3 in
            let f = refresh_runtime_state-IsFresh store closed_at t4 in
            let own = found-IsOwned position_id t row (Reachable-IsSound store t r).distinct e in
            rw (after_close, e)
              (fetch_open_trade_positions-same t2 (settled_after fresh)
                  (f.same_trades ∙ s4.same_trades ∙ s3.same_trades)
                  (f.same_positions ∙ s4.same_positions ∙ s3.same_positions)
                ∙ closed_records row.trade_id settlement closed_at position_id t own)
      ]
