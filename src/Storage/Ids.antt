-- ===== src/Storage/Ids.antt =====
-- storage/repositories.py: the ids of the trades, which the primary key keeps apart.
use btc_bot.Prelude.{
  ◌&&◌, ◌≡◌, ◌≢◌, refl, arith, Bool, not, String, List, [], ◌∷◌, ◌++◌, map, keep, inl, inr,
  Bool-cases, All, All-append,
}
use mathlib.Core.List.{map-append}
use text.Mathlib.Text.{◌==◌}
use text.Mathlib.TextEquality.{eq_iff}
use btc_bot.Core.Models.{Time, SettlementMetrics}
use btc_bot.Storage.Tables.{TradeRow}
use btc_bot.Storage.Queries.{is_unset, settled_if}

module _ {W : Type 0} where
  -- No two trades share an id.
  abbrev pub ids : List (TradeRow W) → List String
  ids = map (λ r. r.trade_id)

abbrev pub IsDistinct : List String → Type 0
IsDistinct [] = Unit
IsDistinct (x ∷ xs) = All (λ y. x ≢ y) xs × IsDistinct xs

pub IsDistinct-snoc :
    (xs : List String) (x : String)
    → IsDistinct xs
    → All (λ y. y ≢ x) xs
    → IsDistinct (xs ++ (x ∷ []))
IsDistinct-snoc [] x h k = (tt, tt)
IsDistinct-snoc (y ∷ ys) x h k =
    (All-append (λ z. y ≢ z) ys (x ∷ []) h.0 (k.0, tt), IsDistinct-snoc ys x h.1 k.1)

module _ {W : Type 0} where
  All-ids-keep :
      (P : String → Type 0) (p : TradeRow W → Bool) (rs : List (TradeRow W))
      → All P (ids rs)
      → All P (ids (keep p rs))
  All-ids-keep P p [] h = tt
  All-ids-keep P p (r ∷ rs) h = elim (Bool-cases (p r)) [
    | inl e ↦ rw e (h.0, All-ids-keep P p rs h.1)
    | inr e ↦ rw e (All-ids-keep P p rs h.1)
  ]

  pub IsDistinct-ids-keep :
      (p : TradeRow W → Bool) (rs : List (TradeRow W))
      → IsDistinct (ids rs)
      → IsDistinct (ids (keep p rs))
  IsDistinct-ids-keep p [] h = tt
  IsDistinct-ids-keep p (r ∷ rs) h = elim (Bool-cases (p r)) [
    | inl e ↦ rw e (All-ids-keep (λ y. r.trade_id ≢ y) p rs h.0, IsDistinct-ids-keep p rs h.1)
    | inr e ↦ rw e (IsDistinct-ids-keep p rs h.1)
  ]

  -- The rows that make way for a new one with their id
  pub others_differ :
      (x : String) (rs : List (TradeRow W))
      → All (λ y. y ≢ x) (ids (keep (λ r. not (r.trade_id == x)) rs))
  others_differ x [] = tt
  others_differ x (r ∷ rs) = elim (Bool-cases (r.trade_id == x)) [
    | inl e ↦ rw e (others_differ x rs)
    | inr e ↦ rw e ((λ same. ground (arith, eq_iff r.trade_id x)), others_differ x rs)
  ]

  pub ids-snoc :
      (rs : List (TradeRow W)) (r : TradeRow W) → ids (rs ++ (r ∷ [])) ≡ ids rs ++ (r.trade_id ∷ [])
  ids-snoc rs r = map-append (λ r'. r'.trade_id) rs (r ∷ [])

  pub ids-settled :
      (trade_id : String) (m : SettlementMetrics W) (at : Time) (rs : List (TradeRow W))
      → ids (map (settled_if trade_id m at) rs) ≡ ids rs
  ids-settled trade_id m at [] = refl
  ids-settled trade_id m at (r ∷ rs) =
      let rest = ids-settled trade_id m at rs in
      elim (Bool-cases ((r.trade_id == trade_id) && is_unset r.closed_at)) [
        | inl e ↦ rw (e, rest) refl
        | inr e ↦ rw (e, rest) refl
      ]
