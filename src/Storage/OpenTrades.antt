-- ===== src/Storage/OpenTrades.antt =====
-- storage/repositories.py, `fetch_open_trade_positions`: the open trades of the positions, before
-- and after one of them is settled.
use mathlib.Core.Path.{subst}
use mathlib.Core.Option.{some-injective}
use text.Mathlib.Text.{◌==◌}
use text.Mathlib.TextEquality.{eq_iff}
use btc_bot.Prelude.{
  suc, ◌≡◌, ◌≢◌, refl, sym, ap, ◌∙◌, arith, Bool, true, false, not, ◌&&◌, none, some, String, List,
  [], ◌∷◌, map, keep, inl, inr, Bool-cases, All, All-zip, keep-append, length, if◌then◌else◌,
}
use btc_bot.Prelude.Sorting.{sort, length-sort}
use btc_bot.Prelude.Tails.{first, concat}
use btc_bot.Core.Models.{Time, Position, SettlementMetrics}
use btc_bot.Storage.Tables.{TradeRow}
use btc_bot.Storage.Queries.{is_active, is_unset, open_trades_of, settled_if, closed_at_time}
use btc_bot.Storage.Ids.{ids, IsDistinct}

pub first-All :
    {A : Type 0} (P : A → Type 0) (xs : List A) (x : A) → first xs ≡ some x → All P xs → P x
first-All P [] x e h = absurd (cc)
first-All P (y ∷ ys) x e h = subst P (some-injective y x e) h.0

swap : (a b : String) → (a == b) ≡ false → (b == a) ≡ false
swap a b ne = elim (Bool-cases (b == a)) [
  | inl e ↦ absurd (ground (arith, eq_iff a b, sym ((eq_iff b a).0 e)))
  | inr e ↦ e
]

pub first_empty : {A : Type 0} (xs : List A) → first xs ≡ none → xs ≡ []
first_empty [] e = refl
first_empty (x ∷ xs) e = absurd (cc)

pub sort_empty : {A : Type 0} (lt : A → A → Bool) (xs : List A) → sort lt xs ≡ [] → xs ≡ []
sort_empty lt [] e = refl
sort_empty lt (x ∷ xs) e =
    let n : 0 ≡ suc (length xs) = ap length (sym e) ∙ length-sort lt (x ∷ xs) in
    absurd (omega (arith, n))

module _ {W : Type 0} where
  -- The trade belongs to the position.
  abbrev pub IsOwned : String → String → List (TradeRow W) → Type 0
  IsOwned position_id trade_id = All (λ r. r.trade_id ≡ trade_id → r.position_id ≡ position_id)

  differ-IsOwned :
      (position_id trade_id : String) (rs : List (TradeRow W))
      → All (λ y. trade_id ≢ y) (ids rs)
      → IsOwned position_id trade_id rs
  differ-IsOwned position_id trade_id [] h = tt
  differ-IsOwned position_id trade_id (r ∷ rs) h =
      ((λ e. absurd (h.0 (sym e))), differ-IsOwned position_id trade_id rs h.1)

  differ_each :
      (r : TradeRow W) (rs : List (TradeRow W))
      → All (λ y. r.trade_id ≢ y) (ids rs)
      → All (λ x. r.trade_id ≢ x.trade_id) rs
  differ_each r [] h = tt
  differ_each r (x ∷ xs) h = (h.0, differ_each r xs h.1)

  pub all-IsOwned :
      (rs : List (TradeRow W))
      → IsDistinct (ids rs)
      → All (λ x. IsOwned x.position_id x.trade_id rs) rs
  all-IsOwned [] h = tt
  all-IsOwned (r ∷ rs) h = (
    ((λ e. refl), differ-IsOwned r.position_id r.trade_id rs h.0),
    All-zip (λ x. r.trade_id ≢ x.trade_id) (λ x. IsOwned x.position_id x.trade_id rs)
        (λ x. IsOwned x.position_id x.trade_id (r ∷ rs)) rs
        (λ x ne own. ((λ e. absurd (ne e)), own)) (differ_each r rs h.0) (all-IsOwned rs h.1),
  )

  -- Settling a trade of another position leaves the open trades of a position.
  open_trades_of-settled :
      (trade_id : String) (m : SettlementMetrics W) (at : Time) (position_id : String)
      (p : Position W) (rs : List (TradeRow W))
      → IsOwned position_id trade_id rs
      → (p.position_id == position_id) ≡ false
      → open_trades_of (map (settled_if trade_id m at) rs) p ≡ open_trades_of rs p
  open_trades_of-settled trade_id m at position_id p [] own ne = refl
  open_trades_of-settled trade_id m at position_id p (r ∷ rs) own ne =
      let rest = open_trades_of-settled trade_id m at position_id p rs own.1 ne in
      let is_open = (r.position_id == p.position_id) && is_unset r.closed_at in
      elim (Bool-cases ((r.trade_id == trade_id) && is_unset r.closed_at)) [
        | inr e ↦ rw e (elim (Bool-cases is_open) [
          | inl e' ↦ rw e' (ap (λ xs. (r.trade_id, p) ∷ xs) rest)
          | inr e' ↦ rw e' rest
        ])
        | inl e ↦
            let same : r.position_id ≡ position_id =
              own.0 ((eq_iff r.trade_id trade_id).0 (ground arith)) in
            let other : (r.position_id == p.position_id) ≡ false =
              rw same (swap p.position_id position_id ne) in
            rw (e, other) rest
      ]

  -- An open trade of another position
  abbrev pub is_other : String → String × Position W → Bool
  is_other position_id r = not (r.1.position_id == position_id)

  -- The open trades of positions, before they are sorted
  abbrev pub open_among : List (TradeRow W) → List (Position W) → List (String × Position W)
  open_among rs ps = concat (map (open_trades_of rs) (keep (λ p. is_active p.status) ps))

  -- None of the open trades is lost if the position has none.
  no_open_trades :
      (position_id : String) (p : Position W) (rs : List (TradeRow W))
      → keep (λ r. (r.position_id == position_id) && is_unset r.closed_at) rs ≡ []
      → (p.position_id == position_id) ≡ true
      → open_trades_of rs p ≡ []
  no_open_trades position_id p rs e same = rw ((eq_iff p.position_id position_id).0 same, e) refl

  -- What is kept of the open trades of a position
  keep-open_trades_of :
      (position_id : String) (p : Position W) (rs : List (TradeRow W))
      → keep (is_other position_id) (open_trades_of rs p)
        ≡ (if p.position_id == position_id then [] else open_trades_of rs p)
  keep-open_trades_of position_id p [] = ground arith
  keep-open_trades_of position_id p (r ∷ rs) =
      elim (Bool-cases ((r.position_id == p.position_id) && is_unset r.closed_at)) [
        | inl e ↦ rw e (kept_head r.trade_id _ _ (keep-open_trades_of position_id p rs))
        | inr e ↦ rw e (keep-open_trades_of position_id p rs)
      ]
    where
      kept_head :
          (id : String) (xs ys : List (String × Position W))
          → ys ≡ (if p.position_id == position_id then [] else xs)
          → (if not (p.position_id == position_id) then (id, p) ∷ ys else ys)
            ≡ (if p.position_id == position_id then [] else (id, p) ∷ xs)
      kept_head id xs ys h = elim (Bool-cases (p.position_id == position_id)) [
        | inl e ↦ rw e (h ∙ rw e refl)
        | inr e ↦ rw e (ap (λ zs. (id, p) ∷ zs) (h ∙ rw e refl))
      ]

  -- The open trades after a settlement of a trade of the position
  pub records_after :
      (trade_id : String) (m : SettlementMetrics W) (at : Time) (position_id : String)
      (rs : List (TradeRow W)) (ps : List (Position W))
      → IsOwned position_id trade_id rs
      → open_among (map (settled_if trade_id m at) rs) (map (closed_at_time position_id at) ps)
        ≡ keep (is_other position_id) (open_among rs ps)
  records_after trade_id m at position_id rs [] own = refl
  records_after trade_id m at position_id rs (p ∷ ps) own =
      let rest = records_after trade_id m at position_id rs ps own in
      let kept = keep-open_trades_of position_id p rs in
      let split = keep-append (is_other position_id) (open_trades_of rs p) (open_among rs ps) in
      let settled = open_trades_of-settled trade_id m at position_id p rs own in
      elim (Bool-cases (p.position_id == position_id)) [
        | inl e ↦ elim (Bool-cases (is_active p.status)) [
          | inl a ↦ rw (e, a, split, kept, e) rest
          | inr a ↦ rw (e, a) rest
        ]
        | inr e ↦ elim (Bool-cases (is_active p.status)) [
          | inl a ↦ rw (e, a, split, kept, e, settled e, rest) refl
          | inr a ↦ rw (e, a) rest
        ]
      ]

  -- If the position has no open trade, leaving its trades out leaves all.
  pub records_same :
      (position_id : String) (rs : List (TradeRow W)) (ps : List (Position W))
      → keep (λ r. (r.position_id == position_id) && is_unset r.closed_at) rs ≡ []
      → keep (is_other position_id) (open_among rs ps) ≡ open_among rs ps
  records_same position_id rs [] none_open = refl
  records_same position_id rs (p ∷ ps) none_open =
      let rest = records_same position_id rs ps none_open in
      let kept = keep-open_trades_of position_id p rs in
      let split = keep-append (is_other position_id) (open_trades_of rs p) (open_among rs ps) in
      elim (Bool-cases (is_active p.status)) [
        | inr a ↦ rw a rest
        | inl a ↦ elim (Bool-cases (p.position_id == position_id)) [
          | inl e ↦ rw (a, split, kept, e, rest, no_open_trades position_id p rs none_open e) refl
          | inr e ↦ rw (a, split, kept, e, rest) refl
        ]
      ]
