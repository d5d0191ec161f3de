-- ===== src/Research/Nested/Wins.antt =====
-- research_lab/walkforward.py, `run_nested_walkforward`: the bucket of a candidate is the group of the
-- windows that it won.
use mathlib.Core.List.{append-nil, map-append}
use mathlib.Core.Path.{subst}
use text.Mathlib.Text.{◌==◌ as same_text}
use text.Mathlib.TextEquality.{eq_iff}
use btc_bot.Prelude.{
  ◌≡◌, refl, sym, ap, ◌∙◌, arith, ℕ, ◌+◌, String, Bool, true, false, Option, none, some, List, [],
  ◌∷◌, ◌++◌, map, length, length-append, All, Some, keep, keep-append, inl, inr, Bool-cases,
}
use btc_bot.Research.Nested.{
  NestedWalkForwardWindowResult, CandidateBucket, Win, count_if, new_bucket, with_win, put_win,
}

abbrev pub is_by : String → Option String → Bool
is_by id none = false
is_by id (some key) = same_text key id

pub text_sym : (a b : String) (v : Bool) → same_text a b ≡ v → same_text b a ≡ v
text_sym a b v e = ground (arith, eq_iff a b, eq_iff b a, e)

pub length-keep_one :
    {A : Type 0} (p : A → Bool) (x : A) → length (keep p (x ∷ [])) ≡ count_if (p x)
length-keep_one p x = ground arith

module _ {W P : Type 0} where
  -- The windows that a candidate won
  abbrev pub won_by :
      String → List (NestedWalkForwardWindowResult W P) → List (NestedWalkForwardWindowResult W P)
  won_by id = keep (λ x. is_by id x.champion_candidate_id)

  -- What is kept for a candidate is that of the windows that it won.
  pub record IsGroup (rs : List (NestedWalkForwardWindowResult W P)) (id : String)
      (window_indices : List ℕ) (windows_won windows_passed : ℕ) : Type 0 where
    pub indices : window_indices ≡ map (λ x. x.window_index) (won_by id rs)
    pub won : windows_won ≡ length (won_by id rs)
    pub passed : windows_passed ≡ length (keep (λ x. x.validation_passed) (won_by id rs))

  abbrev pub IsGrouped :
      List (NestedWalkForwardWindowResult W P) → String × CandidateBucket W P → Type 0
  IsGrouped rs (id, b) = IsGroup rs id b.window_indices b.windows_won b.windows_passed

  -- The champion of a window, if it has one, has a bucket.
  abbrev pub HasBucket : List (String × CandidateBucket W P) → Option String → Type 0
  HasBucket bs none = Unit
  HasBucket bs (some id) = Some (λ b. b.0 ≡ id) bs

  -- No other bucket is that of the first one's candidate, and so on.
  abbrev pub IsApart : String → List (String × CandidateBucket W P) → Type 0
  IsApart id bs = All (λ b. same_text b.0 id ≡ false) bs

  abbrev pub HasApartKeys : List (String × CandidateBucket W P) → Type 0
  HasApartKeys [] = Unit
  HasApartKeys (b ∷ bs) = IsApart b.0 bs × HasApartKeys bs

  pub record IsFiled (rs : List (NestedWalkForwardWindowResult W P))
      (bs : List (String × CandidateBucket W P)) : Type 0 where
    pub grouped : All (IsGrouped rs) bs
    pub complete : All (λ x. HasBucket bs x.champion_candidate_id) rs
    pub apart : HasApartKeys bs

  won_by-other :
      (id : String) (rs : List (NestedWalkForwardWindowResult W P))
      (x : NestedWalkForwardWindowResult W P)
      → is_by id x.champion_candidate_id ≡ false
      → won_by id (rs ++ (x ∷ [])) ≡ won_by id rs
  won_by-other id rs x e =
      keep-append (λ y. is_by id y.champion_candidate_id) rs (x ∷ [])
      ∙ rw e (append-nil (won_by id rs))

  won_by-own :
      (id : String) (rs : List (NestedWalkForwardWindowResult W P))
      (x : NestedWalkForwardWindowResult W P)
      → is_by id x.champion_candidate_id ≡ true
      → won_by id (rs ++ (x ∷ [])) ≡ won_by id rs ++ (x ∷ [])
  won_by-own id rs x e = keep-append (λ y. is_by id y.champion_candidate_id) rs (x ∷ []) ∙ rw e refl

  pub IsGrouped-other :
      (rs : List (NestedWalkForwardWindowResult W P)) (x : NestedWalkForwardWindowResult W P)
      (b : String × CandidateBucket W P)
      → is_by b.0 x.champion_candidate_id ≡ false
      → IsGrouped rs b
      → IsGrouped (rs ++ (x ∷ [])) b
  IsGrouped-other rs x (id, b) e h =
      let same = sym (won_by-other id rs x e) in
      record {
        indices = h.indices ∙ ap (map (λ y. y.window_index)) same;
        won = h.won ∙ ap length same;
        passed = h.passed ∙ ap (λ ys. length (keep (λ y. y.validation_passed) ys)) same;
      }

  -- The win that a result of a window is
  abbrev pub IsWin : Win W → NestedWalkForwardWindowResult W P → Type 0
  IsWin win x = (x.window_index ≡ win.index) × (x.validation_passed ≡ win.passed)

  pub passed_one :
      (x : NestedWalkForwardWindowResult W P) (ys : List (NestedWalkForwardWindowResult W P))
      (passed : Bool)
      → x.validation_passed ≡ passed
      → length (keep (λ y. y.validation_passed) (ys ++ (x ∷ [])))
        ≡ length (keep (λ y. y.validation_passed) ys) + count_if passed
  passed_one x ys passed e =
      let p : NestedWalkForwardWindowResult W P → Bool = (λ y. y.validation_passed) in
      omega (
        arith,
        ap length (keep-append p ys (x ∷ [])),
        length-append (keep p ys) (keep p (x ∷ [])),
        length-keep_one p x,
        ap count_if e,
      )

  IsGrouped-own :
      (rs : List (NestedWalkForwardWindowResult W P)) (x : NestedWalkForwardWindowResult W P)
      (win : Win W) (id : String) (b : CandidateBucket W P)
      → is_by id x.champion_candidate_id ≡ true
      → IsWin win x
      → IsGrouped rs (id, b)
      → IsGrouped (rs ++ (x ∷ [])) (id, with_win win b)
  IsGrouped-own rs x win id b e (at, result) h =
      let same = sym (won_by-own id rs x e) in
      let ys = won_by id rs in
      record {
        indices =
            ap (λ is. is ++ (win.index ∷ [])) h.indices
            ∙ ap (λ i. map (λ y. y.window_index) ys ++ (i ∷ [])) (sym at)
            ∙ sym (map-append (λ y. y.window_index) ys (x ∷ []))
            ∙ ap (map (λ y. y.window_index)) same;
        won = omega (arith, h.won, length-append ys (x ∷ []), ap length same);
        passed =
            ap (λ n. n + count_if win.passed) h.passed
            ∙ sym (passed_one x ys win.passed result)
            ∙ ap (λ zs. length (keep (λ y. y.validation_passed) zs)) same;
      }

  not_there :
      (id : String) (bs : List (String × CandidateBucket W P))
      → IsApart id bs
      → Some (λ b. b.0 ≡ id) bs
      → ⊥
  not_there id [] a s = absurd s
  not_there id (b ∷ bs) a (inl e) = ground (arith, eq_iff b.0 id, a.0, e)
  not_there id (b ∷ bs) a (inr s) = not_there id bs a.1 s

  apart_bucket :
      (id : String) (o : Option String) (bs : List (String × CandidateBucket W P))
      → IsApart id bs
      → HasBucket bs o
      → is_by id o ≡ true
      → ⊥
  apart_bucket id none bs a h e = absurd (cc)
  apart_bucket id (some key) bs a h e =
      not_there id bs a (subst (λ k. Some (λ b. b.0 ≡ k) bs) ((eq_iff key id).0 e) h)

  -- A candidate without a bucket has won no window.
  pub won_by-none :
      (id : String) (rs : List (NestedWalkForwardWindowResult W P))
      (bs : List (String × CandidateBucket W P))
      → IsApart id bs
      → All (λ x. HasBucket bs x.champion_candidate_id) rs
      → won_by id rs ≡ []
  won_by-none id [] bs a h = refl
  won_by-none id (x ∷ rs) bs a h = elim (Bool-cases (is_by id x.champion_candidate_id)) [
    | inr e ↦ rw e (won_by-none id rs bs a h.1)
    | inl e ↦ absurd (apart_bucket id x.champion_candidate_id bs a h.0 e)
  ]

  -- The buckets of the other candidates stay groups.
  others-IsGrouped :
      (rs : List (NestedWalkForwardWindowResult W P)) (x : NestedWalkForwardWindowResult W P)
      (id : String) (bs : List (String × CandidateBucket W P))
      → x.champion_candidate_id ≡ some id
      → IsApart id bs
      → All (IsGrouped rs) bs
      → All (IsGrouped (rs ++ (x ∷ []))) bs
  others-IsGrouped rs x id [] e a h = tt
  others-IsGrouped rs x id (b ∷ bs) e a h = (
    IsGrouped-other rs x b (rw e (text_sym b.0 id false a.0)) h.0,
    others-IsGrouped rs x id bs e a.1 h.1,
  )

  pub put_win-IsGrouped :
      (rs : List (NestedWalkForwardWindowResult W P)) (x : NestedWalkForwardWindowResult W P)
      (id : String) (params : P) (win : Win W) (bs : List (String × CandidateBucket W P))
      → x.champion_candidate_id ≡ some id
      → IsWin win x
      → HasApartKeys bs
      → (IsApart id bs → won_by id rs ≡ [])
      → All (IsGrouped rs) bs
      → All (IsGrouped (rs ++ (x ∷ []))) (put_win id params win bs)
  unfolding put_win
  put_win-IsGrouped rs x id params win [] e own a none_won h =
      let empty = sym (none_won tt) in
      (
        IsGrouped-own rs x win id (new_bucket params) (rw e ((eq_iff id id).1 refl)) own (record {
          indices = ap (map (λ y. y.window_index)) empty;
          won = ap length empty;
          passed = ap (λ ys. length (keep (λ y. y.validation_passed) ys)) empty;
        }),
        tt,
      )
  put_win-IsGrouped rs x id params win ((key, b) ∷ bs) e own a none_won h =
      elim (Bool-cases (same_text key id)) [
        | inl f ↦ rw f (
          IsGrouped-own rs x win key b (rw e (text_sym key id true f)) own h.0,
          others-IsGrouped rs x id bs e (subst (λ k. IsApart k bs) ((eq_iff key id).0 f) a.0) h.1,
        )
        | inr f ↦ rw f (
          IsGrouped-other rs x (key, b) (rw e (text_sym key id false f)) h.0,
          put_win-IsGrouped rs x id params win bs e own a.1 (λ k. none_won (f, k)) h.1,
        )
      ]
