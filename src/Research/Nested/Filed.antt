-- ===== src/Research/Nested/Filed.antt =====
-- research_lab/walkforward.py, `run_nested_walkforward`: every turn of the loop files its window.
use mathlib.Core.Path.{subst}
use text.Mathlib.Text.{◌==◌ as same_text}
use text.Mathlib.TextEquality.{eq_iff}
use btc_bot.Prelude.{
  ◌≡◌, refl, sym, String, false, Option, none, some, List, [], ◌∷◌, ◌++◌, All-map, All-append, Some,
  inl, inr, Bool-cases,
}
use btc_bot.Research.Nested.{NestedWalkForwardWindowResult, CandidateBucket, Win, put_win}
use btc_bot.Research.Nested.Wins.{
  HasBucket, IsApart, HasApartKeys, IsFiled, IsWin, IsGrouped-other, won_by-none, put_win-IsGrouped,
  text_sym,
}

module _ {W P : Type 0} where
  put_win-Some :
      (id key : String) (params : P) (win : Win W) (bs : List (String × CandidateBucket W P))
      → Some (λ b. b.0 ≡ key) bs
      → Some (λ b. b.0 ≡ key) (put_win id params win bs)
  unfolding put_win
  put_win-Some id key params win [] s = absurd s
  put_win-Some id key params win ((k, b) ∷ bs) s = elim (Bool-cases (same_text k id)) [
    | inl f ↦ rw f (elim s [ inl e ↦ inl e | inr s' ↦ inr s' ])
    | inr f ↦ rw f (elim s [ inl e ↦ inl e | inr s' ↦ inr (put_win-Some id key params win bs s') ])
  ]

  put_win-HasBucket :
      (id : String) (params : P) (win : Win W) (bs : List (String × CandidateBucket W P))
      (o : Option String)
      → HasBucket bs o
      → HasBucket (put_win id params win bs) o
  put_win-HasBucket id params win bs none h = tt
  put_win-HasBucket id params win bs (some key) h = put_win-Some id key params win bs h

  put_win-own :
      (id : String) (params : P) (win : Win W) (bs : List (String × CandidateBucket W P))
      → Some (λ b. b.0 ≡ id) (put_win id params win bs)
  unfolding put_win
  put_win-own id params win [] = inl refl
  put_win-own id params win ((k, b) ∷ bs) = elim (Bool-cases (same_text k id)) [
    | inl f ↦ rw f (inl ((eq_iff k id).0 f))
    | inr f ↦ rw f (inr (put_win-own id params win bs))
  ]

  put_win-IsApart :
      (id key : String) (params : P) (win : Win W) (bs : List (String × CandidateBucket W P))
      → same_text id key ≡ false
      → IsApart key bs
      → IsApart key (put_win id params win bs)
  unfolding put_win
  put_win-IsApart id key params win [] e a = (e, tt)
  put_win-IsApart id key params win ((k, b) ∷ bs) e a = elim (Bool-cases (same_text k id)) [
    | inl f ↦ rw f a
    | inr f ↦ rw f (a.0, put_win-IsApart id key params win bs e a.1)
  ]

  put_win-HasApartKeys :
      (id : String) (params : P) (win : Win W) (bs : List (String × CandidateBucket W P))
      → HasApartKeys bs
      → HasApartKeys (put_win id params win bs)
  unfolding put_win
  put_win-HasApartKeys id params win [] a = (tt, tt)
  put_win-HasApartKeys id params win ((k, b) ∷ bs) a = elim (Bool-cases (same_text k id)) [
    | inl f ↦ rw f a
    | inr f ↦ rw f (
      put_win-IsApart id k params win bs (text_sym k id false f) a.0,
      put_win-HasApartKeys id params win bs a.1,
    )
  ]

  -- A window with a champion is put into its bucket.
  pub IsFiled-win :
      (rs : List (NestedWalkForwardWindowResult W P)) (x : NestedWalkForwardWindowResult W P)
      (id : String) (params : P) (win : Win W) (bs : List (String × CandidateBucket W P))
      → x.champion_candidate_id ≡ some id
      → IsWin win x
      → IsFiled rs bs
      → IsFiled (rs ++ (x ∷ [])) (put_win id params win bs)
  IsFiled-win rs x id params win bs e own h = record {
    grouped =
        put_win-IsGrouped rs x id params win bs e own h.apart
          (λ a. won_by-none id rs bs a h.complete) h.grouped;
    complete =
        All-append _ rs _
          (All-map _ _ rs (λ y. put_win-HasBucket id params win bs y.champion_candidate_id)
            h.complete)
          (subst (HasBucket (put_win id params win bs)) (sym e) (put_win-own id params win bs), tt);
    apart = put_win-HasApartKeys id params win bs h.apart;
  }

  -- One without a champion is in no bucket.
  pub IsFiled-skip :
      (rs : List (NestedWalkForwardWindowResult W P)) (x : NestedWalkForwardWindowResult W P)
      (bs : List (String × CandidateBucket W P))
      → x.champion_candidate_id ≡ none
      → IsFiled rs bs
      → IsFiled (rs ++ (x ∷ [])) bs
  IsFiled-skip rs x bs e h = record {
    grouped = All-map _ _ bs (λ b. IsGrouped-other rs x b (rw e refl)) h.grouped;
    complete = All-append _ rs _ h.complete (subst (HasBucket bs) (sym e) tt, tt);
    apart = h.apart;
  }
