-- ===== src/Research/Nested/Best.antt =====
-- research_lab/walkforward.py, `run_nested_walkforward`: the candidate that is selected.
use mathlib.Core.List.{Permᴰ}
use mathlib.Core.List.Permᴰ
use mathlib.Core.Path.{subst}
use btc_bot.Prelude.{
  ◌≡◌, refl, arith, ℕ, ◌≤◌, String, Bool, true, false, Option, none, some, List, [], ◌∷◌, map,
  length, All, All-map, Some, inl, inr, Bool-cases, keep, ◌==◌, ltb, not, if◌then◌else◌,
}
use btc_bot.Prelude.Double.{Double}
use btc_bot.Prelude.Sorting.{sort, insert, sort-perm, insert-perm, All-perm}
use btc_bot.Research.Trials.{TrialEvaluation}
use btc_bot.Research.Windows.{WalkForwardWindow}
use btc_bot.Research.Walk.{Criteria}
use btc_bot.Research.Nested.{
  Lab, NestedWalkForwardWindowResult, CandidateBucket, NestedWalkForwardCandidateSummary,
  summary_of, no_nested_progress,
}
use btc_bot.Research.Nested.Run.{
  summary_before, selected, nested_windows, nested_report, run_nested_walkforward,
}
use btc_bot.Research.Nested.Wins.{IsGroup, HasBucket}
use btc_bot.Research.Nested.Walked.{IsJudged, all-IsWalked}

-- A rearranged list has an element of the same kind.
Some-perm : {A : Type 0} (Q : A → Type 0) {xs ys : List A} → Permᴰ xs ys → Some Q xs → Some Q ys
Some-perm Q Permᴰ.nil s = s
Some-perm Q (Permᴰ.cons e p) (inl q) = inl (subst Q e q)
Some-perm Q (Permᴰ.cons e p) (inr s) = inr (Some-perm Q p s)
Some-perm Q (Permᴰ.swap e f) (inl q) = inr (inl (subst Q e q))
Some-perm Q (Permᴰ.swap e f) (inr (inl q)) = inl (subst Q f q)
Some-perm Q (Permᴰ.swap e f) (inr (inr s)) = inr (inr s)
Some-perm Q (Permᴰ.trans p q) s = Some-perm Q q (Some-perm Q p s)

All-of_map :
    {A B : Type 0} (Q : B → Type 0) (f : A → B) (xs : List A)
    → All (λ x. Q (f x)) xs
    → All Q (map f xs)
All-of_map Q f [] h = tt
All-of_map Q f (x ∷ xs) h = (h.0, All-of_map Q f xs h.1)

Some-of_map :
    {A B : Type 0} (Q : B → Type 0) (f : A → B) (xs : List A)
    → Some (λ x. Q (f x)) xs
    → Some Q (map f xs)
Some-of_map Q f [] s = absurd s
Some-of_map Q f (x ∷ xs) (inl q) = inl q
Some-of_map Q f (x ∷ xs) (inr s) = inr (Some-of_map Q f xs s)

-- A sort by an order that puts more of a count first
module _ {A : Type 0} (count : A → ℕ) (lt : A → A → Bool)
    (more : (x y : A) → lt x y ≡ true → count y ≤ count x)
    (less : (x y : A) → lt x y ≡ false → count x ≤ count y) where
  abbrev IsDescending : List A → Type 0
  IsDescending [] = Unit
  IsDescending (x ∷ xs) = All (λ y. count y ≤ count x) xs × IsDescending xs

  All-below :
      (x y : A) (zs : List A)
      → count y ≤ count x
      → All (λ z. count z ≤ count y) zs
      → All (λ z. count z ≤ count x) zs
  All-below x y zs le h = All-map _ _ zs (λ z k. omega (arith, k, le)) h

  insert-IsDescending : (x : A) (xs : List A) → IsDescending xs → IsDescending (insert lt x xs)
  unfolding insert
  insert-IsDescending x [] h = (tt, tt)
  insert-IsDescending x (y ∷ ys) h = elim (Bool-cases (lt y x)) [
    | inl e ↦ rw e (
      All-perm (λ z. count z ≤ count y) (Permᴰ.symm (insert-perm lt x ys)) (more y x e, h.0),
      insert-IsDescending x ys h.1,
    )
    | inr e ↦ rw e ((less y x e, All-below x y ys (less y x e) h.0), h)
  ]

  sort-IsDescending : (xs : List A) → IsDescending (sort lt xs)
  unfolding sort
  sort-IsDescending [] = tt
  sort-IsDescending (x ∷ xs) = insert-IsDescending x (sort lt xs) (sort-IsDescending xs)

module _ {W P : Type 0} where
  -- The evaluation of a candidate that passed most windows, if there is a candidate
  abbrev pub IsBest :
      List (NestedWalkForwardCandidateSummary W P) → Option (TrialEvaluation W) → Type 0
  IsBest [] o = o ≡ none
  IsBest (s ∷ ss) o = (o ≡ some s.evaluation) × All (λ t. t.windows_passed ≤ s.windows_passed) ss

  -- What a report says of its candidates: each is the group of the windows that it won,
  abbrev pub IsGroupOf :
      List (NestedWalkForwardWindowResult W P) → NestedWalkForwardCandidateSummary W P → Type 0
  IsGroupOf rs s =
      IsGroup rs s.candidate_id s.contributing_window_indices s.windows_won s.windows_passed

  -- and the champion of each window is one of them.
  abbrev pub HasSummary : List (NestedWalkForwardCandidateSummary W P) → Option String → Type 0
  HasSummary ss none = Unit
  HasSummary ss (some id) = Some (λ s. s.candidate_id ≡ id) ss

  has_summary :
      (bs : List (String × CandidateBucket W P)) (ss : List (NestedWalkForwardCandidateSummary W P))
      (o : Option String)
      → ((id : String) → Some (λ b. b.0 ≡ id) bs → Some (λ s. s.candidate_id ≡ id) ss)
      → HasBucket bs o
      → HasSummary ss o
  has_summary bs ss none f h = tt
  has_summary bs ss (some id) f h = f id h

more_first_lem :
    (a b : ℕ) (rest : Bool)
    → let r = if not (a == b) then ltb b a else rest in (r ≡ true → b ≤ a) × (r ≡ false → a ≤ b)
more_first_lem a b rest = ground arith

module _ {W P : Type 0} ⦃d : Double W⦄ (c : Criteria W) (lab : Lab W P) where
  more_passed :
      (x y : NestedWalkForwardCandidateSummary W P)
      → (summary_before c lab x y ≡ true → y.windows_passed ≤ x.windows_passed)
        × (summary_before c lab x y ≡ false → x.windows_passed ≤ y.windows_passed)
  unfolding summary_before
  more_passed x y = more_first_lem x.windows_passed y.windows_passed _

  selected-IsBest :
      (ss : List (NestedWalkForwardCandidateSummary W P))
      → IsDescending
          (λ s. s.windows_passed)
          (summary_before c lab)
          (λ x y. (more_passed x y).0)
          (λ x y. (more_passed x y).1)
          ss
      → IsBest ss (selected ss)
  selected-IsBest [] h = refl
  selected-IsBest (s ∷ ss) h = (refl, h.0)

  -- Every window has a result in the report. A window is passed exactly if its champion was evaluated
  -- and meets the limits, and the report counts these windows. A candidate's summary is that of the
  -- windows that it won, in their order, with their number and the number of those it passed; each
  -- champion has a summary. Of the candidates, one that passed most windows is selected.
  pub run_nested_walkforward_selects :
      (seed : ℕ) (windows : List WalkForwardWindow)
      → let r = run_nested_walkforward c lab seed windows in
        (length r.window_results ≡ length windows)
        × All (IsJudged c) r.window_results
        × (r.windows_passed ≡ length (keep (λ x. x.validation_passed) r.window_results))
        × All (IsGroupOf r.window_results) r.candidate_summaries
        × All (λ x. HasSummary r.candidate_summaries x.champion_candidate_id) r.window_results
        × IsBest r.candidate_summaries r.selected_evaluation
  unfolding run_nested_walkforward nested_report
  run_nested_walkforward_selects seed windows =
      let g = nested_windows c lab seed 0 windows no_nested_progress in
      let h = all-IsWalked c lab seed windows in
      let all = map summary_of g.candidate_bucket in
      let same = sort-perm (summary_before c lab) all in
      let summaries = sort (summary_before c lab) all in
      (
        h.many,
        h.judged,
        h.counted,
        All-perm (IsGroupOf g.window_results) (Permᴰ.symm same)
            (All-of_map (IsGroupOf g.window_results) summary_of g.candidate_bucket h.filed.grouped),
        All-map _ _ g.window_results
            (λ x. has_summary g.candidate_bucket summaries x.champion_candidate_id (λ id b.
              Some-perm (λ s. s.candidate_id ≡ id) (Permᴰ.symm same)
                (Some-of_map (λ s. s.candidate_id ≡ id) summary_of g.candidate_bucket b)))
            h.filed.complete,
        selected-IsBest summaries
            (sort-IsDescending _ _ (λ x y. (more_passed x y).0) (λ x y. (more_passed x y).1) all),
      )
