-- ===== src/Core/Governance/Window.antt =====
-- The deque of accepted levels of core/governance.py: order in time, spacing, and size.
use btc_bot.Prelude.{
  ℕ, ◌+◌, ◌≤◌, ◌≡◌, refl, false, [], ◌∷◌, ◌++◌, inl, inr, arith, ltb, leb, any, keep, All,
  All-append, length, length-append, Bool-cases, ◌↔◌,
}
use btc_bot.Prelude.Double.{Double}
use btc_bot.Core.Models.{Time, hours}
use btc_bot.Core.Governance.{
  Levels, GovernanceConfig, push_level, drop_stale, is_near, is_duplicate_level, max_levels,
}

module _ {W : Type 0} where
  -- The entries stand in the order of their times.
  abbrev pub IsChronological : Levels W → Type 0
  IsChronological [] = Unit
  IsChronological (e ∷ es) = All (λ f. e.0 ≤ f.0) es × IsChronological es

  -- No entry is later than `now`.
  abbrev pub IsPast : Time → Levels W → Type 0
  IsPast now = All (λ e. e.0 ≤ now)

  -- A property of all entries is kept by both operations of the deque.
  pub All-drop_stale :
      (P : Time × W → Type 0) (window : ℕ) (now : Time) (es : Levels W)
      → All P es
      → All P (drop_stale window now es)
  unfolding drop_stale
  All-drop_stale P window now [] h = h
  All-drop_stale P window now (e ∷ es) h = elim (Bool-cases (ltb (e.0 + window) now)) [
    | inl stale ↦ rw stale (All-drop_stale P window now es h.1)
    | inr fresh ↦ rw fresh h
  ]

  pub All-push_level :
      (P : Time × W → Type 0) (es : Levels W) (e : Time × W)
      → All P es
      → P e
      → All P (push_level es e)
  unfolding push_level
  All-push_level P [] e h p = (p, tt)
  All-push_level P (x ∷ xs) e h p = elim (Bool-cases (leb max_levels (length (x ∷ xs)))) [
    | inl full ↦ rw full (All-append P xs (e ∷ []) h.1 (p, tt))
    | inr room ↦ rw room (All-append P (x ∷ xs) (e ∷ []) h (p, tt))
  ]

  -- In chronological order the loop at the front drops every stale entry, not only the first ones.
  pub drop_stale-eq-keep :
      (window : ℕ) (now : Time) (es : Levels W)
      → IsChronological es
      → drop_stale window now es ≡ keep (λ e. leb now (e.0 + window)) es
  unfolding drop_stale
  drop_stale-eq-keep window now [] h = refl
  drop_stale-eq-keep window now (e ∷ es) h = elim (Bool-cases (ltb (e.0 + window) now)) [
    | inl stale ↦ rw stale (rw (drop_stale-eq-keep window now es h.1) (ground arith))
    | inr fresh ↦ rw fresh (ground (arith, keep-later es h.0 (ground arith)))
  ]
    where
      keep-later :
          (fs : Levels W)
          → All (λ f. e.0 ≤ f.0) fs
          → now ≤ e.0 + window
          → keep (λ f. leb now (f.0 + window)) fs ≡ fs
      keep-later [] k fits = refl
      keep-later (f ∷ fs) k fits = ground (arith, keep-later fs k.1 fits)

  drop_stale-IsChronological :
      (window : ℕ) (now : Time) (es : Levels W)
      → IsChronological es
      → IsChronological (drop_stale window now es)
  unfolding drop_stale
  drop_stale-IsChronological window now [] h = h
  drop_stale-IsChronological window now (e ∷ es) h = elim (Bool-cases (ltb (e.0 + window) now)) [
    | inl stale ↦ rw stale (drop_stale-IsChronological window now es h.1)
    | inr fresh ↦ rw fresh h
  ]

  append-IsChronological :
      (es : Levels W) (e : Time × W)
      → IsChronological es
      → IsPast e.0 es
      → IsChronological (es ++ (e ∷ []))
  append-IsChronological [] e h p = (tt, tt)
  append-IsChronological (x ∷ xs) e h p =
      (All-append (λ f. x.0 ≤ f.0) xs (e ∷ []) h.0 (p.0, tt), append-IsChronological xs e h.1 p.1)

  push_level-IsChronological :
      (es : Levels W) (e : Time × W)
      → IsChronological es
      → IsPast e.0 es
      → IsChronological (push_level es e)
  unfolding push_level
  push_level-IsChronological [] e h p = (tt, tt)
  push_level-IsChronological (x ∷ xs) e h p = elim (Bool-cases (leb max_levels (length (x ∷ xs)))) [
    | inl full ↦ rw full (append-IsChronological xs e h.1 p.1)
    | inr room ↦ rw room (append-IsChronological (x ∷ xs) e h p)
  ]

  length-push_level :
      (es : Levels W) (e : Time × W)
      → length es ≤ max_levels
      → length (push_level es e) ≤ max_levels
  unfolding push_level
  length-push_level [] e h = omega arith
  length-push_level (x ∷ xs) e h =
      ground (arith, length-append xs (e ∷ []), length-append (x ∷ xs) (e ∷ []))

  length-drop_stale :
      (window : ℕ) (now : Time) (es : Levels W) → length (drop_stale window now es) ≤ length es
  unfolding drop_stale
  length-drop_stale window now [] = omega arith
  length-drop_stale window now (e ∷ es) = ground (arith, length-drop_stale window now es)

-- Two levels that the layer accepted within one window are not near each other.
module _ {W : Type 0} ⦃d : Double W⦄ (c : GovernanceConfig W) where
  abbrev pub AreApart : Time × W → Time × W → Type 0
  AreApart e f =
      f.0 ≤ e.0 + hours c.duplicate_level_window_hours
      → is_near c.duplicate_level_tolerance_pct f.1 e.1 ≡ false

  abbrev pub IsSpaced : Levels W → Type 0
  IsSpaced [] = Unit
  IsSpaced (e ∷ es) = All (AreApart e) es × IsSpaced es

  -- What holds of the deque between two calls.
  pub record IsSound (levels : Levels W) : Type 0 where
    pub chronological : IsChronological levels
    pub spaced : IsSpaced levels
    pub bounded : length levels ≤ max_levels

  drop_stale-IsSpaced :
      (window : ℕ) (now : Time) (es : Levels W) → IsSpaced es → IsSpaced (drop_stale window now es)
  unfolding drop_stale
  drop_stale-IsSpaced window now [] h = h
  drop_stale-IsSpaced window now (e ∷ es) h = elim (Bool-cases (ltb (e.0 + window) now)) [
    | inl stale ↦ rw stale (drop_stale-IsSpaced window now es h.1)
    | inr fresh ↦ rw fresh h
  ]

  append-IsSpaced :
      (es : Levels W) (e : Time × W)
      → IsSpaced es
      → All (λ f. AreApart f e) es
      → IsSpaced (es ++ (e ∷ []))
  append-IsSpaced [] e h p = (tt, tt)
  append-IsSpaced (x ∷ xs) e h p =
      (All-append (AreApart x) xs (e ∷ []) h.0 (p.0, tt), append-IsSpaced xs e h.1 p.1)

  push_level-IsSpaced :
      (es : Levels W) (e : Time × W)
      → IsSpaced es
      → All (λ f. AreApart f e) es
      → IsSpaced (push_level es e)
  unfolding push_level
  push_level-IsSpaced [] e h p = (tt, tt)
  push_level-IsSpaced (x ∷ xs) e h p = elim (Bool-cases (leb max_levels (length (x ∷ xs)))) [
    | inl full ↦ rw full (append-IsSpaced xs e h.1 p.1)
    | inr room ↦ rw room (append-IsSpaced (x ∷ xs) e h p)
  ]

  -- The stale entries leave a sound deque sound.
  pub drop_stale-IsSound :
      (window : ℕ) (now : Time) (es : Levels W) → IsSound es → IsSound (drop_stale window now es)
  drop_stale-IsSound window now es s = record {
    chronological = drop_stale-IsChronological window now es s.chronological;
    spaced = drop_stale-IsSpaced window now es s.spaced;
    bounded = omega (arith, length-drop_stale window now es, s.bounded);
  }

  pub push_level-IsSound :
      (es : Levels W) (e : Time × W)
      → IsSound es
      → IsPast e.0 es
      → All (λ f. AreApart f e) es
      → IsSound (push_level es e)
  push_level-IsSound es e s p apart = record {
    chronological = push_level-IsChronological es e s.chronological p;
    spaced = push_level-IsSpaced es e s.spaced apart;
    bounded = length-push_level es e s.bounded;
  }

  -- No entry that the scan passes over is near.
  pub any_near_false :
      (entry : W) (now : Time) (es : Levels W)
      → any (λ e. is_near c.duplicate_level_tolerance_pct entry e.1) es ≡ false
      → All (λ f. AreApart f (now, entry)) es
  any_near_false entry now [] h = tt
  any_near_false entry now (e ∷ es) h =
      (λ _. ground arith, any_near_false entry now es (ground arith))

  -- The answer is no exactly when every entry of the window is apart from the new one.
  pub is_duplicate_level_iff :
      (entry : W) (now : Time) (es : Levels W)
      → IsChronological es
      → ((is_duplicate_level c entry now es).0 ≡ false) ↔ All (λ f. AreApart f (now, entry)) es
  unfolding is_duplicate_level
  is_duplicate_level_iff entry now es h =
      rw (drop_stale-eq-keep (hours c.duplicate_level_window_hours) now es h) (to es, from es)
    where
      to :
          (fs : Levels W)
          → any
              (λ e. is_near c.duplicate_level_tolerance_pct entry e.1)
              (keep (λ e. leb now (e.0 + hours c.duplicate_level_window_hours)) fs)
            ≡ false
          → All (λ f. AreApart f (now, entry)) fs
      to [] k = tt
      to (f ∷ fs) k = (λ fits. ground arith, to fs (ground arith))

      from :
          (fs : Levels W)
          → All (λ f. AreApart f (now, entry)) fs
          → any
              (λ e. is_near c.duplicate_level_tolerance_pct entry e.1)
              (keep (λ e. leb now (e.0 + hours c.duplicate_level_window_hours)) fs)
            ≡ false
      from [] k = refl
      from (f ∷ fs) k = ground (arith, k.0, from fs k.1)
