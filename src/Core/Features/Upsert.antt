-- ===== src/Core/Features/Upsert.antt =====
-- The rolling histories keep their samples in order of time.
use btc_bot.Prelude.{
  ℕ, ◌+◌, ◌-◌, ◌≤◌, ◌<◌, ◌≡◌, refl, false, zero, suc, arith, List, [], ◌∷◌, length, ltb, ◌==◌, All,
  Bool-cases, inl, inr,
}
use btc_bot.Prelude.Tails.{drop, bounded, length-bounded}
use btc_bot.Core.Models.{Time}
use btc_bot.Core.Features.History.{upsert, expire}

module _ {A : Type 0} where
  -- Each sample is later than the one before.
  abbrev pub IsAscending : List (Time × A) → Type 0
  IsAscending [] = Unit
  IsAscending (x ∷ xs) = All (λ y. x.0 < y.0) xs × IsAscending xs

  abbrev pub Until : Time → List (Time × A) → Type 0
  Until now = All (λ x. x.0 ≤ now)

  upsert-All :
      (P : (Time × A) → Type 0) (x : Time × A) (xs : List (Time × A))
      → P x
      → All P xs
      → All P (upsert x xs)
  unfolding upsert
  upsert-All P x [] p h = (p, tt)
  upsert-All P x (y ∷ []) p h = elim (Bool-cases (y.0 == x.0)) [
    | inl e ↦ rw e (p, tt)
    | inr e ↦ rw e (h.0, (p, tt))
  ]
  upsert-All P x (y ∷ z ∷ ys) p h = (h.0, upsert-All P x (z ∷ ys) p h.1)

  pub upsert-Until :
      (now : Time) (a : A) (xs : List (Time × A)) → Until now xs → Until now (upsert (now, a) xs)
  upsert-Until now a xs h = upsert-All (λ x. x.0 ≤ now) (now, a) xs (omega arith) h

  pub upsert-IsAscending :
      (now : Time) (a : A) (xs : List (Time × A))
      → IsAscending xs
      → Until now xs
      → IsAscending (upsert (now, a) xs)
  unfolding upsert
  upsert-IsAscending now a [] h u = (tt, tt)
  upsert-IsAscending now a (y ∷ []) h u = elim (Bool-cases (y.0 == now)) [
    | inl e ↦ rw e (tt, tt)
    | inr e ↦ let lt : y.0 < now = ground (arith, u.0, e) in rw e ((lt, tt), (tt, tt))
  ]
  upsert-IsAscending now a (y ∷ z ∷ ys) h u =
      let lt : y.0 < now = omega (arith, h.0.0, u.1.0) in
      (
        upsert-All (λ x. y.0 < x.0) (now, a) (z ∷ ys) lt h.0,
        upsert-IsAscending now a (z ∷ ys) h.1 u.1,
      )

  pub drop-IsAscending : (n : ℕ) (xs : List (Time × A)) → IsAscending xs → IsAscending (drop n xs)
  drop-IsAscending zero xs h = h
  drop-IsAscending (suc n) [] h = h
  drop-IsAscending (suc n) (x ∷ xs) h = drop-IsAscending n xs h.1

  pub expire-All :
      (P : (Time × A) → Type 0) (window : ℕ) (now : Time) (xs : List (Time × A))
      → All P xs
      → All P (expire window now xs)
  unfolding expire
  expire-All P window now [] h = tt
  expire-All P window now (x ∷ xs) h = elim (Bool-cases (ltb (x.0 + window) now)) [
    | inl e ↦ rw e (expire-All P window now xs h.1)
    | inr e ↦ rw e h
  ]

  pub expire-IsAscending :
      (window : ℕ) (now : Time) (xs : List (Time × A))
      → IsAscending xs
      → IsAscending (expire window now xs)
  unfolding expire
  expire-IsAscending window now [] h = tt
  expire-IsAscending window now (x ∷ xs) h = elim (Bool-cases (ltb (x.0 + window) now)) [
    | inl e ↦ rw e (expire-IsAscending window now xs h.1)
    | inr e ↦ rw e h
  ]

  later_fresh :
      (window : ℕ) (now t : Time) (xs : List (Time × A))
      → now ≤ t + window
      → All (λ y. t < y.0) xs
      → All (λ y. now ≤ y.0 + window) xs
  later_fresh window now t [] h k = tt
  later_fresh window now t (x ∷ xs) h k = (omega (arith, k.0), later_fresh window now t xs h k.1)

  -- What is left after the removal is no older than the window.
  pub expire-fresh :
      (window : ℕ) (now : Time) (xs : List (Time × A))
      → IsAscending xs
      → All (λ y. now ≤ y.0 + window) (expire window now xs)
  unfolding expire
  expire-fresh window now [] h = tt
  expire-fresh window now (x ∷ xs) h = elim (Bool-cases (ltb (x.0 + window) now)) [
    | inl e ↦ rw e (expire-fresh window now xs h.1)
    | inr e ↦
        let fresh : now ≤ x.0 + window = ground (arith, e) in
        rw e (fresh, later_fresh window now x.0 xs fresh h.0)
  ]

  -- The list ends with `x`.
  abbrev pub Ends : (Time × A) → List (Time × A) → Type 0
  Ends x [] = ⊥
  Ends x (y ∷ []) = y ≡ x
  Ends x (y ∷ z ∷ ys) = Ends x (z ∷ ys)

  Ends-cons : (x y : Time × A) (xs : List (Time × A)) → Ends x xs → Ends x (y ∷ xs)
  Ends-cons x y [] h = absurd h
  Ends-cons x y (z ∷ xs) h = h

  upsert-Ends : (x : Time × A) (xs : List (Time × A)) → Ends x (upsert x xs)
  unfolding upsert
  upsert-Ends x [] = refl
  upsert-Ends x (y ∷ []) = elim (Bool-cases (y.0 == x.0)) [ inl e ↦ rw e refl | inr e ↦ rw e refl ]
  upsert-Ends x (y ∷ z ∷ ys) = Ends-cons x y (upsert x (z ∷ ys)) (upsert-Ends x (z ∷ ys))

  upsert_of_Ends : (x : Time × A) (xs : List (Time × A)) → Ends x xs → upsert x xs ≡ xs
  unfolding upsert
  upsert_of_Ends x [] h = absurd h
  upsert_of_Ends x (y ∷ []) h = rw h (ground arith)
  upsert_of_Ends x (y ∷ z ∷ ys) h = cc (upsert_of_Ends x (z ∷ ys) h)

  expire-Ends :
      (window : ℕ) (x : Time × A) (xs : List (Time × A)) → Ends x xs → Ends x (expire window x.0 xs)
  unfolding expire
  expire-Ends window x [] h = absurd h
  expire-Ends window x (y ∷ []) h =
      let kept : ltb (y.0 + window) x.0 ≡ false = rw h (ground arith) in rw kept h
  expire-Ends window x (y ∷ z ∷ ys) h = elim (Bool-cases (ltb (y.0 + window) x.0)) [
    | inl e ↦ rw e (expire-Ends window x (z ∷ ys) h)
    | inr e ↦ rw e h
  ]

  drop-Ends :
      (n : ℕ) (x : Time × A) (xs : List (Time × A)) → n < length xs → Ends x xs → Ends x (drop n xs)
  drop-Ends zero x xs l h = h
  drop-Ends (suc n) x [] l h = absurd h
  drop-Ends (suc n) x (y ∷ []) l h = absurd (omega arith)
  drop-Ends (suc n) x (y ∷ z ∷ ys) l h = drop-Ends n x (z ∷ ys) (omega arith) h

  expire_idem :
      (window : ℕ) (x : Time × A) (ys : List (Time × A))
      → expire window x.0 (expire window x.0 ys) ≡ expire window x.0 ys
  unfolding expire
  expire_idem window x [] = refl
  expire_idem window x (y ∷ ys) = elim (Bool-cases (ltb (y.0 + window) x.0)) [
    | inl e ↦ rw e (expire_idem window x ys)
    | inr e ↦ rw (e, e) refl
  ]

  -- A sample that is recorded twice at one time stands there once.
  pub expire-upsert_idem :
      (window : ℕ) (x : Time × A) (xs : List (Time × A))
      → let ys = expire window x.0 (upsert x xs) in expire window x.0 (upsert x ys) ≡ ys
  expire-upsert_idem window x xs =
      rw
        (upsert_of_Ends x (expire window x.0 (upsert x xs))
          (expire-Ends window x (upsert x xs) (upsert-Ends x xs)))
        (expire_idem window x (upsert x xs))

  pub bounded-upsert_idem :
      (n : ℕ) (x : Time × A) (xs : List (Time × A))
      → let ys = bounded (suc n) (upsert x xs) in bounded (suc n) (upsert x ys) ≡ ys
  bounded-upsert_idem n x xs =
      let zs = upsert x xs in
      rw
        (upsert_of_Ends x (bounded (suc n) zs)
          (drop-Ends (length zs - suc n) x zs (nonempty zs (upsert-Ends x xs)) (upsert-Ends x xs)))
        (settled (bounded (suc n) zs) (length-bounded (suc n) zs))
    where
      nonempty : (ys : List (Time × A)) → Ends x ys → length ys - suc n < length ys
      nonempty [] h = absurd h
      nonempty (y ∷ ys) h = omega arith

      settled : (ys : List (Time × A)) → length ys ≤ suc n → bounded (suc n) ys ≡ ys
      settled ys h = let all : length ys - suc n ≡ 0 = omega arith in rw all refl
