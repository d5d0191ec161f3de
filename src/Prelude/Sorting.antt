-- ===== src/Prelude/Sorting.antt =====
-- `sorted` and `list.sort`: a stable sort. The model is insertion from the right, where a new
-- element goes before the elements that are not less than it.
use mathlib.Core.Path.{◌≡◌, refl, sym, ◌∙◌, subst}
use mathlib.Core.Bool.{Bool}
use Prim.Native.Nat.{ℕ, ◌≤◌}
use mathlib.Core.List.{List, [], ◌∷◌, Permᴰ}
use mathlib.Core.List.Permᴰ
use mathlib.Core.Logic.{◌≢◌, inl, inr}
use native.Mathlib.Omega.{arith}
use btc_bot.Prelude.Tests.{if◌then◌else◌, Bool-cases, ltb}
use btc_bot.Prelude.Lists.{All, All-map, All-keep, length, keep}

module _ {ℓ} {A : Type ℓ} (lt : A → A → Bool) where
  unfoldable pub insert : A → List A → List A
  insert x [] = x ∷ []
  insert x (y ∷ ys) = if lt y x then y ∷ insert x ys else x ∷ y ∷ ys

  unfoldable pub sort : List A → List A
  unfolding insert
  sort [] = []
  sort (x ∷ xs) = insert x (sort xs)

  pub insert-perm : (x : A) (xs : List A) → Permᴰ (insert x xs) (x ∷ xs)
  unfolding insert
  insert-perm x [] = Permᴰ.refl (x ∷ [])
  insert-perm x (y ∷ ys) = elim (Bool-cases (lt y x)) [
    | inl e ↦ rw e (Permᴰ.trans (Permᴰ.cons refl (insert-perm x ys)) (Permᴰ.swap refl refl))
    | inr e ↦ rw e (Permᴰ.refl (x ∷ y ∷ ys))
  ]

  -- Sorting rearranges a list.
  pub sort-perm : (xs : List A) → Permᴰ (sort xs) xs
  unfolding sort
  sort-perm [] = Permᴰ.nil
  sort-perm (x ∷ xs) = Permᴰ.trans (insert-perm x (sort xs)) (Permᴰ.cons refl (sort-perm xs))

length-perm {ℓ} : {A : Type ℓ} {xs ys : List A} → Permᴰ xs ys → length xs ≡ length ys
length-perm Permᴰ.nil = refl
length-perm (Permᴰ.cons e p) = omega (arith, length-perm p)
length-perm (Permᴰ.swap e f) = refl
length-perm (Permᴰ.trans p q) = omega (arith, length-perm p, length-perm q)

pub length-sort {ℓ} :
    {A : Type ℓ} (lt : A → A → Bool) (xs : List A) → length (sort lt xs) ≡ length xs
length-sort lt xs = length-perm (sort-perm lt xs)

-- A property of all elements does not depend on their order.
pub All-perm {ℓ κ} :
    {A : Type ℓ} (P : A → Type κ) {xs ys : List A} → Permᴰ xs ys → All P xs → All P ys
All-perm P Permᴰ.nil h = h
All-perm P (Permᴰ.cons e p) h = (subst P e h.0, All-perm P p h.1)
All-perm P (Permᴰ.swap e f) h = (subst P f h.1.0, (subst P e h.0, h.1.1))
All-perm P (Permᴰ.trans p q) h = All-perm P q (All-perm P p h)

-- Sorting by a key that is a number, such as a time.
module _ {ℓ} {A : Type ℓ} (key : A → ℕ) where
  abbrev pub before : A → A → Bool
  before x y = ltb (key x) (key y)

  abbrev pub IsSorted : List A → Type 0
  IsSorted [] = Unit
  IsSorted (x ∷ xs) = All (λ y. key x ≤ key y) xs × IsSorted xs

  -- No two elements have the same key.
  abbrev pub HasDistinctKeys : List A → Type 0
  HasDistinctKeys [] = Unit
  HasDistinctKeys (x ∷ xs) = All (λ y. key x ≢ key y) xs × HasDistinctKeys xs

  All-above :
      (x y : A) (zs : List A)
      → key x ≤ key y
      → All (λ z. key y ≤ key z) zs
      → All (λ z. key x ≤ key z) zs
  All-above x y [] le k = tt
  All-above x y (z ∷ zs) le k = (omega (arith, le, k.0), All-above x y zs le k.1)

  insert-IsSorted : (x : A) (xs : List A) → IsSorted xs → IsSorted (insert before x xs)
  unfolding insert
  insert-IsSorted x [] h = (tt, tt)
  insert-IsSorted x (y ∷ ys) h = elim (Bool-cases (before y x)) [
    | inl e ↦ rw e (
      All-perm (λ z. key y ≤ key z) (Permᴰ.symm (insert-perm before x ys)) (ground arith, h.0),
      insert-IsSorted x ys h.1,
    )
    | inr e ↦ rw e ((ground arith, All-above x y ys (ground arith) h.0), h)
  ]

  pub sort-IsSorted : (xs : List A) → IsSorted (sort before xs)
  unfolding sort
  sort-IsSorted [] = tt
  sort-IsSorted (x ∷ xs) = insert-IsSorted x (sort before xs) (sort-IsSorted xs)

  -- An element that is not above the others goes first.
  insert_first : (x : A) (ys : List A) → All (λ y. key x ≤ key y) ys → insert before x ys ≡ x ∷ ys
  unfolding insert
  insert_first x [] h = refl
  insert_first x (y ∷ ys) h = ground (arith, h.0)

  keep-insert :
      (q : A → Bool) (x : A) (ys : List A)
      → IsSorted ys
      → keep q (insert before x ys) ≡ (if q x then insert before x (keep q ys) else keep q ys)
  unfolding insert
  keep-insert q x [] h = refl
  keep-insert q x (y ∷ ys) h = elim (Bool-cases (before y x)) [
    | inl e ↦ ground (arith, keep-insert q x ys h.1)
    | inr e ↦
        let le : key x ≤ key y = ground arith in
        let above =
          All-keep (λ z. key x ≤ key z) q (y ∷ ys)
            ((λ _. le), All-map _ _ ys (λ z k _. k) (All-above x y ys le h.0)) in
        ground (arith, insert_first x (keep q (y ∷ ys)) above)
  ]

  -- Leaving elements out commutes with sorting.
  pub sort-keep : (q : A → Bool) (xs : List A) → sort before (keep q xs) ≡ keep q (sort before xs)
  unfolding sort
  sort-keep q [] = refl
  sort-keep q (x ∷ xs) = elim (Bool-cases (q x)) [
    | inl e ↦ rw (keep-insert q x (sort before xs) (sort-IsSorted xs), ← sort-keep q xs, e) refl
    | inr e ↦ rw (keep-insert q x (sort before xs) (sort-IsSorted xs), ← sort-keep q xs, e) refl
  ]

  insert_comm :
      (x y : A) (zs : List A)
      → key x ≢ key y
      → insert before x (insert before y zs) ≡ insert before y (insert before x zs)
  unfolding insert
  insert_comm x y [] h = ground arith
  insert_comm x y (z ∷ zs) h = ground (arith, insert_comm x y zs h)

  HasDistinctKeys-perm : {xs ys : List A} → Permᴰ xs ys → HasDistinctKeys xs → HasDistinctKeys ys
  HasDistinctKeys-perm Permᴰ.nil h = h
  HasDistinctKeys-perm (Permᴰ.cons {a = a} {b = b} {l₁ = l} e p) h = (
    All-perm (λ z. key b ≢ key z) p (subst (λ a'. All (λ z. key a' ≢ key z) l) e h.0),
    HasDistinctKeys-perm p h.1,
  )
  HasDistinctKeys-perm (Permᴰ.swap {l = l} e f) h = (
    (rw (← e, ← f) (λ same. h.0.0 (sym same)), subst (λ a'. All (λ z. key a' ≢ key z) l) f h.1.0),
    (subst (λ a'. All (λ z. key a' ≢ key z) l) e h.0.1, h.1.1),
  )
  HasDistinctKeys-perm (Permᴰ.trans p q) h = HasDistinctKeys-perm q (HasDistinctKeys-perm p h)

  -- With distinct keys the sorted list does not depend on the order of the input.
  pub sort_of_perm :
      {xs ys : List A} → Permᴰ xs ys → HasDistinctKeys xs → sort before xs ≡ sort before ys
  unfolding sort
  sort_of_perm Permᴰ.nil h = refl
  sort_of_perm (Permᴰ.cons e p) h = rw (e, sort_of_perm p h.1)
  sort_of_perm (Permᴰ.swap {a = a} {b = b} {l = l} e f) h =
      rw (← e, ← f) (insert_comm a b (sort before l) h.0.0)
  sort_of_perm (Permᴰ.trans p q) h = sort_of_perm p h ∙ sort_of_perm q (HasDistinctKeys-perm p h)
