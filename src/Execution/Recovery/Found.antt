-- ===== src/Execution/Recovery/Found.antt =====
-- execution/recovery.py, `_validate_recovery_state`: a test for an issue in the lists it is put in.
use btc_bot.Prelude.{
  ◌≡◌, ◌↔◌, refl, sym, ap, ◌∙◌, arith, Bool, true, false, ◌&&◌, ◌||◌, String, List, [], ◌∷◌, ◌++◌,
  map, keep, any, inl, inr, Bool-cases, if◌then◌else◌, Some, Some-any, Some-map, any-Some,
  any-append,
}
use btc_bot.Prelude.Sorting.{HasDistinctKeys, IsSorted}
use btc_bot.Prelude.Tails.{concat}
use btc_bot.Execution.Recovery.{
  Coordinator, ExchangeOrder, Issue, is_issue, rank, is_orphan, orphan_found,
}

pub any-concat :
    {A B : Type 0} (p : B → Bool) (f : A → List B) (xs : List A)
    → any p (concat (map f xs)) ≡ any (λ x. any p (f x)) xs
any-concat p f [] = refl
any-concat p f (x ∷ xs) =
    any-append p (f x) (concat (map f xs)) ∙ ap (λ b. any p (f x) || b) (any-concat p f xs)

pub any-keep :
    {A : Type 0} (p q : A → Bool) (xs : List A) → any p (keep q xs) ≡ any (λ x. q x && p x) xs
any-keep p q [] = refl
any-keep p q (x ∷ xs) = ground (arith, any-keep p q xs)

unfoldable pub choose : Bool → Issue → List Issue → List Issue
choose b x xs = if b then x ∷ xs else xs

unfoldable pub chosen : Bool → Bool → Bool → Bool → Bool → List Issue
chosen a b c d e = choose a Issue.isolated_mode_mismatch (
    choose b Issue.leverage_mismatch (
      choose c Issue.orphan_orders
        (choose d Issue.phantom_position (choose e Issue.unknown_position []))))

pub chosen-any :
    (a b c d e : Bool)
    → let xs = chosen a b c d e in
      (any (is_issue Issue.isolated_mode_mismatch) xs ≡ a)
      × (any (is_issue Issue.leverage_mismatch) xs ≡ b)
      × (any (is_issue Issue.orphan_orders) xs ≡ c)
      × (any (is_issue Issue.phantom_position) xs ≡ d)
      × (any (is_issue Issue.unknown_position) xs ≡ e)
      × IsSorted rank xs
      × HasDistinctKeys rank xs
unfolding chosen choose
chosen-any a b c d e = ground arith

pub any_iff :
    {A : Type 0} (q : A → Bool) (Q : A → Type 0) (xs : List A)
    → ((x : A) → (q x ≡ true) ↔ Q x)
    → (any q xs ≡ true) ↔ Some Q xs
any_iff q Q xs f = (
  (λ e. Some-map (λ x. q x ≡ true) Q xs (λ x. (f x).0) (any-Some q xs e)),
  (λ s. Some-any q xs (Some-map Q (λ x. q x ≡ true) xs (λ x. (f x).1) s)),
)

pub any_none :
    {A : Type 0} (q : A → Bool) (xs : List A) → ((x : A) → q x ≡ false) → any q xs ≡ false
any_none q [] f = refl
any_none q (x ∷ xs) f = rw (f x, any_none q xs f) refl

-- The two issues of one position, and those of the keys and the orders
unfoldable pub pair : Bool → Bool → List Issue
pair x y =
    (if x then Issue.isolated_mode_mismatch ∷ [] else [])
    ++ (if y then Issue.leverage_mismatch ∷ [] else [])

unfoldable pub rest : Bool → Bool → Bool → List Issue
rest u p o =
    (if u then Issue.unknown_position ∷ [] else [])
    ++ ((if p then Issue.phantom_position ∷ [] else [])
        ++ (if o then Issue.orphan_orders ∷ [] else []))

pub pair-any :
    (x y : Bool)
    → let xs = pair x y in
      (any (is_issue Issue.isolated_mode_mismatch) xs ≡ x)
      × (any (is_issue Issue.leverage_mismatch) xs ≡ y)
      × (any (is_issue Issue.orphan_orders) xs ≡ false)
      × (any (is_issue Issue.phantom_position) xs ≡ false)
      × (any (is_issue Issue.unknown_position) xs ≡ false)
unfolding pair
pair-any x y = ground arith

pub rest-any :
    (u p o : Bool)
    → let xs = rest u p o in
      (any (is_issue Issue.isolated_mode_mismatch) xs ≡ false)
      × (any (is_issue Issue.leverage_mismatch) xs ≡ false)
      × (any (is_issue Issue.orphan_orders) xs ≡ o)
      × (any (is_issue Issue.phantom_position) xs ≡ p)
      × (any (is_issue Issue.unknown_position) xs ≡ u)
unfolding rest
rest-any u p o = ground arith

pub or_false : (b : Bool) → (b || false) ≡ b
or_false b = ground arith

pub and_false : (b : Bool) → (b && false) ≡ false
and_false b = ground arith

pub far_iff :
    {A : Type 0} (b : Bool) (q : A → Bool) (Q : A → Type 0) (xs : List A)
    → b ≡ any q xs
    → ((x : A) → (q x ≡ true) ↔ Q x)
    → (b ≡ true) ↔ Some Q xs
far_iff b q Q xs e f =
    let (to, back) = any_iff q Q xs f in ((λ h. to (sym e ∙ h)), (λ s. e ∙ back s))

pub orphan_found-eq :
    (c : Coordinator) (keys : List String) (os : List ExchangeOrder)
    → orphan_found c keys os ≡ any (is_orphan c keys) os
unfolding orphan_found
orphan_found-eq c keys [] = refl
orphan_found-eq c keys (o ∷ os) = elim (Bool-cases (is_orphan c keys o)) [
  | inl e ↦ rw e refl
  | inr e ↦ rw e (orphan_found-eq c keys os)
]
