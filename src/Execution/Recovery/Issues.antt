-- ===== src/Execution/Recovery/Issues.antt =====
-- execution/recovery.py, `_validate_recovery_state`: what each issue means.
use btc_bot.Prelude.{
  ◌≡◌, ◌↔◌, refl, sym, ap, ◌∙◌, arith, Bool, true, false, not, ◌&&◌, ◌||◌, String, List, map, keep,
  any, Some, any-append,
}
use btc_bot.Prelude.Sorting.{HasDistinctKeys, IsSorted}
use btc_bot.Prelude.Tails.{concat}
use btc_bot.Core.Models.{Position}
use btc_bot.Execution.Recovery.{
  Coordinator, ExchangePosition, ExchangeOrder, Issue, is_issue, rank, sorted_set, position_issues,
  is_ours, exchange_keys, local_keys, has_other, contains, is_orphan, orphan_found, found_issues,
  validate_recovery_state, is_bad_leverage,
}
use btc_bot.Execution.Recovery.Found.{
  any-concat, any-keep, choose, chosen, chosen-any, any_iff, any_none, pair, rest, pair-any,
  rest-any, or_false, and_false, far_iff, orphan_found-eq,
}

-- The issue is reported.
abbrev pub Reports : List Issue → Issue → Type 0
Reports issues i = any (is_issue i) issues ≡ true

module _ {W : Type 0} (c : Coordinator) (local_positions : List (Position W))
    (exchange_positions : List (ExchangePosition W)) (exchange_orders : List ExchangeOrder) where
  abbrev theirs : List String
  theirs = exchange_keys c exchange_positions

  abbrev ours : List String
  ours = local_keys c local_positions

  abbrev found : List Issue
  found = found_issues c local_positions exchange_positions exchange_orders

  -- An issue is found at a position of the exchange, or with the keys and the orders.
  found-any :
      (i : Issue)
      → any (is_issue i) found
        ≡ any (λ p. is_ours c p && any (is_issue i) (position_issues c p)) exchange_positions
          || any (is_issue i) (
              rest
                (has_other theirs ours)
                (has_other ours theirs)
                (orphan_found c theirs exchange_orders))
  unfolding found_issues rest
  found-any i =
      let near = concat (map (position_issues c) (keep (is_ours c) exchange_positions)) in
      let far =
        rest (has_other theirs ours) (has_other ours theirs)
          (orphan_found c theirs exchange_orders) in
      any-append (is_issue i) near far
      ∙ ap (λ b. b || any (is_issue i) far)
          (any-concat (is_issue i) (position_issues c) (keep (is_ours c) exchange_positions)
            ∙ any-keep (λ p. any (is_issue i) (position_issues c p)) (is_ours c) exchange_positions)

  -- An issue of the positions, and one of the keys and the orders
  near_iff :
      (i : Issue) (Q : ExchangePosition W → Type 0) (b : Bool)
      → b ≡ any (is_issue i) found
      → any (is_issue i) (
          rest
            (has_other theirs ours)
            (has_other ours theirs)
            (orphan_found c theirs exchange_orders))
        ≡ false
      → ((p : ExchangePosition W)
          → ((is_ours c p && any (is_issue i) (position_issues c p)) ≡ true) ↔ Q p)
      → (b ≡ true) ↔ Some Q exchange_positions
  near_iff i Q b e none f =
      let q = λ (p : ExchangePosition W). is_ours c p && any (is_issue i) (position_issues c p) in
      let (to, back) = any_iff q Q exchange_positions f in
      let same : b ≡ any q exchange_positions =
        e
        ∙ found-any i
        ∙ ap (λ x. any q exchange_positions || x) none
        ∙ or_false (any q exchange_positions) in
      ((λ h. to (sym same ∙ h)), (λ s. same ∙ back s))

  far_eq :
      (i : Issue)
      → ((p : ExchangePosition W) → any (is_issue i) (position_issues c p) ≡ false)
      → any (is_issue i) found
        ≡ any (is_issue i) (
            rest
              (has_other theirs ours)
              (has_other ours theirs)
              (orphan_found c theirs exchange_orders))
  far_eq i f =
      let none =
        any_none (λ p. is_ours c p && any (is_issue i) (position_issues c p)) exchange_positions
          (λ p. rw (f p) (and_false (is_ours c p))) in
      found-any i ∙ rw none refl

  reported :
      let issues = validate_recovery_state c local_positions exchange_positions exchange_orders in
      let same = λ (i : Issue). any (is_issue i) issues ≡ any (is_issue i) found in
      same Issue.isolated_mode_mismatch
      × same Issue.leverage_mismatch
      × same Issue.orphan_orders
      × same Issue.phantom_position
      × same Issue.unknown_position
      × IsSorted rank issues
      × HasDistinctKeys rank issues
  unfolding validate_recovery_state sorted_set chosen choose
  reported = chosen-any _ _ _ _ _

  -- Each issue is reported exactly if there is a cause for it: an own position of the exchange that
  -- is not isolated where isolation is demanded, or whose leverage is not positive or too high; an
  -- order for a side without a position of the exchange, or an order without a side where there is
  -- no position at all; a stored open position that the exchange does not have; and a position of
  -- the exchange that is not stored. The report is in the order of the alphabet and names no issue
  -- twice.
  pub validate_recovery_state_iff :
      let issues = validate_recovery_state c local_positions exchange_positions exchange_orders in
      (Reports issues Issue.isolated_mode_mismatch
        ↔ Some
            (λ p. (is_ours c p ≡ true) × (c.isolated_only ≡ true) × (p.isolated ≡ false))
            exchange_positions)
      × (Reports issues Issue.leverage_mismatch
          ↔ Some
              (λ p.
                (is_ours c p ≡ true) × (is_bad_leverage c.max_allowed_leverage p.leverage ≡ true))
              exchange_positions)
      × (Reports issues Issue.orphan_orders
          ↔ Some (λ o. is_orphan c theirs o ≡ true) exchange_orders)
      × (Reports issues Issue.phantom_position ↔ Some (λ k. contains k theirs ≡ false) ours)
      × (Reports issues Issue.unknown_position ↔ Some (λ k. contains k ours ≡ false) theirs)
      × IsSorted rank issues
      × HasDistinctKeys rank issues
  unfolding pair
  validate_recovery_state_iff =
      let (e1, e2, e3, e4, e5, sorted, distinct) = reported in
      let (r1, r2, r3, r4, r5) =
        rest-any (has_other theirs ours) (has_other ours theirs)
          (orphan_found c theirs exchange_orders) in
      let own = λ (p : ExchangePosition W).
        pair-any (c.isolated_only && not p.isolated)
          (is_bad_leverage c.max_allowed_leverage p.leverage) in
      (
        near_iff Issue.isolated_mode_mismatch _ _ e1 r1 (λ p. ground (arith, (own p).0)),
        near_iff Issue.leverage_mismatch _ _ e2 r2 (λ p. ground (arith, (own p).1)),
        far_iff _ (is_orphan c theirs) _ exchange_orders
            (e3
              ∙ far_eq Issue.orphan_orders (λ p. (own p).2)
              ∙ r3
              ∙ orphan_found-eq c theirs exchange_orders)
            (λ o. ground arith),
        far_iff _ (λ k. not (contains k theirs)) _ ours
            (e4 ∙ far_eq Issue.phantom_position (λ p. (own p).3) ∙ r4) (λ k. ground arith),
        far_iff _ (λ k. not (contains k ours)) _ theirs
            (e5 ∙ far_eq Issue.unknown_position (λ p. (own p).4) ∙ r5) (λ k. ground arith),
        sorted,
        distinct,
      )
