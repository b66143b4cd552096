-- ===== src/Overrides/Loop.antt =====
-- The whole loop over the groups of a resource, by its rounds: a group that stays, a last group
-- that is removed, and a group that is removed with the last one moved into its place.
use mimir_operator.Base.{
  ℕ, suc, ◌+◌, ◌-◌, ◌<◌, ◌≤◌, ◌≡◌, inl, inr, refl, ap, ap₂, ◌∙◌, arith, true, false, not, ◌&&◌,
  List, [], ◌∷◌, ◌++◌, some, lt→ltb, ◌==◌, nat_eq, length, get_elem?, set, take-length,
  length-append, Bool-cases,
}
use mimir_operator.Base.Dict.{Dict}
use mimir_operator.Prometheus.{Rule, RuleGroup}
use mimir_operator.Overrides.{
  Override, GroupHeader, Item, update, headers, group_of, groups_of, remove_group, rules_loop,
}
use mimir_operator.Overrides.Arrays.{update_at, update_ne}
use mimir_operator.Overrides.Slices.{append_shift, get_elem?-append, set-append}
use mimir_operator.Overrides.Local.{with_group}
use mimir_operator.Overrides.Memory.{GroupSwept}
use mimir_operator.Overrides.Groups.{any_named, is_emptied, kept_groups, swept_plain}
use mimir_operator.Overrides.Places.{
  header_of, place, Own, Own-at, Apart, Apart-next, groups_of-append, groups_of-update, set_here,
  header_ahead,
}
use mimir_operator.Overrides.Removed.{after}

remove_group_at :
    (item : Item) (g : ℕ) (last : GroupHeader)
    → g < item.count
    → get_elem? item.groups (item.count - 1) ≡ some last
    → remove_group item g
      ≡ some (record item { groups = set item.groups g last; count = item.count - 1 })
unfolding remove_group
remove_group_at item g last lt at = rw (lt→ltb g item.count lt, at)

module _ (overrides : Dict Override) where
  pub kept_groups_stays :
      (x : RuleGroup) (xs : List RuleGroup)
      → is_emptied overrides x ≡ false
      → kept_groups overrides (x ∷ xs) ≡ x ∷ kept_groups overrides xs
  unfolding kept_groups
  kept_groups_stays x xs e = rw e

  pub kept_groups_goes :
      (x : RuleGroup) (xs : List RuleGroup)
      → is_emptied overrides x ≡ true
      → kept_groups overrides (x ∷ xs) ≡ kept_groups overrides xs
  unfolding kept_groups
  kept_groups_goes x xs e = rw e

  pub kept_groups-plain :
      (xs : List RuleGroup) (y : RuleGroup)
      → is_emptied overrides y ≡ false
      → kept_groups overrides (xs ++ (y ∷ [])) ≡ kept_groups overrides xs ++ (y ∷ [])
  unfolding kept_groups
  kept_groups-plain [] y e = rw e
  kept_groups-plain (x ∷ xs) y e = elim (Bool-cases (is_emptied overrides x)) [
    | inl t ↦ rw t (kept_groups-plain xs y e)
    | inr t ↦ rw t (ap (◌∷◌ x) (kept_groups-plain xs y e))
  ]

  pub after_plain : (y : RuleGroup) → any_named overrides y.rules ≡ false → after overrides y ≡ y
  after_plain y plain = rw (swept_plain overrides y.rules plain)

  -- What one group needs: the loop over its rules came to an end.
  module _ (g : ℕ) (arrays : ℕ → List Rule) (front : List GroupHeader) (x : RuleGroup)
      (xs : List RuleGroup) (c : ℕ) (here : g ≡ length front) (lt : g < c)
      (own : Own g arrays (x ∷ xs)) (apart : Apart g c front)
      (s : GroupSwept overrides (place g arrays front (x ∷ xs) c) g (header_of g x) x.rules) where
    -- The header of the group as the loop leaves it.
    pub left : GroupHeader
    left = record (header_of g x) { len = s.len }

    finish_test : (s.len == 0 && not (length x.rules == 0)) ≡ is_emptied overrides x
    unfolding is_emptied
    finish_test = rw (s.count) (ground arith)

    group_left :
        group_of (update arrays g s.rules) (record (header_of g x) { len = s.len })
        ≡ after overrides x
    group_left = rw (update_at arrays g s.rules, s.seen)

    written :
        with_group (place g arrays front (x ∷ xs) c) g (header_of g x) s.rules s.len
        ≡ place (suc g) (update arrays g s.rules) (front ++ (left ∷ [])) xs c
    unfolding left
    written = rw (set_here g arrays front x xs c here left)

    -- The group stays: the loop goes on behind it.
    pub round_stays :
        is_emptied overrides x ≡ false
        → rules_loop overrides g g (length x.rules) 0 (place g arrays front (x ∷ xs) c)
          ≡ some (place (suc g) (update arrays g s.rules) (front ++ (left ∷ [])) xs c)
    round_stays e = s.loop ∙ rw (finish_test, e) (ap some written)

    pub shown_stays :
        groups_of (update arrays g s.rules) (front ++ (left ∷ []))
        ≡ groups_of arrays front ++ (after overrides x ∷ [])
    unfolding left groups_of
    shown_stays =
        groups_of-append (update arrays g s.rules) front (left ∷ [])
        ∙ ap₂ ◌++◌ (groups_of-update arrays g c s.rules front lt apart)
            (ap (λ y. y ∷ []) group_left)

    pub Apart-stays : (c' : ℕ) → c' ≤ c → Apart (suc g) c' (front ++ (left ∷ []))
    unfolding left
    Apart-stays c' le = Apart-next g c c' front left le (inl refl) apart

    -- The group is removed: the last group of the slice takes its place.
    round_removed :
        (last : GroupHeader)
        → is_emptied overrides x ≡ true
        → get_elem? ((front ++ (left ∷ [])) ++ headers (suc g) xs) (c - 1) ≡ some last
        → rules_loop overrides g g (length x.rules) 0 (place g arrays front (x ∷ xs) c)
          ≡ some (place (suc g) (update arrays g s.rules) (front ++ (last ∷ [])) xs (c - 1))
    round_removed last e at =
        s.loop
        ∙ rw (finish_test, e, written)
            (remove_group_at (place (suc g) (update arrays g s.rules) (front ++ (left ∷ [])) xs c) g
                last lt at
              ∙ rw (
                ← append_shift front left (headers (suc g) xs),
                set-append front left last (headers (suc g) xs) g here,
                append_shift front last (headers (suc g) xs),
              ))

    pub round_last :
        is_emptied overrides x ≡ true
        → c ≡ suc g
        → rules_loop overrides g g (length x.rules) 0 (place g arrays front (x ∷ xs) c)
          ≡ some (place (suc g) (update arrays g s.rules) (front ++ (left ∷ [])) xs (c - 1))
    round_last e ec = round_removed left e (
        rw (← append_shift front left (headers (suc g) xs))
          (get_elem?-append front left (headers (suc g) xs) (c - 1) (omega arith)))

    module _ (mid : List RuleGroup) (y : RuleGroup) (dead : List RuleGroup) (k : ℕ)
        (split : xs ≡ mid ++ (y ∷ dead)) (ec : c ≡ suc k) (ek : k ≡ suc (g + length mid)) where
      pub round_moves :
          is_emptied overrides x ≡ true
          → rules_loop overrides g g (length x.rules) 0 (place g arrays front (x ∷ xs) c)
            ≡ some
                (place (suc g) (update arrays g s.rules) (front ++ (header_of k y ∷ [])) xs (c - 1))
      round_moves e = round_removed (header_of k y) e (
          let at : c - 1 ≡ k = omega arith in
          rw (split, at)
            (header_ahead (front ++ (left ∷ [])) (suc g) k mid y dead
              (omega (arith, length-append front (left ∷ []))) (omega arith)))

      pub shown_moves :
          groups_of (update arrays g s.rules) (front ++ (header_of k y ∷ []))
          ≡ groups_of arrays front ++ (y ∷ [])
      unfolding groups_of
      shown_moves =
          groups_of-append (update arrays g s.rules) front (header_of k y ∷ [])
          ∙ ap₂ ◌++◌ (groups_of-update arrays g c s.rules front lt apart) (
              rw (
                update_ne arrays g s.rules {b = k} (λ same. absurd (omega arith)),
                Own-at g arrays (x ∷ mid) y dead k (rw split at own) (omega arith),
                take-length,
              ))

      pub Apart-moves : Apart (suc g) (c - 1) (front ++ (header_of k y ∷ []))
      Apart-moves =
          Apart-next g c (c - 1) front (header_of k y) (omega arith) (inr (omega arith)) apart
