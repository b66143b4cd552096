-- ===== src/Overrides/Removed.antt =====
-- What the loop over the groups leaves of a resource, and when it panics.
use mathlib.Core.List.{append-nil, Perm}
use mathlib.Core.List.Perm
use mimir_operator.Base.{
  ℕ, suc, ◌-◌, ◌≤◌, ◌≡◌, inl, inr, refl, ap, arith, Bool, true, false, List, [], ◌∷◌, ◌++◌, map,
  Option, none, some, nat_eq, if◌then◌else◌, length, length-append, Bool-cases,
}
use mimir_operator.Base.Dict.{Dict}
use mimir_operator.Prometheus.{Rule, RuleGroup}
use mimir_operator.Overrides.{
  Override, GroupHeader, Item, headers, groups_of, contents, groups_loop,
}
use mimir_operator.Overrides.Slices.{append_shift}
use mimir_operator.Overrides.Disabled.{rules_fit}
use mimir_operator.Overrides.Memory.{take_append, swept_rules, rules_loop_lost}
use mimir_operator.Overrides.Groups.{
  any_named, is_emptied, group_places, groups_fit, kept_groups, rules_fit_plain, rules_fit_zero,
}
use mimir_operator.Overrides.Places.{
  header_of, place, Own, Own-tail, Own-head, header_here, group_lost,
}

pub contents-place :
    (g : ℕ) (arrays : ℕ → List Rule) (front : List GroupHeader) (xs : List RuleGroup) (c : ℕ)
    → c ≡ length front
    → contents (place g arrays front xs c) ≡ groups_of arrays front
unfolding contents
contents-place g arrays front xs c e = rw (e, take_append)

-- The header that was visited last is behind the slice.
pub contents_dropped :
    (g : ℕ) (arrays : ℕ → List Rule) (front : List GroupHeader) (h : GroupHeader)
    (xs : List RuleGroup) (c : ℕ)
    → c ≡ length front
    → contents (place g arrays (front ++ (h ∷ [])) xs c) ≡ groups_of arrays front
unfolding contents
contents_dropped g arrays front h xs c e =
    rw (← append_shift front h (headers g xs), e, take_append)

module _ (overrides : Dict Override) where
  -- A group with the rules that the loop leaves of it.
  abbrev pub after : RuleGroup → RuleGroup
  after x = record x { rules = swept_rules overrides x.rules }

  -- The outcome of the loop, where `shown` has been visited and `live` is the rest of the slice.
  abbrev pub SweptGroups : Bool → List RuleGroup → List RuleGroup → Option Item → Type 0
  SweptGroups true shown live result =
      (item : Item) × (result ≡ some item)
      × Perm (contents item) (shown ++ map after (kept_groups overrides live))
  SweptGroups false shown live result = result ≡ none

  pub Swept-from :
      (fit : Bool) (shown live shown' live' : List RuleGroup) (result : Option Item)
      → (fit ≡ true
          → Perm
              (shown' ++ map after (kept_groups overrides live'))
              (shown ++ map after (kept_groups overrides live)))
      → SweptGroups fit shown' live' result
      → SweptGroups fit shown live result
  Swept-from true shown live shown' live' result h (item, e, p) = (item, e, Perm.trans p (h refl))
  Swept-from false shown live shown' live' result h e = e

  pub Swept-end :
      (fit : Bool) (shown : List RuleGroup) (item : Item) (result : Option Item)
      → contents item ≡ shown
      → result ≡ (if fit then some item else none)
      → SweptGroups fit shown [] result
  unfolding kept_groups
  Swept-end true shown item result e h = (item, h, rw (append-nil, e) (Perm.refl shown))
  Swept-end false shown item result e h = h

  pub groups_fit_step :
      (m : ℕ) (x : RuleGroup) (xs : List RuleGroup)
      → rules_fit overrides (length x.rules) x.rules ≡ true
      → groups_fit overrides (suc m) (x ∷ xs)
        ≡ groups_fit overrides (if is_emptied overrides x then m - 1 else m) xs
  unfolding groups_fit group_places
  groups_fit_step m x xs fit = elim (Bool-cases (is_emptied overrides x)) [
    | inl e ↦
        rw (e, fit)
          (let z : suc m - 2 ≡ m - 1 = omega arith in
            ground (arith, ap (λ k. groups_fit overrides k xs) z))
    | inr e ↦
        rw (e, fit)
          (let z : suc m - 1 ≡ m = omega arith in
            ground (arith, ap (λ k. groups_fit overrides k xs) z))
  ]

  pub groups_unfit :
      (m : ℕ) (x : RuleGroup) (xs : List RuleGroup)
      → rules_fit overrides (length x.rules) x.rules ≡ false
      → groups_fit overrides m (x ∷ xs) ≡ false
  unfolding groups_fit
  groups_unfit m x xs unfit = rw unfit (ground arith)

  -- A group behind the places that are left has no rule that an override names.
  pub fit→plain :
      (m : ℕ) (xs : List RuleGroup) (y : RuleGroup) (dead : List RuleGroup)
      → m ≤ length xs
      → groups_fit overrides m (xs ++ (y ∷ dead)) ≡ true
      → any_named overrides y.rules ≡ false
  unfolding groups_fit
  fit→plain m [] y dead le h = ground arith
  fit→plain m (x ∷ xs) y dead le h =
      fit→plain (m - group_places overrides x) xs y dead (unfold group_places in ground arith)
        (ground arith)

  -- Past the end of the slice the loop does nothing, or panics at a rule that an override names.
  pub loop_behind :
      (dead : List RuleGroup) (g : ℕ) (arrays : ℕ → List Rule) (front : List GroupHeader) (c : ℕ)
      → g ≡ length front
      → c ≤ g
      → Own g arrays dead
      → groups_loop overrides (length dead) g (place g arrays front dead c)
        ≡ (if groups_fit overrides 0 dead then some (place g arrays front dead c) else none)
  unfolding groups_loop groups_fit
  loop_behind [] g arrays front c e le own = refl
  loop_behind (x ∷ dead) g arrays front c e le own =
      let item = place g arrays front (x ∷ dead) c in
      let lost = group_lost g arrays front x dead c e le in
      let loop =
        rules_loop_lost overrides x.rules [] g g 0 item lost (Own-head g arrays x dead own) refl in
      let shift : item ≡ place (suc g) arrays (front ++ (header_of g x ∷ [])) dead c =
        unfold headers in rw (append_shift front (header_of g x) (headers (suc g) dead)) in
      let next =
        loop_behind dead (suc g) arrays (front ++ (header_of g x ∷ [])) c
          (omega (arith, length-append front (header_of g x ∷ []))) (omega arith)
          (Own-tail g arrays x dead own) in
      let zero_left : 0 - group_places overrides x ≡ 0 = omega arith in
      rw (header_here g arrays front x dead c e, loop, rules_fit_zero overrides x.rules, zero_left)
        (elim (Bool-cases (any_named overrides x.rules)) [
          | inl named ↦ rw named
          | inr plain ↦
              rw (plain, rules_fit_plain overrides (length x.rules) x.rules plain, shift) next
        ])
