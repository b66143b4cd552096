-- ===== src/Overrides/Memory.antt =====
-- The loop over one group in the memory of its resource, by the loop on its slice alone.
use mathlib.Core.List.{append-nil, Perm}
use mimir_operator.Base.{
  ℕ, zero, suc, ◌≤◌, ◌<◌, ◌≡◌, ◌⊎◌, refl, sym, ap, ◌∙◌, fun_ext, ◌-◌, arith, true, false, List, [],
  ◌∷◌, ◌++◌, Option, none, some, ◌==◌, nat_eq, if◌then◌else◌, ◌>>=◌, length, get_elem?, take,
  Bool-cases, Option-cases, inl, inr, length-append,
}
use mimir_operator.Base.Dict.{Dict, lookup}
use mimir_operator.Prometheus.{Rule}
use mimir_operator.Overrides.{Override, GroupHeader, Item, group_at, rule_name, visit, rules_loop}
use mimir_operator.Overrides.Arrays.{update_at}
use mimir_operator.Overrides.Slices.{get_elem?-append, append_shift}
use mimir_operator.Overrides.Local.{
  act_local, local_loop, with_group, finish, finish_same, with_group-with_group,
  group_at-with_group, visit-local, act_local-bounds,
}
use mimir_operator.Overrides.Disabled.{is_named, places, rules_fit, kept, named_false, IsNamed-true}
use mimir_operator.Overrides.Steps.{Swept}
use mimir_operator.Overrides.Swept.{loop-Swept}

-- A second visit finishes the group as if it had been the first.
finish-with_group :
    (item : Item) (g : ℕ) (h : GroupHeader) (xs ys : List Rule) (k l : ℕ)
    → (k == 0) ≡ false
    → (h.len == 0) ≡ false
    → finish (with_group item g h xs k) g (record h { len = k }) ys l ≡ finish item g h ys l
finish-with_group item g h xs ys k l some_left had =
    rw (some_left, had, with_group-with_group item g h xs ys k l)

bind_some {ℓ} : {A : Type ℓ} (m : Option A) → (m >>= λ a. some a) ≡ m
bind_some none = refl
bind_some (some a) = refl

module _ (overrides : Dict Override) where
  -- While the slice keeps a rule, or before its only rule is visited, the loop over the memory is
  -- the one over the slice.
  rules_loop-local :
      (n r g : ℕ) (item : Item) (h : GroupHeader)
      → group_at item g ≡ some h
      → (n ≤ h.len) ⊎ ((0 < r) × (0 < h.len))
      → rules_loop overrides g h.array n r item
        ≡ (local_loop overrides n r (item.arrays h.array) h.len >>= λ (ys, l). finish item g h ys l)
  unfolding rules_loop local_loop
  rules_loop-local zero r g item h at room = sym (finish_same item g h at)
  rules_loop-local (suc n) r g item h at room =
      elim (Option-cases (get_elem? (item.arrays h.array) r)) [
        | inl out ↦ rw out
        | inr (x, found) ↦
            elim (Option-cases
              (act_local (lookup (rule_name x) overrides) r x (item.arrays h.array) h.len)) [
                | inl out ↦ rw (found, visit-local overrides g r x item h at) (rw out)
                | inr ((ys, l), act) ↦
                    let bounds =
                      act_local-bounds (lookup (rule_name x) overrides) r x (item.arrays h.array)
                        h.len ys l act in
                    rw (found, visit-local overrides g r x item h at)
                      (rw act (elim (Bool-cases (l == 0)) [
                        | inl gone ↦
                            let at_end : n ≡ 0 = elim bounds [
                              | inl b ↦ ground arith
                              | inr b ↦ ground arith
                            ] in
                            rw at_end (bind_some _)
                        | inr stays ↦
                            let had : (h.len == 0) ≡ false = elim bounds [
                              | inl b ↦ ground arith
                              | inr b ↦ ground arith
                            ] in
                            let next =
                              rules_loop-local n (suc r) g (with_group item g h ys l)
                                (record h { len = l }) (group_at-with_group item g h ys l at)
                                (inr (omega arith, ground arith)) in
                            rw (stays, next, update_at item.arrays h.array ys)
                              (rw (
                                fun_ext (λ (p : List Rule × ℕ).
                                  finish-with_group item g h ys p.0 l p.1 stays had)))
                      ]))
              ]
      ]

  visit_plain :
      (g r : ℕ) (x : Rule) (item : Item)
      → is_named overrides x ≡ false
      → visit overrides g r x item ≡ some item
  unfolding visit
  visit_plain g r x item h = rw ((named_false overrides x h).unnamed, visit)

  visit_lost :
      (g r : ℕ) (x : Rule) (item : Item)
      → is_named overrides x ≡ true
      → group_at item g ≡ none
      → visit overrides g r x item ≡ none
  unfolding visit
  visit_lost g r x item h lost =
      let (o, p) = IsNamed-true overrides x h in
      rw (p.found, visit)
        (elim (Bool-cases o.disable) [ inl e ↦ rw e (rw lost) | inr e ↦ rw e (rw lost) ])

  -- A loop over a group that the slice of groups no longer holds.
  pub rules_loop_lost :
      (rest front : List Rule) (g a r : ℕ) (item : Item)
      → group_at item g ≡ none
      → item.arrays a ≡ front ++ rest
      → r ≡ length front
      → rules_loop overrides g a (length rest) r item
        ≡ (if rules_fit overrides 0 rest then some item else none)
  unfolding rules_loop rules_fit
  rules_loop_lost [] front g a r item lost e er = refl
  rules_loop_lost (x ∷ rest) front g a r item lost e er =
      let at = get_elem?-append front x rest r er in
      let zero_left : 0 - places overrides x ≡ 0 = omega arith in
      let next =
        rules_loop_lost rest (front ++ (x ∷ [])) g a (suc r) item lost
          (e ∙ append_shift front x rest) (omega (arith, length-append front (x ∷ []))) in
      elim (Bool-cases (is_named overrides x)) [
        | inr plain ↦ rw (e, at, plain, zero_left) (rw (visit_plain g r x item plain) next)
        | inl named ↦ rw (e, at, named) (rw (visit_lost g r x item named lost))
      ]

pub take_append {ℓ} : {A : Type ℓ} (xs ys : List A) → take (length xs) (xs ++ ys) ≡ xs
take_append [] ys = refl
take_append (x ∷ xs) ys = ap (◌∷◌ x) (take_append xs ys)

module _ (overrides : Dict Override) where
  -- The rules that the loop over a group leaves, in their order.
  unfoldable pub swept_rules : List Rule → List Rule
  unfolding local_loop
  swept_rules xs = elim (local_loop overrides (length xs) 0 xs (length xs)) [
    | none ↦ []
    | some (ys, l) ↦ take l ys
  ]

  -- What the loop over a group that fits leaves of it.
  pub record GroupSwept (item : Item) (g : ℕ) (h : GroupHeader) (xs : List Rule) : Type 0 where
    pub rules : List Rule
    pub len : ℕ
    pub loop : rules_loop overrides g h.array h.len 0 item ≡ finish item g h rules len
    pub seen : take len rules ≡ swept_rules xs
    pub order : Perm (swept_rules xs) (kept overrides xs)
    pub count : len ≡ length (kept overrides xs)

  module _ (item : Item) (g : ℕ) (h : GroupHeader) (xs : List Rule) (at : group_at item g ≡ some h)
      (own : item.arrays h.array ≡ xs) (whole : h.len ≡ length xs) where
    loop_local :
        rules_loop overrides g h.array h.len 0 item
        ≡ (local_loop overrides (length xs) 0 xs (length xs) >>= λ (ys, l). finish item g h ys l)
    loop_local = rw (rules_loop-local overrides h.len 0 g item h at (inl (omega arith)), own, whole)

    local-Swept :
        Swept overrides
          (rules_fit overrides (length xs) xs)
          []
          xs
          (local_loop overrides (length xs) 0 xs (length xs))
    local-Swept =
        rw append-nil at (
          loop-Swept overrides (length xs) [] xs [] 0 (length xs) (rw append-nil) refl
            (omega arith))

    pub group_fit : rules_fit overrides (length xs) xs ≡ true → GroupSwept item g h xs
    unfolding swept_rules
    group_fit fit =
        let (left, behind, e, p, len) = rw fit at local-Swept in
        let same : swept_rules xs ≡ left = rw (e, swept_rules) (take_append left behind) in
        record {
          rules = left ++ behind;
          len = length left;
          loop = loop_local ∙ rw e;
          seen = take_append left behind ∙ sym same;
          order = rw same p;
          count = omega arith;
        }

    pub group_unfit :
        rules_fit overrides (length xs) xs ≡ false
        → rules_loop overrides g h.array h.len 0 item ≡ none
    group_unfit unfit = loop_local ∙ rw (rw unfit at local-Swept)

-- The rules that the loop leaves are those that are kept, in some order.
pub swept_fit :
    (overrides : Dict Override) (xs : List Rule)
    → rules_fit overrides (length xs) xs ≡ true
    → Perm (swept_rules overrides xs) (kept overrides xs)
unfolding swept_rules
swept_fit overrides xs fit =
    let whole = rw append-nil at (
      loop-Swept overrides (length xs) [] xs [] 0 (length xs) (rw append-nil) refl (omega arith)) in
    let (left, behind, e, p, len) = rw fit at whole in
    rw (e, swept_rules) (rw (take_append left behind) p)
