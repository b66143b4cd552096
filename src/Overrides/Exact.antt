-- ===== src/Overrides/Exact.antt =====
-- `applyOverrides` where overrides may disable rules: exactly when it panics, and what it leaves of
-- each resource. The rules that are left may stand in another order.
use mathlib.Core.List.{append-nil, Perm}
use mathlib.Core.List.Perm
use mathlib.Core.Bool.{false≢true}
use mimir_operator.Base.{
  ℕ, ◌-◌, ◌≡◌, ◌↔◌, refl, sym, ap, ◌∙◌, arith, Bool, true, false, List, [], ◌∷◌, map, none, some,
  if◌then◌else◌, length, All, Pointwise, Bool-cases, inl, inr,
}
use mimir_operator.Base.Dict.{Dict, lookup}
use mimir_operator.Prometheus.{Rule, RuleGroup, PrometheusRule}
use mimir_operator.Overrides.{
  Override, rules_at, load, groups_of, contents, groups_loop, override_groups, override_items,
  apply_overrides,
}
use mimir_operator.Overrides.Arrays.{map_rules}
use mimir_operator.Overrides.Disabled.{is_named, kept}
use mimir_operator.Overrides.Memory.{swept_rules, swept_fit}
use mimir_operator.Overrides.Groups.{
  any_named, group_places, groups_fit, kept_groups, rules_fit_plain, kept_plain, emptied_plain,
}
use mimir_operator.Overrides.Removed.{SweptGroups}
use mimir_operator.Overrides.Outcome.{groups_swept}

-- The overrides panic on none of the resources.
unfoldable pub all_fit : Dict Override → List PrometheusRule → Bool
unfolding groups_fit
all_fit overrides [] = true
all_fit overrides (p ∷ list) =
    let rest = all_fit overrides list in
    if groups_fit overrides (length p.groups) p.groups then rest else false

-- What the overrides leave of a resource: the groups that keep a rule or had none, in some order,
-- and of each of them the rules that are not disabled, under their overrides, in some order.
pub record ResourceLeft (overrides : Dict Override) (p q : PrometheusRule) : Type 0 where
  pub namespace : q.namespace ≡ p.namespace
  pub name : q.name ≡ p.name
  pub left : List Rule → List Rule
  pub rules : All (λ x. Perm (left x.rules) (kept overrides x.rules)) p.groups
  pub groups : Perm q.groups (map (map_rules left) (kept_groups overrides p.groups))

module _ (overrides : Dict Override) where
  load_swept :
      (xs : List RuleGroup)
      → SweptGroups overrides
          (groups_fit overrides (length xs) xs)
          []
          xs
          (groups_loop overrides (length xs) 0 (load xs))
  unfolding load groups_of
  load_swept xs = rw append-nil at (
      groups_swept overrides (length xs) 0 (rules_at xs) [] xs [] (length xs) (rw append-nil) refl
        (omega arith) (λ i j e. let same : j ≡ i = omega arith in rw (append-nil, same)) tt)

  fit→swept :
      (m : ℕ) (xs : List RuleGroup)
      → groups_fit overrides m xs ≡ true
      → All (λ x. Perm (swept_rules overrides x.rules) (kept overrides x.rules)) xs
  unfolding groups_fit
  fit→swept m [] fit = tt
  fit→swept m (x ∷ xs) fit = (
    swept_fit overrides x.rules (ground arith),
    fit→swept (m - group_places overrides x) xs (ground arith),
  )

  -- The outcome for one resource.
  override_groups_fit :
      (p : PrometheusRule)
      → groups_fit overrides (length p.groups) p.groups ≡ true
      → (left : List RuleGroup) × (override_groups overrides p.groups ≡ some left)
        × ResourceLeft overrides p (record p { groups = left })
  unfolding override_groups load
  override_groups_fit p fit =
      let (item, e, perm) = rw fit at (load_swept p.groups) in
      (
        contents item,
        rw e,
        record {
          namespace = refl;
          name = refl;
          left = swept_rules overrides;
          rules = fit→swept (length p.groups) p.groups fit;
          groups = perm;
        },
      )

  override_groups_unfit :
      (xs : List RuleGroup)
      → groups_fit overrides (length xs) xs ≡ false
      → override_groups overrides xs ≡ none
  unfolding override_groups load
  override_groups_unfit xs unfit = rw (rw unfit at (load_swept xs))

  override_items_fit :
      (list : List PrometheusRule)
      → all_fit overrides list ≡ true
      → (left : List PrometheusRule) × (override_items overrides list ≡ some left)
        × Pointwise (ResourceLeft overrides) list left
  unfolding override_items all_fit
  override_items_fit [] fit = ([], refl, tt)
  override_items_fit (p ∷ list) fit =
      let (xs, e, here) = override_groups_fit p (ground arith) in
      let (qs, e', rest) = override_items_fit list (ground arith) in
      (record p { groups = xs } ∷ qs, rw (e, e'), (here, rest))

  override_items_unfit :
      (list : List PrometheusRule)
      → all_fit overrides list ≡ false
      → override_items overrides list ≡ none
  unfolding override_items all_fit
  override_items_unfit [] unfit = cc
  override_items_unfit (p ∷ list) unfit =
      elim (Bool-cases (groups_fit overrides (length p.groups) p.groups)) [
        | inr out ↦ rw (override_groups_unfit p.groups out)
        | inl here ↦
            let (xs, e, _) = override_groups_fit p here in
            rw (e, override_items_unfit list (ground arith))
      ]

-- No override names a rule where there are none.
none_named : (xs : List Rule) → any_named [] xs ≡ false
unfolding any_named is_named lookup
none_named [] = refl
none_named (x ∷ xs) = none_named xs

groups_fit_nil : (m : ℕ) (xs : List RuleGroup) → groups_fit [] m xs ≡ true
unfolding groups_fit
groups_fit_nil m [] = refl
groups_fit_nil m (x ∷ xs) =
    rw (none_named x.rules, rules_fit_plain [] (length x.rules) x.rules (none_named x.rules))
      (groups_fit_nil (m - group_places [] x) xs)

kept_groups_nil : (xs : List RuleGroup) → kept_groups [] xs ≡ xs
unfolding kept_groups
kept_groups_nil [] = refl
kept_groups_nil (x ∷ xs) =
    rw (emptied_plain [] x (none_named x.rules)) (ap (◌∷◌ x) (kept_groups_nil xs))

kept_nil : (xs : List RuleGroup) → All (λ x. Perm x.rules (kept [] x.rules)) xs
kept_nil [] = tt
kept_nil (x ∷ xs) =
    (rw (kept_plain [] x.rules (none_named x.rules)) (Perm.refl x.rules), kept_nil xs)

map_rules_id : (xs : List RuleGroup) → map (map_rules (λ rules. rules)) xs ≡ xs
map_rules_id [] = refl
map_rules_id (x ∷ xs) = ap (◌∷◌ x) (map_rules_id xs)

all_left_nil : (list : List PrometheusRule) → Pointwise (ResourceLeft []) list list
all_left_nil [] = tt
all_left_nil (p ∷ list) = (
  record {
    namespace = refl;
    name = refl;
    left = λ rules. rules;
    rules = kept_nil p.groups;
    groups = rw (kept_groups_nil p.groups, map_rules_id p.groups) (Perm.refl p.groups);
  },
  all_left_nil list,
)

all_fit_nil : (list : List PrometheusRule) → all_fit [] list ≡ true
unfolding all_fit
all_fit_nil [] = refl
all_fit_nil (p ∷ list) = rw (groups_fit_nil (length p.groups) p.groups) (all_fit_nil list)

-- Where every rule that an override names finds a place left, and so does every group of such a
-- rule, `applyOverrides` does not panic and leaves the same resources in their order: of each the
-- groups that keep a rule or had none, in some order, and of these groups the rules that are not
-- disabled, under their overrides, in some order.
pub apply_overrides_left :
    (overrides : Dict Override) (list : List PrometheusRule)
    → all_fit overrides list ≡ true
    → (left : List PrometheusRule) × (apply_overrides overrides list ≡ some left)
      × Pointwise (ResourceLeft overrides) list left
unfolding apply_overrides
apply_overrides_left [] list fit = (list, refl, all_left_nil list)
apply_overrides_left (o ∷ overrides) list fit = override_items_fit (o ∷ overrides) list fit

apply_overrides_unfit :
    (overrides : Dict Override) (list : List PrometheusRule)
    → all_fit overrides list ≡ false
    → apply_overrides overrides list ≡ none
unfolding apply_overrides
apply_overrides_unfit [] list unfit = absurd (false≢true (sym unfit ∙ all_fit_nil list))
apply_overrides_unfit (o ∷ overrides) list unfit = override_items_unfit (o ∷ overrides) list unfit

-- `applyOverrides` panics exactly where a rule that an override names, or a group with such a rule,
-- finds no place left: each rule uses up one place of its group and a disabled rule two, and each
-- group one place of its resource and a group that loses all its rules two.
pub apply_overrides_panics :
    (overrides : Dict Override) (list : List PrometheusRule)
    → (apply_overrides overrides list ≡ none) ↔ (all_fit overrides list ≡ false)
apply_overrides_panics overrides list = (
  λ e. elim (Bool-cases (all_fit overrides list)) [
    | inr unfit ↦ unfit
    | inl fit ↦ let (left, ok, _) = apply_overrides_left overrides list fit in cc
  ],
  apply_overrides_unfit overrides list,
)
