-- ===== src/Overrides/Panics.antt =====
-- The resources on which `applyOverrides` panics: a group of which every rule is disabled.
use mimir_operator.Base.{
  ℕ, zero, suc, ◌+◌, ◌*◌, ◌-◌, ◌≤◌, ◌≡◌, inl, inr, arith, true, false, List, [], ◌∷◌, none, length,
  All, Any,
}
use mimir_operator.Base.Dict.{Dict}
use mimir_operator.Prometheus.{Rule, RuleGroup, PrometheusRule}
use mimir_operator.Overrides.{Override, apply_overrides}
use mimir_operator.Overrides.Patch.{is_disabled}
use mimir_operator.Overrides.Disabled.{is_named, places, rules_fit}
use mimir_operator.Overrides.Groups.{group_places, groups_fit}
use mimir_operator.Overrides.Exact.{all_fit, apply_overrides_panics}

module _ (overrides : Dict Override) where
  -- A group of two rules or more, with an override that disables each of them.
  pub record AllDisabled (x : RuleGroup) : Type 0 where
    pub several : 2 ≤ length x.rules
    pub disabled : All (λ rule. is_disabled overrides rule ≡ true) x.rules

  disabled→named : (x : Rule) → is_disabled overrides x ≡ true → is_named overrides x ≡ true
  unfolding is_disabled is_named
  disabled→named x h = ground arith

  -- Each disabled rule uses up two places, and the last of them finds none.
  disabled_unfit :
      (m : ℕ) (xs : List Rule)
      → m + 2 ≤ 2 * length xs
      → All (λ rule. is_disabled overrides rule ≡ true) xs
      → rules_fit overrides m xs ≡ false
  unfolding rules_fit places
  disabled_unfit m [] le all = absurd (omega arith)
  disabled_unfit zero (x ∷ xs) le (here, all) = rw (disabled→named x here)
  disabled_unfit (suc zero) (x ∷ xs) le (here, all) =
      rw (disabled→named x here, here) (disabled_unfit 0 xs (omega arith) all)
  disabled_unfit (suc (suc m)) (x ∷ xs) le (here, all) =
      let next = disabled_unfit m xs (omega arith) all in
      let z : suc (suc m) - 2 ≡ m = omega arith in
      rw (disabled→named x here, here) (rw z (ground (arith, next)))

  groups_unfit :
      (m : ℕ) (xs : List RuleGroup) → Any AllDisabled xs → groups_fit overrides m xs ≡ false
  unfolding groups_fit
  groups_unfit m [] h = absurd h
  groups_unfit m (x ∷ xs) (inl here) =
      let unfit =
        disabled_unfit (length x.rules) x.rules (omega (arith, here.several)) here.disabled in
      ground arith
  groups_unfit m (x ∷ xs) (inr there) =
      let rest = groups_unfit (m - group_places overrides x) xs there in ground arith

  all_unfit :
      (list : List PrometheusRule)
      → Any (λ p. Any AllDisabled p.groups) list
      → all_fit overrides list ≡ false
  unfolding all_fit
  all_unfit [] h = absurd h
  all_unfit (p ∷ list) (inl here) = rw (groups_unfit (length p.groups) p.groups here)
  all_unfit (p ∷ list) (inr there) = let rest = all_unfit list there in ground arith

-- Where the overrides disable every rule of a group of two rules or more, `applyOverrides` panics,
-- whatever else the resources and the overrides hold.
pub AllDisabled-panics :
    (overrides : Dict Override) (list : List PrometheusRule)
    → Any (λ p. Any (AllDisabled overrides) p.groups) list
    → apply_overrides overrides list ≡ none
AllDisabled-panics overrides list h =
    (apply_overrides_panics overrides list).1 (all_unfit overrides list h)
