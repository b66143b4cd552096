-- ===== src/Overrides/Names.antt =====
-- The resources after the overrides are those before, by namespace and name.
use mimir_operator.Base.{◌≡◌, refl, ap₂, String, List, [], ◌∷◌, map, some, Option-cases, inl, inr}
use mimir_operator.Base.Dict.{Dict}
use mimir_operator.Prometheus.{PrometheusRule}
use mimir_operator.Overrides.{Override, override_groups, override_items, apply_overrides}

-- The namespace and the name of a resource.
abbrev pub name_of : PrometheusRule → String × String
name_of p = (p.namespace, p.name)

override_items-names :
    (overrides : Dict Override) (list changed : List PrometheusRule)
    → override_items overrides list ≡ some changed
    → map name_of changed ≡ map name_of list
unfolding override_items
override_items-names overrides [] changed h = let same : [] ≡ changed = cc in rw (← same) refl
override_items-names overrides (p ∷ ps) changed h =
    elim (Option-cases (override_groups overrides p.groups)) [
      | inl e ↦ absurd (let h' = rw e at h in cc)
      | inr (xs, e) ↦ elim (Option-cases (override_items overrides ps)) [
        | inl none_left ↦ absurd (let h' = rw (e, none_left) at h in cc)
        | inr (qs, rest) ↦
            let h' = rw (e, rest) at h in
            let same : record p { groups = xs } ∷ qs ≡ changed = cc in
            rw (← same)
              (ap₂ (λ q names. q ∷ names) refl (override_items-names overrides ps qs rest))
      ]
    ]

pub apply_overrides-names :
    (overrides : Dict Override) (list changed : List PrometheusRule)
    → apply_overrides overrides list ≡ some changed
    → map name_of changed ≡ map name_of list
unfolding apply_overrides
apply_overrides-names [] list changed h = let same : list ≡ changed = cc in rw (← same) refl
apply_overrides-names (o ∷ overrides) list changed h =
    override_items-names (o ∷ overrides) list changed h
