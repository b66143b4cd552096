-- ===== src/ExternalLabels/Fallback.antt =====
-- External labels are fallback values.
use mimir_operator.Base.{
  ℕ, zero, suc, ◌≡◌, refl, sym, arith, String, ◌==◌, string_eq, List, [], ◌∷◌, map, Option, none,
  some, ◌>>=◌, if◌then◌else◌, get_elem?, Option-cases, inl, inr,
}
use mimir_operator.Base.Dict.{Dict, lookup, lookup-insert}
use mimir_operator.Prometheus.{Rule, PrometheusRule}
use mimir_operator.ExternalLabels.{
  add_label, add_labels, label_rule, label_group, label_rules, apply_external_labels,
}

-- The first value, or the second where there is none.
abbrev pub or_else : Option String → Option String → Option String
or_else none b = b
or_else (some a) b = some a

-- The value of a label of a rule.
unfoldable pub label : String → Rule → Option String
unfolding lookup
label key rule = rule.labels >>= lookup key

-- The rule at a place of the list: which resource, which group of it, which rule of that.
unfoldable pub rule_at : ℕ → ℕ → ℕ → List PrometheusRule → Option Rule
rule_at p g r list =
    get_elem? list p >>= λ x. get_elem? x.groups g >>= λ group. get_elem? group.rules r

lookup-add_label :
    (k key value : String) (m : Dict String)
    → lookup k (add_label key value m)
      ≡ or_else (lookup k m) (if key == k then some value else none)
unfolding add_label
lookup-add_label k key value m =
    ground (arith, lookup-insert key k value m, string_eq.same_iff key k)

lookup-add_labels :
    (k : String) (labels m : Dict String)
    → lookup k (add_labels labels m) ≡ or_else (lookup k m) (lookup k labels)
unfolding add_labels lookup
lookup-add_labels k [] m = ground arith
lookup-add_labels k ((key, value) ∷ labels) m =
    rw (lookup-add_labels k labels, lookup-add_label) (ground arith)

label-label_rule :
    (k : String) (labels : Dict String) (rule : Rule)
    → label k (label_rule labels rule) ≡ or_else (label k rule) (lookup k labels)
unfolding label label_rule
label-label_rule k labels rule = elim (Option-cases rule.labels) [
  | inl e ↦ rw e (lookup-add_labels k labels [])
  | inr (m, e) ↦ rw e (lookup-add_labels k labels m)
]

get_elem?-map {ℓ} :
    {A B : Type ℓ} (f : A → B) (xs : List A) (i : ℕ) {x : A}
    → get_elem? xs i ≡ some x
    → get_elem? (map f xs) i ≡ some (f x)
get_elem?-map f [] i h = cc
get_elem?-map f (y ∷ xs) zero h = cc
get_elem?-map f (y ∷ xs) (suc i) h = get_elem?-map f xs i h

>>=-eq-some {ℓ} :
    {A B : Type ℓ} (o : Option A) (f : A → Option B) {b : B}
    → (o >>= f) ≡ some b
    → (a : A) × (o ≡ some a) × (f a ≡ some b)
>>=-eq-some none f h = cc
>>=-eq-some (some a) f h = (a, refl, h)

rule_at-map :
    (labels : Dict String) (p g r : ℕ) (list : List PrometheusRule) {rule : Rule}
    → rule_at p g r list ≡ some rule
    → rule_at p g r (map (label_rules labels) list) ≡ some (label_rule labels rule)
unfolding rule_at label_rules label_group
rule_at-map labels p g r list at =
    let (x, at_x, in_x) = >>=-eq-some (get_elem? list p) _ at in
    let (group, at_group, in_group) = >>=-eq-some (get_elem? x.groups g) _ in_x in
    rw (get_elem?-map (label_rules labels) list p at_x) (
      rw (get_elem?-map (label_group labels) x.groups g at_group)
        (get_elem?-map (label_rule labels) group.rules r in_group))

or_else-none : (o : Option String) → or_else o none ≡ o
or_else-none none = refl
or_else-none (some v) = refl

-- After `applyExternalLabels` the rule at each place of the list is the one that was there, apart
-- from its labels: a label that the rule had keeps its value, and any other has the value of the
-- external label, if there is one.
pub apply_external_labels_fallback :
    (labels : Dict String) (p g r : ℕ) (list : List PrometheusRule) {rule : Rule}
    → rule_at p g r list ≡ some rule
    → (rule' : Rule) × (rule_at p g r (apply_external_labels labels list) ≡ some rule')
      × (record rule' { labels = rule.labels } ≡ rule)
      × ((k : String) → label k rule' ≡ or_else (label k rule) (lookup k labels))
unfolding apply_external_labels
apply_external_labels_fallback [] p g r list {rule} at =
    (rule, at, refl, λ k. unfold lookup in sym (or_else-none (label k rule)))
apply_external_labels_fallback (l ∷ labels) p g r list {rule} at = (
  label_rule (l ∷ labels) rule,
  rule_at-map (l ∷ labels) p g r list at,
  unfold label_rule in refl,
  λ k. label-label_rule k (l ∷ labels) rule,
)
