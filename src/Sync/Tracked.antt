-- ===== src/Sync/Tracked.antt =====
-- The status lists the resources that the synchronisation selected, by their Mimir namespaces.
use mimir_operator.Base.{
  ◌≡◌, refl, sym, ap, ap₂, ◌∙◌, arith, String, ◌==◌, string_eq, Bool, true, false, ◌||◌, ◌&&◌, List,
  [], ◌∷◌, map, Option, none, some, Bool-cases, inl, inr,
}
use mimir_operator.Base.Dict.{Dict, insert, keys}
use mimir_operator.Exec.{Outcome, Outcome-cases, ok, continue-eq-ok}
use mimir_operator.Prometheus.{PrometheusRule}
use mimir_operator.Overrides.{apply_overrides}
use mimir_operator.Overrides.Names.{name_of, apply_overrides-names}
use mimir_operator.ExternalLabels.{label_rules, apply_external_labels}
use mimir_operator.Names.{namespace_key}
use mimir_operator.Selection.{mem, contains, find_prometheus_rules}
use mimir_operator.Domain.{Rules, MimirRules, MimirRulesSpec}
use mimir_operator.Client.{MimirClient}
use mimir_operator.Ruler.{insert_sorted, sort_strings}
use mimir_operator.Cluster.{Cluster}
use mimir_operator.Sync.{
  encode, or_panic, unpack_loop, unpack_rules, wanted_rules, sync_rules_to_ruler,
}
use mimir_operator.Sync.Unpacked.{key_of}
use mimir_operator.Sync.Visits.{VisitsAll}
use mimir_operator.Sync.Refs.{sync_rules_to_ruler-refs}

mem-insert_sorted :
    (a x : String) (xs : List String) → mem a (insert_sorted x xs) ≡ (x == a || mem a xs)
unfolding insert_sorted mem
mem-insert_sorted a x [] = ground arith
mem-insert_sorted a x (y ∷ ys) = let rest = mem-insert_sorted a x ys in ground arith

mem-sort_strings : (a : String) (xs : List String) → mem a (sort_strings xs) ≡ mem a xs
unfolding sort_strings mem
mem-sort_strings a [] = refl
mem-sort_strings a (x ∷ xs) =
    let rest = mem-sort_strings a xs in mem-insert_sorted a x (sort_strings xs) ∙ ground arith

mem-keys-insert :
    (a key value : String) (entries : Dict String)
    → mem a (keys (insert key value entries)) ≡ (key == a || mem a (keys entries))
unfolding insert mem
mem-keys-insert a key value [] = ground arith
mem-keys-insert a key value ((k, v) ∷ entries) =
    let rest = mem-keys-insert a key value entries in ground (arith, string_eq.same_iff k key)

unpack_loop-keys :
    (encode : PrometheusRule → Outcome String) (list : List PrometheusRule)
    (results all : Dict String) (a : String)
    → unpack_loop encode list results ≡ ok all
    → mem a (keys all) ≡ (mem a (map key_of list) || mem a (keys results))
unfolding unpack_loop mem
unpack_loop-keys encode [] results all a h = let same : results ≡ all = ground arith in rw same refl
unpack_loop-keys encode (p ∷ list) results all a h = elim (Outcome-cases (encode p)) [
  | inl (text, e) ↦
      unpack_loop-keys encode list (insert (key_of p) text results) all a (rw (e, unpack_loop) at h)
      ∙ ap (λ b. mem a (map key_of list) || b) (mem-keys-insert a (key_of p) text results)
      ∙ ground arith
  | inr (inl (x, e)) ↦ let no_result = rw (e, unpack_loop) at h in absurd (cc)
  | inr (inr e) ↦ let no_result = rw (e, unpack_loop) at h in absurd (cc)
]

apply_external_labels-names :
    (labels : Dict String) (list : List PrometheusRule)
    → map name_of (apply_external_labels labels list) ≡ map name_of list
unfolding apply_external_labels label_rules
apply_external_labels-names [] list = refl
apply_external_labels-names (l ∷ labels) [] = refl
apply_external_labels-names (l ∷ labels) (p ∷ list) =
    ap (λ names. name_of p ∷ names) (apply_external_labels-names (l ∷ labels) list)

map_key :
    (list : List PrometheusRule)
    → map key_of list ≡ map (λ (s, n). namespace_key s n) (map name_of list)
unfolding namespace_key
map_key [] = refl
map_key (p ∷ list) = ap (λ names. key_of p ∷ names) (map_key list)

keys-names :
    (list other : List PrometheusRule)
    → map name_of list ≡ map name_of other
    → map key_of list ≡ map key_of other
keys-names list other e =
    map_key list ∙ ap (map (λ (s, n). namespace_key s n)) e ∙ sym (map_key other)

or_panic-ok : {A : Type 0} (o : Option A) {a : A} → or_panic o ≡ ok a → o ≡ some a
or_panic-ok none h = absurd (cc)
or_panic-ok (some b) h = cc

or_false : (b : Bool) → (b || false) ≡ b
or_false true = refl
or_false false = refl

pub contains→mem :
    (list : List PrometheusRule) (namespace name : String)
    → contains list namespace name ≡ true
    → mem (namespace_key namespace name) (map key_of list) ≡ true
unfolding contains mem
contains→mem [] namespace name h = absurd (cc)
contains→mem (p ∷ list) namespace name h =
    elim (Bool-cases (p.name == name && p.namespace == namespace)) [
      | inl e ↦
          let n : p.name ≡ name = (string_eq.same_iff p.name name).0 (ground arith) in
          let ns : p.namespace ≡ namespace =
            (string_eq.same_iff p.namespace namespace).0 (ground arith) in
          let t =
            (string_eq.same_iff (key_of p) (namespace_key namespace name)).1
              (ap₂ namespace_key ns n) in
          rw t refl
      | inr e ↦ let rest = contains→mem list namespace name (rw e at h) in ground arith
    ]

module _ (C : Cluster) where
  -- What was selected when the rules that are wanted were computed.
  abbrev pub Selected : MimirRulesSpec → C.World → List PrometheusRule → Type 0
  Selected spec w found =
      (rules : Rules) × (w₁ : C.World) × (spec.rules ≡ some rules)
      × (find_prometheus_rules C.list_prometheus_rules rules.selectors w ≡ (ok found, w₁))

  wanted_rules-keys :
      (spec : MimirRulesSpec) (w w' : C.World) (unpacked : Dict String)
      → wanted_rules C spec w ≡ (ok unpacked, w')
      → (found : List PrometheusRule) × Selected spec w found
        × ((a : String) → mem a (keys unpacked) ≡ mem a (map key_of found))
  unfolding wanted_rules unpack_rules mem
  wanted_rules-keys spec w w' unpacked h =
      let (rules, w₁, present, h₁) = continue-eq-ok (or_panic spec.rules, w) _ h in
      let (found, w₂, selected, h₂) =
        continue-eq-ok (find_prometheus_rules C.list_prometheus_rules rules.selectors w₁) _ h₁ in
      let (changed, w₃, overridden, h₃) =
        continue-eq-ok (or_panic (apply_overrides spec.overrides found), w₂) _ h₂ in
      let labelled = apply_external_labels spec.external_labels changed in
      let same : map key_of labelled ≡ map key_of found = keys-names labelled found (
        apply_external_labels-names spec.external_labels changed
        ∙ apply_overrides-names spec.overrides found changed
            (or_panic-ok _ (ap (λ p. p.0) overridden))) in
      (
        found,
        (
          rules,
          w₂,
          or_panic-ok spec.rules (ap (λ p. p.0) present),
          ap (λ p. find_prometheus_rules C.list_prometheus_rules rules.selectors p)
                (ap (λ p. p.1) present)
              ∙ selected,
        ),
        λ a.
            unpack_loop-keys (encode C) labelled [] unpacked a (ap (λ p. p.0) h₃)
            ∙ or_false _
            ∙ ap (mem a) same,
      )

  -- Whatever order Go visits a map in: after a synchronisation that succeeds, the status lists the
  -- keys of the resources that were selected, and no others.
  pub sync_rules_to_ruler-tracks :
      (r : MimirClient) (spec : MimirRulesSpec) (mr mr' : MimirRules) (w w' : C.World)
      → VisitsAll C
      → sync_rules_to_ruler C r spec (mr, w) ≡ (ok tt, (mr', w'))
      → (found : List PrometheusRule) × Selected spec w found
        × ((a : String) → mem a mr'.status.ref_rules ≡ mem a (map key_of found))
  sync_rules_to_ruler-tracks r spec mr mr' w w' visits h =
      let (unpacked, w₁, wanted, refs) = sync_rules_to_ruler-refs C r spec mr mr' w w' visits h in
      let (found, selected, held) = wanted_rules-keys spec w w₁ unpacked wanted in
      (found, selected, λ a. ap (mem a) refs ∙ mem-sort_strings a (keys unpacked) ∙ held a)
