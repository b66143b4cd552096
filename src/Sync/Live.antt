-- ===== src/Sync/Live.antt =====
-- A synchronisation and a deletion succeed where Mimir answers.
use mimir_operator.Base.{
  ◌≡◌, refl, sym, ap, ◌∙◌, String, ◌==◌, string_eq, List, [], ◌∷◌, some, All, Bool-cases, inl, inr,
}
use mimir_operator.Base.Dict.{Dict, lookup, keys}
use mimir_operator.Exec.{Exec, ok}
use mimir_operator.Exec.Succeeds.{Succeeds, Returns, Returns-bind, Succeeds-bind, for_each-Succeeds}
use mimir_operator.Domain.{MimirRules, MimirRulesSpec}
use mimir_operator.Client.{Header, MimirClient, credentials}
use mimir_operator.Ruler.{RuleElement, create_rule_group_str, delete_namespace}
use mimir_operator.Selection.{remove_duplicate}
use mimir_operator.Cluster.{Cluster}
use mimir_operator.Server.Live.{
  Live, AcceptedText, create_rule_group_str-Succeeds, delete_namespace-Succeeds,
  list_rules_element-Succeeds,
}
use mimir_operator.Sync.{
  on_world, unwanted, create_loop, wanted_rules, diff_rule_namespaces, sync_rules_to_ruler,
  delete_rules_for_tenant,
}
use mimir_operator.Sync.Keys.{Distinct}
use mimir_operator.Server.Listing.{Among, lookup→Among}
use mimir_operator.Sync.Visits.{VisitsAll}

on_world-Succeeds :
    (C : Cluster) {A : Type 0} (m : Exec C.World A) → Succeeds m → Succeeds (on_world C m)
on_world-Succeeds C m succeeds (mr, w) =
    let (a, w', e) = succeeds w in (a, (mr, w'), ap (λ p. (p.0, (mr, p.1))) e)

each : {A : Type 0} {P : A → Type 0} → ((a : A) → P a) → (xs : List A) → All P xs
each p [] = tt
each p (x ∷ xs) = (p x, each p xs)

module _ (C : Cluster) where
  open C use {World, send, net, yaml}

  module _ (r : MimirClient) (L : Live C r) where
    -- The ruler accepts each of the texts.
    abbrev pub AcceptsAll : Dict String → Type 0
    AcceptsAll entries =
        (namespace text : String)
        → lookup namespace entries ≡ some text
        → AcceptedText C r L namespace text

    AcceptsAll-head :
        (namespace text : String) (entries : Dict String)
        → AcceptsAll ((namespace, text) ∷ entries)
        → AcceptedText C r L namespace text
    unfolding lookup
    AcceptsAll-head namespace text entries accepts =
        accepts namespace text (rw ((string_eq.same_iff namespace namespace).1 refl) refl)

    AcceptsAll-tail :
        (namespace text : String) (entries : Dict String)
        → ¬ Among namespace (keys entries)
        → AcceptsAll ((namespace, text) ∷ entries)
        → AcceptsAll entries
    unfolding lookup
    AcceptsAll-tail namespace text entries new accepts other t found =
        elim (Bool-cases (namespace == other)) [
          | inl e ↦
              let same = (string_eq.same_iff namespace other).0 e in
              absurd (new (rw same (lookup→Among other entries found)))
          | inr e ↦ accepts other t (rw e found)
        ]

  module _ (r : MimirClient) (L : Live C r) (auth : List Header)
      (allowed : credentials r ≡ ok auth) where
    create_loop-Succeeds :
        (entries : Dict String)
        → Distinct (keys entries)
        → AcceptsAll r L entries
        → Succeeds (create_loop C r entries)
    unfolding create_loop
    create_loop-Succeeds [] d reads = λ s. (tt, s, refl)
    create_loop-Succeeds ((namespace, text) ∷ entries) (new, d) accepts =
        Succeeds-bind _ _
          (on_world-Succeeds C (create_rule_group_str net yaml send r namespace text) (
            create_rule_group_str-Succeeds C r L auth allowed namespace text
              (AcceptsAll-head r L namespace text entries accepts)))
          (λ _ s.
            create_loop-Succeeds entries d (AcceptsAll-tail r L namespace text entries new accepts)
              _)

    diff_rule_namespaces-Succeeds :
        (unpacked : Dict String) (tenant : String)
        → Succeeds (diff_rule_namespaces C r unpacked tenant)
    unfolding diff_rule_namespaces
    diff_rule_namespaces-Succeeds unpacked tenant =
        Succeeds-bind _ _ (list_rules_element-Succeeds C r L auth allowed tenant)
          (λ rules w. (remove_duplicate (unwanted unpacked rules), w, refl))

    -- Where the rules that are wanted can be computed, and their texts can be read back.
    pub sync_rules_to_ruler-Returns :
        (spec : MimirRulesSpec) (mr : MimirRules) (w w₁ : World) (unpacked : Dict String)
        → VisitsAll C
        → wanted_rules C spec w ≡ (ok unpacked, w₁)
        → Distinct (keys unpacked)
        → AcceptsAll r L unpacked
        → Returns (sync_rules_to_ruler C r spec) (mr, w)
    unfolding sync_rules_to_ruler
    sync_rules_to_ruler-Returns spec mr w w₁ unpacked visits wanted distinct reads =
        let entries = C.range_order w₁ unpacked in
        Returns-bind (on_world C (wanted_rules C spec)) _ (ap (λ p. (p.0, (mr, p.1))) wanted) (
          Succeeds-bind _ _
            (create_loop-Succeeds entries (visits.once w₁ unpacked distinct)
              (λ namespace text found.
                reads namespace text (sym (visits.same w₁ unpacked namespace distinct) ∙ found)))
            (λ _ s.
              Succeeds-bind _ _
                (on_world-Succeeds C _ (diff_rule_namespaces-Succeeds unpacked spec.id))
                (λ namespaces. on_world-Succeeds C _ (
                  for_each-Succeeds (delete_namespace net yaml send r) namespaces
                    (each (delete_namespace-Succeeds C r L auth allowed) namespaces)))
                _)
            _)

    pub delete_rules_for_tenant-Succeeds :
        (mr : MimirRules) → Succeeds (delete_rules_for_tenant C mr r)
    unfolding delete_rules_for_tenant
    delete_rules_for_tenant-Succeeds mr =
        Succeeds-bind _ _ (list_rules_element-Succeeds C r L auth allowed mr.spec.id) (λ rules.
          for_each-Succeeds _ rules (
            each
              (λ (rule : RuleElement). delete_namespace-Succeeds C r L auth allowed rule.namespace)
              rules))
