-- ===== src/Server/Elements.antt =====
-- The elements that the listing of the ruler is turned into.
use mimir_operator.Base.{
  ◌≡◌, ◌↔◌, ◌⊎◌, inl, inr, ap, ap₂, ◌∙◌, arith, String, List, [], ◌∷◌, ◌++◌, map, none, some, Any,
  Option-cases,
}
use mimir_operator.Base.Dict.{Dict, lookup, keys}
use mimir_operator.Exec.{ok, lift, continue-eq-ok}
use mimir_operator.Client.{Response, MimirClient, do_request}
use mimir_operator.Ruler.{
  RuleGroup, RuleElement, rule_elements, sort_strings, list_rules, list_rules_element,
}
use mimir_operator.Cluster.{Cluster}
use mimir_operator.Server.{Answered}
use mimir_operator.Server.Calls.{answered}
use mimir_operator.Server.Listing.{Among, lookup→Among, Among-sort_strings}

abbrev pub Element : RuleElement → List RuleElement → Type 0
Element e = Any (λ y. y ≡ e)

-- The rule set has a group of that name in that namespace.
abbrev pub Holds : Dict (List RuleGroup) → RuleElement → Type 0
Holds rule_set e =
    (gs : List RuleGroup) × (lookup e.namespace rule_set ≡ some gs)
    × Any (λ g. g.name ≡ e.rule_group) gs

Any-append :
    {A : Type 0} (P : A → Type 0) (xs ys : List A) → Any P (xs ++ ys) ↔ (Any P xs ⊎ Any P ys)
Any-append P [] ys = (inr, λ h. elim h [ inl b ↦ absurd b | inr t ↦ t ])
Any-append P (x ∷ xs) ys =
    let rest = Any-append P xs ys in
    (
      λ h. elim h [
        | inl p ↦ inl (inl p)
        | inr t ↦ elim (rest.0 t) [ inl a ↦ inl (inr a) | inr b ↦ inr b ]
      ],
      λ h. elim h [
        | inl (inl p) ↦ inl p
        | inl (inr a) ↦ inr (rest.1 (inl a))
        | inr b ↦ inr (rest.1 (inr b))
      ],
    )

abbrev element : String → RuleGroup → RuleElement
element namespace g = record { namespace = namespace; rule_group = g.name }

Element-map :
    (namespace : String) (gs : List RuleGroup) (e : RuleElement)
    → Element e (map (element namespace) gs)
      ↔ ((namespace ≡ e.namespace) × Any (λ g. g.name ≡ e.rule_group) gs)
Element-map namespace [] e = (λ b. absurd b, λ (_, b). b)
Element-map namespace (g ∷ gs) e =
    let rest = Element-map namespace gs e in
    (
      λ h. elim h [
        | inl same ↦ (ap (λ y. y.namespace) same, inl (ap (λ y. y.rule_group) same))
        | inr t ↦ let (same, named) = rest.0 t in (same, inr named)
      ],
      λ (same, h). elim h [
        | inl named ↦ inl (ap₂ (λ n g. record { namespace = n; rule_group = g }) same named)
        | inr t ↦ inr (rest.1 (same, t))
      ],
    )

module _ (rule_set : Dict (List RuleGroup)) (e : RuleElement) where
  Element-Holds :
      (names : List String) → Element e (rule_elements rule_set names) → Holds rule_set e
  unfolding rule_elements
  Element-Holds [] h = absurd h
  Element-Holds (k ∷ ks) h = elim (Option-cases (lookup k rule_set)) [
    | inl missing ↦ Element-Holds ks (rw missing at h)
    | inr (gs, found) ↦
        let h' = rw found at h in
        elim ((Any-append (λ y. y ≡ e) (map (element k) gs) (rule_elements rule_set ks)).0 h') [
          | inl here ↦
              let (same, named) = (Element-map k gs e).0 here in (gs, rw (← same) found, named)
          | inr there ↦ Element-Holds ks there
        ]
  ]

  Holds-Element :
      (names : List String)
      → Among e.namespace names
      → Holds rule_set e
      → Element e (rule_elements rule_set names)
  unfolding rule_elements
  Holds-Element [] among h = absurd among
  Holds-Element (k ∷ ks) (inl same) (gs, found, named) =
      let found' : lookup k rule_set ≡ some gs = rw same found in
      rw found' (
        (Any-append (λ y. y ≡ e) (map (element k) gs) _).1
          (inl ((Element-map k gs e).1 (same, named))))
  Holds-Element (k ∷ ks) (inr among) h =
      (Any-append (λ y. y ≡ e) _ (rule_elements rule_set ks)).1 (inr (Holds-Element ks among h))

  rule_elements_iff :
      Element e (rule_elements rule_set (sort_strings (keys rule_set))) ↔ Holds rule_set e
  rule_elements_iff = (
    Element-Holds (sort_strings (keys rule_set)),
    λ (gs, found, named).
        Holds-Element (sort_strings (keys rule_set))
          (Among-sort_strings e.namespace (keys rule_set) (lookup→Among e.namespace rule_set found))
          (gs, found, named),
  )

module _ (C : Cluster) (r : MimirClient) where
  open C use {World, send, net, yaml}

  -- Where `ListRulesElement` returns a list, the ruler answered its listing with a success and a
  -- rule set, and the list has an element exactly where the rule set has a group of that name in
  -- that namespace.
  pub list_rules_element_iff :
      (tenant : String) (w w' : World) (rules : List RuleElement)
      → list_rules_element net yaml send r tenant w ≡ (ok rules, w')
      → (resp : Response) × (body : String) × (rule_set : Dict (List RuleGroup)) × Answered C r
          r.api_path "GET" none w w' resp
        × (resp.body ≡ ok body)
        × (yaml.unmarshal_rule_set body ≡ ok rule_set)
        × ((e : RuleElement) → Element e rules ↔ Holds rule_set e)
  unfolding list_rules_element list_rules
  list_rules_element_iff tenant w w' rules h =
      let (rule_set, w₁, got, done) = continue-eq-ok (list_rules net yaml send r "" w) _ h in
      let (resp, w₂, ran, h₂) =
        continue-eq-ok (do_request net send r r.api_path "GET" none w) _ got in
      let (body, w₃, read, h₃) =
        continue-eq-ok (resp.body, w₂) (λ body. lift (yaml.unmarshal_rule_set body)) h₂ in
      let end : w₂ ≡ w' = ap (λ p. p.1) read ∙ ap (λ p. p.1) h₃ ∙ ap (λ p. p.1) done in
      let same : rule_elements rule_set (sort_strings (keys rule_set)) ≡ rules =
        ground (arith, ap (λ p. p.0) done) in
      (
        resp,
        body,
        rule_set,
        answered C r r.api_path "GET" none w w' resp (rw end at ran),
        ap (λ p. p.0) read,
        ap (λ p. p.0) h₃,
        λ e. rw (← same) (rule_elements_iff rule_set e),
      )
