-- ===== src/Server/Calls.antt =====
-- What the calls of the Mimir API do to the rule groups that the ruler holds.
use mimir_operator.Base.{
  ◌≡◌, ◌↔◌, inl, inr, sym, ap, ◌∙◌, arith, String, string_eq, List, [], ◌∷◌, Option, none, some,
}
use mimir_operator.Base.Dict.{keys}
use mimir_operator.Exec.{
  Outcome, ok, err, pure, lift, with_prefix, for_each, continue-eq-ok, with_prefix-eq-ok,
}
use mimir_operator.Client.{Response, MimirClient, do_request}
use mimir_operator.Client.Requests.{do_request_parts}
use mimir_operator.Ruler.{
  RuleGroup, RuleNamespace, RuleElement, sort_strings, rule_elements, create_rule_group,
  create_rule_group_str, list_rules, list_rules_element, delete_namespace,
}
use mimir_operator.Cluster.{Cluster}
use mimir_operator.Server.Listing.{Named, rule_elements_complete}
use mimir_operator.Server.{AfterPuts, Answered, namespace_path, Elsewhere, Server}

-- The groups of the text that is sent for a namespace.
unfoldable pub groups_in : Cluster → String → List RuleGroup
groups_in C text = elim (C.yaml.unmarshal_namespace text) [
  | ok rns ↦ rns.groups
  | err e ↦ []
  | Outcome.panic ↦ []
]

pub iff_refl {ℓ} : {A : Type ℓ} → A ↔ A
iff_refl = (λ a. a, λ a. a)

pub iff_trans {ℓ κ μ} : {A : Type ℓ} {B : Type κ} {D : Type μ} → A ↔ B → B ↔ D → A ↔ D
iff_trans f g = (λ a. g.0 (f.0 a), λ d. f.1 (g.1 d))

-- What is held after the puts depends on what was held before alone.
pub AfterPuts-iff :
    (gs : List RuleGroup) {P Q : RuleGroup → Type 0}
    → ((x : RuleGroup) → P x ↔ Q x)
    → (x : RuleGroup) → AfterPuts gs P x ↔ AfterPuts gs Q x
AfterPuts-iff [] h x = h x
AfterPuts-iff (g ∷ gs) h x =
    AfterPuts-iff gs
      (λ y. (
        λ p. elim p [ inl e ↦ inl e | inr (ne, a) ↦ inr (ne, (h y).0 a) ],
        λ q. elim q [ inl e ↦ inl e | inr (ne, a) ↦ inr (ne, (h y).1 a) ],
      ))
      x

groups_in-ok :
    (C : Cluster) (text : String) (rns : RuleNamespace)
    → C.yaml.unmarshal_namespace text ≡ ok rns
    → groups_in C text ≡ rns.groups
unfolding groups_in
groups_in-ok C text rns e = rw (e, groups_in)

module _ (C : Cluster) (r : MimirClient) where
  open C use {World, send, net, yaml}

  pub answered :
      (path method : String) (payload : Option String) (w w' : World) (resp : Response)
      → do_request net send r path method payload w ≡ (ok resp, w')
      → Answered C r path method payload w w' resp
  answered path method payload w w' resp h =
      let (req, auth, built, allowed, sent, low, high) =
        do_request_parts net send r path method payload w w' resp h in
      record { req = req; auth = auth; built = built; sent = sent; low = low; high = high }

  module _ (S : Server C r) where
    open S use {Holds}

    -- A deletion that succeeds empties its namespace and no other.
    pub delete_namespace-Holds :
        (namespace : String) (w w' : World)
        → delete_namespace net yaml send r namespace w ≡ (ok tt, w')
        → ((x : RuleGroup) → ¬ Holds w' namespace x) × Elsewhere C r Holds namespace w w'
    unfolding delete_namespace
    delete_namespace-Holds namespace w w' h =
        let path = namespace_path C r namespace in
        let (resp, w₁, ran, done) =
          continue-eq-ok (do_request net send r path "DELETE" none w) (λ _. pure tt) h in
        let same : w₁ ≡ w' = ap (λ p. p.1) done in
        S.deleted namespace w w' resp (answered path "DELETE" none w w' resp (rw same at ran))

    create_rule_group-Holds :
        (namespace : String) (g : RuleGroup) (w w' : World)
        → create_rule_group net yaml send r namespace g w ≡ (ok tt, w')
        → ((x : RuleGroup) → Holds w' namespace x ↔ AfterPuts (g ∷ []) (Holds w namespace) x)
          × Elsewhere C r Holds namespace w w'
    unfolding create_rule_group
    create_rule_group-Holds namespace g w w' h =
        let path = namespace_path C r namespace in
        let (payload, w₁, printed, h₁) = continue-eq-ok (yaml.marshal_group g, w) _ h in
        let (resp, w₂, ran, done) =
          continue-eq-ok (do_request net send r path "POST" (some payload) w₁) (λ _. pure tt) h₁ in
        let before : w₁ ≡ w = sym (ap (λ p. p.1) printed) in
        let after : w₂ ≡ w' = ap (λ p. p.1) done in
        S.posted namespace payload g w w' resp (ap (λ p. p.0) printed)
          (answered path "POST" (some payload) w w' resp (rw (before, after) at ran))

    -- The groups are put into the namespace one after the other.
    create_groups-Holds :
        (namespace : String) (gs : List RuleGroup) (w w' : World)
        → for_each (create_rule_group net yaml send r namespace) gs w ≡ (ok tt, w')
        → ((x : RuleGroup) → Holds w' namespace x ↔ AfterPuts gs (Holds w namespace) x)
          × Elsewhere C r Holds namespace w w'
    unfolding for_each
    create_groups-Holds namespace [] w w' h =
        let same : w ≡ w' = ap (λ p. p.1) h in
        (λ x. rw same iff_refl, λ other x ne. rw same iff_refl)
    create_groups-Holds namespace (g ∷ gs) w w' h =
        let (_, w₁, first, h₁) =
          continue-eq-ok (create_rule_group net yaml send r namespace g w)
            (λ _. for_each (create_rule_group net yaml send r namespace) gs) h in
        let (there, elsewhere) = create_rule_group-Holds namespace g w w₁ first in
        let (there', elsewhere') = create_groups-Holds namespace gs w₁ w' h₁ in
        (
          λ x. iff_trans (there' x) (AfterPuts-iff gs there x),
          λ other x ne. iff_trans (elsewhere' other x ne) (elsewhere other x ne),
        )

    -- A text that is sent for a namespace puts its groups there.
    pub create_rule_group_str-Holds :
        (namespace text : String) (w w' : World)
        → create_rule_group_str net yaml send r namespace text w ≡ (ok tt, w')
        → ((x : RuleGroup)
            → Holds w' namespace x ↔ AfterPuts (groups_in C text) (Holds w namespace) x)
          × Elsewhere C r Holds namespace w w'
    unfolding create_rule_group_str
    create_rule_group_str-Holds namespace text w w' h =
        let (rns, w₁, parsed, h₁) =
          continue-eq-ok
            (with_prefix "failed to unmarshal rule group" (yaml.unmarshal_namespace text, w))
            (λ rns. for_each (create_rule_group net yaml send r namespace) rns.groups) h in
        let read = with_prefix-eq-ok _ (yaml.unmarshal_namespace text, w) parsed in
        let text_of : yaml.unmarshal_namespace text ≡ ok rns = ap (λ p. p.0) read in
        let before : w ≡ w₁ = ap (λ p. p.1) read in
        rw (groups_in-ok C text rns text_of)
          (create_groups-Holds namespace rns.groups w w' (rw (← before) at h₁))

    -- The listing changes nothing, and its elements name every namespace that holds a group.
    pub list_rules_element-Holds :
        (tenant : String) (w w' : World) (rules : List RuleElement)
        → list_rules_element net yaml send r tenant w ≡ (ok rules, w')
        → (namespace : String) (x : RuleGroup)
        → (Holds w' namespace x ↔ Holds w namespace x)
          × (Holds w namespace x → Named namespace rules)
    unfolding list_rules_element list_rules
    list_rules_element-Holds tenant w w' rules h namespace x =
        let (rule_set, w₁, got, done) = continue-eq-ok (list_rules net yaml send r "" w) _ h in
        let (resp, w₂, ran, h₂) =
          continue-eq-ok (do_request net send r r.api_path "GET" none w) _ got in
        let (body, w₃, read, h₃) =
          continue-eq-ok (resp.body, w₂) (λ body. lift (yaml.unmarshal_rule_set body)) h₂ in
        let end : w₂ ≡ w' = ap (λ p. p.1) read ∙ ap (λ p. p.1) h₃ ∙ ap (λ p. p.1) done in
        let (same, known) =
          S.listed w w' resp body rule_set
            (answered r.api_path "GET" none w w' resp (rw end at ran)) (ap (λ p. p.0) read)
            (ap (λ p. p.0) h₃) namespace x in
        (
          same,
          λ held.
              let e : rule_elements rule_set (sort_strings (keys rule_set)) ≡ rules =
                ground (arith, ap (λ p. p.0) done) in
              rw (← e) (rule_elements_complete rule_set namespace x (known.0 held)),
        )
