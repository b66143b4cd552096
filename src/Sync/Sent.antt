-- ===== src/Sync/Sent.antt =====
-- The requests that a synchronisation sends, whatever is answered and whatever fails.
use mimir_operator.Base.{
  ◌≡◌, ◌≢◌, ◌⊎◌, inl, inr, refl, sym, ◌∙◌, String, string_eq, List, [], ◌∷◌, none,
}
use mimir_operator.Base.Dict.{Dict, lookup, keys}
use mimir_operator.Exec.{Exec, Outcome, ok, err, pure, continue, for_each, ◌>>=◌, ◌>>◌}
use mimir_operator.Exec.Keeps.{Keeps, continue-Keeps}
use mimir_operator.Client.{Request, MimirClient}
use mimir_operator.Domain.{LabelSelector, MimirRules, MimirRulesSpec}
use mimir_operator.Ruler.{
  RuleElement, sort_strings, create_rule_group_str, list_rules_element, delete_namespace,
}
use mimir_operator.Selection.{remove_duplicate}
use mimir_operator.Selection.Unique.{remove_duplicate_once}
use mimir_operator.Cluster.{Cluster}
use mimir_operator.Server.{namespace_path}
use mimir_operator.Server.Signed.{Signed}
use mimir_operator.Server.Sends.{
  create_rule_group_str-Sends, delete_namespace-Sends, list_rules_element-Sends,
}
use mimir_operator.Server.Requests.{Logged, Since, Since-send}
use mimir_operator.Server.Listing.{Among}
use mimir_operator.Sync.{
  Sync, keep_object, set_ref_rules, on_world, unwanted, create_loop, range_loop,
  diff_rule_namespaces, wanted_rules, sync_rules_to_ruler,
}
use mimir_operator.Sync.Keys.{unwanted→none, Among→mem, mem→Among}
use mimir_operator.Sync.Keeps.{wanted_rules-Keeps}
use mimir_operator.Sync.Keys.{Distinct}
use mimir_operator.Sync.Refs.{wanted_rules-Distinct}
use mimir_operator.Sync.Visits.{VisitsAll, Among→lookup}

module _ (C : Cluster) (r : MimirClient) where
  open C use {World, send, net, yaml}

  -- The listing, a post to a wanted namespace, or the deletion of another one.
  abbrev pub Permitted : Dict String → String → String → Type 0
  Permitted unpacked method path =
      ((method ≡ "GET") × (path ≡ r.api_path))
      ⊎ ((namespace : String) × (path ≡ namespace_path C r namespace)
          × (((method ≡ "POST") × (lookup namespace unpacked ≢ none))
              ⊎ ((method ≡ "DELETE") × (lookup namespace unpacked ≡ none))))

  -- What may be sent, by the outcome of the computation of the rules that are wanted.
  abbrev pub MaySend : Outcome (Dict String) → Request → Type 0
  MaySend (ok unpacked) q = (s : Signed C r q) × Permitted unpacked s.method s.path
  MaySend (err e) q = ⊥
  MaySend Outcome.panic q = ⊥

  for_each_Among :
      (P : World → Type 0) (f : String → Exec World (Unit {0})) (xs : List String)
      → ((x : String) → Among x xs → Keeps P (f x))
      → Keeps P (for_each f xs)
  unfolding for_each
  for_each_Among P f [] each w h = h
  for_each_Among P f (x ∷ xs) each w h =
      continue-Keeps P (f x w) _ (each x (inl refl) w h)
        (λ _. for_each_Among P f xs (λ y a. each y (inr a)))

  module _ (L : Logged C) (start : World) (unpacked : Dict String) where
    abbrev P : World → Type 0
    P = Since C L (MaySend (ok unpacked)) start

    abbrev Beside : MimirRules × World → Type 0
    Beside s = P (s.1)

    kept : (q : Request) (s : Signed C r q) → Permitted unpacked s.method s.path → Keeps P (send q)
    kept q s permitted = Since-send C L (MaySend (ok unpacked)) start q (s, permitted)

    create_loop-P :
        (entries : Dict String)
        → ((namespace : String) → Among namespace (keys entries) → lookup namespace unpacked ≢ none)
        → Keeps Beside (create_loop C r entries)
    unfolding create_loop
    create_loop-P [] wanted s h = h
    create_loop-P ((namespace, text) ∷ entries) wanted s h =
        continue-Keeps Beside (on_world C (create_rule_group_str net yaml send r namespace text) s)
          _
          (create_rule_group_str-Sends C P r (Permitted unpacked) kept namespace text
            (inr (namespace, refl, inl (refl, wanted namespace (inl refl)))) (s.1) h)
          (λ _ s h. create_loop-P entries (λ n a. wanted n (inr a)) _ h)

    deletions-P :
        (rules : List RuleElement)
        → Keeps P (
            for_each
              (delete_namespace net yaml send r)
              (remove_duplicate (unwanted unpacked rules)))
    deletions-P rules =
        let names = unwanted unpacked rules in
        for_each_Among P (delete_namespace net yaml send r) (remove_duplicate names) (λ namespace a.
          let listed = mem→Among namespace names (
            sym ((remove_duplicate_once names).1 namespace)
            ∙ Among→mem namespace (remove_duplicate names) a) in
          delete_namespace-Sends C P r (Permitted unpacked) kept namespace
            (inr (namespace, refl, inr (refl, unwanted→none unpacked rules namespace listed))))

    listed_P :
        (mr : MimirRules) (p : Outcome (List RuleElement) × World)
        → P (p.1)
        → Beside (
            (continue
              (keep_object C mr
                (continue p (λ rules. pure (remove_duplicate (unwanted unpacked rules)))))
              (λ namespaces.
                on_world C (for_each (delete_namespace net yaml send r) namespaces))).1)
    listed_P mr (ok rules, w) h = deletions-P rules w h
    listed_P mr (err e, w) h = h
    listed_P mr (Outcome.panic, w) h = h

    -- The rest of a synchronisation, once the rules that are wanted are known.
    abbrev rest : MimirRulesSpec → Sync C (Unit {0})
    rest spec = do
      set_ref_rules C (λ _. [])
      range_loop C r unpacked
      set_ref_rules C sort_strings
      namespaces ← on_world C (diff_rule_namespaces C r unpacked spec.id)
      on_world C (for_each (delete_namespace net yaml send r) namespaces)

    rest_P :
        (spec : MimirRulesSpec) → VisitsAll C → Distinct (keys unpacked) → Keeps Beside (rest spec)
    unfolding diff_rule_namespaces
    rest_P spec visits distinct s h =
        continue-Keeps Beside (create_loop C r (C.range_order (s.1) unpacked) _) _
          (create_loop-P (C.range_order (s.1) unpacked)
            (λ n a e.
              Among→lookup n (C.range_order (s.1) unpacked) a
                (visits.same (s.1) unpacked n distinct ∙ e))
            _ h)
          (λ _ s h. listed_P _ (list_rules_element net yaml send r spec.id (s.1)) (
            list_rules_element-Sends C P r (Permitted unpacked) kept spec.id (inl (refl, refl))
              (s.1) h))

  wanted_Sent :
      (L : Logged C) (visits : VisitsAll C) (spec : MimirRulesSpec) (mr : MimirRules) (w : World)
      (p : Outcome (Dict String) × World)
      → ((unpacked : Dict String) (w₁ : World) → p ≡ (ok unpacked, w₁) → Distinct (keys unpacked))
      → L.requests (p.1) ≡ L.requests w
      → Since C L
          (MaySend (p.0))
          w
          ((continue (keep_object C mr p) (λ unpacked. rest L w unpacked spec)).1.1)
  wanted_Sent L visits spec mr w (ok unpacked, w₁) distinct quiet =
      rest_P L w unpacked spec visits (distinct unpacked w₁ refl) (mr, w₁) ([], quiet, tt)
  wanted_Sent L visits spec mr w (err e, w₁) distinct quiet = ([], quiet, tt)
  wanted_Sent L visits spec mr w (Outcome.panic, w₁) distinct quiet = ([], quiet, tt)

  -- Where the listings of Kubernetes send nothing to Mimir, and whatever order Go visits a map in:
  -- a synchronisation, whatever is answered and however it ends, sends requests that the client
  -- signs alone, each of them a listing of the ruler, a post to a namespace that is wanted, or the
  -- deletion of a namespace that is not; and none where the rules that are wanted cannot be
  -- computed.
  pub sync_rules_to_ruler-MaySend :
      (L : Logged C)
      → ((s : LabelSelector) (w : World)
          → L.requests ((C.list_prometheus_rules s w).1) ≡ L.requests w)
      → VisitsAll C
      → (spec : MimirRulesSpec) (mr : MimirRules) (w : World)
      → Since C L
          (MaySend ((wanted_rules C spec w).0))
          w
          ((sync_rules_to_ruler C r spec (mr, w)).1.1)
  unfolding sync_rules_to_ruler
  sync_rules_to_ruler-MaySend L quiet visits spec mr w =
      wanted_Sent L visits spec mr w (wanted_rules C spec w)
        (λ unpacked w₁. wanted_rules-Distinct C spec w w₁ unpacked)
        (wanted_rules-Keeps C (λ w'. L.requests w' ≡ L.requests w) (λ s w' h. quiet s w' ∙ h) spec w
          refl)
