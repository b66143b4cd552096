-- ===== src/Reconcile/Tenant.antt =====
-- The requests that a reconciliation sends, and the tenant that they are for.
use mimir_operator.Base.{
  ◌≡◌, refl, sym, ap, ◌∙◌, arith, String, ◌<>◌, List, [], ◌∷◌, ◌++◌, map, Option, none, some,
}
use mimir_operator.Exec.{Error, Outcome, ok, err, with_prefix, continue-eq-ok, with_prefix-eq-ok}
use mimir_operator.Exec.Keeps.{Keeps, continue-Keeps}
use mimir_operator.Auth.{Auth, extract_auth}
use mimir_operator.Domain.{LabelSelector, MimirRules}
use mimir_operator.Client.{
  NetLibrary, Url, Header, basic_auth, header, Request, Config, MimirClient, ruler_api_path, new,
}
use mimir_operator.Client.Asked.{Addressed, Authenticates, by_user, by_key, by_token, by_nothing}
use mimir_operator.Cluster.{Cluster}
use mimir_operator.Server.Signed.{Signed, Signed-Asked, RulerCall}
use mimir_operator.Server.Requests.{Logged, Since, Since-same, Since-send}
use mimir_operator.Sync.{sync_rules_to_ruler}
use mimir_operator.Sync.Keeps.{sync_rules_to_ruler-Keeps, delete_rules_for_tenant-Keeps}
use mimir_operator.Controller.Keeps.{ApiKeeps, MimirKeeps, reconcile-Keeps}
use mimir_operator.Controller.Instances.{rules, rules-reconcile}
use mimir_operator.Reconcile.{
  NamespacedName, config_of, create_mimir_client, with_status, set_status, then_status,
  handle_creation_and_changes, reconcile,
}
use mimir_operator.Reconcile.Calls.{create_mimir_client-Keeps}

-- The header Authorization, once, or none.
pub data Authorization : List Header → Type 0 where
  no_authorization : Authorization []
  basic : (user key : String) → Authorization (basic_auth user key ∷ [])
  bearer : (token : String) → Authorization (header "Authorization" ("Bearer " <> token) ∷ [])

-- The request is one of the calls, it goes to the address joined with the path of the call, and
-- its headers are the authorization, if there is one, and the tenant.
pub record ForTenant (C : Cluster) (Calls : String → String → Type 0) (id url : String)
    (q : Request) : Type 0 where
  pub endpoint : Url
  pub parsed : C.net.parse url ≡ ok endpoint
  pub path : String
  pub call : Calls q.method path
  pub address : Addressed C.net endpoint path q.url
  pub auth : List Header
  pub authorization : Authorization auth
  pub headers : q.headers ≡ auth ++ (header "X-Scope-OrgID" id ∷ [])

Authenticates-Authorization :
    (r : MimirClient) (auth : List Header) → Authenticates r auth → Authorization auth
Authenticates-Authorization r auth (by_user u t) = basic r.user r.key
Authenticates-Authorization r auth (by_key u k t) = basic r.id r.key
Authenticates-Authorization r auth (by_token u k t) = bearer r.auth_token
Authenticates-Authorization r auth (by_nothing u k t) = no_authorization

new_fields :
    (U : NetLibrary) (cfg : Config) (r : MimirClient)
    → new U cfg ≡ ok r
    → (U.parse cfg.address ≡ ok r.endpoint)
      × (r.id ≡ cfg.id)
      × (r.api_path ≡ ruler_api_path)
      × (r.extra_headers ≡ [])
unfolding new
new_fields U cfg r h = ground arith

module _ (C : Cluster) where
  open C use {World}

  client_fields :
      (auth : Option Auth) (url id namespace : String) (w w' : World) (r : MimirClient)
      → create_mimir_client C auth url id namespace w ≡ (ok r, w')
      → (C.net.parse url ≡ ok r.endpoint)
        × (r.id ≡ id)
        × (r.api_path ≡ ruler_api_path)
        × (r.extra_headers ≡ [])
  unfolding create_mimir_client
  client_fields auth url id namespace w w' r h =
      let (a, w₁, extracted, h₁) =
        continue-eq-ok (with_prefix _ (extract_auth C.get_secret auth namespace w)) _ h in
      let made = with_prefix-eq-ok _ (new C.net (config_of url id a), w₁) h₁ in
      new_fields C.net (config_of url id a) r (ap (λ p. p.0) made)

  -- A request that the client of the object signs is for the tenant of the object.
  pub Signed-ForTenant :
      (Calls : String → String → Type 0) (auth : Option Auth) (url id namespace : String)
      (w w' : World) (r : MimirClient)
      → create_mimir_client C auth url id namespace w ≡ (ok r, w')
      → (q : Request) (s : Signed C r q) → Calls s.method s.path
      → ForTenant C Calls id url q
  Signed-ForTenant Calls auth url id namespace w w' r made q s call =
      let (parsed, tenant, _, extra) = client_fields auth url id namespace w w' r made in
      let a = Signed-Asked C r q s in
      record {
        endpoint = r.endpoint;
        parsed = parsed;
        path = s.path;
        call = rw (← a.asked_method) at call;
        address = a.address;
        auth = a.auth;
        authorization = Authenticates-Authorization r a.auth a.authenticates;
        headers =
            a.headers
            ∙ ap
                (λ extra.
                  a.auth
                  ++ (map (λ (k, v). header k v) extra ++ (header "X-Scope-OrgID" r.id ∷ [])))
                extra
            ∙ ap (λ id. a.auth ++ (header "X-Scope-OrgID" id ∷ [])) tenant;
      }

  -- The calls of Kubernetes send nothing to Mimir.
  pub record Quiet (L : Logged C) : Type 0 where
    pub gets :
        (namespace name : String) (w : World)
        → L.requests ((C.get_mimir_rules namespace name w).1) ≡ L.requests w
    pub updates :
        (mr : MimirRules) (w : World) → L.requests ((C.update_mimir_rules mr w).1) ≡ L.requests w
    pub statuses :
        (mr : MimirRules) (w : World)
        → L.requests ((C.update_mimir_rules_status mr w).1) ≡ L.requests w
    pub secrets :
        (namespace name : String) (w : World)
        → L.requests ((C.get_secret namespace name w).1) ≡ L.requests w
    pub lists :
        (s : LabelSelector) (w : World)
        → L.requests ((C.list_prometheus_rules s w).1) ≡ L.requests w

  module _ (L : Logged C) (Q : Quiet L) (T : Request → Type 0) (w : World) where
    abbrev P : World → Type 0
    P = Since C L T w

    set_status-P : (mr : MimirRules) (e : Option Error) → Keeps P (set_status C mr e)
    unfolding set_status
    set_status-P mr e w₁ h =
        continue-Keeps P (C.update_mimir_rules_status (with_status C mr e) w₁) _
          (Since-same C L T (Q.statuses (with_status C mr e) w₁) h) (λ _ _ h. h)

    then_status-P :
        (p : Outcome (Unit {0}) × (MimirRules × World)) → P (p.1.1) → P ((then_status C p).1)
    then_status-P (ok _, (mr, w₁)) h = set_status-P mr none w₁ h
    then_status-P (err e, (mr, w₁)) h = set_status-P mr (some e) w₁ h
    then_status-P (Outcome.panic, (mr, w₁)) h = h

    api : ApiKeeps (rules C) P
    api = record {
      gets = λ namespace name w₁. Since-same C L T (Q.gets namespace name w₁);
      updates = λ mr w₁. Since-same C L T (Q.updates mr w₁);
      statuses = set_status-P;
      clients = λ mr.
          create_mimir_client-Keeps C P (λ a b w₁. Since-same C L T (Q.secrets a b w₁)) mr.spec.auth
            mr.spec.url mr.spec.id mr.meta.namespace;
    }

    mimir :
        (mr : MimirRules) (r : MimirClient)
        → ((q : Request) (s : Signed C r q) → RulerCall C.net r.api_path s.method s.path → T q)
        → MimirKeeps (rules C) P mr r
    unfolding handle_creation_and_changes
    mimir mr r t =
        let sends =
          λ (q : Request) (s : Signed C r q) (c : RulerCall C.net r.api_path s.method s.path).
            Since-send C L T w q (t q s c) in
        (
          λ mr' w₁ h. then_status-P (sync_rules_to_ruler C r mr'.spec (mr', w₁)) (
              sync_rules_to_ruler-Keeps C P r sends (λ s w₂. Since-same C L T (Q.lists s w₂))
                mr'.spec (mr', w₁) h),
          delete_rules_for_tenant-Keeps C P r sends mr,
        )

  -- The calls of the ruler, below its path.
  abbrev pub RulesCall : String → String → Type 0
  RulesCall = RulerCall C.net "/prometheus/config/v1/rules"

  -- Where the calls of Kubernetes send nothing to Mimir: every request that `Reconcile` of an
  -- object sends, whatever is answered and whatever fails, lists the rules or posts or deletes a
  -- namespace of them, below the path of the ruler at the address of the object; its headers are
  -- those of one scheme of authentication at most, and the tenant of the object, and no other.
  pub reconcile-ForTenant :
      (L : Logged C) (Q : Quiet L) (req : NamespacedName) (w w₁ : World) (mr : MimirRules)
      → C.get_mimir_rules req.namespace req.name w ≡ (ok mr, w₁)
      → Since C L (ForTenant C RulesCall mr.spec.id mr.spec.url) w ((reconcile C req w).1)
  reconcile-ForTenant L Q req w w₁ mr got =
      let T = ForTenant C RulesCall mr.spec.id mr.spec.url in
      rw (rules-reconcile C req w) (
        reconcile-Keeps (rules C) (Since C L T w) (api L Q T w) req w
          (λ o r w₂ w₃ got' made.
            let pair = sym got ∙ got' in
            let same : mr ≡ o = cc in
            let path =
              (client_fields o.spec.auth o.spec.url o.spec.id o.meta.namespace w₂ w₃ r made).2 in
            mimir L Q T w o r (λ q s c. rw (← same) at (
              Signed-ForTenant RulesCall o.spec.auth o.spec.url o.spec.id o.meta.namespace w₂ w₃ r
                made q s (rw path at c))))
          ([], refl, tt))
