-- ===== src/Tests/RulerLaws.antt =====
-- The ruler with two namespaces obeys the laws of `Server`.
use text.Mathlib.TextLemmas.{append_cancel_left, nil-append}
use mimir_operator.Base.{
  ◌≤◌, ◌≡◌, ◌≢◌, ◌↔◌, inl, inr, refl, sym, ap, ap₂, ◌∙◌, arith, String, ◌<>◌, ◌==◌, string_eq, Bool,
  true, false, not, ◌&&◌, ◌||◌, [], ◌∷◌, Option, none, some, Bool-cases,
}
use mimir_operator.Exec.{Outcome, ok, err}
use mimir_operator.Client.{
  Request, Response, ruler_api_path, build_request, join_path, trim_slash, with_headers,
}
use mimir_operator.Ruler.{RuleGroup}
use mimir_operator.Server.{AfterPuts, Answered, Server}
use mimir_operator.Tests.TwoNamespaces.{
  Flags, up, path, net, held, listing, print, read, print_group, refusal, send, cluster, client,
  Holds,
}
use mimir_operator.Tests.RulerListing.{ne_false, listed_Holds}

path_cancel : (a b : String) → path a ≡ path b → a ≡ b
path_cancel a b e =
    append_cancel_left "/" a b (append_cancel_left ruler_api_path ("/" <> a) ("/" <> b) e)

path_same : (a b : String) → (path a == path b) ≡ (a == b)
path_same a b = elim (Bool-cases (a == b)) [
  | inl e ↦
      let same = (string_eq.same_iff a b).0 e in
      (string_eq.same_iff (path a) (path b)).1 (ap path same) ∙ sym e
  | inr e ↦ elim (Bool-cases (path a == path b)) [
    | inl t ↦
        let same = path_cancel a b ((string_eq.same_iff (path a) (path b)).0 t) in
        let u = (string_eq.same_iff a b).1 same in absurd (cc)
    | inr t ↦ t ∙ sym e
  ]
]

print_read : (w : Flags) → read (print w) ≡ w
unfolding print read
print_read (true, true) = refl
print_read (true, false) = refl
print_read (false, true) = refl
print_read (false, false) = refl

print_group_ok : (g : RuleGroup) (text : String) → print_group g ≡ ok text → g ≡ up
unfolding print_group
print_group_ok g text h = elim (Bool-cases (g.name == "a")) [
  | inl n ↦ elim (Bool-cases (g.definition == "up")) [
    | inl d ↦
        let name = (string_eq.same_iff g.name "a").0 n in
        let definition = (string_eq.same_iff g.definition "up").0 d in
        ap₂ (λ n d. record { name = n; definition = d }) name definition
    | inr d ↦ absurd (let h' = rw (n, d) at h in cc)
  ]
  | inr n ↦ absurd (let h' = rw n at h in cc)
]

pub outcome_same : {A : Type 0} {a b : A} → ok a ≡ ok b → a ≡ b
outcome_same h = cc

-- What is built for a path, a method and a payload.
pub built_fields :
    (path method : String) (payload : Option String) (req : Request)
    → build_request net path method client.endpoint payload ≡ ok req
    → (req.method ≡ method) × (req.url ≡ path) × (req.body ≡ payload)
unfolding build_request join_path trim_slash
built_fields path method payload req built =
    let request : Request = record { method = method; url = path; headers = []; body = payload } in
    let same : request ≡ req =
      ap (λ p. record { method = method; url = p; headers = []; body = payload })
        (sym (nil-append path))
      ∙ outcome_same built in
    (ap (λ q. q.method) (sym same), ap (λ q. q.url) (sym same), ap (λ q. q.body) (sym same))

-- A request that was answered is the one of its path.
sent_to :
    (path method : String) (payload : Option String) (w w' : Flags) (resp : Response)
    → Answered cluster client path method payload w w' resp
    → (req : Request) × (req.method ≡ method) × (req.url ≡ path) × (send req w ≡ (ok resp, w'))
sent_to path method payload w w' resp a =
    let (m, u, _) = built_fields path method payload a.req a.built in
    (with_headers net send client a.req a.auth, m, u, a.sent)

and_false : (b : Bool) → (b && false) ≡ false
and_false true = refl
and_false false = refl

and_or : (n a b : Bool) → ((n && a) || (n && b)) ≡ (n && (a || b))
and_or true a b = refl
and_or false a b = refl

deleted_flag :
    (namespace other name : String) (flag : Bool)
    → (other == name && (not (namespace == name) && flag))
      ≡ (not (namespace == other) && (other == name && flag))
deleted_flag namespace other name flag = elim (Bool-cases (other == name)) [
  | inl e ↦
      let same = (string_eq.same_iff other name).0 e in
      rw e (ap (λ s. not (namespace == s) && flag) (sym same))
  | inr e ↦ rw e (sym (and_false (not (namespace == other))))
]

-- The answer to a deletion leaves the other namespaces alone.
deleted_held :
    (w w' : Flags) (namespace : String)
    → (
      not (path namespace == path "old") && w.0,
      not (path namespace == path "tempo_alerts") && w.1,
    )
      ≡ w'
    → (other : String) → held w' other ≡ (not (namespace == other) && held w other)
unfolding held
deleted_held w w' namespace e other = rw (← e) (
    ap₂ (λ a b. (other == "old" && (not a && w.0)) || (other == "tempo_alerts" && (not b && w.1)))
      (path_same namespace "old") (path_same namespace "tempo_alerts")
    ∙ ap₂ (λ a b. a || b) (deleted_flag namespace other "old" (w.0))
        (deleted_flag namespace other "tempo_alerts" (w.1))
    ∙ and_or (not (namespace == other)) (other == "old" && w.0) (other == "tempo_alerts" && w.1))

-- A post is answered with a success where it is one to `tempo_alerts`.
posted_held :
    (w w' : Flags) (req : Request) (resp : Response)
    → req.method ≡ "POST"
    → resp.status_code ≤ 299
    → send req w ≡ (ok resp, w')
    → (req.url ≡ path "tempo_alerts") × (w' ≡ (w.0, true))
unfolding send
posted_held (old, new) w' req resp m low h = elim (Bool-cases (req.url == path "tempo_alerts")) [
  | inl e ↦ (
    (string_eq.same_iff req.url (path "tempo_alerts")).0 e,
    let h' = rw (m, e) at h in sym (ap (λ p. p.1) h'),
  )
  | inr e ↦ absurd (
      let h' = rw (m, e) at h in
      let refused : refusal ≡ resp = outcome_same (ap (λ p. p.0) h') in
      let low' : 500 ≤ 299 = rw (ap (λ a. a.status_code) refused) low in omega arith)
]

same_held :
    (w w' : Flags) (namespace : String) (x : RuleGroup)
    → held w' namespace ≡ held w namespace
    → Holds w' namespace x ↔ Holds w namespace x
same_held w w' namespace x s = (λ (h, e). (sym s ∙ h, e), λ (h, e). (s ∙ h, e))

held_new :
    (w w' : Flags) (namespace : String) (g : RuleGroup)
    → w' ≡ (w.0, true)
    → namespace ≡ "tempo_alerts"
    → g ≡ up
    → (x : RuleGroup) → Holds w' namespace x ↔ AfterPuts (g ∷ []) (Holds w namespace) x
unfolding held
held_new w w' namespace g after here e x = (
  λ (_, same). inl (same ∙ sym e),
  λ p. elim p [
    | inl same ↦ (rw (after, here) refl, same ∙ e)
    | inr (ne, (_, same)) ↦ absurd (ne (ap (λ g. g.name) (same ∙ sym e)))
  ],
)

kept_new :
    (w w' : Flags) (namespace other : String)
    → w' ≡ (w.0, true)
    → namespace ≡ "tempo_alerts"
    → other ≢ namespace
    → held w' other ≡ held w other
unfolding held
kept_new w w' namespace other after here ne =
    let out = ne_false other "tempo_alerts" (λ s. ne (s ∙ sym here)) in rw (after, out) refl

pub server : Server cluster client
unfolding send
server = record {
  Holds = Holds;
  posted = λ namespace payload g w w' resp e a.
      let (req, method, url, sent) = sent_to (path namespace) "POST" (some payload) w w' resp a in
      let (there, after) = posted_held w w' req resp method a.high sent in
      let g_up = print_group_ok g payload e in
      let here : namespace ≡ "tempo_alerts" =
        path_cancel namespace "tempo_alerts" (sym url ∙ there) in
      (
        λ x. held_new w w' namespace g after here g_up x,
        λ other x ne. same_held w w' other x (kept_new w w' namespace other after here ne),
      );
  deleted = λ namespace w w' resp a.
      let (req, method, url, sent) = sent_to (path namespace) "DELETE" none w w' resp a in
      let next : _ ≡ w' = ap (λ p. p.1) (rw (method, url) at sent) in
      let after = deleted_held w w' namespace next in
      (
        λ x (h, _).
            let same = (string_eq.same_iff namespace namespace).1 refl in
            let gone : held w' namespace ≡ false = rw same at (after namespace) in absurd (cc),
        λ other x ne.
            let kept : held w' other ≡ held w other =
              rw (ne_false namespace other (λ s. ne (sym s))) at (after other) in
            same_held w w' other x kept,
      );
  listed = λ w w' resp body rule_set a e f namespace x.
      let (req, method, url, sent) = sent_to ruler_api_path "GET" none w w' resp a in
      let sent' = rw method at sent in
      let same : w ≡ w' = ap (λ p. p.1) sent' in
      let shown : print w ≡ body = outcome_same (
        ap (λ p. elim (p.0) [ ok a ↦ a.body | err e ↦ err e | Outcome.panic ↦ Outcome.panic ]) sent'
        ∙ e) in
      let set : listing w ≡ rule_set =
        ap listing (sym (print_read w)) ∙ ap (λ s. listing (read s)) shown ∙ outcome_same f in
      (
        same_held w w' namespace x (ap (λ w. held w namespace) (sym same)),
        rw set at (listed_Holds w namespace x),
      );
}

pub nothing_held : (namespace : String) (x : RuleGroup) → ¬ server.Holds (false, false) namespace x
unfolding server held
nothing_held namespace x (held, same) = ground arith
