-- ===== src/Sync/Keys.antt =====
-- The names of namespaces that a synchronisation goes through: the keys of the map of texts, and
-- the namespaces that are not among them.
use mimir_operator.Base.{
  ◌≡◌, ◌⊎◌, inl, inr, sym, arith, String, string_eq, ◌==◌, List, [], ◌∷◌, none, true, Bool-cases,
  Option-cases,
}
use mimir_operator.Base.Dict.{Dict, lookup, insert, keys}
use mimir_operator.Exec.{Outcome, Outcome-cases, ok}
use mimir_operator.Prometheus.{PrometheusRule}
use mimir_operator.Names.{namespace_key}
use mimir_operator.Selection.{mem}
use mimir_operator.Ruler.{RuleElement}
use mimir_operator.Server.Listing.{Named, Among}
use mimir_operator.Sync.{unwanted, unpack_loop}

abbrev pub Distinct : List String → Type 0
Distinct [] = Unit
Distinct (x ∷ xs) = ¬ Among x xs × Distinct xs

pub unwanted-Named :
    (rule_map : Dict String) (rules : List RuleElement) (namespace : String)
    → Named namespace rules
    → lookup namespace rule_map ≡ none
    → Among namespace (unwanted rule_map rules)
unfolding unwanted
unwanted-Named rule_map [] namespace h out = absurd h
unwanted-Named rule_map (rule ∷ rules) namespace (inl e) out =
    let out' : lookup rule.namespace rule_map ≡ none = rw e out in rw (out', Among) (inl e)
unwanted-Named rule_map (rule ∷ rules) namespace (inr h) out =
    let rest = unwanted-Named rule_map rules namespace h out in
    elim (Option-cases (lookup rule.namespace rule_map)) [
      | inl e ↦ rw (e, Among) (inr rest)
      | inr (text, e) ↦ rw (e, Among) rest
    ]

pub unwanted→none :
    (rule_map : Dict String) (rules : List RuleElement) (namespace : String)
    → Among namespace (unwanted rule_map rules)
    → lookup namespace rule_map ≡ none
unfolding unwanted
unwanted→none rule_map [] namespace h = absurd h
unwanted→none rule_map (rule ∷ rules) namespace h =
    elim (Option-cases (lookup rule.namespace rule_map)) [
      | inl e ↦ elim (rw (e, Among) at h) [
        | inl same ↦ rw (← same) e
        | inr rest ↦ unwanted→none rule_map rules namespace rest
      ]
      | inr (text, e) ↦ unwanted→none rule_map rules namespace (rw (e, Among) at h)
    ]

-- The keys of a map stay distinct under an insertion.
Among-insert :
    (name key value : String) (entries : Dict String)
    → Among name (keys (insert key value entries))
    → (key ≡ name) ⊎ Among name (keys entries)
unfolding insert
Among-insert name key value [] h = elim h [ inl e ↦ inl e | inr t ↦ absurd t ]
Among-insert name key value ((k, v) ∷ entries) h = elim (Bool-cases (k == key)) [
  | inl e ↦ inr (rw e at h)
  | inr e ↦ elim (rw e at h) [
    | inl same ↦ inr (inl same)
    | inr rest ↦ elim (Among-insert name key value entries rest) [
      | inl a ↦ inl a
      | inr b ↦ inr (inr b)
    ]
  ]
]

Distinct-insert :
    (key value : String) (entries : Dict String)
    → Distinct (keys entries)
    → Distinct (keys (insert key value entries))
unfolding insert
Distinct-insert key value [] d = (λ h. h, tt)
Distinct-insert key value ((k, v) ∷ entries) (new, d) = elim (Bool-cases (k == key)) [
  | inl e ↦ rw e (new, d)
  | inr e ↦ rw e (
    λ h. elim (Among-insert k key value entries h) [
      | inl same ↦ let t = (string_eq.same_iff k key).1 (sym same) in absurd (cc)
      | inr old ↦ new old
    ],
    Distinct-insert key value entries d,
  )
]

pub unpack_loop-Distinct :
    (encode : PrometheusRule → Outcome String) (list : List PrometheusRule)
    (results unpacked : Dict String)
    → Distinct (keys results)
    → unpack_loop encode list results ≡ ok unpacked
    → Distinct (keys unpacked)
unfolding unpack_loop
unpack_loop-Distinct encode [] results unpacked d h =
    let same : results ≡ unpacked = ground arith in rw (← same) d
unpack_loop-Distinct encode (rule ∷ list) results unpacked d h =
    elim (Outcome-cases (encode rule)) [
      | inl (text, e) ↦
          unpack_loop-Distinct encode list
            (insert (namespace_key rule.namespace rule.name) text results) unpacked
            (Distinct-insert (namespace_key rule.namespace rule.name) text results d)
            (rw (e, unpack_loop) at h)
      | inr (inl (x, e)) ↦ let no_result = rw (e, unpack_loop) at h in absurd (cc)
      | inr (inr e) ↦ let no_result = rw (e, unpack_loop) at h in absurd (cc)
    ]

pub Among→mem : (a : String) (xs : List String) → Among a xs → mem a xs ≡ true
unfolding mem
Among→mem a [] h = absurd h
Among→mem a (x ∷ xs) (inl e) = rw ((string_eq.same_iff x a).1 e)
Among→mem a (x ∷ xs) (inr h) = let rest = Among→mem a xs h in ground arith

pub mem→Among : (a : String) (xs : List String) → mem a xs ≡ true → Among a xs
unfolding mem
mem→Among a [] h = absurd (cc)
mem→Among a (x ∷ xs) h = elim (Bool-cases (x == a)) [
  | inl e ↦ inl ((string_eq.same_iff x a).0 e)
  | inr e ↦ inr (mem→Among a xs (rw e at h))
]
