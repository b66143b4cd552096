-- ===== src/Server/Listing.antt =====
-- The elements that `ListRulesElement` makes of a rule set name each namespace with a group.
use Prim.Native.Nat.{Ordering}
use Prim.Native.String.{compare}
use mimir_operator.Base.{
  ◌≡◌, ◌⊎◌, inl, inr, String, string_eq, ◌==◌, List, [], ◌∷◌, ◌++◌, map, some, Bool-cases,
}
use mimir_operator.Base.Dict.{Dict, lookup, keys}
use mimir_operator.Ruler.{RuleGroup, RuleElement, insert_sorted, sort_strings, rule_elements}
use mimir_operator.Server.{In, Lists}

-- Some element stands in the namespace.
abbrev pub Named : String → List RuleElement → Type 0
Named namespace [] = ⊥
Named namespace (rule ∷ rules) = (rule.namespace ≡ namespace) ⊎ Named namespace rules

abbrev pub Among : String → List String → Type 0
Among name [] = ⊥
Among name (x ∷ xs) = (x ≡ name) ⊎ Among name xs

pub lookup→Among {ℓ} :
    {V : Type ℓ} (name : String) (entries : Dict V) {value : V}
    → lookup name entries ≡ some value
    → Among name (keys entries)
unfolding lookup
lookup→Among name [] h = absurd (cc)
lookup→Among name ((k, v) ∷ entries) h = elim (Bool-cases (k == name)) [
  | inl e ↦ inl ((string_eq.same_iff k name).0 e)
  | inr e ↦ inr (lookup→Among name entries (rw e at h))
]

Among-insert_sorted :
    (name x : String) (ys : List String) → Among name (x ∷ ys) → Among name (insert_sorted x ys)
unfolding insert_sorted
Among-insert_sorted name x [] h = h
Among-insert_sorted name x (y ∷ ys) h = split (compare x y) (Among-insert_sorted name x ys) h
  where
    split :
        (o : Ordering)
        → (Among name (x ∷ ys) → Among name (insert_sorted x ys))
        → Among name (x ∷ y ∷ ys)
        → Among name (elim o [ Ordering.gt ↦ y ∷ insert_sorted x ys | _ ↦ x ∷ y ∷ ys ])
    split Ordering.gt rec (inl e) = inr (rec (inl e))
    split Ordering.gt rec (inr (inl e)) = inl e
    split Ordering.gt rec (inr (inr t)) = inr (rec (inr t))
    split Ordering.lt rec h = h
    split Ordering.eq rec h = h

pub Among-sort_strings :
    (name : String) (xs : List String) → Among name xs → Among name (sort_strings xs)
unfolding sort_strings
Among-sort_strings name [] h = h
Among-sort_strings name (x ∷ xs) (inl e) = Among-insert_sorted name x (sort_strings xs) (inl e)
Among-sort_strings name (x ∷ xs) (inr h) =
    Among-insert_sorted name x (sort_strings xs) (inr (Among-sort_strings name xs h))

Named-left :
    (namespace : String) (xs ys : List RuleElement)
    → Named namespace xs
    → Named namespace (xs ++ ys)
Named-left namespace [] ys h = absurd h
Named-left namespace (x ∷ xs) ys (inl e) = inl e
Named-left namespace (x ∷ xs) ys (inr h) = inr (Named-left namespace xs ys h)

Named-right :
    (namespace : String) (xs ys : List RuleElement)
    → Named namespace ys
    → Named namespace (xs ++ ys)
Named-right namespace [] ys h = h
Named-right namespace (x ∷ xs) ys h = inr (Named-right namespace xs ys h)

Named-groups :
    (k namespace : String) (x : RuleGroup) (gs : List RuleGroup)
    → k ≡ namespace
    → In x gs
    → Named namespace (map (λ rg. record { namespace = k; rule_group = rg.name }) gs)
Named-groups k namespace x [] e h = absurd h
Named-groups k namespace x (g ∷ gs) e h = inl e

rule_elements-Named :
    (rule_set : Dict (List RuleGroup)) (ns_keys : List String) (namespace : String) (x : RuleGroup)
    → Among namespace ns_keys
    → Lists rule_set namespace x
    → Named namespace (rule_elements rule_set ns_keys)
unfolding rule_elements
rule_elements-Named rule_set [] namespace x h l = absurd h
rule_elements-Named rule_set (k ∷ ks) namespace x (inl e) (gs, found, held) =
    let found' : lookup k rule_set ≡ some gs = rw e found in
    rw found' (
      Named-left namespace (map (λ rg. record { namespace = k; rule_group = rg.name }) gs) _
        (Named-groups k namespace x gs e held))
rule_elements-Named rule_set (k ∷ ks) namespace x (inr h) l =
    Named-right namespace _ _ (rule_elements-Named rule_set ks namespace x h l)

pub rule_elements_complete :
    (rule_set : Dict (List RuleGroup)) (namespace : String) (x : RuleGroup)
    → Lists rule_set namespace x
    → Named namespace (rule_elements rule_set (sort_strings (keys rule_set)))
rule_elements_complete rule_set namespace x (gs, found, held) =
    rule_elements-Named rule_set (sort_strings (keys rule_set)) namespace x
      (Among-sort_strings namespace (keys rule_set) (lookup→Among namespace rule_set found))
      (gs, found, held)
