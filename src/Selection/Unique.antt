-- ===== src/Selection/Unique.antt =====
-- The selected resources, and the result of `RemoveDuplicate`, hold nothing twice and lose nothing.
use mimir_operator.Base.{
  String, ◌≡◌, refl, sym, ◌∙◌, arith, string_eq, Bool, false, ◌||◌, List, [], ◌∷◌, ◌++◌,
  if◌then◌else◌, Bool-cases, inl, inr,
}
use mimir_operator.Exec.{Exec, ok}
use mimir_operator.Prometheus.{PrometheusRule}
use mimir_operator.Selection.{
  is_rule_in_slice, concatenate, contains, find_loop, find_prometheus_rules, mem,
  remove_duplicate_loop, remove_duplicate,
}

-- No string stands twice in the list.
abbrev pub Nodup : List String → Type 0
Nodup [] = Unit
Nodup (x ∷ xs) = (mem x xs ≡ false) × Nodup xs

mem-append : (a : String) (xs ys : List String) → mem a (xs ++ ys) ≡ (mem a xs || mem a ys)
unfolding mem
mem-append a [] ys = refl
mem-append a (x ∷ xs) ys = ground (arith, mem-append a xs ys)

Nodup-append_one :
    (x : String) (xs : List String) → Nodup xs → mem x xs ≡ false → Nodup (xs ++ x ∷ [])
unfolding mem
Nodup-append_one x [] d n = (refl, tt)
Nodup-append_one x (y ∷ xs) (fresh, d) n = (
  rw mem-append (ground (arith, string_eq.same_iff y x, string_eq.same_iff x y)),
  Nodup-append_one x xs d (ground arith),
)

loop-Nodup : (items list : List String) → Nodup list → Nodup (remove_duplicate_loop items list)
unfolding remove_duplicate_loop
loop-Nodup [] list d = d
loop-Nodup (x ∷ items) list d = elim (Bool-cases (mem x list)) [
  | inl old ↦ rw old (loop-Nodup items list d)
  | inr new ↦ rw new (loop-Nodup items (list ++ (x ∷ [])) (Nodup-append_one x list d new))
]

mem-loop :
    (a : String) (items list : List String)
    → mem a (remove_duplicate_loop items list) ≡ (mem a list || mem a items)
unfolding remove_duplicate_loop
mem-loop a [] list = unfold mem in ground arith
mem-loop a (x ∷ items) list = rw (mem-loop a items) (elim (Bool-cases (mem x list)) [
  | inl old ↦ rw old (unfold mem in ground (arith, string_eq.same_iff x a))
  | inr new ↦ rw (new, mem-append) (unfold mem in ground arith)
])

-- `RemoveDuplicate` returns every string of its argument, and no other, once.
pub remove_duplicate_once :
    (items : List String)
    → Nodup (remove_duplicate items) × ((a : String) → mem a (remove_duplicate items) ≡ mem a items)
unfolding remove_duplicate
remove_duplicate_once items = (loop-Nodup items [] tt, λ a. unfold mem in mem-loop a items [])

-- No two resources of the list have the same namespace and name.
abbrev pub NodupNames : List PrometheusRule → Type 0
NodupNames [] = Unit
NodupNames (p ∷ list) = (contains list p.namespace p.name ≡ false) × NodupNames list

is_rule_in_slice-eq-contains :
    (list : List PrometheusRule) (p : PrometheusRule)
    → is_rule_in_slice list p ≡ contains list p.namespace p.name
unfolding is_rule_in_slice contains
is_rule_in_slice-eq-contains [] p = refl
is_rule_in_slice-eq-contains (r ∷ list) p = ground (arith, is_rule_in_slice-eq-contains list p)

contains-append :
    (xs ys : List PrometheusRule) (ns n : String)
    → contains (xs ++ ys) ns n ≡ (contains xs ns n || contains ys ns n)
unfolding contains
contains-append [] ys ns n = refl
contains-append (x ∷ xs) ys ns n = ground (arith, contains-append xs ys ns n)

NodupNames-append_one :
    (p : PrometheusRule) (xs : List PrometheusRule)
    → NodupNames xs
    → contains xs p.namespace p.name ≡ false
    → NodupNames (xs ++ p ∷ [])
unfolding contains
NodupNames-append_one p [] d n = (refl, tt)
NodupNames-append_one p (y ∷ xs) (fresh, d) n = (
  rw contains-append (
      ground (
        arith,
        string_eq.same_iff y.name p.name,
        string_eq.same_iff p.name y.name,
        string_eq.same_iff y.namespace p.namespace,
        string_eq.same_iff p.namespace y.namespace,
      )),
  NodupNames-append_one p xs d (ground arith),
)

concatenate-NodupNames :
    (dest src : List PrometheusRule) → NodupNames dest → NodupNames (concatenate dest src)
unfolding concatenate
concatenate-NodupNames dest [] d = d
concatenate-NodupNames dest (p ∷ src) d = elim (Bool-cases (is_rule_in_slice dest p)) [
  | inl old ↦ rw old (concatenate-NodupNames dest src d)
  | inr new ↦ rw new (
      concatenate-NodupNames (dest ++ (p ∷ [])) src
        (NodupNames-append_one p dest d (sym (is_rule_in_slice-eq-contains dest p) ∙ new)))
]

contains-concatenate :
    (dest src : List PrometheusRule) (ns n : String)
    → contains (concatenate dest src) ns n ≡ (contains dest ns n || contains src ns n)
unfolding concatenate
contains-concatenate dest [] ns n = unfold contains in ground arith
contains-concatenate dest (p ∷ src) ns n =
    contains-concatenate (if is_rule_in_slice dest p then dest else dest ++ (p ∷ [])) src ns n
    ∙ elim (Bool-cases (is_rule_in_slice dest p)) [
      | inl old ↦
          let in_dest = sym (is_rule_in_slice-eq-contains dest p) ∙ old in
          rw old (
            unfold contains in
            ground (arith, string_eq.same_iff p.name n, string_eq.same_iff p.namespace ns))
      | inr new ↦ rw (new, contains-append) (unfold contains in ground arith)
    ]

-- Some selector lists a resource of that namespace and name.
abbrev pub any_lists :
    {Selector : Type 0} → (Selector → List PrometheusRule) → List Selector → String → String → Bool
any_lists read [] ns n = false
any_lists read (s ∷ selectors) ns n = contains (read s) ns n || any_lists read selectors ns n

module _ {W Selector : Type 0} where
  loop_collects :
      (list_rules : Selector → Exec W (List PrometheusRule)) (read : Selector → List PrometheusRule)
      → ((s : Selector) (w : W) → list_rules s w ≡ (ok (read s), w))
      → (selectors : List Selector) (found : List PrometheusRule) (w : W) → NodupNames found
      → (all : List PrometheusRule) × (find_loop list_rules selectors found w ≡ (ok all, w))
        × NodupNames all
        × ((ns n : String)
            → contains all ns n ≡ (contains found ns n || any_lists read selectors ns n))
  unfolding find_loop
  loop_collects list_rules read lists [] found w d = (found, refl, d, λ ns n. ground arith)
  loop_collects list_rules read lists (s ∷ selectors) found w d =
      let (all, run, d', members) =
        loop_collects list_rules read lists selectors (concatenate found (read s)) w
          (concatenate-NodupNames found (read s) d) in
      (all, rw lists run, d', λ ns n. members ns n ∙ rw contains-concatenate (ground arith))

  -- Where each listing succeeds, the selection succeeds. It holds a resource of a namespace and
  -- name exactly where some selector lists one, and no two resources of the same namespace and
  -- name.
  pub find_prometheus_rules_once :
      (list_rules : Selector → Exec W (List PrometheusRule)) (read : Selector → List PrometheusRule)
      → ((s : Selector) (w : W) → list_rules s w ≡ (ok (read s), w))
      → (selectors : List Selector) (w : W)
      → (all : List PrometheusRule) × (find_prometheus_rules list_rules selectors w ≡ (ok all, w))
        × NodupNames all
        × ((ns n : String) → contains all ns n ≡ any_lists read selectors ns n)
  unfolding find_prometheus_rules
  find_prometheus_rules_once list_rules read lists selectors w =
      unfold contains in loop_collects list_rules read lists selectors [] w tt
