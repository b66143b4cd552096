-- ===== src/Tests/Ranges.antt =====
-- A cluster in which a range over a map visits its entries in one order or another, by the world.
use mimir_operator.Base.{
  ◌≡◌, inl, inr, refl, sym, Bool-cases, String, string_eq, ◌==◌, true, false, [], ◌∷◌,
  if◌then◌else◌,
}
use mimir_operator.Base.Dict.{Dict, lookup, keys}
use mimir_operator.Cluster.{Cluster}
use mimir_operator.Ruler.{sort_strings}
use mimir_operator.Sync.Keys.{Distinct}
use mimir_operator.Sync.Visits.{VisitsAll, range_order-sorted}
use mimir_operator.Tests.TwoNamespaces as Two

-- The second entry before the first.
abbrev swap : Dict String → Dict String
swap [] = []
swap (first ∷ []) = first ∷ []
swap (first ∷ second ∷ rest) = second ∷ first ∷ rest

abbrev shuffled : Cluster
shuffled = record (Two.cluster) { range_order = λ w m. if w.0 then swap m else m }

swap-Distinct : (m : Dict String) → Distinct (keys m) → Distinct (keys (swap m))
swap-Distinct [] d = d
swap-Distinct (first ∷ []) d = d
swap-Distinct ((a, x) ∷ (b, y) ∷ rest) (new, (new', d)) = (
  λ h. elim h [ inl same ↦ new (inl (sym same)) | inr later ↦ new' later ],
  (λ h. new (inr h), d),
)

lookup-swap :
    (m : Dict String) (key : String) → Distinct (keys m) → lookup key (swap m) ≡ lookup key m
unfolding lookup
lookup-swap [] key d = refl
lookup-swap (first ∷ []) key d = refl
lookup-swap ((a, x) ∷ (b, y) ∷ rest) key (new, d) = elim (Bool-cases (a == key)) [
  | inl e ↦ elim (Bool-cases (b == key)) [
    | inl f ↦
        let a_key = (string_eq.same_iff a key).0 e in
        let b_key = (string_eq.same_iff b key).0 f in absurd (new (inl (cc)))
    | inr f ↦ rw (e, f) refl
  ]
  | inr e ↦ elim (Bool-cases (b == key)) [ inl f ↦ rw (e, f) refl | inr f ↦ rw (e, f) refl ]
]

visits : VisitsAll shuffled
visits = record {
  once = λ w m d. elim (w.0) as (λ b. Distinct (keys (if b then swap m else m))) [
    | true ↦ swap-Distinct m d
    | false ↦ d
  ];
  same = λ w m key d. elim (w.0) as (λ b. lookup key (if b then swap m else m) ≡ lookup key m) [
    | true ↦ lookup-swap m key d
    | false ↦ refl
  ];
}

-- Whatever the world, the list of the status is the same.
sorted :
    (w : Two.Flags) (m : Dict String)
    → Distinct (keys m)
    → sort_strings (keys (shuffled.range_order w m)) ≡ sort_strings (keys m)
sorted w m d = range_order-sorted shuffled visits w m d
