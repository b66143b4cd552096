-- ===== src/Sync/Visits.antt =====
-- The order in which Go visits the map of texts: any order, which may be another one at each range.
use mimir_operator.Base.{
  ◌≡◌, ◌≢◌, inl, inr, sym, ◌∙◌, String, string_eq, ◌==◌, [], ◌∷◌, none, Bool-cases, Option-cases,
}
use mimir_operator.Base.Dict.{Dict, lookup, keys}
use mimir_operator.Cluster.{Cluster}
use mimir_operator.Ruler.{sort_strings}
use mimir_operator.Server.Listing.{Among, lookup→Among}
use mimir_operator.Sync.Keys.{Distinct}
use mimir_operator.Sync.Sorted.{sort_strings-same}

-- The entries of a map in the order of a `range`: each once, whatever the order.
pub record VisitsAll (C : Cluster) : Type 0 where
  pub once :
      (w : C.World) (m : Dict String) → Distinct (keys m) → Distinct (keys (C.range_order w m))
  pub same :
      (w : C.World) (m : Dict String) (key : String)
      → Distinct (keys m)
      → lookup key (C.range_order w m) ≡ lookup key m

pub Among→lookup :
    (namespace : String) (entries : Dict String)
    → Among namespace (keys entries)
    → lookup namespace entries ≢ none
unfolding lookup
Among→lookup namespace [] h e = h
Among→lookup namespace ((key, text) ∷ entries) h e = elim (Bool-cases (key == namespace)) [
  | inl t ↦ absurd (let e' = rw t at e in cc)
  | inr t ↦ elim h [
    | inl same ↦ absurd (let t' = (string_eq.same_iff key namespace).1 same in cc)
    | inr rest ↦ Among→lookup namespace entries rest (rw t at e)
  ]
]

Among-lookup :
    (namespace : String) (entries others : Dict String)
    → lookup namespace entries ≡ lookup namespace others
    → Among namespace (keys entries)
    → Among namespace (keys others)
Among-lookup namespace entries others same a = elim (Option-cases (lookup namespace others)) [
  | inl e ↦ absurd (Among→lookup namespace entries a (same ∙ e))
  | inr (text, e) ↦ lookup→Among namespace others e
]

-- The sorted keys are the same in whatever order the map is visited.
pub range_order-sorted :
    (C : Cluster)
    → VisitsAll C
    → (w : C.World) (m : Dict String) → Distinct (keys m)
    → sort_strings (keys (C.range_order w m)) ≡ sort_strings (keys m)
range_order-sorted C visits w m distinct =
    sort_strings-same (keys (C.range_order w m)) (keys m) (visits.once w m distinct) distinct (λ z.
      (
        Among-lookup z (C.range_order w m) m (visits.same w m z distinct),
        Among-lookup z m (C.range_order w m) (sym (visits.same w m z distinct)),
      ))
