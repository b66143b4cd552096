-- ===== src/Sync/Sorted.antt =====
-- `sort.Strings`: its result depends on the strings alone, not on their order.
use Prim.Native.Char.{code}
use Prim.Native.Nat.{compare as compare_ℕ}
use Prim.Native.Nat.{Ordering}
use Prim.Native.String.compare
use Prim.Native.String.{compare, then}
use text.Mathlib.TextEquality.{codes_equal}
use mimir_operator.Base.{
  ◌<◌, ◌≡◌, ◌↔◌, ◌⊎◌, inl, inr, refl, sym, ap, ap₂, ◌∙◌, arith, ℕ, String, List, [], ◌∷◌,
}
use mimir_operator.Ruler.{insert_sorted, sort_strings}
use mimir_operator.Server.Listing.{Among, Among-sort_strings}
use mimir_operator.Sync.Keys.{Distinct}

-- The order of strings, by the codes of their letters.
abbrev pub Before : String → String → Type 0
Before String.[] String.[] = ⊥
Before String.[] (String.◌∷◌ d t) = Unit
Before (String.◌∷◌ c s) String.[] = ⊥
Before (String.◌∷◌ c s) (String.◌∷◌ d t) = (code c < code d) ⊎ ((code c ≡ code d) × Before s t)

Before-trans : (x y z : String) → Before x y → Before y z → Before x z
Before-trans String.[] String.[] z h k = absurd h
Before-trans String.[] (String.◌∷◌ d t) String.[] h k = k
Before-trans String.[] (String.◌∷◌ d t) (String.◌∷◌ e u) h k = tt
Before-trans (String.◌∷◌ c s) String.[] z h k = absurd h
Before-trans (String.◌∷◌ c s) (String.◌∷◌ d t) String.[] h k = k
Before-trans (String.◌∷◌ c s) (String.◌∷◌ d t) (String.◌∷◌ e u) h k = elim h [
  | inl l ↦ elim k [ inl m ↦ inl (omega arith) | inr (m, _) ↦ inl (omega arith) ]
  | inr (l, r) ↦ elim k [
    | inl m ↦ inl (omega arith)
    | inr (m, q) ↦ inr (l ∙ m, Before-trans s t u r q)
  ]
]

Before-irrefl : (x : String) → ¬ Before x x
Before-irrefl String.[] h = h
Before-irrefl (String.◌∷◌ c s) h = elim h [ inl l ↦ omega arith | inr (_, r) ↦ Before-irrefl s r ]

compare_cases :
    (m n : ℕ)
    → ((compare_ℕ m n ≡ Ordering.lt) × (m < n))
      ⊎ ((compare_ℕ m n ≡ Ordering.eq) × (m ≡ n))
      ⊎ ((compare_ℕ m n ≡ Ordering.gt) × (n < m))
compare_cases m n = ground arith

compare-cases :
    (x y : String)
    → ((compare x y ≡ Ordering.lt) × Before x y)
      ⊎ ((compare x y ≡ Ordering.eq) × (x ≡ y))
      ⊎ ((compare x y ≡ Ordering.gt) × Before y x)
compare-cases String.[] String.[] = inr (inl (compare.nil-nil, refl))
compare-cases String.[] (String.◌∷◌ d t) = inl (compare.nil-cons d t, tt)
compare-cases (String.◌∷◌ c s) String.[] = inr (inr (compare.cons-nil c s, tt))
compare-cases (String.◌∷◌ c s) (String.◌∷◌ d t) =
    let step = compare.cons-cons c d s t in
    elim (compare_cases (code c) (code d)) [
      | inl (e, l) ↦ inl (step ∙ ap (λ o. then o (compare s t)) e, inl l)
      | inr (inr (e, l)) ↦ inr (inr (step ∙ ap (λ o. then o (compare s t)) e, inl l))
      | inr (inl (e, l)) ↦
          let next = step ∙ ap (λ o. then o (compare s t)) e in
          elim (compare-cases s t) [
            | inl (f, b) ↦ inl (next ∙ f, inr (l, b))
            | inr (inl (f, b)) ↦ inr (inl (next ∙ f, ap₂ String.◌∷◌ (codes_equal c d e) b))
            | inr (inr (f, b)) ↦ inr (inr (next ∙ f, inr (sym l, b)))
          ]
    ]

abbrev Ascending : List String → Type 0
Ascending [] = Unit
Ascending (x ∷ xs) = ((y : String) → Among y xs → Before x y) × Ascending xs

Among-insert_sorted :
    (name x : String) (ys : List String)
    → Among name (insert_sorted x ys)
    → (x ≡ name) ⊎ Among name ys
unfolding insert_sorted
Among-insert_sorted name x [] h = h
Among-insert_sorted name x (y ∷ ys) h = elim (compare-cases x y) [
  | inl (e, _) ↦ rw (e, Among) at h
  | inr (inl (e, _)) ↦ rw (e, Among) at h
  | inr (inr (e, _)) ↦ elim (rw (e, Among) at h) [
    | inl same ↦ inr (inl same)
    | inr rest ↦ elim (Among-insert_sorted name x ys rest) [ inl a ↦ inl a | inr b ↦ inr (inr b) ]
  ]
]

sort_strings-Among :
    (name : String) (xs : List String) → Among name (sort_strings xs) → Among name xs
unfolding sort_strings
sort_strings-Among name [] h = h
sort_strings-Among name (x ∷ xs) h = elim (Among-insert_sorted name x (sort_strings xs) h) [
  | inl e ↦ inl e
  | inr rest ↦ inr (sort_strings-Among name xs rest)
]

insert_sorted-Ascending :
    (x : String) (ys : List String) → ¬ Among x ys → Ascending ys → Ascending (insert_sorted x ys)
unfolding insert_sorted
insert_sorted-Ascending x [] new up = ((λ y a. absurd a), tt)
insert_sorted-Ascending x (y ∷ ys) new (after, up) = elim (compare-cases x y) [
  | inl (e, b) ↦
      rw (e, Ascending)
        (
          (λ z a. elim a [
            | inl same ↦ rw (← same) b
            | inr rest ↦ Before-trans x y z b (after z rest)
          ]),
          (after, up),
        )
  | inr (inl (_, same)) ↦ absurd (new (inl (sym same)))
  | inr (inr (e, b)) ↦
      rw (e, Ascending)
        (
          (λ z a. elim (Among-insert_sorted z x ys a) [
            | inl same ↦ rw (← same) b
            | inr rest ↦ after z rest
          ]),
          insert_sorted-Ascending x ys (λ a. new (inr a)) up,
        )
]

sort_strings-Ascending : (xs : List String) → Distinct xs → Ascending (sort_strings xs)
unfolding sort_strings
sort_strings-Ascending [] d = tt
sort_strings-Ascending (x ∷ xs) (new, d) =
    insert_sorted-Ascending x (sort_strings xs) (λ a. new (sort_strings-Among x xs a))
      (sort_strings-Ascending xs d)

-- The rest of an ascending list, by what is in the whole.
later :
    (x : String) (xs ys : List String)
    → ((z : String) → Among z xs → Before x z)
    → ((z : String) → Among z (x ∷ xs) → Among z (x ∷ ys))
    → (z : String) → Among z xs
    → Among z ys
later x xs ys after into z a = elim (into z (inr a)) [
  | inl same ↦ absurd (Before-irrefl z (rw same at (after z a)))
  | inr rest ↦ rest
]

-- An ascending list is known by its members.
Ascending-unique :
    (xs ys : List String)
    → Ascending xs
    → Ascending ys
    → ((z : String) → Among z xs ↔ Among z ys)
    → xs ≡ ys
Ascending-unique [] [] up up' same = refl
Ascending-unique [] (y ∷ ys) up up' same = absurd ((same y).1 (inl refl))
Ascending-unique (x ∷ xs) [] up up' same = absurd ((same x).0 (inl refl))
Ascending-unique (x ∷ xs) (y ∷ ys) (after, up) (after', up') same =
    let head : x ≡ y = elim ((same x).0 (inl refl)) [
      | inl e ↦ sym e
      | inr a ↦ elim ((same y).1 (inl refl)) [
        | inl e ↦ e
        | inr b ↦ absurd (Before-irrefl x (Before-trans x y x (after y b) (after' x a)))
      ]
    ] in
    let into : (z : String) → Among z (x ∷ xs) → Among z (x ∷ ys) =
      λ z. rw (← head) at ((same z).0) in
    let back : (z : String) → Among z (x ∷ ys) → Among z (x ∷ xs) =
      λ z. rw (← head) at ((same z).1) in
    let after_x : (z : String) → Among z ys → Before x z = λ z. rw (← head) at (after' z) in
    ap₂ (λ x xs. x ∷ xs) head
      (Ascending-unique xs ys up up'
        (λ z. (later x xs ys after into z, later x ys xs after_x back z)))

-- Distinct strings are sorted to one list, whatever order they come in.
pub sort_strings-same :
    (xs ys : List String)
    → Distinct xs
    → Distinct ys
    → ((z : String) → Among z xs ↔ Among z ys)
    → sort_strings xs ≡ sort_strings ys
sort_strings-same xs ys d d' same =
    Ascending-unique (sort_strings xs) (sort_strings ys) (sort_strings-Ascending xs d)
      (sort_strings-Ascending ys d')
      (λ z. (
        λ a. Among-sort_strings z ys ((same z).0 (sort_strings-Among z xs a)),
        λ a. Among-sort_strings z xs ((same z).1 (sort_strings-Among z ys a)),
      ))
