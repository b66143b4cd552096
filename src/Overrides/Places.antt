-- ===== src/Overrides/Places.antt =====
-- The memory between two rounds of the loop over the groups: headers that were visited, then those
-- as they were loaded.
use mathlib.Core.List.{append_assoc}
use mimir_operator.Base.{
  ℕ, suc, ◌+◌, ◌<◌, ◌≤◌, ◌≡◌, ◌≢◌, ◌⊎◌, inl, inr, refl, ap, ◌∙◌, arith, false, List, [], ◌∷◌, ◌++◌,
  none, some, ltb, lt→ltb, length, get_elem?, set, All, length-append,
}
use mimir_operator.Prometheus.{Rule, RuleGroup}
use mimir_operator.Overrides.{
  GroupHeader, Item, update, headers, rules_at, group_of, groups_of, group_at,
}
use mimir_operator.Overrides.Arrays.{update_ne, length-headers}
use mimir_operator.Overrides.Slices.{get_elem?-append, set-append, append_shift}

-- The header of a group as it was loaded, with the array of its place.
abbrev pub header_of : ℕ → RuleGroup → GroupHeader
header_of i x = record { name = x.name; interval = x.interval; array = i; len = length x.rules }

-- The memory when the loop comes to place `g`, where `c` groups are left.
abbrev pub place : ℕ → (ℕ → List Rule) → List GroupHeader → List RuleGroup → ℕ → Item
place g arrays front xs c = record { arrays = arrays; groups = front ++ headers g xs; count = c }

-- From place `g` on, each group has an array of its own.
abbrev pub Own : ℕ → (ℕ → List Rule) → List RuleGroup → Type 0
Own g arrays xs = (i j : ℕ) → j ≡ g + i → arrays j ≡ rules_at xs i

-- The arrays of visited groups are none of those that are still to come in the slice.
abbrev pub Apart : ℕ → ℕ → List GroupHeader → Type 0
Apart g c = All (λ h. (h.array < g) ⊎ (c ≤ h.array))

pub Own-next :
    (g : ℕ) (arrays : ℕ → List Rule) (x : RuleGroup) (xs : List RuleGroup) (zs : List Rule)
    → Own g arrays (x ∷ xs)
    → Own (suc g) (update arrays g zs) xs
unfolding rules_at
Own-next g arrays x xs zs own i j e =
    update_ne arrays g zs (λ same. absurd (omega arith)) ∙ own (suc i) j (omega arith)

-- The same, where the group was only read.
pub Own-tail :
    (g : ℕ) (arrays : ℕ → List Rule) (x : RuleGroup) (xs : List RuleGroup)
    → Own g arrays (x ∷ xs)
    → Own (suc g) arrays xs
unfolding rules_at
Own-tail g arrays x xs own i j e = own (suc i) j (omega arith)

pub Own-head :
    (g : ℕ) (arrays : ℕ → List Rule) (x : RuleGroup) (xs : List RuleGroup)
    → Own g arrays (x ∷ xs)
    → arrays g ≡ x.rules
unfolding rules_at
Own-head g arrays x xs own = own 0 g (omega arith)

pub Own-at :
    (g : ℕ) (arrays : ℕ → List Rule) (xs : List RuleGroup) (y : RuleGroup) (ys : List RuleGroup)
    (j : ℕ)
    → Own g arrays (xs ++ (y ∷ ys))
    → j ≡ g + length xs
    → arrays j ≡ y.rules
Own-at g arrays [] y ys j own e =
    let same : j ≡ g = omega arith in rw same (Own-head g arrays y ys own)
Own-at g arrays (x ∷ xs) y ys j own e =
    Own-at (suc g) arrays xs y ys j (Own-tail g arrays x (xs ++ (y ∷ ys)) own) (omega arith)

-- A removal moves a group with an array behind the slice.
pub Apart-next :
    (g c c' : ℕ) (front : List GroupHeader) (h : GroupHeader)
    → c' ≤ c
    → (h.array ≡ g) ⊎ (c' ≤ h.array)
    → Apart g c front
    → Apart (suc g) c' (front ++ (h ∷ []))
Apart-next g c c' [] h le here all = (elim here [ inl e ↦ inl (omega arith) | inr e ↦ inr e ], tt)
Apart-next g c c' (f ∷ front) h le here (this, all) = (
  elim this [ inl e ↦ inl (omega arith) | inr e ↦ inr (omega arith) ],
  Apart-next g c c' front h le here all,
)

pub groups_of-append :
    (arrays : ℕ → List Rule) (xs ys : List GroupHeader)
    → groups_of arrays (xs ++ ys) ≡ groups_of arrays xs ++ groups_of arrays ys
unfolding groups_of
groups_of-append arrays [] ys = refl
groups_of-append arrays (x ∷ xs) ys = ap (◌∷◌ (group_of arrays x)) (groups_of-append arrays xs ys)

-- A write to the array of place `g` does not show in the groups before it.
pub groups_of-update :
    (arrays : ℕ → List Rule) (g c : ℕ) (zs : List Rule) (front : List GroupHeader)
    → g < c
    → Apart g c front
    → groups_of (update arrays g zs) front ≡ groups_of arrays front
unfolding groups_of
groups_of-update arrays g c zs [] lt all = refl
groups_of-update arrays g c zs (f ∷ front) lt (this, all) =
    let apart : g ≢ f.array =
      λ e. elim this [ inl a ↦ absurd (omega arith) | inr a ↦ absurd (omega arith) ] in
    rw (update_ne arrays g zs apart, groups_of-update arrays g c zs front lt all)

pub headers-append :
    (i k : ℕ) (xs ys : List RuleGroup)
    → k ≡ i + length xs
    → headers i (xs ++ ys) ≡ headers i xs ++ headers k ys
unfolding headers
headers-append i k [] ys e = let same : k ≡ i = omega arith in rw same
headers-append i k (x ∷ xs) ys e =
    ap (◌∷◌ (header_of i x)) (headers-append (suc i) k xs ys (omega arith))

module _ (g : ℕ) (arrays : ℕ → List Rule) (front : List GroupHeader) (x : RuleGroup)
    (xs : List RuleGroup) (c : ℕ) (here : g ≡ length front) where
  pub header_here : get_elem? (front ++ headers g (x ∷ xs)) g ≡ some (header_of g x)
  unfolding headers
  header_here = get_elem?-append front (header_of g x) (headers (suc g) xs) g here

  pub group_here : g < c → group_at (place g arrays front (x ∷ xs) c) g ≡ some (header_of g x)
  unfolding group_at
  group_here lt = rw (lt→ltb g c lt) header_here

  pub group_lost : c ≤ g → group_at (place g arrays front (x ∷ xs) c) g ≡ none
  unfolding group_at
  group_lost le = let out : ltb g c ≡ false = ground arith in rw out

  -- The header at place `g` is replaced.
  pub set_here :
      (h : GroupHeader)
      → set (front ++ headers g (x ∷ xs)) g h ≡ (front ++ (h ∷ [])) ++ headers (suc g) xs
  unfolding headers
  set_here h =
      set-append front (header_of g x) h (headers (suc g) xs) g here
      ∙ append_shift front h (headers (suc g) xs)

-- The header of a group that is still to come.
pub header_ahead :
    (front : List GroupHeader) (g k : ℕ) (mid : List RuleGroup) (y : RuleGroup)
    (dead : List RuleGroup)
    → g ≡ length front
    → k ≡ g + length mid
    → get_elem? (front ++ headers g (mid ++ (y ∷ dead))) k ≡ some (header_of k y)
unfolding headers
header_ahead front g k mid y dead e ek =
    rw
      (
        headers-append g k mid (y ∷ dead) ek,
        ← append_assoc front (headers g mid) (header_of k y ∷ headers (suc k) dead),
      )
      (get_elem?-append (front ++ headers g mid) (header_of k y) (headers (suc k) dead) k
        (omega (arith, length-append front (headers g mid), length-headers g mid)))
