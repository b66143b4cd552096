-- ===== src/Overrides/Arrays.antt =====
-- The memory of a PrometheusRule: writes to its arrays, and reading back what was loaded.
use mimir_operator.Base.{
  ℕ, zero, suc, ◌+◌, ◌<◌, ◌≡◌, ◌≢◌, refl, ap, fun_ext, arith, List, [], ◌∷◌, map, some, nat_eq,
  length, get_elem?, set, take-length,
}
use mimir_operator.Prometheus.{Rule, RuleGroup}
use mimir_operator.Overrides.{GroupHeader, update, headers, rules_at, load, groups_of, contents}

pub set_self {ℓ} :
    {A : Type ℓ} (xs : List A) (i : ℕ) (x : A) → get_elem? xs i ≡ some x → set xs i x ≡ xs
set_self [] i x h = refl
set_self (y ∷ xs) zero x h = ground arith
set_self (y ∷ xs) (suc i) x h = ap (◌∷◌ y) (set_self xs i x h)

module _ (arrays : ℕ → List Rule) (a : ℕ) where
  pub update_self : update arrays a (arrays a) ≡ arrays
  unfolding update
  update_self = fun_ext λ b. ground (arith, ap arrays)

  pub update-update : (xs ys : List Rule) → update (update arrays a xs) a ys ≡ update arrays a ys
  unfolding update
  update-update xs ys = fun_ext λ b. ground arith

  pub update_at : (xs : List Rule) → update arrays a xs a ≡ xs
  unfolding update
  update_at xs = ground arith

  pub update_ne : (xs : List Rule) {b : ℕ} → a ≢ b → update arrays a xs b ≡ arrays b
  unfolding update
  update_ne xs h = ground arith

-- Below, what `load` builds.
pub length-headers : (i : ℕ) (xs : List RuleGroup) → length (headers i xs) ≡ length xs
unfolding headers
length-headers i [] = refl
length-headers i (x ∷ xs) = ap suc (length-headers (suc i) xs)

-- The header of group `j` has the array of its own place and covers it.
pub headers_at :
    (i j k : ℕ) (xs : List RuleGroup)
    → k ≡ i + j
    → j < length xs
    → (h : GroupHeader) × (get_elem? (headers i xs) j ≡ some h)
      × (h.array ≡ k)
      × (h.len ≡ length (rules_at xs j))
unfolding headers rules_at
headers_at i j k [] e lt = absurd (omega arith)
headers_at i zero k (x ∷ xs) e lt = (
  record { name = x.name; interval = x.interval; array = i; len = length x.rules },
  refl,
  omega arith,
  refl,
)
headers_at i (suc j) k (x ∷ xs) e lt = headers_at (suc i) j k xs (omega arith) (omega arith)

abbrev pub map_rules : (List Rule → List Rule) → RuleGroup → RuleGroup
map_rules f x = record x { rules = f x.rules }

-- If the arrays hold the rules under `f`, the resource shows the groups under `f`.
pub groups_of-headers :
    (f : List Rule → List Rule) (arrays : ℕ → List Rule) (i : ℕ) (xs : List RuleGroup)
    → ((x : List Rule) → length (f x) ≡ length x)
    → ((j k : ℕ) → k ≡ i + j → j < length xs → arrays k ≡ f (rules_at xs j))
    → groups_of arrays (headers i xs) ≡ map (map_rules f) xs
unfolding groups_of headers rules_at
groups_of-headers f arrays i [] long same = refl
groups_of-headers f arrays i (x ∷ xs) long same =
    let rest =
      groups_of-headers f arrays (suc i) xs long
        (λ j k e lt. same (suc j) k (omega arith) (omega arith)) in
    rw (rest, same 0 i (omega arith) (omega arith), ← long x.rules, take-length)

pub contents-load :
    (f : List Rule → List Rule) (arrays : ℕ → List Rule) (xs : List RuleGroup)
    → ((x : List Rule) → length (f x) ≡ length x)
    → ((j : ℕ) → j < length xs → arrays j ≡ f (rules_at xs j))
    → contents (record (load xs) { arrays = arrays }) ≡ map (map_rules f) xs
unfolding contents load
contents-load f arrays xs long same =
    rw (← length-headers 0 xs, take-length)
      (groups_of-headers f arrays 0 xs long
        (λ j k e lt. let e' : k ≡ j = omega arith in rw e' (same j lt)))
