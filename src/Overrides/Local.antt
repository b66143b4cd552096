-- ===== src/Overrides/Local.antt =====
-- The loop over one group, apart from the rest of the memory: an array and the length of the slice
-- that is left of it. The loop over the memory does the same.
use mimir_operator.Base.{
  ℕ, zero, suc, ◌-◌, ◌<◌, ◌≡◌, ◌⊎◌, refl, sym, ap, arith, true, false, not, ◌&&◌, List, [], ◌∷◌,
  Option, none, some, ltb, ◌==◌, nat_eq, if◌then◌else◌, ◌>>=◌, get_elem?, set, Bool-cases,
  Option-cases, inl, inr,
}
use mimir_operator.Base.Dict.{Dict, lookup}
use mimir_operator.Prometheus.{Rule}
use mimir_operator.Overrides.{
  Override, GroupHeader, Item, update, in_range, group_at, rule_name, override_rule, remove_rule,
  remove_group, visit,
}
use mimir_operator.Overrides.Arrays.{set_self, update_self, update-update}

-- The effect of an override on a slice of length `len` over the array `xs`.
abbrev pub act_local : Option Override → ℕ → Rule → List Rule → ℕ → Option (List Rule × ℕ)
act_local none r x xs len = some (xs, len)
act_local (some o) r x xs len =
    if o.disable
    then in_range r len (get_elem? xs (len - 1) >>= λ last. some (set xs r last, len - 1))
    else in_range r len (some (set xs r (override_rule o x), len))

unfoldable pub local_loop : Dict Override → ℕ → ℕ → List Rule → ℕ → Option (List Rule × ℕ)
local_loop overrides zero r xs len = some (xs, len)
local_loop overrides (suc n) r xs len = get_elem? xs r >>= λ x.
    act_local (lookup (rule_name x) overrides) r x xs len >>= λ (ys, l).
    local_loop overrides n (suc r) ys l

-- The memory after the loop over group `g` with header `h`.
abbrev pub with_group : Item → ℕ → GroupHeader → List Rule → ℕ → Item
with_group item g h xs len = record item {
  arrays = update item.arrays h.array xs;
  groups = set item.groups g (record h { len = len });
}

-- A group that has lost its last rule is removed.
abbrev pub finish : Item → ℕ → GroupHeader → List Rule → ℕ → Option Item
finish item g h xs len =
    if len == 0 && not (h.len == 0)
    then remove_group (with_group item g h xs len) g
    else some (with_group item g h xs len)

pub get_elem?-set-some {ℓ} :
    {A : Type ℓ} (xs : List A) (i : ℕ) (x v : A)
    → get_elem? xs i ≡ some x
    → get_elem? (set xs i v) i ≡ some v
get_elem?-set-some [] i x v h = cc
get_elem?-set-some (y ∷ xs) zero x v h = refl
get_elem?-set-some (y ∷ xs) (suc i) x v h = get_elem?-set-some xs i x v h

pub set-set {ℓ} : {A : Type ℓ} (xs : List A) (i : ℕ) (v w : A) → set (set xs i v) i w ≡ set xs i w
set-set [] i v w = refl
set-set (x ∷ xs) zero v w = refl
set-set (x ∷ xs) (suc i) v w = ap (◌∷◌ x) (set-set xs i v w)

pub group_at-eq :
    (item : Item) (g : ℕ) {h : GroupHeader}
    → group_at item g ≡ some h
    → (ltb g item.count ≡ true) × (get_elem? item.groups g ≡ some h)
unfolding group_at
group_at-eq item g e = ground arith

with_group_same :
    (item : Item) (g : ℕ) (h : GroupHeader)
    → group_at item g ≡ some h
    → with_group item g h (item.arrays h.array) h.len ≡ item
with_group_same item g h at =
    rw (update_self item.arrays h.array, set_self item.groups g h (group_at-eq item g at).1)

pub with_group-with_group :
    (item : Item) (g : ℕ) (h : GroupHeader) (xs ys : List Rule) (k l : ℕ)
    → with_group (with_group item g h xs k) g (record h { len = k }) ys l ≡ with_group item g h ys l
with_group-with_group item g h xs ys k l =
    rw (update-update item.arrays h.array, set-set item.groups g)

pub group_at-with_group :
    (item : Item) (g : ℕ) (h : GroupHeader) (xs : List Rule) (k : ℕ)
    → group_at item g ≡ some h
    → group_at (with_group item g h xs k) g ≡ some (record h { len = k })
group_at-with_group item g h xs k at =
    let (below, found) = group_at-eq item g at in
    unfold group_at in rw (below, get_elem?-set-some item.groups g h (record h { len = k }) found)

pub finish_same :
    (item : Item) (g : ℕ) (h : GroupHeader)
    → group_at item g ≡ some h
    → finish item g h (item.arrays h.array) h.len ≡ some item
finish_same item g h at = elim (Bool-cases (h.len == 0)) [
  | inl e ↦ rw (e, with_group_same item g h at)
  | inr e ↦ rw (e, with_group_same item g h at)
]

module _ (item : Item) (g r : ℕ) (h : GroupHeader) where
  -- The removal of a rule, in the memory and on the slice alone.
  remove_rule-local :
      (remove_rule item.arrays h r >>= λ (arrays, h').
      let item' = record item { arrays = arrays; groups = set item.groups g h' } in
      if h'.len == 0 then remove_group item' g else some item')
      ≡ (in_range r h.len (
            get_elem? (item.arrays h.array) (h.len - 1) >>= λ last.
            some (set (item.arrays h.array) r last, h.len - 1))
          >>= λ (ys, l). finish item g h ys l)
  unfolding remove_rule
  remove_rule-local = elim (Bool-cases (ltb r h.len)) [
    | inr out ↦ rw out
    | inl below ↦
        let some_left : (h.len == 0) ≡ false = ground arith in
        rw below (elim (Option-cases (get_elem? (item.arrays h.array) (h.len - 1))) [
          | inl e ↦ rw e
          | inr (last, e) ↦
              rw (e, some_left) (elim (Bool-cases (h.len - 1 == 0)) [ inl z ↦ rw z | inr z ↦ rw z ])
        ])
  ]

  finish_write :
      (xs : List Rule)
      → (ltb r h.len ≡ true)
      → group_at item g ≡ some h
      → finish item g h xs h.len ≡ some (record item { arrays = update item.arrays h.array xs })
  finish_write xs below at =
      let some_left : (h.len == 0) ≡ false = ground arith in
      rw (some_left, set_self item.groups g h (group_at-eq item g at).1)

-- One visit does to the memory what the override does to the slice of the group.
pub visit-local :
    (overrides : Dict Override) (g r : ℕ) (x : Rule) (item : Item) (h : GroupHeader)
    → group_at item g ≡ some h
    → visit overrides g r x item ≡ (
        act_local (lookup (rule_name x) overrides) r x (item.arrays h.array) h.len >>= λ (ys, l).
        finish item g h ys l)
unfolding visit
visit-local overrides g r x item h at = elim (Option-cases (lookup (rule_name x) overrides)) [
  | inl e ↦ rw (e, visit) (sym (finish_same item g h at))
  | inr (o, e) ↦ elim (Bool-cases o.disable) [
    | inl off ↦ rw (e, visit) (rw off (rw at (remove_rule-local item g r h)))
    | inr on ↦
        rw (e, visit)
          (rw on (
            rw at (elim (Bool-cases (ltb r h.len)) [
              | inr out ↦ rw out
              | inl inside ↦ rw inside (
                  sym (
                    finish_write item g r h (set (item.arrays h.array) r (override_rule o x)) inside
                      at))
            ])))
  ]
]

-- A visit shortens the slice by one rule at most, and only where it has that rule.
pub act_local-bounds :
    (o : Option Override) (r : ℕ) (x : Rule) (xs : List Rule) (len : ℕ) (ys : List Rule) (l : ℕ)
    → act_local o r x xs len ≡ some (ys, l)
    → (l ≡ len) ⊎ ((r < len) × (suc l ≡ len))
act_local-bounds none r x xs len ys l h = inl (ground arith)
act_local-bounds (some o) r x xs len ys l h = ground arith
