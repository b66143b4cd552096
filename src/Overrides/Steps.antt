-- ===== src/Overrides/Steps.antt =====
-- The outcome of the loop over one group, and what a single round does to it.
use mathlib.Core.List.{append_assoc, append-nil, Perm, perm_append_comm, perm-append_left_iff}
use mathlib.Core.List.Perm
use mimir_operator.Base.{
  ℕ, suc, ◌+◌, ◌-◌, ◌<◌, ◌≡◌, refl, ap, ◌∙◌, arith, Bool, true, false, List, [], ◌∷◌, ◌++◌, Option,
  none, some, lt→ltb, nat_eq, if◌then◌else◌, length, get_elem?, Bool-cases, inl, inr, length-append,
}
use mimir_operator.Base.Dict.{Dict}
use mimir_operator.Prometheus.{Rule}
use mimir_operator.Overrides.{Override, override_rule}
use mimir_operator.Overrides.Patch.{is_disabled, overridden}
use mimir_operator.Overrides.Slices.{get_elem?-append, set-append, append_shift}
use mimir_operator.Overrides.Local.{local_loop}
use mimir_operator.Overrides.Disabled.{places, rules_fit, kept, IsPlain, IsNamed, kept-plain}

-- The outcome of the loop, where `front` has been visited and `live` is the rest of the slice: what
-- is left of the slice holds the kept rules, or the loop panics.
abbrev pub Swept : Dict Override → Bool → List Rule → List Rule → Option (List Rule × ℕ) → Type 0
Swept overrides true front live result =
    (left : List Rule) × (behind : List Rule) × (result ≡ some (left ++ behind, length left))
    × Perm left (front ++ kept overrides live)
    × (length left ≡ length front + length (kept overrides live))
Swept overrides false front live result = result ≡ none

module _ (overrides : Dict Override) where
  pub Swept-from :
      (fit : Bool) (front live front' live' : List Rule) (result : Option (List Rule × ℕ))
      → (fit ≡ true
          → Perm (front' ++ kept overrides live') (front ++ kept overrides live)
            × (length front' + length (kept overrides live')
                ≡ length front + length (kept overrides live)))
      → Swept overrides fit front' live' result
      → Swept overrides fit front live result
  Swept-from true front live front' live' result h (left, behind, e, p, len) =
      let (p', len') = h refl in (left, behind, e, Perm.trans p p', len ∙ len')
  Swept-from false front live front' live' result h e = e

  module _ (n r len : ℕ) (front : List Rule) (x : Rule) (rest : List Rule)
      (e : r ≡ length front) where
    pub step_plain :
        IsPlain overrides x
        → local_loop overrides (suc n) r (front ++ (x ∷ rest)) len
          ≡ local_loop overrides n (suc r) ((front ++ (x ∷ [])) ++ rest) len
    unfolding local_loop
    step_plain p =
        rw (get_elem?-append front x rest r e, local_loop)
          (rw (p.unnamed, local_loop) (rw (append_shift front x rest)))

    pub step_patch :
        (o : Override)
        → IsNamed overrides x o
        → o.disable ≡ false
        → r < len
        → local_loop overrides (suc n) r (front ++ (x ∷ rest)) len
          ≡ local_loop overrides n (suc r) ((front ++ (overridden overrides x ∷ [])) ++ rest) len
    unfolding local_loop
    step_patch o p on lt =
        rw (get_elem?-append front x rest r e, local_loop)
          (rw (p.found, local_loop)
            (rw (lt→ltb r len lt, set-append front x (override_rule o x) rest r e, ← p.patch)
              (rw on (rw (append_shift front (overridden overrides x) rest)))))

    pub step_remove :
        (o : Override) (y : Rule)
        → IsNamed overrides x o
        → o.disable ≡ true
        → r < len
        → get_elem? (front ++ (x ∷ rest)) (len - 1) ≡ some y
        → local_loop overrides (suc n) r (front ++ (x ∷ rest)) len
          ≡ local_loop overrides n (suc r) ((front ++ (y ∷ [])) ++ rest) (len - 1)
    unfolding local_loop
    step_remove o y p off lt last =
        rw (get_elem?-append front x rest r e, local_loop)
          (rw (p.found, local_loop)
            (rw (off, lt→ltb r len lt, last, set-append front x y rest r e)
              (rw (append_shift front y rest))))

  pub fit_step :
      (m : ℕ) (x : Rule) (xs : List Rule)
      → rules_fit overrides (suc m) (x ∷ xs)
        ≡ rules_fit overrides (if is_disabled overrides x then m - 1 else m) xs
  unfolding rules_fit places
  fit_step m x xs = elim (Bool-cases (is_disabled overrides x)) [
    | inl e ↦ rw e (
        let z : suc m - 2 ≡ m - 1 = omega arith in
        ground (arith, ap (λ k. rules_fit overrides k xs) z))
    | inr e ↦ rw e (
        let z : suc m - 1 ≡ m = omega arith in ground (arith, ap (λ k. rules_fit overrides k xs) z))
  ]

  pub kept_enabled :
      (x : Rule) (xs : List Rule)
      → is_disabled overrides x ≡ false
      → kept overrides (x ∷ xs) ≡ overridden overrides x ∷ kept overrides xs
  unfolding kept
  kept_enabled x xs e = rw e

  pub kept_disabled :
      (x : Rule) (xs : List Rule)
      → is_disabled overrides x ≡ true
      → kept overrides (x ∷ xs) ≡ kept overrides xs
  unfolding kept
  kept_disabled x xs e = rw e

  pub Swept-end :
      (fit : Bool) (front dead : List Rule) (len : ℕ) (result : Option (List Rule × ℕ))
      → len ≡ length front
      → result ≡ (if fit then some (front ++ dead, len) else none)
      → Swept overrides fit front [] result
  unfolding kept
  Swept-end true front dead len result e h =
      (front, dead, rw (← e) h, rw append-nil (Perm.refl front), omega arith)
  Swept-end false front dead len result e h = h

  -- A visit that leaves the rule, or its patched form, in its place.
  pub Swept-keep :
      (fit : Bool) (front mid : List Rule) (x : Rule) (result : Option (List Rule × ℕ))
      → is_disabled overrides x ≡ false
      → Swept overrides fit (front ++ (overridden overrides x ∷ [])) mid result
      → Swept overrides fit front (x ∷ mid) result
  Swept-keep fit front mid x result e =
      Swept-from fit front (x ∷ mid) (front ++ (overridden overrides x ∷ [])) mid result (λ _. (
        rw (kept_enabled x mid e, append_assoc) (Perm.refl _),
        rw (kept_enabled x mid e)
            (omega (arith, length-append front (overridden overrides x ∷ []))),
      ))

  -- A removal that moves the last rule of the slice into the hole.
  pub Swept-move :
      (fit : Bool) (front mid : List Rule) (x y : Rule) (result : Option (List Rule × ℕ))
      → is_disabled overrides x ≡ true
      → (fit ≡ true → IsPlain overrides y)
      → Swept overrides fit (front ++ (y ∷ [])) mid result
      → Swept overrides fit front (x ∷ (mid ++ (y ∷ []))) result
  Swept-move fit front mid x y result e plain =
      Swept-from fit front (x ∷ (mid ++ (y ∷ []))) (front ++ (y ∷ [])) mid result (λ t. (
        rw (kept_disabled x (mid ++ (y ∷ [])) e, kept-plain overrides mid y (plain t), append_assoc)
            ((perm-append_left_iff front).1 (perm_append_comm (y ∷ []) (kept overrides mid))),
        rw (kept_disabled x (mid ++ (y ∷ [])) e, kept-plain overrides mid y (plain t))
            (omega
              (arith, length-append front (y ∷ []), length-append (kept overrides mid) (y ∷ []))),
      ))
