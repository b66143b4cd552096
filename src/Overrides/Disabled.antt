-- ===== src/Overrides/Disabled.antt =====
-- The loop over one group where overrides may ask to disable rules: when it panics, and what it
-- leaves. A removal moves the last rule of the slice into the hole while the loop goes on over the
-- old slice.
use mimir_operator.Base.{
  ℕ, suc, ◌-◌, ◌≤◌, ◌≡◌, refl, sym, ap, arith, Bool, true, false, ◌&&◌, List, [], ◌∷◌, ◌++◌, none,
  some, ltb, ◌==◌, nat_eq, if◌then◌else◌, length, Bool-cases, Option-cases, inl, inr, length-append,
}
use mimir_operator.Base.Dict.{Dict, lookup}
use mimir_operator.Prometheus.{Rule}
use mimir_operator.Overrides.{Override, rule_name, override_rule}
use mimir_operator.Overrides.Patch.{is_disabled, overridden, override_rule-eq-patched}
use mimir_operator.Overrides.Slices.{get_elem?-append, append_shift}
use mimir_operator.Overrides.Local.{local_loop}

-- An override names the rule.
unfoldable pub is_named : Dict Override → Rule → Bool
is_named overrides rule = elim (lookup (rule_name rule) overrides) [ none ↦ false | some o ↦ true ]

-- The places of the slice that a rule uses up: its own, and one more if it is removed.
unfoldable pub places : Dict Override → Rule → ℕ
places overrides rule = if is_disabled overrides rule then 2 else 1

-- Every rule that an override names finds a place left, where `m` places are left at the start.
unfoldable pub rules_fit : Dict Override → ℕ → List Rule → Bool
unfolding places is_named is_disabled
rules_fit overrides m [] = true
rules_fit overrides m (x ∷ xs) =
    let rest = rules_fit overrides (m - places overrides x) xs in
    if is_named overrides x && m == 0 then false else rest

-- The rules that are not disabled, under their overrides.
unfoldable pub kept : Dict Override → List Rule → List Rule
unfolding overridden is_disabled
kept overrides [] = []
kept overrides (x ∷ xs) =
    let rest = kept overrides xs in
    if is_disabled overrides x then rest else overridden overrides x ∷ rest

module _ (overrides : Dict Override) where
  -- A rule that no override names.
  pub record IsPlain (x : Rule) : Type 0 where
    pub unnamed : lookup (rule_name x) overrides ≡ none
    pub named : is_named overrides x ≡ false
    pub disabled : is_disabled overrides x ≡ false
    pub same : overridden overrides x ≡ x

  pub named_false : (x : Rule) → is_named overrides x ≡ false → IsPlain x
  unfolding is_named is_disabled overridden
  named_false x h = elim (Option-cases (lookup (rule_name x) overrides)) [
    | inl e ↦ record {
      unnamed = e;
      named = h;
      disabled = rw (e, is_disabled);
      same = rw (e, overridden);
    }
    | inr (o, e) ↦ let t : is_named overrides x ≡ true = rw (e, is_named) in cc
  ]

  -- A rule that is named has an override, which decides the rest.
  pub record IsNamed (x : Rule) (o : Override) : Type 0 where
    pub found : lookup (rule_name x) overrides ≡ some o
    pub named : is_named overrides x ≡ true
    pub disabled : is_disabled overrides x ≡ o.disable
    pub patch : overridden overrides x ≡ override_rule o x

  pub IsNamed-true : (x : Rule) → is_named overrides x ≡ true → (o : Override) × IsNamed x o
  unfolding is_named is_disabled overridden
  IsNamed-true x h = elim (Option-cases (lookup (rule_name x) overrides)) [
    | inl e ↦ let t : is_named overrides x ≡ false = rw (e, is_named) in cc
    | inr (o, e) ↦ (
      o,
      record {
        found = e;
        named = h;
        disabled = rw (e, is_disabled);
        patch = rw (e, overridden) (sym (override_rule-eq-patched o x));
      },
    )
  ]

  pub kept-plain :
      (xs : List Rule) (y : Rule)
      → IsPlain y
      → kept overrides (xs ++ (y ∷ [])) ≡ kept overrides xs ++ (y ∷ [])
  unfolding kept
  kept-plain [] y p = rw (p.disabled, p.same)
  kept-plain (x ∷ xs) y p = elim (Bool-cases (is_disabled overrides x)) [
    | inl e ↦ rw e (kept-plain xs y p)
    | inr e ↦ rw e (ap (◌∷◌ (overridden overrides x)) (kept-plain xs y p))
  ]

  -- A rule behind the places that are left is plain.
  pub fit→IsPlain :
      (m : ℕ) (xs : List Rule) (y : Rule) (dead : List Rule)
      → m ≤ length xs
      → rules_fit overrides m (xs ++ (y ∷ dead)) ≡ true
      → IsPlain y
  unfolding rules_fit
  fit→IsPlain m [] y dead le h = named_false y (ground arith)
  fit→IsPlain m (x ∷ xs) y dead le h =
      fit→IsPlain (m - places overrides x) xs y dead (unfold places in ground arith) (ground arith)

  -- Past the end of the slice the loop does nothing, or panics at a rule that an override names.
  pub loop_behind :
      (rest front : List Rule) (r len : ℕ)
      → r ≡ length front
      → len ≤ r
      → local_loop overrides (length rest) r (front ++ rest) len
        ≡ (if rules_fit overrides 0 rest then some (front ++ rest, len) else none)
  unfolding local_loop rules_fit
  loop_behind [] front r len e le = refl
  loop_behind (x ∷ rest) front r len e le =
      let at = get_elem?-append front x rest r e in
      let shift = append_shift front x rest in
      let next =
        loop_behind rest (front ++ (x ∷ [])) (suc r) len
          (omega (arith, length-append front (x ∷ []))) (omega arith) in
      elim (Bool-cases (is_named overrides x)) [
        | inr plain ↦
            let p = named_false x plain in
            rw (at, local_loop)
              (rw (p.unnamed, local_loop)
                (rw (plain, shift) (let z : 0 - places overrides x ≡ 0 = omega arith in rw z next)))
        | inl named ↦
            let (o, n) = IsNamed-true x named in
            let outside : ltb r len ≡ false = ground arith in
            rw (at, local_loop)
              (rw (n.found, local_loop)
                (rw (outside, named) (elim (Bool-cases o.disable) [ inl d ↦ rw d | inr d ↦ rw d ])))
      ]
