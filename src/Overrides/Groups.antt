-- ===== src/Overrides/Groups.antt =====
-- The loop over the groups of a resource, where a group that has lost its last rule is removed by
-- moving the last group into its place.
use mimir_operator.Base.{
  ℕ, suc, ◌-◌, ◌≡◌, refl, ap, ◌∙◌, arith, Bool, true, false, not, ◌&&◌, ◌||◌, List, [], ◌∷◌, ◌++◌,
  some, ◌==◌, nat_eq, if◌then◌else◌, length, length-append, take-length,
}
use mimir_operator.Base.Dict.{Dict}
use mimir_operator.Prometheus.{Rule, RuleGroup}
use mimir_operator.Overrides.{Override}
use mimir_operator.Overrides.Slices.{append_shift}
use mimir_operator.Overrides.Local.{local_loop}
use mimir_operator.Overrides.Disabled.{is_named, places, rules_fit, kept, named_false}
use mimir_operator.Overrides.Steps.{step_plain}
use mimir_operator.Overrides.Memory.{swept_rules}

-- An override names one of the rules.
unfoldable pub any_named : Dict Override → List Rule → Bool
any_named overrides [] = false
any_named overrides (x ∷ xs) = let rest = any_named overrides xs in is_named overrides x || rest

-- The group has rules, and all of them are disabled.
unfoldable pub is_emptied : Dict Override → RuleGroup → Bool
unfolding kept
is_emptied overrides x = not (length x.rules == 0) && length (kept overrides x.rules) == 0

-- The places of the slice of groups that a group uses up.
unfoldable pub group_places : Dict Override → RuleGroup → ℕ
group_places overrides x = if is_emptied overrides x then 2 else 1

-- The rules of each group fit, and each group with a rule that an override names finds a place
-- left.
unfoldable pub groups_fit : Dict Override → ℕ → List RuleGroup → Bool
unfolding any_named is_emptied group_places rules_fit
groups_fit overrides m [] = true
groups_fit overrides m (x ∷ xs) =
    let rest = groups_fit overrides (m - group_places overrides x) xs in
    if any_named overrides x.rules && m == 0
    then false
    else if rules_fit overrides (length x.rules) x.rules
    then rest
    else false

-- The groups that keep a rule, or had none.
unfoldable pub kept_groups : Dict Override → List RuleGroup → List RuleGroup
unfolding is_emptied
kept_groups overrides [] = []
kept_groups overrides (x ∷ xs) =
    let rest = kept_groups overrides xs in if is_emptied overrides x then rest else x ∷ rest

module _ (overrides : Dict Override) where
  pub rules_fit_plain :
      (m : ℕ) (xs : List Rule) → any_named overrides xs ≡ false → rules_fit overrides m xs ≡ true
  unfolding rules_fit any_named
  rules_fit_plain m [] h = refl
  rules_fit_plain m (x ∷ xs) h = ground (arith, rules_fit_plain (m - places overrides x) xs)

  pub rules_fit_zero : (xs : List Rule) → rules_fit overrides 0 xs ≡ not (any_named overrides xs)
  unfolding rules_fit any_named
  rules_fit_zero [] = refl
  rules_fit_zero (x ∷ xs) =
      let zero_left : 0 - places overrides x ≡ 0 = omega arith in
      rw zero_left (ground (arith, rules_fit_zero xs))

  local_plain :
      (rest front : List Rule) (r len : ℕ)
      → r ≡ length front
      → any_named overrides rest ≡ false
      → local_loop overrides (length rest) r (front ++ rest) len ≡ some (front ++ rest, len)
  unfolding local_loop any_named
  local_plain [] front r len e h = refl
  local_plain (x ∷ rest) front r len e h =
      let plain : is_named overrides x ≡ false = ground arith in
      let others : any_named overrides rest ≡ false = ground arith in
      step_plain overrides (length rest) r len front x rest e (named_false overrides x plain)
      ∙ local_plain rest (front ++ (x ∷ [])) (suc r) len
          (omega (arith, length-append front (x ∷ []))) others
      ∙ rw (append_shift front x rest)

  -- A group without a rule that an override names stays as it is.
  pub swept_plain :
      (xs : List Rule) → any_named overrides xs ≡ false → swept_rules overrides xs ≡ xs
  unfolding swept_rules
  swept_plain xs h = rw (local_plain xs [] 0 (length xs) refl h, swept_rules, take-length)

  pub kept_plain : (xs : List Rule) → any_named overrides xs ≡ false → kept overrides xs ≡ xs
  unfolding kept any_named
  kept_plain [] h = refl
  kept_plain (x ∷ xs) h =
      let plain : is_named overrides x ≡ false = ground arith in
      let others : any_named overrides xs ≡ false = ground arith in
      let p = named_false overrides x plain in
      rw (p.disabled, p.same) (ap (◌∷◌ x) (kept_plain xs others))

  pub emptied_plain :
      (x : RuleGroup) → any_named overrides x.rules ≡ false → is_emptied overrides x ≡ false
  unfolding is_emptied
  emptied_plain x h = rw (kept_plain x.rules h) (ground arith)
