-- ===== src/Overrides/Enabled.antt =====
-- `applyOverrides` where no rule of the resources is disabled: it changes each rule in its place.
use mimir_operator.Base.{
  string_eq, if◌then◌else◌, ℕ, zero, suc, ◌+◌, ◌<◌, ◌≤◌, ◌≡◌, ◌≢◌, ◌&&◌, leb, if◌then◌else◌, refl,
  sym, ap, ap₂, ◌∙◌, arith, false, List, [], ◌∷◌, map, some, ltb, lt→ltb, length, get_elem?, set,
  All, Option-cases, inl, inr, length-set, get_elem?-set_ne, get_elem?-some, length-map,
}
use mimir_operator.Base.Dict.{Dict, lookup}
use mimir_operator.Prometheus.{Rule, RuleGroup, PrometheusRule}
use mimir_operator.Overrides.{
  Override, GroupHeader, Item, update, group_at, rule_name, override_items, apply_overrides,
  rules_at, load, override_groups, visit, rules_loop, groups_loop,
}
use mimir_operator.Overrides.Patch.{is_disabled, overridden, override_rule-eq-patched}
use mimir_operator.Overrides.Arrays.{
  headers_at, map_rules, contents-load, set_self, update_self, update-update, update_at, update_ne,
}

map_from : ℕ → (Rule → Rule) → List Rule → List Rule
map_from zero f xs = map f xs
map_from (suc r) f [] = []
map_from (suc r) f (x ∷ xs) = x ∷ map_from r f xs

map_from-set :
    (r : ℕ) (f : Rule → Rule) (xs : List Rule) (x : Rule)
    → get_elem? xs r ≡ some x
    → map_from (suc r) f (set xs r (f x)) ≡ map_from r f xs
unfolding map_from
map_from-set zero f [] x h = cc
map_from-set zero f (y ∷ xs) x h = ground arith
map_from-set (suc r) f [] x h = cc
map_from-set (suc r) f (y ∷ xs) x h = ap (◌∷◌ y) (map_from-set r f xs x h)

map_from-length : (f : Rule → Rule) (xs : List Rule) → map_from (length xs) f xs ≡ xs
unfolding map_from
map_from-length f [] = refl
map_from-length f (x ∷ xs) = ap (◌∷◌ x) (map_from-length f xs)

module _ (overrides : Dict Override) where
  visit_enabled :
      (g r : ℕ) (rule : Rule) (item : Item) (h : GroupHeader)
      → group_at item g ≡ some h
      → r < h.len
      → get_elem? (item.arrays h.array) r ≡ some rule
      → is_disabled overrides rule ≡ false
      → visit overrides g r rule item
        ≡ some (record item {
          arrays =
              update item.arrays h.array (set (item.arrays h.array) r (overridden overrides rule));
        })
  unfolding visit is_disabled overridden
  visit_enabled g r rule item h found lt at enabled =
      elim (Option-cases (lookup (rule_name rule) overrides)) [
        | inl e ↦ rw (e, visit, overridden, set_self _ r rule at, update_self item.arrays h.array)
        | inr (o, e) ↦
            let on : o.disable ≡ false = rw (e, is_disabled) at enabled in
            rw (e, visit, overridden)
              (rw on (rw (override_rule-eq-patched o rule, found, lt→ltb r h.len lt)))
      ]

  -- Rules from position `r` on are not disabled.
  abbrev EnabledFrom : ℕ → List Rule → Type 0
  EnabledFrom r xs =
      (i : ℕ) (x : Rule) → r ≤ i → get_elem? xs i ≡ some x → is_disabled overrides x ≡ false

  abbrev IsEnabled : Rule → Type 0
  IsEnabled x = is_disabled overrides x ≡ false

  All→EnabledFrom : (xs : List Rule) → All IsEnabled xs → EnabledFrom 0 xs
  All→EnabledFrom [] all i x h at = cc
  All→EnabledFrom (y ∷ xs) (here, all) zero x h at = let e : y ≡ x = cc in rw (← e) here
  All→EnabledFrom (y ∷ xs) (here, all) (suc i) x h at = All→EnabledFrom xs all i x (omega arith) at

  EnabledFrom-set :
      (r : ℕ) (xs : List Rule) (x : Rule) → EnabledFrom r xs → EnabledFrom (suc r) (set xs r x)
  EnabledFrom-set r xs x all i y le at =
      let ne : r ≢ i = λ e. absurd (omega arith) in
      all i y (omega arith) (sym (get_elem?-set_ne xs x ne) ∙ at)

  rules_loop_enabled :
      (n r g : ℕ) (item : Item) (h : GroupHeader)
      → group_at item g ≡ some h
      → h.len ≡ length (item.arrays h.array)
      → r + n ≡ h.len
      → EnabledFrom r (item.arrays h.array)
      → rules_loop overrides g h.array n r item
        ≡ some (record item {
          arrays =
              update item.arrays h.array (map_from r (overridden overrides) (item.arrays h.array));
        })
  unfolding rules_loop group_at
  rules_loop_enabled zero r g item h found whole e all =
      let full : r ≡ length (item.arrays h.array) = omega arith in
      rw (full, map_from-length, update_self item.arrays h.array)
  rules_loop_enabled (suc n) r g item h found whole e all =
      let (x, at) = get_elem?-some (item.arrays h.array) r (omega arith) in
      let ys = set (item.arrays h.array) r (overridden overrides x) in
      let now : update item.arrays h.array ys h.array ≡ ys = update_at item.arrays h.array ys in
      let from : EnabledFrom (suc r) ys = EnabledFrom-set r _ _ all in
      let rest =
        rules_loop_enabled n (suc r) g (record item { arrays = update item.arrays h.array ys }) h
          found (rw (now, length-set) whole) (omega arith) (rw now from) in
      rw (at, visit_enabled g r x item h found (omega arith) at (all r x (omega arith) at))
        (rw (
          rest,
          now,
          update-update item.arrays h.array,
          map_from-set r (overridden overrides) _ x at,
        ))

  -- The groups from `g` on are changed, those before it are not.
  arrays_from : ℕ → ℕ → (ℕ → List Rule) → ℕ → List Rule
  arrays_from zero g arrays = arrays
  arrays_from (suc n) g arrays =
      arrays_from n (suc g) (update arrays g (map (overridden overrides) (arrays g)))

  -- Every group from `g` on has an array of its own, which its slice covers, with no disabled rule.
  record IsFresh (g : ℕ) (item : Item) : Type 0 where
    header :
        (j : ℕ)
        → g ≤ j
        → j < item.count
        → (h : GroupHeader) × (get_elem? item.groups j ≡ some h)
          × (h.array ≡ j)
          × (h.len ≡ length (item.arrays j))
    enabled : (j : ℕ) → g ≤ j → EnabledFrom 0 (item.arrays j)

  IsFresh-next :
      (g : ℕ) (item : Item) (xs : List Rule)
      → IsFresh g item
      → IsFresh (suc g) (record item { arrays = update item.arrays g xs })
  IsFresh-next g item xs fresh = record {
    header = λ j above below.
        let same = update_ne item.arrays g xs {b = j} (λ e. absurd (omega arith)) in
        rw same (fresh.header j (omega arith) below);
    enabled = λ j above.
        let same = update_ne item.arrays g xs {b = j} (λ e. absurd (omega arith)) in
        rw same (fresh.enabled j (omega arith));
  }

  groups_loop_enabled :
      (n g : ℕ) (item : Item)
      → g + n ≡ item.count
      → IsFresh g item
      → groups_loop overrides n g item ≡ some (record item { arrays = arrays_from n g item.arrays })
  unfolding groups_loop arrays_from group_at map_from
  groups_loop_enabled zero g item e fresh = refl
  groups_loop_enabled (suc n) g item e fresh =
      let (h, at, own, whole) = fresh.header g (omega arith) (omega arith) in
      let rest =
        groups_loop_enabled n (suc g)
          (record item {
            arrays = update item.arrays g (map (overridden overrides) (item.arrays g));
          })
          (omega arith) (IsFresh-next g item _ fresh) in
      let found : group_at item g ≡ some h = rw (lt→ltb g item.count (omega arith)) at in
      let loop =
        rules_loop_enabled h.len 0 g item h found (rw own whole) (omega arith)
          (rw own (fresh.enabled g (omega arith))) in
      rw (at, loop, own) rest

  arrays_from_at :
      (n g j : ℕ) (arrays : ℕ → List Rule)
      → arrays_from n g arrays j
        ≡ (if leb g j && ltb j (g + n) then map (overridden overrides) (arrays j) else arrays j)
  unfolding arrays_from
  arrays_from_at zero g j arrays = ground arith
  arrays_from_at (suc n) g j arrays =
      rw (arrays_from_at n (suc g) j) (unfold update in ground arith)

  -- The reference: every rule that an override names takes its fields, in its place.
  abbrev pub override_group : RuleGroup → RuleGroup
  override_group = map_rules (map (overridden overrides))

  EnabledFrom-rules_at :
      (xs : List RuleGroup)
      → All (λ x. All IsEnabled x.rules) xs
      → (j : ℕ) → EnabledFrom 0 (rules_at xs j)
  unfolding rules_at
  EnabledFrom-rules_at [] all j = λ i x h at. cc
  EnabledFrom-rules_at (y ∷ xs) (here, all) zero = All→EnabledFrom y.rules here
  EnabledFrom-rules_at (y ∷ xs) (here, all) (suc j) = EnabledFrom-rules_at xs all j

  load-IsFresh : (xs : List RuleGroup) → All (λ x. All IsEnabled x.rules) xs → IsFresh 0 (load xs)
  unfolding load
  load-IsFresh xs all = record {
    header = λ j above below. headers_at 0 j j xs (omega arith) below;
    enabled = λ j above. EnabledFrom-rules_at xs all j;
  }

  pub override_groups_enabled :
      (xs : List RuleGroup)
      → All (λ x. All IsEnabled x.rules) xs
      → override_groups overrides xs ≡ some (map override_group xs)
  unfolding override_groups load
  override_groups_enabled xs all =
      let item = load xs in
      let run = groups_loop_enabled item.count 0 item (omega arith) (load-IsFresh xs all) in
      rw run (
        ap some (
          contents-load (map (overridden overrides)) _ xs (length-map (overridden overrides))
            (λ j lt. arrays_from_at (length xs) 0 j (rules_at xs) ∙ ground arith)))

  abbrev pub override_rules : PrometheusRule → PrometheusRule
  override_rules p = record p { groups = map override_group p.groups }

  -- No rule of the resources is disabled.
  abbrev pub NoneDisabled : List PrometheusRule → Type 0
  NoneDisabled = All (λ p. All (λ x. All IsEnabled x.rules) p.groups)

  override_items_enabled :
      (list : List PrometheusRule)
      → NoneDisabled list
      → override_items overrides list ≡ some (map override_rules list)
  unfolding override_items
  override_items_enabled [] all = refl
  override_items_enabled (p ∷ list) (here, all) =
      rw (override_groups_enabled p.groups here, override_items_enabled list all)

map_same {ℓ} : {A : Type ℓ} (f : A → A) (xs : List A) → ((x : A) → f x ≡ x) → map f xs ≡ xs
map_same f [] h = refl
map_same f (x ∷ xs) h = ap₂ ◌∷◌ (h x) (map_same f xs h)

overridden_nil : (x : Rule) → overridden [] x ≡ x
unfolding overridden lookup
overridden_nil x = refl

override_group_nil : (x : RuleGroup) → override_group [] x ≡ x
override_group_nil x = rw (map_same (overridden []) x.rules overridden_nil)

override_rules_nil : (p : PrometheusRule) → override_rules [] p ≡ p
override_rules_nil p = rw (map_same (override_group []) p.groups override_group_nil)

-- Where no override asks to disable a rule of the resources, `applyOverrides` does not panic, keeps
-- every resource, group and rule in its place, and gives each rule the fields of the override that
-- names it.
pub apply_overrides_enabled :
    (overrides : Dict Override) (list : List PrometheusRule)
    → NoneDisabled overrides list
    → apply_overrides overrides list ≡ some (map (override_rules overrides) list)
unfolding apply_overrides
apply_overrides_enabled [] list all = rw (map_same (override_rules []) list override_rules_nil)
apply_overrides_enabled (o ∷ overrides) list all = override_items_enabled (o ∷ overrides) list all
