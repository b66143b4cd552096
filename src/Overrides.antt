-- ===== src/Overrides.antt =====
-- `applyOverrides`, `removeRule` and `removeGroup` of internal/controller/mimirrules/rules.go.
-- A Go slice is a window on a backing array. The loops range over the slices as they were when a
-- loop began, while the body shortens `item.Spec.Groups[g].Rules` and `item.Spec.Groups` and
-- writes into the same arrays, so the arrays are explicit. `none` is an index out of range, on
-- which Go panics.
pub mod Arrays
pub mod Patch
pub mod Enabled
pub mod Slices
pub mod Local
pub mod Disabled
pub mod Steps
pub mod Swept
pub mod Memory
pub mod Groups
pub mod Places
pub mod Removed
pub mod Loop
pub mod Round
pub mod Outcome
pub mod Exact
pub mod Panics
pub mod Names
use mimir_operator.Base.{
  ℕ, zero, suc, ◌-◌, String, Bool, List, [], ◌∷◌, Option, none, some, ltb, ◌==◌, nat_eq, string_eq,
  if◌then◌else◌, ◌>>=◌, length, get_elem?, set, take,
}
use mimir_operator.Base.Dict.{Dict, lookup}
use mimir_operator.Prometheus.{Rule, RuleGroup, PrometheusRule}

pub record Override : Type 0 where
  pub disable : Bool
  pub annotations : Option (Dict String)
  pub labels : Option (Dict String)
  pub expr : String
  pub for_duration : String

-- A `RuleGroup` struct in memory: its slice `Rules` is the first `len` entries of an array.
pub record GroupHeader : Type 0 where
  pub name : String
  pub interval : Option String
  pub array : ℕ
  pub len : ℕ

-- A PrometheusRule in memory: `Spec.Groups` is the first `count` entries of `groups`.
pub record Item : Type 0 where
  pub arrays : ℕ → List Rule
  pub groups : List GroupHeader
  pub count : ℕ

unfoldable pub update : (ℕ → List Rule) → ℕ → List Rule → ℕ → List Rule
update f a xs b = if a == b then xs else f b

unfoldable pub headers : ℕ → List RuleGroup → List GroupHeader
headers i [] = []
headers i (x ∷ xs) =
    record { name = x.name; interval = x.interval; array = i; len = length x.rules }
    ∷ headers (suc i) xs

unfoldable pub rules_at : List RuleGroup → ℕ → List Rule
rules_at [] i = []
rules_at (x ∷ xs) zero = x.rules
rules_at (x ∷ xs) (suc i) = rules_at xs i

-- The resource as it was decoded: every group has an array of its own.
unfoldable pub load : List RuleGroup → Item
unfolding headers rules_at
load xs = record { arrays = rules_at xs; groups = headers 0 xs; count = length xs }

abbrev pub group_of : (ℕ → List Rule) → GroupHeader → RuleGroup
group_of arrays h = record {
  name = h.name;
  interval = h.interval;
  rules = take h.len (arrays h.array);
}

unfoldable pub groups_of : (ℕ → List Rule) → List GroupHeader → List RuleGroup
groups_of arrays [] = []
groups_of arrays (h ∷ hs) = group_of arrays h ∷ groups_of arrays hs

-- What `item.Spec.Groups` shows.
unfoldable pub contents : Item → List RuleGroup
unfolding groups_of
contents item = groups_of item.arrays (take item.count item.groups)

-- A bounds check of Go.
abbrev pub in_range {ℓ} : {A : Type ℓ} → ℕ → ℕ → Option A → Option A
in_range i n r = if ltb i n then r else none

-- `item.Spec.Groups[g]`
unfoldable pub group_at : Item → ℕ → Option GroupHeader
group_at item g = in_range g item.count (get_elem? item.groups g)

-- `s[index] = s[len(s)-1]; return s[:len(s)-1]`, for the slice of a header.
unfoldable pub remove_rule :
    (ℕ → List Rule) → GroupHeader → ℕ → Option ((ℕ → List Rule) × GroupHeader)
unfolding update
remove_rule arrays h index = in_range index h.len (
    get_elem? (arrays h.array) (h.len - 1) >>= λ last.
    some (update arrays h.array (set (arrays h.array) index last), record h { len = h.len - 1 }))

-- The same for the slice of groups.
unfoldable pub remove_group : Item → ℕ → Option Item
remove_group item index = in_range index item.count (
    get_elem? item.groups (item.count - 1) >>= λ last.
    some (record item { groups = set item.groups index last; count = item.count - 1 }))

unfoldable pub rule_name : Rule → String
rule_name rule = if rule.alert == "" then rule.recording else rule.alert

-- The four fields that an override sets, where it gives them.
unfoldable pub override_rule : Override → Rule → Rule
override_rule o rule = record rule {
  annotations = elim o.annotations [ none ↦ rule.annotations | some m ↦ some m ];
  labels = elim o.labels [ none ↦ rule.labels | some m ↦ some m ];
  expr = if o.expr == "" then rule.expr else record (rule.expr) { str_val = o.expr };
  for_duration = if o.for_duration == "" then rule.for_duration else some o.for_duration;
}

-- `item.Spec.Groups[g].Rules[r] = rule`
unfoldable pub write_rule : ℕ → ℕ → Rule → Item → Option Item
unfolding update group_at
write_rule g r rule item = group_at item g >>= λ h.
    in_range r h.len (
      some (record item { arrays = update item.arrays h.array (set (item.arrays h.array) r rule) }))

-- The branch `override.Disable`: the rule goes, and its group when it was the last one.
unfoldable pub disable_rule : ℕ → ℕ → Item → Option Item
unfolding group_at remove_rule remove_group
disable_rule g r item = group_at item g >>= λ h. remove_rule item.arrays h r >>= λ (arrays, h').
    let item' = record item { arrays = arrays; groups = set item.groups g h' } in
    if h'.len == 0 then remove_group item' g else some item'

unfoldable pub visit : Dict Override → ℕ → ℕ → Rule → Item → Option Item
unfolding lookup rule_name override_rule write_rule disable_rule
visit overrides g r rule item = elim (lookup (rule_name rule) overrides) [
  | none ↦ some item
  | some o ↦ if o.disable then disable_rule g r item else write_rule g r (override_rule o rule) item
]

-- `for r, rule := range group.Rules`: `n` rounds are left, and `array` is that of `group`.
unfoldable pub rules_loop : Dict Override → ℕ → ℕ → ℕ → ℕ → Item → Option Item
unfolding visit
rules_loop overrides g array zero r item = some item
rules_loop overrides g array (suc n) r item = get_elem? (item.arrays array) r >>= λ rule.
    visit overrides g r rule item >>= rules_loop overrides g array n (suc r)

-- `for g, group := range item.Spec.Groups`
unfoldable pub groups_loop : Dict Override → ℕ → ℕ → Item → Option Item
unfolding rules_loop
groups_loop overrides zero g item = some item
groups_loop overrides (suc n) g item = get_elem? item.groups g >>= λ group.
    rules_loop overrides g group.array group.len 0 item >>= groups_loop overrides n (suc g)

unfoldable pub override_groups : Dict Override → List RuleGroup → Option (List RuleGroup)
unfolding load contents groups_loop
override_groups overrides xs =
    let item = load xs in groups_loop overrides item.count 0 item >>= λ item'. some (contents item')

override_items : Dict Override → List PrometheusRule → Option (List PrometheusRule)
override_items overrides [] = some []
override_items overrides (p ∷ ps) = override_groups overrides p.groups >>= λ xs.
    override_items overrides ps >>= λ qs. some (record p { groups = xs } ∷ qs)

unfoldable pub apply_overrides : Dict Override → List PrometheusRule → Option (List PrometheusRule)
unfolding override_items override_groups
apply_overrides [] list = some list
apply_overrides (o ∷ overrides) list = override_items (o ∷ overrides) list
