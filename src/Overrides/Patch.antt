-- ===== src/Overrides/Patch.antt =====
-- What an override does to a rule, field by field.
use mimir_operator.Base.{
  String, ◌==◌, string_eq, if◌then◌else◌, ◌≡◌, arith, Bool, false, Option, none, some,
}
use mimir_operator.Base.Dict.{Dict, lookup}
use mimir_operator.Prometheus.{IntOrString, Rule}
use mimir_operator.Overrides.{Override, rule_name, override_rule}

-- The override that names the rule asks for its removal.
unfoldable pub is_disabled : Dict Override → Rule → Bool
is_disabled overrides rule = elim (lookup (rule_name rule) overrides) [
  | none ↦ false
  | some o ↦ o.disable
]

-- A value that is given stands in for the old one.
abbrev pub prefer {ℓ} : {A : Type ℓ} → Option A → Option A → Option A
prefer none old = old
prefer (some given) old = some given

-- A text that is given: the empty text gives none.
abbrev pub given : String → Option String
given text = if text == "" then none else some text

abbrev pub expression : Option String → IntOrString → IntOrString
expression none e = e
expression (some text) e = record e { str_val = text }

-- A rule under an override, field by field.
abbrev pub patched : Override → Rule → Rule
patched o x = record {
  recording = x.recording;
  alert = x.alert;
  expr = expression (given o.expr) x.expr;
  for_duration = prefer (given o.for_duration) x.for_duration;
  labels = prefer o.labels x.labels;
  annotations = prefer o.annotations x.annotations;
}

-- The rule under the override that names it.
unfoldable pub overridden : Dict Override → Rule → Rule
overridden overrides rule = elim (lookup (rule_name rule) overrides) [
  | none ↦ rule
  | some o ↦ patched o rule
]

pub override_rule-eq-patched : (o : Override) (x : Rule) → override_rule o x ≡ patched o x
unfolding override_rule
override_rule-eq-patched o x = ground arith
