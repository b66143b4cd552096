-- ===== src/Prometheus.antt =====
-- The parts of a PrometheusRule resource that internal/controller/mimirrules/rules.go reads or
-- writes. The types belong to the prometheus-operator API; a nil pointer or a nil map is `none`.
use mimir_operator.Base.{ℕ, String, List, Option}
use mimir_operator.Base.Dict.{Dict}

-- `intstr.IntOrString`: which of the two values counts is said by the first field.
pub data ExprType : Type 0 where
  int string : ExprType

pub record IntOrString : Type 0 where
  pub expr_type : ExprType
  pub int_val : ℕ
  pub str_val : String

-- An alerting rule has `alert`, a recording rule has `recording` (the field `Record`).
pub record Rule : Type 0 where
  pub recording : String
  pub alert : String
  pub expr : IntOrString
  pub for_duration : Option String
  pub labels : Option (Dict String)
  pub annotations : Option (Dict String)

pub record RuleGroup : Type 0 where
  pub name : String
  pub interval : Option String
  pub rules : List Rule

pub record PrometheusRule : Type 0 where
  pub namespace : String
  pub name : String
  pub groups : List RuleGroup
