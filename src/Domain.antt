-- ===== src/Domain.antt =====
-- api/v1alpha1: the resources MimirRules and MimirAlertManagerConfig. Of their metadata stands what
-- the controllers read or write. Pointers and maps that may be nil are `Option`s, but for
-- `overrides` and `external_labels`, where the code treats nil as empty.
use mimir_operator.Base.{ℕ, String, List, Option}
use mimir_operator.Base.Dict.{Dict}
use mimir_operator.Auth.{Auth}
use mimir_operator.Overrides.{Override}

-- `metav1.LabelSelector`
pub record Requirement : Type 0 where
  pub key : String
  pub operator : String
  pub values : List String

pub record LabelSelector : Type 0 where
  pub match_labels : Dict String
  pub match_expressions : List Requirement

pub record ObjectMeta : Type 0 where
  pub namespace : String
  pub name : String
  pub deletion_timestamp : Option ℕ
  pub finalizers : List String

pub record Rules : Type 0 where
  pub selectors : List LabelSelector

pub record MimirRulesSpec : Type 0 where
  pub id : String
  pub url : String
  pub auth : Option Auth
  pub rules : Option Rules
  pub overrides : Dict Override
  pub external_labels : Dict String

pub record MimirRulesStatus : Type 0 where
  pub status : String
  pub error : String
  pub ref_rules : List String

pub record MimirRules : Type 0 where
  pub meta : ObjectMeta
  pub spec : MimirRulesSpec
  pub status : MimirRulesStatus

pub record MimirAlertManagerConfigSpec : Type 0 where
  pub id : String
  pub url : String
  pub auth : Option Auth
  pub config : String

pub record MimirAlertManagerConfigStatus : Type 0 where
  pub status : String
  pub error : String

pub record MimirAlertManagerConfig : Type 0 where
  pub meta : ObjectMeta
  pub spec : MimirAlertManagerConfigSpec
  pub status : MimirAlertManagerConfigStatus
