-- ===== src/Auth.antt =====
-- `ExtractAuth`, `FindSecretByRef` and `FindValueByKeyInSecret` of internal/utils/utils.go, and the
-- `Auth` block of api/v1alpha1/common.go. A nil pointer is `none`.
pub mod Schemes
use mimir_operator.Base.{String, ◌<>◌, ◌==◌, string_eq, Option, none, some, not, if◌then◌else◌}
use mimir_operator.Base.Dict.{Dict, lookup}
use mimir_operator.Exec.{Exec, Error, failure, pure, throw, wrap, ◌>>=◌}

pub record Auth : Type 0 where
  pub user : String
  pub key : String
  pub key_secret_ref : Option String
  pub token : String
  pub token_secret_ref : Option String

pub record Authentication : Type 0 where
  pub username : String
  pub key : String
  pub token : String

abbrev pub no_authentication : Authentication
no_authentication = record { username = ""; key = ""; token = "" }

-- `value, ok := secret.Data[key]`
unfoldable pub secret_value :
    {W : Type 0} → String → String → String → Option String → Exec W String
secret_value name namespace key none =
    throw (failure ("couldn't find  key '" <> key <> "' in secret " <> namespace <> "/" <> name))
secret_value name namespace key (some value) = pure value

module _ {W : Type 0} (get_secret : String → String → Exec W (Dict String)) where
  -- The data of the secret `name` in `namespace`.
  unfoldable pub find_secret_by_ref : String → String → Exec W (Dict String)
  find_secret_by_ref name namespace =
      wrap ("failed to retrieve secret " <> namespace <> "/" <> name) (get_secret namespace name)

  unfoldable pub find_value_by_key_in_secret : String → String → String → Exec W String
  unfolding find_secret_by_ref lookup secret_value
  find_value_by_key_in_secret name namespace key = do
    secret ← find_secret_by_ref name namespace
    secret_value name namespace key (lookup key secret)

  from_token_secret : String → String → Exec W Authentication
  from_token_secret name namespace = do
    token ← find_value_by_key_in_secret name namespace "token"
    pure (record { username = ""; key = ""; token = token })

  from_key_secret : String → String → String → Exec W Authentication
  from_key_secret user name namespace = do
    key ← find_value_by_key_in_secret name namespace "key"
    pure (record { username = user; key = key; token = "" })

  -- The user/key scheme, the second half of `ExtractAuth`.
  extract_key : Auth → String → Exec W Authentication
  unfolding from_key_secret
  extract_key auth namespace =
      if not (auth.key == "")
      then pure (record { username = auth.user; key = auth.key; token = "" })
      else elim auth.key_secret_ref [
        | none ↦ pure no_authentication
        | some name ↦ from_key_secret auth.user name namespace
      ]

  unfoldable pub extract_auth : Option Auth → String → Exec W Authentication
  unfolding extract_key from_token_secret from_key_secret find_value_by_key_in_secret
  extract_auth none namespace = pure no_authentication
  extract_auth (some auth) namespace =
      if not (auth.token == "")
      then pure (record { username = ""; key = ""; token = auth.token })
      else elim auth.token_secret_ref [
        | none ↦ extract_key auth namespace
        | some name ↦ from_token_secret name namespace
      ]
