-- ===== src/Reconcile/Calls.antt =====
-- What the making of a client leaves as it was, when the reads of secrets do.
use mimir_operator.Base.{String, ◌==◌, not, string_eq, Option, none, some}
use mimir_operator.Base.Dict.{lookup}
use mimir_operator.Exec.{continue, pure, with_prefix}
use mimir_operator.Exec.Keeps.{Keeps, continue-Keeps, with_prefix-Keeps, if-Keeps, option-Keeps}
use mimir_operator.Auth.{
  Auth, Authentication, secret_value, find_secret_by_ref, find_value_by_key_in_secret, extract_auth,
}
use mimir_operator.Client.{new}
use mimir_operator.Cluster.{Cluster}
use mimir_operator.Reconcile.{config_of, create_mimir_client}

module _ (C : Cluster) (P : C.World → Type 0) where
  open C use {World, net, get_secret}

  secret_value-Keeps :
      (name namespace key : String) (value : Option String)
      → Keeps P (secret_value {W = World} name namespace key value)
  unfolding secret_value
  secret_value-Keeps name namespace key none w h = h
  secret_value-Keeps name namespace key (some value) w h = h

  module _ (kept : (namespace name : String) → Keeps P (get_secret namespace name)) where
    find_value-Keeps :
        (name namespace key : String)
        → Keeps P (find_value_by_key_in_secret get_secret name namespace key)
    unfolding find_value_by_key_in_secret find_secret_by_ref
    find_value-Keeps name namespace key w h =
        continue-Keeps P (find_secret_by_ref get_secret name namespace w) _
          (with_prefix-Keeps P _ (get_secret namespace name w) (kept namespace name w h))
          (λ secret. secret_value-Keeps name namespace key (lookup key secret))

    secret_used :
        (name namespace key : String) (f : String → Authentication) (w : World)
        → P w
        → P (
            (continue
              (find_value_by_key_in_secret get_secret name namespace key w)
              (λ value. pure (f value))).1)
    secret_used name namespace key f w h =
        continue-Keeps P (find_value_by_key_in_secret get_secret name namespace key w) _
          (find_value-Keeps name namespace key w h) (λ _ w h. h)

    extract_auth-Keeps :
        (auth : Option Auth) (namespace : String) → Keeps P (extract_auth get_secret auth namespace)
    unfolding extract_auth
    extract_auth-Keeps none namespace w h = h
    extract_auth-Keeps (some auth) namespace w h = if-Keeps P (not (auth.token == "")) _ _ w h (
        option-Keeps P auth.token_secret_ref _ _ w
          (if-Keeps P (not (auth.key == "")) _ _ w h (
            option-Keeps P auth.key_secret_ref _ _ w h (λ name.
              secret_used name namespace "key"
                (λ key. record { username = auth.user; key = key; token = "" }) w h)))
          (λ name.
            secret_used name namespace "token"
              (λ token. record { username = ""; key = ""; token = token }) w h))

    pub create_mimir_client-Keeps :
        (auth : Option Auth) (url id namespace : String)
        → Keeps P (create_mimir_client C auth url id namespace)
    unfolding create_mimir_client
    create_mimir_client-Keeps auth url id namespace w h =
        continue-Keeps P (with_prefix _ (extract_auth get_secret auth namespace w)) _
          (with_prefix-Keeps P _ (extract_auth get_secret auth namespace w)
            (extract_auth-Keeps auth namespace w h))
          (λ a w h. with_prefix-Keeps P _ (new net (config_of url id a), w) h)
