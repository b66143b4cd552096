-- ===== src/Auth/Schemes.antt =====
-- What `ExtractAuth` returns for each form of the `Auth` block.
use mimir_operator.Base.{◌≡◌, ◌⊎◌, arith, String, string_eq, Option, none, some}
use mimir_operator.Base.Dict.{Dict}
use mimir_operator.Exec.{Exec, ok}
use mimir_operator.Auth.{Auth, Authentication, extract_auth}

-- At most one of the two schemes: no token, or neither user nor key.
abbrev pub OneScheme : Authentication → Type 0
OneScheme a = (a.token ≡ "") ⊎ ((a.username ≡ "") × (a.key ≡ ""))

module _ {W : Type 0} (get_secret : String → String → Exec W (Dict String)) where
  -- Whatever the block says and whatever the secrets hold, the authentication that `ExtractAuth`
  -- returns has a token, or a user and a key, never both.
  pub extract_auth-OneScheme :
      (auth : Option Auth) (namespace : String) (w w' : W) (a : Authentication)
      → extract_auth get_secret auth namespace w ≡ (ok a, w')
      → OneScheme a
  unfolding extract_auth
  extract_auth-OneScheme none namespace w w' a h = ground arith
  extract_auth-OneScheme (some auth) namespace w w' a h = ground arith
