-- ===== src/Base/Dict.antt =====
-- Go's maps with string keys, as association lists: `m[k]` with its `ok`, and `m[k] = v`.
-- The order of the entries is the order in which a `range` visits them, which Go leaves open.
use Prim.Native.String.{String}
use mathlib.Core.Path.{◌≡◌, refl}
use mathlib.Core.List.{List, [], ◌∷◌}
use mathlib.Core.Option.{Option, none, some}
use native.Mathlib.Omega.{arith}
use mimir_operator.Base.Tests.{◌==◌, string_eq, if◌then◌else◌}

abbrev pub Dict {ℓ} : Type ℓ → Type ℓ
Dict V = List (String × V)

module _ {ℓ} {V : Type ℓ} where
  unfoldable pub lookup : String → Dict V → Option V
  lookup key [] = none
  lookup key ((name, value) ∷ entries) =
      let rest = lookup key entries in if name == key then some value else rest

  unfoldable pub insert : String → V → Dict V → Dict V
  insert key value [] = (key, value) ∷ []
  insert key value ((name, old) ∷ entries) =
      let rest = insert key value entries in
      if name == key then (name, value) ∷ entries else (name, old) ∷ rest

  abbrev pub keys : Dict V → List String
  keys [] = []
  keys ((name, value) ∷ entries) = name ∷ keys entries

  pub lookup-insert :
      (key other : String) (value : V) (entries : Dict V)
      → lookup other (insert key value entries)
        ≡ (if key == other then some value else lookup other entries)
  unfolding lookup insert
  lookup-insert key other value [] = refl
  lookup-insert key other value ((name, old) ∷ entries) =
      let tail = lookup-insert key other value entries in
      ground (
        arith,
        tail,
        string_eq.same_iff key other,
        string_eq.same_iff name key,
        string_eq.same_iff name other,
      )
