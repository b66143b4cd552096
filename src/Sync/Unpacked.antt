-- ===== src/Sync/Unpacked.antt =====
-- The texts that `unpackRules` makes of the selected resources.
use mimir_operator.Base.{
  ◌≡◌, refl, sym, ap, ◌∙◌, Bool, String, ◌==◌, string_eq, List, [], ◌∷◌, Option, none, some, true,
  false, if◌then◌else◌, All,
}
use mimir_operator.Base.Dict.{Dict, lookup, insert, lookup-insert}
use mimir_operator.Exec.{Outcome, ok, err}
use mimir_operator.Prometheus.{PrometheusRule}
use mimir_operator.Names.{namespace_key}
use mimir_operator.Sync.{unpack_loop, unpack_rules}

abbrev pub key_of : PrometheusRule → String
key_of p = namespace_key p.namespace p.name

module _ (encode : PrometheusRule → Outcome String) where
  abbrev pub Encodes : PrometheusRule → Type 0
  Encodes p = (text : String) × (encode p ≡ ok text)

  abbrev text_of : Outcome String → Option String
  text_of (ok text) = some text
  text_of (err e) = none
  text_of Outcome.panic = none

  abbrev over : Option String → Option String → Option String
  over none below = below
  over (some text) below = some text

  -- The text of the last resource of the list that has the key.
  abbrev pub latest : String → List PrometheusRule → Option String
  latest key [] = none
  latest key (p ∷ list) =
      over (latest key list) (if key_of p == key then text_of (encode p) else none)

  over_if :
      (a below : Option String) (b : Bool) (text : String)
      → over a (if b then some text else below)
        ≡ over (over a (if b then some text else none)) below
  over_if none below true text = refl
  over_if none below false text = refl
  over_if (some t) below true text = refl
  over_if (some t) below false text = refl

  unpack_loop-latest :
      (list : List PrometheusRule) (results : Dict String)
      → All Encodes list
      → (all : Dict String) × (unpack_loop encode list results ≡ ok all)
        × ((key : String) → lookup key all ≡ over (latest key list) (lookup key results))
  unfolding unpack_loop
  unpack_loop-latest [] results _ = (results, refl, λ key. refl)
  unpack_loop-latest (p ∷ list) results ((text, e), rest) =
      let (all, run, found) = unpack_loop-latest list (insert (key_of p) text results) rest in
      (
        all,
        rw (unpack_loop, e) run,
        λ key.
            found key
            ∙ ap (over (latest key list)) (lookup-insert (key_of p) key text results)
            ∙ over_if (latest key list) (lookup key results) (key_of p == key) text
            ∙ ap
                (λ o.
                  over (over (latest key list) (if key_of p == key then text_of o else none))
                    (lookup key results))
                (sym e),
      )

  over-none : (a : Option String) → over a none ≡ a
  over-none none = refl
  over-none (some t) = refl

  -- Where every resource of the list encodes, unpackRules succeeds, and the text under a key is
  -- that of the last resource with this key; a key of no resource has no text.
  pub unpack_rules-latest :
      (list : List PrometheusRule)
      → All Encodes list
      → (results : Dict String) × (unpack_rules encode (some list) ≡ ok results)
        × ((key : String) → lookup key results ≡ latest key list)
  unfolding unpack_rules lookup
  unpack_rules-latest list encodes =
      let (results, run, found) = unpack_loop-latest list [] encodes in
      (results, run, λ key. found key ∙ over-none (latest key list))
