-- ===== src/Names.antt =====
-- The Mimir namespace of a PrometheusRule: `rule.Namespace+"_"+rule.Name`, in `unpackRules` of
-- internal/controller/mimirrules/rules.go and in the watch of mimirrules_controller.go.
use Prim.Native.Char.{code}
use text.Mathlib.TextLemmas
use mimir_operator.Base.{◌≡◌, ◌≢◌, refl, sym, ap, ap₂, ◌∙◌, String, ◌<>◌}

unfoldable pub namespace_key : String → String → String
namespace_key namespace name = namespace <> "_" <> name

-- No character of the text is an underscore. Kubernetes names and namespaces are DNS names, which
-- have none.
abbrev pub NoUnderscore : String → Type 0
NoUnderscore String.[] = Unit
NoUnderscore (String.◌∷◌ c s) = (code c ≢ b'_') × NoUnderscore s

under : (n : String) → "_" <> n ≡ String.◌∷◌ "_" n
under n = TextLemmas.cons-append "_" "" n ∙ ap (String.◌∷◌ "_") (TextLemmas.nil-append n)

append_under_inj :
    (a n b m : String)
    → NoUnderscore a
    → NoUnderscore b
    → a <> ("_" <> n) ≡ b <> ("_" <> m)
    → (a ≡ b) × (n ≡ m)
append_under_inj String.[] n String.[] m ha hb e =
    (refl, TextLemmas.append_cancel_left "_" n m (TextLemmas.append_cancel_left "" _ _ e))
append_under_inj String.[] n (String.◌∷◌ d t) m ha (hd, ht) e =
    let e' = sym (under n) ∙ sym (TextLemmas.nil-append _) ∙ e ∙ TextLemmas.cons-append d t _ in
    absurd (hd (sym (ap code (TextLemmas.head-eq_of_cons-eq e'))))
append_under_inj (String.◌∷◌ c s) n String.[] m (hc, hs) hb e =
    let e' = sym (TextLemmas.cons-append c s _) ∙ e ∙ TextLemmas.nil-append _ ∙ under m in
    absurd (hc (ap code (TextLemmas.head-eq_of_cons-eq e')))
append_under_inj (String.◌∷◌ c s) n (String.◌∷◌ d t) m (hc, hs) (hd, ht) e =
    let e' = sym (TextLemmas.cons-append c s _) ∙ e ∙ TextLemmas.cons-append d t _ in
    let (st, nm) = append_under_inj s n t m hs ht (TextLemmas.tail-eq_of_cons-eq e') in
    (ap₂ String.◌∷◌ (TextLemmas.head-eq_of_cons-eq e') st, nm)

-- Two resources whose Kubernetes namespaces hold no underscore share a Mimir namespace only if
-- they have the same namespace and the same name.
pub namespace_key_inj :
    (a n b m : String)
    → NoUnderscore a
    → NoUnderscore b
    → namespace_key a n ≡ namespace_key b m
    → (a ≡ b) × (n ≡ m)
unfolding namespace_key
namespace_key_inj a n b m ha hb e = append_under_inj a n b m ha hb e
