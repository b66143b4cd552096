-- ===== src/Duration/Render.antt =====
-- Texts made of numbers with units, and what `ParseDuration` reads in them.
use mimir_operator.Base.{
  ℕ, zero, suc, ◌+◌, ◌*◌, ◌^◌, ◌<◌, ◌≤◌, ◌≡◌, refl, ap, ◌∙◌, arith, ltb, Bool, true, not, List, [],
  ◌∷◌, ◌++◌, some, All, if◌then◌else◌, Bool-cases, inl, inr, length, length-append,
}
use mimir_operator.Duration.{
  Bytes, ok, TimeUnit, year, week, day, hour, minute, second, millisecond, unit_pos, unit_mult,
  unit_text, unit_map, is_digit, parse_uint, add_unit, read_unit, read_number, round, parse_loop,
  decimal,
}
use mimir_operator.Duration.Decimal.{
  Digits, Stops, span-append, decimal-Digits, decimal-cons, parse_uint-decimal,
}

-- The text of the items whose number is not 0.
abbrev pub render : List (ℕ × TimeUnit) → Bytes
render [] = []
render ((v, u) ∷ items) =
    if ltb 0 v then decimal v ++ (unit_text u ++ render items) else render items

-- The nanoseconds that the items stand for.
abbrev pub total : List (ℕ × TimeUnit) → ℕ
total [] = 0
total ((v, u) ∷ items) = v * unit_mult u + total items

-- The units come from the biggest to the smallest, after position `p`.
abbrev pub Falls : ℕ → List (ℕ × TimeUnit) → Type 0
Falls p [] = Unit
Falls p ((v, u) ∷ items) = (p < unit_pos u) × Falls (unit_pos u) items

abbrev not_digit : ℕ → Bool
not_digit c = not (is_digit c)

render-Stops : (items : List (ℕ × TimeUnit)) → Stops not_digit (render items)
render-Stops [] = tt
render-Stops ((v, u) ∷ items) = elim (Bool-cases (ltb 0 v)) [
  | inr none_of_it ↦ rw none_of_it (render-Stops items)
  | inl some_of_it ↦
      let (c, s, e) = decimal-cons v in
      let ds : Digits (c ∷ s) = rw e at (decimal-Digits v) in rw (some_of_it, e) (rw (ds.0))
]

unit_text-All : (u : TimeUnit) → All (λ c. not_digit c ≡ true) (unit_text u)
unfolding is_digit
unit_text-All year = (refl, tt)
unit_text-All week = (refl, tt)
unit_text-All day = (refl, tt)
unit_text-All hour = (refl, tt)
unit_text-All minute = (refl, tt)
unit_text-All second = (refl, tt)
unit_text-All millisecond = (refl, (refl, tt))

unit_text-Stops : (u : TimeUnit) (s : Bytes) → Stops is_digit (unit_text u ++ s)
unfolding is_digit
unit_text-Stops year s = refl
unit_text-Stops week s = refl
unit_text-Stops day s = refl
unit_text-Stops hour s = refl
unit_text-Stops minute s = refl
unit_text-Stops second s = refl
unit_text-Stops millisecond s = refl

-- A number of units that fits in an int64 is added with no wrap.
add_unit_fits :
    (v : ℕ) (u : TimeUnit) (s : Bytes) (p dur : ℕ)
    → p < unit_pos u
    → dur + v * unit_mult u < 2 ^ 63
    → add_unit v u s p dur ≡ ok (s, unit_pos u, dur + v * unit_mult u)
unfolding add_unit
add_unit_fits v year s p dur after fits = ground arith
add_unit_fits v week s p dur after fits = ground arith
add_unit_fits v day s p dur after fits = ground arith
add_unit_fits v hour s p dur after fits = ground arith
add_unit_fits v minute s p dur after fits = ground arith
add_unit_fits v second s p dur after fits = ground arith
add_unit_fits v millisecond s p dur after fits = ground arith

read_unit_fits :
    (v : ℕ) (u : TimeUnit) (s : Bytes) (p dur : ℕ)
    → Stops not_digit s
    → read_unit v (unit_text u ++ s) p dur ≡ add_unit v u s p dur
unfolding read_unit unit_map
read_unit_fits v year s p dur stop =
    rw (read_unit, span-append not_digit _ s (unit_text-All year) stop)
read_unit_fits v week s p dur stop =
    rw (read_unit, span-append not_digit _ s (unit_text-All week) stop)
read_unit_fits v day s p dur stop =
    rw (read_unit, span-append not_digit _ s (unit_text-All day) stop)
read_unit_fits v hour s p dur stop =
    rw (read_unit, span-append not_digit _ s (unit_text-All hour) stop)
read_unit_fits v minute s p dur stop =
    rw (read_unit, span-append not_digit _ s (unit_text-All minute) stop)
read_unit_fits v second s p dur stop =
    rw (read_unit, span-append not_digit _ s (unit_text-All second) stop)
read_unit_fits v millisecond s p dur stop =
    rw (read_unit, span-append not_digit _ s (unit_text-All millisecond) stop)

number_fits : (v : ℕ) (u : TimeUnit) (dur : ℕ) → dur + v * unit_mult u < 2 ^ 63 → v < 2 ^ 64
number_fits v year dur h = omega arith
number_fits v week dur h = omega arith
number_fits v day dur h = omega arith
number_fits v hour dur h = omega arith
number_fits v minute dur h = omega arith
number_fits v second dur h = omega arith
number_fits v millisecond dur h = omega arith

-- One round reads an item that is printed in front of others.
round_item :
    (v : ℕ) (u : TimeUnit) (items : List (ℕ × TimeUnit)) (p dur : ℕ)
    → p < unit_pos u
    → dur + v * unit_mult u < 2 ^ 63
    → round (decimal v ++ (unit_text u ++ render items)) p dur
      ≡ ok (render items, unit_pos u, dur + v * unit_mult u)
unfolding round
round_item v u items p dur after fits =
    let (c, s, e) = decimal-cons v in
    let cut =
      span-append is_digit (decimal v) _ (decimal-Digits v) (unit_text-Stops u (render items)) in
    let number : parse_uint (c ∷ s) ≡ some v =
      rw e at (parse_uint-decimal v (number_fits v u dur fits)) in
    rw (cut, e)
      (rw (number, read_number)
        (read_unit_fits v u (render items) p dur (render-Stops items)
          ∙ add_unit_fits v u (render items) p dur after fits))

Falls-mono : (p q : ℕ) (items : List (ℕ × TimeUnit)) → p ≤ q → Falls q items → Falls p items
Falls-mono p q [] h falls = tt
Falls-mono p q ((v, u) ∷ items) h (after, falls) = (omega arith, falls)

unit_text-pos : (u : TimeUnit) → 0 < length (unit_text u)
unit_text-pos year = omega arith
unit_text-pos week = omega arith
unit_text-pos day = omega arith
unit_text-pos hour = omega arith
unit_text-pos minute = omega arith
unit_text-pos second = omega arith
unit_text-pos millisecond = omega arith

ltb_pos : (v : ℕ) → ltb 0 (suc v) ≡ true
ltb_pos v = ground arith

-- A printed list of items is read as their total, where that fits in an int64.
pub parse_loop-render :
    (items : List (ℕ × TimeUnit)) (f p dur : ℕ)
    → Falls p items
    → dur + total items < 2 ^ 63
    → length (render items) ≤ f
    → parse_loop f (render items) p dur ≡ ok (dur + total items)
unfolding parse_loop
parse_loop-render [] zero p dur falls fits fuel = ap ok (omega arith)
parse_loop-render [] (suc f) p dur falls fits fuel = ap ok (omega arith)
parse_loop-render ((zero, u) ∷ items) f p dur (after, falls) fits fuel =
    parse_loop-render items f p dur (Falls-mono p _ items (omega arith) falls) (omega arith) fuel
    ∙ ap ok (omega arith)
parse_loop-render ((suc v, u) ∷ items) zero p dur (after, falls) fits fuel =
    let (c, s, e) = decimal-cons (suc v) in
    let fuel' : length ((c ∷ s) ++ (unit_text u ++ render items)) ≤ 0 = rw (ltb_pos v, e) at fuel in
    absurd (omega arith)
parse_loop-render ((suc v, u) ∷ items) (suc f) p dur (after, falls) fits fuel =
    let (c, s, e) = decimal-cons (suc v) in
    let fuel' : length ((c ∷ s) ++ (unit_text u ++ render items)) ≤ suc f =
      rw (ltb_pos v, e) at fuel in
    let here : dur + suc v * unit_mult u < 2 ^ 63 = omega arith in
    let read : round ((c ∷ s) ++ (unit_text u ++ render items)) p dur
        ≡ ok (render items, unit_pos u, dur + suc v * unit_mult u) =
      rw e at (round_item (suc v) u items p dur after here) in
    let short : length (render items) ≤ f = omega (
      arith,
      length-append s (unit_text u ++ render items),
      length-append (unit_text u) (render items),
    ) in
    rw (ltb_pos v, e)
      (rw (read, parse_loop)
        (parse_loop-render items f (unit_pos u) _ falls (omega arith) short ∙ ap ok (omega arith)))

-- A positive total takes at least two bytes.
pub length-render-pos : (items : List (ℕ × TimeUnit)) → 0 < total items → 2 ≤ length (render items)
length-render-pos [] h = absurd (omega arith)
length-render-pos ((zero, u) ∷ items) h = length-render-pos items (omega arith)
length-render-pos ((suc v, u) ∷ items) h =
    let (c, s, e) = decimal-cons (suc v) in
    rw (ltb_pos v, e, length-append s)
      (omega (arith, length-append (unit_text u) (render items), unit_text-pos u))
