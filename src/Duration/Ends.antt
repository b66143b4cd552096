-- ===== src/Duration/Ends.antt =====
-- The loop of `ParseDuration` ends: every round reads a byte at least.
use mimir_operator.Base.{
  ℕ, zero, suc, ◌+◌, ◌-◌, ◌*◌, ◌/◌, ◌%◌, ◌^◌, ◌<◌, ◌≤◌, ◌≡◌, ◌≢◌, inl, inr, ap, ◌∙◌, arith, ltb,
  leb, ◌==◌, nat_eq, not, List, [], ◌∷◌, ◌++◌, Option-cases, Bool-cases, length,
}
use mimir_operator.Duration.{
  Bytes, out_of_fuel, ok, err, is_digit, TimeUnit, year, week, day, hour, minute, second,
  millisecond, unit_pos, unit_mult, unit_text, unit_map, span, parse_uint, add_unit, find_unit,
  read_unit, read_number, round, parse_loop, parse_duration,
}
use mimir_operator.Duration.Grammar.{Parsed-cases, round_exact}

add_unit_ends :
    (v : ℕ) (u : TimeUnit) (s : Bytes) (last dur : ℕ) → add_unit v u s last dur ≢ err out_of_fuel
unfolding add_unit
add_unit_ends v u s last dur h = elim (Bool-cases (leb (unit_pos u) last)) [
  | inl e ↦ let h' = rw e at h in cc
  | inr e ↦ elim (Bool-cases (ltb (2 ^ 63 / unit_mult u) v)) [
    | inl e' ↦ let h' = rw (e, e') at h in cc
    | inr e' ↦ elim (Bool-cases (ltb (2 ^ 63 - 1) ((dur + v * unit_mult u % 2 ^ 64) % 2 ^ 64))) [
      | inl f ↦ let h' = rw (e, e', f) at h in cc
      | inr f ↦ let h' = rw (e, e', f) at h in cc
    ]
  ]
]

find_unit_ends :
    (v : ℕ) (cut : Bytes × Bytes) (last dur : ℕ) → find_unit v cut last dur ≢ err out_of_fuel
find_unit_ends v ([], rest) last dur h = cc
find_unit_ends v (c ∷ cs, rest) last dur h = elim (Option-cases (unit_map (c ∷ cs))) [
  | inl e ↦ let h' = rw (find_unit, e) at h in cc
  | inr (u, e) ↦ add_unit_ends v u rest last dur (rw (find_unit, e) at h)
]

read_number_ends : (cut : Bytes × Bytes) (last dur : ℕ) → read_number cut last dur ≢ err out_of_fuel
unfolding read_unit
read_number_ends ([], rest) last dur h = cc
read_number_ends (c ∷ cs, rest) last dur h = elim (Option-cases (parse_uint (c ∷ cs))) [
  | inl e ↦ let h' = rw (read_number, e) at h in cc
  | inr (v, e) ↦
      find_unit_ends v (span (λ c. not (is_digit c)) rest) last dur (rw (read_number, e) at h)
]

length-append-le : {A : Type 0} (xs ys : List A) → length ys ≤ length (xs ++ ys)
length-append-le [] ys = omega arith
length-append-le (x ∷ xs) ys = let rest = length-append-le xs ys in omega arith

unit_text-le : (u : TimeUnit) (s : Bytes) → length s < length (unit_text u ++ s)
unit_text-le year s = omega arith
unit_text-le week s = omega arith
unit_text-le day s = omega arith
unit_text-le hour s = omega arith
unit_text-le minute s = omega arith
unit_text-le second s = omega arith
unit_text-le millisecond s = omega arith

round_shorter :
    (s : Bytes) (last dur : ℕ) (s' : Bytes) (p d : ℕ)
    → dur < 2 ^ 63
    → round s last dur ≡ ok (s', p, d)
    → (length s' < length s) × (d < 2 ^ 63)
round_shorter s last dur s' p d small h =
    let (digits, u, text, _, _, _, _, fits) = round_exact s last dur s' p d small h in
    let one = length-append-le digits (unit_text u ++ s') in
    let two = unit_text-le u s' in (rw text (omega arith), fits)

parse_loop_ends :
    (f : ℕ) (s : Bytes) (last dur : ℕ)
    → length s ≤ f
    → dur < 2 ^ 63
    → parse_loop f s last dur ≢ err out_of_fuel
unfolding parse_loop round
parse_loop_ends f [] last dur enough small h = cc
parse_loop_ends zero (c ∷ s) last dur enough small h = omega arith
parse_loop_ends (suc f) (c ∷ s) last dur enough small h =
    elim (Parsed-cases (round (c ∷ s) last dur)) [
      | inl ((s', p, d), passed) ↦
          let (shorter, fits) = round_shorter (c ∷ s) last dur s' p d small passed in
          parse_loop_ends f s' p d (omega arith) fits (rw (parse_loop, passed) at h)
      | inr (e, failed) ↦
          let h' = rw (parse_loop, failed) at h in
          let same : e ≡ out_of_fuel = cc in
          read_number_ends (span is_digit (c ∷ s)) last dur (failed ∙ ap (λ e. err e) same)
    ]

-- ParseDuration never ends for want of fuel, whatever the text is.
pub parse_duration_ends : (s : Bytes) → parse_duration s ≢ err out_of_fuel
unfolding parse_duration
parse_duration_ends [] h = cc
parse_duration_ends (c ∷ []) h = elim (Bool-cases (c == b'0')) [
  | inl e ↦ let h' = rw e at h in cc
  | inr e ↦ parse_loop_ends 1 (c ∷ []) 0 0 (omega arith) (omega arith) (rw e at h)
]
parse_duration_ends (c ∷ d ∷ s) h =
    parse_loop_ends (length (c ∷ d ∷ s)) (c ∷ d ∷ s) 0 0 (omega arith) (omega arith) h
