-- ===== src/Duration/Grammar.antt =====
-- What `ParseDuration` accepts, and that its loop ends.
use mimir_operator.Base.{
  ℕ, zero, suc, ◌+◌, ◌*◌, ◌^◌, ◌<◌, ◌≡◌, ◌⊎◌, inl, inr, refl, sym, ap, ap₂, ◌∙◌, arith, ◌==◌,
  nat_eq, Bool, true, not, List, [], ◌∷◌, ◌++◌, some, Option-cases, Bool-cases, All, length,
}
use mimir_operator.Duration.{
  Bytes, DurationError, Parsed, ok, err, is_digit, TimeUnit, year, week, day, hour, minute, second,
  millisecond, unit_pos, unit_mult, unit_text, unit_map, span, value, parse_uint, add_unit,
  find_unit, read_unit, read_number, round, parse_loop, parse_duration,
}

abbrev pub Digits : Bytes → Type 0
Digits s = (0 < length s) × All (λ c. is_digit c ≡ true) s

-- Numbers with their units, the units in order from the biggest to the smallest.
abbrev pub Ordered : ℕ → List (Bytes × TimeUnit) → Type 0
Ordered last [] = Unit
Ordered last ((digits, u) ∷ items) =
    Digits digits × (last < unit_pos u) × Ordered (unit_pos u) items

abbrev pub text_of : List (Bytes × TimeUnit) → Bytes
text_of [] = []
text_of ((digits, u) ∷ items) = digits ++ (unit_text u ++ text_of items)

-- The nanoseconds that the items are, with no bound.
abbrev pub sum_of : List (Bytes × TimeUnit) → ℕ
sum_of [] = 0
sum_of ((digits, u) ∷ items) = value 0 digits * unit_mult u + sum_of items

pub Parsed-cases {ℓ} :
    {A : Type ℓ} (p : Parsed A) → ((a : A) × (p ≡ ok a)) ⊎ ((e : DurationError) × (p ≡ err e))
Parsed-cases (ok a) = inl (a, refl)
Parsed-cases (err e) = inr (e, refl)

span-append : (test : ℕ → Bool) (s : Bytes) → (span test s).0 ++ (span test s).1 ≡ s
unfolding span
span-append test [] = refl
span-append test (c ∷ s) = elim (Bool-cases (test c)) [
  | inl e ↦ rw e (ap (λ t. c ∷ t) (span-append test s))
  | inr e ↦ rw e refl
]

span-All : (test : ℕ → Bool) (s : Bytes) → All (λ c. test c ≡ true) ((span test s).0)
unfolding span
span-All test [] = tt
span-All test (c ∷ s) = elim (Bool-cases (test c)) [
  | inl e ↦ rw e (e, span-All test s)
  | inr e ↦ rw e tt
]

one_byte : (c d : ℕ) → (c == d) ≡ true → c ≡ d
one_byte c d e = (nat_eq.same_iff c d).0 e

unit_map-text : (s : Bytes) (u : TimeUnit) → unit_map s ≡ some u → s ≡ unit_text u
unfolding unit_map
unit_map-text [] u h = absurd (cc)
unit_map-text (c ∷ []) year h = ap (λ c. c ∷ []) (ground arith)
unit_map-text (c ∷ []) week h = ap (λ c. c ∷ []) (ground arith)
unit_map-text (c ∷ []) day h = ap (λ c. c ∷ []) (ground arith)
unit_map-text (c ∷ []) hour h = ap (λ c. c ∷ []) (ground arith)
unit_map-text (c ∷ []) minute h = ap (λ c. c ∷ []) (ground arith)
unit_map-text (c ∷ []) second h = ap (λ c. c ∷ []) (ground arith)
unit_map-text (c ∷ []) millisecond h = absurd (ground arith)
unit_map-text (c ∷ d ∷ []) year h = absurd (ground arith)
unit_map-text (c ∷ d ∷ []) week h = absurd (ground arith)
unit_map-text (c ∷ d ∷ []) day h = absurd (ground arith)
unit_map-text (c ∷ d ∷ []) hour h = absurd (ground arith)
unit_map-text (c ∷ d ∷ []) minute h = absurd (ground arith)
unit_map-text (c ∷ d ∷ []) second h = absurd (ground arith)
unit_map-text (c ∷ d ∷ []) millisecond h = ap₂ (λ c d. c ∷ d ∷ []) (ground arith) (ground arith)
unit_map-text (c ∷ d ∷ e ∷ s) u h = absurd (cc)

add_unit_exact :
    (v : ℕ) (u : TimeUnit) (s : Bytes) (last dur : ℕ) (s' : Bytes) (p d : ℕ)
    → dur < 2 ^ 63
    → add_unit v u s last dur ≡ ok (s', p, d)
    → (s ≡ s') × (last < unit_pos u) × (p ≡ unit_pos u) × (d ≡ dur + v * unit_mult u) × (d < 2 ^ 63)
unfolding add_unit
add_unit_exact v year s last dur s' p d small h = ground arith
add_unit_exact v week s last dur s' p d small h = ground arith
add_unit_exact v day s last dur s' p d small h = ground arith
add_unit_exact v hour s last dur s' p d small h = ground arith
add_unit_exact v minute s last dur s' p d small h = ground arith
add_unit_exact v second s last dur s' p d small h = ground arith
add_unit_exact v millisecond s last dur s' p d small h = ground arith

-- What a round that succeeds has read.
abbrev Read : Bytes → ℕ → ℕ → Bytes × ℕ × ℕ → Type 0
Read s last dur (s', p, d) =
    (digits : Bytes) × (u : TimeUnit) × (s ≡ digits ++ (unit_text u ++ s'))
    × Digits digits
    × (last < unit_pos u)
    × (p ≡ unit_pos u)
    × (d ≡ dur + value 0 digits * unit_mult u)
    × (d < 2 ^ 63)

parse_uint-eq-some : (s : Bytes) (v : ℕ) → parse_uint s ≡ some v → v ≡ value 0 s
unfolding parse_uint
parse_uint-eq-some s v h = ground arith

find_unit_exact :
    (v : ℕ) (s : Bytes) (cut : Bytes × Bytes) (last dur : ℕ) (s' : Bytes) (p d : ℕ)
    → dur < 2 ^ 63
    → cut.0 ++ cut.1 ≡ s
    → find_unit v cut last dur ≡ ok (s', p, d)
    → (u : TimeUnit) × (s ≡ unit_text u ++ s')
      × (last < unit_pos u)
      × (p ≡ unit_pos u)
      × (d ≡ dur + v * unit_mult u)
      × (d < 2 ^ 63)
find_unit_exact v s ([], rest) last dur s' p d small whole h = absurd (cc)
find_unit_exact v s (c ∷ cs, rest) last dur s' p d small whole h =
    elim (Option-cases (unit_map (c ∷ cs))) [
      | inl e ↦ absurd (let h' = rw (find_unit, e) at h in cc)
      | inr (u, e) ↦
          let (same, later, pos, exact, fits) =
            add_unit_exact v u rest last dur s' p d small (rw (find_unit, e) at h) in
          (
            u,
            sym whole
                ∙ ap (λ t. t ++ rest) (unit_map-text (c ∷ cs) u e)
                ∙ ap (λ t. unit_text u ++ t) same,
            later,
            pos,
            exact,
            fits,
          )
    ]

read_number_exact :
    (s : Bytes) (cut : Bytes × Bytes) (last dur : ℕ) (s' : Bytes) (p d : ℕ)
    → dur < 2 ^ 63
    → cut.0 ++ cut.1 ≡ s
    → All (λ c. is_digit c ≡ true) (cut.0)
    → read_number cut last dur ≡ ok (s', p, d)
    → Read s last dur (s', p, d)
unfolding read_unit
read_number_exact s ([], rest) last dur s' p d small whole digits h = absurd (cc)
read_number_exact s (c ∷ cs, rest) last dur s' p d small whole digits h =
    elim (Option-cases (parse_uint (c ∷ cs))) [
      | inl e ↦ absurd (let h' = rw (read_number, e) at h in cc)
      | inr (v, e) ↦
          let (u, text, later, pos, exact, fits) =
            find_unit_exact v rest (span (λ c. not (is_digit c)) rest) last dur s' p d small
              (span-append (λ c. not (is_digit c)) rest) (rw (read_number, e) at h) in
          (
            c ∷ cs,
            u,
            sym whole ∙ ap (λ t. (c ∷ cs) ++ t) text,
            (omega arith, digits),
            later,
            pos,
            exact ∙ ap (λ v. dur + v * unit_mult u) (parse_uint-eq-some (c ∷ cs) v e),
            fits,
          )
    ]

pub round_exact :
    (s : Bytes) (last dur : ℕ) (s' : Bytes) (p d : ℕ)
    → dur < 2 ^ 63
    → round s last dur ≡ ok (s', p, d)
    → Read s last dur (s', p, d)
unfolding round
round_exact s last dur s' p d small h =
    read_number_exact s (span is_digit s) last dur s' p d small (span-append is_digit s)
      (span-All is_digit s) h

add_three : (a b c : ℕ) → a + b + c ≡ a + (b + c)
add_three a b c = omega arith

parse_loop_exact :
    (f : ℕ) (s : Bytes) (last dur d : ℕ)
    → dur < 2 ^ 63
    → parse_loop f s last dur ≡ ok d
    → (items : List (Bytes × TimeUnit)) × (s ≡ text_of items)
      × Ordered last items
      × (d ≡ dur + sum_of items)
      × (d < 2 ^ 63)
unfolding parse_loop
parse_loop_exact f [] last dur d small h = ([], refl, tt, ground arith, ground arith)
parse_loop_exact zero (c ∷ s) last dur d small h = absurd (cc)
parse_loop_exact (suc f) (c ∷ s) last dur d small h = elim (Parsed-cases (round (c ∷ s) last dur)) [
  | inr (e, failed) ↦ absurd (let h' = rw (parse_loop, failed) at h in cc)
  | inl ((s', p, d'), passed) ↦
      let (digits, u, text, are_digits, later, pos, exact, fits) =
        round_exact (c ∷ s) last dur s' p d' small passed in
      let (items, rest, ordered, sum, fits') =
        parse_loop_exact f s' p d' d fits (rw (parse_loop, passed) at h) in
      (
        (digits, u) ∷ items,
        text ∙ ap (λ t. digits ++ (unit_text u ++ t)) rest,
        (are_digits, later, rw (← pos) ordered),
        sum
            ∙ ap (λ x. x + sum_of items) exact
            ∙ add_three dur (value 0 digits * unit_mult u) (sum_of items),
        fits',
      )
]

from_zero :
    (s : Bytes) (d : ℕ)
    → (items : List (Bytes × TimeUnit)) × (s ≡ text_of items)
      × Ordered 0 items
      × (d ≡ 0 + sum_of items)
      × (d < 2 ^ 63)
    → (items : List (Bytes × TimeUnit)) × (s ≡ text_of items)
      × Ordered 0 items
      × (d ≡ sum_of items)
      × (d < 2 ^ 63)
from_zero s d (items, text, ordered, sum, fits) = (items, text, ordered, omega arith, fits)

-- A duration that ParseDuration accepts is `0`, or numbers with their units, the units in order
-- from the biggest to the smallest; it is the sum of these, which is below 2 ^ 63.
pub parse_duration_exact :
    (s : Bytes) (d : ℕ)
    → parse_duration s ≡ ok d
    → ((s ≡ b'0' ∷ []) × (d ≡ 0))
      ⊎ ((items : List (Bytes × TimeUnit)) × (s ≡ text_of items)
          × Ordered 0 items
          × (d ≡ sum_of items)
          × (d < 2 ^ 63))
unfolding parse_duration
parse_duration_exact [] d h = absurd (cc)
parse_duration_exact (c ∷ []) d h = elim (Bool-cases (c == b'0')) [
  | inl e ↦ let same = one_byte c b'0' e in inl (ap (λ c. c ∷ []) same, let h' = rw e at h in cc)
  | inr e ↦ inr (from_zero (c ∷ []) d (parse_loop_exact 1 (c ∷ []) 0 0 d (omega arith) (rw e at h)))
]
parse_duration_exact (c ∷ c' ∷ s) d h = inr (
    from_zero (c ∷ c' ∷ s) d
      (parse_loop_exact (length (c ∷ c' ∷ s)) (c ∷ c' ∷ s) 0 0 d (omega arith) h))
