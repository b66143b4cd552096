-- ===== src/Duration/RoundTrip.antt =====
-- `ParseDuration` reads back what `String` prints.
use mimir_operator.Base.{
  ℕ, ◌+◌, ◌-◌, ◌*◌, ◌/◌, ◌%◌, ◌^◌, ◌<◌, ◌≤◌, ◌≡◌, refl, ap, sym, ◌∙◌, arith, ltb, ◌==◌, nat_eq,
  Bool, true, false, not, ◌&&◌, List, [], ◌∷◌, ◌++◌, if◌then◌else◌, Bool-cases, inl, inr, length,
}
use mathlib.Core.List.{append_assoc, append-nil}
use mimir_operator.Duration.{
  Bytes, ok, TimeUnit, year, week, day, hour, minute, second, millisecond, unit_ms, unit_mult,
  unit_text, parse_loop, parse_duration, decimal, put_unit, string,
}
use mimir_operator.Duration.Render.{render, total, Falls, parse_loop-render, length-render-pos}

-- How many of the unit `String` prints.
amount : TimeUnit → Bool → ℕ → ℕ
amount u exact ms = if exact && not (ms % unit_ms u == 0) then 0 else ms / unit_ms u

items_of : List (TimeUnit × Bool) → ℕ → List (ℕ × TimeUnit)
items_of [] ms = []
items_of ((u, exact) ∷ us) ms =
    let v = amount u exact ms in (v, u) ∷ items_of us (ms - v * unit_ms u)

left_of : List (TimeUnit × Bool) → ℕ → ℕ
left_of [] ms = ms
left_of ((u, exact) ∷ us) ms = left_of us (ms - amount u exact ms * unit_ms u)

put_all : List (TimeUnit × Bool) → ℕ × Bytes → ℕ × Bytes
put_all [] s = s
put_all ((u, exact) ∷ us) s = put_all us (put_unit u exact s)

-- The calls of the closure, in their order.
abbrev order : List (TimeUnit × Bool)
order =
    (year, true)
    ∷ (week, true)
    ∷ (day, false)
    ∷ (hour, false)
    ∷ (minute, false)
    ∷ (second, false)
    ∷ (millisecond, false)
    ∷ []

put_unit_lem :
    (u : TimeUnit) (exact : Bool) (ms : ℕ) (r : Bytes)
    → put_unit u exact (ms, r) ≡ (
      ms - amount u exact ms * unit_ms u,
      r ++ (if ltb 0 (amount u exact ms) then decimal (amount u exact ms) ++ unit_text u else []),
    )
unfolding put_unit amount
put_unit_lem u exact ms r = ground (arith, append-nil r)

append_item :
    (r : Bytes) (v : ℕ) (u : TimeUnit) (items : List (ℕ × TimeUnit))
    → (r ++ (if ltb 0 v then decimal v ++ unit_text u else [])) ++ render items
      ≡ r ++ render ((v, u) ∷ items)
append_item r v u items = elim (Bool-cases (ltb 0 v)) [
  | inl pos ↦ rw pos (simp append_assoc)
  | inr zero_of_it ↦ rw (zero_of_it, append-nil)
]

put_all-render :
    (us : List (TimeUnit × Bool)) (ms : ℕ) (r : Bytes)
    → (put_all us (ms, r)).1 ≡ r ++ render (items_of us ms)
unfolding put_all items_of
put_all-render [] ms r = sym (append-nil r)
put_all-render ((u, exact) ∷ us) ms r =
    ap (λ s. (put_all us s).1) (put_unit_lem u exact ms r)
    ∙ put_all-render us _ _
    ∙ append_item r (amount u exact ms) u (items_of us (ms - amount u exact ms * unit_ms u))

amount-le : (u : TimeUnit) (exact : Bool) (ms : ℕ) → amount u exact ms * unit_ms u ≤ ms
unfolding amount
amount-le year exact ms = ground arith
amount-le week exact ms = ground arith
amount-le day exact ms = ground arith
amount-le hour exact ms = ground arith
amount-le minute exact ms = ground arith
amount-le second exact ms = ground arith
amount-le millisecond exact ms = ground arith

-- The two tables of the units agree.
nanoseconds : (v : ℕ) (u : TimeUnit) → v * unit_mult u ≡ v * unit_ms u * 1_000_000
nanoseconds v year = omega arith
nanoseconds v week = omega arith
nanoseconds v day = omega arith
nanoseconds v hour = omega arith
nanoseconds v minute = omega arith
nanoseconds v second = omega arith
nanoseconds v millisecond = omega arith

total-items_of :
    (us : List (TimeUnit × Bool)) (ms : ℕ)
    → total (items_of us ms) + left_of us ms * 1_000_000 ≡ ms * 1_000_000
unfolding items_of left_of
total-items_of [] ms = omega arith
total-items_of ((u, exact) ∷ us) ms = omega (
  arith,
  total-items_of us (ms - amount u exact ms * unit_ms u),
  amount-le u exact ms,
  nanoseconds (amount u exact ms) u,
)

left_of-order : (ms : ℕ) → left_of order ms ≡ 0
unfolding left_of amount
left_of-order ms = omega arith

items_of-Falls : (ms : ℕ) → Falls 0 (items_of order ms)
unfolding items_of
items_of-Falls ms = omega arith

string-render : (d : ℕ) → 0 < d / 1_000_000 → string d ≡ render (items_of order (d / 1_000_000))
unfolding string put_all
string-render d h =
    let e : (d / 1_000_000 == 0) ≡ false = ground arith in
    rw e (put_all-render order (d / 1_000_000) [])

parse_duration-loop : (s : Bytes) → 2 ≤ length s → parse_duration s ≡ parse_loop (length s) s 0 0
unfolding parse_duration
parse_duration-loop [] h = absurd (omega arith)
parse_duration-loop (c ∷ []) h = absurd (omega arith)
parse_duration-loop (c ∷ d ∷ s) h = refl

small : (d : ℕ) → d / 1_000_000 ≡ 0 → parse_duration (string d) ≡ ok (d / 1_000_000 * 1_000_000)
unfolding string parse_duration
small d h = rw h

large :
    (d : ℕ)
    → d < 2 ^ 63
    → 0 < d / 1_000_000
    → parse_duration (string d) ≡ ok (d / 1_000_000 * 1_000_000)
large d fits h =
    let items = items_of order (d / 1_000_000) in
    let sum : total items ≡ d / 1_000_000 * 1_000_000 =
      omega (arith, total-items_of order (d / 1_000_000), left_of-order (d / 1_000_000)) in
    rw (string-render d h) (
      parse_duration-loop (render items) (length-render-pos items (omega arith))
      ∙ parse_loop-render items (length (render items)) 0 0 (items_of-Falls (d / 1_000_000))
          (omega arith) (omega arith)
      ∙ ap ok (omega arith))

-- A duration that is not negative, printed and parsed, is the duration in whole milliseconds: what
-- lies below a millisecond is cut off, and nothing else is lost.
pub parse_duration-string :
    (d : ℕ) → d < 2 ^ 63 → parse_duration (string d) ≡ ok (d / 1_000_000 * 1_000_000)
parse_duration-string d h = elim (Bool-cases (ltb 0 (d / 1_000_000))) [
  | inr none_of_it ↦ small d (ground arith)
  | inl some_of_it ↦ large d h (ground arith)
]
