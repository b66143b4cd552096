-- ===== src/Duration.antt =====
-- `Duration` of internal/controller/mimirapi/rwrulefmt/model/time.go: `ParseDuration` and `String`
-- over the bytes of a text. A duration counts nanoseconds in an int64.
pub mod Decimal
pub mod Render
pub mod RoundTrip
pub mod Grammar
pub mod Ends
use mimir_operator.Base.{
  ℕ, zero, suc, ◌+◌, ◌-◌, ◌*◌, ◌/◌, ◌%◌, ◌^◌, ◌==◌, nat_eq, ltb, leb, Bool, true, false, not, ◌&&◌,
  List, [], ◌∷◌, ◌++◌, Option, none, some, if◌then◌else◌, length,
}

abbrev pub Bytes : Type 0
Bytes = List ℕ

pub data DurationError : Type 0 where
  empty not_valid unknown_unit out_of_range out_of_fuel : DurationError

pub data Parsed {ℓ} (A : Type ℓ) : Type ℓ where
  ok : A → Parsed A
  err : DurationError → Parsed A

-- `isdigit`
unfoldable pub is_digit : ℕ → Bool
is_digit c = leb b'0' c && leb c b'9'

-- The keys of `unitMap`, from the biggest to the smallest.
pub data TimeUnit : Type 0 where
  year week day hour minute second millisecond : TimeUnit

abbrev pub unit_pos : TimeUnit → ℕ
unit_pos year = 1
unit_pos week = 2
unit_pos day = 3
unit_pos hour = 4
unit_pos minute = 5
unit_pos second = 6
unit_pos millisecond = 7

-- The milliseconds of a unit, in `String`.
abbrev pub unit_ms : TimeUnit → ℕ
unit_ms year = 1000 * 60 * 60 * 24 * 365
unit_ms week = 1000 * 60 * 60 * 24 * 7
unit_ms day = 1000 * 60 * 60 * 24
unit_ms hour = 1000 * 60 * 60
unit_ms minute = 1000 * 60
unit_ms second = 1000
unit_ms millisecond = 1

-- The nanoseconds of a unit, in `unitMap`.
abbrev pub unit_mult : TimeUnit → ℕ
unit_mult millisecond = 1_000_000
unit_mult second = 1_000_000_000
unit_mult minute = 60 * 1_000_000_000
unit_mult hour = 60 * 60 * 1_000_000_000
unit_mult day = 24 * (60 * 60 * 1_000_000_000)
unit_mult week = 7 * 24 * (60 * 60 * 1_000_000_000)
unit_mult year = 365 * 24 * (60 * 60 * 1_000_000_000)

abbrev pub unit_text : TimeUnit → Bytes
unit_text year = b'y' ∷ []
unit_text week = b'w' ∷ []
unit_text day = b'd' ∷ []
unit_text hour = b'h' ∷ []
unit_text minute = b'm' ∷ []
unit_text second = b's' ∷ []
unit_text millisecond = b'm' ∷ b's' ∷ []

-- `unitMap[u]`
unfoldable pub unit_map : Bytes → Option TimeUnit
unit_map (c ∷ []) =
    if c == b's'
    then some second
    else if c == b'm'
    then some minute
    else if c == b'h'
    then some hour
    else if c == b'd'
    then some day
    else if c == b'w'
    then some week
    else if c == b'y'
    then some year
    else none
unit_map (c ∷ d ∷ []) = if c == b'm' && d == b's' then some millisecond else none
unit_map _ = none

-- `s[:i]` and `s[i:]`, where `i` is the first index whose byte fails the test.
unfoldable pub span : (ℕ → Bool) → Bytes → Bytes × Bytes
span test [] = ([], [])
span test (c ∷ s) =
    let (prefix, rest) = span test s in if test c then (c ∷ prefix, rest) else ([], c ∷ s)

-- The number that digits spell behind `n`.
unfoldable pub value : ℕ → Bytes → ℕ
value n [] = n
value n (c ∷ s) = value (n * 10 + (c - b'0')) s

-- `strconv.ParseUint(s, 10, 0)` of digits, on 64 bits: an error if the number does not fit.
unfoldable pub parse_uint : Bytes → Option ℕ
parse_uint s = let n = value 0 s in if ltb n (2 ^ 64) then some n else none

-- The end of a round of the loop, with the number `v` and the unit: what is left of the text, the
-- position of the unit, and the duration so far, all in uint64.
unfoldable pub add_unit : ℕ → TimeUnit → Bytes → ℕ → ℕ → Parsed (Bytes × ℕ × ℕ)
add_unit v u s last_unit_pos dur =
    if leb (unit_pos u) last_unit_pos
    then err not_valid
    else if ltb (2 ^ 63 / unit_mult u) v
    then err out_of_range
    else let dur' = (dur + v * unit_mult u % 2 ^ 64) % 2 ^ 64 in
      if ltb (2 ^ 63 - 1) dur' then err out_of_range else ok (s, unit_pos u, dur')

-- From the number on: the unit is read and looked up.
abbrev pub find_unit : ℕ → Bytes × Bytes → ℕ → ℕ → Parsed (Bytes × ℕ × ℕ)
find_unit v ([], rest) last_unit_pos dur = err not_valid
find_unit v (c ∷ cs, rest) last_unit_pos dur = elim (unit_map (c ∷ cs)) [
  | none ↦ err unknown_unit
  | some unit ↦ add_unit v unit rest last_unit_pos dur
]

unfoldable pub read_unit : ℕ → Bytes → ℕ → ℕ → Parsed (Bytes × ℕ × ℕ)
read_unit v s = find_unit v (span (λ c. not (is_digit c)) s)

-- One round of the loop, at a text that is not empty.
abbrev pub read_number : Bytes × Bytes → ℕ → ℕ → Parsed (Bytes × ℕ × ℕ)
read_number ([], rest) last_unit_pos dur = err not_valid
read_number (c ∷ cs, rest) last_unit_pos dur = elim (parse_uint (c ∷ cs)) [
  | none ↦ err not_valid
  | some v ↦ read_unit v rest last_unit_pos dur
]

unfoldable pub round : Bytes → ℕ → ℕ → Parsed (Bytes × ℕ × ℕ)
round s = read_number (span is_digit s)

-- `for s != ""`, with fuel.
unfoldable pub parse_loop : ℕ → Bytes → ℕ → ℕ → Parsed ℕ
parse_loop f [] last_unit_pos dur = ok dur
parse_loop zero (c ∷ s) last_unit_pos dur = err out_of_fuel
parse_loop (suc f) (c ∷ s) last_unit_pos dur = elim (round (c ∷ s) last_unit_pos dur) [
  | ok (s', p, d) ↦ parse_loop f s' p d
  | err e ↦ err e
]

-- A round takes at least one byte, so the length of the text is enough fuel.
unfoldable pub parse_duration : Bytes → Parsed ℕ
unfolding parse_loop round read_unit add_unit parse_uint value unit_map span is_digit
parse_duration [] = err empty
parse_duration (c ∷ []) = if c == b'0' then ok 0 else parse_loop 1 (c ∷ []) 0 0
parse_duration (c ∷ d ∷ s) = parse_loop (length (c ∷ d ∷ s)) (c ∷ d ∷ s) 0 0

-- `%d` of a number below 10 ^ 20.
unfoldable pub decimal_fuel : ℕ → ℕ → Bytes
decimal_fuel zero n = []
decimal_fuel (suc f) n =
    let front = decimal_fuel f (n / 10) in
    if ltb n 10 then (b'0' + n) ∷ [] else front ++ (b'0' + n % 10) ∷ []

unfoldable pub decimal : ℕ → Bytes
decimal n = decimal_fuel 20 n

-- The closure `f` of `String`, on the milliseconds that are left and the text so far.
unfoldable pub put_unit : TimeUnit → Bool → ℕ × Bytes → ℕ × Bytes
put_unit u exact (ms, r) =
    let v = ms / unit_ms u in
    if exact && not (ms % unit_ms u == 0)
    then (ms, r)
    else if ltb 0 v
    then (ms - v * unit_ms u, r ++ (decimal v ++ unit_text u))
    else (ms, r)

-- `String` of a duration that is not negative.
unfoldable pub string : ℕ → Bytes
string d =
    let ms = d / 1_000_000 in
    if ms == 0
    then b'0' ∷ b's' ∷ []
    else (put_unit millisecond false (
        put_unit second false (
          put_unit minute false (
            put_unit hour false
              (put_unit day false (put_unit week true (put_unit year true (ms, [])))))))).1
