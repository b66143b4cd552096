-- ===== src/Tests/Durations.antt =====
-- Durations.
use Prim.Native.Char.{code}
use mimir_operator.Base.{ℕ, ◌<◌, ◌^◌, ◌≢◌, ◌⊎◌, ◌*◌, ◌/◌, ◌≡◌, refl, arith, String, List, [], ◌∷◌}
use mimir_operator.Duration.{
  ok, err, parse_duration, string, put_unit, decimal, decimal_fuel, not_valid, out_of_range,
  out_of_fuel, Bytes, TimeUnit,
}
use mimir_operator.Duration.Grammar.{text_of, Ordered, sum_of, parse_duration_exact}
use mimir_operator.Duration.Ends.{parse_duration_ends}
use mimir_operator.Duration.RoundTrip.{parse_duration-string}

abbrev bytes : String → List ℕ
bytes String.[] = []
bytes (String.◌∷◌ letter word) = code letter ∷ bytes word

parse_mixed : parse_duration (bytes "1d2h30m5ms") ≡ ok 95400005000000
unfolding parse_duration
parse_mixed = refl

string_mixed : string 95400005000000 ≡ bytes "1d2h30m5ms"
unfolding string put_unit decimal decimal_fuel
string_mixed = refl

-- The units go down.
parse_disorder : parse_duration (bytes "1m1d") ≡ err not_valid
unfolding parse_duration
parse_disorder = refl

parse_overflow : parse_duration (bytes "293y") ≡ err out_of_range
unfolding parse_duration
parse_overflow = refl

-- Ninety days are not a whole number of weeks.
string_days : string (90 * 86_400 * 1_000_000_000) ≡ bytes "90d"
unfolding string put_unit decimal decimal_fuel
string_days = refl

parse_duration-string_example :
    parse_duration (string 95400005000999) ≡ ok (95400005000999 / 1_000_000 * 1_000_000)
parse_duration-string_example = parse_duration-string 95400005000999 (omega arith)

abbrev mixed : ℕ
mixed = 95400005000000

parse_duration_exact_example :
    ((bytes "1d2h30m5ms" ≡ b'0' ∷ []) × (mixed ≡ 0))
    ⊎ ((items : List (Bytes × TimeUnit)) × (bytes "1d2h30m5ms" ≡ text_of items)
        × Ordered 0 items
        × (mixed ≡ sum_of items)
        × (mixed < 2 ^ 63))
parse_duration_exact_example = parse_duration_exact (bytes "1d2h30m5ms") mixed parse_mixed

parse_duration_ends_example : parse_duration (bytes "1m1d") ≢ err out_of_fuel
parse_duration_ends_example = parse_duration_ends (bytes "1m1d")
