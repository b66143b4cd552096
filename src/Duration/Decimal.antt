-- ===== src/Duration/Decimal.antt =====
-- Digits: what `%d` prints, `span` finds and `ParseUint` reads.
use native.Mathlib.Nat.{pow-suc}
use mimir_operator.Base.{
  ℕ, zero, suc, ◌+◌, ◌-◌, ◌*◌, ◌/◌, ◌%◌, ◌^◌, ◌<◌, ◌≡◌, refl, arith, ltb, Bool, true, false, [],
  ◌∷◌, ◌++◌, some, All, Bool-cases, inl, inr, lt→ltb,
}
use mimir_operator.Duration.{Bytes, is_digit, span, value, parse_uint, decimal_fuel, decimal}

abbrev pub Digits : Bytes → Type 0
Digits = All (λ c. is_digit c ≡ true)

-- The text is empty, or its first byte fails the test.
abbrev pub Stops : (ℕ → Bool) → Bytes → Type 0
Stops test [] = Unit
Stops test (c ∷ s) = test c ≡ false

pub span-append :
    (test : ℕ → Bool) (s rest : Bytes)
    → All (λ c. test c ≡ true) s
    → Stops test rest
    → span test (s ++ rest) ≡ (s, rest)
unfolding span
span-append test [] [] all stop = refl
span-append test [] (c ∷ rest) all stop = rw stop
span-append test (c ∷ s) rest (here, all) stop = rw (here, span-append test s rest all stop)

Digits-append : (xs ys : Bytes) → Digits xs → Digits ys → Digits (xs ++ ys)
Digits-append [] ys hx hy = hy
Digits-append (x ∷ xs) ys (here, hx) hy = (here, Digits-append xs ys hx hy)

value-append : (n : ℕ) (xs ys : Bytes) → value n (xs ++ ys) ≡ value (value n xs) ys
unfolding value
value-append n [] ys = refl
value-append n (x ∷ xs) ys = value-append (n * 10 + (x - b'0')) xs ys

digit : (n : ℕ) → n < 10 → is_digit (b'0' + n) ≡ true
unfolding is_digit
digit n h = ground arith

decimal_fuel-Digits : (f n : ℕ) → Digits (decimal_fuel f n)
unfolding decimal_fuel
decimal_fuel-Digits zero n = tt
decimal_fuel-Digits (suc f) n = elim (Bool-cases (ltb n 10)) [
  | inl small ↦ rw small (digit n (ground arith), tt)
  | inr big ↦ rw big (
      Digits-append (decimal_fuel f (n / 10)) _ (decimal_fuel-Digits f (n / 10))
        (digit (n % 10) (omega arith), tt))
]

value-decimal_fuel : (f n : ℕ) → n < 10 ^ f → value 0 (decimal_fuel f n) ≡ n
unfolding decimal_fuel value
value-decimal_fuel zero n h = omega arith
value-decimal_fuel (suc f) n h =
    let below : n / 10 < 10 ^ f = let h' : n < 10 ^ f * 10 = rw pow-suc at h in omega arith in
    elim (Bool-cases (ltb n 10)) [
      | inl small ↦ rw small (omega arith)
      | inr big ↦ rw (big, value-append, value-decimal_fuel f (n / 10) below) (omega arith)
    ]

pub decimal-Digits : (n : ℕ) → Digits (decimal n)
unfolding decimal
decimal-Digits n = decimal_fuel-Digits 20 n

append_one-cons : (xs : Bytes) (x : ℕ) → (c : ℕ) × (s : Bytes) × (xs ++ (x ∷ []) ≡ c ∷ s)
append_one-cons [] x = (x, [], refl)
append_one-cons (y ∷ xs) x = (y, xs ++ (x ∷ []), refl)

decimal_fuel-cons : (f n : ℕ) → (c : ℕ) × (s : Bytes) × (decimal_fuel (suc f) n ≡ c ∷ s)
unfolding decimal_fuel
decimal_fuel-cons f n = elim (Bool-cases (ltb n 10)) [
  | inl small ↦ (b'0' + n, [], rw small)
  | inr big ↦
      let (c, s, e) = append_one-cons (decimal_fuel f (n / 10)) (b'0' + n % 10) in (c, s, rw big e)
]

-- What is printed is not empty.
pub decimal-cons : (n : ℕ) → (c : ℕ) × (s : Bytes) × (decimal n ≡ c ∷ s)
unfolding decimal
decimal-cons n = decimal_fuel-cons 19 n

-- `ParseUint` reads back what `%d` printed.
pub parse_uint-decimal : (n : ℕ) → n < 2 ^ 64 → parse_uint (decimal n) ≡ some n
unfolding parse_uint decimal
parse_uint-decimal n h = rw (value-decimal_fuel 20 n (omega arith), lt→ltb n (2 ^ 64) h)
