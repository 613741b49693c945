-- ===== src/Text/Decimal.antt =====
-- `str(n)` and `int(str(n))`.
use matchmaker_platform.Prelude.{
  ℕ, zero, suc, ◌+◌, ◌*◌, ◌/◌, ◌%◌, ◌<◌, ◌≡◌, refl, ◌≢◌, some, [], ◌∷◌, ◌∙◌, ap, arith, ltb,
  Bool-cases, inl, inr, ◌⊎◌, All,
}
use matchmaker_platform.Text.{Text, print_from, decimal, read_from, parse_int}

read_from-digit :
    (acc d : ℕ) (cs : Text) → d < 10 → read_from acc ((48 + d) ∷ cs) ≡ read_from (10 * acc + d) cs
unfolding read_from
read_from-digit acc d cs h = ground arith

-- Reading the digits of `n` and then a rest goes on from `n`.
read_from-print :
    (fuel n : ℕ) (rest : Text) → n < fuel → read_from 0 (print_from fuel n rest) ≡ read_from n rest
unfolding print_from
read_from-print zero n rest h = elim h [ ]
read_from-print (suc fuel) n rest h = ground (
  arith,
  read_from-digit 0 n rest,
  read_from-digit (n / 10) (n % 10) rest,
  read_from-print fuel (n / 10) ((48 + n % 10) ∷ rest),
)

print_from-ne-nil : (fuel n : ℕ) (rest : Text) → n < fuel → print_from fuel n rest ≢ []
unfolding print_from
print_from-ne-nil zero n rest h = elim h [ ]
print_from-ne-nil (suc fuel) n rest h =
    ground (arith, print_from-ne-nil fuel (n / 10) ((48 + n % 10) ∷ rest))

parse_int-read : (t : Text) → t ≢ [] → parse_int t ≡ read_from 0 t
unfolding parse_int
parse_int-read [] h = absurd (h refl)
parse_int-read (c ∷ cs) h = refl

-- Parsing what was printed gives the number.
pub parse_int-decimal : (n : ℕ) → parse_int (decimal n) ≡ some n
unfolding decimal read_from
parse_int-decimal n =
    parse_int-read (print_from (suc n) n []) (print_from-ne-nil (suc n) n [] (omega arith))
    ∙ read_from-print (suc n) n [] (omega arith)

-- Two numbers that print alike are one.
pub decimal_injective : (a b : ℕ) → decimal a ≡ decimal b → a ≡ b
decimal_injective a b h = cc (parse_int-decimal a, parse_int-decimal b, ap parse_int h)

print_from-All :
    (fuel n c : ℕ) (rest : Text)
    → c < 48 ⊎ 57 < c
    → All (λ d. d ≢ c) rest
    → All (λ d. d ≢ c) (print_from fuel n rest)
unfolding print_from
print_from-All zero n c rest out h = h
print_from-All (suc fuel) n c rest out h = elim (Bool-cases (ltb n 10)) [
  | inl small ↦ rw small (ground arith, h)
  | inr large ↦
      rw large (print_from-All fuel (n / 10) c ((48 + n % 10) ∷ rest) out (omega arith, h))
]

-- A printed number holds no character that is not a digit.
pub decimal-All : (n c : ℕ) → c < 48 ⊎ 57 < c → All (λ d. d ≢ c) (decimal n)
unfolding decimal
decimal-All n c out = print_from-All (suc n) n c [] out tt
