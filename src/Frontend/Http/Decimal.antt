-- ===== src/Frontend/Http/Decimal.antt =====
-- strconv.Itoa of the standard library, on numbers that are not negative, and a reader of such numbers.
use mochi.Base.{
  ℕ, zero, suc, ◌+◌, ◌-◌, ◌*◌, ◌/◌, ◌%◌, ◌≤◌, ◌<◌, ◌≡◌, refl, ◌∙◌, Bool, false, ◌&&◌, Option, none,
  some, [], ◌∷◌, ◌++◌, arith, ◌==◌, ltb, leb, if◌then◌else◌,
}
use mochi.Base.Bytes.{Bytes}

-- The loop over the digits, on fuel: each round divides by ten.
unfoldable pub digits : ℕ → ℕ → Bytes → Bytes
digits zero n out = out
digits (suc fuel) n out =
    let rest = digits fuel (n / 10) ((b'0' + n % 10) ∷ out) in
    if ltb n 10 then (b'0' + n) ∷ out else rest

unfoldable pub itoa : ℕ → Bytes
itoa n = digits (suc n) n []

abbrev pub is_digit : ℕ → Bool
is_digit b = leb b'0' b && leb b b'9'

-- the number before the byte `end`, and what follows that byte
unfoldable pub read_uint : ℕ → ℕ → Bytes → Option (ℕ × Bytes)
read_uint end acc [] = none
read_uint end acc (b ∷ bs) =
    let rest = read_uint end (acc * 10 + (b - b'0')) bs in
    if is_digit b then rest else if b == end then some (acc, bs) else none

digits-append :
    (fuel n : ℕ) (out more : Bytes) → digits fuel n out ++ more ≡ digits fuel n (out ++ more)
unfolding digits
digits-append zero n out more = refl
digits-append (suc fuel) n out more =
    ground (arith, digits-append fuel (n / 10) ((b'0' + n % 10) ∷ out) more)

read_uint-digits :
    (end fuel n : ℕ) (out : Bytes)
    → n < fuel
    → read_uint end 0 (digits fuel n out) ≡ read_uint end n out
unfolding digits read_uint
read_uint-digits end zero n out h = absurd (omega arith)
read_uint-digits end (suc fuel) n out h =
    ground (arith, read_uint-digits end fuel (n / 10) ((b'0' + n % 10) ∷ out))

read_end :
    (end n : ℕ) (rest : Bytes)
    → is_digit end ≡ false
    → read_uint end n (end ∷ rest) ≡ some (n, rest)
unfolding read_uint
read_end end n rest h = ground arith

pub read_uint-itoa :
    (end n : ℕ) (rest : Bytes)
    → is_digit end ≡ false
    → read_uint end 0 (itoa n ++ end ∷ rest) ≡ some (n, rest)
unfolding itoa
read_uint-itoa end n rest h =
    rw (digits-append (suc n) n [] (end ∷ rest))
      (read_uint-digits end (suc n) n (end ∷ rest) (omega arith) ∙ read_end end n rest h)

-- A text that begins with a digit.
abbrev pub IsNumber : Bytes → Type 0
IsNumber [] = ⊥
IsNumber (b ∷ bs) = (b'0' ≤ b) × (b ≤ b'9')

digits-IsNumber : (fuel n : ℕ) (out : Bytes) → n < fuel → IsNumber (digits fuel n out)
unfolding digits
digits-IsNumber zero n out h = absurd (omega arith)
digits-IsNumber (suc fuel) n out h =
    ground (arith, digits-IsNumber fuel (n / 10) ((b'0' + n % 10) ∷ out))

pub itoa-IsNumber : (n : ℕ) → IsNumber (itoa n)
unfolding itoa
itoa-IsNumber n = digits-IsNumber (suc n) n [] (omega arith)
