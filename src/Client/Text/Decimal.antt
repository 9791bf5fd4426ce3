-- ===== src/Client/Text/Decimal.antt =====
-- Numbers that are printed and read again.
use evdi.Prelude.{
  ℕ, zero, suc, ◌+◌, ◌-◌, ◌*◌, ◌/◌, ◌%◌, ◌^◌, ◌<◌, ◌≡◌, refl, arith, true, false, [], ◌∷◌, ltb,
  if◌then◌else◌, if-cases, sym, ap, subst, ◌∙◌, min, ◌==◌,
}
use evdi.Prelude.Int.{pos, wrap32_small}
use evdi.Client.Text.{
  Bytes, digits_value, digits, print_int, to_int, skip_space, is_digit, signed_value,
}

-- the value after the digits of `n` were read, of those read before
scaled : ℕ → ℕ → ℕ → ℕ
scaled zero acc n = acc
scaled (suc fuel) acc n =
    let more = scaled fuel acc (n / 10) * 10 + n % 10 in if ltb n 10 then acc * 10 + n else more

-- a digit is taken in
digit_value :
    (acc d : ℕ) (rest : Bytes)
    → d < 10
    → digits_value acc ((b'0' + d) ∷ rest) ≡ digits_value (acc * 10 + d) rest
unfolding digits_value
digit_value acc d rest h = ground arith

value-digits :
    (fuel acc n : ℕ) (rest : Bytes)
    → digits_value acc (digits fuel n rest) ≡ digits_value (scaled fuel acc n) rest
unfolding digits scaled
value-digits zero acc n rest = refl
value-digits (suc fuel) acc n rest = ground (
  arith,
  digit_value acc n rest,
  value-digits fuel acc (n / 10) ((b'0' + n % 10) ∷ rest),
  digit_value (scaled fuel acc (n / 10)) (n % 10) rest,
)

scaled_zero : (fuel n : ℕ) → n < 10 ^ fuel → scaled fuel 0 n ≡ n
unfolding scaled
scaled_zero zero n h = omega arith
scaled_zero (suc fuel) n h = ground (arith, scaled_zero fuel (n / 10) (omega arith))

abbrev pub IsNumber : Bytes → Type 0
IsNumber [] = ⊥
IsNumber (c ∷ s) = is_digit c ≡ true

digits-IsNumber : (fuel n : ℕ) (rest : Bytes) → IsNumber rest → IsNumber (digits fuel n rest)
unfolding digits
digits-IsNumber zero n rest h = h
digits-IsNumber (suc fuel) n rest h =
    let more = digits-IsNumber fuel (n / 10) ((b'0' + n % 10) ∷ rest) (ground arith) in
    if-cases IsNumber (ltb n 10) ((b'0' + n) ∷ rest) _ (λ k. ground arith) (λ k. more)

pub print_int-IsNumber : (n : ℕ) → IsNumber (print_int n)
unfolding print_int digits
print_int-IsNumber n =
    if-cases IsNumber (ltb n 10) ((b'0' + n) ∷ []) _ (λ k. ground arith)
      (λ k. digits-IsNumber 9 (n / 10) ((b'0' + n % 10) ∷ []) (ground arith))

skip_space_digit : (c : ℕ) (s : Bytes) → is_digit c ≡ true → skip_space (c ∷ s) ≡ c ∷ s
unfolding skip_space
skip_space_digit c s d = ground arith

signed_value_digit :
    (c : ℕ) (s : Bytes)
    → is_digit c ≡ true
    → digits_value 0 (c ∷ s) < 2 ^ 31
    → signed_value (c ∷ s) ≡ pos (digits_value 0 (c ∷ s))
unfolding signed_value
signed_value_digit c s d h =
    let sign : (c == b'-') ≡ false = ground arith in
    let plus : (c == b'+') ≡ false = ground arith in
    rw sign (rw plus (ap pos (small (digits_value 0 (c ∷ s)) h)))
  where
    small : (n : ℕ) → n < 2 ^ 31 → min n (2 ^ 63 - 1) ≡ n
    small n h = omega arith

to_int_number :
    (s : Bytes) → IsNumber s → digits_value 0 s < 2 ^ 31 → to_int s ≡ pos (digits_value 0 s)
unfolding to_int
to_int_number [] d h = absurd d
to_int_number (c ∷ s) d h =
    rw (skip_space_digit c s d)
      (rw (signed_value_digit c s d h) (wrap32_small (digits_value 0 (c ∷ s)) h))

-- An `int` that is not negative, printed and read again, is itself.
pub to_int-print_int : (n : ℕ) → n < 2 ^ 31 → to_int (print_int n) ≡ pos n
unfolding print_int digits_value scaled
to_int-print_int n h =
    let value : digits_value 0 (print_int n) ≡ n =
      value-digits 10 0 n [] ∙ scaled_zero 10 n (omega arith) in
    to_int_number (print_int n) (print_int-IsNumber n) (subst (λ k. k < 2 ^ 31) (sym value) h)
    ∙ ap pos value

-- every byte is a digit
abbrev pub AllDigits : Bytes → Type 0
AllDigits [] = Unit {0}
AllDigits (c ∷ s) = (is_digit c ≡ true) × AllDigits s

digits-AllDigits : (fuel n : ℕ) (rest : Bytes) → AllDigits rest → AllDigits (digits fuel n rest)
unfolding digits
digits-AllDigits zero n rest h = h
digits-AllDigits (suc fuel) n rest h =
    let more = digits-AllDigits fuel (n / 10) ((b'0' + n % 10) ∷ rest) (ground arith, h) in
    if-cases AllDigits (ltb n 10) ((b'0' + n) ∷ rest) _ (λ k. (ground arith, h)) (λ k. more)

pub print_int-AllDigits : (n : ℕ) → AllDigits (print_int n)
unfolding print_int
print_int-AllDigits n = digits-AllDigits 10 n [] tt

pub digits_value-print_int : (n : ℕ) → n < 2 ^ 32 → digits_value 0 (print_int n) ≡ n
unfolding print_int digits_value scaled
digits_value-print_int n h = value-digits 10 0 n [] ∙ scaled_zero 10 n (omega arith)
