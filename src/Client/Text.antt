-- ===== src/Client/Text.antt =====
-- What the user library uses of the C library's texts: searching, words and decimal numbers.
pub mod Decimal
pub mod Equal
use evdi.Prelude.{
  ℕ, zero, suc, ◌+◌, ◌-◌, ◌*◌, ◌/◌, ◌%◌, ◌^◌, Bool, true, false, not, ◌&&◌, ◌||◌, List, [], ◌∷◌,
  ◌++◌, ltb, leb, ◌==◌, if◌then◌else◌, min,
}
use evdi.Prelude.Int.{ℤ, pos, ◌-ℤ◌, wrap32}

abbrev pub Bytes : Type 0
Bytes = List ℕ

-- `strcmp` with 0 for the result
pub bytes_eq : Bytes → Bytes → Bool
bytes_eq [] [] = true
bytes_eq (x ∷ xs) (y ∷ ys) = (x == y) && bytes_eq xs ys
bytes_eq _ _ = false

-- `strncmp` over the length of the first text, with 0 for the result
unfoldable pub is_prefix : Bytes → Bytes → Bool
is_prefix [] s = true
is_prefix (c ∷ p) [] = false
is_prefix (c ∷ p) (d ∷ s) = (c == d) && is_prefix p s

-- `strstr` with a result other than NULL
pub contains : Bytes → Bytes → Bool
unfolding is_prefix
contains [] p = is_prefix p []
contains (c ∷ s) p = is_prefix p (c ∷ s) || contains s p

-- `isspace`
abbrev pub is_space : ℕ → Bool
is_space c = c == b' ' || (leb 9 c && leb c 13)

abbrev pub is_digit : ℕ → Bool
is_digit c = leb b'0' c && leb c b'9'

unfoldable pub skip_space : Bytes → Bytes
skip_space [] = []
skip_space (c ∷ s) = let rest = skip_space s in if is_space c then rest else c ∷ s

-- one word of at most `n` bytes, and what follows it
pub word : ℕ → Bytes → Bytes × Bytes
word zero s = ([], s)
word (suc n) [] = ([], [])
word (suc n) (c ∷ s) = let (w, rest) = word n s in if is_space c then ([], c ∷ s) else (c ∷ w, rest)

-- the value of the digits that a text starts with, after those read so far
unfoldable pub digits_value : ℕ → Bytes → ℕ
digits_value n [] = n
digits_value n (c ∷ s) =
    let value = digits_value (n * 10 + (c - b'0')) s in if is_digit c then value else n

-- after the sign; a `long` stops at its ends
pub signed_value : Bytes → ℤ
unfolding digits_value
signed_value [] = pos 0
signed_value (c ∷ s) =
    if c == b'-'
    then pos 0 -ℤ pos (min (digits_value 0 s) (2 ^ 63))
    else if c == b'+'
    then pos (min (digits_value 0 s) (2 ^ 63 - 1))
    else pos (min (digits_value 0 (c ∷ s)) (2 ^ 63 - 1))

-- `strtol` to the base 10, stored in an `int`; so too `atoi`
unfoldable pub to_int : Bytes → ℤ
unfolding signed_value skip_space
to_int s = wrap32 (signed_value (skip_space s))

-- The decimal digits of a number, before those there are; `fuel` is a bound on how many.
pub digits : ℕ → ℕ → Bytes → Bytes
digits zero n rest = rest
digits (suc fuel) n rest =
    let more = digits fuel (n / 10) ((b'0' + n % 10) ∷ rest) in
    if ltb n 10 then (b'0' + n) ∷ rest else more

-- `%d` of an `int` that is not negative: no more than ten digits
pub print_int : ℕ → Bytes
unfolding digits
print_int n = digits 10 n []
