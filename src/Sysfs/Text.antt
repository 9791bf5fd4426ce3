-- ===== src/Sysfs/Text.antt =====
-- The kernel's functions on texts that module/evdi_sysfs.c calls, as its documentation has them.
pub mod Tokens
use evdi.Prelude.{
  ℕ, ◌+◌, ◌-◌, ◌*◌, ◌^◌, [], ◌∷◌, Option, none, some, ◌==◌, ltb, if◌then◌else◌, length,
}
use evdi.Client.Text.{Bytes, is_prefix, is_space, is_digit, skip_space}

-- the text up to the delimiter, and what follows that, if it is there
cut : ℕ → Bytes → Bytes × Option Bytes
cut delim [] = ([], none)
cut delim (c ∷ s) =
    let (token, rest) = cut delim s in if c == delim then ([], some s) else (c ∷ token, rest)

-- `strsep`: the token, and the text that is left; a text of NULL gives NULL
unfoldable pub strsep : ℕ → Option Bytes → Option Bytes × Option Bytes
unfolding cut
strsep delim none = (none, none)
strsep delim (some s) = let (token, rest) = cut delim s in (some token, rest)

-- white space at the end
trim_end : Bytes → Bytes
trim_end [] = []
trim_end (c ∷ s) = elim (trim_end s) [ [] ↦ if is_space c then [] else c ∷ [] | d ∷ r ↦ c ∷ d ∷ r ]

unfoldable pub strim : Bytes → Bytes
unfolding trim_end
strim s = skip_space (trim_end s)

-- `strnstr`: the text from the first place on where `p` stands within the first `count` bytes
unfoldable pub strnstr : Bytes → Bytes → ℕ → Option Bytes
strnstr [] p count = if is_prefix p [] then some [] else none
strnstr (c ∷ s) p count =
    let later = strnstr s p (count - 1) in
    if ltb count (length p) then none else if is_prefix p (c ∷ s) then some (c ∷ s) else later

-- digits only, but for a newline at the end
all_digits : ℕ → Bytes → Option ℕ
all_digits n [] = some n
all_digits n (c ∷ s) =
    let more = all_digits (n * 10 + (c - b'0')) s in
    if is_digit c then more else if c == b'\n' then elim s [ [] ↦ some n | _ ∷ _ ↦ none ] else none

-- at least one digit comes first
first_digit : Bytes → Option ℕ
unfolding all_digits
first_digit [] = none
first_digit (c ∷ s) = if is_digit c then all_digits 0 (c ∷ s) else none

unsigned : Bytes → Option ℕ
unfolding first_digit
unsigned [] = none
unsigned (c ∷ s) = if c == b'+' then first_digit s else first_digit (c ∷ s)

in_range : Option ℕ → Option ℕ
in_range none = none
in_range (some n) = if ltb n (2 ^ 32) then some n else none

-- `kstrtouint` to the base 10, with 0 for its result
unfoldable pub kstrtouint : Bytes → Option ℕ
unfolding unsigned in_range
kstrtouint s = in_range (unsigned s)
