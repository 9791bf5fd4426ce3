-- ===== src/Sysfs/Text/Tokens.antt =====
-- How texts without white space or delimiters are taken apart, and numbers read.
use evdi.Prelude.{
  ℕ, ◌+◌, ◌-◌, ◌*◌, ◌^◌, ◌<◌, ◌≡◌, refl, sym, ap, ◌∙◌, subst, arith, true, false, [], ◌∷◌, ◌++◌,
  none, some, ◌==◌, ltb, if◌then◌else◌,
}
use evdi.Client.Text.{Bytes, is_space, is_digit, skip_space, digits_value, print_int}
use evdi.Client.Text.Decimal.{
  AllDigits, IsNumber, print_int-AllDigits, print_int-IsNumber, digits_value-print_int,
}
use evdi.Sysfs.Text.{
  cut, strsep, trim_end, strim, all_digits, first_digit, unsigned, in_range, kstrtouint,
}

-- no byte is the delimiter
abbrev pub Lacks : ℕ → Bytes → Type 0
Lacks d [] = Unit {0}
Lacks d (c ∷ s) = ((c == d) ≡ false) × Lacks d s

abbrev pub NoSpace : Bytes → Type 0
NoSpace [] = Unit {0}
NoSpace (c ∷ s) = (is_space c ≡ false) × NoSpace s

pub AllDigits-Lacks : (d : ℕ) (s : Bytes) → is_digit d ≡ false → AllDigits s → Lacks d s
AllDigits-Lacks d [] h k = tt
AllDigits-Lacks d (c ∷ s) h (k, ks) = (ground arith, AllDigits-Lacks d s h ks)

pub AllDigits-NoSpace : (s : Bytes) → AllDigits s → NoSpace s
AllDigits-NoSpace [] k = tt
AllDigits-NoSpace (c ∷ s) (k, ks) = (ground arith, AllDigits-NoSpace s ks)

pub NoSpace-append : (s t : Bytes) → NoSpace s → NoSpace t → NoSpace (s ++ t)
NoSpace-append [] t h k = k
NoSpace-append (c ∷ s) t (h, hs) k = (h, NoSpace-append s t hs k)

pub Lacks-append : (d : ℕ) (s t : Bytes) → Lacks d s → Lacks d t → Lacks d (s ++ t)
Lacks-append d [] t h k = k
Lacks-append d (c ∷ s) t (h, hs) k = (h, Lacks-append d s t hs k)

cut-append : (d : ℕ) (s t : Bytes) → Lacks d s → cut d (s ++ d ∷ t) ≡ (s, some t)
unfolding cut
cut-append d [] t h = ground arith
cut-append d (c ∷ s) t (h, hs) = rw (cut-append d s t hs) (rw h refl)

cut_whole : (d : ℕ) (s : Bytes) → Lacks d s → cut d s ≡ (s, none)
unfolding cut
cut_whole d [] h = refl
cut_whole d (c ∷ s) (h, hs) = rw (cut_whole d s hs) (rw h refl)

pub strsep-append :
    (d : ℕ) (s t : Bytes) → Lacks d s → strsep d (some (s ++ d ∷ t)) ≡ (some s, some t)
unfolding strsep
strsep-append d s t h = ap (λ r. (some r.0, r.1)) (cut-append d s t h)

pub strsep_whole : (d : ℕ) (s : Bytes) → Lacks d s → strsep d (some s) ≡ (some s, none)
unfolding strsep
strsep_whole d s h = ap (λ r. (some r.0, r.1)) (cut_whole d s h)

trim_end_id : (s : Bytes) → NoSpace s → trim_end s ≡ s
unfolding trim_end
trim_end_id [] h = refl
trim_end_id (c ∷ []) (h, _) = rw h refl
trim_end_id (c ∷ d ∷ s) (h, hs) = rw (trim_end_id (d ∷ s) hs) refl

skip_space_id : (s : Bytes) → NoSpace s → skip_space s ≡ s
unfolding skip_space
skip_space_id [] h = refl
skip_space_id (c ∷ s) (h, hs) = rw h refl

pub strim_id : (s : Bytes) → NoSpace s → strim s ≡ s
unfolding strim
strim_id s h = ap skip_space (trim_end_id s h) ∙ skip_space_id s h

all_digits_value : (n : ℕ) (s : Bytes) → AllDigits s → all_digits n s ≡ some (digits_value n s)
unfolding all_digits digits_value
all_digits_value n [] h = refl
all_digits_value n (c ∷ s) (h, hs) = rw h (all_digits_value (n * 10 + (c - b'0')) s hs)

unsigned_digits : (s : Bytes) → IsNumber s → AllDigits s → unsigned s ≡ some (digits_value 0 s)
unfolding unsigned first_digit
unsigned_digits [] i h = absurd i
unsigned_digits (c ∷ s) i h =
    let plus : (c == b'+') ≡ false = ground arith in
    ap (λ b. if b then first_digit s else first_digit (c ∷ s)) plus
    ∙ ap (λ b. if b then all_digits 0 (c ∷ s) else none) i
    ∙ all_digits_value 0 (c ∷ s) h

kstrtouint_digits :
    (s : Bytes)
    → IsNumber s
    → AllDigits s
    → digits_value 0 s < 2 ^ 32
    → kstrtouint s ≡ some (digits_value 0 s)
unfolding kstrtouint in_range
kstrtouint_digits s i h small =
    let fits : ltb (digits_value 0 s) (2 ^ 32) ≡ true = ground arith in
    ap in_range (unsigned_digits s i h) ∙ rw fits refl

-- A number that was printed is read again.
pub kstrtouint-print_int : (n : ℕ) → n < 2 ^ 32 → kstrtouint (print_int n) ≡ some n
kstrtouint-print_int n h =
    let value = digits_value-print_int n h in
    kstrtouint_digits (print_int n) (print_int-IsNumber n) (print_int-AllDigits n)
      (subst (λ k. k < 2 ^ 32) (sym value) h)
    ∙ ap some value
