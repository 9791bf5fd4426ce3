-- ===== src/Client/Text/Equal.antt =====
-- The comparison of texts.
use evdi.Prelude.{◌≡◌, refl, ap₂, arith, true, [], ◌∷◌}
use evdi.Client.Text.{Bytes, bytes_eq}

pub bytes_eq_refl : (a : Bytes) → bytes_eq a a ≡ true
unfolding bytes_eq
bytes_eq_refl [] = refl
bytes_eq_refl (x ∷ xs) = ground (arith, bytes_eq_refl xs)

pub eq_of_bytes_eq : (a b : Bytes) → bytes_eq a b ≡ true → a ≡ b
unfolding bytes_eq
eq_of_bytes_eq [] [] h = refl
eq_of_bytes_eq [] (y ∷ ys) h = cc
eq_of_bytes_eq (x ∷ xs) [] h = cc
eq_of_bytes_eq (x ∷ xs) (y ∷ ys) h = ap₂ ◌∷◌ (ground arith) (eq_of_bytes_eq xs ys (ground arith))
