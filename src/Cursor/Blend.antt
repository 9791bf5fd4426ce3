-- ===== src/Cursor/Blend.antt =====
-- Blending: the shifts divide by 255, and a pixel is the weighted mean of its components.
use Prim.Native.Nat.{bit_or}
use evdi.Prelude.{ℕ, ◌+◌, ◌-◌, ◌*◌, ◌/◌, ◌%◌, ◌^◌, ◌≤◌, ◌<◌, ◌≡◌, arith}
use evdi.Prelude.Bits.{bit_or-add}
use evdi.Cursor.{blend_component, blend_alpha, byte_of}

-- the shifts are an exact division by 255, in the range of the weighted sum
shift_divides : (p : ℕ) → p ≤ 65025 → (p + (p + 1) * 2 ^ 8 % 2 ^ 32) % 2 ^ 32 / 2 ^ 16 ≡ p / 255
shift_divides p h = omega arith

weights_bounded : (a b m : ℕ) → a ≤ 255 → b ≤ 255 → m ≤ 255 → a * (255 - m) + b * m ≤ 65025
weights_bounded a b m ha hb hm = omega (arith, left, right)
  where
    left : a * (255 - m) ≤ 255 * (255 - m)
    left = grind arith

    right : b * m ≤ 255 * m
    right = grind arith

-- For bytes, `blend_component` is the weighted mean of the two, rounded down.
pub blend_component_lem :
    (pixel blend alpha : ℕ)
    → pixel < 2 ^ 8
    → blend < 2 ^ 8
    → alpha < 2 ^ 8
    → blend_component pixel blend alpha ≡ (pixel * (255 - alpha) + blend * alpha) / 255
unfolding blend_component
blend_component_lem pixel blend alpha hp hb ha =
    rw (complement, fits) (shift_divides (pixel * (255 - alpha) + blend * alpha) bounded)
  where
    complement : (255 + 2 ^ 32 - alpha) % 2 ^ 32 ≡ 255 - alpha
    complement = omega arith

    bounded : pixel * (255 - alpha) + blend * alpha ≤ 65025
    bounded = weights_bounded pixel blend alpha (omega arith) (omega arith) (omega arith)

    fits : (pixel * (255 - alpha) + blend * alpha) % 2 ^ 32 ≡ pixel * (255 - alpha) + blend * alpha
    fits = omega (arith, bounded)

-- the mean of two bytes, `blend` weighing `alpha` of 255
abbrev pub mean : ℕ → ℕ → ℕ → ℕ
mean pixel blend alpha = (pixel * (255 - alpha) + blend * alpha) / 255

pub mean-lt : (a b m : ℕ) → a < 2 ^ 8 → b < 2 ^ 8 → m < 2 ^ 8 → mean a b m < 2 ^ 8
mean-lt a b m ha hb hm =
    omega (arith, weights_bounded a b m (omega arith) (omega arith) (omega arith))

fields_join :
    (a b c : ℕ)
    → a < 2 ^ 8
    → b < 2 ^ 8
    → c < 2 ^ 8
    → bit_or (bit_or a (b * 2 ^ 8 % 2 ^ 32)) (c * 2 ^ 16 % 2 ^ 32) ≡ a + b * 2 ^ 8 + c * 2 ^ 16
fields_join a b c ha hb hc =
    rw (fits_b, fits_c, bit_or-add 8 a b ha) (bit_or-add 16 (a + b * 2 ^ 8) c (omega arith))
  where
    fits_b : b * 2 ^ 8 % 2 ^ 32 ≡ b * 2 ^ 8
    fits_b = omega arith

    fits_c : c * 2 ^ 16 % 2 ^ 32 ≡ c * 2 ^ 16
    fits_c = omega arith

-- the three bytes joined
blend_alpha-sum :
    (pixel blend : ℕ)
    → blend < 2 ^ 32
    → let alpha = blend / 2 ^ 24 in
      blend_alpha pixel blend
      ≡ mean (byte_of 0 pixel) (byte_of 0 blend) alpha
        + mean (byte_of 1 pixel) (byte_of 1 blend) alpha * 2 ^ 8
        + mean (byte_of 2 pixel) (byte_of 2 blend) alpha * 2 ^ 16
unfolding blend_alpha
blend_alpha-sum pixel blend h =
    rw
      (
        blend_component_lem (byte_of 0 pixel) (byte_of 0 blend) (blend / 2 ^ 24) (omega arith)
            (omega arith) (omega arith),
        blend_component_lem (byte_of 1 pixel) (byte_of 1 blend) (blend / 2 ^ 24) (omega arith)
            (omega arith) (omega arith),
        blend_component_lem (byte_of 2 pixel) (byte_of 2 blend) (blend / 2 ^ 24) (omega arith)
            (omega arith) (omega arith),
      )
      (fields_join _ _ _ (mean-lt _ _ _ (omega arith) (omega arith) (omega arith))
        (mean-lt _ _ _ (omega arith) (omega arith) (omega arith))
        (mean-lt _ _ _ (omega arith) (omega arith) (omega arith)))

split_bytes :
    (a b c : ℕ)
    → a < 2 ^ 8
    → b < 2 ^ 8
    → c < 2 ^ 8
    → let v = a + b * 2 ^ 8 + c * 2 ^ 16 in
      (byte_of 0 v ≡ a) × (byte_of 1 v ≡ b) × (byte_of 2 v ≡ c) × (byte_of 3 v ≡ 0)
split_bytes a b c ha hb hc = omega arith

-- Each of the three low bytes of the composed pixel is the mean of the pixel's and the cursor's,
-- rounded down, with the cursor's high byte for the weight; the high byte is 0. The cursor's
-- value is one of 32 bits.
pub blend_alpha_lem :
    (pixel blend : ℕ)
    → blend < 2 ^ 32
    → let alpha = blend / 2 ^ 24 in
      let out = blend_alpha pixel blend in
      (byte_of 0 out ≡ mean (byte_of 0 pixel) (byte_of 0 blend) alpha)
      × (byte_of 1 out ≡ mean (byte_of 1 pixel) (byte_of 1 blend) alpha)
      × (byte_of 2 out ≡ mean (byte_of 2 pixel) (byte_of 2 blend) alpha)
      × (byte_of 3 out ≡ 0)
blend_alpha_lem pixel blend h = rw (blend_alpha-sum pixel blend h) (
    split_bytes _ _ _ (mean-lt _ _ _ (omega arith) (omega arith) (omega arith))
      (mean-lt _ _ _ (omega arith) (omega arith) (omega arith))
      (mean-lt _ _ _ (omega arith) (omega arith) (omega arith)))
