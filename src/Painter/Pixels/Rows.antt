-- ===== src/Painter/Pixels/Rows.antt =====
-- The rows of one rectangle, byte by byte.
use evdi.Prelude.{
  ℕ, zero, suc, ◌+◌, ◌-◌, ◌*◌, ◌^◌, ◌≤◌, ◌<◌, ◌≡◌, refl, ◌∙◌, ap, true, ◌&&◌, if◌then◌else◌, arith,
  ◌==◌, ltb, leb, Bool-cases, inl, inr,
}
use evdi.Prelude.Int.{ℤ, pos, ◌+ℤ◌, ◌-ℤ◌}
use evdi.Errno.{done}
use evdi.Painter.Pixels.{Source, User, copy_bytes, copy_rows}

-- A user's buffer and a framebuffer of `width` by `height` pixels that `int` offsets reach, with the
-- buffer's stride as `stride`, and copies that succeed.
pub record Plain (s : Source) (width height stride : ℕ) : Type 0 where
  pub stride_pos : s.buf_byte_stride ≡ pos stride
  pub stride_wide : 4 * width ≤ stride
  pub dst_small : stride * height + 4 * width < 2 ^ 31
  pub src_small : s.fb.offset + s.fb.pitch * height + 4 * width < 2 ^ 31
  pub copied : (dst span : ℤ) → s.copies dst span ≡ true

pub copy_bytes_lem :
    (s : Source) (user : User) (d r span i : ℕ)
    → copy_bytes s user (pos d) (pos r) (pos span) (pos i)
      ≡ (if leb d i && ltb i (d + span) then s.vmapping (r + (i - d)) else user (pos i))
unfolding copy_bytes ◌+ℤ◌ ◌-ℤ◌
copy_bytes_lem s user d r span i = ground arith

mul_step : (t a : ℕ) → t * (a + 1) ≡ t * a + t
mul_step t a = grind arith

pub mul_le : (t a b : ℕ) → a ≤ b → t * a ≤ t * b
mul_le t a b h = grind arith

pub row_apart : (t a b : ℕ) → a < b → t * a + t ≤ t * b
row_apart t a b h = omega (arith, mul_step t a, mul_le t (a + 1) b (omega arith))

-- what the bytes of one row's copy are afterwards
row_lem :
    (s : Source) (user : User) (t base row c span y b : ℕ)
    → c + span ≤ t
    → b < t
    → copy_bytes s user
        (pos (t * row + c))
        (pos (base + s.fb.pitch * row + c))
        (pos span)
        (pos (t * y + b))
      ≡ (if row == y && leb c b && ltb b (c + span)
          then s.vmapping (base + s.fb.pitch * y + b)
          else user (pos (t * y + b)))
row_lem s user t base row c span y b fits inside =
    rw (copy_bytes_lem s user (t * row + c) (base + s.fb.pitch * row + c) span (t * y + b))
      (elim (Bool-cases (row == y)) [
        | inl e ↦ same (ground arith)
        | inr n ↦ elim (Bool-cases (ltb row y)) [
          | inl l ↦ ground (arith, row_apart t row y (ground arith))
          | inr g ↦ ground (arith, row_apart t y row (ground arith))
        ]
      ])
  where
    offset :
        c ≤ b → base + s.fb.pitch * y + c + (t * y + b - (t * y + c)) ≡ base + s.fb.pitch * y + b
    offset h = omega arith

    same :
        row ≡ y
        → (if leb (t * row + c) (t * y + b) && ltb (t * y + b) (t * row + c + span)
            then s.vmapping (base + s.fb.pitch * row + c + (t * y + b - (t * row + c)))
            else user (pos (t * y + b)))
          ≡ (if row == y && leb c b && ltb b (c + span)
              then s.vmapping (base + s.fb.pitch * y + b)
              else user (pos (t * y + b)))
    same e = rw e (elim (Bool-cases (leb c b)) [
      | inl l ↦ rw (offset (ground arith)) (ground arith)
      | inr l ↦ ground arith
    ])

next_dst : (t row c : ℕ) → pos (t * row + c) +ℤ pos t ≡ pos (t * (row + 1) + c)
unfolding ◌+ℤ◌
next_dst t row c = ground (arith, mul_step t row)

next_src : (base p row c : ℕ) → pos (base + p * row + c) +ℤ pos p ≡ pos (base + p * (row + 1) + c)
unfolding ◌+ℤ◌
next_src base p row c = ground (arith, mul_step p row)

-- The rows from `row` on take what the framebuffer has between the columns, and leave the rest.
pub copy_rows_lem :
    (s : Source) (width height t base left row c span y b : ℕ) (user : User)
    → Plain s width height t
    → c + span ≤ t
    → b < t
    → let (status, after) =
        copy_rows s left (pos (t * row + c)) (pos (base + s.fb.pitch * row + c)) (pos span) user in
      (status ≡ done)
      × (after (pos (t * y + b)) ≡ (
          if leb row y && ltb y (row + left) && leb c b && ltb b (c + span)
          then s.vmapping (base + s.fb.pitch * y + b)
          else user (pos (t * y + b))))
unfolding copy_rows
copy_rows_lem s width height t base zero row c span y b user v fits inside = (refl, ground arith)
copy_rows_lem s width height t base (suc left) row c span y b user v fits inside =
    let user' : User =
      copy_bytes s user (pos (t * row + c)) (pos (base + s.fb.pitch * row + c)) (pos span) in
    let (ok_rest, rest) =
      copy_rows_lem s width height t base left (row + 1) c span y b user' v fits inside in
    let dst : pos (t * row + c) +ℤ s.buf_byte_stride ≡ pos (t * (row + 1) + c) =
      ap (λ z. pos (t * row + c) +ℤ z) v.stride_pos ∙ next_dst t row c in
    rw (v.copied (pos (t * row + c)) (pos span), dst, next_src base s.fb.pitch row c)
      (ok_rest, ground (arith, rest, row_lem s user t base row c span y b fits inside))
