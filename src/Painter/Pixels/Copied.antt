-- ===== src/Painter/Pixels/Copied.antt =====
-- What the client finds in its buffer after a grab.
use evdi.Prelude.{
  ℕ, ◌+◌, ◌-◌, ◌*◌, ◌≤◌, ◌<◌, ◌≡◌, refl, ◌∙◌, ap, Bool, true, false, ◌&&◌, ◌||◌, List, [], ◌∷◌,
  if◌then◌else◌, arith, if-cases, ltb, leb,
}
use evdi.Prelude.Int.{ℤ, pos, ◌+ℤ◌, ◌-ℤ◌, ◌*ℤ◌, to_s32, wrap32, wrap32_small}
use evdi.Errno.{Status, done, err, efault}
use evdi.Rect.{Rect}
use evdi.Rect.Sanitize.{IsWithin}
use evdi.Painter.Pixels.{
  Source, User, src_offset, dst_offset, copy_rect, copy_rects, copy_primary_pixels, is_beyond,
}
use evdi.Painter.Pixels.Rows.{Plain, copy_rows_lem, mul_le}

-- whether a rectangle covers the pixel
abbrev pub covers : Rect → ℕ → ℕ → Bool
covers r x y = leb r.x1 x && ltb x r.x2 && leb r.y1 y && ltb y r.y2

abbrev pub covered : List Rect → ℕ → ℕ → Bool
covered [] x y = false
covered (r ∷ rects) x y = covers r x y || covered rects x y

abbrev pub AllIn : ℕ → ℕ → List Rect → Type 0
AllIn width height [] = Unit {0}
AllIn width height (r ∷ rects) = IsWithin width height r × AllIn width height rects

plain_dst : (a b k : ℕ) → pos a *ℤ pos b +ℤ pos (k * 4) ≡ pos (a * b + 4 * k)
unfolding ◌*ℤ◌ ◌+ℤ◌
plain_dst a b k = ground arith

dst_lem :
    (s : Source) (width height t row column : ℕ)
    → Plain s width height t
    → row ≤ height
    → column ≤ width
    → dst_offset s row column ≡ pos (t * row + 4 * column)
unfolding dst_offset
dst_lem s width height t row column v hr hc =
    ap (λ z. wrap32 (z *ℤ pos row +ℤ pos (column * 4))) v.stride_pos
    ∙ ap wrap32 (plain_dst t row column)
    ∙ wrap32_small (t * row + 4 * column) (omega (arith, mul_le t row height hr, v.dst_small))

src_lem :
    (s : Source) (width height t row column : ℕ)
    → Plain s width height t
    → row ≤ height
    → column ≤ width
    → src_offset s row column ≡ pos (s.fb.offset + s.fb.pitch * row + 4 * column)
unfolding src_offset to_s32
src_lem s width height t row column v hr hc =
    ground (arith, mul_le s.fb.pitch row height hr, v.src_small)

span_lem : (a b : ℕ) → a ≤ b → (pos b -ℤ pos a) *ℤ pos 4 ≡ pos (4 * (b - a))
unfolding ◌*ℤ◌ ◌-ℤ◌
span_lem a b h = ground arith

rect_lem :
    (s : Source) (width height t : ℕ) (r : Rect) (user : User) (x y j : ℕ)
    → Plain s width height t
    → IsWithin width height r
    → x < width
    → j < 4
    → let (status, after) = copy_rect s r user in
      (status ≡ done)
      × (after (pos (t * y + (4 * x + j))) ≡ (
          if covers r x y
          then s.vmapping (s.fb.offset + s.fb.pitch * y + (4 * x + j))
          else user (pos (t * y + (4 * x + j)))))
unfolding copy_rect
rect_lem s width height t r user x y j v within hx hj =
    let (status, bytes) =
      copy_rows_lem s width height t s.fb.offset (r.y2 - r.y1) r.y1 (4 * r.x1) (4 * (r.x2 - r.x1)) y
        (4 * x + j) user v (omega (arith, v.stride_wide, within.x_upright, within.x_inside))
        (omega (arith, v.stride_wide)) in
    rw
      (
        dst_lem s width height t r.y1 r.x1 v (omega (arith, within.y_upright, within.y_inside))
            (omega (arith, within.x_upright, within.x_inside)),
        src_lem s width height t r.y1 r.x1 v (omega (arith, within.y_upright, within.y_inside))
            (omega (arith, within.x_upright, within.x_inside)),
        span_lem r.x1 r.x2 within.x_upright,
      )
      (status, ground (arith, bytes, within.x_upright, within.y_upright))

rects_lem :
    (s : Source) (width height t : ℕ) (rects : List Rect) (user : User) (x y j : ℕ)
    → Plain s width height t
    → AllIn width height rects
    → x < width
    → j < 4
    → let (status, after) = copy_rects s (pos width) (pos height) rects user in
      (status ≡ done)
      × (after (pos (t * y + (4 * x + j))) ≡ (
          if covered rects x y
          then s.vmapping (s.fb.offset + s.fb.pitch * y + (4 * x + j))
          else user (pos (t * y + (4 * x + j)))))
unfolding copy_rects
rects_lem s width height t [] user x y j v all hx hj = (refl, refl)
rects_lem s width height t (r ∷ rects) user x y j v (within, all) hx hj =
    let (status, first) = rect_lem s width height t r user x y j v within hx hj in
    let (ok_rest, rest) =
      rects_lem s width height t rects (copy_rect s r user).1 x y j v all hx hj in
    let inside : is_beyond (pos width) (pos height) r ≡ false =
      ground (arith, within.x_inside, within.y_inside) in
    rw (inside, status) (ok_rest, ground (arith, first, rest))

-- For a framebuffer that is not of the xe driver, a positive stride that holds a row, buffers
-- that `int` offsets reach, copies to user space that succeed, and rectangles within the
-- dimensions given: the copy returns 0, each byte of a pixel that some rectangle covers is the
-- framebuffer's, and each byte of another pixel of a row is what it was.
pub copied_pixels :
    (s : Source) (width height t : ℕ) (rects : List Rect) (user : User) (x y j : ℕ)
    → Plain s width height t
    → s.fb.is_from_xe ≡ false
    → AllIn width height rects
    → x < width
    → j < 4
    → let (status, after) = copy_primary_pixels s rects (pos width) (pos height) user in
      (status ≡ done)
      × (after (pos (t * y + (4 * x + j))) ≡ (
          if covered rects x y
          then s.vmapping (s.fb.offset + s.fb.pitch * y + (4 * x + j))
          else user (pos (t * y + (4 * x + j)))))
unfolding copy_primary_pixels
copied_pixels s width height t rects user x y j v from all hx hj =
    if-cases {A = Status × User} Right s.fb.is_from_xe _ _ (λ xe. cc)
      (λ _. rects_lem s width height t rects user x y j v all hx hj)
  where
    Right : Status × User → Type 0
    Right (status, after) =
        (status ≡ done)
        × (after (pos (t * y + (4 * x + j))) ≡ (
            if covered rects x y
            then s.vmapping (s.fb.offset + s.fb.pitch * y + (4 * x + j))
            else user (pos (t * y + (4 * x + j)))))

-- A rectangle beyond the dimensions that the client expects is refused, whatever comes after it.
pub copy_beyond :
    (s : Source) (max_x max_y : ℤ) (r : Rect) (rects : List Rect) (user : User)
    → is_beyond max_x max_y r ≡ true
    → copy_rects s max_x max_y (r ∷ rects) user ≡ (err efault, user)
unfolding copy_rects
copy_beyond s max_x max_y r rects user h = rw h refl
