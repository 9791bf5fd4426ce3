-- ===== src/Painter/Pixels.antt =====
-- `copy_primary_pixels`: the rectangles of the framebuffer go to the user's buffer, row by row.
-- An address is an offset into its buffer, and may be negative where the source's `int`s are.
pub mod Rows
pub mod Copied
use evdi.Prelude.{
  ℕ, zero, suc, ◌+◌, ◌-◌, ◌*◌, ◌%◌, ◌^◌, Bool, true, false, not, ◌&&◌, ◌||◌, List, [], ◌∷◌,
  if◌then◌else◌,
}
use evdi.Prelude.Int.{ℤ, pos, negsuc, ◌+ℤ◌, ◌-ℤ◌, ◌*ℤ◌, to_s32, wrap32, ltb_ℤ, leb_ℤ}
use evdi.Errno.{Status, ok, err, done, efault}
use evdi.Gem.{Memory}
use evdi.World.{Framebuffer}
use evdi.Rect.{Rect}

-- the user's bytes, by their offsets from `buffer`
abbrev pub User : Type 0
User = ℤ → ℕ

-- What the copy reads and how: the mapped bytes of the framebuffer's object (`before` the mapping there
-- is other memory), the buffer's stride, and at which offset a `copy_to_user` of so many bytes succeeds.
pub record Source : Type 0 where
  pub fb : Framebuffer
  pub vmapping : Memory
  pub before : ℕ → ℕ
  pub buf_byte_stride : ℤ
  pub copies : ℤ → ℤ → Bool

abbrev pub read_at : Source → ℤ → ℕ
read_at s (pos i) = s.vmapping i
read_at s (negsuc i) = s.before i

-- `copy_to_user(dst, src, span)`
pub copy_bytes : Source → User → ℤ → ℤ → ℤ → User
copy_bytes s user dst src span i =
    if leb_ℤ dst i && ltb_ℤ i (dst +ℤ span) then read_at s (src +ℤ (i -ℤ dst)) else user i

-- the loop over the rows, `left` of them
unfoldable pub copy_rows : Source → ℕ → ℤ → ℤ → ℤ → User → Status × User
copy_rows s zero dst src span user = (done, user)
copy_rows s (suc left) dst src span user =
    let rest =
      copy_rows s left (dst +ℤ s.buf_byte_stride) (src +ℤ pos s.fb.pitch) span
        (copy_bytes s user dst src span) in
    if s.copies dst span then rest else (err efault, user)

-- `fb->offsets[0] + fb->pitches[0] * row + 4 * column`, an `unsigned int` made an `int`
pub src_offset : Source → ℕ → ℕ → ℤ
src_offset s row column = to_s32 (s.fb.offset + s.fb.pitch * row + column * 4)

pub dst_offset : Source → ℕ → ℕ → ℤ
dst_offset s row column = wrap32 (s.buf_byte_stride *ℤ pos row +ℤ pos (column * 4))

copy_rect : Source → Rect → User → Status × User
copy_rect s r user =
    copy_rows s (r.y2 - r.y1) (dst_offset s r.y1 r.x1) (src_offset s r.y1 r.x1)
      ((pos r.x2 -ℤ pos r.x1) *ℤ pos 4) user

-- whether the rectangle lies beyond the expected dimensions
abbrev pub is_beyond : ℤ → ℤ → Rect → Bool
is_beyond max_x max_y r = ltb_ℤ max_x (pos r.x2) || ltb_ℤ max_y (pos r.y2)

unfoldable pub copy_rects : Source → ℤ → ℤ → List Rect → User → Status × User
unfolding copy_rect
copy_rects s max_x max_y [] user = (done, user)
copy_rects s max_x max_y (r ∷ rects) user =
    let (status, copied) = copy_rect s r user in
    let rest = copy_rects s max_x max_y rects copied in
    if is_beyond max_x max_y r
    then (err efault, user)
    else elim status [ ok _ ↦ rest | err e ↦ (err e, copied) ]

-- The loop of `copy_primary_pixels_on_xe`, `left` rows from `y` on. Each row goes through a buffer of
-- its own, and the addresses are computed for each.
abbrev pub copy_xe_from : Source → ℤ → ℕ → ℕ → User → Status × User
copy_xe_from s max_x zero y user = (done, user)
copy_xe_from s max_x (suc left) y user =
    let dst = wrap32 (s.buf_byte_stride *ℤ pos y) in
    let span = wrap32 (max_x *ℤ pos 4) in
    let rest = copy_xe_from s max_x left (y + 1) (copy_bytes s user dst (src_offset s y 0) span) in
    if s.copies dst span then rest else (err efault, user)

-- the number of turns of a loop from 0 up to an `int`
abbrev pub turns : ℤ → ℕ
turns (pos n) = n
turns (negsuc _) = 0

unfoldable pub copy_primary_pixels : Source → List Rect → ℤ → ℤ → User → Status × User
copy_primary_pixels s rects max_x max_y user =
    if s.fb.is_from_xe
    then copy_xe_from s max_x (turns max_y) 0 user
    else copy_rects s max_x max_y rects user
