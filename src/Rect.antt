-- ===== src/Rect.antt =====
-- Clip rectangles: `struct drm_clip_rect`, `evdi_framebuffer_sanitize_rect` of module/evdi_fb.c, and
-- the routines of module/evdi_painter.c that keep the dirty rectangles in an array of fixed size.
-- A field is an `unsigned short`, so a number below 2 ^ 16; `int` results wrap by `wrap32`.
pub mod Sanitize
pub mod Merge
pub mod Cover
pub mod Area
use evdi.Prelude.{
  ℕ, zero, suc, ◌+◌, ◌-◌, ◌%◌, ◌^◌, min, max, List, ◌∷◌, [], Bool, true, false, ltb, length,
  if◌then◌else◌, get_or, set,
}
use evdi.Prelude.Int.{ℤ, pos, ◌-ℤ◌, ◌*ℤ◌, ◌+ℤ◌, wrap32, leb_ℤ}

pub record Rect : Type 0 where
  pub x1 : ℕ
  pub y1 : ℕ
  pub x2 : ℕ
  pub y2 : ℕ

-- the value of an array entry that was never written, and of a read out of range
abbrev pub no_rect : Rect
no_rect = record { x1 = 0; y1 = 0; x2 = 0; y2 = 0 }

abbrev pub max_dirts : ℕ
max_dirts = 16

-- the exchange of the ends that are the wrong way round
swap_x : Rect → Rect
swap_x r = if ltb r.x2 r.x1 then record r { x1 = r.x2; x2 = r.x1 } else r

swap_y : Rect → Rect
swap_y r = if ltb r.y2 r.y1 then record r { y1 = r.y2; y2 = r.y1 } else r

-- An `unsigned int` is stored into an `unsigned short`.
abbrev clip_to : ℕ → ℕ → ℕ
clip_to bound x = if ltb bound x then bound % 2 ^ 16 else x

pub framebuffer_sanitize_rect : ℕ → ℕ → Rect → Rect
unfolding swap_x swap_y
framebuffer_sanitize_rect width height dirty_rect =
    let r = swap_y (swap_x dirty_rect) in
    record {
      x1 = clip_to width r.x1;
      y1 = clip_to height r.y1;
      x2 = clip_to width r.x2;
      y2 = clip_to height r.y2;
    }

unfoldable pub expand_rect : Rect → Rect → Rect
expand_rect a b = record {
  x1 = min a.x1 b.x1;
  y1 = min a.y1 b.y1;
  x2 = max a.x2 b.x2;
  y2 = max a.y2 b.y2;
}

-- The subtractions are of `int`s; the product wraps.
unfoldable pub rect_area : Rect → ℤ
rect_area r = wrap32 ((pos r.x2 -ℤ pos r.x1) *ℤ (pos r.y2 -ℤ pos r.y1))

-- whether the bounding box has no more pixels than the two
unfoldable pub is_mergeable : Rect → Rect → Bool
is_mergeable a b = leb_ℤ (rect_area (expand_rect a b)) (wrap32 (rect_area a +ℤ rect_area b))

-- The array, and the number of entries in use.
abbrev pub Dirts : Type 0
Dirts = List Rect × ℕ

-- `rects[a] = bounding_rect; rects[b] = rects[*count - 1]`, for a count of `suc c`
unfoldable pub merge_pair : ℕ → ℕ → ℕ → List Rect → List Rect
merge_pair a b c rects =
    let merged = set rects a (expand_rect (get_or rects a no_rect) (get_or rects b no_rect)) in
    set merged b (get_or merged c no_rect)

-- The inner loop, at `b = *count - left`. A merge starts it over from `a + 1`.
unfoldable pub merge_inner : ℕ → ℕ → ℕ → List Rect → Dirts
merge_inner a zero left rects = (rects, zero)
merge_inner a (suc c) zero rects = (rects, suc c)
merge_inner a (suc c) (suc left) rects =
    let b = c - left in
    elim (is_mergeable (get_or rects a no_rect) (get_or rects b no_rect)) [
      | true ↦ merge_inner a c (c - (a + 1)) (merge_pair a b c rects)
      | false ↦ merge_inner a (suc c) left rects
    ]

-- The outer loop on fuel, from `a` on.
pub merge_outer : ℕ → ℕ → Dirts → Dirts
merge_outer zero a (rects, count) = (rects, count)
merge_outer (suc fuel) a (rects, count) =
    let rest = merge_outer fuel (a + 1) (merge_inner a count (count - (a + 1)) rects) in
    if ltb a (count - 1) then rest else (rects, count)

unfoldable pub merge_dirty_rects : Dirts → Dirts
unfolding merge_outer
merge_dirty_rects (rects, count) = merge_outer count 0 (rects, count)

-- The loop of `collapse_dirty_rects`: entries `i`, `i + 1`, … into `rects[0]`, `left` of them.
pub collapse_from : ℕ → ℕ → List Rect → List Rect
collapse_from zero i rects = rects
collapse_from (suc left) i rects =
    collapse_from left (i + 1)
      (set rects 0 (expand_rect (get_or rects 0 no_rect) (get_or rects i no_rect)))

pub collapse_dirty_rects : Dirts → Dirts
unfolding collapse_from
collapse_dirty_rects (rects, count) = (collapse_from (count - 1) 1 rects, 1)
