-- ===== src/Painter/Dirty.antt =====
-- The dirty rectangles of a painter: `evdi_painter_mark_dirty` and what reads them.
pub mod Safe
use evdi.Prelude.{
  ℕ, ◌+◌, Bool, true, false, List, [], ◌∷◌, Option, none, some, ◌==◌, if◌then◌else◌, set,
}
use evdi.Rect.{
  Rect, no_rect, max_dirts, Dirts, framebuffer_sanitize_rect, merge_dirty_rects,
  collapse_dirty_rects,
}
use evdi.World.{Framebuffer, World}
use evdi.Painter.State.{Painter, Device, with_painter}

abbrev pub get_num_dirts : Option Painter → ℕ
get_num_dirts none = 0
get_num_dirts (some p) = p.num_dirts

abbrev framebuffer_rect : Option Framebuffer → Rect
framebuffer_rect none = no_rect
framebuffer_rect (some fb) = record { x1 = 0; y1 = 0; x2 = fb.width; y2 = fb.height }

abbrev pub framebuffer_size : Option Painter → Rect
framebuffer_size none = no_rect
framebuffer_size (some p) = framebuffer_rect p.scanout_fb

-- the two attempts to make room
pub merge_if_full : Dirts → Dirts
merge_if_full d = if d.1 == max_dirts then merge_dirty_rects d else d

pub make_room : Dirts → Dirts
make_room d =
    let merged = merge_if_full d in
    if merged.1 == max_dirts then collapse_dirty_rects merged else merged

pub add_dirty : Dirts → Rect → Dirts
add_dirty d rect = let room = make_room d in (set room.0 room.1 rect, room.1 + 1)

abbrev pub dirts_of : Painter → Dirts
dirts_of p = (p.dirty_rects, p.num_dirts)

abbrev pub with_dirts : Painter → Dirts → Painter
with_dirts p d = record p { dirty_rects = d.0; num_dirts = d.1 }

unfoldable pub mark_on : Painter → Option Framebuffer → Rect → Painter
mark_on p none dirty_rect = p
mark_on p (some fb) dirty_rect =
    with_dirts p (add_dirty (dirts_of p) (framebuffer_sanitize_rect fb.width fb.height dirty_rect))

unfoldable pub painter_mark_dirty : Device → Rect → Device
painter_mark_dirty evdi dirty_rect =
    with_painter evdi (λ p w. (mark_on p p.scanout_fb dirty_rect, w))
