-- ===== src/Rect/Sanitize.antt =====
-- `evdi_framebuffer_sanitize_rect`: the result lies within the framebuffer.
use evdi.Prelude.{ℕ, ◌^◌, ◌≤◌, ◌<◌, ◌≡◌, min, max, arith}
use evdi.Rect.{Rect, framebuffer_sanitize_rect}

-- the fields are `unsigned short`s
pub record IsU16 (r : Rect) : Type 0 where
  pub x1_fits : r.x1 < 2 ^ 16
  pub y1_fits : r.y1 < 2 ^ 16
  pub x2_fits : r.x2 < 2 ^ 16
  pub y2_fits : r.y2 < 2 ^ 16

-- an upright rectangle inside a `width` by `height` area
pub record IsWithin (width height : ℕ) (r : Rect) : Type 0 where
  pub x_upright : r.x1 ≤ r.x2
  pub y_upright : r.y1 ≤ r.y2
  pub x_inside : r.x2 ≤ width
  pub y_inside : r.y2 ≤ height

pub sanitize-IsWithin :
    (width height : ℕ) {r : Rect}
    → IsU16 r
    → IsWithin width height (framebuffer_sanitize_rect width height r)
unfolding framebuffer_sanitize_rect
sanitize-IsWithin width height v = ground arith

pub sanitize-id :
    (width height : ℕ) {r : Rect}
    → IsWithin width height r
    → framebuffer_sanitize_rect width height r ≡ r
unfolding framebuffer_sanitize_rect
sanitize-id width height v = ground arith

-- a pixel of the rectangle, its ends taken in either order
abbrev pub Spans : ℕ → ℕ → ℕ → Type 0
Spans a b x = (min a b ≤ x) × (x < max a b)

-- a pixel that a rectangle covers
abbrev pub Covers : Rect → ℕ → ℕ → Type 0
Covers r x y = (r.x1 ≤ x) × (x < r.x2) × (r.y1 ≤ y) × (y < r.y2)

-- Of a rectangle in 16-bit numbers, the clipped one covers exactly the pixels of the framebuffer
-- between its ends, taken in either order.
pub sanitize-Covers :
    (width height : ℕ) (r : Rect) (x y : ℕ)
    → IsU16 r
    → (Spans r.x1 r.x2 x × Spans r.y1 r.y2 y × (x < width) × (y < height)
        → Covers (framebuffer_sanitize_rect width height r) x y)
      × (Covers (framebuffer_sanitize_rect width height r) x y
          → Spans r.x1 r.x2 x × Spans r.y1 r.y2 y × (x < width) × (y < height))
unfolding framebuffer_sanitize_rect
sanitize-Covers width height r x y v = (λ h. ground arith, λ h. ground arith)
