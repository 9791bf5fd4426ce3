-- ===== src/Tests/Grabs.antt =====
-- Grabbing pixels.
use evdi.Prelude.{◌+◌, ◌*◌, ◌≡◌, refl, true, List, [], ◌∷◌, arith, if◌then◌else◌}
use evdi.Prelude.Int.{pos}
use evdi.Errno.{done}
use evdi.Rect.{Rect}
use evdi.Painter.Pixels.{Source, copy_primary_pixels}
use evdi.Painter.Pixels.Rows.{Plain}
use evdi.Painter.Pixels.Copied.{AllIn, covered, copied_pixels}
use evdi.Painter.Grab.{grabpix_ioctl}
use evdi.Painter.Grab.Rects.{Delivered, grab-Delivered}
use evdi.Painter.Grab.Refs.{Conserves, grab-Conserves}
use evdi.Tests.Data.{live, live_device, grab_env, grab_args, blank, bytes, fb, rect}

grab-Delivered_example :
    Delivered live grab_args (grabpix_ioctl grab_env live_device grab_args blank)
grab-Delivered_example =
    grab-Delivered grab_env live_device grab_args blank live refl (refl, omega arith)

grab-Conserves_example :
    Conserves live_device live (grabpix_ioctl grab_env live_device grab_args blank).0
grab-Conserves_example =
    grab-Conserves grab_env live_device grab_args blank live refl (λ id. ground arith)

abbrev source : Source
source = record {
  fb = fb;
  vmapping = bytes;
  before = λ _. 0;
  buf_byte_stride = pos 32;
  copies = λ _ _. true;
}

source-Plain : Plain source 8 8 32
source-Plain = record {
  stride_pos = refl;
  stride_wide = omega arith;
  dst_small = omega arith;
  src_small = omega arith;
  copied = λ _ _. refl;
}

abbrev rects : List Rect
rects = rect 0 0 2 2 ∷ rect 4 4 6 6 ∷ []

rects-AllIn : AllIn 8 8 rects
rects-AllIn = (
  record {
    x_upright = omega arith;
    y_upright = omega arith;
    x_inside = omega arith;
    y_inside = omega arith;
  },
  (
    record {
      x_upright = omega arith;
      y_upright = omega arith;
      x_inside = omega arith;
      y_inside = omega arith;
    },
    tt,
  ),
)

copied_pixels_example :
    ((copy_primary_pixels source rects (pos 8) (pos 8) blank).0 ≡ done)
    × ((copy_primary_pixels source rects (pos 8) (pos 8) blank).1 (pos (32 * 4 + (4 * 5 + 1)))
        ≡ (if covered rects 5 4 then bytes (0 + 32 * 4 + (4 * 5 + 1)) else 0))
copied_pixels_example =
    copied_pixels source 8 8 32 rects blank 5 4 1 source-Plain refl rects-AllIn (omega arith)
      (omega arith)
