-- ===== src/Tests/Rects.antt =====
-- Rectangles: reports of damage to an array of three.
use evdi.Prelude.{refl, arith, inr}
use evdi.Rect.Sanitize.{IsU16}
use evdi.Rect.Cover.{IsDirty, AllWithin}
use evdi.Painter.Dirty.{mark_on, dirts_of}
use evdi.Painter.Dirty.Safe.{mark_on-IsDirty, mark_on-AllWithin, DirtsOk}
use evdi.Prelude.{some}
use evdi.Tests.Data.{three_dirts, rect, live, fb}

three_within : AllWithin 8 8 three_dirts
three_within i h = ground arith

upside_down_fits : IsU16 (rect 9 1 3 5)
upside_down_fits = record {
  x1_fits = omega arith;
  y1_fits = omega arith;
  x2_fits = omega arith;
  y2_fits = omega arith;
}

live_dirts : DirtsOk (dirts_of live)
live_dirts = (refl, omega arith)

mark_on-IsDirty_example : IsDirty (dirts_of (mark_on live (some fb) (rect 9 1 3 5))) 4 2
mark_on-IsDirty_example =
    mark_on-IsDirty live fb (rect 9 1 3 5) 4 2 live_dirts upside_down_fits (omega arith)
      (omega arith) (inr (omega arith, omega arith))

mark_on-AllWithin_example :
    DirtsOk (dirts_of (mark_on live (some fb) (rect 9 1 3 5)))
    × AllWithin 8 8 (dirts_of (mark_on live (some fb) (rect 9 1 3 5)))
mark_on-AllWithin_example =
    mark_on-AllWithin live fb (rect 9 1 3 5) live_dirts upside_down_fits three_within
