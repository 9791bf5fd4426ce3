-- ===== src/Compat/Grabbed.antt =====
-- What a grab gives a 32-bit process.
use evdi.Prelude.{◌≡◌, Bool, not, some, if-cases}
use evdi.Errno.{is_ok, is_ok-done}
use evdi.Painter.State.{Painter, Device}
use evdi.Painter.Dirty.{dirts_of}
use evdi.Painter.Dirty.Safe.{DirtsOk}
use evdi.Painter.Pixels.{User}
use evdi.Painter.Grab.{GrabEnv, GrabOut, grabpix_ioctl}
use evdi.Painter.Grab.Rects.{Delivered, grab-Delivered}
use evdi.Compat.{Grabpix32, grab_of, grab_answer, compat_grabpix}

answer-Delivered :
    (p : Painter) (req : Grabpix32) (copies : Bool) (d : Device) (out : GrabOut)
    → Delivered p (grab_of req) (d, out)
    → Delivered p (grab_of req) (d, grab_answer req copies out)
unfolding grab_answer
answer-Delivered p req copies d out h =
    if-cases (λ r. Delivered p (grab_of req) (d, r)) (not (is_ok out.status)) _ _
      (λ failed e. absurd (is_ok-done out.status failed e))
      (λ _. if-cases (λ r. Delivered p (grab_of req) (d, r)) (not copies) _ _ (λ _ e. cc) (λ _. h))

-- A 32-bit process that is answered 0 has what a 64-bit one has: with a well-formed array of dirty
-- rectangles, it was given rectangles that cover every pixel that was dirty, was told how many, not more than
-- it has space for, and nothing is left dirty.
pub compat_grabpix-Delivered :
    (env : GrabEnv) (d : Device) (req : Grabpix32) (copies : Bool) (user : User) (p : Painter)
    → d.painter ≡ some p
    → DirtsOk (dirts_of p)
    → Delivered p (grab_of req) (compat_grabpix env d (some req) copies user)
unfolding compat_grabpix
compat_grabpix-Delivered env d req copies user p e v =
    let (d', out) = grabpix_ioctl env d (grab_of req) user in
    answer-Delivered p req copies d' out (grab-Delivered env d (grab_of req) user p e v)
