-- ===== src/Painter/Grab/Cases.antt =====
-- The ways through a grab.
use evdi.Prelude.{arith, ◌≡◌, false, none, some, sym, subst, if-cases}
use evdi.Prelude.Int.{pos, ltb_ℤ}
use evdi.Errno.{Errno, einval, enodev, err, eagain}
use evdi.Painter.State.{Painter, Device}
use evdi.Painter.Dirty.{dirts_of, with_dirts}
use evdi.Painter.Pixels.{User}
use evdi.Painter.Grab.{
  grab_mode_dirty, GrabArgs, GrabEnv, GrabOut, grab_rects, grab_painter, grabpix_ioctl, refused,
}

-- what a grab may come to, for a device with a painter
pub grab-cases {ℓ} :
    (P : Device × GrabOut → Type ℓ) (env : GrabEnv) (d : Device) (cmd : GrabArgs) (user : User)
    (p : Painter)
    → d.painter ≡ some p
    → ((e : Errno) → P (refused d cmd user e))
    → (ltb_ℤ cmd.num_rects (pos 1) ≡ false
        → P (grab_painter env d cmd p (grab_rects (dirts_of p) cmd.num_rects) p.scanout_fb user))
    → P (grabpix_ioctl env d cmd user)
unfolding grabpix_ioctl
grab-cases P env d cmd user p e refuses grabs =
    if-cases P _ _ _ (λ _. refuses einval)
      λ _.
        if-cases P _ _ _ (λ _. refuses einval)
          λ n.
            subst
              (λ o. P (elim o [
                | none ↦ refused d cmd user enodev
                | some q ↦
                    grab_painter env d cmd q (grab_rects (dirts_of q) cmd.num_rects) q.scanout_fb
                      user
              ]))
              (sym e) (grabs n)

-- Without a framebuffer to scan out, a grab merges the array and answers -EAGAIN.
pub grab_without_scanout :
    (env : GrabEnv) (d : Device) (cmd : GrabArgs) (user : User) (p : Painter)
    → cmd.mode ≡ grab_mode_dirty
    → ltb_ℤ cmd.num_rects (pos 1) ≡ false
    → d.painter ≡ some p
    → p.scanout_fb ≡ none
    → let dirts = grab_rects (dirts_of p) cmd.num_rects in
      grabpix_ioctl env d cmd user ≡ (
        record d { painter = some (with_dirts p dirts) },
        record { status = err eagain; num_rects = pos dirts.1; rects = none; user = user },
      )
unfolding grabpix_ioctl grab_painter
grab_without_scanout env d cmd user p m n e s = ground arith
