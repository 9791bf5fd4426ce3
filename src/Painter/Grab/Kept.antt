-- ===== src/Painter/Grab/Kept.antt =====
-- The painter's invariants under a grab.
use evdi.Prelude.{some-inj, ℕ, ◌≡◌, refl, sym, subst, false, Option, none, some, arith, take}
use evdi.Prelude.Int.{ℤ, pos, negsuc, ltb_ℤ}
use evdi.Rect.{Dirts}
use evdi.World.{World, Framebuffer}
use evdi.Painter.State.{Painter, Device}
use evdi.Painter.Dirty.{dirts_of, with_dirts}
use evdi.Painter.Dirty.Safe.{DirtsOk}
use evdi.Painter.Vblank.{send_vblank_event}
use evdi.Painter.Connect.{get_fb, put_fb}
use evdi.Painter.Connect.Scanout.{HoldsScanout, send_vblank_event_refs}
use evdi.Painter.Pixels.{User}
use evdi.Painter.Grab.{
  GrabArgs, GrabEnv, grab_framebuffer, grab_rects, grab_painter, grabbed_painter, grabpix_ioctl,
}
use evdi.Painter.Grab.Cases.{grab-cases}
use evdi.Painter.Grab.Rects.{grab_rects_lem}
use evdi.Painter.Grab.Refs.{grab-Conserves}
use evdi.Painter.Session.Keeps.{Ok, DeviceOk}

grab_rects-DirtsOk :
    (d : Dirts) (n : ℤ) → DirtsOk d → ltb_ℤ n (pos 1) ≡ false → DirtsOk (grab_rects d n)
grab_rects-DirtsOk d (pos n) v h = (grab_rects_lem d n v (ground arith)).1
grab_rects-DirtsOk d (negsuc n) v h = ground arith

-- What of a painter's invariants a grab could touch besides the references to framebuffers.
abbrev Rest : Device → Device → Type 0
Rest d d' =
    (q : Painter) → d'.painter ≡ some q → HoldsScanout (q, d'.world) → Ok q d'.cursor d'.world

-- the array is as the grab leaves it, and the client's session and queue are as they were
kept-Ok :
    (d : Device) (w : World) (p : Painter) (dirts : Dirts) (crtc vblank : Option ℕ)
    → Ok p d.cursor d.world
    → DirtsOk dirts
    → (w.gem_gets ≡ d.world.gem_gets) × (w.gem_puts ≡ d.world.gem_puts)
    → let q = record (with_dirts p dirts) { crtc = crtc; vblank = vblank } in
      HoldsScanout (q, w) → Ok q d.cursor w
kept-Ok d w p dirts crtc vblank k v (gets, puts) b = record {
  session = record {
    owned = k.session.owned;
    edid_ok = k.session.edid_ok;
    has_edid = k.session.has_edid;
  };
  dirts = v;
  queue = record { scheduled = k.queue.scheduled; squashed = k.queue.squashed };
  scanout = b;
  cursor_ref = rw (gets, puts) k.cursor_ref;
}

grab_painter-Rest :
    (env : GrabEnv) (d : Device) (cmd : GrabArgs) (p : Painter) (dirts : Dirts)
    (fb : Option Framebuffer) (user : User)
    → Ok p d.cursor d.world
    → DirtsOk dirts
    → Rest d (grab_painter env d cmd p dirts fb user).0
unfolding grab_painter put_fb get_fb
grab_painter-Rest env d cmd p dirts none user k v q e =
    subst (λ r. HoldsScanout (r, d.world) → Ok r d.cursor d.world) (some-inj e)
      (kept-Ok d d.world p dirts p.crtc p.vblank k v (refl, refl))
grab_painter-Rest env d cmd p dirts (some fb) user k v q e =
    subst (λ r. HoldsScanout (r, after) → Ok r d.cursor after) (some-inj e)
      (kept-Ok d after p (dirts.0, 0) none none k (v.0, omega arith) (refs.2, refs.3))
  where
    d' : Device
    d' = record d { painter = some (grabbed_painter p dirts); world = get_fb (some fb) d.world }

    during : World
    during = record d'.world {
      gems =
          (grab_framebuffer env d' (record cmd { num_rects = pos dirts.1 }) fb
            (take dirts.1 dirts.0) user).1;
    }

    refs :
        ((send_vblank_event p.crtc p.vblank during).fb_gets ≡ during.fb_gets)
        × ((send_vblank_event p.crtc p.vblank during).fb_puts ≡ during.fb_puts)
        × ((send_vblank_event p.crtc p.vblank during).gem_gets ≡ during.gem_gets)
        × ((send_vblank_event p.crtc p.vblank during).gem_puts ≡ during.gem_puts)
    refs = send_vblank_event_refs p.crtc p.vblank during

    after : World
    after = put_fb (some fb) (send_vblank_event p.crtc p.vblank during)

grab_without_painter :
    (env : GrabEnv) (d : Device) (cmd : GrabArgs) (user : User)
    → d.painter ≡ none
    → (grabpix_ioctl env d cmd user).0 ≡ d
unfolding grabpix_ioctl
grab_without_painter env d cmd user e = ground arith

-- A grab keeps every invariant, whatever it answers.
pub grab-DeviceOk :
    (env : GrabEnv) (d : Device) (cmd : GrabArgs) (user : User)
    → DeviceOk d
    → DeviceOk (grabpix_ioctl env d cmd user).0
grab-DeviceOk env d cmd user inv = go d.painter refl
  where
    go : (o : Option Painter) → d.painter ≡ o → DeviceOk (grabpix_ioctl env d cmd user).0
    go none e = subst DeviceOk (sym (grab_without_painter env d cmd user e)) inv
    go (some p) e = λ q h.
        grab-cases (λ r. Rest d r.0) env d cmd user p e (λ _ q' h' _. inv q' h')
          (λ n.
            grab_painter-Rest env d cmd p _ p.scanout_fb user (inv p e)
              (grab_rects-DirtsOk (dirts_of p) cmd.num_rects (inv p e).dirts n))
          q h (grab-Conserves env d cmd user p e (inv p e).scanout q h).0
