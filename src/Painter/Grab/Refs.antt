-- ===== src/Painter/Grab/Refs.antt =====
-- A grab gives back the reference that it takes, and sends the vertical blank that it takes over.
use evdi.Prelude.{
  some-inj, ℕ, ◌+◌, ◌≡◌, refl, sym, subst, ◌∙◌, ◌∷◌, Option, none, some, arith, take,
}
use evdi.Prelude.Int.{pos}
use evdi.Rect.{Dirts}
use evdi.World.{World, Framebuffer, count}
use evdi.Painter.State.{Painter, Device}
use evdi.Painter.Vblank.{send_vblank_event}
use evdi.Painter.Vblank.Once.{held_by, send_vblank_event-count}
use evdi.Painter.Connect.{get_fb, put_fb}
use evdi.Painter.Connect.Scanout.{HoldsScanout, send_vblank_event_refs}
use evdi.Painter.Pixels.{User}
use evdi.Painter.Grab.Cases.{grab-cases}
use evdi.Painter.Grab.{
  GrabArgs, GrabEnv, grab_framebuffer, grab_painter, grabbed_painter, grabpix_ioctl,
}

-- the references and the vertical blank of a device whose painter was `p`, before and after
abbrev pub Conserves : Device → Painter → Device → Type 0
Conserves d p d' =
    (q : Painter)
    → d'.painter ≡ some q
    → HoldsScanout (q, d'.world)
      × ((v : ℕ)
          → count v d'.world.vblanks + held_by (some q) v
            ≡ count v d.world.vblanks + held_by (some p) v)

grab_painter-Conserves :
    (env : GrabEnv) (d : Device) (cmd : GrabArgs) (p : Painter) (dirts : Dirts)
    (fb : Option Framebuffer) (user : User)
    → p.scanout_fb ≡ fb
    → HoldsScanout (p, d.world)
    → Conserves d p (grab_painter env d cmd p dirts fb user).0
unfolding grab_painter put_fb get_fb
grab_painter-Conserves env d cmd p dirts none user s b q e =
    subst
      (λ r.
        HoldsScanout (r, d.world)
        × ((v : ℕ)
            → count v d.world.vblanks + held_by (some r) v
              ≡ count v d.world.vblanks + held_by (some p) v))
      (some-inj e) (b, λ v. refl)
grab_painter-Conserves env d cmd p dirts (some fb) user s b q e =
    subst
      (λ r.
        HoldsScanout (r, after)
        × ((v : ℕ)
            → count v after.vblanks + held_by (some r) v
              ≡ count v d.world.vblanks + held_by (some p) v))
      (some-inj e)
      (
        λ id. rw (refs.0, refs.1) (ground (arith, b id)),
        λ v. omega (arith, send_vblank_event-count p.crtc p.vblank during v),
      )
  where
    d' : Device
    d' = record d { painter = some (grabbed_painter p dirts); world = get_fb (some fb) d.world }

    during : World
    during = record d'.world {
      gems =
          (grab_framebuffer env d' (record cmd { num_rects = pos dirts.1 }) fb
            (take dirts.1 dirts.0) user).1;
    }

    after : World
    after = put_fb (some fb) (send_vblank_event p.crtc p.vblank during)

    refs :
        ((send_vblank_event p.crtc p.vblank during).fb_gets ≡ fb.id ∷ d.world.fb_gets)
        × ((send_vblank_event p.crtc p.vblank during).fb_puts ≡ d.world.fb_puts)
    refs = let r = send_vblank_event_refs p.crtc p.vblank during in (r.0, r.1)

-- On every path of a grab, errors included, if the painter's framebuffer references were
-- balanced: those that are not dropped are still those of the scanout pointer, and the vertical
-- blank events sent and held are, with their number, those sent and held before.
pub grab-Conserves :
    (env : GrabEnv) (d : Device) (cmd : GrabArgs) (user : User) (p : Painter)
    → d.painter ≡ some p
    → HoldsScanout (p, d.world)
    → Conserves d p (grabpix_ioctl env d cmd user).0
grab-Conserves env d cmd user p e b =
    grab-cases (λ r. Conserves d p r.0) env d cmd user p e
      (λ _ q h.
        subst
          (λ r.
            HoldsScanout (r, d.world)
            × ((v : ℕ)
                → count v d.world.vblanks + held_by (some r) v
                  ≡ count v d.world.vblanks + held_by (some p) v))
          (some-inj (sym e ∙ h)) (b, λ v. refl))
      (λ n. grab_painter-Conserves env d cmd p _ p.scanout_fb user refl b)
