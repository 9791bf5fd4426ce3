-- ===== src/Painter/Vblank.antt =====
-- The vertical blank event that a painter holds back until its pixels are grabbed.
pub mod Once
use evdi.Prelude.{
  ℕ, ◌<◌, Bool, true, false, ◌&&◌, List, [], ◌∷◌, Option, none, some, ltb, if◌then◌else◌,
}
use evdi.World.{World}
use evdi.Painter.State.{Painter}

-- `evdi_send_vblank`: nothing is sent unless both are there.
unfoldable pub send_vblank_event : Option ℕ → Option ℕ → World → World
send_vblank_event (some crtc) (some vblank) w = record w { vblanks = vblank ∷ w.vblanks }
send_vblank_event (some crtc) none w = w
send_vblank_event none vblank w = w

unfoldable pub send_vblank : Painter → World → Painter × World
send_vblank p w = (record p { crtc = none; vblank = none }, send_vblank_event p.crtc p.vblank w)

set_vblank_on : Painter → World → Option ℕ → Option ℕ → Painter × World
set_vblank_on p w crtc vblank =
    let (p', w') = send_vblank p w in
    if ltb 0 p'.num_dirts && p'.is_connected
    then (record p' { crtc = crtc; vblank = vblank }, w')
    else (p', send_vblank_event crtc vblank w')

unfoldable pub set_vblank : Option Painter → World → Option ℕ → Option ℕ → Option Painter × World
unfolding set_vblank_on
set_vblank none w crtc vblank = (none, send_vblank_event crtc vblank w)
set_vblank (some p) w crtc vblank = let (p', w') = set_vblank_on p w crtc vblank in (some p', w')
