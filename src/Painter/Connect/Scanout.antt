-- ===== src/Painter/Connect/Scanout.antt =====
-- The scanout framebuffer: the painter holds one reference to it, and to nothing else.
use evdi.Prelude.{ℕ, ◌≡◌, ◌∙◌, refl, Option, none, some}
use evdi.World.{World, Framebuffer, IsBalanced, add_ref, exchange-IsBalanced}
use evdi.Cursor.{Cursor, cursor_enable}
use evdi.Cursor.Buffer.{HoldsRef}
use evdi.Painter.State.{Painter, Device}
use evdi.Painter.Vblank.{send_vblank_event, send_vblank}
use evdi.Painter.Connect.{
  put_fb, get_fb, events_cleanup, disconnect_owner, painter_cleanup, set_scanout_buffer,
}

abbrev pub fb_id : Option Framebuffer → Option ℕ
fb_id none = none
fb_id (some fb) = some fb.id

-- The framebuffer references that the driver took and still has are those of the scanout pointer.
abbrev pub HoldsScanout : Painter × World → Type 0
HoldsScanout (p, w) = IsBalanced w.fb_gets w.fb_puts (fb_id p.scanout_fb)

-- putting and getting, as lists of references
put_fb_lem :
    (fb : Option Framebuffer) (w : World)
    → ((put_fb fb w).fb_puts ≡ add_ref (fb_id fb) w.fb_puts) × ((put_fb fb w).fb_gets ≡ w.fb_gets)
unfolding put_fb
put_fb_lem none w = (refl, refl)
put_fb_lem (some fb) w = (refl, refl)

get_fb_lem :
    (fb : Option Framebuffer) (w : World)
    → ((get_fb fb w).fb_gets ≡ add_ref (fb_id fb) w.fb_gets) × ((get_fb fb w).fb_puts ≡ w.fb_puts)
unfolding get_fb
get_fb_lem none w = (refl, refl)
get_fb_lem (some fb) w = (refl, refl)

-- Setting the scanout buffer, to a framebuffer or to none, the same or another, keeps the balance.
pub set_scanout-HoldsScanout :
    (p : Painter) (w : World) (newfb : Option Framebuffer)
    → HoldsScanout (p, w)
    → HoldsScanout (set_scanout_buffer p w newfb)
unfolding set_scanout_buffer
set_scanout-HoldsScanout p w newfb b =
    let put = put_fb_lem p.scanout_fb (get_fb newfb w) in
    let get = get_fb_lem newfb w in
    rw (put.0, put.1, get.0, get.1)
      (exchange-IsBalanced w.fb_gets w.fb_puts (fb_id p.scanout_fb) (fb_id newfb) b)

pub send_vblank_event_refs :
    (crtc vblank : Option ℕ) (w : World)
    → ((send_vblank_event crtc vblank w).fb_gets ≡ w.fb_gets)
      × ((send_vblank_event crtc vblank w).fb_puts ≡ w.fb_puts)
      × ((send_vblank_event crtc vblank w).gem_gets ≡ w.gem_gets)
      × ((send_vblank_event crtc vblank w).gem_puts ≡ w.gem_puts)
unfolding send_vblank_event
send_vblank_event_refs (some c) (some v) w = (refl, refl, refl, refl)
send_vblank_event_refs (some c) none w = (refl, refl, refl, refl)
send_vblank_event_refs none v w = (refl, refl, refl, refl)

pub put_fb_gems :
    (fb : Option Framebuffer) (w : World)
    → ((put_fb fb w).gem_gets ≡ w.gem_gets) × ((put_fb fb w).gem_puts ≡ w.gem_puts)
unfolding put_fb
put_fb_gems none w = (refl, refl)
put_fb_gems (some fb) w = (refl, refl)

-- If the references to framebuffers and to the cursor's object were balanced, cutting off the
-- client leaves none that is not dropped to any framebuffer, keeps those of the cursor balanced,
-- and leaves the cursor without an object.
pub disconnect-IsBalanced :
    (d : Device) (p : Painter)
    → HoldsScanout (p, d.world)
    → HoldsRef (d.cursor, d.world)
    → let w = (disconnect_owner d p).world in
      IsBalanced w.fb_gets w.fb_puts none
      × HoldsRef ((disconnect_owner d p).cursor, w)
      × ((disconnect_owner d p).cursor.obj ≡ none)
unfolding disconnect_owner send_vblank cursor_enable events_cleanup
disconnect-IsBalanced d p b c =
    let put = put_fb_lem p.scanout_fb d.world in
    let gems = put_fb_gems p.scanout_fb d.world in
    let sent = send_vblank_event_refs p.crtc p.vblank (put_fb p.scanout_fb d.world) in
    (
      rw (sent.0, sent.1, put.0, put.1)
          (exchange-IsBalanced d.world.fb_gets d.world.fb_puts (fb_id p.scanout_fb) none b),
      rw (sent.2, sent.3, gems.0, gems.1)
          (exchange-IsBalanced d.world.gem_gets d.world.gem_puts d.cursor.obj none c),
      refl,
    )

-- A painter that is taken down leaves no reference to a framebuffer behind.
pub cleanup-IsBalanced :
    (p : Painter) (w : World)
    → HoldsScanout (p, w)
    → IsBalanced (painter_cleanup (some p) w).fb_gets (painter_cleanup (some p) w).fb_puts none
unfolding painter_cleanup send_vblank
cleanup-IsBalanced p w b =
    let put = put_fb_lem p.scanout_fb w in
    let sent = send_vblank_event_refs p.crtc p.vblank (put_fb p.scanout_fb w) in
    rw (sent.0, sent.1, put.0, put.1)
      (exchange-IsBalanced w.fb_gets w.fb_puts (fb_id p.scanout_fb) none b)

pub get_fb_gems :
    (fb : Option Framebuffer) (w : World)
    → ((get_fb fb w).gem_gets ≡ w.gem_gets) × ((get_fb fb w).gem_puts ≡ w.gem_puts)
unfolding get_fb
get_fb_gems none w = (refl, refl)
get_fb_gems (some fb) w = (refl, refl)

pub set_scanout-HoldsRef :
    (p : Painter) (w : World) (newfb : Option Framebuffer) (cursor : Cursor)
    → HoldsRef (cursor, w)
    → HoldsRef (cursor, (set_scanout_buffer p w newfb).1)
unfolding set_scanout_buffer
set_scanout-HoldsRef p w newfb cursor c =
    let put = put_fb_gems p.scanout_fb (get_fb newfb w) in
    let get = get_fb_gems newfb w in rw (put.0, put.1, get.0, get.1) c

pub cleanup_gems :
    (p : Painter) (w : World)
    → ((painter_cleanup (some p) w).gem_gets ≡ w.gem_gets)
      × ((painter_cleanup (some p) w).gem_puts ≡ w.gem_puts)
unfolding painter_cleanup send_vblank
cleanup_gems p w =
    let put = put_fb_gems p.scanout_fb w in
    let sent = send_vblank_event_refs p.crtc p.vblank (put_fb p.scanout_fb w) in
    (sent.2 ∙ put.0, sent.3 ∙ put.1)
