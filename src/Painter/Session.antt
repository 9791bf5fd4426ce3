-- ===== src/Painter/Session.antt =====
-- The life of a device's painter as steps: the operations of module/evdi_painter.c and the atomic updates
-- of module/evdi_modeset.c, one after another in any order, as the painter's mutex and the DRM core let them
-- happen.
pub mod Keeps
pub mod Notes
pub mod Safe
use evdi.Prelude.{ℕ, Bool, List, Option, none, some}
use evdi.Event.{Event}
use evdi.Rect.{Rect}
use evdi.World.{World, Framebuffer}
use evdi.Painter.State.{Painter, Device, Env, with_painter}
use evdi.Painter.Send.{send_event, send_events_work}
use evdi.Painter.Dirty.{painter_mark_dirty}
use evdi.Painter.Vblank.{set_vblank}
use evdi.Painter.Update.{request_update_on, send_update_ready_on}
use evdi.Painter.Connect.{ConnectArgs, painter_connect_ioctl, painter_close, set_scanout_buffer}
use evdi.Painter.Pixels.{User}
use evdi.Painter.Grab.{GrabArgs, GrabEnv, grabpix_ioctl}
use evdi.Painter.Display.{vt_notifier_call}
use evdi.Painter.Ddcci.{
  I2cMsg, ResponseArgs, ddcci_request, ddcci_response_ioctl, enable_cursor_events_ioctl,
}
use evdi.Modeset.{
  CrtcState, PlaneState, DrmRect, crtc_atomic_flush, plane_atomic_update, cursor_atomic_update,
}

abbrev pub device_set_vblank : Device → Option ℕ → Option ℕ → Device
device_set_vblank d crtc vblank =
    let (p', w') = set_vblank d.painter d.world crtc vblank in record d { painter = p'; world = w' }

-- One operation, by any file, with any answer of the kernel.
pub data Step : Device → Device → Type 0 where
  connect_ioctl :
      (env : Env) (d : Device) (file : ℕ) (cmd : ConnectArgs) (alloc : Bool)
      → Step d (painter_connect_ioctl env d file cmd alloc).0
  close : (d : Device) (file : ℕ) → Step d (painter_close d file)
  mark_dirty : (d : Device) (r : Rect) → Step d (painter_mark_dirty d r)
  set_scanout :
      (d : Device) (fb : Option Framebuffer)
      → Step d (with_painter d (λ p w. set_scanout_buffer p w fb))
  vblank_set : (d : Device) (crtc vblank : Option ℕ) → Step d (device_set_vblank d crtc vblank)
  request_update : (d : Device) → Step d (with_painter d (λ p w. ((request_update_on p).0, w)))
  update_ready_if_needed :
      (env : Env) (d : Device) → Step d (with_painter d (send_update_ready_on env))
  send :
      (env : Env) (d : Device) (event : Option Event)
      → Step d (with_painter d (λ p w. send_event env.has_space p w event))
  events_work : (env : Env) (d : Device) → Step d (with_painter d (send_events_work env.has_space))
  grab :
      (env : GrabEnv) (d : Device) (cmd : GrabArgs) (user : User)
      → Step d (grabpix_ioctl env d cmd user).0
  flush :
      (env : Env) (d : Device) (crtc : ℕ) (state : CrtcState)
      → Step d (crtc_atomic_flush env d crtc state).0
  plane_update :
      (env : Env) (d : Device) (old state : PlaneState) (damage : List DrmRect)
      → Step d (plane_atomic_update env d old state damage)
  cursor_update :
      (env : Env) (d : Device) (old state : PlaneState)
      → Step d (cursor_atomic_update env d old state)
  vt_switch : (env : Env) (d : Device) → Step d (with_painter d (vt_notifier_call env))
  ddcci_asks :
      (env : Env) (d : Device) (msg : I2cMsg)
      → Step d (with_painter d (λ p w. ddcci_request env p w msg))
  ddcci_answers :
      (d : Device) (cmd : ResponseArgs) (alloc : Bool)
      → Step d (with_painter d (λ p w. ((ddcci_response_ioctl p cmd alloc).0, w)))
  cursor_events : (d : Device) (enable : Bool) → Step d (enable_cursor_events_ioctl d enable)

pub data Reaches : Device → Device → Type 0 where
  here : (d : Device) → Reaches d d
  after : (d e f : Device) → Reaches d e → Step e f → Reaches d f
