-- ===== src/Painter/Connect.antt =====
-- A client connects and disconnects; the painter is made and taken down.
pub mod Lifecycle
pub mod Scanout
use evdi.Prelude.{
  ℕ, ◌+◌, ◌*◌, Bool, true, false, not, ◌&&◌, List, [], ◌∷◌, Option, none, some, ltb, ◌==◌,
  if◌then◌else◌, length, take, is_some, same_id,
}
use evdi.Errno.{Result, ok, err, Status, done, is_ok, einval, enomem, efault, enodev}
use evdi.Event.{Event}
use evdi.World.{World, Framebuffer}
use evdi.Cursor.{Cursor, cursor_enable}
use evdi.Painter.State.{Painter, Device, Env, painter_fresh, with_painter}
use evdi.Painter.Vblank.{send_vblank}

-- `struct drm_evdi_connect`. `edid` is what can be read at the user's address, if anything.
pub record ConnectArgs : Type 0 where
  pub connected : Bool
  pub edid : Option (List ℕ)
  pub edid_length : ℕ
  pub pixel_area_limit : ℕ
  pub pixel_per_second_limit : ℕ

abbrev pub max_edid_size : ℕ
max_edid_size = 255 * 128 + 128

abbrev pub is_connected : Option Painter → Bool
is_connected none = false
is_connected (some p) = p.is_connected

-- `none` if there is nothing to copy, or no memory for it
pub edid_copy_of : Painter → Bool → Option (List ℕ)
edid_copy_of p alloc =
    if p.is_connected && is_some p.edid && not (p.edid_length == 0) && alloc
    then (elim p.edid [ none ↦ none | some edid ↦ some (take p.edid_length edid) ])
    else none

pub get_edid_copy : Option Painter → Bool → Option (List ℕ)
unfolding edid_copy_of
get_edid_copy none alloc = none
get_edid_copy (some p) alloc = edid_copy_of p alloc

abbrev pub hpd_irq_event : World → World
hpd_irq_event w = record w { hotplugs = w.hotplugs + 1 }

-- The events are freed, and the work is cancelled.
unfoldable pub events_cleanup : Painter → Painter
events_cleanup p = record p { pending_events = []; work_pending = false }

-- `evdi_add_i2c_adapter`, whether the adapter is there afterwards
abbrev pub add_i2c_adapter : Env → Bool
add_i2c_adapter env = env.i2c_alloc && is_ok env.i2c_add

connected_painter : Painter → ℕ → List ℕ → ℕ → Painter
connected_painter p file edid edid_length = record p {
  drm_filp = some file;
  edid = some edid;
  edid_length = edid_length;
  is_connected = true;
  needs_full_modeset = true;
}

unfoldable pub connect_with : Env → Device → Painter → ℕ → ConnectArgs → List ℕ → Device
unfolding connected_painter
connect_with env d p file cmd edid = record d {
  painter = some (connected_painter p file edid cmd.edid_length);
  pixel_area_limit = cmd.pixel_area_limit;
  pixel_per_second_limit = cmd.pixel_per_second_limit;
  i2c_adapter = if d.i2c_adapter then true else add_i2c_adapter env;
  world = hpd_irq_event d.world;
}

-- `copy_from_user` of the edid: all of it can be read, or it fails
unfoldable pub read_user : Option (List ℕ) → ℕ → Option (List ℕ)
read_user none n = none
read_user (some bytes) n = if ltb (length bytes) n then none else some (take n bytes)

unfoldable pub painter_connect : Env → Device → Painter → ℕ → ConnectArgs → Bool → Device × Status
painter_connect env d p file cmd alloc =
    if ltb cmd.edid_length 128
    then (d, err einval)
    else if ltb max_edid_size cmd.edid_length
    then (d, err einval)
    else if not alloc
    then (d, err enomem)
    else elim (read_user cmd.edid cmd.edid_length) [
      | none ↦ (d, err efault)
      | some edid ↦ (connect_with env d p file cmd edid, done)
    ]

-- `drm_framebuffer_put` of a pointer that may be NULL
unfoldable pub put_fb : Option Framebuffer → World → World
put_fb none w = w
put_fb (some fb) w = record w { fb_puts = fb.id ∷ w.fb_puts }

unfoldable pub get_fb : Option Framebuffer → World → World
get_fb none w = w
get_fb (some fb) w = record w { fb_gets = fb.id ∷ w.fb_gets }

-- what is left of the painter and the world after the calls that `evdi_painter_disconnect` makes on them
dropped : Painter → World → Painter × World
dropped p w =
    send_vblank (events_cleanup (record p { scanout_fb = none; is_connected = false }))
      (put_fb p.scanout_fb w)

unfoldable pub disconnect_owner : Device → Painter → Device
unfolding dropped
disconnect_owner d p =
    let (p', w') = dropped p d.world in
    let (cursor', w'') = cursor_enable d.cursor w' false in
    record d {
      painter = some (record p' {
        ddcci_buffer = none;
        ddcci_buffer_length = 0;
        drm_filp = none;
        was_update_requested = false;
        ddcci_done = p'.ddcci_done + 1;
      });
      cursor = cursor';
      i2c_adapter = false;
      cursor_events_enabled = false;
      world = hpd_irq_event w'';
    }

unfoldable pub painter_disconnect : Device → Painter → ℕ → Device × Status
painter_disconnect d p file =
    if same_id (some file) p.drm_filp then (disconnect_owner d p, done) else (d, err efault)

unfoldable pub painter_close : Device → ℕ → Device
painter_close d file = elim d.painter [
  | none ↦ d
  | some p ↦ if same_id (some file) p.drm_filp then (painter_disconnect d p file).0 else d
]

unfoldable pub painter_connect_ioctl : Env → Device → ℕ → ConnectArgs → Bool → Device × Status
painter_connect_ioctl env d file cmd alloc = elim d.painter [
  | none ↦ (d, err enodev)
  | some p ↦
      if cmd.connected then painter_connect env d p file cmd alloc else painter_disconnect d p file
]

-- `alloc` is whether `kzalloc` succeeds.
abbrev pub painter_init : Device → Bool → Device × Status
painter_init d alloc =
    if alloc
    then (record d { painter = some painter_fresh }, done)
    else (record d { painter = none }, err enomem)

-- The world that `evdi_painter_cleanup` leaves; the painter is freed.
pub painter_cleanup : Option Painter → World → World
painter_cleanup none w = w
painter_cleanup (some p) w =
    (send_vblank (record p { scanout_fb = none; vt_registered = false }) (put_fb p.scanout_fb w)).1

unfoldable pub set_scanout_buffer : Painter → World → Option Framebuffer → Painter × World
set_scanout_buffer p w newfb =
    (record p { scanout_fb = newfb }, put_fb p.scanout_fb (get_fb newfb w))
