-- ===== src/Painter/State.antt =====
-- The state of module/evdi_painter.c and module/evdi_drm_drv.h, and what the kernel answers.
use evdi.Prelude.{ℕ, Bool, true, false, List, [], Option, none, some, replicate}
use evdi.Errno.{Result, Status}
use evdi.Rect.{Rect, no_rect, max_dirts}
use evdi.Gem.{MapEnv}
use evdi.Event.{Event, Space}
use evdi.World.{World, Framebuffer}
use evdi.Cursor.{Cursor}

-- `struct evdi_painter`. A file, a crtc and a vertical blank event are identities. `ddcci_done` is the
-- counter of the completion, and `work_pending` whether the delayed work is scheduled.
pub record Painter : Type 0 where
  pub is_connected : Bool
  pub edid : Option (List ℕ)
  pub edid_length : ℕ
  pub dirty_rects : List Rect
  pub num_dirts : ℕ
  pub scanout_fb : Option Framebuffer
  pub drm_filp : Option ℕ
  pub has_drm_device : Bool
  pub was_update_requested : Bool
  pub needs_full_modeset : Bool
  pub crtc : Option ℕ
  pub vblank : Option ℕ
  pub pending_events : List Event
  pub work_pending : Bool
  pub ddcci_done : ℕ
  pub ddcci_buffer : Option (List ℕ)
  pub ddcci_buffer_length : ℕ
  pub vt_registered : Bool
  pub fg_console : ℕ

-- `struct evdi_device`, and the world that its operations act on. The i2c adapter is there or NULL.
pub record Device : Type 0 where
  pub painter : Option Painter
  pub cursor : Cursor
  pub cursor_events_enabled : Bool
  pub pixel_area_limit : ℕ
  pub pixel_per_second_limit : ℕ
  pub i2c_adapter : Bool
  pub world : World

-- What the kernel answers during one operation: whether the file has space for an event, whether an
-- event of a type is allocated, how buffers are mapped, the file's table of handles and the creation
-- of one, whether the i2c adapter is allocated and added, and the console in front.
pub record Env : Type 0 where
  pub has_space : Space
  pub alloc_event : ℕ → Bool
  pub mapping : MapEnv
  pub handles : List (ℕ × ℕ)
  pub handle_create : ℕ → Result ℕ
  pub i2c_alloc : Bool
  pub i2c_add : Status
  pub front_console : ℕ

-- The painter as `kzalloc` and `evdi_painter_init` leave it.
unfoldable pub painter_fresh : Painter
painter_fresh = record {
  is_connected = false;
  edid = none;
  edid_length = 0;
  dirty_rects = replicate max_dirts no_rect;
  num_dirts = 0;
  scanout_fb = none;
  drm_filp = none;
  has_drm_device = true;
  was_update_requested = false;
  needs_full_modeset = true;
  crtc = none;
  vblank = none;
  pending_events = [];
  work_pending = false;
  ddcci_done = 0;
  ddcci_buffer = none;
  ddcci_buffer_length = 0;
  vt_registered = true;
  fg_console = 0;
}

-- an operation on the painter alone, with the device's world
abbrev pub with_painter : Device → (Painter → World → Painter × World) → Device
with_painter d f = elim d.painter [
  | none ↦ d
  | some p ↦ let (p', w') = f p d.world in record d { painter = some p'; world = w' }
]
