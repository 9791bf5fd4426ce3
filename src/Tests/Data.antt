-- ===== src/Tests/Data.antt =====
-- Concrete states and arguments for the tests.
use evdi.Prelude.{ℕ, true, false, List, [], ◌∷◌, none, some, replicate}
use evdi.Prelude.Int.{pos}
use evdi.Errno.{ok, err, done, enomem}
use evdi.Rect.{Rect, no_rect, Dirts}
use evdi.Event.{Event, Space, cursor_move}
use evdi.Event.Squash.{View}
use evdi.Gem.{GemObject, MapEnv, Memory}
use evdi.World.{World, Framebuffer}
use evdi.Cursor.{Cursor}
use evdi.Painter.State.{Painter, Device, Env, painter_fresh}
use evdi.Painter.Connect.{ConnectArgs}
use evdi.Painter.Grab.{GrabArgs, GrabEnv}
use evdi.Painter.Pixels.{User}

abbrev pub rect : ℕ → ℕ → ℕ → ℕ → Rect
rect a b c d = record { x1 = a; y1 = b; x2 = c; y2 = d }

-- two rectangles beside each other, and one apart
abbrev pub three_dirts : Dirts
three_dirts = (rect 0 0 2 2 ∷ rect 2 0 4 2 ∷ rect 6 6 7 7 ∷ replicate 13 no_rect, 3)

abbrev pub move_to : ℕ → Event
move_to a = cursor_move (record { x = a; y = 0 })

abbrev pub no_view : View
no_view = record { image = none; position = none; others = [] }

-- a client that has no space
abbrev pub full : Space
full _ _ = false

abbrev pub roomy : Space
roomy _ _ = true

abbrev pub bytes : Memory
bytes i = i

abbrev pub no_object : GemObject
no_object = record {
  size = 4096;
  import_attach = none;
  pages = none;
  pages_pin_count = 0;
  vmapping = none;
  vmap_is_iomem = false;
  allow_sw_cursor_rect_updates = false;
}

abbrev pub mapping : MapEnv
mapping = record {
  gem_get_pages = λ _. ok (5 ∷ []);
  vmap_pages = λ _ _. some bytes;
  ttm_vmap = λ _. err enomem;
  dma_buf_vmap = λ _. err enomem;
}

abbrev pub world : World
world = record {
  gems = λ _. no_object;
  sent = [];
  cancelled = [];
  vblanks = [];
  fb_gets = [];
  fb_puts = [];
  gem_gets = [];
  gem_puts = [];
  hotplugs = 0;
}

abbrev pub cursor_off : Cursor
cursor_off = record {
  enabled = false;
  x = 0;
  y = 0;
  width = 0;
  height = 0;
  hot_x = 0;
  hot_y = 0;
  pixel_format = 0;
  stride = 0;
  obj = none;
}

abbrev pub device_of : Painter → World → Device
device_of p w = record {
  painter = some p;
  cursor = cursor_off;
  cursor_events_enabled = false;
  pixel_area_limit = 0;
  pixel_per_second_limit = 0;
  i2c_adapter = false;
  world = w;
}

abbrev pub fresh_device : Device
fresh_device = device_of painter_fresh world

abbrev pub env : Env
env = record {
  has_space = roomy;
  alloc_event = λ _. true;
  mapping = mapping;
  handles = [];
  handle_create = λ _. ok 1;
  i2c_alloc = true;
  i2c_add = done;
  front_console = 2;
}

abbrev pub edid_bytes : List ℕ
edid_bytes = replicate 128 7

abbrev pub connect_args : ConnectArgs
connect_args = record {
  connected = true;
  edid = some edid_bytes;
  edid_length = 128;
  pixel_area_limit = 1000;
  pixel_per_second_limit = 60000;
}

abbrev pub fb : Framebuffer
fb = record {
  id = 9;
  width = 8;
  height = 8;
  pitch = 32;
  offset = 0;
  pixel_format = 0;
  cpp = 4;
  obj = 3;
  active = true;
  is_from_xe = false;
}

-- a painter of file 4, with pixels to grab, that waits to be asked
abbrev pub live : Painter
live = record {
  is_connected = true;
  edid = some edid_bytes;
  edid_length = 128;
  dirty_rects = three_dirts.0;
  num_dirts = 3;
  scanout_fb = some fb;
  drm_filp = some 4;
  has_drm_device = true;
  was_update_requested = true;
  needs_full_modeset = false;
  crtc = some 1;
  vblank = some 2;
  pending_events = [];
  work_pending = false;
  ddcci_done = 0;
  ddcci_buffer = none;
  ddcci_buffer_length = 0;
  vt_registered = true;
  fg_console = 1;
}

-- the world of a painter that holds its scanout framebuffer
abbrev pub live_world : World
live_world = record world { fb_gets = 9 ∷ [] }

abbrev pub live_device : Device
live_device = device_of live live_world

abbrev pub grab_args : GrabArgs
grab_args = record {
  mode = 1;
  buf_width = pos 8;
  buf_height = pos 8;
  buf_byte_stride = pos 32;
  num_rects = pos 2;
}

abbrev pub grab_env : GrabEnv
grab_env = record {
  mapping = mapping;
  copies_rects = true;
  begin_access = λ _. done;
  copies = λ _ _. true;
  before = λ _. 0;
  cursor_bits = 32;
}

abbrev pub blank : User
blank _ = 0
