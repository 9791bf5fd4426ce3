-- ===== src/Drm.antt =====
-- The life of a device (module/evdi_drm_drv.c): how it is created, with every failure on the way, and what is
-- done when it is released.
pub mod Life
use evdi.Prelude.{ℕ, Bool, true, false, not, Option, none, some, if◌then◌else◌}
use evdi.Errno.{Errno, Result, ok, err, Status, enomem}
use evdi.World.{World}
use evdi.Cursor.{Cursor, cursor_init, cursor_free}
use evdi.Painter.State.{Painter, Device}
use evdi.Painter.Connect.{painter_init, painter_cleanup, painter_close}

-- What `evdi_fbdev_init` comes to: made, no memory for it, or a failure after `evdi->fbdev` was set, which is
-- freed and stays set.
pub data FbdevInit : Type 0 where
  made : FbdevInit
  no_memory : FbdevInit
  freed : Errno → FbdevInit

-- What the kernel answers during `evdi_drm_device_init`: three allocations, the console, and whether the
-- vertical blanks are initialised and the action for the release is added.
pub record InitEnv : Type 0 where
  pub alloc : Bool
  pub painter_alloc : Bool
  pub cursor_alloc : Bool
  pub fbdev : FbdevInit
  pub vblank : Status
  pub action : Status

-- What it comes to: a device; an error, with the number of notifiers that are still registered for a painter
-- that is freed; or the use of memory that is freed, or of NULL.
pub data Init : Type 0 where
  ready : Device → Init
  failed : Errno → ℕ → World → Init
  crashed : Init

-- without its painter, which `evdi_painter_init` makes
abbrev pub bare_device : Cursor → World → Device
bare_device cursor w = record {
  painter = none;
  cursor = cursor;
  cursor_events_enabled = false;
  pixel_area_limit = 0;
  pixel_per_second_limit = 0;
  i2c_adapter = false;
  world = w;
}

abbrev pub notifiers_of : Option Painter → ℕ
notifiers_of none = 0
notifiers_of (some p) = if p.vt_registered then 1 else 0

-- `err_free`: the painter is freed as it is
pub err_free : Option Painter → Option Cursor → World → Errno → Init
err_free p cursor w e = failed e (notifiers_of p) (cursor_free cursor w)

-- `evdi_drm_device_release_cb`: what is left of the world
pub release_cb : Device → World
release_cb evdi = painter_cleanup evdi.painter (cursor_free (some evdi.cursor) evdi.world)

-- The last steps. An action that cannot be added is run at once, and frees the device that the error path
-- reads again.
last_steps : InitEnv → Device → Init
last_steps env evdi = elim env.vblank [
  | err e ↦ err_free evdi.painter (some evdi.cursor) evdi.world e
  | ok _ ↦ elim env.action [ err _ ↦ crashed | ok _ ↦ ready evdi ]
]

with_console : InitEnv → Device → Init
unfolding last_steps
with_console env evdi = elim env.fbdev [
  | made ↦ last_steps env evdi
  | no_memory ↦ err_free evdi.painter (some evdi.cursor) evdi.world enomem
  | freed _ ↦ crashed
]

-- with the painter, or the error of making it
with_cursor : InitEnv → World → Option Painter → Init
unfolding with_console
with_cursor env w p = elim (cursor_init none env.cursor_alloc) [
  | err e ↦ err_free p none w e
  | ok cursor ↦ with_console env (record (bare_device cursor w) { painter = p })
]

no_cursor : Cursor
no_cursor = record {
  enabled = false;
  x = 0;
  y = 0;
  width = 0;
  height = 0;
  hot_x = 0;
  hot_y = 0;
  pixel_format = 0;
  stride = 0;
  obj = none;
}

pub drm_device_init : InitEnv → World → Init
unfolding with_cursor no_cursor
drm_device_init env w =
    if not env.alloc
    then failed enomem 0 w
    else let (evdi, status) = painter_init (bare_device no_cursor w) env.painter_alloc in
      elim status as (λ _. Init) [
        | err e ↦ err_free evdi.painter none w e
        | ok _ ↦ with_cursor env w evdi.painter
      ]

-- A device that cannot be registered is put, which runs the action for the release.
register : Init → Status → Init
register (ready evdi) (err e) = failed e 0 (release_cb evdi)
register init status = init

-- `dev_alloc` and `registers` are what the DRM core answers.
unfoldable pub drm_device_create : Status → InitEnv → Status → World → Init
unfolding register drm_device_init
drm_device_create (err e) env registers w = failed e 0 w
drm_device_create (ok _) env registers w = register (drm_device_init env w) registers

-- a device that is gone already is left alone
pub driver_close : Option Device → ℕ → Option Device
driver_close none file = none
driver_close (some evdi) file = some (painter_close evdi file)
