-- ===== src/Fb.antt =====
-- Framebuffers of module/evdi_fb.c: those of user space, and the console's damage.
pub mod Create
pub mod Console
use evdi.Prelude.{
  ℕ, ◌+◌, ◌-◌, ◌*◌, ◌/◌, ◌%◌, ◌^◌, Bool, true, false, not, List, [], ◌∷◌, Option, none, some, ltb,
  ◌==◌, if◌then◌else◌,
}
use evdi.Errno.{Result, ok, err, Status, done, is_ok, einval, enomem, enoent}
use evdi.Gem.{page_size}
use evdi.Rect.{Rect, framebuffer_sanitize_rect}
use evdi.World.{World, Framebuffer}
use evdi.Painter.State.{Painter}
use evdi.Painter.Dirty.{mark_on}
use evdi.Painter.Connect.{set_scanout_buffer}

-- the fields of `struct drm_mode_fb_cmd2` for the first plane
pub record FbCmd : Type 0 where
  pub width : ℕ
  pub height : ℕ
  pub pixel_format : ℕ
  pub handle : ℕ
  pub pitch : ℕ
  pub offset : ℕ

-- What the kernel answers: the bits of a pixel format (`evdi_fb_get_bpp`), the object of a handle, whether
-- the framebuffer is allocated, what `drm_framebuffer_init` says, whether the object is of the xe
-- driver, and an identity that no other framebuffer has.
pub record FbEnv : Type 0 where
  pub bpp : ℕ → ℕ
  pub lookup : ℕ → Option ℕ
  pub alloc : Bool
  pub init : Status
  pub is_xe_gem : ℕ → Bool
  pub fresh_id : ℕ

-- `ALIGN(size, PAGE_SIZE)` of an `unsigned int`
abbrev pub align_page : ℕ → ℕ
align_page size = (size + page_size - 1) % 2 ^ 32 / page_size * page_size

-- The bytes that the framebuffer needs, as the source computes them: in 32 bits.
abbrev pub fb_size : FbCmd → ℕ
fb_size cmd = align_page ((cmd.offset + cmd.pitch * cmd.height) % 2 ^ 32)

pub new_framebuffer : FbEnv → FbCmd → ℕ → Framebuffer
new_framebuffer env cmd obj = record {
  id = env.fresh_id;
  width = cmd.width;
  height = cmd.height;
  pitch = cmd.pitch;
  offset = cmd.offset;
  pixel_format = cmd.pixel_format;
  cpp = env.bpp cmd.pixel_format / 8;
  obj = obj;
  active = false;
  is_from_xe = env.is_xe_gem obj;
}

-- a reference to the object, taken by the lookup, and dropped on the error paths
abbrev pub get_gem : ℕ → World → World
get_gem obj w = record w { gem_gets = obj ∷ w.gem_gets }

abbrev pub put_gem : ℕ → World → World
put_gem obj w = record w { gem_puts = obj ∷ w.gem_puts }

-- with the object looked up
pub fb_create_on : FbEnv → World → FbCmd → ℕ → World × Result Framebuffer
unfolding new_framebuffer
fb_create_on env w cmd obj =
    let held = get_gem obj w in
    if ltb (w.gems obj).size (fb_size cmd)
    then (put_gem obj held, err enomem)
    else if not env.alloc
    then (put_gem obj held, err enomem)
    else if not (is_ok env.init)
    then (put_gem obj held, err einval)
    else (held, ok (new_framebuffer env cmd obj))

pub fb_user_fb_create : FbEnv → World → FbCmd → World × Result Framebuffer
fb_user_fb_create env w cmd =
    if not (env.bpp cmd.pixel_format == 32) then (w, err einval) else elim (env.lookup cmd.handle) [
      | none ↦ (w, err enoent)
      | some obj ↦ fb_create_on env w cmd obj
    ]

pub user_framebuffer_destroy : World → Framebuffer → World
user_framebuffer_destroy w fb = put_gem fb.obj w

-- The four numbers are stored into `unsigned short`s.
abbrev pub damage_rect : ℕ → ℕ → ℕ → ℕ → Rect
damage_rect x y width height = record {
  x1 = x % 2 ^ 16;
  y1 = y % 2 ^ 16;
  x2 = (x + width) % 2 ^ 16;
  y2 = (y + height) % 2 ^ 16;
}

pub handle_damage : Painter → World → Framebuffer → ℕ → ℕ → ℕ → ℕ → Painter × World
handle_damage p w fb x y width height =
    let rect = framebuffer_sanitize_rect fb.width fb.height (damage_rect x y width height) in
    let (p', w') = set_scanout_buffer p w (some fb) in
    if fb.active then (mark_on p' p'.scanout_fb rect, w') else (p, w)
