-- ===== src/Fb/Console.antt =====
-- The console's framebuffer of module/evdi_fb.c: how it is made and taken down, and how its memory is
-- mapped for a process.
pub mod Mmap
pub mod Made
use evdi.Prelude.{
  ℕ, zero, suc, ◌+◌, ◌-◌, ◌*◌, ◌/◌, ◌%◌, ◌^◌, Bool, true, false, not, ◌||◌, List, [], ◌∷◌, Option,
  none, some, ltb, ◌==◌, if◌then◌else◌,
}
use evdi.Errno.{Errno, Result, ok, err, Status, done, is_ok, einval, enomem, eagain}
use evdi.Gem.{GemObject, MapEnv, page_size, gem_vmap}
use evdi.Gem.Dumb.{CreateEnv, gem_alloc_object}
use evdi.World.{World, store_gem, add_ref}
use evdi.Fb.{align_page}

-- `struct fb_info`: the memory that processes see, as the kernel's address and a length.
pub record FbInfo : Type 0 where
  pub smem_start : ℕ
  pub smem_len : ℕ

-- `struct evdi_fbdev`: the helper's info and the object of the embedded framebuffer, each of which may be
-- NULL.
pub record Fbdev : Type 0 where
  pub info : Option FbInfo
  pub obj : Option ℕ

-- The console's framebuffer, the world, and how many infos are allocated and not released.
pub record Console : Type 0 where
  pub fbdev : Fbdev
  pub world : World
  pub infos : ℕ

-- `struct drm_fb_helper_surface_size`
pub record SurfaceSize : Type 0 where
  pub surface_width : ℕ
  pub surface_height : ℕ
  pub surface_bpp : ℕ

-- What the kernel answers: whether the object is initialised and its identity, how it is mapped and the
-- address of the mapping, whether the info is allocated, what the initialisation of the framebuffer says,
-- and whether the colour map is allocated.
pub record ConsoleEnv : Type 0 where
  pub create : CreateEnv
  pub fresh_obj : ℕ
  pub mapping : MapEnv
  pub address : ℕ
  pub info_alloc : Bool
  pub init : Status
  pub cmap_alloc : Bool

-- `mode_cmd.pitches[0] * mode_cmd.height` with four bytes per pixel, aligned, in 32 bits
abbrev pub console_size : SurfaceSize → ℕ
console_size sizes = align_page ((sizes.surface_width * 4) % 2 ^ 32 * sizes.surface_height % 2 ^ 32)

-- `out_gfree`: the object of the framebuffer, if it has one by then, is put.
abbrev pub put_efb_obj : Console → Console
put_efb_obj c = record c {
  world = record c.world { gem_puts = add_ref c.fbdev.obj c.world.gem_puts };
}

-- with the info allocated: the framebuffer is given its object before it is initialised
pub init_console : ConsoleEnv → Console → ℕ → ℕ → Console × Status
init_console env c id size =
    let with_obj = record c { fbdev = record c.fbdev { obj = some id } } in
    let info : FbInfo = record { smem_start = env.address; smem_len = size } in
    let with_info = record with_obj { fbdev = record with_obj.fbdev { info = some info } } in
    if not (is_ok env.init)
    then (put_efb_obj with_obj, env.init)
    else if not env.cmap_alloc
    then (put_efb_obj with_info, err enomem)
    else (with_info, done)

-- with the object allocated, which has one reference
pub map_console : ConsoleEnv → Console → ℕ → GemObject → ℕ → Console × Status
unfolding init_console
map_console env c id obj size =
    let (status, mapped) = gem_vmap env.mapping obj in
    let held = record c {
      world = record c.world {
        gems = store_gem c.world.gems id mapped;
        gem_gets = id ∷ c.world.gem_gets;
      };
    } in
    if not (is_ok status)
    then (put_efb_obj held, status)
    else if not env.info_alloc
    then (put_efb_obj held, err enomem)
    else init_console env (record held { infos = suc held.infos }) id size

-- An object that cannot be allocated is no error to the source.
unfoldable pub evdifb_create : ConsoleEnv → Console → SurfaceSize → Console × Status
unfolding map_console
evdifb_create env c sizes =
    let size = console_size sizes in
    if not (sizes.surface_bpp == 24 || sizes.surface_bpp == 32)
    then (c, err einval)
    else elim (gem_alloc_object env.create size) [
      | none ↦ (c, done)
      | some obj ↦ map_console env c env.fresh_obj obj size
    ]

-- the info is released, and the object put
pub fbdev_destroy : Console → Console
fbdev_destroy c =
    let released : Console = elim c.fbdev.info [
      | none ↦ c
      | some _ ↦ record c { infos = c.infos - 1 }
    ] in
    put_efb_obj released

-- `struct vm_area_struct`
pub record Area : Type 0 where
  pub vm_start : ℕ
  pub vm_end : ℕ
  pub vm_pgoff : ℕ

-- The loop of `evdi_fb_mmap`, on fuel: the pages that were mapped, each at an address of the process and
-- with the kernel's address, and the result; `none` is a loop that has not ended. `remaps` tells at which
-- address of the process a page can be mapped.
pub map_pages : (ℕ → Bool) → ℕ → ℕ → ℕ → ℕ → List (ℕ × ℕ) × Option Status
map_pages remaps zero size start pos = ([], if ltb 0 size then none else some done)
map_pages remaps (suc fuel) size start pos =
    let (mapped, result) =
      map_pages remaps fuel (if ltb page_size size then size - page_size else 0)
        ((start + page_size) % 2 ^ 64) ((pos + page_size) % 2 ^ 64) in
    if not (ltb 0 size)
    then ([], some done)
    else if not (remaps start)
    then ([], some (err eagain))
    else ((start, pos) ∷ mapped, result)

-- numbers of 64 bits
pub fb_mmap : FbInfo → Area → (ℕ → Bool) → List (ℕ × ℕ) × Option Status
unfolding map_pages
fb_mmap info vma remaps =
    let size = (vma.vm_end + 2 ^ 64 - vma.vm_start) % 2 ^ 64 in
    let offset = vma.vm_pgoff * page_size % 2 ^ 64 in
    if ltb ((2 ^ 64 - 1) / page_size) vma.vm_pgoff
    then ([], some (err einval))
    else if ltb info.smem_len offset || ltb (info.smem_len - offset) size
    then ([], some (err einval))
    else map_pages remaps (size / page_size + 1) size vma.vm_start
        ((info.smem_start + offset) % 2 ^ 64)
