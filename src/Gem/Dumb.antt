-- ===== src/Gem/Dumb.antt =====
-- Dumb buffers of module/evdi_gem.c: the pitch, the size, and the object with its handle.
pub mod Layout
use evdi.Prelude.{
  ℕ, ◌+◌, ◌-◌, ◌*◌, ◌/◌, ◌%◌, ◌^◌, Bool, true, false, not, ◌&&◌, ◌||◌, List, [], ◌∷◌, Option, none,
  some, ltb, leb, ◌==◌, if◌then◌else◌,
}
use evdi.Errno.{Errno, Result, ok, err, Status, done, einval, enomem}
use evdi.Gem.{page_size, GemObject}

-- the mask of `evdi_align_pitch` for a number of bytes per pixel
pitch_mask : ℕ → ℕ
pitch_mask cpp =
    if cpp == 1 then 255 else if cpp == 2 then 127 else if cpp == 3 || cpp == 4 then 63 else 0

-- `aligned += mask; aligned &= ~mask; return aligned * cpp`, on 32-bit patterns. The masks are one
-- less than a power of two, so the `&` rounds down.
pub evdi_align_pitch : ℕ → ℕ → ℕ
unfolding pitch_mask
evdi_align_pitch width cpp =
    let unit = pitch_mask cpp + 1 in (width + pitch_mask cpp) % 2 ^ 32 / unit * unit * cpp % 2 ^ 32

pub record DumbArgs : Type 0 where
  pub width : ℕ
  pub height : ℕ
  pub bpp : ℕ
  pub handle : ℕ
  pub pitch : ℕ
  pub size : ℕ

-- What object creation is answered: `drm_gem_object_init` of a size, `drm_gem_handle_create`.
pub record CreateEnv : Type 0 where
  pub object_init : ℕ → Bool
  pub handle_create : GemObject → Result ℕ
  pub called_by_mutter : Bool

unfoldable pub gem_alloc_object : CreateEnv → ℕ → Option GemObject
gem_alloc_object env size =
    if env.object_init size
    then some (record {
      size = size;
      import_attach = none;
      pages = none;
      pages_pin_count = 0;
      vmapping = none;
      vmap_is_iomem = false;
      allow_sw_cursor_rect_updates = false;
    })
    else none

-- roundup(size, PAGE_SIZE), of a 64-bit size
abbrev pub round_to_pages : ℕ → ℕ
round_to_pages size = (size + page_size - 1) / page_size * page_size % 2 ^ 64

create_handle : CreateEnv → Option GemObject → Result (ℕ × GemObject)
create_handle env none = err enomem
create_handle env (some fresh) =
    let obj = record fresh { allow_sw_cursor_rect_updates = env.called_by_mutter } in
    elim (env.handle_create obj) [ ok handle ↦ ok (handle, obj) | err e ↦ err e ]

-- the handle and the object that it is for
unfoldable pub gem_create : CreateEnv → ℕ → Result (ℕ × GemObject)
unfolding gem_alloc_object create_handle
gem_create env size = create_handle env (gem_alloc_object env (round_to_pages size))

-- DIV_ROUND_UP(bpp, 8), of an `unsigned int`
abbrev pub bytes_of_bits : ℕ → ℕ
bytes_of_bits bpp = (bpp + 7) % 2 ^ 32 / 8

-- `args->pitch * args->height` is a product of 32 bits, stored into 64.
pub dumb_layout : DumbArgs → DumbArgs
dumb_layout args =
    let pitch = evdi_align_pitch args.width (bytes_of_bits args.bpp) in
    record args { pitch = pitch; size = pitch * args.height % 2 ^ 32 }

set_handle : DumbArgs → Result (ℕ × GemObject) → Status × DumbArgs
set_handle args (err e) = (err e, args)
set_handle args (ok (handle, _)) = (done, record args { handle = handle })

unfoldable pub evdi_dumb_create : CreateEnv → DumbArgs → Status × DumbArgs
unfolding set_handle
evdi_dumb_create env args =
    let laid_out = dumb_layout args in set_handle laid_out (gem_create env laid_out.size)
