-- ===== src/Gem/Dumb/Layout.antt =====
-- Dumb buffers: the pitch is aligned and wide enough, and where nothing wraps the object holds every row.
use evdi.Prelude.{
  ℕ, zero, suc, ◌+◌, ◌*◌, ◌%◌, ◌^◌, ◌≤◌, ◌<◌, ◌≡◌, refl, arith, inl, inr, if◌then◌else◌, ◌==◌,
}
use evdi.Errno.{ok, done, Result-cases}
use evdi.Gem.{GemObject, page_size}
use evdi.Gem.Dumb.{
  CreateEnv, DumbArgs, evdi_align_pitch, dumb_layout, evdi_dumb_create, gem_create, bytes_of_bits,
}

-- One to four bytes per pixel: the pitch holds a row, is a multiple of 64 pixels (256 bytes where a
-- pixel has one, two or four), and is less than that unit longer than a row.
pub align_pitch_lem :
    (width cpp : ℕ)
    → 0 < cpp
    → cpp ≤ 4
    → (width + 255) * 4 < 2 ^ 32
    → (width * cpp ≤ evdi_align_pitch width cpp)
      × (evdi_align_pitch width cpp < width * cpp + 256)
      × (evdi_align_pitch width cpp % (if cpp == 3 then 192 else 256) ≡ 0)
unfolding evdi_align_pitch
align_pitch_lem width zero h k s = absurd (omega arith)
align_pitch_lem width (suc zero) h k s = omega arith
align_pitch_lem width (suc (suc zero)) h k s = omega arith
align_pitch_lem width (suc (suc (suc zero))) h k s = omega arith
align_pitch_lem width (suc (suc (suc (suc zero)))) h k s = omega arith
align_pitch_lem width (suc (suc (suc (suc (suc cpp))))) h k s = absurd (omega arith)

-- What `evdi_gem_create` makes has the size, rounded up to whole pages.
gem_create-size :
    (env : CreateEnv) (size handle : ℕ) (obj : GemObject)
    → size + page_size < 2 ^ 64
    → gem_create env size ≡ ok (handle, obj)
    → (size ≤ obj.size) × (obj.size < size + page_size) × (obj.size % page_size ≡ 0)
unfolding gem_create
gem_create-size env size handle obj s e = ground arith

layout-pitch :
    (args : DumbArgs)
    → (dumb_layout args).pitch ≡ evdi_align_pitch args.width (bytes_of_bits args.bpp)
unfolding dumb_layout
layout-pitch args = refl

layout-size :
    (args : DumbArgs) → (dumb_layout args).size ≡ (dumb_layout args).pitch * args.height % 2 ^ 32
unfolding dumb_layout
layout-size args = refl

layout-small : (args : DumbArgs) → (dumb_layout args).size + page_size < 2 ^ 64
layout-small args = omega (arith, layout-size args)

-- A dumb buffer that was created has the handle that the caller is told of and the pitch of its
-- width. Its object holds `height` rows of `pitch` bytes if their product fits 32 bits, and is
-- too small for them if not.
pub dumb_create_lem :
    (env : CreateEnv) (args : DumbArgs)
    → (evdi_dumb_create env args).0 ≡ done
    → let out = (evdi_dumb_create env args).1 in
      (handle : ℕ) × (obj : GemObject) × (gem_create env (dumb_layout args).size ≡ ok (handle, obj))
      × (out.handle ≡ handle)
      × (out.pitch ≡ evdi_align_pitch args.width (bytes_of_bits args.bpp))
      × (out.pitch * args.height < 2 ^ 32 → out.pitch * args.height ≤ obj.size)
      × (2 ^ 32 ≤ out.pitch * args.height → obj.size < out.pitch * args.height)
unfolding evdi_dumb_create
dumb_create_lem env args h = elim (Result-cases (gem_create env (dumb_layout args).size)) [
  | inl ((handle, obj), e) ↦
      let s = gem_create-size env (dumb_layout args).size handle obj (layout-small args) e in
      (
        handle,
        obj,
        e,
        ground arith,
        ground (arith, layout-pitch args),
        λ k. ground (arith, s, layout-size args),
        λ k. ground (arith, s, layout-size args),
      )
  | inr (x, e) ↦ absurd (ground arith)
]
