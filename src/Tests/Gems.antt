-- ===== src/Tests/Gems.antt =====
-- Buffer objects.
use evdi.Prelude.{ℕ, ◌*◌, ◌^◌, ◌≤◌, ◌<◌, ◌≡◌, refl, true, false, none, arith}
use evdi.Errno.{ok, err, enomem}
use evdi.Gem.{drm_gem_object_use_import_attach, GemObject, MapEnv, pin_pages, gem_vmap}
use evdi.Gem.Dumb.{
  CreateEnv, DumbArgs, gem_create, dumb_layout, evdi_dumb_create, evdi_align_pitch, bytes_of_bits,
}
use evdi.Gem.Pages.{IsPinned, vmap_leaks_pin}
use evdi.Gem.Dumb.Layout.{dumb_create_lem}
use evdi.Tests.Data.{no_object, mapping}

no_object-IsPinned : IsPinned no_object
no_object-IsPinned = record { held = λ h. absurd (omega arith); small = omega arith }

-- pages that cannot be mapped
abbrev unmappable : MapEnv
unmappable = record mapping { vmap_pages = λ _ _. none }

vmap_leaks_pin_example :
    ((gem_vmap unmappable no_object).0 ≡ err enomem)
    × ((gem_vmap unmappable no_object).1.pages_pin_count ≡ 1)
unfolding drm_gem_object_use_import_attach pin_pages
vmap_leaks_pin_example =
    vmap_leaks_pin unmappable no_object no_object-IsPinned refl refl (λ _ _. refl)

abbrev creation : CreateEnv
creation = record { object_init = λ _. true; handle_create = λ _. ok 1; called_by_mutter = false }

abbrev dumb_args : DumbArgs
dumb_args = record { width = 100; height = 10; bpp = 32; handle = 0; pitch = 0; size = 0 }

dumb_create_lem_example :
    let out = (evdi_dumb_create creation dumb_args).1 in
    (handle : ℕ) × (obj : GemObject) × (gem_create creation (dumb_layout dumb_args).size
      ≡ ok (handle, obj))
    × (out.handle ≡ handle)
    × (out.pitch ≡ evdi_align_pitch 100 (bytes_of_bits 32))
    × (out.pitch * 10 < 2 ^ 32 → out.pitch * 10 ≤ obj.size)
    × (2 ^ 32 ≤ out.pitch * 10 → obj.size < out.pitch * 10)
unfolding evdi_dumb_create gem_create
dumb_create_lem_example = dumb_create_lem creation dumb_args refl
