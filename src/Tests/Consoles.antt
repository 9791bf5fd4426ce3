-- ===== src/Tests/Consoles.antt =====
-- The console's framebuffer.
use evdi.Prelude.{◌+◌, ◌≡◌, refl, ap, arith, true, false, none}
use evdi.Errno.{ok, done, is_ok}
use evdi.Gem.{GemObject, gem_vmap}
use evdi.Gem.Dumb.{CreateEnv}
use evdi.Fb.Create.{Owes}
use evdi.Fb.Console.{
  FbInfo, Area, Console, SurfaceSize, ConsoleEnv, evdifb_create, map_console, fbdev_destroy,
  fb_mmap,
}
use evdi.Fb.Console.Mmap.{Inside, fb_mmap-Inside}
use evdi.Fb.Console.Made.{TakenDown, destroy-evdifb_create, map_console_leaks}
use evdi.Tests.Data.{world, mapping, no_object}

abbrev info : FbInfo
info = record { smem_start = 65536; smem_len = 8192 }

-- the second page
abbrev area : Area
area = record { vm_start = 4096; vm_end = 8192; vm_pgoff = 1 }

fb_mmap-Inside_example : Inside 65536 (65536 + 8192) (fb_mmap info area (λ _. true))
fb_mmap-Inside_example = fb_mmap-Inside info area (λ _. true) refl (omega arith)

abbrev console_env : ConsoleEnv
console_env = record {
  create = record { object_init = λ _. true; handle_create = λ _. ok 1; called_by_mutter = false };
  fresh_obj = 3;
  mapping = mapping;
  address = 65536;
  info_alloc = true;
  init = done;
  cmap_alloc = true;
}

abbrev no_console : Console
no_console = record { fbdev = record { info = none; obj = none }; world = world; infos = 0 }

abbrev sizes : SurfaceSize
sizes = record { surface_width = 64; surface_height = 32; surface_bpp = 32 }

made-done : (evdifb_create console_env no_console sizes).1 ≡ done
unfolding evdifb_create evdi.Gem.Dumb.gem_alloc_object gem_vmap
made-done = refl

destroy-evdifb_create_example : TakenDown no_console (evdifb_create console_env no_console sizes).0
destroy-evdifb_create_example =
    destroy-evdifb_create console_env no_console _ sizes refl refl
      (ap (λ s. ((evdifb_create console_env no_console sizes).0, s)) made-done)

map_console_leaks_example :
    let (c', status) =
      map_console (record console_env { info_alloc = false }) no_console 3 no_object 8192 in
    (is_ok status ≡ false) × Owes no_console.world (fbdev_destroy c').world 3 1
map_console_leaks_example =
    map_console_leaks (record console_env { info_alloc = false }) no_console 3 no_object 8192 refl
      refl (ground arith)
