-- ===== src/Tests/Platforms.antt =====
-- Platform devices and framebuffers.
use evdi.Prelude.{
  ◌+◌, ◌≢◌, Bool, ℕ, Option, ◌⊎◌, ◌≤◌, ◌<◌, ◌≡◌, refl, true, false, ◌∷◌, none, some, replicate,
}
use evdi.Errno.{err, done, einval}
use evdi.Platform.{
  platform_drv_usb, platform_add_devices, Context, platform_device_add, reusable, new_device,
  device_count_max,
}
use evdi.Platform.Count.{used, ContextOk}
use evdi.Platform.Link.{AllUnrelated}
use evdi.Platform.Removed.{platform_drv_usb_lem}
use evdi.Platform.Add.{Added, device_add_lem, add_devices_lem}
use evdi.Fb.{FbCmd, FbEnv, fb_user_fb_create}
use evdi.Fb.Create.{CreateOutcome, fb_create_lem}
use evdi.Tests.Data.{world}

-- a table with one device, which is free
abbrev table : Context
table = record { devices = some (new_device true) ∷ replicate 15 none; dev_count = 1 }

abbrev usb_parent : Option ℕ
usb_parent = some 7

abbrev probes : Bool
probes = true

device_add_lem_example :
    let r = platform_device_add table usb_parent probes true in
    ((o : Option ℕ) × (reusable table usb_parent ≡ some o))
    × ((k : ℕ) → reusable table usb_parent ≡ some (some k) → Added table probes 0 r)
    × (reusable table usb_parent ≡ some none
        → used table.devices < device_count_max
        → ((usb_parent ≡ none) ⊎ (probes ≡ true))
        → Added table probes 1 r)
    × ((usb : ℕ)
        → reusable table usb_parent ≡ some none
        → used table.devices < device_count_max
        → usb_parent ≡ some usb
        → probes ≡ false
        → r ≡ none)
    × (reusable table usb_parent ≡ some none
        → device_count_max ≤ used table.devices
        → r ≡ some (table, err einval))
device_add_lem_example = device_add_lem table usb_parent probes true (refl, refl) (refl, tt)

-- the device is taken over
table-reusable : reusable table (some 7) ≡ some (some 0)
unfolding evdi.Platform.get_free_device evdi.Platform.platform_device_is_free
table-reusable = refl

-- a table with one device, linked to the USB device 7, and one below it on the bus
abbrev linked_table : Context
linked_table = record {
  devices =
      some (record (new_device true) { symlinked = true; parent = some 7 })
      ∷ some (record (new_device true) { dev_parent = some 7 })
      ∷ replicate 14 none;
  dev_count = 2;
}

platform_drv_usb_lem_example :
    (ctx' : Context) × (platform_drv_usb linked_table (some 7) true ≡ some ctx')
    × ContextOk ctx'
    × AllUnrelated 7 ctx'.devices
platform_drv_usb_lem_example = platform_drv_usb_lem linked_table 7 (refl, refl) (refl, (refl, tt))

abbrev more : ℕ
more = 3

add_devices_lem_example :
    let r = platform_add_devices table more true in
    (table.dev_count + more ≤ device_count_max
      → (ctx' : Context) × (r ≡ some (ctx', done))
        × ContextOk ctx'
        × (ctx'.dev_count ≡ table.dev_count + more))
    × (device_count_max < table.dev_count + more → more ≢ 0 → r ≡ some (table, err einval))
add_devices_lem_example = add_devices_lem table more true (refl, refl)

abbrev cmd : FbCmd
cmd = record { width = 8; height = 8; pixel_format = 0; handle = 1; pitch = 32; offset = 0 }

abbrev fb_env : FbEnv
fb_env = record {
  bpp = λ _. 32;
  lookup = λ _. some 3;
  alloc = true;
  init = done;
  is_xe_gem = λ _. false;
  fresh_id = 9;
}

fb_create_lem_example : CreateOutcome fb_env world cmd (fb_user_fb_create fb_env world cmd)
fb_create_lem_example = fb_create_lem fb_env world cmd
