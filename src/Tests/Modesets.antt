-- ===== src/Tests/Modesets.antt =====
-- Updates of the planes, and the addresses of USB devices.
use evdi.Prelude.{replicate, ◌<◌, ◌≡◌, ◌↔◌, ◌⊎◌, refl, arith, true, List, [], ◌∷◌, none, some, map}
use evdi.Prelude.Int.{pos, negsuc}
use evdi.World.{Framebuffer}
use evdi.Rect.Cover.{IsDirty}
use evdi.Painter.Dirty.{get_num_dirts, dirts_of}
use evdi.Modeset.{PlaneState, DrmRect, update_fb, redraw_cursor}
use evdi.Modeset.Plane.{Dirties, SpannedBy, AllDirty, update_fb_lem}
use evdi.Modeset.CursorPlane.{Redrawn, redraw_cursor-Dirties}
use evdi.Errno.{ok, err, einval}
use evdi.Platform.{Context}
use evdi.Compat.{core_compat, connect32, grabpix32, native, compat_route}
use evdi.Client.Text.{Bytes}
use evdi.Sysfs.{
  parse_usb_path, loglevel_store, add_store, UsbDevice, port_of, backwards, find_usb_device_at_path,
}
use evdi.Sysfs.Attach.{usb_path_of, parse_usb_path-usb_path_of}
use evdi.Sysfs.Usb.{find_usb_device_lem}
use evdi.Tests.Data.{live, live_device, fb}

-- no framebuffer before, and one of the size of the scanout framebuffer
abbrev old_plane : PlaneState
old_plane = record {
  crtc = none;
  fb = none;
  crtc_x = pos 0;
  crtc_y = pos 0;
  crtc_w = 0;
  crtc_h = 0;
}

abbrev next_fb : Framebuffer
next_fb = record fb { id = 10 }

abbrev new_plane : PlaneState
new_plane = record {
  crtc = some 1;
  fb = some next_fb;
  crtc_x = pos 0;
  crtc_y = pos 0;
  crtc_w = 8;
  crtc_h = 8;
}

abbrev damage : List DrmRect
damage = record { x1 = pos 4; y1 = pos 4; x2 = pos 6; y2 = pos 5 } ∷ []

update_fb_lem_example :
    let after = update_fb live_device old_plane new_plane next_fb damage in
    Dirties after next_fb (λ x y. IsDirty (dirts_of live) x y ⊎ SpannedBy damage x y)
    × (0 < get_num_dirts after.painter)
    × (live.num_dirts ≡ 0 → damage ≡ [] → AllDirty after next_fb)
update_fb_lem_example =
    update_fb_lem live_device live old_plane new_plane next_fb damage refl (refl, omega arith)
      (omega arith) (omega arith) refl

-- a cursor over the left edge, which moves into the picture
abbrev cursor_fb : Framebuffer
cursor_fb = record fb { id = 11; width = 4; height = 4 }

abbrev cursor_before : PlaneState
cursor_before = record {
  crtc = some 1;
  fb = some cursor_fb;
  crtc_x = negsuc 1;
  crtc_y = pos 1;
  crtc_w = 4;
  crtc_h = 4;
}

abbrev cursor_after : PlaneState
cursor_after = record cursor_before { crtc_x = pos 3 }

redraw_cursor-Dirties_example :
    Dirties
      (redraw_cursor live_device cursor_before cursor_after (some cursor_fb))
      fb
      (Redrawn live cursor_before cursor_after)
redraw_cursor-Dirties_example =
    redraw_cursor-Dirties live_device fb live cursor_before cursor_after cursor_fb refl refl
      (refl, omega arith) (omega arith) (omega arith) (omega arith, omega arith)
      (omega arith, omega arith)

-- the device behind port 3 of the hub at port 2 of bus 1
abbrev usb : UsbDevice
usb = record { id = 7; portnums = 3 ∷ 2 ∷ 0 ∷ []; busnum = 1 }

find_usb_device_lem_example :
    (find_usb_device_at_path (1 ∷ 2 ∷ 3 ∷ []) usb ≡ true)
    ↔ (map (port_of 1) (3 ∷ 2 ∷ 0 ∷ []) ≡ backwards (1 ∷ 2 ∷ 3 ∷ []) [])
find_usb_device_lem_example = find_usb_device_lem (1 ∷ 2 ∷ 3 ∷ []) usb (λ e. cc)

-- "usb:1-2.3"
abbrev usb_path : Bytes
usb_path = b'u' ∷ b's' ∷ b'b' ∷ b':' ∷ b'1' ∷ b'-' ∷ b'2' ∷ b'.' ∷ b'3' ∷ []

-- what the path is read as, and what is made of numbers
parsed : parse_usb_path usb_path 9 ≡ some (1 ∷ 2 ∷ 3 ∷ [])
unfolding parse_usb_path evdi.Client.Text.is_prefix evdi.Client.Text.skip_space
    evdi.Sysfs.Text.kstrtouint evdi.Sysfs.Text.strim evdi.Sysfs.Text.strnstr evdi.Sysfs.Text.strsep
parsed = refl

level_set : loglevel_store 4 (b'6' ∷ b'\n' ∷ []) 2 ≡ (6, ok 2)
unfolding loglevel_store evdi.Sysfs.Text.kstrtouint
level_set = refl

level_refused : loglevel_store 4 (b'7' ∷ []) 1 ≡ (4, err einval)
unfolding loglevel_store evdi.Sysfs.Text.kstrtouint
level_refused = refl

abbrev empty_table : Context
empty_table = record { dev_count = 0; devices = replicate 16 none }

path_refused : add_store [] empty_table true usb_path 9 true true ≡ some (empty_table, err einval)
unfolding add_store evdi.Client.Text.is_prefix evdi.Client.Text.skip_space
    evdi.Sysfs.Text.kstrtouint evdi.Sysfs.Text.strim evdi.Sysfs.Text.strnstr evdi.Sysfs.Text.strsep
    parse_usb_path
path_refused = refl

-- which requests of a 32-bit process are converted
routes :
    (compat_route 0x3f ≡ core_compat)
    × (compat_route 0x40 ≡ connect32)
    × (compat_route 0x41 ≡ native)
    × (compat_route 0x42 ≡ grabpix32)
    × (compat_route 0x43 ≡ native)
    × (compat_route 0xa0 ≡ core_compat)
unfolding compat_route
routes = (refl, refl, refl, refl, refl, refl)

parse_usb_path-usb_path_of_example :
    parse_usb_path (usb_path_of 1 2 (3 ∷ [])) 9 ≡ some (1 ∷ 2 ∷ 3 ∷ [])
parse_usb_path-usb_path_of_example =
    parse_usb_path-usb_path_of 1 2 (3 ∷ []) 9 (omega arith) (omega arith, (omega arith, tt))
      (omega arith) (omega arith)
