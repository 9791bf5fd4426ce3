-- ===== src/Tests/Sessions.antt =====
-- Sessions: connecting, disconnecting, and the channel of display data.
use evdi.Prelude.{◌+◌, ◌≡◌, refl, true, false, [], ◌∷◌, none, some, arith}
use evdi.Errno.{done}
use evdi.World.{count}
use evdi.Painter.State.{Painter, Device, painter_fresh}
use evdi.Painter.Vblank.{set_vblank}
use evdi.Painter.Vblank.Once.{held, held_by, set_vblank-count}
use evdi.Painter.Connect.{
  painter_connect_ioctl, connect_with, read_user, painter_connect, painter_disconnect,
  painter_close, disconnect_owner,
}
use evdi.Painter.Connect.Lifecycle.{ConnectOutcome, connect_lem, disconnect_owner_lem}
use evdi.Painter.Session.{here, after, connect_ioctl}
use evdi.Painter.Session.Keeps.{Ok}
use evdi.Painter.Session.Safe.{session-Ok}
use evdi.Painter.Ddcci.{I2cMsg, ddcci_response_ioctl, take_response}
use evdi.Painter.Ddcci.Answer.{response_arrives}
use evdi.Drm.{InitEnv, made, ready, drm_device_create, release_cb}
use evdi.Drm.Life.{NothingHeld, create-release}
use evdi.Tests.Data.{
  world, fresh_device, cursor_off, env, connect_args, live, live_world, live_device, edid_bytes,
}

set_vblank-count_example :
    count 5 (set_vblank (some live) live_world (some 1) (some 5)).1.vblanks
      + held_by (set_vblank (some live) live_world (some 1) (some 5)).0 5
    ≡ count 5 live_world.vblanks + held_by (some live) 5 + held (some 1) (some 5) 5
set_vblank-count_example = set_vblank-count (some live) live_world (some 1) (some 5) 5

connect_lem_example :
    ConnectOutcome fresh_device 4 connect_args
      (painter_connect env fresh_device painter_fresh 4 connect_args true)
connect_lem_example = connect_lem env fresh_device painter_fresh 4 connect_args true

abbrev dropped_device : Device
dropped_device = disconnect_owner live_device live

disconnect_owner_lem_example :
    (painter_disconnect live_device live 4 ≡ (dropped_device, done))
    × (painter_close live_device 4 ≡ dropped_device)
    × (dropped_device.cursor.enabled ≡ false)
    × (dropped_device.i2c_adapter ≡ false)
    × (dropped_device.cursor_events_enabled ≡ false)
    × ((q : Painter) × (dropped_device.painter ≡ some q)
        × (q.is_connected ≡ false)
        × (q.drm_filp ≡ none)
        × (q.pending_events ≡ [])
        × (q.work_pending ≡ false)
        × (q.vblank ≡ none)
        × (q.was_update_requested ≡ false)
        × (q.scanout_fb ≡ none)
        × (q.ddcci_buffer ≡ none)
        × (q.ddcci_done ≡ live.ddcci_done + 1))
disconnect_owner_lem_example = disconnect_owner_lem live_device live 4 refl refl

-- the fresh painter after file 4 has connected
abbrev connected : Painter
connected = record painter_fresh {
  drm_filp = some 4;
  edid = some edid_bytes;
  edid_length = 128;
  is_connected = true;
}

abbrev connected_device : Device
connected_device = (painter_connect_ioctl env fresh_device 4 connect_args true).0

session-Ok_example : Ok connected cursor_off connected_device.world
unfolding painter_connect_ioctl painter_connect connect_with read_user painter_fresh
session-Ok_example =
    session-Ok fresh_device connected_device connected refl (λ id. refl) (λ id. refl)
      (after fresh_device fresh_device connected_device (here fresh_device)
        (connect_ioctl env fresh_device 4 connect_args true))
      refl

abbrev all_well : InitEnv
all_well = record {
  alloc = true;
  painter_alloc = true;
  cursor_alloc = true;
  fbdev = made;
  vblank = done;
  action = done;
}

created : drm_device_create done all_well done world ≡ ready fresh_device
unfolding drm_device_create
created = refl

create-release_example : NothingHeld (release_cb connected_device)
unfolding painter_connect_ioctl painter_connect connect_with read_user painter_fresh
create-release_example =
    create-release done all_well done world fresh_device connected_device connected
      (λ id. refl, λ id. refl) created
      (after fresh_device fresh_device connected_device (here fresh_device)
        (connect_ioctl env fresh_device 4 connect_args true))
      refl

abbrev msg : I2cMsg
msg = record { addr = 0x37; flags = 1; len = 2; buf = 0 ∷ 0 ∷ [] }

response_arrives_example :
    let r =
      ddcci_response_ioctl live
        (record { buffer = some (8 ∷ 9 ∷ []); buffer_length = 2; result = 0 })
        true in
    (r.1 ≡ done) × ((take_response r.0 msg).buf ≡ 8 ∷ 9 ∷ [])
response_arrives_example = response_arrives live msg (8 ∷ 9 ∷ []) 0 refl (omega arith) refl
