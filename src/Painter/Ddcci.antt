-- ===== src/Painter/Ddcci.antt =====
-- The display data channel: a request of the i2c bus goes to the client as an event, and the client's
-- answer comes back by an ioctl. Both ends cut buffers at 64 bytes.
pub mod Answer
use evdi.Prelude.{
  ℕ, ◌+◌, ◌<◌, ◌^◌, ◌%◌, min, Bool, true, false, not, List, [], ◌∷◌, ◌++◌, Option, none, some, ltb,
  ◌==◌, if◌then◌else◌, length, take, drop,
}
use evdi.Errno.{Result, ok, err, Status, done, enomem, efault}
use evdi.Event.{Event, Space, ddcci_data}
use evdi.World.{World}
use evdi.Painter.State.{Painter, Device, Env}
use evdi.Painter.Send.{send_event, create}
use evdi.Painter.Connect.{read_user}

abbrev pub ddcci_buffer_size : ℕ
ddcci_buffer_size = 64

-- `struct i2c_msg`; `len` is an `__u16`, and `buf` has as many bytes.
pub record I2cMsg : Type 0 where
  pub addr : ℕ
  pub flags : ℕ
  pub len : ℕ
  pub buf : List ℕ

abbrev pub ddcci_event : I2cMsg → Event
ddcci_event msg =
    let n = min msg.len ddcci_buffer_size in
    ddcci_data
      (record { buffer = take n msg.buf; buffer_length = n; flags = msg.flags; address = msg.addr })

-- The completion is reinitialised and the event is sent.
abbrev pub ddcci_request : Env → Painter → World → I2cMsg → Painter × World
ddcci_request env p w msg =
    send_event env.has_space (record p { ddcci_done = 0 }) w (create env 6 (ddcci_event msg))

-- `memcpy` of the first bytes of a message
abbrev pub overwrite : List ℕ → List ℕ → List ℕ
overwrite bytes buf = bytes ++ drop (length bytes) buf

-- What the waiting side makes of the painter that it finds when it is woken up.
pub take_response : Painter → I2cMsg → I2cMsg
take_response p msg =
    if not (min msg.len ddcci_buffer_size == p.ddcci_buffer_length)
    then msg
    else elim p.ddcci_buffer [
      | some bytes ↦ record msg { buf = overwrite bytes msg.buf }
      | none ↦ msg
    ]

-- `evdi_painter_i2c_data_notify` up to the wait, and whether it handles the message
abbrev pub i2c_data_notify :
    Env → Option Painter → World → Option I2cMsg → Option Painter × World × Bool
i2c_data_notify env none w msg = (none, w, false)
i2c_data_notify env (some p) w none = (some p, w, false)
i2c_data_notify env (some p) w (some msg) =
    if not p.is_connected
    then (some p, w, false)
    else if not (msg.addr == 0x37)
    then (some p, w, false)
    else (let (p', w') = ddcci_request env p w msg in (some p', w', true))

-- the wait's end: woken up in time, with the painter found then, or not
abbrev pub ddcci_finish : Bool → Painter → I2cMsg → I2cMsg
ddcci_finish woken p msg = if woken then take_response p msg else msg

-- `struct drm_evdi_ddcci_response`, with what can be read at its address
pub record ResponseArgs : Type 0 where
  pub buffer : Option (List ℕ)
  pub buffer_length : ℕ
  pub result : ℕ

-- The ioctl does not read `result`.
unfoldable pub ddcci_response_ioctl : Painter → ResponseArgs → Bool → Painter × Status
ddcci_response_ioctl p cmd alloc =
    let n = min cmd.buffer_length ddcci_buffer_size in
    let sized = record p { ddcci_buffer_length = n; ddcci_buffer = none } in
    if not alloc then (sized, err enomem) else elim (read_user cmd.buffer n) [
      | none ↦ (sized, err efault)
      | some bytes ↦
          (record sized { ddcci_buffer = some bytes; ddcci_done = p.ddcci_done + 1 }, done)
    ]

abbrev pub enable_cursor_events_ioctl : Device → Bool → Device
enable_cursor_events_ioctl d enable = record d { cursor_events_enabled = enable }
