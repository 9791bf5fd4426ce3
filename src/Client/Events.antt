-- ===== src/Client/Events.antt =====
-- `evdi_handle_events` of library/evdi_lib.c: the bytes that were read are cast to the events of
-- module/evdi_drm.h, and each is handed to the client's handler of its kind.
pub mod Layout
pub mod Decode
pub mod Loop
pub mod Shown
use evdi.Prelude.{
  ℕ, zero, suc, ◌+◌, ◌*◌, ◌%◌, ◌^◌, Bool, true, false, not, ◌&&◌, List, [], ◌∷◌, Option, none, some,
  ◌==◌, if◌then◌else◌, min, is_some,
}
use evdi.Prelude.Int.{ℤ, pos, eq_ℤ, ltb_ℤ, to_s32}
use evdi.Event.{
  Event, ModeChanged, CursorSet, CursorMove, DdcciData, event_base, update_ready, dpms,
  mode_changed, crtc_state, cursor_set, cursor_move, ddcci_data,
}
use evdi.Client.{Os, Context, Reply, Payload, map_dumb, dumb_offset}
use evdi.Client.Ioctl.{drm_ioctl}
use evdi.Client.Requests.{evdi_enable_cursor_events}

-- The array that was read into, with what it held before behind that.
abbrev pub Buffer : Type 0
Buffer = ℕ → ℕ

-- The fields at offset `k` of the struct at `i`: bytes in the order of a little-endian machine.
abbrev pub u16_at : Buffer → ℕ → ℕ → ℕ
u16_at buf i k = buf (i + k) + 256 * buf (i + (k + 1))

abbrev pub u32_at : Buffer → ℕ → ℕ → ℕ
u32_at buf i k = u16_at buf i k + 65536 * u16_at buf i (k + 1 + 1)

abbrev pub bytes_at : Buffer → ℕ → ℕ → ℕ → List ℕ
bytes_at buf i k zero = []
bytes_at buf i k (suc n) = buf (i + k) ∷ bytes_at buf i (k + 1) n

abbrev pub ddcci_buffer_size : ℕ
ddcci_buffer_size = 64

mode_changed_at : Buffer → ℕ → ModeChanged
mode_changed_at buf i = record {
  hdisplay = u32_at buf i 8;
  vdisplay = u32_at buf i 12;
  vrefresh = u32_at buf i 16;
  bits_per_pixel = u32_at buf i 20;
  pixel_format = u32_at buf i 24;
}

-- three bytes of padding follow `enabled`
cursor_set_at : Buffer → ℕ → CursorSet
cursor_set_at buf i = record {
  hot_x = u32_at buf i 8;
  hot_y = u32_at buf i 12;
  width = u32_at buf i 16;
  height = u32_at buf i 20;
  enabled = not (buf (i + 24) == 0);
  buffer_handle = u32_at buf i 28;
  buffer_length = u32_at buf i 32;
  pixel_format = u32_at buf i 36;
  stride = u32_at buf i 40;
}

-- the message is as long as it says, within the array
ddcci_data_at : Buffer → ℕ → DdcciData
ddcci_data_at buf i = record {
  buffer = bytes_at buf i 8 (min (u32_at buf i 72) ddcci_buffer_size);
  buffer_length = u32_at buf i 72;
  flags = u16_at buf i 76;
  address = u16_at buf i 78;
}

-- the struct that a type casts to; `none` is a type that the library does not know
pub event_of : ℕ → Buffer → ℕ → Option Event
unfolding mode_changed_at cursor_set_at ddcci_data_at
event_of kind buf i =
    if kind == event_base
    then some update_ready
    else if kind == event_base + 1
    then some (dpms (u32_at buf i 8))
    else if kind == event_base + 2
    then some (mode_changed (mode_changed_at buf i))
    else if kind == event_base + 3
    then some (crtc_state (u32_at buf i 8))
    else if kind == event_base + 4
    then some (cursor_set (cursor_set_at buf i))
    else if kind == event_base + 5
    then some (cursor_move (record { x = u32_at buf i 8; y = u32_at buf i 12 }))
    else if kind == event_base + 6
    then some (ddcci_data (ddcci_data_at buf i))
    else none

pub event_at : Buffer → ℕ → Option Event
unfolding event_of
event_at buf i = event_of (u32_at buf i 0) buf i

-- `struct evdi_cursor_set`, with the pixels that were copied, or NULL.
pub record CursorImage : Type 0 where
  pub hot_x : ℕ
  pub hot_y : ℕ
  pub width : ℕ
  pub height : ℕ
  pub enabled : Bool
  pub buffer_length : ℕ
  pub buffer : Option (List ℕ)
  pub pixel_format : ℕ
  pub stride : ℕ

-- A handler may be NULL. It is the client's code, which may call the library again and so change the
-- kernel's state and the handle.
abbrev pub Handler : Type 0 → Type 0 → Type 0
Handler S A = Option (A → S × Context → S × Context)

-- `struct evdi_event_context`; `struct evdi_mode` has the fields of the module's event.
pub record EventContext (S : Type 0) : Type 0 where
  pub dpms_handler : Handler S ℕ
  pub mode_changed_handler : Handler S ModeChanged
  pub update_ready_handler : Handler S ℕ
  pub crtc_state_handler : Handler S ℕ
  pub cursor_set_handler : Handler S CursorImage
  pub cursor_move_handler : Handler S CursorMove
  pub ddcci_data_handler : Handler S DdcciData

abbrev pub call : {S A : Type 0} → Handler S A → A → S × Context → S × Context
call none arg state = state
call (some f) arg state = f arg state

-- without the pixels
plain_image : CursorSet → CursorImage
plain_image event = record {
  hot_x = event.hot_x;
  hot_y = event.hot_y;
  width = event.width;
  height = event.height;
  enabled = event.enabled;
  buffer_length = 0;
  buffer = none;
  pixel_format = event.pixel_format;
  stride = event.stride;
}

-- the argument of the ioctl starts as zeros
pub offset_of : Payload → ℕ
offset_of (dumb_offset offset) = offset
offset_of _ = 0

-- copied from a mapping that succeeded
with_pixels : CursorImage → ℕ → Option (List ℕ) → CursorImage
with_pixels image size none = image
with_pixels image size (some pixels) = record image { buffer = some pixels; buffer_length = size }

module _ {S : Type 0} (os : Os S) where
  pub to_evdi_cursor_set : S → Context → CursorSet → S × CursorImage
  unfolding plain_image offset_of with_pixels
  to_evdi_cursor_set s handle event =
      let image = plain_image event in
      let (s', reply) = drm_ioctl os s handle.fd (map_dumb event.buffer_handle) in
      let pixels = os.mmap s' handle.fd event.buffer_length (offset_of reply.payload) in
      if not event.enabled
      then (s, image)
      else if not (eq_ℤ reply.code (pos 0))
      then (s', image)
      else (s', with_pixels image event.buffer_length pixels)

  -- a cursor without pixels is told of as one that is off, and cursor events are switched off
  pub hand_cursor :
      (CursorImage → S × Context → S × Context) → S × Context → CursorImage → S × Context
  hand_cursor handler (s, handle) image =
      if image.enabled && not (is_some image.buffer)
      then handler (record image { enabled = false; buffer_length = 0 })
          (evdi_enable_cursor_events os s handle false, handle)
      else handler image (s, handle)

  handle_cursor_set : Handler S CursorImage → CursorSet → S × Context → S × Context
  unfolding to_evdi_cursor_set hand_cursor
  handle_cursor_set none event state = state
  handle_cursor_set (some handler) event (s, handle) =
      let (s', image) = to_evdi_cursor_set s handle event in hand_cursor handler (s', handle) image

  pub dispatch : EventContext S → Event → S × Context → S × Context
  unfolding handle_cursor_set
  dispatch ctx update_ready (s, handle) =
      call ctx.update_ready_handler handle.buffer_to_update (s, handle)
  dispatch ctx (dpms mode) state = call ctx.dpms_handler mode state
  dispatch ctx (mode_changed mode) state = call ctx.mode_changed_handler mode state
  dispatch ctx (crtc_state crtc) state = call ctx.crtc_state_handler crtc state
  dispatch ctx (cursor_set event) state = handle_cursor_set ctx.cursor_set_handler event state
  dispatch ctx (cursor_move move) state = call ctx.cursor_move_handler move state
  dispatch ctx (ddcci_data message) state = call ctx.ddcci_data_handler message state

  -- an event of a type that is not known is only logged
  pub handle_event : EventContext S → Option Event → S × Context → S × Context
  unfolding dispatch
  handle_event ctx none state = state
  handle_event ctx (some event) state = dispatch ctx event state

  -- `while (i < bytesRead)`, on fuel: `none` is a loop that has not ended. The index is an `int`, as its
  -- bit pattern.
  pub handle_loop : ℕ → EventContext S → Buffer → ℤ → ℕ → S × Context → Option (S × Context)
  unfolding handle_event event_at
  handle_loop zero ctx buf bytes_read i state =
      if ltb_ℤ (to_s32 i) bytes_read then none else some state
  handle_loop (suc fuel) ctx buf bytes_read i state =
      let next =
        handle_loop fuel ctx buf bytes_read ((i + u32_at buf i 4) % 2 ^ 32)
          (handle_event ctx (event_at buf i) state) in
      if ltb_ℤ (to_s32 i) bytes_read then next else some state

  -- after the read; `ctx` may be NULL
  pub evdi_handle_events :
      ℕ → Option (EventContext S) → Buffer → ℤ → S × Context → Option (S × Context)
  unfolding handle_loop
  evdi_handle_events fuel none buf bytes_read state = some state
  evdi_handle_events fuel (some ctx) buf bytes_read state =
      handle_loop fuel ctx buf bytes_read 0 state
