-- ===== src/Client/Events/Layout.antt =====
-- How the events of module/evdi_drm.h lie in memory, on a little-endian machine.
use evdi.Prelude.{
  ℕ, ◌+◌, ◌-◌, ◌/◌, ◌%◌, ◌^◌, ◌<◌, ◌≤◌, ◌≡◌, List, [], ◌∷◌, ◌++◌, if◌then◌else◌, length, replicate,
}
use evdi.Event.{
  Event, ModeChanged, CursorSet, event_base, update_ready, dpms, mode_changed, crtc_state,
  cursor_set, cursor_move, ddcci_data,
}

abbrev pub le16 : ℕ → List ℕ
le16 n = n % 256 ∷ n / 256 % 256 ∷ []

abbrev pub le32 : ℕ → List ℕ
le32 n = n % 256 ∷ n / 256 % 256 ∷ n / 65536 % 256 ∷ n / 16777216 % 256 ∷ []

abbrev pub le32s : List ℕ → List ℕ
le32s [] = []
le32s (n ∷ ns) = le32 n ++ le32s ns

-- `struct drm_event`: the type and the length of the whole.
abbrev pub header : ℕ → ℕ → List ℕ
header kind size = le32 (event_base + kind) ++ le32 size

-- `sizeof` of the event's struct
abbrev pub event_size : Event → ℕ
event_size update_ready = 8
event_size (dpms _) = 12
event_size (mode_changed _) = 28
event_size (crtc_state _) = 12
event_size (cursor_set _) = 44
event_size (cursor_move _) = 16
event_size (ddcci_data _) = 80

-- the fields of 32 bits, in order
abbrev pub mode_fields : ModeChanged → List ℕ
mode_fields m = m.hdisplay ∷ m.vdisplay ∷ m.vrefresh ∷ m.bits_per_pixel ∷ m.pixel_format ∷ []

-- those before `enabled`, and those behind it
abbrev pub shape_fields : CursorSet → List ℕ
shape_fields c = c.hot_x ∷ c.hot_y ∷ c.width ∷ c.height ∷ []

abbrev pub buffer_fields : CursorSet → List ℕ
buffer_fields c = c.buffer_handle ∷ c.buffer_length ∷ c.pixel_format ∷ c.stride ∷ []

-- The fields in order. `enabled` is one byte, and three of padding follow it.
abbrev pub event_bytes : Event → List ℕ
event_bytes update_ready = header 0 8
event_bytes (dpms mode) = header 1 12 ++ le32s (mode ∷ [])
event_bytes (mode_changed m) = header 2 28 ++ le32s (mode_fields m)
event_bytes (crtc_state state) = header 3 12 ++ le32s (state ∷ [])
event_bytes (cursor_set c) =
    header 4 44
    ++ (le32s (shape_fields c)
        ++ (le32 (if c.enabled then 1 else 0) ++ (le32s (buffer_fields c) ++ [])))
event_bytes (cursor_move m) = header 5 16 ++ le32s (m.x ∷ m.y ∷ [])
event_bytes (ddcci_data d) =
    header 6 80
    ++ (d.buffer
        ++ (replicate (64 - d.buffer_length) 0
            ++ (le32 d.buffer_length ++ (le16 d.flags ++ (le16 d.address ++ [])))))

abbrev pub IsU32 : ℕ → Type 0
IsU32 n = n < 2 ^ 32

abbrev pub AllU32 : List ℕ → Type 0
AllU32 [] = Unit {0}
AllU32 (n ∷ ns) = IsU32 n × AllU32 ns

-- The fields fit their types, and a message its array.
abbrev pub Fits : Event → Type 0
Fits update_ready = Unit {0}
Fits (dpms mode) = AllU32 (mode ∷ [])
Fits (mode_changed m) = AllU32 (mode_fields m)
Fits (crtc_state state) = AllU32 (state ∷ [])
Fits (cursor_set c) = AllU32 (shape_fields c) × AllU32 (buffer_fields c)
Fits (cursor_move m) = AllU32 (m.x ∷ m.y ∷ [])
Fits (ddcci_data d) =
    (length d.buffer ≡ d.buffer_length)
    × (d.buffer_length ≤ 64)
    × (d.flags < 2 ^ 16)
    × (d.address < 2 ^ 16)
