-- ===== src/Event.antt =====
-- The events that the module queues for the client (`struct drm_evdi_event_*` of module/evdi_drm.h), and
-- the pending list of module/evdi_painter.c: squashing on entry, flushing in order.
-- A field of 32 bits is its bit pattern, a number below 2 ^ 32, whether the source calls it signed or not.
pub mod Squash
pub mod Flush
use evdi.Prelude.{
  ℕ, ◌+◌, ◌≡◌, Bool, true, false, ◌&&◌, ◌||◌, List, [], ◌∷◌, ◌++◌, Option, none, some, ◌==◌,
  if◌then◌else◌,
}

pub record ModeChanged : Type 0 where
  pub hdisplay : ℕ
  pub vdisplay : ℕ
  pub vrefresh : ℕ
  pub bits_per_pixel : ℕ
  pub pixel_format : ℕ

pub record CursorSet : Type 0 where
  pub hot_x : ℕ
  pub hot_y : ℕ
  pub width : ℕ
  pub height : ℕ
  pub enabled : Bool
  pub buffer_handle : ℕ
  pub buffer_length : ℕ
  pub pixel_format : ℕ
  pub stride : ℕ

pub record CursorMove : Type 0 where
  pub x : ℕ
  pub y : ℕ

-- `buffer` holds the first `buffer_length` bytes of the array.
pub record DdcciData : Type 0 where
  pub buffer : List ℕ
  pub buffer_length : ℕ
  pub flags : ℕ
  pub address : ℕ

pub data Event : Type 0 where
  update_ready : Event
  dpms : ℕ → Event
  mode_changed : ModeChanged → Event
  crtc_state : ℕ → Event
  cursor_set : CursorSet → Event
  cursor_move : CursorMove → Event
  ddcci_data : DdcciData → Event

abbrev pub event_base : ℕ
event_base = 0x80000000

-- `DRM_EVDI_EVENT_*`
pub event_type : Event → ℕ
event_type update_ready = event_base
event_type (dpms _) = event_base + 1
event_type (mode_changed _) = event_base + 2
event_type (crtc_state _) = event_base + 3
event_type (cursor_set _) = event_base + 4
event_type (cursor_move _) = event_base + 5
event_type (ddcci_data _) = event_base + 6

pub is_evdi_event_squashable : Event → Bool
unfolding event_type
is_evdi_event_squashable e = event_type e == event_base + 4 || event_type e == event_base + 5

-- whether the new event takes the place of the last one
pub squashes : Event → Event → Bool
unfolding is_evdi_event_squashable
squashes event last = event_type event == event_type last && is_evdi_event_squashable event

-- The last entry of the list is replaced, or the event is added at the tail.
pub add_event_to_pending_list : List Event → Event → List Event
unfolding squashes
add_event_to_pending_list [] event = event ∷ []
add_event_to_pending_list (last ∷ []) event =
    if squashes event last then event ∷ [] else last ∷ event ∷ []
add_event_to_pending_list (first ∷ next ∷ rest) event =
    first ∷ add_event_to_pending_list (next ∷ rest) event

-- What a file has been sent, and what waits.
pub record Outbox : Type 0 where
  pub sent : List Event
  pub pending : List Event

-- `drm_event_reserve_init_locked`, of the DRM core: whether the file has space for an event, after
-- those sent so far.
abbrev pub Space : Type 0
Space = List Event → Event → Bool

flush : Space → List Event → List Event → Outbox
flush has_space sent [] = record { sent = sent; pending = [] }
flush has_space sent (event ∷ rest) = elim (has_space sent event) [
  | true ↦ flush has_space (sent ++ event ∷ []) rest
  | false ↦ record { sent = sent; pending = event ∷ rest }
]

abbrev pub is_empty {ℓ} : {A : Type ℓ} → List A → Bool
is_empty [] = true
is_empty (_ ∷ _) = false

-- `flushed_all` beside the lists
pub flush_pending_events : Space → Outbox → Outbox × Bool
unfolding flush
flush_pending_events has_space box =
    let after = flush has_space box.sent box.pending in (after, is_empty after.pending)
