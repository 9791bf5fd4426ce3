-- ===== src/Painter/Send.antt =====
-- Queueing and sending events, and the events that the painter makes.
pub mod Order
pub mod Image
use evdi.Prelude.{
  ℕ, ◌+◌, ◌*◌, ◌%◌, ◌^◌, Bool, true, false, not, ◌&&◌, List, [], ◌∷◌, Option, none, some, ◌==◌,
  if◌then◌else◌, is_some,
}
use evdi.Errno.{Result, ok, err}
use evdi.Event.{
  Event, Outbox, update_ready, dpms, mode_changed, cursor_set, cursor_move, event_base,
  add_event_to_pending_list, flush_pending_events, Space,
}
use evdi.Gem.Handles.{gem_object_handle_lookup}
use evdi.World.{World}
use evdi.Cursor.{Cursor}
use evdi.Painter.State.{Painter, Env, Device}

-- `drm_event_cancel_free`
abbrev pub cancel : World → Event → World
cancel w event = record w { cancelled = event ∷ w.cancelled }

-- the flush, with the work scheduled again if it leaves something
pub flush_and_reschedule : Space → Painter → World → Painter × World
flush_and_reschedule has_space p w =
    let (box, flushed_all) =
      flush_pending_events has_space (record { sent = w.sent; pending = p.pending_events }) in
    (
      record p { pending_events = box.pending; work_pending = not flushed_all },
      record w { sent = box.sent },
    )

pub queue_event : Space → Painter → World → Event → Painter × World
queue_event has_space p w event =
    let queued = record p { pending_events = add_event_to_pending_list p.pending_events event } in
    if p.work_pending then (queued, w) else flush_and_reschedule has_space queued w

pub send_event : Space → Painter → World → Option Event → Painter × World
send_event has_space p w none = (p, w)
send_event has_space p w (some event) =
    if not (is_some p.drm_filp)
    then (p, cancel w event)
    else if not p.has_drm_device
    then (p, cancel w event)
    else if not p.is_connected
    then (p, cancel w event)
    else queue_event has_space p w event

-- The delayed work: it is no longer scheduled when it starts.
pub send_events_work : Space → Painter → World → Painter × World
send_events_work has_space p w =
    flush_and_reschedule has_space (record p { work_pending = false }) w

-- `create_*_event`: `none` if the allocation fails
abbrev pub create : Env → ℕ → Event → Option Event
create env kind event = if env.alloc_event (event_base + kind) then some event else none

unfoldable pub send_update_ready : Env → Painter → World → Painter × World
send_update_ready env p w = send_event env.has_space p w (create env 0 update_ready)

unfoldable pub send_dpms : Env → Painter → World → ℕ → Painter × World
send_dpms env p w mode = send_event env.has_space p w (create env 1 (dpms mode))

-- `struct drm_display_mode`; `vrefresh` stands for `drm_mode_vrefresh` of it.
pub record DisplayMode : Type 0 where
  pub hdisplay : ℕ
  pub vdisplay : ℕ
  pub vrefresh : ℕ

abbrev pub send_mode_changed : Env → Painter → World → DisplayMode → ℕ → ℕ → Painter × World
send_mode_changed env p w mode bits_per_pixel pixel_format = send_event env.has_space p w (
    create env 2 (
      mode_changed (record {
        hdisplay = mode.hdisplay;
        vdisplay = mode.vdisplay;
        vrefresh = mode.vrefresh;
        bits_per_pixel = bits_per_pixel;
        pixel_format = pixel_format;
      })))

handle_or_create : Env → ℕ → ℕ → ℕ
handle_or_create env id found =
    if found == 0 then elim (env.handle_create id) [ ok handle ↦ handle | err _ ↦ 0 ] else found

pub get_gem_handle : Env → Option ℕ → ℕ
unfolding handle_or_create
get_gem_handle env none = 0
get_gem_handle env (some id) = handle_or_create env id (gem_object_handle_lookup env.handles id)

-- `obj->base.size`, a `size_t` stored into 32 bits
object_length : World → Option ℕ → ℕ
object_length w none = 0
object_length w (some id) = (w.gems id).size % 2 ^ 32

pub cursor_set_event : Env → World → Cursor → Event
unfolding object_length
cursor_set_event env w cursor =
    let handle = get_gem_handle env cursor.obj in
    cursor_set (record {
      hot_x = cursor.hot_x;
      hot_y = cursor.hot_y;
      width = cursor.width;
      height = cursor.height;
      enabled = if handle == 0 then false else cursor.enabled;
      buffer_handle = handle;
      buffer_length = if handle == 0 then 0 else object_length w cursor.obj;
      pixel_format = cursor.pixel_format;
      stride = cursor.stride;
    })

abbrev pub send_cursor_set : Env → Painter → World → Cursor → Painter × World
send_cursor_set env p w cursor =
    send_event env.has_space p w (create env 4 (cursor_set_event env w cursor))

abbrev pub send_cursor_move : Env → Painter → World → Cursor → Painter × World
send_cursor_move env p w cursor =
    send_event env.has_space p w
      (create env 5 (cursor_move (record { x = cursor.x; y = cursor.y })))
