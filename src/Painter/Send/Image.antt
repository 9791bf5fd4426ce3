-- ===== src/Painter/Send/Image.antt =====
-- The cursor events: what they say of the cursor's buffer.
use evdi.Prelude.{ℕ, ◌≡◌, ◌≢◌, true, false, Option, none, some, arith, is_some}
use evdi.Gem.Handles.{gem_object_handle_lookup}
use evdi.Event.{Event, CursorSet, cursor_set}
use evdi.World.{World}
use evdi.Cursor.{Cursor}
use evdi.Painter.State.{Env}
use evdi.Painter.Send.{get_gem_handle, handle_or_create, cursor_set_event}

-- A handle that the file has is used again, and no other is made.
pub get_gem_handle_lem :
    (env : Env) (id : ℕ)
    → gem_object_handle_lookup env.handles id ≢ 0
    → get_gem_handle env (some id) ≡ gem_object_handle_lookup env.handles id
unfolding get_gem_handle handle_or_create
get_gem_handle_lem env id h = ground arith

abbrev pub image_of : Event → Option CursorSet
image_of (cursor_set image) = some image
image_of _ = none

-- A cursor that is shown to the client has a buffer that the client has a handle of; without a handle it
-- is said to be off and to have no bytes.
pub cursor_set_event_lem :
    (env : Env) (w : World) (cursor : Cursor) (image : CursorSet)
    → image_of (cursor_set_event env w cursor) ≡ some image
    → (image.enabled ≡ true
        → (image.buffer_handle ≢ 0) × (cursor.enabled ≡ true) × (is_some cursor.obj ≡ true))
      × (image.buffer_handle ≡ 0 → (image.enabled ≡ false) × (image.buffer_length ≡ 0))
unfolding cursor_set_event get_gem_handle
cursor_set_event_lem env w cursor image h = ground arith
