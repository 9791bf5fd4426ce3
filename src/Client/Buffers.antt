-- ===== src/Client/Buffers.antt =====
-- The buffers that a client of library/evdi_lib.c registered with its handle.
pub mod Registry
use evdi.Prelude.{
  ℕ, Bool, true, false, not, ◌||◌, List, [], ◌∷◌, Option, none, some, ◌==◌, if◌then◌else◌, is_some,
}
use evdi.Client.{Buffer, Context}

unfoldable pub find_buffer : List Buffer → ℕ → Option Buffer
find_buffer [] id = none
find_buffer (node ∷ next) id =
    let later = find_buffer next id in if node.id == id then some node else later

-- The chain is followed to its end.
pub add_frame_buffer : List Buffer → Buffer → List Buffer
add_frame_buffer [] frame_buffer = frame_buffer ∷ []
add_frame_buffer (node ∷ next) frame_buffer = node ∷ add_frame_buffer next frame_buffer

-- an `id` that is NULL matches every buffer
abbrev matches : Option ℕ → Buffer → Bool
matches none node = true
matches (some id) node = node.id == id

pub remove_frame_buffer : List Buffer → Option ℕ → List Buffer
remove_frame_buffer [] id = []
remove_frame_buffer (current ∷ next) id =
    let rest = remove_frame_buffer next id in if matches id current then rest else current ∷ rest

abbrev with_buffers : Context → List Buffer → Context
with_buffers handle buffers = record handle { frame_buffers = buffers }

-- `none` is a failed assertion.
pub register_buffer : Context → Buffer → Option Context
register_buffer handle buffer =
    if is_some (find_buffer handle.frame_buffers buffer.id)
    then none
    else some (with_buffers handle (add_frame_buffer handle.frame_buffers buffer))

pub unregister_buffer : Context → ℕ → Option Context
unregister_buffer handle buffer_id =
    if is_some (find_buffer handle.frame_buffers buffer_id)
    then some (with_buffers handle (remove_frame_buffer handle.frame_buffers (some buffer_id)))
    else none
