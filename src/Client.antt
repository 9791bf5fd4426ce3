-- ===== src/Client.antt =====
-- The user library (library/evdi_lib.c): its handles, and what it asks of the kernel. The kernel is a
-- parameter, a record of system calls on a state of its own.
pub mod Text
pub mod Ioctl
pub mod Procfs
pub mod Driver
pub mod Buffers
pub mod Requests
pub mod Grab
pub mod Events
pub mod Cards
pub mod Handles
use evdi.Prelude.{
  ℕ, zero, suc, Bool, true, false, ◌&&◌, ◌||◌, List, [], ◌∷◌, Option, none, some, ◌==◌,
}
use evdi.Prelude.Int.{ℤ, pos, negsuc, eq_ℤ}
use evdi.Rect.{Rect}
use evdi.Client.Text.{Bytes}

-- `struct evdi_buffer`. The addresses, and an id as its bit pattern, are numbers.
pub record Buffer : Type 0 where
  pub id : ℕ
  pub buffer : ℕ
  pub width : ℤ
  pub height : ℤ
  pub stride : ℤ
  pub rects : ℕ
  pub rect_count : ℤ

-- `struct evdi_device_context`; the list is the chain of `evdi_frame_buffer_node`s.
pub record Context : Type 0 where
  pub fd : ℕ
  pub buffer_to_update : ℕ
  pub frame_buffers : List Buffer
  pub device_index : ℕ

-- the arguments of the connect ioctl; `edid` is the user's address, which may be NULL
pub record ConnectCmd : Type 0 where
  pub connected : ℕ
  pub dev_index : ℕ
  pub edid : Option (List ℕ)
  pub edid_length : ℕ
  pub pixel_area_limit : ℕ
  pub pixel_per_second_limit : ℕ

pub record GrabCmd : Type 0 where
  pub mode : ℕ
  pub buf_width : ℤ
  pub buf_height : ℤ
  pub buf_byte_stride : ℤ
  pub buffer : ℕ
  pub num_rects : ℤ

-- The ioctls with their arguments; of `struct drm_version`, the kernel reads `name_len`.
pub data Request : Type 0 where
  auth_magic : ℕ → Request
  drop_master : Request
  version : ℕ → Request
  connect : ConnectCmd → Request
  grabpix : GrabCmd → Request
  request_update : Request
  ddcci_response : List ℕ → ℕ → Bool → Request
  enable_cursor_events : Bool → Request
  map_dumb : ℕ → Request

-- `struct drm_version`: the length of the driver's name, and what the kernel wrote of the name into the
-- array of 64 zeros
pub record Version : Type 0 where
  pub version_major : ℤ
  pub version_minor : ℤ
  pub version_patchlevel : ℤ
  pub name_len : ℕ
  pub name : Bytes

-- what an ioctl left in its argument
pub data Payload : Type 0 where
  nothing : Payload
  version_of : Version → Payload
  grabbed : ℤ → List Rect → Payload
  dumb_offset : ℕ → Payload

-- the result of the call, `errno`, and the argument afterwards
pub record Reply : Type 0 where
  pub code : ℤ
  pub errno : ℕ
  pub payload : Payload

abbrev pub eintr : ℕ
eintr = 4

abbrev pub eagain : ℕ
eagain = 11

abbrev pub eacces : ℕ
eacces = 13

-- The system calls, on the state `S` of the kernel and of the files: an ioctl, the opening of a path for
-- reading and writing, closing, mapping a dumb buffer at an offset (its bytes, or a failure), and
-- sleeping for some microseconds. `patience` bounds how often a call is interrupted.
pub record Os (S : Type 0) : Type 0 where
  pub ioctl : S → ℕ → Request → S × Reply
  pub patience : ℕ
  pub open_path : S → Bytes → S × Option ℕ
  pub close_fd : S → ℕ → S
  pub mmap : S → ℕ → ℕ → ℕ → Option (List ℕ)
  pub usleep : S → ℕ → S
