-- ===== src/Compat.antt =====
-- The requests of 32-bit processes (module/evdi_ioc32.c): their arguments are converted, and passed to the
-- operations of Painter. Which ioctls are converted is told by a table.
pub mod Grabbed
use evdi.Prelude.{
  ℕ, ◌-◌, Bool, true, false, not, ◌||◌, List, [], ◌∷◌, Option, none, some, ◌==◌, ltb, leb,
  if◌then◌else◌, get_or,
}
use evdi.Prelude.Int.{ℤ, pos}
use evdi.Errno.{Status, err, efault, is_ok}
use evdi.Painter.State.{Device, Env}
use evdi.Painter.Connect.{ConnectArgs, painter_connect_ioctl}
use evdi.Painter.Pixels.{User}
use evdi.Painter.Grab.{GrabArgs, GrabEnv, GrabOut, grabpix_ioctl}

-- `struct drm_evdi_connect32`; a pointer is a number of 32 bits.
pub record Connect32 : Type 0 where
  pub connected : ℕ
  pub dev_index : ℕ
  pub edid_ptr32 : ℕ
  pub edid_length : ℕ
  pub pixel_area_limit : ℕ
  pub pixel_per_second_limit : ℕ

-- `struct drm_evdi_grabpix32`
pub record Grabpix32 : Type 0 where
  pub mode : ℕ
  pub buf_width : ℤ
  pub buf_height : ℤ
  pub buf_byte_stride : ℤ
  pub buffer_ptr32 : ℕ
  pub num_rects : ℤ
  pub rects_ptr32 : ℕ

-- The arguments of the 64-bit requests, with what can be read at an address of the process.
abbrev pub connect_of : (ℕ → Option (List ℕ)) → Connect32 → ConnectArgs
connect_of memory req = record {
  connected = not (req.connected == 0);
  edid = memory req.edid_ptr32;
  edid_length = req.edid_length;
  pixel_area_limit = req.pixel_area_limit;
  pixel_per_second_limit = req.pixel_per_second_limit;
}

abbrev pub grab_of : Grabpix32 → GrabArgs
grab_of req = record {
  mode = req.mode;
  buf_width = req.buf_width;
  buf_height = req.buf_height;
  buf_byte_stride = req.buf_byte_stride;
  num_rects = req.num_rects;
}

-- a request that cannot be read is `none`
pub compat_connect :
    Env → Device → ℕ → (ℕ → Option (List ℕ)) → Option Connect32 → Bool → Device × Status
compat_connect env d file memory none alloc = (d, err efault)
compat_connect env d file memory (some req) alloc =
    painter_connect_ioctl env d file (connect_of memory req) alloc

-- Only after a success is the number of rectangles written to the process, if its struct can be written.
pub grab_answer : Grabpix32 → Bool → GrabOut → GrabOut
grab_answer req copies out =
    if not (is_ok out.status)
    then record out { num_rects = req.num_rects }
    else if not copies
    then record out { status = err efault; num_rects = req.num_rects }
    else out

pub compat_grabpix : GrabEnv → Device → Option Grabpix32 → Bool → User → Device × GrabOut
unfolding grab_answer
compat_grabpix env d none copies user =
    (d, record { status = err efault; num_rects = pos 0; rects = none; user = user })
compat_grabpix env d (some req) copies user =
    let (d', out) = grabpix_ioctl env d (grab_of req) user in (d', grab_answer req copies out)

-- who handles a request
pub data Route : Type 0 where
  core_compat : Route
  connect32 : Route
  grabpix32 : Route
  native : Route

-- `DRM_COMMAND_BASE` and `DRM_COMMAND_END`
abbrev pub command_base : ℕ
command_base = 0x40

abbrev pub command_end : ℕ
command_end = 0xa0

-- `evdi_compat_ioctls`: the entry between the two is NULL
abbrev pub compat_ioctls : List (Option Route)
compat_ioctls = some connect32 ∷ none ∷ some grabpix32 ∷ []

unfoldable pub compat_route : ℕ → Route
compat_route nr =
    if ltb nr command_base || leb command_end nr
    then core_compat
    else elim (get_or compat_ioctls (nr - command_base) none) [ none ↦ native | some fn ↦ fn ]
