-- ===== src/Painter/Grab.antt =====
-- `evdi_painter_grabpix_ioctl`: the client takes the dirty rectangles and their pixels.
pub mod Cases
pub mod Rects
pub mod Refs
pub mod Kept
use evdi.Prelude.{
  ℕ, ◌+◌, ◌*◌, ◌^◌, ◌%◌, ◌/◌, Bool, true, false, not, ◌&&◌, List, [], ◌∷◌, Option, none, some, ltb,
  ◌==◌, if◌then◌else◌, take, is_some,
}
use evdi.Prelude.Int.{ℤ, pos, ltb_ℤ, eq_ℤ, to_u32, to_s32, ◌+ℤ◌}
use evdi.Errno.{Errno, Result, ok, err, Status, done, is_ok, einval, enomem, efault, eagain, enodev}
use evdi.Gem.{GemObject, MapEnv, Memory, DmaBuf, gem_vmap}
use evdi.World.{World, Framebuffer, store_gem}
use evdi.Rect.{Rect, Dirts, merge_dirty_rects, collapse_dirty_rects}
use evdi.Cursor.{Cursor, Scene, Writes, byte_of, cursor_compose_and_copy}
use evdi.Painter.State.{Painter, Device}
use evdi.Painter.Dirty.{dirts_of, with_dirts}
use evdi.Painter.Vblank.{send_vblank_event}
use evdi.Painter.Connect.{get_fb, put_fb}
use evdi.Painter.Pixels.{Source, User, copy_primary_pixels}

-- `struct drm_evdi_grabpix`, but for the user's addresses. The four sizes are `int32_t`s.
pub record GrabArgs : Type 0 where
  pub mode : ℕ
  pub buf_width : ℤ
  pub buf_height : ℤ
  pub buf_byte_stride : ℤ
  pub num_rects : ℤ

-- What the kernel answers: how the buffer is mapped, whether the rectangles can be copied out, whether
-- access to an imported buffer begins, which copies of pixels succeed, the memory before a mapping, and
-- the bits of the cursor's pixel format.
pub record GrabEnv : Type 0 where
  pub mapping : MapEnv
  pub copies_rects : Bool
  pub begin_access : DmaBuf → Status
  pub copies : ℤ → ℤ → Bool
  pub before : ℕ → ℕ
  pub cursor_bits : ℕ

-- `num_rects` of the arguments afterwards, what was written to the user's `rects`, if anything, and
-- the user's pixel buffer
pub record GrabOut : Type 0 where
  pub status : Status
  pub num_rects : ℤ
  pub rects : Option (List Rect)
  pub user : User

abbrev pub grab_mode_dirty : ℕ
grab_mode_dirty = 1

-- The painter's array is merged, and collapsed if it still has more entries than the client has space for.
unfoldable pub grab_rects : Dirts → ℤ → Dirts
grab_rects d num_rects =
    let merged = merge_dirty_rects d in
    if ltb_ℤ num_rects (pos merged.1) then collapse_dirty_rects merged else merged

-- one 32-bit value in the user's buffer, at the offset that the pattern is as an `int`
put_value : User → ℕ → ℕ → User
put_value user offset value i =
    let start = to_s32 offset in
    if eq_ℤ i start
    then byte_of 0 value
    else if eq_ℤ i (start +ℤ pos 1)
    then byte_of 1 value
    else if eq_ℤ i (start +ℤ pos 2)
    then byte_of 2 value
    else if eq_ℤ i (start +ℤ pos 3)
    then byte_of 3 value
    else user i

put_values : User → List (ℕ × ℕ) → User
unfolding put_value
put_values user [] = user
put_values user ((offset, value) ∷ rest) = put_values (put_value user offset value) rest

-- `copy_cursor_pixels`: an error is only logged.
pub copy_cursor_pixels : GrabEnv → World → Cursor → Framebuffer → Memory → ℤ → User → User
unfolding put_values
copy_cursor_pixels env w cursor fb vmapping stride user =
    put_values user
      (cursor_compose_and_copy w
        (record {
          cursor = cursor;
          fb = fb;
          cursor_buffer = vmapping;
          fb_buffer = vmapping;
          buf_byte_stride = to_u32 stride;
          copies = λ offset. env.copies (to_s32 offset) (pos 4);
        })
        env.cursor_bits).1

-- with access to the mapped bytes
abbrev pub grab_copy :
    GrabEnv → Device → GrabArgs → Framebuffer → Memory → List Rect → User → Status × User
grab_copy env d cmd fb vmapping rects user =
    let (status, copied) =
      copy_primary_pixels
        (record {
          fb = fb;
          vmapping = vmapping;
          before = env.before;
          buf_byte_stride = cmd.buf_byte_stride;
          copies = env.copies;
        })
        rects cmd.buf_width cmd.buf_height user in
    if is_ok status && not d.cursor_events_enabled
    then (status, copy_cursor_pixels env d.world d.cursor fb vmapping cmd.buf_byte_stride copied)
    else (status, copied)

-- an imported buffer is read between `dma_buf_begin_cpu_access` and its end
begins : GrabEnv → Option DmaBuf → Bool
begins env none = true
begins env (some dmabuf) = is_ok (env.begin_access dmabuf)

-- with the buffer mapped: the dimensions, the rectangles, and the copy
unfoldable pub grab_mapped :
    GrabEnv → Device → GrabArgs → Framebuffer → GemObject → Memory → List Rect → User → GrabOut
unfolding begins
grab_mapped env d cmd fb obj vmapping rects user =
    let out : Status → Option (List Rect) → User → GrabOut = λ status written after. record {
      status = status;
      num_rects = cmd.num_rects;
      rects = written;
      user = after;
    } in
    let (status, copied) = grab_copy env d cmd fb vmapping rects user in
    if not (to_u32 cmd.buf_width == fb.width && to_u32 cmd.buf_height == fb.height)
    then out (err einval) none user
    else if not env.copies_rects
    then out (err efault) none user
    else if not (begins env obj.import_attach)
    then out (err efault) (some rects) user
    else out status (some rects) copied

-- the object with a mapping, unless it cannot be had
abbrev pub mapped_object : MapEnv → GemObject → GemObject
mapped_object env obj = if is_some obj.vmapping then obj else (gem_vmap env obj).1

-- whether `evdi_gem_vmap` was called and said -ENOMEM
map_failed : MapEnv → GemObject → Bool
map_failed env obj =
    if is_some obj.vmapping
    then false
    else elim (gem_vmap env obj).0 [ err enomem ↦ true | _ ↦ false ]

grab_vmapping :
    GrabEnv
    → Device
    → GrabArgs
    → Framebuffer
    → GemObject
    → Option Memory
    → List Rect
    → User
    → GrabOut
grab_vmapping env d cmd fb obj none rects user = record {
  status = err efault;
  num_rects = cmd.num_rects;
  rects = none;
  user = user;
}
grab_vmapping env d cmd fb obj (some vmapping) rects user =
    grab_mapped env d cmd fb obj vmapping rects user

-- with a reference to the framebuffer: what the caller gets, and the store of objects
unfoldable pub grab_framebuffer :
    GrabEnv → Device → GrabArgs → Framebuffer → List Rect → User → GrabOut × (ℕ → GemObject)
unfolding map_failed grab_vmapping
grab_framebuffer env d cmd fb rects user =
    let obj = d.world.gems fb.obj in
    let mapped = mapped_object env.mapping obj in
    let gems = store_gem d.world.gems fb.obj mapped in
    let d' = record d { world = record d.world { gems = gems } } in
    let out =
      if map_failed env.mapping obj
      then record { status = err efault; num_rects = cmd.num_rects; rects = none; user = user }
      else grab_vmapping env d' cmd fb mapped mapped.vmapping rects user in
    (out, gems)

-- The painter that the lock is dropped with: nothing dirty, and no vertical blank held.
abbrev pub grabbed_painter : Painter → Dirts → Painter
grabbed_painter p d = record (with_dirts p d) { num_dirts = 0; crtc = none; vblank = none }

pub grab_painter :
    GrabEnv → Device → GrabArgs → Painter → Dirts → Option Framebuffer → User → Device × GrabOut
grab_painter env d cmd p dirts none user = (
  record d { painter = some (with_dirts p dirts) },
  record { status = err eagain; num_rects = pos dirts.1; rects = none; user = user },
)
grab_painter env d cmd p dirts (some fb) user =
    let d' = record d {
      painter = some (grabbed_painter p dirts);
      world = get_fb (some fb) d.world;
    } in
    let (out, gems) =
      grab_framebuffer env d' (record cmd { num_rects = pos dirts.1 }) fb (take dirts.1 dirts.0)
        user in
    (
      record d' {
        world =
            put_fb (some fb) (send_vblank_event p.crtc p.vblank (record d'.world { gems = gems }));
      },
      out,
    )

-- an error before the painter was touched
abbrev pub refused : Device → GrabArgs → User → Errno → Device × GrabOut
refused d cmd user e =
    (d, record { status = err e; num_rects = cmd.num_rects; rects = none; user = user })

unfoldable pub grabpix_ioctl : GrabEnv → Device → GrabArgs → User → Device × GrabOut
unfolding grab_painter
grabpix_ioctl env d cmd user =
    if not (cmd.mode == grab_mode_dirty)
    then refused d cmd user einval
    else if ltb_ℤ cmd.num_rects (pos 1)
    then refused d cmd user einval
    else elim d.painter [
      | none ↦ refused d cmd user enodev
      | some p ↦ grab_painter env d cmd p (grab_rects (dirts_of p) cmd.num_rects) p.scanout_fb user
    ]
