-- ===== src/Cursor.antt =====
-- The hardware cursor: module/evdi_cursor.c. Signed fields are 32-bit patterns, read by `to_s32`.
-- The cursor's mutex is not modelled: each operation is one step.
pub mod Blend
pub mod Compose
pub mod Loops
pub mod Buffer
use Prim.Native.Nat.{bit_or}
use evdi.Prelude.{
  ℕ, zero, suc, ◌+◌, ◌-◌, ◌*◌, ◌/◌, ◌%◌, ◌^◌, Bool, true, false, not, ◌&&◌, ◌||◌, List, [], ◌∷◌,
  Option, none, some, ltb, leb, ◌==◌, if◌then◌else◌, is_some,
}
use evdi.Prelude.Int.{ℤ, pos, ◌+ℤ◌, to_s32, to_u32, wrap32, ltb_ℤ, leb_ℤ}
use evdi.Errno.{Errno, Result, ok, err, Status, done, einval, efault, enomem}
use evdi.Gem.{GemObject, MapEnv, Memory, gem_vmap}
use evdi.World.{World, Framebuffer, store_gem, add_ref}

pub record Cursor : Type 0 where
  pub enabled : Bool
  pub x : ℕ
  pub y : ℕ
  pub width : ℕ
  pub height : ℕ
  pub hot_x : ℕ
  pub hot_y : ℕ
  pub pixel_format : ℕ
  pub stride : ℕ
  pub obj : Option ℕ

unfoldable pub cursor_set_gem : Cursor → World → Option ℕ → Cursor × World
cursor_set_gem cursor w obj = (
  record cursor { obj = obj },
  record w { gem_gets = add_ref obj w.gem_gets; gem_puts = add_ref cursor.obj w.gem_puts },
)

-- `kzalloc` of a cursor; the pointer must have been NULL.
abbrev pub cursor_init : Option Cursor → Bool → Result Cursor
cursor_init (some _) _ = err einval
cursor_init none false = err enomem
cursor_init none true = ok (record {
  enabled = false;
  x = 0;
  y = 0;
  width = 0;
  height = 0;
  hot_x = 0;
  hot_y = 0;
  pixel_format = 0;
  stride = 0;
  obj = none;
})

pub cursor_free : Option Cursor → World → World
unfolding cursor_set_gem
cursor_free none w = w
cursor_free (some cursor) w = (cursor_set_gem cursor w none).1

unfoldable pub cursor_enable : Cursor → World → Bool → Cursor × World
unfolding cursor_set_gem
cursor_enable cursor w enable =
    let after = record cursor { enabled = enable } in
    if enable then (after, w) else cursor_set_gem after w none

-- the object that is left after an attempt to map it, and the store
map_for_cursor : MapEnv → World → Option ℕ → Option ℕ × World
map_for_cursor env w none = (none, w)
map_for_cursor env w (some id) =
    let (status, mapped) = gem_vmap env (w.gems id) in
    if is_some (w.gems id).vmapping then (some id, w) else (
      elim status [ ok _ ↦ some id | err _ ↦ none ],
      record w { gems = store_gem w.gems id mapped },
    )

-- the fields that `evdi_cursor_set` is given
pub record Image : Type 0 where
  pub width : ℕ
  pub height : ℕ
  pub hot_x : ℕ
  pub hot_y : ℕ
  pub pixel_format : ℕ
  pub stride : ℕ

pub cursor_set : MapEnv → Cursor → World → Option ℕ → Image → Cursor × World
unfolding map_for_cursor cursor_set_gem
cursor_set env cursor w obj image =
    let (left, w') = map_for_cursor env w obj in
    cursor_set_gem
      (record cursor {
        enabled = is_some left;
        width = image.width;
        height = image.height;
        hot_x = image.hot_x;
        hot_y = image.hot_y;
        pixel_format = image.pixel_format;
        stride = image.stride;
      })
      w' left

abbrev pub cursor_move : Cursor → ℕ → ℕ → Cursor
cursor_move cursor x y = record cursor { x = x; y = y }

abbrev pub cursor_position : Cursor → ℕ × ℕ
cursor_position cursor = (cursor.x, cursor.y)

-- `uint32_t` arithmetic: `pixel * (255 - alpha) + blend * alpha`, then the division by 255 as a shift
pub blend_component : ℕ → ℕ → ℕ → ℕ
blend_component pixel blend alpha =
    let pre_blend = (pixel * ((255 + 2 ^ 32 - alpha) % 2 ^ 32) + blend * alpha) % 2 ^ 32 in
    (pre_blend + (pre_blend + 1) * 2 ^ 8 % 2 ^ 32) % 2 ^ 32 / 2 ^ 16

-- `(x & 0xff00) >> 8` and its like: the byte of a 32-bit value
abbrev pub byte_of : ℕ → ℕ → ℕ
byte_of k x = x / 2 ^ (8 * k) % 2 ^ 8

pub blend_alpha : ℕ → ℕ → ℕ
blend_alpha pixel_val32 blend_val32 =
    let alpha = blend_val32 / 2 ^ 24 in
    bit_or
      (bit_or (blend_component (byte_of 0 pixel_val32) (byte_of 0 blend_val32) alpha)
        (blend_component (byte_of 1 pixel_val32) (byte_of 1 blend_val32) alpha * 2 ^ 8 % 2 ^ 32))
      (blend_component (byte_of 2 pixel_val32) (byte_of 2 blend_val32) alpha * 2 ^ 16 % 2 ^ 32)

-- the 32-bit little-endian value at a byte offset
abbrev pub word_at : Memory → ℕ → ℕ
word_at mem i = mem i + mem (i + 1) * 2 ^ 8 + mem (i + 2) * 2 ^ 16 + mem (i + 3) * 2 ^ 24

-- What the two loops of `evdi_cursor_compose_and_copy` read; `copies` tells at which offset of the
-- user's buffer `copy_to_user` writes its four bytes.
pub record Scene : Type 0 where
  pub cursor : Cursor
  pub fb : Framebuffer
  pub cursor_buffer : Memory
  pub fb_buffer : Memory
  pub buf_byte_stride : ℕ
  pub copies : ℕ → Bool

pub data Pixel : Type 0 where
  outside : Pixel
  put : ℕ → ℕ → Pixel

-- `mouse_pix_x`, for `column` as `x + h_cursor_w`; likewise `mouse_pix_y`
abbrev pub mouse_pix : ℕ → ℕ → ℤ
mouse_pix origin column = wrap32 (to_s32 origin +ℤ pos column)

is_pix_sane : Framebuffer → ℤ → ℤ → Bool
is_pix_sane fb x y =
    leb_ℤ (pos 0) x && leb_ℤ (pos 0) y && ltb_ℤ x (to_s32 fb.width) && ltb_ℤ y (to_s32 fb.height)

-- the value composed at the pixel (x, y) of the framebuffer, and the offset it goes to. The offset is
-- the 32-bit pattern of an `int`. The index into the cursor's image is below 2 ^ 31 wherever an image of
-- fewer than 2 ^ 31 pixels is drawn; above, where the source's `int` is negative, the read is not modelled.
pub compose_at : Scene → ℕ → ℕ → ℤ → ℤ → Pixel
unfolding is_pix_sane
compose_at s row column x y =
    let cursor_pix = (column + row * s.cursor.width) % 2 ^ 32 in
    let curs_val = word_at s.cursor_buffer (4 * cursor_pix) in
    let fb_index = (s.fb.pitch / 4 * to_u32 y + to_u32 x) % 2 ^ 32 in
    let fb_value = word_at s.fb_buffer (s.fb.offset + 4 * fb_index) in
    let cmd_offset = (s.buf_byte_stride * to_u32 y + to_u32 x * 4) % 2 ^ 32 in
    if is_pix_sane s.fb x y then put cmd_offset (blend_alpha fb_value curs_val) else outside

-- `row` is `h_cursor_h + y` and `column` is `h_cursor_w + x`.
pub compose_pixel : Scene → ℕ → ℕ → Pixel
unfolding compose_at
compose_pixel s row column =
    compose_at s row column (mouse_pix s.cursor.x column) (mouse_pix s.cursor.y row)

-- the values written to the user's buffer, in order, and the status
abbrev pub Writes : Type 0
Writes = Status × List (ℕ × ℕ)

abbrev prepend : ℕ × ℕ → Writes → Writes
prepend w (status, rest) = (status, w ∷ rest)

put_pixel : Scene → Pixel → Writes → Writes
put_pixel s outside rest = rest
put_pixel s (put offset value) rest =
    if s.copies offset then prepend (offset, value) rest else (err efault, [])

-- the inner loop, `left` columns from `column` on
pub compose_row : Scene → ℕ → ℕ → ℕ → Writes
unfolding put_pixel
compose_row s row zero column = (done, [])
compose_row s row (suc left) column =
    let rest = compose_row s row left (column + 1) in put_pixel s (compose_pixel s row column) rest

-- one row's writes before those of the rows below, which are not drawn after a fault
abbrev and_then : Writes → Writes → Writes
and_then (err e, writes) rest = (err e, writes)
and_then (ok _, []) rest = rest
and_then (ok _, w ∷ ws) rest = prepend w (and_then (done, ws) rest)

pub compose_rows : Scene → ℕ → ℕ → Writes
compose_rows s zero row = (done, [])
compose_rows s (suc left) row =
    let rest = compose_rows s left (row + 1) in
    and_then (compose_row s row (s.cursor.width / 2 * 2) 0) rest

-- `bytespp` is DIV_ROUND_UP of what `evdi_fb_get_bpp` says of the cursor's format.
compose_mapped : World → Scene → ℕ → Option Memory → ℕ → Writes
compose_mapped w s bits none size = (err einval, [])
compose_mapped w s bits (some vmapping) size =
    let bytespp = (bits + 7) % 2 ^ 32 / 8 in
    if not (bytespp == 4)
    then (err einval, [])
    else if ltb size (s.cursor.width * s.cursor.height % 2 ^ 32 * bytespp % 2 ^ 32)
    then (err einval, [])
    else compose_rows (record s { cursor_buffer = vmapping }) (s.cursor.height / 2 * 2) 0

compose_object : World → Scene → ℕ → Option ℕ → Writes
unfolding compose_mapped
compose_object w s bits none = (err einval, [])
compose_object w s bits (some id) = compose_mapped w s bits (w.gems id).vmapping (w.gems id).size

-- `bits` is the answer of `evdi_fb_get_bpp`. The scene's cursor buffer is what the object maps.
pub cursor_compose_and_copy : World → Scene → ℕ → Writes
unfolding compose_object
cursor_compose_and_copy w s bits =
    if s.cursor.enabled then compose_object w s bits s.cursor.obj else (done, [])
