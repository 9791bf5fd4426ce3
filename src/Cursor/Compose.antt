-- ===== src/Cursor/Compose.antt =====
-- Composing the cursor: where its pixels land, and that the loops read and write in range.
use evdi.Prelude.{ℕ, ◌+◌, ◌*◌, ◌/◌, ◌%◌, ◌^◌, ◌≤◌, ◌<◌, ◌≡◌, arith}
use evdi.Prelude.Int.{ℤ, pos, negsuc, to_s32, to_u32}
use evdi.Cursor.{Scene, put, word_at, blend_alpha, mouse_pix, compose_at, is_pix_sane}

-- Sizes at which no offset of the composition wraps, and rows of the user's buffer that hold a row of
-- the framebuffer.
pub record Fits (s : Scene) : Type 0 where
  pub width_small : s.fb.width < 2 ^ 31
  pub height_small : s.fb.height < 2 ^ 31
  pub row_fits : s.fb.width * 4 ≤ s.buf_byte_stride
  pub buffer_small : s.buf_byte_stride * s.fb.height < 2 ^ 32
  pub pitch_fits : s.fb.width * 4 ≤ s.fb.pitch
  pub source_small : s.fb.pitch * s.fb.height < 2 ^ 32
  pub cursor_small : s.cursor.width * s.cursor.height < 2 ^ 30

-- A write of the cursor's pixel (column, row), which is inside the cursor's image, at the pixel (x, y)
-- of the framebuffer, blended with what the framebuffer has there.
pub record Lands (s : Scene) (offset value : ℕ) : Type 0 where
  pub x : ℕ
  pub y : ℕ
  pub column : ℕ
  pub row : ℕ
  pub x_inside : x < s.fb.width
  pub y_inside : y < s.fb.height
  pub column_inside : column < s.cursor.width
  pub row_inside : row < s.cursor.height
  pub x_at : mouse_pix s.cursor.x column ≡ pos x
  pub y_at : mouse_pix s.cursor.y row ≡ pos y
  pub offset_at : offset ≡ s.buf_byte_stride * y + x * 4
  pub value_at :
      value
      ≡ blend_alpha
          (word_at s.fb_buffer (s.fb.offset + 4 * (s.fb.pitch / 4 * y + x)))
          (word_at s.cursor_buffer (4 * (column + row * s.cursor.width)))

to_u32_pos : (n : ℕ) → n < 2 ^ 32 → to_u32 (pos n) ≡ n
unfolding to_u32
to_u32_pos n h = omega arith

-- `x + row * stride` inside a table of `height` rows
cell_in_range : (x y w h : ℕ) → x < w → y < h → x + y * w < w * h
cell_in_range x y w h hx hy = grind arith

offset_in_range :
    (x y w h stride : ℕ) → x < w → y < h → w * 4 ≤ stride → stride * y + x * 4 + 4 ≤ stride * h
offset_in_range x y w h stride hx hy hs = omega (arith, rows)
  where
    rows : stride * y + stride ≤ stride * h
    rows = grind arith

at-inside :
    (s : Scene) (row column offset value x y : ℕ)
    → Fits s
    → compose_at s row column (pos x) (pos y) ≡ put offset value
    → (x < s.fb.width) × (y < s.fb.height)
unfolding compose_at is_pix_sane to_s32
at-inside s row column offset value x y f e = ground arith

-- the offsets of the composition, where nothing wraps
at-offsets :
    (s : Scene) (row column x y : ℕ)
    → Fits s
    → column < s.cursor.width
    → row < s.cursor.height
    → x < s.fb.width
    → y < s.fb.height
    → ((column + row * s.cursor.width) % 2 ^ 32 ≡ column + row * s.cursor.width)
      × ((s.fb.pitch / 4 * y + x) % 2 ^ 32 ≡ s.fb.pitch / 4 * y + x)
      × ((s.buf_byte_stride * y + x * 4) % 2 ^ 32 ≡ s.buf_byte_stride * y + x * 4)
at-offsets s row column x y f hc hr hx hy = (
  omega (arith, cell_in_range column row s.cursor.width s.cursor.height hc hr, f.cursor_small),
  omega (
    arith,
    offset_in_range x y s.fb.width s.fb.height s.fb.pitch hx hy f.pitch_fits,
    quarter,
    f.source_small,
  ),
  omega (
    arith,
    offset_in_range x y s.fb.width s.fb.height s.buf_byte_stride hx hy f.row_fits,
    f.buffer_small,
  ),
)
  where
    quarter : s.fb.pitch / 4 * y ≤ s.fb.pitch * y
    quarter = grind arith

at-value :
    (s : Scene) (row column offset value x y : ℕ)
    → Fits s
    → column < s.cursor.width
    → row < s.cursor.height
    → x < s.fb.width
    → y < s.fb.height
    → compose_at s row column (pos x) (pos y) ≡ put offset value
    → (offset ≡ s.buf_byte_stride * y + x * 4)
      × (value
          ≡ blend_alpha
              (word_at s.fb_buffer (s.fb.offset + 4 * (s.fb.pitch / 4 * y + x)))
              (word_at s.cursor_buffer (4 * (column + row * s.cursor.width))))
unfolding compose_at
at-value s row column offset value x y f hc hr hx hy e =
    let o = at-offsets s row column x y f hc hr hx hy in
    let ux = to_u32_pos x (omega (arith, f.width_small)) in
    let uy = to_u32_pos y (omega (arith, f.height_small)) in
    ground (arith, rw (ux, uy, o.0, o.1, o.2) at e)

pub at-Lands :
    (s : Scene) (row column offset value : ℕ) (x y : ℤ)
    → Fits s
    → column < s.cursor.width
    → row < s.cursor.height
    → mouse_pix s.cursor.x column ≡ x
    → mouse_pix s.cursor.y row ≡ y
    → compose_at s row column x y ≡ put offset value
    → Lands s offset value
unfolding compose_at
at-Lands s row column offset value (pos x) (pos y) f hc hr ex ey e =
    let i = at-inside s row column offset value x y f e in
    let v = at-value s row column offset value x y f hc hr i.0 i.1 e in
    record {
      x = x;
      y = y;
      column = column;
      row = row;
      x_inside = i.0;
      y_inside = i.1;
      column_inside = hc;
      row_inside = hr;
      x_at = ex;
      y_at = ey;
      offset_at = v.0;
      value_at = v.1;
    }
at-Lands s row column offset value (pos x) (negsuc y) f hc hr ex ey e = absurd (ground arith)
at-Lands s row column offset value (negsuc x) y f hc hr ex ey e = absurd (ground arith)
