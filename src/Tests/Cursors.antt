-- ===== src/Tests/Cursors.antt =====
-- The cursor.
use evdi.Prelude.{ℕ, ◌≡◌, refl, true, some, arith}
use evdi.Errno.{done}
use evdi.World.{World}
use evdi.Cursor.{Cursor, Scene, Image, cursor_compose_and_copy, compose_pixel, put}
use evdi.Cursor.Compose.{Fits}
use evdi.Cursor.Loops.{AllLand, Wrote, InLoops, compose_lem}
use evdi.Tests.Data.{cursor_off, world, no_object, bytes, fb}

abbrev small_cursor : Cursor
small_cursor = record cursor_off {
  enabled = true;
  width = 2;
  height = 2;
  x = 1;
  y = 1;
  obj = some 3;
}

abbrev mapped_world : World
mapped_world = record world { gems = λ _. record no_object { vmapping = some bytes } }

abbrev scene : Scene
scene = record {
  cursor = small_cursor;
  fb = fb;
  cursor_buffer = bytes;
  fb_buffer = bytes;
  buf_byte_stride = 32;
  copies = λ _. true;
}

scene-Fits : Fits scene
scene-Fits = record {
  width_small = omega arith;
  height_small = omega arith;
  row_fits = omega arith;
  buffer_small = omega arith;
  pitch_fits = omega arith;
  source_small = omega arith;
  cursor_small = omega arith;
}

compose_lem_example :
    AllLand scene (cursor_compose_and_copy mapped_world scene 32).1
    × (((o : ℕ) → true ≡ true)
        → ((cursor_compose_and_copy mapped_world scene 32).0 ≡ done)
          × ((row column offset value : ℕ)
              → InLoops scene row column
              → compose_pixel scene row column ≡ put offset value
              → Wrote offset value (cursor_compose_and_copy mapped_world scene 32).1))
compose_lem_example = compose_lem mapped_world scene 3 bytes refl refl refl (omega arith) scene-Fits

abbrev image : Image
image = record { width = 2; height = 2; hot_x = 0; hot_y = 0; pixel_format = 0; stride = 8 }
