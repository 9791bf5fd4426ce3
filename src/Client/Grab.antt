-- ===== src/Client/Grab.antt =====
-- `evdi_grab_pixels` of library/evdi_lib.c: the client's side of a grab.
pub mod Module
pub mod Whole
use evdi.Prelude.{
  ℕ, zero, suc, ◌+◌, Bool, true, false, List, [], ◌∷◌, ◌++◌, Option, none, some, take, replicate,
  get_or, if◌then◌else◌,
}
use evdi.Prelude.Int.{ℤ, pos, negsuc, pos_part, eq_ℤ}
use evdi.Rect.{Rect, no_rect, max_dirts}
use evdi.Client.{Os, Context, Buffer, Reply, Payload, GrabCmd, grabpix, grabbed}
use evdi.Client.Ioctl.{drm_ioctl}
use evdi.Client.Buffers.{find_buffer}

-- The rectangles that the caller's array was given, from its start, and the caller's `num_rects`.
pub record Grabbed : Type 0 where
  pub rects : List Rect
  pub num_rects : ℤ

abbrev pub no_grab : Grabbed
no_grab = record { rects = []; num_rects = pos 0 }

-- `EVDI_GRABPIX_MODE_DIRTY`
abbrev pub grab_cmd : Buffer → GrabCmd
grab_cmd b = record {
  mode = 1;
  buf_width = b.width;
  buf_height = b.height;
  buf_byte_stride = b.stride;
  buffer = b.buffer;
  num_rects = pos max_dirts;
}

-- The array of 16 rectangles after the kernel wrote to its start. The module writes none before it fails
-- with an error that is repeated, so the last call's are all.
kernel_dirts : List Rect → List Rect
kernel_dirts written = take max_dirts (written ++ replicate max_dirts no_rect)

-- `for (; r < num_rects; ++r)`, with `left` rounds to go from `r`
pub copy_rects : ℕ → ℕ → List Rect → List Rect
copy_rects zero r dirts = []
copy_rects (suc left) r dirts = get_or dirts r no_rect ∷ copy_rects left (r + 1) dirts

-- a payload of another ioctl does not come back from this one
grabbed_of : Payload → Grabbed
unfolding copy_rects kernel_dirts
grabbed_of (grabbed num_rects written) = record {
  rects = copy_rects (pos_part num_rects) 0 (kernel_dirts written);
  num_rects = num_rects;
}
grabbed_of _ = no_grab

pub grab_result : Reply → Grabbed
unfolding grabbed_of
grab_result reply = if eq_ℤ reply.code (pos 0) then grabbed_of reply.payload else no_grab

module _ {S : Type 0} (os : Os S) where
  grab_into : S → Context → Option Buffer → S × Grabbed
  unfolding grab_result
  grab_into s handle none = (s, no_grab)
  grab_into s handle (some destination) =
      let (s', reply) = drm_ioctl os s handle.fd (grabpix (grab_cmd destination)) in
      (s', grab_result reply)

  pub evdi_grab_pixels : S → Context → S × Grabbed
  unfolding grab_into
  evdi_grab_pixels s handle =
      grab_into s handle (find_buffer handle.frame_buffers handle.buffer_to_update)
