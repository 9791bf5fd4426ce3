-- ===== src/Client/Events/Shown.antt =====
-- What a client is told of the cursor.
use evdi.Prelude.{
  ℕ, ◌≡◌, refl, sym, ◌∙◌, arith, true, false, not, List, Option, none, some, if◌then◌else◌,
  if-cases,
}
use evdi.Prelude.Int.{pos, eq_ℤ}
use evdi.Event.{CursorSet, cursor_set}
use evdi.Client.{Os, Context, map_dumb}
use evdi.Client.Ioctl.{drm_ioctl}
use evdi.Client.Requests.{evdi_enable_cursor_events}
use evdi.Client.Events.{
  EventContext, CursorImage, dispatch, handle_cursor_set, hand_cursor, to_evdi_cursor_set,
  plain_image, offset_of, with_pixels,
}

-- what the module said, but for the pixels and whether it is on
abbrev pub SameShape : CursorImage → CursorSet → Type 0
SameShape image event =
    (image.hot_x ≡ event.hot_x)
    × (image.hot_y ≡ event.hot_y)
    × (image.width ≡ event.width)
    × (image.height ≡ event.height)
    × (image.pixel_format ≡ event.pixel_format)
    × (image.stride ≡ event.stride)

module _ {S : Type 0} (os : Os S) (s : S) (handle : Context) (event : CursorSet) where
  -- the kernel's state once the cursor's buffer has been asked for
  abbrev pub asked : S
  asked = (drm_ioctl os s handle.fd (map_dumb event.buffer_handle)).0

  -- the pixels that the kernel gives, where it gives the offset of the buffer and maps it
  abbrev pub given : Option (List ℕ)
  given =
      let reply = (drm_ioctl os s handle.fd (map_dumb event.buffer_handle)).1 in
      if eq_ℤ reply.code (pos 0)
      then os.mmap asked handle.fd event.buffer_length (offset_of reply.payload)
      else none

  -- An image of what the module said, with a kernel's state: one that is off, with nothing asked of the
  -- kernel, where the module's is off; the module's, with the pixels that the kernel gives; or, where it
  -- gives none, one that is off, after cursor events were switched off.
  abbrev pub Shown : CursorImage → S → Type 0
  Shown image state =
      SameShape image event
      × (event.enabled ≡ false → (image.enabled ≡ false) × (image.buffer ≡ none) × (state ≡ s))
      × ((pixels : List ℕ)
          → event.enabled ≡ true
          → given ≡ some pixels
          → (image.enabled ≡ true)
            × (image.buffer ≡ some pixels)
            × (image.buffer_length ≡ event.buffer_length)
            × (state ≡ asked))
      × (event.enabled ≡ true
          → given ≡ none
          → (image.enabled ≡ false)
            × (image.buffer ≡ none)
            × (state ≡ evdi_enable_cursor_events os asked handle false))

  -- the handler is called with such an image, in such a state, and that is all
  abbrev pub Shows : (CursorImage → S × Context → S × Context) → S × Context → Type 0
  Shows handler result =
      (image : CursorImage) × (state : S) × (result ≡ handler image (state, handle))
      × Shown image state

  module _ (handler : CursorImage → S × Context → S × Context) where
    -- which call `hand_cursor` makes of an image
    hand_off :
        (t : S) (image : CursorImage)
        → image.enabled ≡ false
        → hand_cursor os handler (t, handle) image ≡ handler image (t, handle)
    unfolding hand_cursor
    hand_off t image e = ground arith

    hand_blank :
        (t : S) (image : CursorImage)
        → image.enabled ≡ true
        → image.buffer ≡ none
        → hand_cursor os handler (t, handle) image
          ≡ handler
              (record image { enabled = false; buffer_length = 0 })
              (evdi_enable_cursor_events os t handle false, handle)
    unfolding hand_cursor
    hand_blank t image e b = ground arith

    hand_shown :
        (t : S) (image : CursorImage) (pixels : List ℕ)
        → image.buffer ≡ some pixels
        → hand_cursor os handler (t, handle) image ≡ handler image (t, handle)
    unfolding hand_cursor
    hand_shown t image pixels b = ground arith

    plain-Shows :
        event.enabled ≡ false
        → Shows handler (hand_cursor os handler (s, handle) (plain_image event))
    unfolding plain_image
    plain-Shows off = (
      _,
      s,
      hand_off s (plain_image event) off,
      ((refl, refl, refl, refl, refl, refl), λ _. (off, refl, refl), λ pixels on. cc, λ on. cc),
    )

    with_pixels-Shows :
        (pixels : Option (List ℕ))
        → event.enabled ≡ true
        → given ≡ pixels
        → Shows handler (
            hand_cursor os handler
              (asked, handle)
              (with_pixels (plain_image event) event.buffer_length pixels))
    unfolding with_pixels plain_image
    with_pixels-Shows none on g = (
      _,
      _,
      hand_blank asked (plain_image event) on refl,
      (
        (refl, refl, refl, refl, refl, refl),
        λ off. cc,
        λ pixels _ e. cc,
        λ _ _. (refl, refl, refl),
      ),
    )
    with_pixels-Shows (some pixels) on g = (
      _,
      _,
      hand_shown asked (with_pixels (plain_image event) event.buffer_length (some pixels)) pixels
          refl,
      (
        (refl, refl, refl, refl, refl, refl),
        λ off. cc,
        λ other _ e. (on, sym g ∙ e, refl, refl),
        λ _ e. cc,
      ),
    )

    to_evdi_cursor_set-Shows :
        let (t, image) = to_evdi_cursor_set os s handle event in
        Shows handler (hand_cursor os handler (t, handle) image)
    unfolding to_evdi_cursor_set with_pixels
    to_evdi_cursor_set-Shows =
        let Holds : S × CursorImage → Type 0 =
          λ r. Shows handler (hand_cursor os handler (r.0, handle) r.1) in
        let reply = (drm_ioctl os s handle.fd (map_dumb event.buffer_handle)).1 in
        let pixels = os.mmap asked handle.fd event.buffer_length (offset_of reply.payload) in
        if-cases Holds (not event.enabled) (s, plain_image event) _
          (λ off. plain-Shows (ground arith))
          (λ on.
            if-cases Holds (not (eq_ℤ reply.code (pos 0))) (asked, plain_image event)
              (asked, with_pixels (plain_image event) event.buffer_length pixels)
              (λ bad. with_pixels-Shows none (ground arith) (ground arith))
              (λ good. with_pixels-Shows pixels (ground arith) (ground arith)))

  -- Whatever the kernel answers, a client with a handler for cursors is told of a cursor event by one
  -- call of it, with the module's size, spot, format and stride: of a cursor that is off where the
  -- module's is off; of one that is on with the pixels of its buffer, where the kernel gives them; and
  -- where it does not, of one that is off, after cursor events were switched off.
  pub cursor_set-Shows :
      (ctx : EventContext S) (handler : CursorImage → S × Context → S × Context)
      → ctx.cursor_set_handler ≡ some handler
      → Shows handler (dispatch os ctx (cursor_set event) (s, handle))
  unfolding dispatch handle_cursor_set
  cursor_set-Shows ctx handler h = rw h (to_evdi_cursor_set-Shows handler)
