-- ===== src/Client/Handles.antt =====
-- The handles of library/evdi_lib.c: opening a card and closing it, and the table of the cards that this
-- process uses.
pub mod Table
pub mod Open
use evdi.Prelude.{
  ℕ, zero, suc, ◌+◌, Bool, true, false, not, ◌&&◌, List, [], ◌∷◌, Option, none, some, ◌==◌, ltb,
  if◌then◌else◌, length, set, take, map, same_id, is_some,
}
use evdi.Prelude.Int.{ℤ}
use evdi.Client.{Os, Context}
use evdi.Client.Text.{Bytes, is_prefix}
use evdi.Client.Procfs.{Process}
use evdi.Client.Driver.{open_device, is_evdi, is_evdi_compatible}
use evdi.Client.Cards.{
  Sysfs, Search, aborted, not_found, found, usage_len, get_generic_device,
  get_device_attached_to_usb,
}

-- The table `card_usage` and the handles that are allocated. A handle is an identity.
pub record Library : Type 0 where
  pub card_usage : List (Option ℕ)
  pub handles : ℕ → Option Context

abbrev pub store_handle : (ℕ → Option Context) → ℕ → Option Context → ℕ → Option Context
store_handle handles h ctx k = if h == k then ctx else handles k

abbrev pub fresh_context : ℕ → ℕ → Context
fresh_context fd device = record {
  fd = fd;
  buffer_to_update = 0;
  frame_buffers = [];
  device_index = device;
}

-- with the handle allocated
pub add_handle : Library → ℕ → ℕ → ℕ → Library
add_handle lib h fd device = record {
  card_usage = set lib.card_usage device (some h);
  handles = store_handle lib.handles h (some (fresh_context fd device));
}

-- every entry with the handle is cleared
pub forget_usage : ℕ → List (Option ℕ) → List (Option ℕ)
forget_usage h usage = map (λ entry. if same_id entry (some h) then none else entry) usage

-- `calloc` is NULL, or a handle
module _ {S : Type 0} (os : Os S) (proc : S → Option (List Process)) (myself : ℤ)
    (alloc : Option ℕ) where
  -- the driver's file of a version that fits; the version is asked for only if the driver is right
  pub is_usable : S → ℕ → S × Bool
  is_usable s fd =
      let (s1, ours) = is_evdi os s fd in
      let (s2, fits) = is_evdi_compatible os s1 fd in if ours then (s2, fits) else (s1, false)

  -- a file that gets no handle is closed
  pub make_handle : S → Library → ℕ → ℕ → Bool → Option ℕ → (S × Library) × Option ℕ
  unfolding add_handle
  make_handle s lib fd device true (some h) = ((s, add_handle lib h fd device), some h)
  make_handle s lib fd device true none = ((os.close_fd s fd, lib), none)
  make_handle s lib fd device false _ = ((os.close_fd s fd, lib), none)

  -- a descriptor of 0 is not taken for one
  pub with_descriptor : S → Library → Option ℕ → ℕ → (S × Library) × Option ℕ
  unfolding is_usable make_handle
  with_descriptor s lib none device = ((s, lib), none)
  with_descriptor s lib (some fd) device =
      let (s', usable) = is_usable s fd in
      if ltb 0 fd then make_handle s' lib fd device usable alloc else ((s, lib), none)

  pub evdi_open : S → Library → ℕ → (S × Library) × Option ℕ
  unfolding with_descriptor
  evdi_open s lib device =
      let (s', fd) = open_device os proc myself s device in with_descriptor s' lib fd device

  -- with the card that was found
  open_found : S → Library → Search → Option ((S × Library) × Option ℕ)
  unfolding evdi_open
  open_found s lib aborted = none
  open_found s lib not_found = some ((s, lib), none)
  open_found s lib (found d) =
      some (if ltb d usage_len then evdi_open s lib d else ((s, lib), none))

  -- `none` is a failed assertion. A parent that is neither NULL nor a USB device gets nothing; `gap` is
  -- that of the search.
  pub evdi_open_attached_to_fixed :
      Sysfs S → ℕ → S → Library → Option Bytes → Option ((S × Library) × Option ℕ)
  unfolding open_found
  evdi_open_attached_to_fixed sysfs gap s lib none =
      let (s', card) = get_generic_device sysfs gap lib.card_usage s in open_found s' lib card
  evdi_open_attached_to_fixed sysfs gap s lib (some parent) =
      let (s', card) = get_device_attached_to_usb sysfs gap lib.card_usage parent s in
      if ltb 4 (length parent) && is_prefix (b'u' ∷ b's' ∷ b'b' ∷ b':' ∷ []) parent
      then open_found s' lib card
      else some ((s, lib), none)

module _ {S : Type 0} (os : Os S) where
  -- the descriptor of a handle that is allocated
  close_context : S → Option Context → S
  close_context s none = s
  close_context s (some ctx) = os.close_fd s ctx.fd

  -- a handle of NULL is left alone
  pub evdi_close : S → Library → Option ℕ → S × Library
  unfolding close_context forget_usage
  evdi_close s lib none = (s, lib)
  evdi_close s lib (some h) = (
    close_context s (lib.handles h),
    record {
      card_usage = forget_usage h lib.card_usage;
      handles = store_handle lib.handles h none;
    },
  )
