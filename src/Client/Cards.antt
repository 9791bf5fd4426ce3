-- ===== src/Client/Cards.antt =====
-- Which card a client gets (library/evdi_lib.c): the search of /sys/bus/platform/devices for one that no
-- handle of this process uses, and the request for a new one. What the directories hold is a parameter.
pub mod Unused
use evdi.Prelude.{
  ℕ, zero, suc, ◌+◌, ◌-◌, ◌%◌, ◌^◌, Bool, true, false, not, ◌&&◌, List, [], ◌∷◌, ◌++◌, Option, none,
  some, ◌==◌, ltb, leb, if◌then◌else◌, length, take, drop, min, get_or, is_some,
}
use evdi.Prelude.Int.{ℤ, pos, negsuc, ltb_ℤ}
use evdi.Client.Text.{Bytes, bytes_eq, is_prefix, to_int, print_int}
use evdi.Client.Procfs.{path_max, any_of}
use evdi.Client.Driver.{evdi_name, card_path}

-- An entry of the platform's devices: its name, where its link `device` leads (`none` where there is no
-- link or it cannot be read), and the names in its directory `drm`.
pub record PlatformEntry : Type 0 where
  pub d_name : Bytes
  pub device_link : Option Bytes
  pub drm : Option (List Bytes)

-- What of sysfs the library uses: the platform's devices, writing to /sys/devices/evdi/add (the number
-- of bytes that were written), and whether a path exists.
pub record Sysfs (S : Type 0) : Type 0 where
  pub platform : S → Option (List PlatformEntry)
  pub write_add_device : S → Bytes → S × ℕ
  pub path_exists : S → Bytes → Bool

abbrev pub usage_len : ℕ
usage_len = 64

-- `EVDI_INVALID_DEVICE_INDEX`
abbrev pub invalid_device_index : ℤ
invalid_device_index = negsuc 0

abbrev pub card_name : Bytes
card_name = b'c' ∷ b'a' ∷ b'r' ∷ b'd' ∷ []

-- The last name that starts with "card" gives the index.
pub last_card : ℤ → List Bytes → ℤ
last_card dev_index [] = dev_index
last_card dev_index (d_name ∷ rest) =
    last_card (if is_prefix card_name d_name then to_int (drop 4 d_name) else dev_index) rest

pub get_drm_device_index : Option (List Bytes) → ℤ
unfolding last_card
get_drm_device_index none = invalid_device_index
get_drm_device_index (some names) = last_card invalid_device_index names

-- What follows the last slash. A link without one, for which the C code has no meaning, is taken whole.
pub last_token : Bytes → Bytes → Bytes
last_token token [] = token
last_token token (c ∷ s) = last_token (if c == b'/' then s else token) s

-- The second argument of `strnlen`, `parent_length - (parent_device_token - parent_device)`, as the `size_t`
-- that it is. `gap` is `link_resolution - parent_device`, as the address space has it: the two arrays are
-- not parts of one object. The token starts `offset` bytes into the link.
pub strnlen_bound : ℕ → ℕ → ℕ → ℕ
strnlen_bound gap offset parent_length = (parent_length + 2 ^ 64 - (gap + offset) % 2 ^ 64) % 2 ^ 64

pub is_same_device : ℕ → Bytes → Bytes → Bool
unfolding last_token strnlen_bound
is_same_device gap link parent =
    let token = last_token link link in
    let bound = strnlen_bound gap (length link - length token) (length parent) in
    let len = min (length token) bound in
    not (ltb (length parent) 2)
    && (length parent == len)
    && bytes_eq (take len token) (take len parent)

-- A link that fills the array is taken for an error.
link_leads_to : ℕ → Option Bytes → Bytes → Bool
unfolding is_same_device
link_leads_to gap none parent = false
link_leads_to gap (some link) parent =
    if leb path_max (length link) then false else is_same_device gap link parent

-- a `parent` of NULL asks for a device without a link
pub is_correct_parent_device : ℕ → Option Bytes → Option Bytes → Bool
unfolding link_leads_to
is_correct_parent_device gap link none = not (is_some link)
is_correct_parent_device gap link (some parent) = link_leads_to gap link parent

-- What a search comes to; `aborted` is a failed assertion.
pub data Search : Type 0 where
  aborted : Search
  not_found : Search
  found : ℕ → Search

module _ (gap : ℕ) (usage : List (Option ℕ)) (parent : Option Bytes) where
  pub is_candidate : PlatformEntry → Bool
  unfolding is_correct_parent_device
  is_candidate entry =
      is_prefix evdi_name entry.d_name && is_correct_parent_device gap entry.device_link parent

  -- the index of a candidate, which is asserted to be in the table; the search goes on past a used one
  take_card : ℤ → Search → Search
  take_card (negsuc _) rest = aborted
  take_card (pos dev_index) rest =
      if not (ltb dev_index usage_len)
      then aborted
      else if is_some (get_or usage dev_index none)
      then rest
      else found dev_index

  unfoldable pub search_entries : List PlatformEntry → Search
  unfolding is_candidate take_card get_drm_device_index
  search_entries [] = not_found
  search_entries (entry ∷ entries) =
      let rest = search_entries entries in
      let card = take_card (get_drm_device_index entry.drm) rest in
      if is_candidate entry then card else rest

  pub find_unused_card_for : Option (List PlatformEntry) → Search
  unfolding search_entries
  find_unused_card_for none = not_found
  find_unused_card_for (some entries) = search_entries entries

module _ {S : Type 0} (sysfs : Sysfs S) (gap : ℕ) (usage : List (Option ℕ)) where
  -- the search again, after a request for a new card, if it found nothing
  search_again : Option Bytes → Bytes → S → Search → S × Search
  unfolding find_unused_card_for
  search_again parent request s not_found =
      let (s', _) = sysfs.write_add_device s request in
      (s', find_unused_card_for gap usage parent (sysfs.platform s'))
  search_again parent request s aborted = (s, aborted)
  search_again parent request s (found d) = (s, found d)

  pub get_card : Option Bytes → Bytes → S → S × Search
  unfolding search_again find_unused_card_for
  get_card parent request s =
      search_again parent request s (find_unused_card_for gap usage parent (sysfs.platform s))

  pub get_generic_device : S → S × Search
  unfolding get_card
  get_generic_device s = get_card none (b'1' ∷ []) s

  -- "usb:" is cut off
  pub get_device_attached_to_usb : Bytes → S → S × Search
  unfolding get_card
  get_device_attached_to_usb sysfs_parent s =
      if ltb (length sysfs_parent) 4
      then (s, not_found)
      else get_card (some (drop 4 sysfs_parent)) sysfs_parent s

-- `enum evdi_device_status`
pub data DeviceStatus : Type 0 where
  available : DeviceStatus
  unrecognized : DeviceStatus
  not_present : DeviceStatus

-- an entry of the driver that has the card in its directory
has_card : Bytes → PlatformEntry → Bool
has_card name entry =
    is_prefix evdi_name entry.d_name
    && elim entry.drm [ none ↦ false | some names ↦ any_of (bytes_eq name) names ]

platform_status : Bytes → Option (List PlatformEntry) → DeviceStatus
unfolding has_card
platform_status name none = not_present
platform_status name (some entries) =
    if any_of (has_card name) entries then available else unrecognized

module _ {S : Type 0} (sysfs : Sysfs S) where
  pub evdi_check_device : S → ℕ → DeviceStatus
  unfolding platform_status
  evdi_check_device s device =
      if not (sysfs.path_exists s (card_path device))
      then not_present
      else platform_status (card_name ++ print_int device) (sysfs.platform s)

  pub evdi_add_device : S → S × ℕ
  evdi_add_device s = sysfs.write_add_device s (b'1' ∷ [])
