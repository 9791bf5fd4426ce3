-- ===== src/Platform.antt =====
-- The table of platform devices: module/evdi_platform_drv.c, with the device's own part in
-- module/evdi_platform_dev.c. The context's mutex is held through each call that changes the table.
-- Registering a platform device is taken to succeed: `evdi_platform_dev_create` follows the pointer
-- that it gets before anything tests it. An operation that follows the data of a device whose probe has
-- failed, which is NULL, has no result.
pub mod Count
pub mod Add
pub mod Removed
pub mod Link
use evdi.Prelude.{
  ℕ, zero, suc, ◌+◌, ◌-◌, ◌%◌, ◌^◌, Bool, true, false, not, ◌&&◌, List, [], ◌∷◌, Option, none, some,
  ltb, leb, ◌==◌, if◌then◌else◌, is_some, same_id, set, get_or, replicate,
}
use evdi.Errno.{Result, ok, err, Status, done, einval}

-- A `struct platform_device` with its `struct evdi_platform_device_data`: the bus's parent, whether a probe
-- has set the data, whether the DRM device has its `evdi_device`, whether its painter is connected, and the
-- parent it is linked to. Parents are identities.
pub record PlatformDevice : Type 0 where
  pub dev_parent : Option ℕ
  pub probed : Bool
  pub has_evdi : Bool
  pub is_connected : Bool
  pub symlinked : Bool
  pub parent : Option ℕ

abbrev pub device_count_max : ℕ
device_count_max = 16

abbrev pub Devices : Type 0
Devices = List (Option PlatformDevice)

-- `struct evdi_platform_drv_context`
pub record Context : Type 0 where
  pub dev_count : ℕ
  pub devices : Devices

-- `none` is here and below a NULL pointer that is followed.
unfoldable pub platform_device_is_free : PlatformDevice → Option Bool
platform_device_is_free pdev =
    if pdev.probed
    then some (pdev.has_evdi && not pdev.is_connected && not pdev.symlinked)
    else none

-- the index of the first NULL from `i` on
pub get_free_idx : Devices → ℕ → Option ℕ
get_free_idx [] i = none
get_free_idx (none ∷ rest) i = some i
get_free_idx (some _ ∷ rest) i = get_free_idx rest (i + 1)

unfoldable pub get_free_device : Devices → ℕ → Option (Option ℕ)
get_free_device [] i = some none
get_free_device (none ∷ rest) i = get_free_device rest (i + 1)
get_free_device (some pdev ∷ rest) i =
    let later = get_free_device rest (i + 1) in
    elim (platform_device_is_free pdev) [
      | none ↦ none
      | some free ↦ if free then some (some i) else later
    ]

-- The device that a probe leaves, with a painter that nobody has connected to; the probe may fail.
abbrev pub new_device : Bool → PlatformDevice
new_device probed = record {
  dev_parent = none;
  probed = probed;
  has_evdi = probed;
  is_connected = false;
  symlinked = false;
  parent = none;
}

pub create_new_device : Context → Bool → Result (Context × ℕ)
create_new_device ctx probed = elim (get_free_idx ctx.devices 0) [
  | none ↦ err einval
  | some id ↦
      if leb device_count_max ctx.dev_count
      then err einval
      else ok (
        record ctx {
          devices = set ctx.devices id (some (new_device probed));
          dev_count = (ctx.dev_count + 1) % 2 ^ 32;
        },
        id,
      )
]

-- `links` is whether `sysfs_create_link` succeeds.
pub platform_device_link : PlatformDevice → Option ℕ → Bool → Option PlatformDevice
platform_device_link pdev none links = some pdev
platform_device_link pdev (some parent) links = elim (platform_device_is_free pdev) [
  | none ↦ none
  | some free ↦
      some (if free && links then record pdev { symlinked = true; parent = some parent } else pdev)
]

abbrev pub store_at : Context → ℕ → PlatformDevice → Context
store_at ctx i pdev = record ctx { devices = set ctx.devices i (some pdev) }

-- the device of an entry, which stays where it is
pub link_at : Context → ℕ → Option ℕ → Bool → Option (Context × Status)
link_at ctx i parent links = elim (get_or ctx.devices i none) [
  | none ↦ some (ctx, done)
  | some pdev ↦ elim (platform_device_link pdev parent links) [
    | none ↦ none
    | some linked ↦ some (store_at ctx i linked, done)
  ]
]

-- the device that a parent takes over, if there is one
abbrev pub reusable : Context → Option ℕ → Option (Option ℕ)
reusable ctx none = some none
reusable ctx (some _) = get_free_device ctx.devices 0

add_new : Context → Option ℕ → Bool → Bool → Option (Context × Status)
add_new ctx parent probed links = elim (create_new_device ctx probed) [
  | ok (ctx', i) ↦ link_at ctx' i parent links
  | err e ↦ some (ctx, err einval)
]

pub platform_device_add : Context → Option ℕ → Bool → Bool → Option (Context × Status)
unfolding add_new
platform_device_add ctx parent probed links = elim (reusable ctx parent) [
  | none ↦ none
  | some none ↦ add_new ctx parent probed links
  | some (some i) ↦ link_at ctx i parent links
]

-- the loop, which stops at the first failure
pub add_loop : ℕ → Context → Bool → Option Context
add_loop zero ctx probed = some ctx
add_loop (suc val) ctx probed = elim (platform_device_add ctx none probed false) [
  | none ↦ none
  | some (ctx', ok _) ↦ add_loop val ctx' probed
  | some (ctx', err _) ↦ some ctx'
]

pub platform_add_devices : Context → ℕ → Bool → Option (Context × Status)
platform_add_devices ctx val probed =
    if val == 0
    then some (ctx, done)
    else if ltb ((device_count_max + 2 ^ 32 - ctx.dev_count) % 2 ^ 32) val
    then some (ctx, err einval)
    else elim (add_loop val ctx probed) [ none ↦ none | some ctx' ↦ some (ctx', done) ]

abbrev remove_all_slots : Devices → Devices
remove_all_slots [] = []
remove_all_slots (_ ∷ rest) = none ∷ remove_all_slots rest

pub platform_remove_all_devices : Context → Context
platform_remove_all_devices ctx = record { devices = remove_all_slots ctx.devices; dev_count = 0 }

unlink_if_linked_with : PlatformDevice → ℕ → Option PlatformDevice
unlink_if_linked_with pdev usb =
    if pdev.probed
    then some (
        if same_id pdev.parent (some usb)
        then record pdev { symlinked = false; parent = none }
        else pdev)
    else none

-- an entry before what the loop makes of the rest
abbrev before : Option PlatformDevice → Option (Devices × ℕ) → Option (Devices × ℕ)
before slot none = none
before slot (some (rest, count)) = some (slot ∷ rest, count)

-- The loop of `evdi_platform_drv_usb`, for a USB device that goes away. The count is an `unsigned int`.
pub usb_removed_from : ℕ → Devices → ℕ → Option (Devices × ℕ)
unfolding unlink_if_linked_with
usb_removed_from usb [] count = some ([], count)
usb_removed_from usb (none ∷ rest) count = before none (usb_removed_from usb rest count)
usb_removed_from usb (some pdev ∷ rest) count =
    let gone = same_id pdev.dev_parent (some usb) in
    let later = usb_removed_from usb rest (if gone then (count + 2 ^ 32 - 1) % 2 ^ 32 else count) in
    elim (unlink_if_linked_with pdev usb) [
      | none ↦ none
      | some unlinked ↦ before (if gone then none else some unlinked) later
    ]

pub platform_drv_usb : Context → Option ℕ → Bool → Option Context
platform_drv_usb ctx none removed = some ctx
platform_drv_usb ctx (some usb) false = some ctx
platform_drv_usb ctx (some usb) true = elim (usb_removed_from usb ctx.devices ctx.dev_count) [
  | none ↦ none
  | some (devices, count) ↦ some (record { devices = devices; dev_count = count })
]
