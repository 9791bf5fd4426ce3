-- ===== src/Sysfs.antt =====
-- The files under /sys/devices/evdi (module/evdi_sysfs.c): what is written to them is parsed, and devices are
-- added to the table of module/evdi_platform_drv.c.
pub mod Text
pub mod Usb
pub mod Attach
use evdi.Prelude.{
  ℕ, zero, suc, ◌+◌, ◌-◌, ◌*◌, ◌^◌, Bool, true, false, not, ◌&&◌, ◌||◌, List, [], ◌∷◌, ◌++◌, Option,
  none, some, ◌==◌, ltb, if◌then◌else◌, take, is_some,
}
use evdi.Errno.{Errno, Result, ok, err, Status, done, einval, enomem}
use evdi.Platform.{Context, platform_device_add, platform_add_devices, platform_remove_all_devices}
use evdi.Client.Text.{Bytes, contains, print_int}
use evdi.Sysfs.Text.{strsep, strim, strnstr, kstrtouint}

abbrev pub max_evdi_usb_addr : ℕ
max_evdi_usb_addr = 10

abbrev pub usb_prefix : Bytes
usb_prefix = b'u' ∷ b's' ∷ b'b' ∷ b':' ∷ []

-- a number before those that follow, if there is a text and all can be read
prepend : Option ℕ → Option (List ℕ) → Option (List ℕ)
prepend (some n) (some more) = some (n ∷ more)
prepend none more = none
prepend (some n) none = none

pub number_first : Option Bytes → Option (List ℕ) → Option (List ℕ)
unfolding prepend
number_first none more = none
number_first (some text) more = prepend (kstrtouint text) more

-- the ports behind the bus, `room` at most
pub parse_ports : ℕ → Option Bytes → Option (List ℕ)
unfolding number_first
parse_ports zero token = some []
parse_ports (suc room) token =
    let (port, rest) = strsep b'.' token in
    let ports = parse_ports room rest in number_first port (if is_some rest then ports else some [])

-- the bus and the ports of `bus-port.port...`
pub parse_addr : Bytes → Option (List ℕ)
unfolding parse_ports
parse_addr usb_token =
    let (bus, token) = strsep b'-' (some usb_token) in
    number_first bus (parse_ports (max_evdi_usb_addr - 1) token)

-- from "usb:" on: the token behind it, up to the next colon
unfoldable pub parse_usb_path : Bytes → ℕ → Option (List ℕ)
unfolding parse_addr
parse_usb_path buf count = elim (strnstr buf usb_prefix count) [
  | none ↦ none
  | some temp_path ↦
      let (_, behind) = strsep b':' (some (strim temp_path)) in
      let (usb_token, _) = strsep b':' behind in
      elim usb_token [ none ↦ none | some token ↦ parse_addr token ]
]

-- `struct usb_device`: its identity, the ports from it up to the root hub, whose own number is 0, and the
-- number of its bus.
pub record UsbDevice : Type 0 where
  pub id : ℕ
  pub portnums : List ℕ
  pub busnum : ℕ

abbrev pub port_of : ℕ → ℕ → ℕ
port_of busnum portnum = if portnum == 0 then busnum else portnum

-- `i` counts down over the address, while `pdev` goes up to the root.
pub walk_up : ℕ → List ℕ → List ℕ → Bool
walk_up busnum [] addr = false
walk_up busnum (portnum ∷ parents) [] = false
walk_up busnum (portnum ∷ parents) (a ∷ addr) =
    let further = walk_up busnum parents addr in
    if not (port_of busnum portnum == a)
    then false
    else elim parents [ [] ↦ elim addr [ [] ↦ true | _ ∷ _ ↦ further ] | _ ∷ _ ↦ further ]

-- the address from its last entry on
pub backwards : List ℕ → List ℕ → List ℕ
backwards [] done_part = done_part
backwards (a ∷ addr) done_part = backwards addr (a ∷ done_part)

pub find_usb_device_at_path : List ℕ → UsbDevice → Bool
unfolding walk_up backwards
find_usb_device_at_path addr usb = walk_up usb.busnum usb.portnums (backwards addr [])

-- `usb_for_each_dev` stops at the first device that is found.
pub find_usb : List ℕ → List UsbDevice → Option ℕ
unfolding find_usb_device_at_path
find_usb addr [] = none
find_usb addr (usb ∷ rest) =
    let later = find_usb addr rest in
    if find_usb_device_at_path addr usb then some usb.id else later

-- What happens to a device that is added: whether its probe succeeds and its link is made. `none` is a NULL
-- pointer that is followed.
pub platform_device_attach :
    List UsbDevice → Context → List ℕ → Bool → Bool → Option (Context × Status)
unfolding find_usb
platform_device_attach devices ctx addr probed links = elim (find_usb addr devices) [
  | none ↦ some (ctx, err einval)
  | some id ↦ platform_device_add ctx (some id) probed links
]

attached : ℕ → Option (Context × Status) → Option (Context × Result ℕ)
attached count none = none
attached count (some (ctx, ok _)) = some (ctx, ok count)
attached count (some (ctx, err _)) = some (ctx, err einval)

-- `alloc` is whether the text can be copied; the copy of its token is taken to succeed.
pub add_device_with_usb_path :
    List UsbDevice → Context → Bool → Bytes → ℕ → Bool → Bool → Option (Context × Result ℕ)
unfolding attached platform_device_attach
add_device_with_usb_path devices ctx alloc buf count probed links =
    if not alloc then some (ctx, err enomem) else elim (parse_usb_path buf count) [
      | none ↦ some (ctx, err einval)
      | some addr ↦ attached count (platform_device_attach devices ctx addr probed links)
    ]

added : ℕ → Option (Context × Status) → Option (Context × Result ℕ)
added count none = none
added count (some (ctx, ok _)) = some (ctx, ok count)
added count (some (ctx, err e)) = some (ctx, err e)

-- a number of devices, or the path of a USB device that one is for
unfoldable pub add_store :
    List UsbDevice → Context → Bool → Bytes → ℕ → Bool → Bool → Option (Context × Result ℕ)
unfolding added add_device_with_usb_path
add_store devices ctx alloc buf count probed links =
    if is_some (strnstr buf usb_prefix count)
    then add_device_with_usb_path devices ctx alloc buf count probed links
    else elim (kstrtouint buf) [
      | none ↦ some (ctx, err einval)
      | some val ↦ added count (platform_add_devices ctx val probed)
    ]

pub remove_all_store : Context → ℕ → Context × Result ℕ
remove_all_store ctx count = (platform_remove_all_devices ctx, ok count)

-- `EVDI_LOGLEVEL_VERBOSE`
abbrev pub loglevel_verbose : ℕ
loglevel_verbose = 6

-- the level afterwards, and the result
unfoldable pub loglevel_store : ℕ → Bytes → ℕ → ℕ × Result ℕ
loglevel_store loglevel buf count = elim (kstrtouint buf) [
  | none ↦ (loglevel, err einval)
  | some val ↦ if ltb loglevel_verbose val then (loglevel, err einval) else (val, ok count)
]

pub loglevel_show : ℕ → Bytes
loglevel_show loglevel = print_int loglevel ++ b'\n' ∷ []

pub count_show : Context → Bytes
count_show ctx = print_int ctx.dev_count ++ b'\n' ∷ []
