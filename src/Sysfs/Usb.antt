-- ===== src/Sysfs/Usb.antt =====
-- Which USB device an address names, and how long an address is.
use evdi.Prelude.{
  ℕ, zero, suc, ◌≤◌, ◌≡◌, ◌≢◌, ◌↔◌, refl, subst, if-cases, arith, true, List, [], ◌∷◌, Option, none,
  some, length, map, is_some,
}
use evdi.Client.Text.{Bytes}
use evdi.Sysfs.Text.{strsep, kstrtouint, strim, strnstr}
use evdi.Sysfs.{
  prepend, number_first, usb_prefix, UsbDevice, port_of, walk_up, backwards,
  find_usb_device_at_path, parse_ports, parse_addr, parse_usb_path,
}

walk_up-eq :
    (busnum : ℕ) (chain addr : List ℕ)
    → walk_up busnum chain addr ≡ true
    → map (port_of busnum) chain ≡ addr
unfolding walk_up
walk_up-eq busnum [] addr h = cc
walk_up-eq busnum (p ∷ []) [] h = cc
walk_up-eq busnum (p ∷ q ∷ ps) [] h = cc
walk_up-eq busnum (p ∷ []) (a ∷ []) h = ground arith
walk_up-eq busnum (p ∷ []) (a ∷ b ∷ addr) h = ground arith
walk_up-eq busnum (p ∷ q ∷ ps) (a ∷ addr) h = ground (arith, walk_up-eq busnum (q ∷ ps) addr)

walk_up-map :
    (busnum p : ℕ) (ps : List ℕ) → walk_up busnum (p ∷ ps) (map (port_of busnum) (p ∷ ps)) ≡ true
unfolding walk_up
walk_up-map busnum p [] = ground arith
walk_up-map busnum p (q ∷ ps) = ground (arith, walk_up-map busnum q ps)

-- A USB device, which has a root hub, matches an address exactly if the address, read backwards, is the
-- ports from the device up, with the number of the bus for that of the root hub.
pub find_usb_device_lem :
    (addr : List ℕ) (usb : UsbDevice)
    → usb.portnums ≢ []
    → (find_usb_device_at_path addr usb ≡ true)
      ↔ (map (port_of usb.busnum) usb.portnums ≡ backwards addr [])
unfolding find_usb_device_at_path
find_usb_device_lem addr usb some_port =
    (walk_up-eq usb.busnum usb.portnums (backwards addr []), go usb.portnums some_port)
  where
    go :
        (chain : List ℕ)
        → chain ≢ []
        → map (port_of usb.busnum) chain ≡ backwards addr []
        → walk_up usb.busnum chain (backwards addr []) ≡ true
    go [] n h = absurd (n refl)
    go (p ∷ ps) n h =
        subst (λ a. walk_up usb.busnum (p ∷ ps) a ≡ true) h (walk_up-map usb.busnum p ps)

-- as many numbers as there is room for, if any
abbrev pub FitsIn : ℕ → Option (List ℕ) → Type 0
FitsIn room none = Unit {0}
FitsIn room (some numbers) = length numbers ≤ room

prepend-FitsIn :
    (n : Option ℕ) (more : Option (List ℕ)) (room : ℕ)
    → FitsIn room more
    → FitsIn (suc room) (prepend n more)
unfolding prepend
prepend-FitsIn none more room h = tt
prepend-FitsIn (some n) none room h = tt
prepend-FitsIn (some n) (some more) room h = omega arith

number_first-FitsIn :
    (text : Option Bytes) (more : Option (List ℕ)) (room : ℕ)
    → FitsIn room more
    → FitsIn (suc room) (number_first text more)
unfolding number_first
number_first-FitsIn none more room h = tt
number_first-FitsIn (some text) more room h = prepend-FitsIn (kstrtouint text) more room h

parse_ports-FitsIn : (room : ℕ) (token : Option Bytes) → FitsIn room (parse_ports room token)
unfolding parse_ports
parse_ports-FitsIn zero token = omega arith
parse_ports-FitsIn (suc room) token =
    let ports = parse_ports-FitsIn room (strsep b'.' token).1 in
    number_first-FitsIn _ _ room (
      if-cases (FitsIn room) (is_some (strsep b'.' token).1) _ (some []) (λ _. ports)
        (λ _. omega arith))

-- Whatever is written, no more numbers are stored than the address has places for.
pub parse_usb_path-FitsIn : (buf : Bytes) (count : ℕ) → FitsIn 10 (parse_usb_path buf count)
unfolding parse_usb_path parse_addr
parse_usb_path-FitsIn buf count = found (strnstr buf usb_prefix count)
  where
    address :
        (token : Option Bytes) → FitsIn 10 (elim token [ none ↦ none | some t ↦ parse_addr t ])
    address none = tt
    address (some t) = number_first-FitsIn _ _ 9 (parse_ports-FitsIn 9 (strsep b'-' (some t)).1)

    found :
        (temp_path : Option Bytes)
        → FitsIn 10 (elim temp_path [
          | none ↦ none
          | some s ↦
              let (_, behind) = strsep b':' (some (strim s)) in
              let (usb_token, _) = strsep b':' behind in
              elim usb_token [ none ↦ none | some t ↦ parse_addr t ]
        ])
    found none = tt
    found (some s) = address (strsep b':' (strsep b':' (some (strim s))).1).0
