-- ===== src/Sysfs/Attach.antt =====
-- Paths of USB devices as they are written, and what they are parsed to.
use evdi.Prelude.{
  ℕ, zero, suc, ◌^◌, ◌<◌, ◌≤◌, ◌≡◌, refl, ap, ◌∙◌, arith, false, List, [], ◌∷◌, ◌++◌, Option, none,
  some, if◌then◌else◌, length, is_some,
}
use evdi.Client.Text.{Bytes, print_int, is_prefix, is_digit}
use evdi.Client.Text.Decimal.{print_int-AllDigits}
use evdi.Sysfs.Text.{strsep, strim, strnstr}
use evdi.Sysfs.Text.Tokens.{
  Lacks, NoSpace, AllDigits-Lacks, AllDigits-NoSpace, NoSpace-append, Lacks-append, strsep-append,
  strsep_whole, strim_id, kstrtouint-print_int,
}
use evdi.Sysfs.{prepend, number_first, parse_ports, parse_addr, parse_usb_path, usb_prefix}

-- the numbers with dots between them
abbrev pub join_ports : ℕ → List ℕ → Bytes
join_ports p [] = print_int p
join_ports p (q ∷ ps) = print_int p ++ b'.' ∷ join_ports q ps

abbrev pub usb_path_of : ℕ → ℕ → List ℕ → Bytes
usb_path_of bus p ps = usb_prefix ++ (print_int bus ++ b'-' ∷ join_ports p ps)

abbrev pub AllU32 : List ℕ → Type 0
AllU32 [] = Unit {0}
AllU32 (p ∷ ps) = (p < 2 ^ 32) × AllU32 ps

print_int-Lacks : (d n : ℕ) → is_digit d ≡ false → Lacks d (print_int n)
print_int-Lacks d n h = AllDigits-Lacks d (print_int n) h (print_int-AllDigits n)

number_first-print :
    (n : ℕ) (more : List ℕ)
    → n < 2 ^ 32
    → number_first (some (print_int n)) (some more) ≡ some (n ∷ more)
unfolding number_first prepend
number_first-print n more h = ap (λ o. prepend o (some more)) (kstrtouint-print_int n h)

-- a port that was split off, and the ports behind it
port_then : ℕ → Option Bytes × Option Bytes → Option (List ℕ)
port_then room (port, rest) =
    number_first port (if is_some rest then parse_ports room rest else some [])

parse_ports-join :
    (room p : ℕ) (ps : List ℕ)
    → AllU32 (p ∷ ps)
    → length (p ∷ ps) ≤ room
    → parse_ports room (some (join_ports p ps)) ≡ some (p ∷ ps)
unfolding parse_ports port_then
parse_ports-join zero p ps u h = absurd (omega arith)
parse_ports-join (suc room) p [] (u, _) h =
    ap (port_then room) (strsep_whole b'.' (print_int p) (print_int-Lacks b'.' p refl))
    ∙ number_first-print p [] u
parse_ports-join (suc room) p (q ∷ ps) (u, us) h =
    ap (port_then room)
      (strsep-append b'.' (print_int p) (join_ports q ps) (print_int-Lacks b'.' p refl))
    ∙ ap (number_first (some (print_int p))) (parse_ports-join room q ps us (omega arith))
    ∙ number_first-print p (q ∷ ps) u

parse_addr-join :
    (bus p : ℕ) (ps : List ℕ)
    → bus < 2 ^ 32
    → AllU32 (p ∷ ps)
    → length (p ∷ ps) ≤ 9
    → parse_addr (print_int bus ++ b'-' ∷ join_ports p ps) ≡ some (bus ∷ p ∷ ps)
unfolding parse_addr
parse_addr-join bus p ps b u h =
    ap (λ r. number_first r.0 (parse_ports 9 r.1))
      (strsep-append b'-' (print_int bus) (join_ports p ps) (print_int-Lacks b'-' bus refl))
    ∙ ap (number_first (some (print_int bus))) (parse_ports-join 9 p ps u h)
    ∙ number_first-print bus (p ∷ ps) b

join_ports-NoSpace : (p : ℕ) (ps : List ℕ) → NoSpace (join_ports p ps)
join_ports-NoSpace p [] = AllDigits-NoSpace (print_int p) (print_int-AllDigits p)
join_ports-NoSpace p (q ∷ ps) =
    NoSpace-append (print_int p) _ (AllDigits-NoSpace (print_int p) (print_int-AllDigits p))
      (refl, join_ports-NoSpace q ps)

join_ports-Lacks : (p : ℕ) (ps : List ℕ) → Lacks b':' (join_ports p ps)
join_ports-Lacks p [] = print_int-Lacks b':' p refl
join_ports-Lacks p (q ∷ ps) =
    Lacks-append b':' (print_int p) _ (print_int-Lacks b':' p refl) (refl, join_ports-Lacks q ps)

-- what stands behind the prefix
abbrev address : ℕ → ℕ → List ℕ → Bytes
address bus p ps = print_int bus ++ b'-' ∷ join_ports p ps

address-NoSpace : (bus p : ℕ) (ps : List ℕ) → NoSpace (address bus p ps)
address-NoSpace bus p ps =
    NoSpace-append (print_int bus) _ (AllDigits-NoSpace (print_int bus) (print_int-AllDigits bus))
      (refl, join_ports-NoSpace p ps)

address-Lacks : (bus p : ℕ) (ps : List ℕ) → Lacks b':' (address bus p ps)
address-Lacks bus p ps =
    Lacks-append b':' (print_int bus) _ (print_int-Lacks b':' bus refl)
      (refl, join_ports-Lacks p ps)

prefix_found :
    (s : Bytes) (count : ℕ)
    → 4 ≤ count
    → strnstr (usb_prefix ++ s) usb_prefix count ≡ some (usb_prefix ++ s)
unfolding strnstr is_prefix
prefix_found s count h = ground arith

-- The path of a USB device, written as its bus and at most nine ports with a dash and dots between them, each
-- below 2 ^ 32, is parsed to the bus and these ports.
pub parse_usb_path-usb_path_of :
    (bus p : ℕ) (ps : List ℕ) (count : ℕ)
    → bus < 2 ^ 32
    → AllU32 (p ∷ ps)
    → length (p ∷ ps) ≤ 9
    → 4 ≤ count
    → parse_usb_path (usb_path_of bus p ps) count ≡ some (bus ∷ p ∷ ps)
unfolding parse_usb_path
parse_usb_path-usb_path_of bus p ps count b u few c =
    let path = usb_path_of bus p ps in
    let usb = b'u' ∷ b's' ∷ b'b' ∷ [] in
    let trimmed = strim_id path (refl, (refl, (refl, (refl, address-NoSpace bus p ps)))) in
    let prefix = strsep-append b':' usb (address bus p ps) (refl, (refl, (refl, tt))) in
    let token = strsep_whole b':' (address bus p ps) (address-Lacks bus p ps) in
    ap found (prefix_found (address bus p ps) count c)
    ∙ ap (λ s. addressed (strsep b':' (strsep b':' (some s)).1).0) trimmed
    ∙ ap (λ r. addressed (strsep b':' r.1).0) prefix
    ∙ ap (λ r. addressed r.0) token
    ∙ parse_addr-join bus p ps b u few
  where
    addressed : Option Bytes → Option (List ℕ)
    addressed usb_token = elim usb_token [ none ↦ none | some token ↦ parse_addr token ]

    found : Option Bytes → Option (List ℕ)
    found temp_path = elim temp_path [
      | none ↦ none
      | some s ↦ addressed (strsep b':' (strsep b':' (some (strim s))).1).0
    ]
