-- ===== src/Client/Procfs.antt =====
-- What the user library reads of /proc: whether Xorg runs (library/evdi_procfs.c), and whether another
-- process has a device's file open (library/evdi_lib.c). What the files of /proc hold is a parameter.
pub mod Found
use evdi.Prelude.{
  ℕ, zero, suc, ◌-◌, Bool, true, false, not, ◌&&◌, ◌||◌, List, [], ◌∷◌, Option, none, some, take,
  length, if◌then◌else◌,
}
use evdi.Prelude.Int.{ℤ, pos, eq_ℤ}
use evdi.Client.Text.{Bytes, contains, skip_space, word, to_int, is_digit}

-- An entry of /proc and what its files give: `stat`, the links of `fd` (each may be unreadable), and
-- the lines of `maps`. A directory or file that does not open is `none`.
pub record Process : Type 0 where
  pub d_name : Bytes
  pub stat : Option Bytes
  pub links : Option (List (Option Bytes))
  pub maps : Option (List Bytes)

abbrev pub path_max : ℕ
path_max = 4096

abbrev pub xorg : Bytes
xorg = b'X' ∷ b'o' ∷ b'r' ∷ b'g' ∷ []

-- The second word, of which six bytes are read.
pub process_name : Bytes → Bytes
process_name s = let first = skip_space s in (word 6 (skip_space (word (length first) first).1)).0

pub is_numeric : Bytes → Bool
is_numeric [] = false
is_numeric (c ∷ s) = is_digit c

is_xorg : Option Bytes → Bool
unfolding process_name
is_xorg none = false
is_xorg (some stat) = contains (process_name stat) xorg

pub is_xorg_process_folder : Process → Bool
unfolding is_xorg is_numeric
is_xorg_process_folder p = is_numeric p.d_name && is_xorg p.stat

-- The loop that stops at the first entry for which the test holds.
pub any_of {ℓ} : {A : Type ℓ} → (A → Bool) → List A → Bool
any_of test [] = false
any_of test (x ∷ rest) = let later = any_of test rest in if test x then true else later

-- a directory or file that does not open has nothing
pub any_in {ℓ} : {A : Type ℓ} → (A → Bool) → Option (List A) → Bool
unfolding any_of
any_in test none = false
any_in test (some entries) = any_of test entries

unfoldable pub xorg_running : Option (List Process) → Bool
unfolding any_in is_xorg_process_folder
xorg_running proc = any_in is_xorg_process_folder proc

-- `readlink` gives no more than the array holds, of which the last place is kept for the NUL.
pub does_path_links_to : Bytes → Option Bytes → Bool
does_path_links_to substr none = false
does_path_links_to substr (some real_path) = contains (take (path_max - 1) real_path) substr

pub process_opened_files : Bytes → Process → Bool
unfolding any_in does_path_links_to
process_opened_files path p = any_in (does_path_links_to path) p.links

pub process_opened_device : Bytes → Process → Bool
unfolding any_in
process_opened_device path p = any_in (λ line. contains line path) p.maps

-- an entry of another process that has the file open or mapped
pub holds_device : ℤ → Bytes → Process → Bool
unfolding is_numeric process_opened_files process_opened_device
holds_device myself path p =
    if not (is_numeric p.d_name) || eq_ℤ myself (to_int p.d_name)
    then false
    else process_opened_files path p || process_opened_device path p

pub device_has_master : ℤ → Bytes → Option (List Process) → Bool
unfolding any_in holds_device
device_has_master myself path proc = any_in (holds_device myself path) proc
