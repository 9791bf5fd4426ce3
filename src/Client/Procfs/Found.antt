-- ===== src/Client/Procfs/Found.antt =====
-- What the searches of /proc find.
use evdi.Prelude.{
  some-inj, ◌⊎◌, ◌≡◌, ◌≡◌, ◌↔◌, refl, arith, Bool, true, false, ◌||◌, List, [], ◌∷◌, Option, none,
  some, Bool-cases, inl, inr, if◌then◌else◌, ap, sym, ◌∙◌, subst,
}
use mathlib.Core.List.{Memᴰ}
use evdi.Prelude.Int.{ℤ, eq_ℤ}
use evdi.Client.Text.{Bytes, contains, to_int}
use evdi.Client.Procfs.{
  Process, is_numeric, any_of, any_in, does_path_links_to, device_has_master, holds_device,
  process_opened_files, process_opened_device,
}

module _ {ℓ} {A : Type ℓ} (test : A → Bool) where
  -- an entry for which the test holds
  abbrev Passes : List A → Type ℓ
  Passes entries = (x : A) × Memᴰ x entries × (test x ≡ true)

  any_of-Passes : (entries : List A) → any_of test entries ≡ true → Passes entries
  unfolding any_of
  any_of-Passes [] h = cc
  any_of-Passes (x ∷ rest) h = elim (Bool-cases (test x)) [
    | inl e ↦ (x, Memᴰ.head refl, e)
    | inr e ↦
        let later =
          any_of-Passes rest (sym (ap (λ b. if b then true else any_of test rest) e) ∙ h) in
        (later.0, Memᴰ.tail later.1, later.2)
  ]

  any_of_passes :
      (x : A) (entries : List A) → Memᴰ x entries → test x ≡ true → any_of test entries ≡ true
  unfolding any_of
  any_of_passes x [] m h = elim m [ ]
  any_of_passes x (y ∷ rest) (Memᴰ.head e) h =
      ap (λ b. if b then true else any_of test rest) (ap test (sym e) ∙ h)
  any_of_passes x (y ∷ rest) (Memᴰ.tail m) h = ground (arith, any_of_passes x rest m h)

  -- in a directory or file that opens
  abbrev PassesIn : Option (List A) → Type ℓ
  PassesIn o = (entries : List A) × (o ≡ some entries) × Passes entries

  any_in_iff : (o : Option (List A)) → (any_in test o ≡ true) ↔ PassesIn o
  unfolding any_in
  any_in_iff none = (λ h. cc, λ e. cc)
  any_in_iff (some entries) = (
    λ h. (entries, refl, any_of-Passes entries h),
    λ e. any_of_passes e.2.0 entries (subst (Memᴰ e.2.0) (sym (some-inj e.1)) e.2.1) e.2.2,
  )

-- A link of the process leads to a path that holds `path`, or a line of its `maps` holds it.
abbrev pub HasOpen : Bytes → Process → Type 0
HasOpen path p =
    ((links : List (Option Bytes)) × (p.links ≡ some links)
      × ((link : Option Bytes) × Memᴰ link links × (does_path_links_to path link ≡ true)))
    ⊎ ((maps : List Bytes) × (p.maps ≡ some maps)
        × ((line : Bytes) × Memᴰ line maps × (contains line path ≡ true)))

HasOpen-iff :
    (path : Bytes) (p : Process)
    → ((process_opened_files path p || process_opened_device path p) ≡ true) ↔ HasOpen path p
unfolding process_opened_files process_opened_device
HasOpen-iff path p = (
  λ h. elim (Bool-cases (process_opened_files path p)) [
    | inl e ↦ inl ((any_in_iff _ p.links).0 e)
    | inr e ↦ inr ((any_in_iff _ p.maps).0 (ground arith))
  ],
  λ h. elim h [
    | inl e ↦ let e' = (any_in_iff (does_path_links_to path) p.links).1 e in ground arith
    | inr e ↦ let e' = (any_in_iff (λ line. contains line path) p.maps).1 e in ground arith
  ],
)

holds_device_iff :
    (myself : ℤ) (path : Bytes) (p : Process)
    → (holds_device myself path p ≡ true)
      ↔ ((is_numeric p.d_name ≡ true) × (eq_ℤ myself (to_int p.d_name) ≡ false) × HasOpen path p)
unfolding holds_device
holds_device_iff myself path p =
    let opened = HasOpen-iff path p in
    (
      λ h. (ground arith, ground arith, opened.0 (ground arith)),
      λ h. let o = opened.1 h.2 in ground arith,
    )

-- The search of /proc succeeds exactly if there is an entry with the name of a process other than the
-- caller that has a link to a path which holds the device's path, or a mapping of it.
pub device_has_master_iff :
    (myself : ℤ) (path : Bytes) (entries : List Process)
    → (device_has_master myself path (some entries) ≡ true) ↔ (
        (p : Process) × Memᴰ p entries
        × (is_numeric p.d_name ≡ true)
        × (eq_ℤ myself (to_int p.d_name) ≡ false)
        × HasOpen path p)
unfolding device_has_master any_in
device_has_master_iff myself path entries = (
  λ h.
      let found = any_of-Passes (holds_device myself path) entries h in
      let held = (holds_device_iff myself path found.0).0 found.2 in
      (found.0, found.1, held.0, held.1, held.2),
  λ e.
      any_of_passes (holds_device myself path) e.0 entries e.1
        ((holds_device_iff myself path e.0).1 (e.2, e.3, e.4)),
)
