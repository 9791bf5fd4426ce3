-- ===== src/Platform/Link.antt =====
-- Linking to a USB parent: only a free device is taken, and a parent that goes away leaves no link.
use evdi.Prelude.{
  ℕ, zero, suc, ◌+◌, ◌-◌, ◌%◌, ◌^◌, ◌&&◌, not, ◌≡◌, refl, Bool, true, false, [], ◌∷◌, Option, none,
  some, arith, same_id, get_or, inl, inr, ◌⊎◌, set, some-inj, subst, if◌then◌else◌, if-cases,
}
use evdi.Platform.{
  PlatformDevice, Devices, platform_device_is_free, get_free_device, platform_device_link,
  usb_removed_from, before, unlink_if_linked_with,
}

-- no device is linked to the parent, or stands below it on the bus
abbrev pub Unrelated : ℕ → Option PlatformDevice → Type 0
Unrelated usb none = Unit {0}
Unrelated usb (some pdev) =
    (same_id pdev.parent (some usb) ≡ false) × (same_id pdev.dev_parent (some usb) ≡ false)

abbrev pub AllUnrelated : ℕ → Devices → Type 0
AllUnrelated usb [] = Unit {0}
AllUnrelated usb (d ∷ rest) = Unrelated usb d × AllUnrelated usb rest

-- what stands before a result
before_lem :
    (slot : Option PlatformDevice) (later : Option (Devices × ℕ)) (r : Devices × ℕ)
    → before slot later ≡ some r
    → (r' : Devices × ℕ) × (later ≡ some r') × ((slot ∷ r'.0, r'.1) ≡ r)
before_lem slot none r e = cc
before_lem slot (some r') r e = (r', refl, some-inj e)

some_of_if :
    (b : Bool) (x y : PlatformDevice)
    → (let made : Option PlatformDevice = if b then some x else none in made ≡ some y)
    → x ≡ y
some_of_if true x y e = some-inj e
some_of_if false x y e = cc

unlink-Unrelated :
    (usb : ℕ) (pdev unlinked : PlatformDevice)
    → unlink_if_linked_with pdev usb ≡ some unlinked
    → same_id pdev.dev_parent (some usb) ≡ false
    → Unrelated usb (some unlinked)
unfolding unlink_if_linked_with
unlink-Unrelated usb pdev unlinked e h =
    subst (λ q. Unrelated usb (some q)) (some_of_if pdev.probed _ unlinked e)
      (if-cases {A = PlatformDevice} (λ q. Unrelated usb (some q)) (same_id pdev.parent (some usb))
        _ _ (λ _. (refl, h)) (λ apart. (apart, h)))

-- Once a USB device has gone, nothing in the table is linked to it.
pub usb_removed-AllUnrelated :
    (usb : ℕ) (ds : Devices) (count : ℕ) (r : Devices × ℕ)
    → usb_removed_from usb ds count ≡ some r
    → AllUnrelated usb r.0
unfolding usb_removed_from
usb_removed-AllUnrelated usb [] count r e = subst (λ r. AllUnrelated usb r.0) (some-inj e) tt
usb_removed-AllUnrelated usb (none ∷ rest) count r e =
    let (r', later, made) = before_lem none _ r e in
    subst (λ r. AllUnrelated usb r.0) made (tt, usb_removed-AllUnrelated usb rest count r' later)
usb_removed-AllUnrelated usb (some pdev ∷ rest) count r e =
    go (unlink_if_linked_with pdev usb) refl
      (λ r' later. usb_removed-AllUnrelated usb rest _ r' later) e
  where
    gone : Bool
    gone = same_id pdev.dev_parent (some usb)

    next : ℕ
    next = if gone then (count + 2 ^ 32 - 1) % 2 ^ 32 else count

    go :
        (o : Option PlatformDevice)
        → unlink_if_linked_with pdev usb ≡ o
        → ((r' : Devices × ℕ) → usb_removed_from usb rest next ≡ some r' → AllUnrelated usb r'.0)
        → let all : Option (Devices × ℕ) = elim o [
          | none ↦ none
          | some unlinked ↦
              before (if gone then none else some unlinked) (usb_removed_from usb rest next)
        ] in
          all ≡ some r → AllUnrelated usb r.0
    go none u more h = cc
    go (some unlinked) u more h =
        let (r', later, made) = before_lem (if gone then none else some unlinked) _ r h in
        let slot =
          if-cases {A = Option PlatformDevice} (Unrelated usb) gone none (some unlinked) (λ _. tt)
            (λ stays. unlink-Unrelated usb pdev unlinked u stays) in
        subst (λ r. AllUnrelated usb r.0) made (slot, more r' later)

-- A device is linked to a parent only if it was free: a link that is there is never taken over.
pub link_lem :
    (pdev : PlatformDevice) (parent : ℕ) (links : Bool)
    → (platform_device_is_free pdev ≡ some false
        → platform_device_link pdev (some parent) links ≡ some pdev)
      × (platform_device_is_free pdev ≡ some true
          → links ≡ true
          → platform_device_link pdev (some parent) links
              ≡ some (record pdev { symlinked = true; parent = some parent })
            × (platform_device_is_free (record pdev { symlinked = true; parent = some parent })
                ≡ some false))
unfolding platform_device_link platform_device_is_free
link_lem pdev parent links = (λ h. ground arith, λ h l. (ground arith, ground arith))

-- the device chosen for a parent is a free one of the table
pub free_device_lem :
    (ds : Devices) (i k : ℕ)
    → get_free_device ds i ≡ some (some k)
    → (j : ℕ) × (pdev : PlatformDevice) × (k ≡ i + j)
      × (get_or ds j none ≡ some pdev)
      × (platform_device_is_free pdev ≡ some true)
unfolding get_free_device
free_device_lem [] i k h = cc
free_device_lem (none ∷ rest) i k h =
    let (j, pdev, e, g, f) = free_device_lem rest (i + 1) k h in
    (suc j, pdev, omega (arith, e), g, f)
free_device_lem (some pdev ∷ rest) i k h =
    go (platform_device_is_free pdev) refl (λ e. free_device_lem rest (i + 1) k e) h
  where
    go :
        (r : Option Bool)
        → platform_device_is_free pdev ≡ r
        → (get_free_device rest (i + 1) ≡ some (some k)
            → (j : ℕ) × (q : PlatformDevice) × (k ≡ i + 1 + j)
              × (get_or rest j none ≡ some q)
              × (platform_device_is_free q ≡ some true))
        → let found : Option (Option ℕ) = elim r [
          | none ↦ none
          | some free ↦ if free then some (some i) else get_free_device rest (i + 1)
        ] in
          found ≡ some (some k)
          → (j : ℕ) × (q : PlatformDevice) × (k ≡ i + j)
            × (get_or (some pdev ∷ rest) j none ≡ some q)
            × (platform_device_is_free q ≡ some true)
    go none f more e = cc
    go (some true) f more e = (0, pdev, ground arith, refl, f)
    go (some false) f more e =
        let (j, q, e', g, f') = more e in (suc j, q, omega (arith, e'), g, f')

-- every device of the table has been probed
abbrev pub AllProbed : Devices → Type 0
AllProbed [] = Unit {0}
AllProbed (none ∷ rest) = AllProbed rest
AllProbed (some pdev ∷ rest) = (pdev.probed ≡ true) × AllProbed rest

-- the search among devices that have been probed has a result
pub get_free_device_ends :
    (ds : Devices) (i : ℕ) → AllProbed ds → (o : Option ℕ) × (get_free_device ds i ≡ some o)
unfolding get_free_device platform_device_is_free
get_free_device_ends [] i a = (none, refl)
get_free_device_ends (none ∷ rest) i a = get_free_device_ends rest (i + 1) a
get_free_device_ends (some pdev ∷ rest) i (p, a) =
    let (o, e) = get_free_device_ends rest (i + 1) a in
    let free = pdev.has_evdi && not pdev.is_connected && not pdev.symlinked in
    rw p (
      if-cases {A = Option (Option ℕ)} (λ r. (o : Option ℕ) × (r ≡ some o)) free (some (some i)) _
        (λ _. (some i, refl)) (λ _. (o, e)))

pub set-AllProbed :
    (ds : Devices) (k : ℕ) (pdev : PlatformDevice)
    → AllProbed ds
    → pdev.probed ≡ true
    → AllProbed (set ds k (some pdev))
set-AllProbed [] k pdev a p = tt
set-AllProbed (none ∷ rest) zero pdev a p = (p, a)
set-AllProbed (some _ ∷ rest) zero pdev a p = (p, a.1)
set-AllProbed (none ∷ rest) (suc k) pdev a p = set-AllProbed rest k pdev a p
set-AllProbed (some _ ∷ rest) (suc k) pdev a p = (a.0, set-AllProbed rest k pdev a.1 p)

pub probed_of_free :
    (pdev : PlatformDevice) (b : Bool) → platform_device_is_free pdev ≡ some b → pdev.probed ≡ true
unfolding platform_device_is_free
probed_of_free pdev b e = ground arith

-- linking a device that has been probed, or to no parent, has a result, which has been probed if it was
pub link_ends :
    (pdev : PlatformDevice) (parent : Option ℕ) (links : Bool)
    → (parent ≡ none) ⊎ (pdev.probed ≡ true)
    → (linked : PlatformDevice) × (platform_device_link pdev parent links ≡ some linked)
      × (linked.probed ≡ pdev.probed)
unfolding platform_device_link platform_device_is_free
link_ends pdev none links h = (pdev, refl, refl)
link_ends pdev (some parent) links (inl n) = cc
link_ends pdev (some parent) links (inr p) =
    let freed = pdev.has_evdi && not pdev.is_connected && not pdev.symlinked && links in
    let with_link : PlatformDevice = record pdev { symlinked = true; parent = some parent } in
    let linked : PlatformDevice = if freed then with_link else pdev in
    (
      linked,
      ground arith,
      if-cases {A = PlatformDevice} (λ q. q.probed ≡ pdev.probed) freed with_link pdev (λ _. refl)
          (λ _. refl),
    )
