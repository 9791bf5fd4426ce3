-- ===== src/Platform/Removed.antt =====
-- Removing devices from the table, all of them or those of a USB device that goes away.
use evdi.Prelude.{
  subst, some-inj, ℕ, suc, ◌+◌, ◌-◌, ◌%◌, ◌^◌, ◌<◌, ◌≡◌, refl, ◌∙◌, sym, ap, Bool, true, false, [],
  ◌∷◌, Option, none, some, arith, Bool-cases, same_id, length, inl, inr, if◌then◌else◌,
}
use evdi.Platform.{
  PlatformDevice, Devices, Context, platform_remove_all_devices, remove_all_slots, usb_removed_from,
  before, platform_drv_usb, unlink_if_linked_with,
}
use evdi.Platform.Link.{AllUnrelated, usb_removed-AllUnrelated, AllProbed}
use evdi.Platform.Count.{used, ContextOk, used-le}

removed_lem :
    (ds : Devices) → (length (remove_all_slots ds) ≡ length ds) × (used (remove_all_slots ds) ≡ 0)
removed_lem [] = (refl, refl)
removed_lem (_ ∷ rest) = let r = removed_lem rest in (ap suc r.0, r.1)

remove_all-ContextOk : (ctx : Context) → ContextOk ctx → ContextOk (platform_remove_all_devices ctx)
unfolding platform_remove_all_devices
remove_all-ContextOk ctx v = let r = removed_lem ctx.devices in (r.0 ∙ v.0, sym r.1)

unlink_ends :
    (usb : ℕ) (pdev : PlatformDevice)
    → pdev.probed ≡ true
    → (u : PlatformDevice) × (unlink_if_linked_with pdev usb ≡ some u)
unfolding unlink_if_linked_with
unlink_ends usb pdev p =
    let unlinked : PlatformDevice =
      if same_id pdev.parent (some usb)
      then record pdev { symlinked = false; parent = none }
      else pdev in
    let result : Bool → Option PlatformDevice = λ b. if b then some unlinked else none in
    (unlinked, ap result p)

-- what the loop makes of an entry that has been probed: it goes with its parent on the bus, or it stays
usb_removed_step :
    (usb : ℕ) (pdev : PlatformDevice) (rest : Devices) (count : ℕ) (gone : Bool)
    → pdev.probed ≡ true
    → same_id pdev.dev_parent (some usb) ≡ gone
    → (u : PlatformDevice) × (usb_removed_from usb (some pdev ∷ rest) count
        ≡ before
            (if gone then none else some u)
            (usb_removed_from usb rest (if gone then (count + 2 ^ 32 - 1) % 2 ^ 32 else count)))
unfolding usb_removed_from
usb_removed_step usb pdev rest count gone p e =
    let (u, made) = unlink_ends usb pdev p in
    let step : Bool → Option PlatformDevice → Option (Devices × ℕ) = λ g o. elim o [
      | none ↦ none
      | some unlinked ↦
          before (if g then none else some unlinked)
            (usb_removed_from usb rest (if g then (count + 2 ^ 32 - 1) % 2 ^ 32 else count))
    ] in
    (u, ap (λ g. step g (unlink_if_linked_with pdev usb)) e ∙ ap (step gone) made)

usb_removed_lem :
    (usb : ℕ) (ds : Devices) (extra : ℕ)
    → AllProbed ds
    → extra + used ds < 2 ^ 32
    → (ds' : Devices) × (usb_removed_from usb ds (extra + used ds) ≡ some (ds', extra + used ds'))
      × (length ds' ≡ length ds)
unfolding usb_removed_from
usb_removed_lem usb [] extra a h = ([], refl, refl)
usb_removed_lem usb (none ∷ rest) extra a h =
    let (ds', e, l) = usb_removed_lem usb rest extra a h in (none ∷ ds', rw e refl, ap suc l)
usb_removed_lem usb (some pdev ∷ rest) extra (p, a) h =
    elim (Bool-cases (same_id pdev.dev_parent (some usb))) [
      | inl gone ↦
          let less : (extra + suc (used rest) + 2 ^ 32 - 1) % 2 ^ 32 ≡ extra + used rest =
            omega arith in
          let (ds', e, l) = usb_removed_lem usb rest extra a (omega arith) in
          let (u, step) = usb_removed_step usb pdev rest (extra + suc (used rest)) true p gone in
          (
            none ∷ ds',
            step ∙ ap (λ n. before none (usb_removed_from usb rest n)) less ∙ ap (before none) e,
            ap suc l,
          )
      | inr stays ↦
          let same : extra + suc (used rest) ≡ suc extra + used rest = omega arith in
          let (ds', e, l) = usb_removed_lem usb rest (suc extra) a (omega arith) in
          let shift : suc extra + used ds' ≡ extra + suc (used ds') = omega arith in
          let (u, step) = usb_removed_step usb pdev rest (extra + suc (used rest)) false p stays in
          (
            some u ∷ ds',
            step
                ∙ ap (λ n. before (some u) (usb_removed_from usb rest n)) same
                ∙ ap (before (some u)) e
                ∙ ap (λ n. some (some u ∷ ds', n)) shift,
            ap suc l,
          )
    ]

-- When a USB device goes away, the loop over a table of devices that have been probed ends, and the count
-- stays the number of entries.
pub usb-ContextOk :
    (ctx : Context) (usb : Option ℕ) (removed : Bool)
    → ContextOk ctx
    → AllProbed ctx.devices
    → (ctx' : Context) × (platform_drv_usb ctx usb removed ≡ some ctx') × ContextOk ctx'
unfolding platform_drv_usb
usb-ContextOk ctx none removed v a = (ctx, refl, v)
usb-ContextOk ctx (some usb) false v a = (ctx, refl, v)
usb-ContextOk ctx (some usb) true v a =
    let (ds', e, l) = usb_removed_lem usb ctx.devices 0 a (omega (arith, v, used-le ctx.devices)) in
    let start : ctx.dev_count ≡ 0 + used ctx.devices = omega (arith, v) in
    let zero_left : 0 + used ds' ≡ used ds' = omega arith in
    (
      record { devices = ds'; dev_count = used ds' },
      loop ds'
          (ap (usb_removed_from usb ctx.devices) start ∙ e ∙ ap (λ n. some (ds', n)) zero_left),
      (l ∙ v.0, refl),
    )
  where
    loop :
        (ds' : Devices)
        → usb_removed_from usb ctx.devices ctx.dev_count ≡ some (ds', used ds')
        → platform_drv_usb ctx (some usb) true
          ≡ some (record { devices = ds'; dev_count = used ds' })
    loop ds' e = rw (e, platform_drv_usb) refl

-- When a USB device goes away, and the table's count is its number of entries and its devices have all
-- been probed, the loop over the table ends; the count is still that of the entries, and no device is
-- linked to the USB device or stands below it on the bus.
pub platform_drv_usb_lem :
    (ctx : Context) (usb : ℕ)
    → ContextOk ctx
    → AllProbed ctx.devices
    → (ctx' : Context) × (platform_drv_usb ctx (some usb) true ≡ some ctx')
      × ContextOk ctx'
      × AllUnrelated usb ctx'.devices
unfolding platform_drv_usb
platform_drv_usb_lem ctx usb v a =
    let (ctx', e, w) = usb-ContextOk ctx (some usb) true v a in
    (ctx', e, w, unrelated (usb_removed_from usb ctx.devices ctx.dev_count) refl ctx' e)
  where
    unrelated :
        (r : Option (Devices × ℕ))
        → usb_removed_from usb ctx.devices ctx.dev_count ≡ r
        → (ctx' : Context)
        → let all : Option Context = elim r [
          | none ↦ none
          | some (devices, count) ↦ some (record { devices = devices; dev_count = count })
        ] in
          all ≡ some ctx' → AllUnrelated usb ctx'.devices
    unrelated none made ctx' h = cc
    unrelated (some (devices, count)) made ctx' h =
        subst (λ c. AllUnrelated usb c.devices) (some-inj h)
          (usb_removed-AllUnrelated usb ctx.devices ctx.dev_count (devices, count) made)
