-- ===== src/Platform/Add.antt =====
-- Adding devices to the table: which one a parent gets, how many there are then, and what a failed probe
-- comes to.
use evdi.Prelude.{
  ℕ, zero, suc, ◌+◌, ◌-◌, ◌%◌, ◌^◌, ◌≤◌, ◌<◌, ◌≡◌, ◌≢◌, refl, ◌∙◌, sym, ap, Bool, true, false,
  Option, none, some, arith, ltb, ◌==◌, Bool-cases, get_or, length-set, inl, inr, ◌⊎◌,
}
use evdi.Errno.{err, done, einval, Status}
use evdi.Platform.{
  PlatformDevice, Context, device_count_max, new_device, store_at, link_at, reusable, add_new,
  platform_device_add, add_loop, platform_add_devices, platform_device_link,
  platform_device_is_free,
}
use evdi.Platform.Link.{
  AllProbed, set-AllProbed, get_free_device_ends, free_device_lem, probed_of_free, link_ends,
}
use evdi.Platform.Count.{used, ContextOk, used-le, used-store, probed_at, create_lem, create-full}

-- A call that adds `n` devices and succeeds: the count is that of the entries, and where the table's
-- devices and the new one have been probed, all have been afterwards.
abbrev pub Added : Context → Bool → ℕ → Option (Context × Status) → Type 0
Added ctx probed n r =
    (ctx' : Context) × (r ≡ some (ctx', done))
    × ContextOk ctx'
    × (ctx'.dev_count ≡ ctx.dev_count + n)
    × (AllProbed ctx.devices → probed ≡ true → AllProbed ctx'.devices)

link_at-Added :
    (ctx : Context) (k : ℕ) (pdev : PlatformDevice) (parent : Option ℕ) (probed links : Bool)
    → ContextOk ctx
    → get_or ctx.devices k none ≡ some pdev
    → (parent ≡ none) ⊎ (pdev.probed ≡ true)
    → Added ctx probed 0 (link_at ctx k parent links)
unfolding link_at
link_at-Added ctx k pdev parent probed links v e runs =
    let (linked, l, p) = link_ends pdev parent links runs in
    (
      store_at ctx k linked,
      rw (e, l, link_at) refl,
      (length-set ctx.devices k _ ∙ v.0, v.1 ∙ sym (used-store ctx.devices k linked pdev e)),
      omega arith,
      λ a _. set-AllProbed ctx.devices k linked a (p ∙ probed_at ctx.devices k pdev a e),
    )

-- a free device is taken over
takes_over :
    (ctx : Context) (parent : Option ℕ) (k : ℕ) (probed links : Bool)
    → ContextOk ctx
    → reusable ctx parent ≡ some (some k)
    → Added ctx probed 0 (platform_device_add ctx parent probed links)
unfolding platform_device_add
takes_over ctx none k probed links v e = cc
takes_over ctx (some usb) k probed links v e =
    let (j, pdev, at, got, free) = free_device_lem ctx.devices 0 k e in
    let here : j ≡ k = omega (arith, at) in
    rw (e, platform_device_add)
      (link_at-Added ctx k pdev (some usb) probed links v (rw (sym here) got)
        (inr (probed_of_free pdev true free)))

-- a new device is made, unless its probe fails and there is a parent to link it to
makes_new :
    (ctx : Context) (parent : Option ℕ) (probed links : Bool)
    → ContextOk ctx
    → reusable ctx parent ≡ some none
    → used ctx.devices < device_count_max
    → (parent ≡ none) ⊎ (probed ≡ true)
    → Added ctx probed 1 (platform_device_add ctx parent probed links)
unfolding platform_device_add add_new
makes_new ctx parent probed links v e room runs =
    let (ctx', k, c, w, n, got, all) = create_lem ctx probed v room in
    let (ctx2, l, w2, n2, all2) =
      link_at-Added ctx' k (new_device probed) parent probed links w got runs in
    (
      ctx2,
      rw (e, c, platform_device_add, add_new) l,
      w2,
      omega (arith, n, n2),
      λ a p. all2 (all a p) p,
    )

follows_null :
    (ctx : Context) (usb : ℕ) (links : Bool)
    → ContextOk ctx
    → reusable ctx (some usb) ≡ some none
    → used ctx.devices < device_count_max
    → platform_device_add ctx (some usb) false links ≡ none
unfolding platform_device_add add_new link_at platform_device_link platform_device_is_free
follows_null ctx usb links v e room =
    let (ctx', k, c, w, n, got, all) = create_lem ctx false v room in
    rw (e, c, got, platform_device_add, add_new, link_at) refl

refuses :
    (ctx : Context) (parent : Option ℕ) (probed links : Bool)
    → ContextOk ctx
    → reusable ctx parent ≡ some none
    → device_count_max ≤ used ctx.devices
    → platform_device_add ctx parent probed links ≡ some (ctx, err einval)
unfolding platform_device_add add_new
refuses ctx parent probed links v e full =
    rw (e, create-full ctx probed v full, platform_device_add, add_new) refl

reusable_ends :
    (ctx : Context) (parent : Option ℕ)
    → AllProbed ctx.devices
    → (o : Option ℕ) × (reusable ctx parent ≡ some o)
reusable_ends ctx none a = (none, refl)
reusable_ends ctx (some usb) a = get_free_device_ends ctx.devices 0 a

-- In a table whose count is its number of entries and whose devices have all been probed, the search for
-- a free device ends. If there is a parent and a free device for it, adding a device succeeds and the
-- count stays. If not and there is room, it succeeds and the count grows by one, where the new device's
-- probe succeeds or there is no parent; where the probe fails and there is a parent, the device's data,
-- which is NULL, is followed. If there is no room, it gives -EINVAL and nothing changes. The count stays
-- the number of entries, and with a probe that succeeds every device has been probed afterwards.
pub device_add_lem :
    (ctx : Context) (parent : Option ℕ) (probed links : Bool)
    → ContextOk ctx
    → AllProbed ctx.devices
    → let r = platform_device_add ctx parent probed links in
      ((o : Option ℕ) × (reusable ctx parent ≡ some o))
      × ((k : ℕ) → reusable ctx parent ≡ some (some k) → Added ctx probed 0 r)
      × (reusable ctx parent ≡ some none
          → used ctx.devices < device_count_max
          → (parent ≡ none) ⊎ (probed ≡ true)
          → Added ctx probed 1 r)
      × ((usb : ℕ)
          → reusable ctx parent ≡ some none
          → used ctx.devices < device_count_max
          → parent ≡ some usb
          → probed ≡ false
          → r ≡ none)
      × (reusable ctx parent ≡ some none
          → device_count_max ≤ used ctx.devices
          → r ≡ some (ctx, err einval))
device_add_lem ctx parent probed links v a = (
  reusable_ends ctx parent a,
  λ k e. takes_over ctx parent k probed links v e,
  λ e room runs. makes_new ctx parent probed links v e room runs,
  λ usb e room has fails.
      rw (has, fails) (follows_null ctx usb links v (ap (reusable ctx) (sym has) ∙ e) room),
  λ e full. refuses ctx parent probed links v e full,
)

-- As many devices are added as were asked for, if there is room for them.
add_loop_lem :
    (val : ℕ) (ctx : Context) (probed : Bool)
    → ContextOk ctx
    → used ctx.devices + val ≤ device_count_max
    → (ctx' : Context) × (add_loop val ctx probed ≡ some ctx')
      × ContextOk ctx'
      × (ctx'.dev_count ≡ ctx.dev_count + val)
unfolding add_loop
add_loop_lem zero ctx probed v h = (ctx, refl, v, omega arith)
add_loop_lem (suc val) ctx probed v h =
    let (ctx1, e, w, n, _) = makes_new ctx none probed false v refl (omega arith) (inl refl) in
    let (ctx2, f, x, m) = add_loop_lem val ctx1 probed w (omega (arith, v, w, n)) in
    (ctx2, rw (e, add_loop) f, x, omega (arith, m, n))

-- In a table whose count is its number of entries, which stays so, asking for more devices adds
-- exactly that many if there is room for all, and gives -EINVAL and adds none if there is not.
pub add_devices_lem :
    (ctx : Context) (val : ℕ) (probed : Bool)
    → ContextOk ctx
    → let r = platform_add_devices ctx val probed in
      (ctx.dev_count + val ≤ device_count_max
        → (ctx' : Context) × (r ≡ some (ctx', done))
          × ContextOk ctx'
          × (ctx'.dev_count ≡ ctx.dev_count + val))
      × (device_count_max < ctx.dev_count + val → val ≢ 0 → r ≡ some (ctx, err einval))
unfolding platform_add_devices
add_devices_lem ctx zero probed v = (λ h. (ctx, refl, v, omega arith), λ h n. absurd (n refl))
add_devices_lem ctx (suc val) probed v =
    let some_asked : (suc val == 0) ≡ false = ground arith in
    elim (Bool-cases (ltb ((device_count_max + 2 ^ 32 - ctx.dev_count) % 2 ^ 32) (suc val))) [
      | inl over ↦
          rw (some_asked, over) (λ h. absurd (ground (arith, v, used-le ctx.devices)), λ h n. refl)
      | inr fits ↦
          let (ctx', e, w, n) =
            add_loop_lem (suc val) ctx probed v (ground (arith, v, used-le ctx.devices)) in
          rw (some_asked, fits)
            (λ h. (ctx', rw e refl, w, n), λ h n. absurd (ground (arith, v, used-le ctx.devices)))
    ]
