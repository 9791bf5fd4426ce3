-- ===== src/Platform/Count.antt =====
-- The count of devices is the number of entries, and never more than the table holds.
use evdi.Prelude.{
  ℕ, zero, suc, ◌+◌, ◌%◌, ◌^◌, ◌≤◌, ◌<◌, ◌≡◌, refl, ◌∙◌, ap, Bool, true, false, [], ◌∷◌, none, some,
  arith, leb, set, get_or, length, length-set, Option-cases, inl, inr, subst, some-inj,
  get_or-set_self,
}
use evdi.Errno.{ok, err, einval}
use evdi.Platform.{
  PlatformDevice, Devices, Context, device_count_max, get_free_idx, create_new_device, new_device,
}
use evdi.Platform.Link.{AllProbed, set-AllProbed}

abbrev pub used : Devices → ℕ
used [] = 0
used (none ∷ rest) = used rest
used (some _ ∷ rest) = suc (used rest)

-- The table has its declared length, and the count is the number of its entries.
abbrev pub ContextOk : Context → Type 0
ContextOk ctx = (length ctx.devices ≡ device_count_max) × (ctx.dev_count ≡ used ctx.devices)

pub used-le : (ds : Devices) → used ds ≤ length ds
used-le [] = omega arith
used-le (none ∷ rest) = omega (arith, used-le rest)
used-le (some _ ∷ rest) = omega (arith, used-le rest)

-- the first NULL, if the table is not full
free_idx_lem :
    (ds : Devices) (i : ℕ)
    → used ds < length ds
    → (k : ℕ) × (get_free_idx ds i ≡ some (i + k)) × (k < length ds) × (get_or ds k none ≡ none)
unfolding get_free_idx
free_idx_lem [] i h = absurd (omega arith)
free_idx_lem (none ∷ rest) i h = (0, ground arith, omega arith, refl)
free_idx_lem (some _ ∷ rest) i h =
    let (k, e, l, f) = free_idx_lem rest (i + 1) (omega arith) in
    (suc k, ground (arith, e), omega arith, f)

-- filling an entry that was NULL, and changing one without emptying or filling it
used-fill :
    (ds : Devices) (k : ℕ) (p : PlatformDevice)
    → k < length ds
    → get_or ds k none ≡ none
    → used (set ds k (some p)) ≡ suc (used ds)
used-fill [] k p l e = absurd (omega arith)
used-fill (none ∷ rest) zero p l e = refl
used-fill (some _ ∷ rest) zero p l e = cc
used-fill (none ∷ rest) (suc k) p l e = used-fill rest k p (omega arith) e
used-fill (some _ ∷ rest) (suc k) p l e = ap suc (used-fill rest k p (omega arith) e)

pub used-store :
    (ds : Devices) (k : ℕ) (p q : PlatformDevice)
    → get_or ds k none ≡ some q
    → used (set ds k (some p)) ≡ used ds
used-store [] k p q e = refl
used-store (none ∷ rest) zero p q e = cc
used-store (some _ ∷ rest) zero p q e = refl
used-store (none ∷ rest) (suc k) p q e = used-store rest k p q e
used-store (some _ ∷ rest) (suc k) p q e = ap suc (used-store rest k p q e)

pub probed_at :
    (ds : Devices) (k : ℕ) (q : PlatformDevice)
    → AllProbed ds
    → get_or ds k none ≡ some q
    → q.probed ≡ true
probed_at [] k q a e = cc
probed_at (none ∷ rest) zero q a e = cc
probed_at (some p ∷ rest) zero q a e = subst (λ q. q.probed ≡ true) (some-inj e) a.0
probed_at (none ∷ rest) (suc k) q a e = probed_at rest k q a e
probed_at (some p ∷ rest) (suc k) q a e = probed_at rest k q a.1 e

create_at :
    (ctx : Context) (probed : Bool) (k : ℕ)
    → ContextOk ctx
    → used ctx.devices < device_count_max
    → get_free_idx ctx.devices 0 ≡ some k
    → create_new_device ctx probed
      ≡ ok (
        record ctx {
          devices = set ctx.devices k (some (new_device probed));
          dev_count = (ctx.dev_count + 1) % 2 ^ 32;
        },
        k,
      )
unfolding create_new_device
create_at ctx probed k v room e =
    let low : leb device_count_max ctx.dev_count ≡ false = ground (arith, v) in
    rw (e, low, create_new_device)

-- In a table with room a device is created, and counted.
pub create_lem :
    (ctx : Context) (probed : Bool)
    → ContextOk ctx
    → used ctx.devices < device_count_max
    → (ctx' : Context) × (k : ℕ) × (create_new_device ctx probed ≡ ok (ctx', k))
      × ContextOk ctx'
      × (ctx'.dev_count ≡ ctx.dev_count + 1)
      × (get_or ctx'.devices k none ≡ some (new_device probed))
      × (AllProbed ctx.devices → probed ≡ true → AllProbed ctx'.devices)
unfolding create_new_device
create_lem ctx probed v room =
    let (k, e, l, f) = free_idx_lem ctx.devices 0 (omega (arith, v)) in
    let filled = used-fill ctx.devices k (new_device probed) l f in
    let start : 0 + k ≡ k = omega arith in
    (
      record ctx {
        devices = set ctx.devices k (some (new_device probed));
        dev_count = (ctx.dev_count + 1) % 2 ^ 32;
      },
      k,
      create_at ctx probed k v room (e ∙ ap some start),
      (length-set ctx.devices k (some (new_device probed)) ∙ v.0, omega (arith, v, filled)),
      omega (arith, v),
      get_or-set_self ctx.devices k (some (new_device probed)) none l,
      λ a p. set-AllProbed ctx.devices k (new_device probed) a p,
    )

pub create-full :
    (ctx : Context) (probed : Bool)
    → ContextOk ctx
    → device_count_max ≤ used ctx.devices
    → create_new_device ctx probed ≡ err einval
unfolding create_new_device
create-full ctx probed v full = elim (Option-cases (get_free_idx ctx.devices 0)) [
  | inl e ↦ rw (e, create_new_device)
  | inr (k, e) ↦ rw (e, create_new_device) (ground (arith, v))
]
