-- ===== src/Errno.antt =====
-- The negative `int` results of the module and of the kernel functions that it calls: `-EINVAL` is
-- `err einval`, and 0 or a plain success is `ok`.
use evdi.Prelude.{ℕ, ◌≡◌, ◌≢◌, refl, Bool, true, false, not, ◌⊎◌, inl, inr}

pub data Errno : Type 0 where
  einval enomem efault eagain enodev enoent erestartsys ebusy : Errno
  other : ℕ → Errno

pub data Result {ℓ} (A : Type ℓ) : Type ℓ where
  ok : A → Result A
  err : Errno → Result A

abbrev pub Status : Type 0
Status = Result (Unit {0})

abbrev pub done : Status
done = ok tt

pub Result-cases {ℓ} :
    {A : Type ℓ} (r : Result A) → ((a : A) × (r ≡ ok a)) ⊎ ((e : Errno) × (r ≡ err e))
Result-cases (ok a) = inl (a, refl)
Result-cases (err e) = inr (e, refl)

abbrev pub is_ok {ℓ} : {A : Type ℓ} → Result A → Bool
is_ok (ok _) = true
is_ok (err _) = false

-- a failure is not a success
pub is_ok-done : (status : Status) → not (is_ok status) ≡ true → status ≢ done
is_ok-done (ok _) h e = cc
is_ok-done (err e) h k = cc
