-- ===== src/Gem/Handles.antt =====
-- Looking an object's handle up in the table of a file.
use evdi.Prelude.{
  ℕ, ◌≡◌, ◌≢◌, refl, List, [], ◌∷◌, arith, ◌⊎◌, inl, inr, ◌==◌, Bool-cases, if◌then◌else◌,
}

-- The loop over the file's table of handles: the first that names the object, or 0.
pub gem_object_handle_lookup : List (ℕ × ℕ) → ℕ → ℕ
gem_object_handle_lookup [] obj = 0
gem_object_handle_lookup ((handle, it) ∷ rest) obj =
    if it == obj then handle else gem_object_handle_lookup rest obj

-- `(handle, obj)` is an entry
abbrev pub Has : List (ℕ × ℕ) → ℕ → ℕ → Type 0
Has [] handle obj = ⊥
Has ((h, o) ∷ rest) handle obj = ((h ≡ handle) × (o ≡ obj)) ⊎ Has rest handle obj

-- no entry has the handle 0, which stands for none
abbrev pub NoZero : List (ℕ × ℕ) → Type 0
NoZero [] = Unit {0}
NoZero ((h, _) ∷ rest) = (h ≢ 0) × NoZero rest

-- The lookup gives a handle of the object, or 0 where the table has none.
pub handle_lookup_lem :
    (table : List (ℕ × ℕ)) (obj : ℕ)
    → NoZero table
    → let handle = gem_object_handle_lookup table obj in
      (handle ≢ 0 → Has table handle obj) × ((h : ℕ) → Has table h obj → handle ≢ 0)
unfolding gem_object_handle_lookup
handle_lookup_lem [] obj z = (λ n. absurd (n refl), λ h e. elim e [ ])
handle_lookup_lem ((h, o) ∷ rest) obj z =
    let ih = handle_lookup_lem rest obj z.1 in
    elim (Bool-cases (o == obj)) [
      | inl e ↦ rw e (λ n. inl (refl, ground arith), λ k p. z.0)
      | inr e ↦
          rw e
            (λ n. inr (ih.0 n), λ k p. elim p [ inl q ↦ absurd (ground arith) | inr q ↦ ih.1 k q ])
    ]
