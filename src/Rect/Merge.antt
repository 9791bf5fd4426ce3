-- ===== src/Rect/Merge.antt =====
-- `merge_dirty_rects` and `collapse_dirty_rects`: writes stay inside the array, the number of entries
-- in use only falls, and the fuel of the outer loop is enough.
use evdi.Prelude.{
  ℕ, zero, suc, ◌+◌, ◌-◌, ◌≤◌, ◌<◌, ◌≡◌, refl, List, true, arith, ltb, ◌==◌, if◌then◌else◌, length,
  length-set, get_or, get_or-set, set, Bool-cases, inl, inr, ◌∙◌,
}
use native.Mathlib.Nat.{suc-add}
use evdi.Rect.{
  Rect, no_rect, Dirts, expand_rect, is_mergeable, merge_pair, merge_inner, merge_outer,
  merge_dirty_rects, collapse_from, collapse_dirty_rects,
}

pub length-merge_pair :
    (a b c : ℕ) (rects : List Rect) → length (merge_pair a b c rects) ≡ length rects
unfolding merge_pair
length-merge_pair a b c rects = length-set _ b _ ∙ length-set rects a _

-- what `merge_pair` leaves at each index
pub get_or-merge_pair :
    (a b c j : ℕ) (rects : List Rect)
    → a < b
    → b ≤ c
    → c < length rects
    → get_or (merge_pair a b c rects) j no_rect ≡ (
        if b == j
        then get_or rects c no_rect
        else if a == j
        then expand_rect (get_or rects a no_rect) (get_or rects b no_rect)
        else get_or rects j no_rect)
unfolding merge_pair
get_or-merge_pair a b c j rects ab bc cl = ground (
  arith,
  length-set rects a (expand_rect (get_or rects a no_rect) (get_or rects b no_rect)),
  get_or-set rects a j (expand_rect (get_or rects a no_rect) (get_or rects b no_rect)) no_rect,
  get_or-set rects a c (expand_rect (get_or rects a no_rect) (get_or rects b no_rect)) no_rect,
  get_or-set (set rects a (expand_rect (get_or rects a no_rect) (get_or rects b no_rect))) b j
      (get_or (set rects a (expand_rect (get_or rects a no_rect) (get_or rects b no_rect))) c
        no_rect)
      no_rect,
)

-- A property of the array that every merge into `a` keeps. A merge happens at `a < b ≤ c` alone,
-- with the array in range.
abbrev pub Keeps {ℓ} : (Dirts → Type ℓ) → ℕ → Type ℓ
Keeps P a =
    (b c : ℕ) (rects : List Rect)
    → a < b
    → b ≤ c
    → c < length rects
    → is_mergeable (get_or rects a no_rect) (get_or rects b no_rect) ≡ true
    → P (rects, suc c)
    → P (merge_pair a b c rects, c)

-- the inner loop keeps what every merge keeps
pub merge_inner-keeps {ℓ} :
    (P : Dirts → Type ℓ) (a : ℕ) (keeps : Keeps P a) (count left : ℕ) (rects : List Rect)
    → left ≤ count - (a + 1)
    → count ≤ length rects
    → P (rects, count)
    → P (merge_inner a count left rects)
unfolding merge_inner
merge_inner-keeps P a keeps zero left rects hl hc p = p
merge_inner-keeps P a keeps (suc c) zero rects hl hc p = p
merge_inner-keeps P a keeps (suc c) (suc left) rects hl hc p =
    elim (Bool-cases (is_mergeable (get_or rects a no_rect) (get_or rects (c - left) no_rect))) [
      | inl e ↦
          rw (e, merge_inner)
            (merge_inner-keeps P a keeps c (c - (a + 1)) (merge_pair a (c - left) c rects)
              (omega arith) (omega (arith, length-merge_pair a (c - left) c rects))
              (keeps (c - left) c rects (omega arith) (omega arith) (omega arith) e p))
      | inr e ↦
          rw (e, merge_inner) (merge_inner-keeps P a keeps (suc c) left rects (omega arith) hc p)
    ]

-- an upper and a lower bound on the count, and the length of the array
abbrev pub Shape : ℕ → ℕ → ℕ → Dirts → Type 0
Shape a n len d = (d.1 ≤ n) × (a < d.1) × (length d.0 ≡ len)

pub merge_inner-Shape :
    (a count : ℕ) (rects : List Rect)
    → a < count
    → count ≤ length rects
    → Shape a count (length rects) (merge_inner a count (count - (a + 1)) rects)
merge_inner-Shape a count rects ha hc =
    merge_inner-keeps (Shape a count (length rects)) a
      (λ b c r ab bc cl m s. omega (arith, length-merge_pair a b c r)) count (count - (a + 1)) rects
      (omega arith) hc (omega arith)

-- so does the outer loop
pub merge_outer-keeps {ℓ} :
    (P : Dirts → Type ℓ) (keeps : (a : ℕ) → Keeps P a) (fuel a count : ℕ) (rects : List Rect)
    → count ≤ length rects
    → P (rects, count)
    → P (merge_outer fuel a (rects, count))
unfolding merge_outer
merge_outer-keeps P keeps zero a count rects hc p = p
merge_outer-keeps P keeps (suc fuel) a count rects hc p = elim (Bool-cases (ltb a (count - 1))) [
  | inl e ↦
      let d = merge_inner a count (count - (a + 1)) rects in
      let s : Shape a count (length rects) d = merge_inner-Shape a count rects (ground arith) hc in
      rw (e, merge_outer)
        (merge_outer-keeps P keeps fuel (a + 1) d.1 d.0 (omega (arith, s))
          (merge_inner-keeps P a (keeps a) count (count - (a + 1)) rects (omega arith) hc p))
  | inr e ↦ rw (e, merge_outer) p
]

pub merge-keeps {ℓ} :
    (P : Dirts → Type ℓ) (keeps : (a : ℕ) → Keeps P a) (d : Dirts)
    → d.1 ≤ length d.0
    → P d
    → P (merge_dirty_rects d)
unfolding merge_dirty_rects
merge-keeps P keeps (rects, count) hc p = merge_outer-keeps P keeps count 0 count rects hc p

-- `merge_dirty_rects` leaves the array its length, never makes more entries used, and never drops
-- the last one.
pub merge-Shape :
    (d : Dirts)
    → d.1 ≤ length d.0
    → ((merge_dirty_rects d).1 ≤ d.1)
      × (0 < d.1 → 0 < (merge_dirty_rects d).1)
      × (length (merge_dirty_rects d).0 ≡ length d.0)
merge-Shape d hc =
    merge-keeps (λ e. (e.1 ≤ d.1) × (0 < d.1 → 0 < e.1) × (length e.0 ≡ length d.0))
      (λ a b c r ab bc cl m s.
        (omega arith, λ h. omega arith, omega (arith, length-merge_pair a b c r)))
      d hc (omega arith, λ h. h, refl)

-- more fuel than the entries from `a` on does not change the result of the outer loop
merge_outer-fuel :
    (fuel k a count : ℕ) (rects : List Rect)
    → count ≤ length rects
    → count ≤ fuel + a
    → merge_outer (fuel + k) a (rects, count) ≡ merge_outer fuel a (rects, count)
unfolding merge_outer
merge_outer-fuel zero zero a count rects hl h = refl
merge_outer-fuel zero (suc k) a count rects hl h = ground arith
merge_outer-fuel (suc fuel) k a count rects hl h =
    rw suc-add (elim (Bool-cases (ltb a (count - 1))) [
      | inl e ↦
          let d = merge_inner a count (count - (a + 1)) rects in
          let s : Shape a count (length rects) d =
            merge_inner-Shape a count rects (ground arith) hl in
          rw (e, merge_outer)
            (merge_outer-fuel fuel k (a + 1) d.1 d.0 (omega (arith, s)) (omega (arith, s)))
      | inr e ↦ rw (e, merge_outer)
    ])

-- With no more entries in use than the array has, the fuel of `merge_dirty_rects`, the number in
-- use, is enough: more of it gives the same result.
pub merge-fuel :
    (k : ℕ) (d : Dirts) → d.1 ≤ length d.0 → merge_outer (d.1 + k) 0 d ≡ merge_dirty_rects d
unfolding merge_dirty_rects
merge-fuel k (rects, count) hc = merge_outer-fuel count k 0 count rects hc (omega arith)

collapse_from-length :
    (left i : ℕ) (rects : List Rect) → length (collapse_from left i rects) ≡ length rects
unfolding collapse_from
collapse_from-length zero i rects = refl
collapse_from-length (suc left) i rects = collapse_from-length left (i + 1) _ ∙ length-set rects 0 _

pub collapse-Shape :
    (d : Dirts)
    → ((collapse_dirty_rects d).1 ≡ 1) × (length (collapse_dirty_rects d).0 ≡ length d.0)
unfolding collapse_dirty_rects
collapse-Shape (rects, count) = (refl, collapse_from-length (count - 1) 1 rects)
