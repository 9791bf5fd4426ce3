-- ===== src/Rect/Cover.antt =====
-- What the dirty rectangles cover: merging and collapsing lose no pixel, stay within the framebuffer,
-- and what a merge adds is paid for by the area.
use evdi.Prelude.{
  ℕ, zero, suc, ◌+◌, ◌-◌, ◌≤◌, ◌<◌, List, arith, ◌==◌, length, length-set, get_or, get_or-set, set,
  Bool-cases, inl, inr, ◌⊎◌,
}
use evdi.Rect.{
  Rect, no_rect, Dirts, expand_rect, merge_pair, merge_dirty_rects, collapse_from,
  collapse_dirty_rects,
}
use evdi.Rect.Sanitize.{IsWithin, Covers}
use evdi.Rect.Merge.{get_or-merge_pair, merge-keeps}

-- the box covers what either rectangle does
pub expand-Covers :
    (a b : Rect) (x y : ℕ)
    → (Covers a x y → Covers (expand_rect a b) x y) × (Covers b x y → Covers (expand_rect a b) x y)
unfolding expand_rect
expand-Covers a b x y = (λ h. omega arith, λ h. omega arith)

pub expand-IsWithin :
    (w h : ℕ) (a b : Rect) → IsWithin w h a → IsWithin w h b → IsWithin w h (expand_rect a b)
unfolding expand_rect
expand-IsWithin w h a b va vb = omega arith

-- some entry in use covers the pixel
abbrev pub IsDirty : Dirts → ℕ → ℕ → Type 0
IsDirty d x y = (i : ℕ) × (i < d.1) × Covers (get_or d.0 i no_rect) x y

-- every entry in use lies within the framebuffer
abbrev pub AllWithin : ℕ → ℕ → Dirts → Type 0
AllWithin w h d = (i : ℕ) → i < d.1 → IsWithin w h (get_or d.0 i no_rect)

pair-IsDirty :
    (x y a b c : ℕ) (rects : List Rect)
    → a < b
    → b ≤ c
    → c < length rects
    → IsDirty (rects, suc c) x y
    → IsDirty (merge_pair a b c rects, c) x y
pair-IsDirty x y a b c rects ab bc cl (i, ic, h) = elim (Bool-cases (a == i)) [
  | inl e ↦ (
    a,
    omega arith,
    ground (
      arith,
      get_or-merge_pair a b c a rects ab bc cl,
      expand-Covers (get_or rects a no_rect) (get_or rects b no_rect) x y,
    ),
  )
  | inr n ↦ elim (Bool-cases (b == i)) [
    | inl e ↦ (
      a,
      omega arith,
      ground (
        arith,
        get_or-merge_pair a b c a rects ab bc cl,
        expand-Covers (get_or rects a no_rect) (get_or rects b no_rect) x y,
      ),
    )
    | inr m ↦ elim (Bool-cases (c == i)) [
      | inl e ↦ (b, ground arith, ground (arith, get_or-merge_pair a b c b rects ab bc cl))
      | inr l ↦ (i, ground arith, ground (arith, get_or-merge_pair a b c i rects ab bc cl))
    ]
  ]
]

-- With no more entries in use than the array has, a pixel that some rectangle in use covers is
-- covered by one after the merge.
pub merge-IsDirty :
    (d : Dirts) (x y : ℕ) → d.1 ≤ length d.0 → IsDirty d x y → IsDirty (merge_dirty_rects d) x y
merge-IsDirty d x y hc =
    merge-keeps (λ e. IsDirty e x y) (λ a b c r ab bc cl m. pair-IsDirty x y a b c r ab bc cl) d hc

pub pair-AllWithin :
    (w h a b c : ℕ) (rects : List Rect)
    → a < b
    → b ≤ c
    → c < length rects
    → AllWithin w h (rects, suc c)
    → AllWithin w h (merge_pair a b c rects, c)
pair-AllWithin w h a b c rects ab bc cl all i ic = ground (
  arith,
  get_or-merge_pair a b c i rects ab bc cl,
  all a (omega arith),
  all b (omega arith),
  all c (omega arith),
  all i (omega arith),
  expand-IsWithin w h (get_or rects a no_rect) (get_or rects b no_rect),
)

-- Merging keeps all entries in use within a framebuffer that they all lie within.
pub merge-AllWithin :
    (w h : ℕ) (d : Dirts) → d.1 ≤ length d.0 → AllWithin w h d → AllWithin w h (merge_dirty_rects d)
merge-AllWithin w h d hc =
    merge-keeps (AllWithin w h) (λ a b c r ab bc cl m. pair-AllWithin w h a b c r ab bc cl) d hc

-- `out` covers the pixel, if the first entry or one of `left` entries from `i` on does
abbrev Gathers : ℕ → ℕ → ℕ → ℕ → List Rect → Rect → Type 0
Gathers x y left i rects out =
    (Covers (get_or rects 0 no_rect) x y → Covers out x y)
    × ((j : ℕ) → i ≤ j → j < i + left → Covers (get_or rects j no_rect) x y → Covers out x y)

gather_one :
    (x y left i : ℕ) (rects : List Rect) (out : Rect)
    → 0 < i
    → i + suc left ≤ length rects
    → Gathers x y left
        (i + 1)
        (set rects 0 (expand_rect (get_or rects 0 no_rect) (get_or rects i no_rect)))
        out
    → Gathers x y (suc left) i rects out
gather_one x y left i rects out hi hl g = (
  λ h. g.0 (widen (inl h)),
  λ j p q h. elim (Bool-cases (i == j)) [
    | inl e ↦ g.0 (widen (inr (ground arith)))
    | inr n ↦
        g.1 j (ground arith) (omega arith)
          (rw (get_or-set rects 0 j box no_rect (omega arith)) (ground arith))
  ],
)
  where
    box : Rect
    box = expand_rect (get_or rects 0 no_rect) (get_or rects i no_rect)

    widen :
        (Covers (get_or rects 0 no_rect) x y ⊎ Covers (get_or rects i no_rect) x y)
        → Covers (get_or (set rects 0 box) 0 no_rect) x y
    widen c =
        rw (get_or-set rects 0 0 box no_rect (omega arith))
          (ground (arith, expand-Covers (get_or rects 0 no_rect) (get_or rects i no_rect) x y))

collapse_from-Gathers :
    (left i x y : ℕ) (rects : List Rect)
    → 0 < i
    → i + left ≤ length rects
    → Gathers x y left i rects (get_or (collapse_from left i rects) 0 no_rect)
unfolding collapse_from
collapse_from-Gathers zero i x y rects hi hl = (λ h. h, λ j p q. absurd (omega arith))
collapse_from-Gathers (suc left) i x y rects hi hl = gather_one x y left i rects _ hi hl (
    collapse_from-Gathers left (i + 1) x y _ (omega arith) (
      omega (
        arith,
        length-set rects 0 (expand_rect (get_or rects 0 no_rect) (get_or rects i no_rect)),
      )))

-- With no more entries in use than the array has, the one rectangle that collapsing leaves
-- covers every pixel that an entry in use did.
pub collapse-IsDirty :
    (d : Dirts) (x y : ℕ) → d.1 ≤ length d.0 → IsDirty d x y → IsDirty (collapse_dirty_rects d) x y
unfolding collapse_dirty_rects
collapse-IsDirty (rects, count) x y hc (zero, ic, h) = (
  0,
  omega arith,
  (collapse_from-Gathers (count - 1) 1 x y rects (omega arith) (omega arith)).0 h,
)
collapse-IsDirty (rects, count) x y hc (suc i, ic, h) = (
  0,
  omega arith,
  (collapse_from-Gathers (count - 1) 1 x y rects (omega arith) (omega arith)).1 (suc i)
      (omega arith) (omega arith) h,
)

collapse_from-IsWithin :
    (w h left i : ℕ) (rects : List Rect)
    → 0 < i
    → i + left ≤ length rects
    → ((j : ℕ) → j < i + left → IsWithin w h (get_or rects j no_rect))
    → IsWithin w h (get_or (collapse_from left i rects) 0 no_rect)
unfolding collapse_from
collapse_from-IsWithin w h zero i rects hi hl all = all 0 (omega arith)
collapse_from-IsWithin w h (suc left) i rects hi hl all =
    collapse_from-IsWithin w h left (i + 1) (set rects 0 box) (omega arith)
      (omega (arith, length-set rects 0 box))
      λ j jl. ground (
        arith,
        get_or-set rects 0 j box no_rect,
        all j (omega arith),
        all 0 (omega arith),
        all i (omega arith),
        expand-IsWithin w h (get_or rects 0 no_rect) (get_or rects i no_rect),
      )
  where
    box : Rect
    box = expand_rect (get_or rects 0 no_rect) (get_or rects i no_rect)

pub collapse-AllWithin :
    (w h : ℕ) (d : Dirts)
    → 0 < d.1
    → d.1 ≤ length d.0
    → AllWithin w h d
    → AllWithin w h (collapse_dirty_rects d)
unfolding collapse_dirty_rects
collapse-AllWithin w h (rects, count) hp hc all zero ic =
    collapse_from-IsWithin w h (count - 1) 1 rects (omega arith) (omega arith)
      (λ j jl. all j (omega arith))
collapse-AllWithin w h (rects, count) hp hc all (suc i) ic = absurd (omega arith)
