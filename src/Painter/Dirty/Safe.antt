-- ===== src/Painter/Dirty/Safe.antt =====
-- Marking dirty rectangles: the write stays inside the array, and no dirty pixel is forgotten.
use evdi.Prelude.{
  ℕ, ◌≤◌, ◌<◌, ◌≡◌, some, arith, ◌==◌, if-cases, length, length-set, get_or-set, Bool-cases, ◌⊎◌,
  inl, inr,
}
use evdi.Rect.{Rect, no_rect, max_dirts, Dirts, merge_dirty_rects, collapse_dirty_rects}
use evdi.Rect.Sanitize.{IsU16, IsWithin, Covers, Spans, sanitize-IsWithin, sanitize-Covers}
use evdi.Rect.Merge.{merge-Shape, collapse-Shape}
use evdi.Rect.Cover.{
  IsDirty, AllWithin, merge-IsDirty, merge-AllWithin, collapse-IsDirty, collapse-AllWithin,
}
use evdi.World.{Framebuffer}
use evdi.Painter.State.{Painter}
use evdi.Painter.Dirty.{merge_if_full, make_room, add_dirty, mark_on, dirts_of}

-- the array has its declared length, and no more entries are in use than it has
abbrev pub DirtsOk : Dirts → Type 0
DirtsOk d = (length d.0 ≡ max_dirts) × (d.1 ≤ max_dirts)

merge_if_full-keeps {ℓ} :
    (P : Dirts → Type ℓ) (d : Dirts)
    → DirtsOk d
    → (DirtsOk d → P d → P (merge_dirty_rects d))
    → P d
    → P (merge_if_full d)
unfolding merge_if_full
merge_if_full-keeps P d v merge p = if-cases P _ _ _ (λ e. merge v p) (λ e. p)

merge_if_full-DirtsOk : (d : Dirts) → DirtsOk d → DirtsOk (merge_if_full d)
merge_if_full-DirtsOk d v =
    merge_if_full-keeps DirtsOk d v (λ w q. omega (arith, w, merge-Shape d (omega (arith, w)))) v

-- what both merging and collapsing keep of the array
room-keeps {ℓ} :
    (P : Dirts → Type ℓ) (d : Dirts)
    → DirtsOk d
    → ((e : Dirts) → DirtsOk e → P e → P (merge_dirty_rects e))
    → ((e : Dirts) → DirtsOk e → 0 < e.1 → P e → P (collapse_dirty_rects e))
    → P d
    → P (make_room d)
unfolding make_room
room-keeps P d v merge collapse p =
    let kept : P (merge_if_full d) = merge_if_full-keeps P d v (merge d) p in
    if-cases P ((merge_if_full d).1 == max_dirts) _ _
      (λ e. collapse (merge_if_full d) (merge_if_full-DirtsOk d v) (ground arith) kept) (λ e. kept)

-- There is room after `make_room`: the next write is in bounds.
pub make_room-room :
    (d : Dirts) → DirtsOk d → (length (make_room d).0 ≡ max_dirts) × ((make_room d).1 < max_dirts)
unfolding make_room
make_room-room d v =
    let merged = merge_if_full-DirtsOk d v in
    if-cases {A = Dirts} (λ e. (length e.0 ≡ max_dirts) × (e.1 < max_dirts))
      ((merge_if_full d).1 == max_dirts) _ _
      (λ e. omega (arith, merged, collapse-Shape (merge_if_full d))) (λ e. ground (arith, merged))

-- The new entry is written inside the array, which stays well formed, for the next call and all later.
pub add_dirty-DirtsOk :
    (d : Dirts) (rect : Rect)
    → DirtsOk d
    → ((make_room d).1 < length (make_room d).0) × DirtsOk (add_dirty d rect)
unfolding add_dirty
add_dirty-DirtsOk d rect v =
    omega (arith, make_room-room d v, length-set (make_room d).0 (make_room d).1 rect)

-- The pixels of the new rectangle are dirty, and those that were dirty stay so.
pub add_dirty-IsDirty :
    (d : Dirts) (rect : Rect) (x y : ℕ)
    → DirtsOk d
    → IsDirty d x y ⊎ Covers rect x y
    → IsDirty (add_dirty d rect) x y
unfolding add_dirty
add_dirty-IsDirty d rect x y v (inr h) =
    let room = make_room-room d v in
    (
      (make_room d).1,
      omega arith,
      ground (
        arith,
        get_or-set (make_room d).0 (make_room d).1 (make_room d).1 rect no_rect
            (omega (arith, room)),
      ),
    )
add_dirty-IsDirty d rect x y v (inl h) =
    let room = make_room-room d v in
    let (i, il, c) =
      room-keeps (λ e. IsDirty e x y) d v (λ e w. merge-IsDirty e x y (omega (arith, w)))
        (λ e w _. collapse-IsDirty e x y (omega (arith, w))) h in
    (
      i,
      omega (arith, il),
      ground (
        arith,
        c,
        il,
        get_or-set (make_room d).0 (make_room d).1 i rect no_rect (omega (arith, room)),
      ),
    )

add_dirty-AllWithin :
    (w h : ℕ) (d : Dirts) (rect : Rect)
    → DirtsOk d
    → AllWithin w h d
    → IsWithin w h rect
    → AllWithin w h (add_dirty d rect)
unfolding add_dirty
add_dirty-AllWithin w h d rect v all inside i il =
    let room = make_room-room d v in
    let kept =
      room-keeps (AllWithin w h) d v (λ e s. merge-AllWithin w h e (omega (arith, s)))
        (λ e s z. collapse-AllWithin w h e z (omega (arith, s))) all in
    elim (Bool-cases ((make_room d).1 == i)) [
      | inl e ↦
          rw (get_or-set (make_room d).0 (make_room d).1 i rect no_rect (omega (arith, room)), e)
            inside
      | inr e ↦
          rw (get_or-set (make_room d).0 (make_room d).1 i rect no_rect (omega (arith, room)), e)
            (kept i (ground (arith, il)))
    ]

-- A damage report never forgets: with a scanout framebuffer, a well-formed array and a report in
-- 16-bit numbers, each pixel of the framebuffer that was dirty or that the report spans is
-- covered by an entry afterwards, whatever was merged or collapsed to make room.
pub mark_on-IsDirty :
    (p : Painter) (fb : Framebuffer) (r : Rect) (x y : ℕ)
    → DirtsOk (dirts_of p)
    → IsU16 r
    → x < fb.width
    → y < fb.height
    → IsDirty (dirts_of p) x y ⊎ Spans r.x1 r.x2 x × Spans r.y1 r.y2 y
    → IsDirty (dirts_of (mark_on p (some fb) r)) x y
unfolding mark_on
mark_on-IsDirty p fb r x y v u hx hy (inl d) = add_dirty-IsDirty (dirts_of p) _ x y v (inl d)
mark_on-IsDirty p fb r x y v u hx hy (inr (sx, sy)) =
    add_dirty-IsDirty (dirts_of p) _ x y v
      (inr ((sanitize-Covers fb.width fb.height r x y u).0 (sx, sy, hx, hy)))

-- With a well-formed array of rectangles inside the scanout framebuffer, a report in 16-bit
-- numbers leaves the array well formed and all its entries in use inside the framebuffer.
pub mark_on-AllWithin :
    (p : Painter) (fb : Framebuffer) (r : Rect)
    → DirtsOk (dirts_of p)
    → IsU16 r
    → AllWithin fb.width fb.height (dirts_of p)
    → DirtsOk (dirts_of (mark_on p (some fb) r))
      × AllWithin fb.width fb.height (dirts_of (mark_on p (some fb) r))
unfolding mark_on
mark_on-AllWithin p fb r v u all = (
  (add_dirty-DirtsOk (dirts_of p) _ v).1,
  add_dirty-AllWithin fb.width fb.height (dirts_of p) _ v all
      (sanitize-IsWithin fb.width fb.height u),
)

-- After a report something is dirty.
pub mark_on_pos :
    (p : Painter) (fb : Framebuffer) (r : Rect) → 0 < (mark_on p (some fb) r).num_dirts
unfolding mark_on add_dirty
mark_on_pos p fb r = omega arith
