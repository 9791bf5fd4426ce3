-- ===== src/Rect/Area.antt =====
-- The pixels that the dirty rectangles count for: `rect_area` does not overflow inside a framebuffer
-- of fewer than 2 ^ 30 pixels, and a merge does not raise the total.
use evdi.Prelude.{
  ℕ, zero, suc, ◌+◌, ◌-◌, ◌*◌, ◌^◌, ◌≤◌, ◌<◌, ◌≡◌, refl, List, true, arith, ◌==◌, length,
  length-set, get_or, get_or-set, set, Bool-cases, inl, inr, leb→le,
}
use evdi.Prelude.Int.{pos, ◌-ℤ◌, ◌*ℤ◌, ◌+ℤ◌, wrap32_small}
use evdi.Rect.{
  Rect, no_rect, Dirts, expand_rect, rect_area, is_mergeable, merge_pair, merge_dirty_rects,
}
use evdi.Rect.Sanitize.{IsWithin}
use evdi.Rect.Merge.{merge-keeps}
use evdi.Rect.Cover.{AllWithin, expand-IsWithin, pair-AllWithin}

abbrev pub pixels : Rect → ℕ
pixels r = (r.x2 - r.x1) * (r.y2 - r.y1)

abbrev pub pixels_sum : ℕ → List Rect → ℕ
pixels_sum zero rects = 0
pixels_sum (suc n) rects = pixels_sum n rects + pixels (get_or rects n no_rect)

pub pixels-le : {w h : ℕ} {r : Rect} → IsWithin w h r → pixels r ≤ w * h
pixels-le {w} {h} {r} v = grind arith

sub_pos : (a b : ℕ) → a ≤ b → pos b -ℤ pos a ≡ pos (b - a)
unfolding ◌-ℤ◌
sub_pos a b h = ground arith

mul_pos : (a b : ℕ) → pos a *ℤ pos b ≡ pos (a * b)
unfolding ◌*ℤ◌
mul_pos a b = ground arith

add_pos : (a b : ℕ) → pos a +ℤ pos b ≡ pos (a + b)
unfolding ◌+ℤ◌
add_pos a b = ground arith

-- Inside a framebuffer of fewer than 2 ^ 30 pixels, `rect_area` is the number of pixels.
pub rect_area-pixels :
    {w h : ℕ} {r : Rect} → IsWithin w h r → w * h < 2 ^ 30 → rect_area r ≡ pos (pixels r)
unfolding rect_area
rect_area-pixels {w} {h} {r} v s =
    rw (sub_pos r.x1 r.x2 v.x_upright, sub_pos r.y1 r.y2 v.y_upright, mul_pos)
      (wrap32_small (pixels r) (omega (arith, pixels-le v)))

mergeable-pixels :
    {w h : ℕ} (a b : Rect)
    → IsWithin w h a
    → IsWithin w h b
    → w * h < 2 ^ 30
    → is_mergeable a b ≡ true
    → pixels (expand_rect a b) ≤ pixels a + pixels b
unfolding is_mergeable
mergeable-pixels {w} {h} a b va vb s m = leb→le _ _ (
    ground (
      arith,
      rect_area-pixels va s,
      rect_area-pixels vb s,
      rect_area-pixels (expand-IsWithin w h a b va vb) s,
      add_pos (pixels a) (pixels b),
      wrap32_small (pixels a + pixels b) (omega (arith, pixels-le va, pixels-le vb)),
      m,
    ))

-- a write from `n` on leaves the sum
pixels_sum-set_above :
    (n i : ℕ) (rects : List Rect) (v : Rect)
    → i < length rects
    → n ≤ i
    → pixels_sum n (set rects i v) ≡ pixels_sum n rects
pixels_sum-set_above zero i rects v hl hn = refl
pixels_sum-set_above (suc n) i rects v hl hn =
    ground (arith, pixels_sum-set_above n i rects v hl, get_or-set rects i n v no_rect hl)

-- a write below `n` exchanges one term of the sum
pixels_sum-set :
    (n i : ℕ) (rects : List Rect) (v : Rect)
    → i < length rects
    → i < n
    → pixels_sum n (set rects i v) + pixels (get_or rects i no_rect) ≡ pixels_sum n rects + pixels v
pixels_sum-set zero i rects v hl hn = absurd (omega arith)
pixels_sum-set (suc n) i rects v hl hn = elim (Bool-cases (i == n)) [
  | inl e ↦ ground (arith, pixels_sum-set_above n i rects v hl, get_or-set rects i n v no_rect hl)
  | inr e ↦ ground (arith, pixels_sum-set n i rects v hl, get_or-set rects i n v no_rect hl)
]

pair-pixels_sum :
    (a b c : ℕ) (rects : List Rect)
    → a < b
    → b ≤ c
    → c < length rects
    → pixels (expand_rect (get_or rects a no_rect) (get_or rects b no_rect))
      ≤ pixels (get_or rects a no_rect) + pixels (get_or rects b no_rect)
    → pixels_sum c (merge_pair a b c rects) ≤ pixels_sum (suc c) rects
unfolding merge_pair
pair-pixels_sum a b c rects ab bc cl m = elim (Bool-cases (b == c)) [
  | inl e ↦ ground (
    arith,
    length-set rects a box,
    pixels_sum-set c a rects box (omega arith) (omega arith),
    pixels_sum-set_above c b (set rects a box) (get_or (set rects a box) c no_rect)
        (omega (arith, length-set rects a box)),
  )
  | inr n ↦ ground (
    arith,
    length-set rects a box,
    pixels_sum-set c a rects box (omega arith) (omega arith),
    get_or-set rects a c box no_rect (omega arith),
    get_or-set rects a b box no_rect (omega arith),
    pixels_sum-set c b (set rects a box) (get_or (set rects a box) c no_rect)
        (omega (arith, length-set rects a box)),
  )
]
  where
    box : Rect
    box = expand_rect (get_or rects a no_rect) (get_or rects b no_rect)

-- For rectangles inside a framebuffer of fewer than 2 ^ 30 pixels, merging does not raise the
-- total of pixels that the entries in use count for.
pub merge-pixels_sum :
    (w h : ℕ) (d : Dirts)
    → d.1 ≤ length d.0
    → w * h < 2 ^ 30
    → AllWithin w h d
    → pixels_sum (merge_dirty_rects d).1 (merge_dirty_rects d).0 ≤ pixels_sum d.1 d.0
merge-pixels_sum w h d hc s all =
    (merge-keeps (λ e. AllWithin w h e × (pixels_sum e.1 e.0 ≤ pixels_sum d.1 d.0))
      (λ a b c r ab bc cl m p. (
        pair-AllWithin w h a b c r ab bc cl p.0,
        omega (
          arith,
          p.1,
          pair-pixels_sum a b c r ab bc cl (
              mergeable-pixels (get_or r a no_rect) (get_or r b no_rect) (p.0 a (omega arith))
                (p.0 b (omega arith)) s m),
        ),
      ))
      d hc (all, omega arith)).1
