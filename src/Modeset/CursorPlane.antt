-- ===== src/Modeset/CursorPlane.antt =====
-- What is dirty after an update of the cursor plane, where the cursor is drawn into the picture.
use evdi.Prelude.{
  ℕ, ◌+◌, ◌%◌, ◌^◌, ◌<◌, ◌≤◌, ◌≡◌, sym, subst, arith, ◌⊎◌, inl, inr, Bool, true, false, some,
  if-cases, if◌then◌else◌,
}
use evdi.Prelude.Int.{ℤ, pos, negsuc, pos_part, neg_part, ltb_ℤ, to_u32, ◌+ℤ◌}
use evdi.Rect.{Rect}
use evdi.Rect.Sanitize.{IsU16, Spans}
use evdi.Rect.Cover.{IsDirty}
use evdi.World.{Framebuffer}
use evdi.Painter.State.{Painter, Device}
use evdi.Painter.Dirty.{painter_mark_dirty, dirts_of, framebuffer_size}
use evdi.Painter.Dirty.Safe.{DirtsOk}
use evdi.Modeset.{PlaneState, to_u16, cursor_atomic_get_rect, redraw_cursor}
use evdi.Modeset.Plane.{Dirties, mark_dirty-Dirties, weaken-Dirties}

-- a place of the cursor, which starts at `c` and is `n` long
abbrev pub Along : ℤ → ℕ → ℕ → Type 0
Along c n x = (pos_part c ≤ x + neg_part c) × (x + neg_part c < pos_part c + n)

-- its end is below 2 ^ 16
abbrev pub EndsBelow : ℤ → ℕ → Type 0
EndsBelow c n = pos_part c + n < 2 ^ 16 + neg_part c

start_at : ℤ → ℕ
start_at c = if ltb_ℤ c (pos 0) then 0 else to_u16 c

Along-Spans :
    (c : ℤ) (n x : ℕ) → EndsBelow c n → Along c n x → Spans (start_at c) (to_u16 (c +ℤ pos n)) x
unfolding start_at ◌+ℤ◌ to_u32
Along-Spans (pos a) n x e h = ground arith
Along-Spans (negsuc a) n x e h = ground arith

-- a pixel of the picture that the plane covers
abbrev pub UnderCursor : PlaneState → ℕ → ℕ → Type 0
UnderCursor st x y = Along st.crtc_x st.crtc_w x × Along st.crtc_y st.crtc_h y

abbrev pub OnScreen : PlaneState → Type 0
OnScreen st = EndsBelow st.crtc_x st.crtc_w × EndsBelow st.crtc_y st.crtc_h

rect-IsU16 : (st : PlaneState) → IsU16 (cursor_atomic_get_rect st)
unfolding cursor_atomic_get_rect
rect-IsU16 st = record {
  x1_fits = below (ltb_ℤ st.crtc_x (pos 0)) (to_u32 st.crtc_x);
  y1_fits = below (ltb_ℤ st.crtc_y (pos 0)) (to_u32 st.crtc_y);
  x2_fits = omega arith;
  y2_fits = omega arith;
}
  where
    below : (b : Bool) (n : ℕ) → (if b then 0 else n % 2 ^ 16) < 2 ^ 16
    below true n = omega arith
    below false n = omega arith

-- one report covers the plane's pixels
mark_cursor-Dirties :
    (d : Device) (fb : Framebuffer) (P : ℕ → ℕ → Type 0) (st : PlaneState)
    → OnScreen st
    → Dirties d fb P
    → Dirties
        (painter_mark_dirty d (cursor_atomic_get_rect st))
        fb
        (λ x y. P x y ⊎ UnderCursor st x y)
unfolding cursor_atomic_get_rect start_at
mark_cursor-Dirties d fb P st (ex, ey) h =
    weaken-Dirties (painter_mark_dirty d (cursor_atomic_get_rect st)) fb _ _
      (λ x y k. elim k [
        | inl l ↦ inl l
        | inr l ↦
            inr (Along-Spans st.crtc_x st.crtc_w x ex l.0, Along-Spans st.crtc_y st.crtc_h y ey l.1)
      ])
      (mark_dirty-Dirties d fb P (cursor_atomic_get_rect st) (rect-IsU16 st) h)

-- a pixel that was dirty, or that the cursor covered or covers
abbrev pub Redrawn : Painter → PlaneState → PlaneState → ℕ → ℕ → Type 0
Redrawn p old state x y = (IsDirty (dirts_of p) x y ⊎ UnderCursor old x y) ⊎ UnderCursor state x y

-- Where the cursor is drawn into the picture and has a framebuffer, every pixel that was dirty or that
-- the cursor covered or covers is dirty after the update, also where the cursor reaches over an edge: its
-- place is negative, or it ends behind the picture, but below 2 ^ 16.
pub redraw_cursor-Dirties :
    (d : Device) (scanout : Framebuffer) (p : Painter) (old state : PlaneState) (fb : Framebuffer)
    → d.painter ≡ some p
    → p.scanout_fb ≡ some scanout
    → DirtsOk (dirts_of p)
    → scanout.width < 2 ^ 16
    → scanout.height < 2 ^ 16
    → OnScreen old
    → OnScreen state
    → Dirties (redraw_cursor d old state (some fb)) scanout (Redrawn p old state)
unfolding redraw_cursor
redraw_cursor-Dirties d scanout p old state fb e s v w h on_old on_state =
    let start : Dirties d scanout (IsDirty (dirts_of p)) = (p, e, s, v, λ x y hx hy k. k) in
    if-cases (λ d'. Dirties d' scanout (Redrawn p old state))
      (d.world.gems fb.obj).allow_sw_cursor_rect_updates _ _
      (λ _.
        mark_cursor-Dirties (painter_mark_dirty d (cursor_atomic_get_rect old)) scanout _ state
          on_state (mark_cursor-Dirties d scanout (IsDirty (dirts_of p)) old on_old start))
      (λ _. all_of_it start)
  where
    full : Rect
    full = record { x1 = 0; y1 = 0; x2 = scanout.width; y2 = scanout.height }

    all_of_it :
        Dirties d scanout (IsDirty (dirts_of p))
        → Dirties (painter_mark_dirty d (framebuffer_size d.painter)) scanout (Redrawn p old state)
    all_of_it k =
        let size : framebuffer_size d.painter ≡ full = ground arith in
        let (q, e', s', v', dirty) =
          mark_dirty-Dirties d scanout (IsDirty (dirts_of p)) full (omega arith) k in
        subst (λ r. Dirties (painter_mark_dirty d r) scanout (Redrawn p old state)) (sym size)
          (q, e', s', v', λ x y hx hy _. dirty x y hx hy (inr (omega arith, omega arith)))
