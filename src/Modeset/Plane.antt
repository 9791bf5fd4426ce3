-- ===== src/Modeset/Plane.antt =====
-- What is dirty after an update of the primary plane.
use evdi.Prelude.{
  ℕ, ◌^◌, ◌<◌, ◌≡◌, refl, sym, ap, ◌∙◌, subst, arith, ◌⊎◌, inl, inr, Bool, true, false, not, ◌||◌,
  List, [], ◌∷◌, Option, some, ◌==◌, if◌then◌else◌, some-inj, Bool-cases,
}
use evdi.Rect.{Rect}
use evdi.Rect.Sanitize.{IsU16, Spans}
use evdi.Rect.Cover.{IsDirty}
use evdi.World.{World, Framebuffer}
use evdi.Painter.State.{Painter, Device, with_painter}
use evdi.Painter.Dirty.{mark_on, painter_mark_dirty, dirts_of, get_num_dirts}
use evdi.Painter.Dirty.Safe.{DirtsOk, add_dirty-DirtsOk, mark_on-IsDirty, mark_on_pos}
use evdi.Painter.Connect.{set_scanout_buffer}
use evdi.Painter.Display.{needs_full_modeset, force_full_modeset}
use evdi.Modeset.{
  PlaneState, DrmRect, clip_rect, mark_all, scan_out, same_fb, fullscreen_rect, mark_if_clean,
  forces_modeset, update_fb,
}

-- one of the rectangles spans the pixel
abbrev pub SpannedBy : List DrmRect → ℕ → ℕ → Type 0
SpannedBy [] x y = ⊥
SpannedBy (r ∷ rs) x y =
    (Spans (clip_rect r).x1 (clip_rect r).x2 x × Spans (clip_rect r).y1 (clip_rect r).y2 y)
    ⊎ SpannedBy rs x y

-- The painter of `d` scans `fb` out, its array is well formed, and every pixel of `fb` is dirty for which
-- `P` holds.
abbrev pub Dirties : Device → Framebuffer → (ℕ → ℕ → Type 0) → Type 0
Dirties d fb P =
    (q : Painter) × (d.painter ≡ some q)
    × (q.scanout_fb ≡ some fb)
    × DirtsOk (dirts_of q)
    × ((x y : ℕ) → x < fb.width → y < fb.height → P x y → IsDirty (dirts_of q) x y)

clip_rect-IsU16 : (r : DrmRect) → IsU16 (clip_rect r)
clip_rect-IsU16 r = omega arith

pub with_painter_lem :
    (d : Device) (f : Painter → World → Painter × World) (p : Painter)
    → d.painter ≡ some p
    → (with_painter d f).painter ≡ some (f p d.world).0
with_painter_lem d f p e = ground arith

marking : Rect → Painter → World → Painter × World
marking r p w = (mark_on p p.scanout_fb r, w)

-- the painter after a report
marked :
    (d : Device) (fb : Framebuffer) (r : Rect) (q : Painter)
    → d.painter ≡ some q
    → q.scanout_fb ≡ some fb
    → (painter_mark_dirty d r).painter ≡ some (mark_on q (some fb) r)
unfolding painter_mark_dirty marking
marked d fb r q e s = with_painter_lem d (marking r) q e ∙ ap (λ o. some (mark_on q o r)) s

-- one more rectangle
pub mark_dirty-Dirties :
    (d : Device) (fb : Framebuffer) (P : ℕ → ℕ → Type 0) (r : Rect)
    → IsU16 r
    → Dirties d fb P
    → Dirties (painter_mark_dirty d r) fb (λ x y. P x y ⊎ (Spans r.x1 r.x2 x × Spans r.y1 r.y2 y))
unfolding mark_on
mark_dirty-Dirties d fb P r u (q, e, s, v, dirty) = (
  mark_on q (some fb) r,
  marked d fb r q e s,
  s,
  (add_dirty-DirtsOk (dirts_of q) _ v).1,
  λ x y hx hy h.
      mark_on-IsDirty q fb r x y v u hx hy
        (elim h [ inl k ↦ inl (dirty x y hx hy k) | inr k ↦ inr k ]),
)

pub weaken-Dirties :
    (d : Device) (fb : Framebuffer) (P Q : ℕ → ℕ → Type 0)
    → ((x y : ℕ) → Q x y → P x y)
    → Dirties d fb P
    → Dirties d fb Q
weaken-Dirties d fb P Q h (q, e, s, v, dirty) =
    (q, e, s, v, λ x y hx hy k. dirty x y hx hy (h x y k))

mark_all-Dirties :
    (d : Device) (fb : Framebuffer) (P : ℕ → ℕ → Type 0) (damage : List DrmRect)
    → Dirties d fb P
    → Dirties (mark_all d damage) fb (λ x y. P x y ⊎ SpannedBy damage x y)
unfolding mark_all
mark_all-Dirties d fb P [] h =
    weaken-Dirties d fb P _ (λ x y k. elim k [ inl l ↦ l | inr l ↦ absurd l ]) h
mark_all-Dirties d fb P (r ∷ rs) h =
    let next = painter_mark_dirty d (clip_rect r) in
    weaken-Dirties (mark_all next rs) fb _ _
      (λ x y k. elim k [
        | inl l ↦ inl (inl l)
        | inr l ↦ elim l [ inl m ↦ inl (inr m) | inr m ↦ inr m ]
      ])
      (mark_all-Dirties next fb _ rs
        (mark_dirty-Dirties d fb P (clip_rect r) (clip_rect-IsU16 r) h))

-- what is dirty once nothing is clean
abbrev pub AllDirty : Device → Framebuffer → Type 0
AllDirty d fb =
    (q : Painter)
    → d.painter ≡ some q
    → (x y : ℕ) → x < fb.width
    → y < fb.height
    → IsDirty (dirts_of q) x y

fullscreen_rect-IsU16 : (fb : Framebuffer) → IsU16 (fullscreen_rect fb)
fullscreen_rect-IsU16 fb = omega arith

mark_full-Dirties :
    (d : Device) (fb : Framebuffer) (P : ℕ → ℕ → Type 0)
    → fb.width < 2 ^ 16
    → fb.height < 2 ^ 16
    → Dirties d fb P
    → let after = painter_mark_dirty d (fullscreen_rect fb) in
      Dirties after fb P × (0 < get_num_dirts after.painter) × AllDirty after fb
mark_full-Dirties d fb P w h (q, e, s, v, dirty) =
    let r = fullscreen_rect fb in
    let m = mark_dirty-Dirties d fb P r (fullscreen_rect-IsU16 fb) (q, e, s, v, dirty) in
    (
      weaken-Dirties (painter_mark_dirty d r) fb _ P (λ x y k. inl k) m,
      subst (λ o. 0 < get_num_dirts o) (sym (marked d fb r q e s)) (mark_on_pos q fb r),
      λ q' e' x y hx hy.
          subst (λ t. IsDirty (dirts_of t) x y) (some-inj (sym m.1 ∙ e'))
            (m.4 x y hx hy (inr (omega arith, omega arith))),
    )

mark_if_clean-Dirties :
    (d : Device) (fb : Framebuffer) (P : ℕ → ℕ → Type 0)
    → fb.width < 2 ^ 16
    → fb.height < 2 ^ 16
    → Dirties d fb P
    → let after = mark_if_clean d (fullscreen_rect fb) in
      Dirties after fb P
      × (0 < get_num_dirts after.painter)
      × (get_num_dirts d.painter ≡ 0 → AllDirty after fb)
unfolding mark_if_clean
mark_if_clean-Dirties d fb P w h dirties = elim (Bool-cases (get_num_dirts d.painter == 0)) [
  | inl clean ↦
      let (full, some_dirty, all) = mark_full-Dirties d fb P w h dirties in
      rw clean (full, some_dirty, λ _. all)
  | inr busy ↦ rw busy (dirties, ground arith, λ z. ground arith)
]

abbrev forcing : Painter → World → Painter × World
forcing p w = (force_full_modeset p, w)

-- with the forced modeset, if any
forced_painter :
    (d : Device) (c : Bool) (p : Painter)
    → d.painter ≡ some p
    → (q : Painter) × ((if c then with_painter d forcing else d).painter ≡ some q)
      × (dirts_of q ≡ dirts_of p)
      × (p.needs_full_modeset ≡ true → q.needs_full_modeset ≡ true)
unfolding force_full_modeset
forced_painter d true p e = (force_full_modeset p, with_painter_lem d forcing p e, refl, λ _. refl)
forced_painter d false p e = (p, e, refl, λ h. h)

abbrev setting : Framebuffer → Painter → World → Painter × World
setting fb p w = set_scanout_buffer p w (some fb)

scan_out-Dirties :
    (d : Device) (q : Painter) (fb : Framebuffer) (old_fb : Option Framebuffer)
    (damage : List DrmRect)
    → d.painter ≡ some q
    → DirtsOk (dirts_of q)
    → (not (same_fb (some fb) old_fb) || q.needs_full_modeset) ≡ true
    → let after = scan_out d fb old_fb damage in
      Dirties after fb (λ x y. IsDirty (dirts_of q) x y ⊎ SpannedBy damage x y)
      × (q.num_dirts ≡ 0 → damage ≡ [] → get_num_dirts after.painter ≡ 0)
unfolding scan_out set_scanout_buffer
scan_out-Dirties d q fb old_fb damage e v new =
    let test : (not (same_fb (some fb) old_fb) || needs_full_modeset d.painter) ≡ true =
      subst (λ o. (not (same_fb (some fb) old_fb) || needs_full_modeset o) ≡ true) (sym e) new in
    let d' = with_painter d (setting fb) in
    let e' = with_painter_lem d (setting fb) q e in
    rw test (
      mark_all-Dirties d' fb (IsDirty (dirts_of q)) damage (_, e', refl, v, λ x y hx hy k. k),
      λ clean none_left.
          subst (λ rs. get_num_dirts (mark_all d' rs).painter ≡ 0) (sym none_left)
            (unfold mark_all in (ap get_num_dirts e' ∙ clean)),
    )

-- For a plane that gets another framebuffer, or any while a full modeset is due, on a device with a
-- well-formed array: the framebuffer is scanned out; what was dirty and what the damage spans of it is
-- dirty; there is something dirty in any case; and all of it is, if nothing was and there is no damage.
pub update_fb_lem :
    (d : Device) (p : Painter) (old state : PlaneState) (fb : Framebuffer) (damage : List DrmRect)
    → d.painter ≡ some p
    → DirtsOk (dirts_of p)
    → fb.width < 2 ^ 16
    → fb.height < 2 ^ 16
    → (not (same_fb (some fb) old.fb) || p.needs_full_modeset) ≡ true
    → let after = update_fb d old state fb damage in
      Dirties after fb (λ x y. IsDirty (dirts_of p) x y ⊎ SpannedBy damage x y)
      × (0 < get_num_dirts after.painter)
      × (p.num_dirts ≡ 0 → damage ≡ [] → AllDirty after fb)
unfolding update_fb
update_fb_lem d p old state fb damage e v w h new =
    let forces = forces_modeset fb old state.crtc in
    let (q, e', same, due) = forced_painter d forces p e in
    let forced = if forces then with_painter d forcing else d in
    let (dirties, clean) =
      scan_out-Dirties forced q fb old.fb damage e' (subst DirtsOk (sym same) v) (ground arith) in
    let (kept, some_dirty, all) =
      mark_if_clean-Dirties (scan_out forced fb old.fb damage) fb _ w h dirties in
    (
      weaken-Dirties (update_fb d old state fb damage) fb _ _
          (λ x y k. elim k [
            | inl l ↦ inl (subst (λ ds. IsDirty ds x y) (sym same) l)
            | inr l ↦ inr l
          ])
          kept,
      some_dirty,
      λ z n. all (clean (ap (λ ds. ds.1) same ∙ z) n),
    )
