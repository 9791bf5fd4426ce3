-- ===== src/Modeset/Kept.antt =====
-- The painter's invariants under the atomic updates.
use evdi.Prelude.{
  ℕ, ◌≡◌, refl, Bool, true, false, not, ◌&&◌, ◌||◌, List, [], ◌∷◌, Option, none, some, ◌==◌,
  if◌then◌else◌, is_some,
}
use evdi.Rect.{Rect}
use evdi.World.{World, Framebuffer}
use evdi.Cursor.{Cursor, cursor_enable, cursor_set, cursor_move}
use evdi.Prelude.Int.{to_u32}
use evdi.Painter.Vblank.{set_vblank}
use evdi.Painter.Connect.{set_scanout_buffer}
use evdi.Painter.Send.{send_cursor_set, send_cursor_move}
use evdi.Cursor.Buffer.{
  HoldsRef, cursor_set_lem, cursor_set_refs, cursor_enable_lem, cursor_enable_refs,
}
use evdi.Painter.State.{Painter, Device, Env, with_painter}
use evdi.Painter.Display.{
  dpms_notify, mode_changed_notify, force_full_modeset, dpms_off, needs_full_modeset,
}
use evdi.Painter.Dirty.{painter_mark_dirty, get_num_dirts, framebuffer_size}
use evdi.Modeset.{
  on_painter, with_cursor, image_of, same_fb, CrtcState, PlaneState, DrmRect, crtc_atomic_flush,
  flush_notices, notifies_mode, notifies_dpms, plane_atomic_update, dpms_of_plane, update_fb,
  mark_all, scan_out, mark_if_clean, cursor_atomic_update, change_cursor, redraw_cursor,
  tell_cursor, clip_rect, fullscreen_rect, cursor_atomic_get_rect, dpms_on, forces_modeset,
}
use evdi.Painter.Session.Keeps.{
  DeviceOk, with_painter-DeviceOk, mark_dirty-Ok, set_scanout-Ok, send-Ok,
}
use evdi.Painter.Session.Notes.{
  modeset-Ok, dpms_notify-OkAt, mode_changed_notify-OkAt, set_vblank-OkAt, send_update_ready-OkAt,
  exchanged-Ok,
}

-- whichever branch is taken
choose-DeviceOk :
    (c : Bool) (a b : Device) → DeviceOk a → DeviceOk b → DeviceOk (if c then a else b)
choose-DeviceOk true a b h k = h
choose-DeviceOk false a b h k = k

pub mark_dirty-DeviceOk : (d : Device) (r : Rect) → DeviceOk d → DeviceOk (painter_mark_dirty d r)
unfolding painter_mark_dirty
mark_dirty-DeviceOk d r = with_painter-DeviceOk _ (λ p. mark_dirty-Ok r p.scanout_fb p) d

mark_all-DeviceOk : (damage : List DrmRect) (d : Device) → DeviceOk d → DeviceOk (mark_all d damage)
unfolding mark_all
mark_all-DeviceOk [] d k = k
mark_all-DeviceOk (r ∷ rs) d k =
    mark_all-DeviceOk rs (painter_mark_dirty d (clip_rect r))
      (mark_dirty-DeviceOk d (clip_rect r) k)

scan_out-DeviceOk :
    (fb : Framebuffer) (old_fb : Option Framebuffer) (damage : List DrmRect) (d : Device)
    → DeviceOk d
    → DeviceOk (scan_out d fb old_fb damage)
unfolding scan_out
scan_out-DeviceOk fb old_fb damage d k =
    let setting : Painter → World → Painter × World = λ p w. set_scanout_buffer p w (some fb) in
    let set = with_painter d setting in
    choose-DeviceOk (not (same_fb (some fb) old_fb) || needs_full_modeset d.painter)
      (mark_all set damage) d
      (mark_all-DeviceOk damage set (with_painter-DeviceOk setting (set_scanout-Ok (some fb)) d k))
      k

mark_if_clean-DeviceOk : (d : Device) (r : Rect) → DeviceOk d → DeviceOk (mark_if_clean d r)
unfolding mark_if_clean
mark_if_clean-DeviceOk d r k =
    choose-DeviceOk (get_num_dirts d.painter == 0) (painter_mark_dirty d r) d
      (mark_dirty-DeviceOk d r k) k

update_fb-DeviceOk :
    (d : Device) (old state : PlaneState) (fb : Framebuffer) (damage : List DrmRect)
    → DeviceOk d
    → DeviceOk (update_fb d old state fb damage)
unfolding update_fb force_full_modeset
update_fb-DeviceOk d old state fb damage k =
    let forcing : Painter → World → Painter × World = λ p w. (force_full_modeset p, w) in
    let forces = forces_modeset fb old state.crtc in
    let forced = if forces then with_painter d forcing else d in
    let ok : DeviceOk forced =
      choose-DeviceOk forces (with_painter d forcing) d
        (with_painter-DeviceOk forcing (modeset-Ok true) d k) k in
    mark_if_clean-DeviceOk (scan_out forced fb old.fb damage) (fullscreen_rect fb)
      (scan_out-DeviceOk fb old.fb damage forced ok)

abbrev powered : Env → Device → ℕ → Device
powered env d mode = on_painter d (λ p w. dpms_notify env p w mode)

powered-DeviceOk : (env : Env) (mode : ℕ) (d : Device) → DeviceOk d → DeviceOk (powered env d mode)
powered-DeviceOk env mode d k = dpms_notify-OkAt env mode d.painter d.cursor d.world k

dpms_of_plane-DeviceOk :
    (env : Env) (d : Device) (old new : Option ℕ)
    → DeviceOk d
    → DeviceOk (dpms_of_plane env d old new)
unfolding dpms_of_plane
dpms_of_plane-DeviceOk env d old new k =
    let off = if is_some old && not (is_some new) then powered env d dpms_off else d in
    choose-DeviceOk (not (is_some old) && is_some new) (powered env d dpms_on) off
      (powered-DeviceOk env dpms_on d k)
      (choose-DeviceOk (is_some old && not (is_some new)) (powered env d dpms_off) d
        (powered-DeviceOk env dpms_off d k) k)

-- An update of the primary plane keeps every invariant.
pub plane_update-DeviceOk :
    (env : Env) (d : Device) (old state : PlaneState) (damage : List DrmRect)
    → DeviceOk d
    → DeviceOk (plane_atomic_update env d old state damage)
unfolding plane_atomic_update
plane_update-DeviceOk env d old state damage k = updated state.fb
  where
    told : Device
    told = dpms_of_plane env d old.crtc state.crtc

    updated :
        (fb : Option Framebuffer)
        → DeviceOk (elim fb [ none ↦ told | some b ↦ update_fb told old state b damage ])
    updated none = dpms_of_plane-DeviceOk env d old.crtc state.crtc k
    updated (some b) =
        update_fb-DeviceOk told old state b damage
          (dpms_of_plane-DeviceOk env d old.crtc state.crtc k)

flush_notices-DeviceOk :
    (env : Env) (d : Device) (state : CrtcState) → DeviceOk d → DeviceOk (flush_notices env d state)
unfolding flush_notices
flush_notices-DeviceOk env d state k =
    let changed = on_painter d (λ p w. mode_changed_notify env p w state.adjusted_mode) in
    let told = if notifies_mode d state then changed else d in
    let mode = if state.active then dpms_on else dpms_off in
    let ok : DeviceOk told =
      choose-DeviceOk (notifies_mode d state) changed d
        (mode_changed_notify-OkAt env state.adjusted_mode d.painter d.cursor d.world k) k in
    choose-DeviceOk (notifies_dpms d state) (powered env told mode) told
      (powered-DeviceOk env mode told ok) ok

-- The flush of a crtc keeps every invariant.
pub flush-DeviceOk :
    (env : Env) (d : Device) (crtc : ℕ) (state : CrtcState)
    → DeviceOk d
    → DeviceOk (crtc_atomic_flush env d crtc state).0
unfolding crtc_atomic_flush
flush-DeviceOk env d crtc state k =
    let told = flush_notices env d state in
    let held = on_painter told (λ p w. set_vblank p w (some crtc) state.event) in
    let ok : DeviceOk held =
      set_vblank-OkAt (some crtc) state.event told.painter told.cursor told.world
        (flush_notices-DeviceOk env d state k) in
    send_update_ready-OkAt env held.painter held.cursor held.world ok

-- an operation on the cursor that takes no reference to a framebuffer
with_cursor-DeviceOk :
    (d : Device) (r : Cursor × World)
    → DeviceOk d
    → (r.1.fb_gets ≡ d.world.fb_gets) × (r.1.fb_puts ≡ d.world.fb_puts)
    → (HoldsRef (d.cursor, d.world) → HoldsRef r)
    → DeviceOk (with_cursor d r)
with_cursor-DeviceOk d r k refs b p h =
    exchanged-Ok p d.cursor d.world r (k p h) refs (b (k p h).cursor_ref)

enable-DeviceOk :
    (enable : Bool) (d : Device)
    → DeviceOk d
    → DeviceOk (with_cursor d (cursor_enable d.cursor d.world enable))
enable-DeviceOk enable d k =
    with_cursor-DeviceOk d (cursor_enable d.cursor d.world enable) k
      (cursor_enable_refs d.cursor d.world enable)
      (λ b. (cursor_enable_lem d.cursor d.world enable b).0)

-- the cursor's new image
change_cursor-DeviceOk :
    (env : Env) (fb : Option Framebuffer) (d : Device)
    → DeviceOk d
    → DeviceOk (change_cursor env d fb)
unfolding change_cursor
change_cursor-DeviceOk env none d k = enable-DeviceOk false d k
change_cursor-DeviceOk env (some fb) d k =
    let image = image_of fb in
    let set = cursor_set env.mapping d.cursor d.world (some fb.obj) image in
    enable-DeviceOk true (with_cursor d set) (
      with_cursor-DeviceOk d set k
        (cursor_set_refs env.mapping d.cursor d.world (some fb.obj) image)
        (λ b. (cursor_set_lem env.mapping d.cursor d.world (some fb.obj) image b).0))

redraw_cursor-DeviceOk :
    (old state : PlaneState) (fb : Option Framebuffer) (d : Device)
    → DeviceOk d
    → DeviceOk (redraw_cursor d old state fb)
unfolding redraw_cursor
redraw_cursor-DeviceOk old state none d k = k
redraw_cursor-DeviceOk old state (some fb) d k =
    let left = painter_mark_dirty d (cursor_atomic_get_rect old) in
    choose-DeviceOk (d.world.gems fb.obj).allow_sw_cursor_rect_updates
      (painter_mark_dirty left (cursor_atomic_get_rect state))
      (painter_mark_dirty d (framebuffer_size d.painter))
      (mark_dirty-DeviceOk left (cursor_atomic_get_rect state)
        (mark_dirty-DeviceOk d (cursor_atomic_get_rect old) k))
      (mark_dirty-DeviceOk d (framebuffer_size d.painter) k)

tell_cursor-DeviceOk :
    (env : Env) (changed moved : Bool) (d : Device)
    → DeviceOk d
    → DeviceOk (tell_cursor env d changed moved)
unfolding tell_cursor
tell_cursor-DeviceOk env changed moved d k =
    let setting : Painter → World → Painter × World = λ p w. send_cursor_set env p w d.cursor in
    let shown = if changed then with_painter d setting else d in
    let moving : Painter → World → Painter × World = λ p w. send_cursor_move env p w d.cursor in
    let ok : DeviceOk shown =
      choose-DeviceOk changed (with_painter d setting) d
        (with_painter-DeviceOk setting (λ p c w. send-Ok env.has_space _ p c w) d k) k in
    choose-DeviceOk moved (with_painter shown moving) shown
      (with_painter-DeviceOk moving (λ p c w. send-Ok env.has_space _ p c w) shown ok) ok

-- An update of the cursor plane keeps every invariant.
pub cursor_update-DeviceOk :
    (env : Env) (d : Device) (old state : PlaneState)
    → DeviceOk d
    → DeviceOk (cursor_atomic_update env d old state)
unfolding cursor_atomic_update
cursor_update-DeviceOk env d old state k =
    let new_x = to_u32 state.crtc_x in
    let new_y = to_u32 state.crtc_y in
    let changed = not (same_fb state.fb old.fb) in
    let moves = not (d.cursor.x == new_x) || not (d.cursor.y == new_y) in
    let moved = record d { cursor = cursor_move d.cursor new_x new_y } in
    let after = if changed then change_cursor env moved state.fb else moved in
    let moved-ok : DeviceOk moved =
      with_cursor-DeviceOk d (cursor_move d.cursor new_x new_y, d.world) k (refl, refl) (λ b. b) in
    let ok : DeviceOk after =
      choose-DeviceOk changed (change_cursor env moved state.fb) moved
        (change_cursor-DeviceOk env state.fb moved moved-ok) moved-ok in
    choose-DeviceOk (not after.cursor_events_enabled) (redraw_cursor after old state state.fb)
      (tell_cursor env after changed moves) (redraw_cursor-DeviceOk old state state.fb after ok)
      (tell_cursor-DeviceOk env changed moves after ok)
