-- ===== src/Modeset.antt =====
-- What module/evdi_modeset.c makes of the DRM core's atomic updates: the flush of a crtc, and the updates of
-- the primary plane and of the cursor plane. The core's damage rectangles are a parameter.
pub mod Plane
pub mod CursorPlane
pub mod Kept
use evdi.Prelude.{
  ℕ, zero, ◌+◌, ◌*◌, ◌%◌, ◌^◌, Bool, true, false, not, ◌&&◌, ◌||◌, List, [], ◌∷◌, Option, none,
  some, ◌==◌, if◌then◌else◌, is_some, same_id,
}
use evdi.Prelude.Int.{ℤ, pos, ltb_ℤ, to_u32, ◌+ℤ◌, wrap32}
use evdi.Rect.{Rect}
use evdi.World.{World, Framebuffer}
use evdi.Cursor.{Cursor, Image, cursor_set, cursor_enable, cursor_move, cursor_position}
use evdi.Painter.State.{Painter, Device, Env, with_painter}
use evdi.Painter.Send.{DisplayMode, send_cursor_set, send_cursor_move}
use evdi.Painter.Display.{
  dpms_off, dpms_notify, mode_changed_notify, needs_full_modeset, force_full_modeset,
}
use evdi.Painter.Dirty.{get_num_dirts, framebuffer_size, painter_mark_dirty}
use evdi.Painter.Vblank.{set_vblank}
use evdi.Painter.Update.{send_update_ready_if_needed}
use evdi.Painter.Connect.{set_scanout_buffer}

abbrev pub dpms_on : ℕ
dpms_on = 0

-- an operation that takes a painter which may be NULL
abbrev pub on_painter : Device → (Option Painter → World → Option Painter × World) → Device
on_painter d f = let (p', w') = f d.painter d.world in record d { painter = p'; world = w' }

-- What of `struct drm_crtc_state` the flush reads.
pub record CrtcState : Type 0 where
  pub active : Bool
  pub mode_changed : Bool
  pub active_changed : Bool
  pub adjusted_mode : DisplayMode
  pub event : Option ℕ

-- whether the client is told of the mode, and of the power state
abbrev pub notifies_mode : Device → CrtcState → Bool
notifies_mode evdi state = state.active && (state.mode_changed || needs_full_modeset evdi.painter)

abbrev pub notifies_dpms : Device → CrtcState → Bool
notifies_dpms evdi state = state.active_changed || needs_full_modeset evdi.painter

-- both are decided before either notice
flush_notices : Env → Device → CrtcState → Device
flush_notices env evdi state =
    let told =
      if notifies_mode evdi state
      then on_painter evdi (λ p w. mode_changed_notify env p w state.adjusted_mode)
      else evdi in
    if notifies_dpms evdi state
    then on_painter told (λ p w. dpms_notify env p w (if state.active then dpms_on else dpms_off))
    else told

pub crtc_atomic_flush : Env → Device → ℕ → CrtcState → Device × CrtcState
unfolding flush_notices
crtc_atomic_flush env evdi crtc state =
    let told = flush_notices env evdi state in
    let held = on_painter told (λ p w. set_vblank p w (some crtc) state.event) in
    (on_painter held (send_update_ready_if_needed env), record state { event = none })

-- What of `struct drm_plane_state` the updates read.
pub record PlaneState : Type 0 where
  pub crtc : Option ℕ
  pub fb : Option Framebuffer
  pub crtc_x : ℤ
  pub crtc_y : ℤ
  pub crtc_w : ℕ
  pub crtc_h : ℕ

-- `struct drm_rect`, of `int`s
pub record DrmRect : Type 0 where
  pub x1 : ℤ
  pub y1 : ℤ
  pub x2 : ℤ
  pub y2 : ℤ

-- an `int` stored into an `unsigned short`
abbrev pub to_u16 : ℤ → ℕ
to_u16 a = to_u32 a % 2 ^ 16

abbrev pub clip_rect : DrmRect → Rect
clip_rect r = record { x1 = to_u16 r.x1; y1 = to_u16 r.y1; x2 = to_u16 r.x2; y2 = to_u16 r.y2 }

abbrev pub same_fb : Option Framebuffer → Option Framebuffer → Bool
same_fb none none = true
same_fb (some a) (some b) = a.id == b.id
same_fb _ _ = false

-- the power state follows the plane's crtc
dpms_of_plane : Env → Device → Option ℕ → Option ℕ → Device
dpms_of_plane env evdi old new =
    if not (is_some old) && is_some new
    then on_painter evdi (λ p w. dpms_notify env p w dpms_on)
    else if is_some old && not (is_some new)
    then on_painter evdi (λ p w. dpms_notify env p w dpms_off)
    else evdi

-- a first framebuffer, or another format than the old one's
forces_modeset : Framebuffer → PlaneState → Option ℕ → Bool
forces_modeset fb old crtc = elim old.fb [
  | none ↦ is_some crtc
  | some old_fb ↦ not (fb.pixel_format == old_fb.pixel_format)
]

pub mark_all : Device → List DrmRect → Device
mark_all evdi [] = evdi
mark_all evdi (rect ∷ damage) = mark_all (painter_mark_dirty evdi (clip_rect rect)) damage

-- a new framebuffer becomes the one to scan out, with its damage
pub scan_out : Device → Framebuffer → Option Framebuffer → List DrmRect → Device
unfolding mark_all
scan_out evdi fb old_fb damage =
    if not (same_fb (some fb) old_fb) || needs_full_modeset evdi.painter
    then mark_all (with_painter evdi (λ p w. set_scanout_buffer p w (some fb))) damage
    else evdi

abbrev pub fullscreen_rect : Framebuffer → Rect
fullscreen_rect fb = record { x1 = 0; y1 = 0; x2 = fb.width % 2 ^ 16; y2 = fb.height % 2 ^ 16 }

pub mark_if_clean : Device → Rect → Device
mark_if_clean evdi rect =
    if get_num_dirts evdi.painter == 0 then painter_mark_dirty evdi rect else evdi

pub update_fb : Device → PlaneState → PlaneState → Framebuffer → List DrmRect → Device
unfolding forces_modeset scan_out mark_if_clean
update_fb evdi old state fb damage =
    let forced =
      if forces_modeset fb old state.crtc
      then with_painter evdi (λ p w. (force_full_modeset p, w))
      else evdi in
    mark_if_clean (scan_out forced fb old.fb damage) (fullscreen_rect fb)

-- The update of the primary plane, with its damage as the core gives it. The plane's state and device are
-- not NULL.
pub plane_atomic_update : Env → Device → PlaneState → PlaneState → List DrmRect → Device
unfolding dpms_of_plane update_fb
plane_atomic_update env evdi old state damage =
    let told = dpms_of_plane env evdi old.crtc state.crtc in
    elim state.fb [ none ↦ told | some fb ↦ update_fb told old state fb damage ]

pub cursor_atomic_get_rect : PlaneState → Rect
cursor_atomic_get_rect state = record {
  x1 = if ltb_ℤ state.crtc_x (pos 0) then 0 else to_u16 state.crtc_x;
  y1 = if ltb_ℤ state.crtc_y (pos 0) then 0 else to_u16 state.crtc_y;
  x2 = to_u16 (state.crtc_x +ℤ pos state.crtc_w);
  y2 = to_u16 (state.crtc_y +ℤ pos state.crtc_h);
}

abbrev pub with_cursor : Device → Cursor × World → Device
with_cursor evdi (cursor, w) = record evdi { cursor = cursor; world = w }

-- the image that a framebuffer of the cursor plane has
abbrev image_of : Framebuffer → Image
image_of fb = record {
  width = fb.width;
  height = fb.height;
  hot_x = 0;
  hot_y = 0;
  pixel_format = fb.pixel_format;
  stride = (4 * fb.width) % 2 ^ 32;
}

-- the new image, if there is one, and whether the cursor is shown
pub change_cursor : Env → Device → Option Framebuffer → Device
change_cursor env evdi none = with_cursor evdi (cursor_enable evdi.cursor evdi.world false)
change_cursor env evdi (some fb) =
    let set =
      with_cursor evdi
        (cursor_set env.mapping evdi.cursor evdi.world (some fb.obj) (image_of fb)) in
    with_cursor set (cursor_enable set.cursor set.world true)

-- Without cursor events the cursor is drawn into the picture: what it covered and covers is dirty, or
-- everything.
pub redraw_cursor : Device → PlaneState → PlaneState → Option Framebuffer → Device
unfolding cursor_atomic_get_rect
redraw_cursor evdi old state none = evdi
redraw_cursor evdi old state (some fb) =
    if (evdi.world.gems fb.obj).allow_sw_cursor_rect_updates
    then painter_mark_dirty (painter_mark_dirty evdi (cursor_atomic_get_rect old))
        (cursor_atomic_get_rect state)
    else painter_mark_dirty evdi (framebuffer_size evdi.painter)

-- With cursor events the client is told of what changed.
pub tell_cursor : Env → Device → Bool → Bool → Device
tell_cursor env evdi changed moved =
    let shown =
      if changed then with_painter evdi (λ p w. send_cursor_set env p w evdi.cursor) else evdi in
    if moved then with_painter shown (λ p w. send_cursor_move env p w evdi.cursor) else shown

-- The update of the cursor plane, which is not NULL.
pub cursor_atomic_update : Env → Device → PlaneState → PlaneState → Device
unfolding change_cursor redraw_cursor tell_cursor
cursor_atomic_update env evdi old state =
    let (x, y) = cursor_position evdi.cursor in
    let new_x = to_u32 state.crtc_x in
    let new_y = to_u32 state.crtc_y in
    let changed = not (same_fb state.fb old.fb) in
    let moved = record evdi { cursor = cursor_move evdi.cursor new_x new_y } in
    let after = if changed then change_cursor env moved state.fb else moved in
    if not after.cursor_events_enabled
    then redraw_cursor after old state state.fb
    else tell_cursor env after changed (not (x == new_x) || not (y == new_y))
