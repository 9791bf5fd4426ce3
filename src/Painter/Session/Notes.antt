-- ===== src/Painter/Session/Notes.antt =====
-- The painter's invariants under the notices of Painter.Display and the display data channel.
use evdi.Prelude.{
  some-inj, ℕ, ◌≡◌, refl, subst, Bool, true, false, not, ◌&&◌, List, Option, none, some, ◌==◌, ◌+◌,
  if-cases, min, ltb,
}
use evdi.Errno.{Status, done, err, efault}
use evdi.World.{World, Framebuffer}
use evdi.Cursor.{Cursor}
use evdi.Painter.State.{Painter, Env}
use evdi.Painter.Send.{send_dpms, DisplayMode}
use evdi.Painter.Display.{
  note_console, dpms_notify_on, dpms_notify, mode_changed_scanout, mode_changed_notify,
  force_full_modeset, vt_notifier_call, dpms_off,
}
use evdi.Cursor.Buffer.{HoldsRef}
use evdi.Painter.Vblank.{set_vblank, send_vblank}
use evdi.Painter.Update.{send_update_ready_if_needed}
use evdi.Painter.Connect.{read_user}
use evdi.Painter.Ddcci.{I2cMsg, ResponseArgs, ddcci_request, ddcci_response_ioctl}
use evdi.Painter.Session.Keeps.{Ok, send-Ok, send_update_ready-Ok, vblank-Ok, sent-Ok}

-- the invariants of a painter that may be NULL
abbrev pub OkAt : Option Painter → Cursor → World → Type 0
OkAt o cursor w = (p : Painter) → o ≡ some p → Ok p cursor w

pub some-OkAt : (p : Painter) (cursor : Cursor) (w : World) → Ok p cursor w → OkAt (some p) cursor w
some-OkAt p cursor w k q h = subst (λ r. Ok r cursor w) (some-inj h) k

-- No invariant speaks of these fields.
pub fields-Ok :
    (modeset : Bool) (console done_count : ℕ) (buffer : Option (List ℕ)) (size : ℕ) (p : Painter)
    (cursor : Cursor) (w : World)
    → Ok p cursor w
    → Ok
        (record p {
          needs_full_modeset = modeset;
          fg_console = console;
          ddcci_done = done_count;
          ddcci_buffer = buffer;
          ddcci_buffer_length = size;
        })
        cursor
        w
fields-Ok modeset console done_count buffer size p cursor w k = record {
  session = record {
    owned = k.session.owned;
    edid_ok = k.session.edid_ok;
    has_edid = k.session.has_edid;
  };
  dirts = k.dirts;
  queue = record { scheduled = k.queue.scheduled; squashed = k.queue.squashed };
  scanout = k.scanout;
  cursor_ref = k.cursor_ref;
}

pub modeset-Ok :
    (modeset : Bool) (p : Painter) (cursor : Cursor) (w : World)
    → Ok p cursor w
    → Ok (record p { needs_full_modeset = modeset }) cursor w
modeset-Ok modeset p =
    fields-Ok modeset p.fg_console p.ddcci_done p.ddcci_buffer p.ddcci_buffer_length p

pub dpms_notify_on-Ok :
    (env : Env) (mode : ℕ) (p : Painter) (cursor : Cursor) (w : World)
    → Ok p cursor w
    → Ok (dpms_notify_on env p w mode).0 cursor (dpms_notify_on env p w mode).1
unfolding dpms_notify_on note_console send_dpms
dpms_notify_on-Ok env mode p cursor w k =
    let noted : Ok (note_console env p mode) cursor w =
      if-cases (λ q. Ok q cursor w) (mode == 0) _ p
        (λ _.
          fields-Ok p.needs_full_modeset env.front_console p.ddcci_done p.ddcci_buffer
            p.ddcci_buffer_length p cursor w k)
        (λ _. k) in
    if-cases {A = Painter × World} (λ r. Ok r.0 cursor r.1) p.is_connected _ (p, w)
      (λ _. send-Ok env.has_space _ _ cursor w noted) (λ _. k)

pub dpms_notify-OkAt :
    (env : Env) (mode : ℕ) (o : Option Painter) (cursor : Cursor) (w : World)
    → OkAt o cursor w
    → OkAt (dpms_notify env o w mode).0 cursor (dpms_notify env o w mode).1
dpms_notify-OkAt env mode none cursor w k = k
dpms_notify-OkAt env mode (some p) cursor w k =
    some-OkAt _ cursor _ (dpms_notify_on-Ok env mode p cursor w (k p refl))

mode_changed_scanout-Ok :
    (env : Env) (mode : DisplayMode) (fb : Option Framebuffer) (p : Painter) (cursor : Cursor)
    (w : World)
    → Ok p cursor w
    → Ok (mode_changed_scanout env p w fb mode).0 cursor (mode_changed_scanout env p w fb mode).1
mode_changed_scanout-Ok env mode none p cursor w k = k
mode_changed_scanout-Ok env mode (some fb) p cursor w k =
    modeset-Ok false _ cursor _ (send-Ok env.has_space _ p cursor w k)

pub mode_changed_notify-OkAt :
    (env : Env) (mode : DisplayMode) (o : Option Painter) (cursor : Cursor) (w : World)
    → OkAt o cursor w
    → OkAt (mode_changed_notify env o w mode).0 cursor (mode_changed_notify env o w mode).1
mode_changed_notify-OkAt env mode none cursor w k = k
mode_changed_notify-OkAt env mode (some p) cursor w k =
    some-OkAt _ cursor _ (mode_changed_scanout-Ok env mode p.scanout_fb p cursor w (k p refl))

pub vt_notifier_call-Ok :
    (env : Env) (p : Painter) (cursor : Cursor) (w : World)
    → Ok p cursor w
    → Ok (vt_notifier_call env p w).0 cursor (vt_notifier_call env p w).1
unfolding vt_notifier_call force_full_modeset
vt_notifier_call-Ok env p cursor w k =
    if-cases {A = Painter × World} (λ r. Ok r.0 cursor r.1)
      (p.is_connected && not (env.front_console == p.fg_console) && not p.needs_full_modeset) _
      (p, w) (λ _. modeset-Ok true _ cursor _ (dpms_notify_on-Ok env dpms_off p cursor w k))
      (λ _. k)

pub ddcci_request-Ok :
    (env : Env) (msg : I2cMsg) (p : Painter) (cursor : Cursor) (w : World)
    → Ok p cursor w
    → Ok (ddcci_request env p w msg).0 cursor (ddcci_request env p w msg).1
ddcci_request-Ok env msg p cursor w k = send-Ok env.has_space _ _ cursor w (
    fields-Ok p.needs_full_modeset p.fg_console 0 p.ddcci_buffer p.ddcci_buffer_length p cursor w k)

pub ddcci_response-Ok :
    (cmd : ResponseArgs) (alloc : Bool) (p : Painter) (cursor : Cursor) (w : World)
    → Ok p cursor w
    → Ok (ddcci_response_ioctl p cmd alloc).0 cursor w
unfolding ddcci_response_ioctl
ddcci_response-Ok cmd alloc p cursor w k =
    let n = min cmd.buffer_length 64 in
    let set : (done_count : ℕ) (buffer : Option (List ℕ))
        → Ok (record p { ddcci_done = done_count; ddcci_buffer = buffer; ddcci_buffer_length = n })
            cursor w =
      λ done_count buffer.
        fields-Ok p.needs_full_modeset p.fg_console done_count buffer n p cursor w k in
    if-cases {A = Painter × Status} (λ r. Ok r.0 cursor w) (not alloc) _ _
      (λ _. set p.ddcci_done none) (λ _. answered (read_user cmd.buffer n))
  where
    sized : Painter
    sized = record p { ddcci_buffer_length = min cmd.buffer_length 64; ddcci_buffer = none }

    answered :
        (read : Option (List ℕ))
        → Ok
            ((elim read as (λ _. Painter × Status) [
              | none ↦ (sized, err efault)
              | some bytes ↦
                  (record sized { ddcci_buffer = some bytes; ddcci_done = p.ddcci_done + 1 }, done)
            ]).0)
            cursor
            w
    answered none = fields-Ok p.needs_full_modeset p.fg_console p.ddcci_done none _ p cursor w k
    answered (some b) =
        fields-Ok p.needs_full_modeset p.fg_console (p.ddcci_done + 1) (some b) _ p cursor w k

pub set_vblank-OkAt :
    (crtc vblank : Option ℕ) (o : Option Painter) (cursor : Cursor) (w : World)
    → OkAt o cursor w
    → OkAt (set_vblank o w crtc vblank).0 cursor (set_vblank o w crtc vblank).1
unfolding set_vblank send_vblank
set_vblank-OkAt crtc vblank none cursor w k = λ q h. cc
set_vblank-OkAt crtc vblank (some p) cursor w k =
    let sent = vblank-Ok none none p cursor w (k p refl) in
    if-cases {A = Painter × World} (λ r. OkAt (some r.0) cursor r.1)
      (ltb 0 p.num_dirts && p.is_connected) _ _
      (λ _. some-OkAt _ cursor _ (vblank-Ok crtc vblank p cursor w (k p refl)))
      (λ _. some-OkAt _ cursor _ (sent-Ok crtc vblank _ cursor _ sent))

pub send_update_ready-OkAt :
    (env : Env) (o : Option Painter) (cursor : Cursor) (w : World)
    → OkAt o cursor w
    → OkAt (send_update_ready_if_needed env o w).0 cursor (send_update_ready_if_needed env o w).1
send_update_ready-OkAt env none cursor w k = k
send_update_ready-OkAt env (some p) cursor w k =
    some-OkAt _ cursor _ (send_update_ready-Ok env p cursor w (k p refl))

-- With other references to the cursor's object, but none to a framebuffer, and those balanced.
pub exchanged-Ok :
    (p : Painter) (cursor : Cursor) (w : World) (r : Cursor × World)
    → Ok p cursor w
    → (r.1.fb_gets ≡ w.fb_gets) × (r.1.fb_puts ≡ w.fb_puts)
    → HoldsRef r
    → Ok p r.0 r.1
exchanged-Ok p cursor w r k (gets, puts) b = record {
  session = k.session;
  dirts = k.dirts;
  queue = k.queue;
  scanout = rw (gets, puts) k.scanout;
  cursor_ref = b;
}
