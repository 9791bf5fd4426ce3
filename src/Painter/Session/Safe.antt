-- ===== src/Painter/Session/Safe.antt =====
-- What holds after any sequence of operations on a fresh painter.
use evdi.Prelude.{
  some-inj, ℕ, ◌≡◌, refl, sym, subst, ◌∙◌, Bool-cases, inl, inr, Bool, Option, none, some, arith,
  if◌then◌else◌, if-cases, same_id,
}
use evdi.Errno.{Status, err, enodev, efault}
use evdi.World.{World, IsBalanced}
use evdi.Cursor.{Cursor}
use evdi.Cursor.Buffer.{HoldsRef}
use evdi.Painter.State.{Painter, Device, Env, painter_fresh}
use evdi.Painter.Dirty.{painter_mark_dirty}
use evdi.Painter.Vblank.{send_vblank}
use evdi.Painter.Connect.{
  hpd_irq_event, connect_with, disconnect_owner, painter_disconnect, painter_connect,
  events_cleanup, ConnectArgs, painter_connect_ioctl, painter_close,
}
use evdi.Painter.Connect.Lifecycle.{
  DeviceInv, connect-cases, connect-DeviceInv, disconnect-DeviceInv,
}
use evdi.Painter.Connect.Scanout.{disconnect-IsBalanced}
use evdi.Painter.Session.{
  Step, Reaches, here, after, connect_ioctl, close, mark_dirty, set_scanout, vblank_set,
  request_update, update_ready_if_needed, send, events_work, grab, flush, plane_update,
  cursor_update, vt_switch, ddcci_asks, ddcci_answers, cursor_events,
}
use evdi.Painter.Grab.Kept.{grab-DeviceOk}
use evdi.Modeset.Kept.{flush-DeviceOk, plane_update-DeviceOk, cursor_update-DeviceOk}
use evdi.Painter.Session.Notes.{
  set_vblank-OkAt, vt_notifier_call-Ok, ddcci_request-Ok, ddcci_response-Ok,
}
use evdi.Painter.Session.Keeps.{
  Ok, DeviceOk, with_painter-DeviceOk, mark_dirty-Ok, set_scanout-Ok, request_update-Ok, send-Ok,
  send_update_ready-Ok, work-Ok,
}

disconnect-DeviceOk :
    (d : Device) (p : Painter) → Ok p d.cursor d.world → DeviceOk (disconnect_owner d p)
unfolding disconnect_owner send_vblank events_cleanup
disconnect-DeviceOk d p k q h =
    let (fbs, gems, _) = disconnect-IsBalanced d p k.scanout k.cursor_ref in
    subst (λ r. Ok r (disconnect_owner d p).cursor (disconnect_owner d p).world) (some-inj h)
      (record {
        session = disconnect-DeviceInv d p k.session _ refl;
        dirts = k.dirts;
        queue = record { scheduled = λ _. refl; squashed = tt };
        scanout = fbs;
        cursor_ref = gems;
      })

connect-DeviceOk :
    (env : Env) (d : Device) (p : Painter) (file : ℕ) (cmd : ConnectArgs) (alloc : Bool)
    → d.painter ≡ some p
    → DeviceOk d
    → DeviceOk (painter_connect env d p file cmd alloc).0
unfolding connect_with
connect-DeviceOk env d p file cmd alloc e inv =
    connect-cases (λ r. DeviceInv r.0 → DeviceOk r.0) env d p file cmd alloc (λ _ _. inv)
      (λ edid low high r v q h.
        subst (λ q'. Ok q' d.cursor (hpd_irq_event d.world)) (some-inj h)
          (record {
            session = v _ refl;
            dirts = (inv p e).dirts;
            queue = record {
              scheduled = (inv p e).queue.scheduled;
              squashed = (inv p e).queue.squashed;
            };
            scanout = (inv p e).scanout;
            cursor_ref = (inv p e).cursor_ref;
          }))
      (connect-DeviceInv env d p file cmd alloc (λ q h. (inv q h).session))

connect_ioctl-DeviceOk :
    (env : Env) (d : Device) (file : ℕ) (cmd : ConnectArgs) (alloc : Bool)
    → DeviceOk d
    → DeviceOk (painter_connect_ioctl env d file cmd alloc).0
unfolding painter_connect_ioctl painter_disconnect
connect_ioctl-DeviceOk env d file cmd alloc inv = go d.painter refl
  where
    go :
        (o : Option Painter)
        → d.painter ≡ o
        → DeviceOk (
            let r : Device × Status = elim o [
              | none ↦ (d, err enodev)
              | some p ↦
                  if cmd.connected
                  then painter_connect env d p file cmd alloc
                  else painter_disconnect d p file
            ] in
            r.0)
    go none e = inv
    go (some p) e =
        if-cases {A = Device × Status} (λ r. DeviceOk r.0) cmd.connected _ _
          (λ _. connect-DeviceOk env d p file cmd alloc e inv)
          (λ _.
            if-cases {A = Device × Status} (λ r. DeviceOk r.0) (same_id (some file) p.drm_filp) _
              (d, err efault) (λ _. disconnect-DeviceOk d p (inv p e)) (λ _. inv))

close-DeviceOk : (d : Device) (file : ℕ) → DeviceOk d → DeviceOk (painter_close d file)
unfolding painter_close painter_disconnect
close-DeviceOk d file inv = go d.painter refl
  where
    go :
        (o : Option Painter)
        → d.painter ≡ o
        → DeviceOk (elim o [
          | none ↦ d
          | some p ↦ if same_id (some file) p.drm_filp then (painter_disconnect d p file).0 else d
        ])
    go none e = inv
    go (some p) e = elim (Bool-cases (same_id (some file) p.drm_filp)) [
      | inl h ↦ rw h (disconnect-DeviceOk d p (inv p e))
      | inr h ↦ rw h inv
    ]

-- Every operation keeps every invariant, whatever it answers and whatever the kernel answers it.
pub Step-DeviceOk : (d e : Device) → Step d e → DeviceOk d → DeviceOk e
unfolding painter_mark_dirty
Step-DeviceOk _ _ (connect_ioctl env d file cmd alloc) = connect_ioctl-DeviceOk env d file cmd alloc
Step-DeviceOk _ _ (close d file) = close-DeviceOk d file
Step-DeviceOk _ _ (mark_dirty d r) = with_painter-DeviceOk _ (λ p. mark_dirty-Ok r p.scanout_fb p) d
Step-DeviceOk _ _ (set_scanout d fb) = with_painter-DeviceOk _ (set_scanout-Ok fb) d
Step-DeviceOk _ _ (vblank_set d crtc vblank) =
    set_vblank-OkAt crtc vblank d.painter d.cursor d.world
Step-DeviceOk _ _ (request_update d) = with_painter-DeviceOk _ request_update-Ok d
Step-DeviceOk _ _ (update_ready_if_needed env d) =
    with_painter-DeviceOk _ (send_update_ready-Ok env) d
Step-DeviceOk _ _ (send env d event) = with_painter-DeviceOk _ (send-Ok env.has_space event) d
Step-DeviceOk _ _ (events_work env d) = with_painter-DeviceOk _ (work-Ok env.has_space) d
Step-DeviceOk _ _ (grab env d cmd user) = grab-DeviceOk env d cmd user
Step-DeviceOk _ _ (flush env d crtc state) = flush-DeviceOk env d crtc state
Step-DeviceOk _ _ (plane_update env d old state damage) =
    plane_update-DeviceOk env d old state damage
Step-DeviceOk _ _ (cursor_update env d old state) = cursor_update-DeviceOk env d old state
Step-DeviceOk _ _ (vt_switch env d) = with_painter-DeviceOk _ (vt_notifier_call-Ok env) d
Step-DeviceOk _ _ (ddcci_asks env d msg) = with_painter-DeviceOk _ (ddcci_request-Ok env msg) d
Step-DeviceOk _ _ (ddcci_answers d cmd alloc) =
    with_painter-DeviceOk _ (ddcci_response-Ok cmd alloc) d
Step-DeviceOk _ _ (cursor_events d enable) = λ inv. inv

Reaches-DeviceOk : (d e : Device) → Reaches d e → DeviceOk d → DeviceOk e
Reaches-DeviceOk _ _ (here d) inv = inv
Reaches-DeviceOk _ _ (after d e f r s) inv = Step-DeviceOk e f s (Reaches-DeviceOk d e r inv)

pub fresh-Ok :
    (cursor : Cursor) (w : World)
    → IsBalanced w.fb_gets w.fb_puts none
    → HoldsRef (cursor, w)
    → Ok painter_fresh cursor w
unfolding painter_fresh
fresh-Ok cursor w b c = record {
  session = record { owned = refl; edid_ok = refl; has_edid = λ h. cc };
  dirts = (refl, omega arith);
  queue = record { scheduled = λ _. refl; squashed = tt };
  scanout = b;
  cursor_ref = c;
}

-- On a device with a fresh painter and balanced references, after any sequence of the
-- operations (requests of any files, grabs, atomic updates, consoles switched, work that runs) and
-- with any answers of the kernel: the painter is connected exactly
-- if a file owns it, and then has an edid of its stated length; the array of dirty rectangles
-- has its length and no more entries in use; events wait only while the work that sends them is
-- scheduled, and none behind one that it could be squashed into; and the references to
-- framebuffers and cursor objects that are not dropped are those of the scanout and the cursor's
-- pointer.
pub session-Ok :
    (d e : Device) (p : Painter)
    → d.painter ≡ some painter_fresh
    → IsBalanced d.world.fb_gets d.world.fb_puts none
    → HoldsRef (d.cursor, d.world)
    → Reaches d e
    → e.painter ≡ some p
    → Ok p e.cursor e.world
session-Ok d e p fresh b c r h =
    Reaches-DeviceOk d e r
      (λ q k.
        subst (λ q'. Ok q' d.cursor d.world) (some-inj (sym fresh ∙ k))
          (fresh-Ok d.cursor d.world b c))
      p h
