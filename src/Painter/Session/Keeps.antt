-- ===== src/Painter/Session/Keeps.antt =====
-- The painter's invariants, each operation at a time.
use evdi.Prelude.{
  some-inj, ℕ, ◌≡◌, refl, sym, subst, Bool, true, false, not, ◌&&◌, Option, none, some,
  if◌then◌else◌, if-cases, ltb, ◌==◌,
}
use evdi.Event.{Event, Space, update_ready}
use evdi.Rect.{Rect}
use evdi.World.{World, Framebuffer}
use evdi.Cursor.{Cursor}
use evdi.Cursor.Buffer.{HoldsRef}
use evdi.Painter.State.{Painter, Device, Env, with_painter}
use evdi.Painter.Send.{send_event, send_events_work, send_update_ready, create}
use evdi.Painter.Send.Order.{
  QueueInv, SameButQueue, send_event-QueueInv, send_event-SameButQueue, work-QueueInv,
  work-SameButQueue,
}
use evdi.Painter.Dirty.{mark_on, dirts_of}
use evdi.Painter.Dirty.Safe.{DirtsOk, add_dirty-DirtsOk}
use evdi.Painter.Vblank.{send_vblank_event}
use evdi.Painter.Update.{request_update_on, send_update_ready_on}
use evdi.Painter.Connect.{set_scanout_buffer}
use evdi.Painter.Connect.Lifecycle.{PainterInv}
use evdi.Painter.Connect.Scanout.{
  HoldsScanout, set_scanout-HoldsScanout, set_scanout-HoldsRef, send_vblank_event_refs,
}

-- All invariants at once: the session's, the array of dirty rectangles', the queue's, and the balance
-- of the references to framebuffers and to the cursor's object.
pub record Ok (p : Painter) (cursor : Cursor) (w : World) : Type 0 where
  pub session : PainterInv p
  pub dirts : DirtsOk (dirts_of p)
  pub queue : QueueInv p
  pub scanout : HoldsScanout (p, w)
  pub cursor_ref : HoldsRef (cursor, w)

abbrev pub DeviceOk : Device → Type 0
DeviceOk d = (p : Painter) → d.painter ≡ some p → Ok p d.cursor d.world

-- an operation on the painter alone
pub with_painter-DeviceOk :
    (f : Painter → World → Painter × World)
    → ((p : Painter) (cursor : Cursor) (w : World) → Ok p cursor w → Ok (f p w).0 cursor (f p w).1)
    → (d : Device) → DeviceOk d
    → DeviceOk (with_painter d f)
with_painter-DeviceOk f keeps d inv = go d.painter refl
  where
    go :
        (o : Option Painter)
        → d.painter ≡ o
        → DeviceOk (elim o [
          | none ↦ d
          | some p ↦ let (p', w') = f p d.world in record d { painter = some p'; world = w' }
        ])
    go none e q h = inv q h
    go (some p) e q h =
        subst (λ r. Ok r d.cursor (f p d.world).1) (some-inj h) (keeps p d.cursor d.world (inv p e))

-- a step that changes the painter's queue and the events alone
pub queue-Ok :
    (p : Painter) (cursor : Cursor) (w : World) (r : Painter × World)
    → Ok p cursor w
    → QueueInv r.0
    → SameButQueue p w r
    → Ok r.0 cursor r.1
queue-Ok p cursor w r k q (same, same_w) = record {
  session = subst PainterInv (sym same) (record {
    owned = k.session.owned;
    edid_ok = k.session.edid_ok;
    has_edid = k.session.has_edid;
  });
  dirts = subst (λ p'. DirtsOk (dirts_of p')) (sym same) k.dirts;
  queue = q;
  scanout = subst HoldsScanout (sym (pair same same_w)) k.scanout;
  cursor_ref = subst (λ w'. HoldsRef (cursor, w')) (sym same_w) k.cursor_ref;
}
  where
    pair : {a b : Painter × World} → a.0 ≡ b.0 → a.1 ≡ b.1 → a ≡ b
    pair h k = cc

pub mark_dirty-Ok :
    (r : Rect) (fb : Option Framebuffer) (p : Painter) (cursor : Cursor) (w : World)
    → Ok p cursor w
    → Ok (mark_on p fb r) cursor w
unfolding mark_on
mark_dirty-Ok r none p cursor w k = k
mark_dirty-Ok r (some fb) p cursor w k = record {
  session = record {
    owned = k.session.owned;
    edid_ok = k.session.edid_ok;
    has_edid = k.session.has_edid;
  };
  dirts = (add_dirty-DirtsOk (dirts_of p) _ k.dirts).1;
  queue = record { scheduled = k.queue.scheduled; squashed = k.queue.squashed };
  scanout = k.scanout;
  cursor_ref = k.cursor_ref;
}

pub set_scanout-Ok :
    (fb : Option Framebuffer) (p : Painter) (cursor : Cursor) (w : World)
    → Ok p cursor w
    → Ok (set_scanout_buffer p w fb).0 cursor (set_scanout_buffer p w fb).1
unfolding set_scanout_buffer
set_scanout-Ok fb p cursor w k = record {
  session = record {
    owned = k.session.owned;
    edid_ok = k.session.edid_ok;
    has_edid = k.session.has_edid;
  };
  dirts = k.dirts;
  queue = record { scheduled = k.queue.scheduled; squashed = k.queue.squashed };
  scanout = set_scanout-HoldsScanout p w fb k.scanout;
  cursor_ref = set_scanout-HoldsRef p w fb cursor k.cursor_ref;
}

pub asked-Ok :
    (asked : Bool) (p : Painter) (cursor : Cursor) (w : World)
    → Ok p cursor w
    → Ok (record p { was_update_requested = asked }) cursor w
asked-Ok asked p cursor w k = record {
  session = record {
    owned = k.session.owned;
    edid_ok = k.session.edid_ok;
    has_edid = k.session.has_edid;
  };
  dirts = k.dirts;
  queue = record { scheduled = k.queue.scheduled; squashed = k.queue.squashed };
  scanout = k.scanout;
  cursor_ref = k.cursor_ref;
}

pub request_update-Ok :
    (p : Painter) (cursor : Cursor) (w : World)
    → Ok p cursor w
    → Ok (request_update_on p).0 cursor w
unfolding request_update_on
request_update-Ok p cursor w k =
    if-cases {A = Painter × ℕ} (λ r. Ok r.0 cursor w) p.was_update_requested (p, 0)
      (if ltb 0 p.num_dirts then (p, 1) else (record p { was_update_requested = true }, 0)) (λ _. k)
      (λ _.
        if-cases {A = Painter × ℕ} (λ r. Ok r.0 cursor w) (ltb 0 p.num_dirts) (p, 1)
          (record p { was_update_requested = true }, 0) (λ _. k) (λ _. asked-Ok true p cursor w k))

pub send-Ok :
    (has_space : Space) (event : Option Event) (p : Painter) (cursor : Cursor) (w : World)
    → Ok p cursor w
    → Ok (send_event has_space p w event).0 cursor (send_event has_space p w event).1
send-Ok has_space event p cursor w k =
    queue-Ok p cursor w (send_event has_space p w event) k
      (send_event-QueueInv has_space p w event k.queue)
      (send_event-SameButQueue has_space p w event)

pub send_update_ready-Ok :
    (env : Env) (p : Painter) (cursor : Cursor) (w : World)
    → Ok p cursor w
    → Ok (send_update_ready_on env p w).0 cursor (send_update_ready_on env p w).1
unfolding send_update_ready_on send_update_ready
send_update_ready-Ok env p cursor w k =
    let sent = send_event env.has_space p w (create env 0 update_ready) in
    if-cases {A = Painter × World} (λ r. Ok r.0 cursor r.1)
      (p.was_update_requested && not (p.num_dirts == 0))
      (record sent.0 { was_update_requested = false }, sent.1) (p, w)
      (λ _. asked-Ok false sent.0 cursor sent.1 (send-Ok env.has_space _ p cursor w k)) (λ _. k)

pub work-Ok :
    (has_space : Space) (p : Painter) (cursor : Cursor) (w : World)
    → Ok p cursor w
    → Ok (send_events_work has_space p w).0 cursor (send_events_work has_space p w).1
work-Ok has_space p cursor w k =
    queue-Ok p cursor w (send_events_work has_space p w) k (work-QueueInv has_space p w k.queue)
      (work-SameButQueue has_space p w)

-- sending a vertical blank event, and holding another or none
pub vblank-Ok :
    (crtc vblank : Option ℕ) (p : Painter) (cursor : Cursor) (w : World)
    → Ok p cursor w
    → Ok (record p { crtc = crtc; vblank = vblank }) cursor (send_vblank_event p.crtc p.vblank w)
vblank-Ok crtc vblank p cursor w k =
    let refs = send_vblank_event_refs p.crtc p.vblank w in
    record {
      session = record {
        owned = k.session.owned;
        edid_ok = k.session.edid_ok;
        has_edid = k.session.has_edid;
      };
      dirts = k.dirts;
      queue = record { scheduled = k.queue.scheduled; squashed = k.queue.squashed };
      scanout = rw (refs.0, refs.1) k.scanout;
      cursor_ref = rw (refs.2, refs.3) k.cursor_ref;
    }

pub sent-Ok :
    (crtc vblank : Option ℕ) (p : Painter) (cursor : Cursor) (w : World)
    → Ok p cursor w
    → Ok p cursor (send_vblank_event crtc vblank w)
sent-Ok crtc vblank p cursor w k =
    let refs = send_vblank_event_refs crtc vblank w in
    record {
      session = k.session;
      dirts = k.dirts;
      queue = k.queue;
      scanout = rw (refs.0, refs.1) k.scanout;
      cursor_ref = rw (refs.2, refs.3) k.cursor_ref;
    }
