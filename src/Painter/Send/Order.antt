-- ===== src/Painter/Send/Order.antt =====
-- What sending an event does to the queue: nothing is stuck, lost or reordered.
use evdi.Prelude.{
  ◌≡◌, refl, Bool, true, false, not, List, [], ◌∷◌, ◌++◌, Option, none, some, arith, is_some,
  Bool-cases, if-cases, inl, inr, sym, ◌∙◌, ap, append_assoc,
}
use evdi.Event.{Event, Outbox, Space, add_event_to_pending_list, is_empty}
use evdi.Event.Squash.{View, observe_all, add-observe, IsSquashed, add-IsSquashed}
use evdi.Event.Flush.{flush_lem, flush_pending-IsSquashed}
use evdi.World.{World}
use evdi.Painter.State.{Painter}
use evdi.Painter.Send.{cancel, flush_and_reschedule, queue_event, send_event, send_events_work}

-- a painter whose events go to a client
abbrev pub IsLive : Painter → Type 0
IsLive p = (is_some p.drm_filp ≡ true) × (p.has_drm_device ≡ true) × (p.is_connected ≡ true)

-- Events wait only while the delayed work is scheduled to send them, and none waits in vain behind
-- one that makes it useless.
pub record QueueInv (p : Painter) : Type 0 where
  pub scheduled : p.work_pending ≡ false → p.pending_events ≡ []
  pub squashed : IsSquashed p.pending_events

is_empty-nil : (es : List Event) → is_empty es ≡ true → es ≡ []
is_empty-nil [] h = refl
is_empty-nil (e ∷ es) h = cc

not-false : (b : Bool) → not b ≡ false → b ≡ true
not-false true h = refl
not-false false h = cc

flush-QueueInv :
    (has_space : Space) (p : Painter) (w : World)
    → IsSquashed p.pending_events
    → QueueInv (flush_and_reschedule has_space p w).0
unfolding flush_and_reschedule
flush-QueueInv has_space p w s =
    let box : Outbox = record { sent = w.sent; pending = p.pending_events } in
    record {
      scheduled = λ h. is_empty-nil _ (sym (flush_lem has_space box).2 ∙ not-false _ h);
      squashed = flush_pending-IsSquashed has_space box s;
    }

queue-QueueInv :
    (has_space : Space) (p : Painter) (w : World) (event : Event)
    → QueueInv p
    → QueueInv (queue_event has_space p w event).0
unfolding queue_event
queue-QueueInv has_space p w event q = elim (Bool-cases p.work_pending) [
  | inl e ↦
      rw (e, queue_event)
        (record {
          scheduled = λ h. cc;
          squashed = add-IsSquashed p.pending_events event q.squashed;
        })
  | inr e ↦
      rw (e, queue_event)
        (flush-QueueInv has_space _ w (add-IsSquashed p.pending_events event q.squashed))
]

-- what an event comes to: it is queued for the client, or given up
send_cases {ℓ} :
    (P : Painter × World → Type ℓ) (has_space : Space) (p : Painter) (w : World) (event : Event)
    → (IsLive p → P (queue_event has_space p w event))
    → (¬ IsLive p → P (p, cancel w event))
    → P (send_event has_space p w (some event))
unfolding send_event
send_cases P has_space p w event live dead =
    if-cases P _ _ _ (λ a. dead λ l. ground arith)
      λ a.
        if-cases P _ _ _ (λ b. dead λ l. ground arith)
          λ b.
            if-cases P _ _ _ (λ c. dead λ l. ground arith)
              λ c. live (not-false _ a, not-false _ b, not-false _ c)

-- Sending an event keeps the queue's invariant, with a client or without.
pub send_event-QueueInv :
    (has_space : Space) (p : Painter) (w : World) (event : Option Event)
    → QueueInv p
    → QueueInv (send_event has_space p w event).0
unfolding send_event
send_event-QueueInv has_space p w none q = q
send_event-QueueInv has_space p w (some event) q =
    send_cases (λ r. QueueInv r.0) has_space p w event (λ l. queue-QueueInv has_space p w event q)
      (λ l. q)

-- The delayed work keeps the queue's invariant too, which is all that it needs of the one before.
pub work-QueueInv :
    (has_space : Space) (p : Painter) (w : World)
    → QueueInv p
    → QueueInv (send_events_work has_space p w).0
unfolding send_events_work
work-QueueInv has_space p w q = flush-QueueInv has_space _ w q.squashed

observe_all-append :
    (v : View) (xs ys : List Event) → observe_all v (xs ++ ys) ≡ observe_all (observe_all v xs) ys
unfolding observe_all
observe_all-append v [] ys = refl
observe_all-append v (x ∷ xs) ys = observe_all-append _ xs ys

-- all that the client has been sent or will be
abbrev pub outgoing : Painter × World → List Event
outgoing (p, w) = w.sent ++ p.pending_events

flush-outgoing :
    (has_space : Space) (p : Painter) (w : World)
    → outgoing (flush_and_reschedule has_space p w) ≡ outgoing (p, w)
unfolding flush_and_reschedule
flush-outgoing has_space p w =
    (flush_lem has_space (record { sent = w.sent; pending = p.pending_events })).0

queue-outgoing :
    (has_space : Space) (p : Painter) (w : World) (event : Event)
    → outgoing (queue_event has_space p w event)
      ≡ w.sent ++ add_event_to_pending_list p.pending_events event
unfolding queue_event
queue-outgoing has_space p w event = elim (Bool-cases p.work_pending) [
  | inl e ↦ rw (e, queue_event)
  | inr e ↦ rw (e, queue_event) (flush-outgoing has_space _ w)
]

-- With an owner, a DRM device and a connection: what the client has been sent and will be, after
-- an event is sent to it, shows it the same as everything before followed by that event. An
-- older cursor event that was squashed is not missed.
pub send_event-observe :
    (has_space : Space) (p : Painter) (w : World) (event : Event) (v : View)
    → IsLive p
    → observe_all v (outgoing (send_event has_space p w (some event)))
      ≡ observe_all v (outgoing (p, w) ++ event ∷ [])
send_event-observe has_space p w event v l =
    send_cases (λ r. observe_all v (outgoing r) ≡ observe_all v (outgoing (p, w) ++ event ∷ []))
      has_space p w event
      (λ _.
        ap (observe_all v) (queue-outgoing has_space p w event)
        ∙ observe_all-append v w.sent (add_event_to_pending_list p.pending_events event)
        ∙ add-observe _ p.pending_events event
        ∙ sym (observe_all-append v w.sent (p.pending_events ++ event ∷ []))
        ∙ ap (observe_all v) (sym (append_assoc w.sent p.pending_events (event ∷ []))))
      (λ n. absurd (n l))

-- Without a client the event is given up, and nothing else changes.
pub send_event_dead :
    (has_space : Space) (p : Painter) (w : World) (event : Event)
    → ¬ IsLive p
    → send_event has_space p w (some event) ≡ (p, cancel w event)
send_event_dead has_space p w event n =
    send_cases (λ r. r ≡ (p, cancel w event)) has_space p w event (λ l. absurd (n l)) (λ _. refl)

-- The delayed work keeps what was sent followed by what waits: it sends in order, and neither
-- drops nor adds an event.
pub work-outgoing :
    (has_space : Space) (p : Painter) (w : World)
    → outgoing (send_events_work has_space p w) ≡ outgoing (p, w)
unfolding send_events_work
work-outgoing has_space p w = flush-outgoing has_space _ w

-- what sending leaves alone: all of the painter but its queue, and all of the world but the events
abbrev pub SameButQueue : Painter → World → Painter × World → Type 0
SameButQueue p w (p', w') =
    (p' ≡ record p { pending_events = p'.pending_events; work_pending = p'.work_pending })
    × (w' ≡ record w { sent = w'.sent; cancelled = w'.cancelled })

flush-SameButQueue :
    (has_space : Space) (p : Painter) (w : World)
    → SameButQueue p w (flush_and_reschedule has_space p w)
unfolding flush_and_reschedule
flush-SameButQueue has_space p w = (refl, refl)

pub send_event-SameButQueue :
    (has_space : Space) (p : Painter) (w : World) (event : Option Event)
    → SameButQueue p w (send_event has_space p w event)
unfolding send_event queue_event flush_and_reschedule
send_event-SameButQueue has_space p w none = (refl, refl)
send_event-SameButQueue has_space p w (some event) =
    send_cases (SameButQueue p w) has_space p w event
      (λ _. if-cases (SameButQueue p w) p.work_pending _ _ (λ e. (refl, refl)) (λ e. (refl, refl)))
      (λ _. (refl, refl))

pub work-SameButQueue :
    (has_space : Space) (p : Painter) (w : World)
    → SameButQueue p w (send_events_work has_space p w)
unfolding send_events_work flush_and_reschedule
work-SameButQueue has_space p w = (refl, refl)
