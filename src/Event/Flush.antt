-- ===== src/Event/Flush.antt =====
-- Flushing: events leave in the order in which they were queued, none is lost or sent twice, and the
-- flush stops only where the file has no space.
use evdi.Prelude.{◌≡◌, refl, false, List, [], ◌∷◌, ◌++◌, append_assoc, Bool-cases, inl, inr, ◌∙◌}
use evdi.Event.Squash.{IsSquashed}
use evdi.Event.{Event, Outbox, Space, flush, is_empty, flush_pending_events}

flush-order :
    (has_space : Space) (sent pending : List Event)
    → (flush has_space sent pending).sent ++ (flush has_space sent pending).pending
      ≡ sent ++ pending
unfolding flush
flush-order has_space sent [] = refl
flush-order has_space sent (event ∷ rest) = elim (Bool-cases (has_space sent event)) [
  | inl e ↦
      rw (e, flush)
        (flush-order has_space (sent ++ event ∷ []) rest ∙ append_assoc sent (event ∷ []) rest)
  | inr e ↦ rw (e, flush)
]

-- Why a flush stopped: nothing is left, or there is no space for the first event left.
abbrev pub Stopped : Space → Outbox → Type 0
Stopped has_space box = Stopped_at box.pending
  where
    Stopped_at : List Event → Type 0
    Stopped_at [] = Unit {0}
    Stopped_at (event ∷ _) = has_space box.sent event ≡ false

flush-Stopped :
    (has_space : Space) (sent pending : List Event)
    → Stopped has_space (flush has_space sent pending)
unfolding flush
flush-Stopped has_space sent [] = tt
flush-Stopped has_space sent (event ∷ rest) = elim (Bool-cases (has_space sent event)) [
  | inl e ↦ rw (e, flush) (flush-Stopped has_space (sent ++ event ∷ []) rest)
  | inr e ↦ rw (e, flush) e
]

-- A flush keeps what was sent followed by what waits, stops only for lack of space, and reports
-- whether the list is empty.
pub flush_lem :
    (has_space : Space) (box : Outbox)
    → let (after, flushed_all) = flush_pending_events has_space box in
      (after.sent ++ after.pending ≡ box.sent ++ box.pending)
      × Stopped has_space after
      × (flushed_all ≡ is_empty after.pending)
unfolding flush_pending_events
flush_lem has_space box =
    (flush-order has_space box.sent box.pending, flush-Stopped has_space box.sent box.pending, refl)

IsSquashed-tail : (event : Event) (rest : List Event) → IsSquashed (event ∷ rest) → IsSquashed rest
IsSquashed-tail event [] s = tt
IsSquashed-tail event (next ∷ rest) s = s.1

flush-IsSquashed :
    (has_space : Space) (sent pending : List Event)
    → IsSquashed pending
    → IsSquashed (flush has_space sent pending).pending
unfolding flush
flush-IsSquashed has_space sent [] s = tt
flush-IsSquashed has_space sent (event ∷ rest) s = elim (Bool-cases (has_space sent event)) [
  | inl e ↦
      rw (e, flush)
        (flush-IsSquashed has_space (sent ++ event ∷ []) rest (IsSquashed-tail event rest s))
  | inr e ↦ rw (e, flush) s
]

pub flush_pending-IsSquashed :
    (has_space : Space) (box : Outbox)
    → IsSquashed box.pending
    → IsSquashed (flush_pending_events has_space box).0.pending
unfolding flush_pending_events
flush_pending-IsSquashed has_space box s = flush-IsSquashed has_space box.sent box.pending s
