-- ===== src/Event/Squash.antt =====
-- Squashing: a client that keeps the latest cursor image, the latest cursor position and every other
-- event cannot tell the pending list from the list of all events.
use evdi.Prelude.{
  ◌+◌, ◌≤◌, ◌≡◌, refl, true, false, List, [], ◌∷◌, ◌++◌, Option, some, arith, length, Bool-cases,
  inl, inr, sym,
}
use evdi.Event.{
  Event, CursorSet, CursorMove, update_ready, dpms, mode_changed, crtc_state, cursor_set,
  cursor_move, ddcci_data, squashes, add_event_to_pending_list,
}

-- what a client has after the events it read
pub record View : Type 0 where
  pub image : Option CursorSet
  pub position : Option CursorMove
  pub others : List Event

pub observe : View → Event → View
observe v (cursor_set c) = record v { image = some c }
observe v (cursor_move m) = record v { position = some m }
observe v update_ready = record v { others = v.others ++ update_ready ∷ [] }
observe v (dpms mode) = record v { others = v.others ++ dpms mode ∷ [] }
observe v (mode_changed m) = record v { others = v.others ++ mode_changed m ∷ [] }
observe v (crtc_state s) = record v { others = v.others ++ crtc_state s ∷ [] }
observe v (ddcci_data d) = record v { others = v.others ++ ddcci_data d ∷ [] }

unfoldable pub observe_all : View → List Event → View
unfolding observe
observe_all v [] = v
observe_all v (e ∷ es) = observe_all (observe v e) es

observe-squashed :
    (v : View) (event last : Event)
    → squashes event last ≡ true
    → observe (observe v last) event ≡ observe v event
unfolding squashes observe
observe-squashed v event last h = ground arith

-- Adding an event to the pending list shows the client what the event after all earlier ones would.
pub add-observe :
    (v : View) (es : List Event) (event : Event)
    → observe_all v (add_event_to_pending_list es event) ≡ observe_all v (es ++ event ∷ [])
unfolding observe_all add_event_to_pending_list
add-observe v [] event = refl
add-observe v (last ∷ []) event = elim (Bool-cases (squashes event last)) [
  | inl e ↦ rw e (sym (observe-squashed v event last e))
  | inr e ↦ rw e
]
add-observe v (first ∷ next ∷ rest) event = add-observe (observe v first) (next ∷ rest) event

-- no entry could have been squashed into the one before it
abbrev pub IsSquashed : List Event → Type 0
IsSquashed [] = Unit {0}
IsSquashed (a ∷ []) = Unit {0}
IsSquashed (a ∷ b ∷ rest) = (squashes b a ≡ false) × IsSquashed (b ∷ rest)

squashes-false : (a b c : Event) → squashes b a ≡ false → squashes c b ≡ true → squashes c a ≡ false
unfolding squashes
squashes-false a b c h k = ground arith

-- The pending list never holds two neighbours of which the later makes the earlier useless.
pub add-IsSquashed :
    (es : List Event) (event : Event)
    → IsSquashed es
    → IsSquashed (add_event_to_pending_list es event)
unfolding add_event_to_pending_list
add-IsSquashed [] event h = tt
add-IsSquashed (last ∷ []) event h = elim (Bool-cases (squashes event last)) [
  | inl e ↦ rw e tt
  | inr e ↦ rw e (e, tt)
]
add-IsSquashed (first ∷ last ∷ []) event h = elim (Bool-cases (squashes event last)) [
  | inl e ↦ rw e (squashes-false first last event h.0 e, tt)
  | inr e ↦ rw e (h.0, (e, tt))
]
add-IsSquashed (first ∷ second ∷ third ∷ rest) event h =
    (h.0, add-IsSquashed (second ∷ third ∷ rest) event h.1)

pub length-add-le :
    (es : List Event) (event : Event) → length (add_event_to_pending_list es event) ≤ length es + 1
unfolding add_event_to_pending_list
length-add-le [] event = omega arith
length-add-le (last ∷ []) event = ground arith
length-add-le (first ∷ next ∷ rest) event = omega (arith, length-add-le (next ∷ rest) event)
