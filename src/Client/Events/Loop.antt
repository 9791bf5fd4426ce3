-- ===== src/Client/Events/Loop.antt =====
-- The loop over what was read: every event in turn.
use evdi.Prelude.{
  ℕ, zero, suc, ◌+◌, ◌%◌, ◌^◌, ◌<◌, ◌≤◌, ◌≡◌, refl, arith, true, List, [], ◌∷◌, some, length, ◌∙◌,
}
use evdi.Prelude.Int.{pos, ltb_ℤ, to_s32}
use evdi.Event.{
  Event, update_ready, dpms, mode_changed, crtc_state, cursor_set, cursor_move, ddcci_data,
}
use evdi.Client.{Os, Context}
use evdi.Client.Events.{
  Buffer, EventContext, u32_at, dispatch, handle_event, handle_loop, evdi_handle_events,
}
use evdi.Client.Events.Layout.{event_bytes, event_size, Fits}
use evdi.Client.Events.Decode.{Reads, event_at-Decodes}

-- The events lie one behind the other from the place `i` on.
abbrev pub Lies : Buffer → ℕ → List Event → Type 0
Lies buf i [] = Unit {0}
Lies buf i (e ∷ es) = Fits e × Reads buf i 0 (event_bytes e) × Lies buf (i + event_size e) es

abbrev pub total_size : List Event → ℕ
total_size [] = 0
total_size (e ∷ es) = event_size e + total_size es

event_size_pos : (e : Event) → 0 < event_size e
event_size_pos update_ready = omega arith
event_size_pos (dpms _) = omega arith
event_size_pos (mode_changed _) = omega arith
event_size_pos (crtc_state _) = omega arith
event_size_pos (cursor_set _) = omega arith
event_size_pos (cursor_move _) = omega arith
event_size_pos (ddcci_data _) = omega arith

to_s32_small : (n : ℕ) → n < 2 ^ 31 → to_s32 n ≡ pos n
unfolding to_s32
to_s32_small n h = ground arith

module _ {S : Type 0} (os : Os S) (ctx : EventContext S) where
  -- each event is handed to its handler, in order
  abbrev pub dispatch_all : List Event → S × Context → S × Context
  dispatch_all [] state = state
  dispatch_all (e ∷ es) state = dispatch_all es (dispatch os ctx e state)

  at_end :
      (fuel : ℕ) (buf : Buffer) (i n : ℕ) (state : S × Context)
      → i ≡ n
      → n < 2 ^ 31
      → handle_loop os fuel ctx buf (pos n) i state ≡ some state
  unfolding handle_loop
  at_end zero buf i n state h k = ground (arith, to_s32_small i)
  at_end (suc fuel) buf i n state h k = ground (arith, to_s32_small i)

  one_round :
      (fuel : ℕ) (buf : Buffer) (i n : ℕ) (e : Event) (state : S × Context)
      → Fits e
      → Reads buf i 0 (event_bytes e)
      → i + event_size e ≤ n
      → n < 2 ^ 31
      → handle_loop os (suc fuel) ctx buf (pos n) i state
        ≡ handle_loop os fuel ctx buf (pos n) (i + event_size e) (dispatch os ctx e state)
  unfolding handle_loop handle_event
  one_round fuel buf i n e state f r le k =
      let (cast, size) = event_at-Decodes buf i e f r in
      let index : (i + u32_at buf i 4) % 2 ^ 32 ≡ i + event_size e = omega (arith, size) in
      let inside : ltb_ℤ (to_s32 i) (pos n) ≡ true =
        rw (to_s32_small i (omega arith)) (ground (arith, event_size_pos e)) in
      rw inside (rw cast (rw index refl))

  -- Of events that lie one behind the other in what was read, the loop hands each to its handler, in
  -- order, and ends, on fuel of their number or more.
  pub handle_loop_lem :
      (fuel : ℕ) (es : List Event) (buf : Buffer) (i n : ℕ) (state : S × Context)
      → Lies buf i es
      → i + total_size es ≡ n
      → n < 2 ^ 31
      → length es ≤ fuel
      → handle_loop os fuel ctx buf (pos n) i state ≡ some (dispatch_all es state)
  handle_loop_lem fuel [] buf i n state l t k f = at_end fuel buf i n state (omega arith) k
  handle_loop_lem zero (e ∷ es) buf i n state l t k f = absurd (omega arith)
  handle_loop_lem (suc fuel) (e ∷ es) buf i n state (fits, r, l) t k f =
      one_round fuel buf i n e state fits r (omega arith) k
      ∙ handle_loop_lem fuel es buf (i + event_size e) n (dispatch os ctx e state) l (omega arith) k
          (omega arith)

-- Where the array holds events of the module one behind the other, as many bytes as were read, the
-- library hands each of them to the client's handler of its kind, with the fields that the module gave
-- it, in order, and returns.
pub handle_events_lem :
    {S : Type 0} (os : Os S) (ctx : EventContext S) (fuel : ℕ) (es : List Event) (buf : Buffer)
    (state : S × Context)
    → Lies buf 0 es
    → total_size es ≤ 1024
    → length es ≤ fuel
    → evdi_handle_events os fuel (some ctx) buf (pos (total_size es)) state
      ≡ some (dispatch_all os ctx es state)
unfolding evdi_handle_events
handle_events_lem os ctx fuel es buf state l few f =
    handle_loop_lem os ctx fuel es buf 0 (total_size es) state l (omega arith) (omega arith) f
