-- ===== src/Painter/Vblank/Once.antt =====
-- Every vertical blank event is sent once, or held to be sent later.
use evdi.Prelude.{
  ℕ, ◌+◌, ◌≡◌, ◌&&◌, Option, none, some, arith, ◌==◌, ltb, if◌then◌else◌, is_some, Bool-cases, inl,
  inr,
}
use evdi.World.{World, count}
use evdi.Painter.State.{Painter}
use evdi.Painter.Vblank.{send_vblank_event, send_vblank, set_vblank}

-- one, if the event and its crtc are both there and the event is `v`
abbrev pub held : Option ℕ → Option ℕ → ℕ → ℕ
held (some crtc) (some vblank) v = if vblank == v then 1 else 0
held (some crtc) none v = 0
held none vblank v = 0

abbrev pub held_by : Option Painter → ℕ → ℕ
held_by none v = 0
held_by (some p) v = held p.crtc p.vblank v

pub send_vblank_event-count :
    (crtc vblank : Option ℕ) (w : World) (v : ℕ)
    → count v (send_vblank_event crtc vblank w).vblanks ≡ count v w.vblanks + held crtc vblank v
unfolding send_vblank_event
send_vblank_event-count (some c) (some b) w v = ground arith
send_vblank_event-count (some c) none w v = ground arith
send_vblank_event-count none b w v = ground arith

-- How often an event was sent, with once more if the painter holds it, grows by the one that is
-- given with its crtc and by nothing else: no event is dropped or sent twice, with a painter or
-- without, connected or not.
pub set_vblank-count :
    (p : Option Painter) (w : World) (crtc vblank : Option ℕ) (v : ℕ)
    → count v (set_vblank p w crtc vblank).1.vblanks + held_by (set_vblank p w crtc vblank).0 v
      ≡ count v w.vblanks + held_by p v + held crtc vblank v
unfolding set_vblank send_vblank
set_vblank-count none w crtc vblank v = omega (arith, send_vblank_event-count crtc vblank w v)
set_vblank-count (some p) w crtc vblank v =
    elim (Bool-cases (ltb 0 p.num_dirts && p.is_connected)) [
      | inl e ↦ rw e (omega (arith, send_vblank_event-count p.crtc p.vblank w v))
      | inr e ↦ rw e (
          omega (
            arith,
            send_vblank_event-count p.crtc p.vblank w v,
            send_vblank_event-count crtc vblank (send_vblank_event p.crtc p.vblank w) v,
          ))
    ]

-- An event is held back only for a connected painter with pixels to grab.
pub set_vblank-held :
    (p : Painter) (w : World) (crtc vblank : ℕ)
    → is_some (elim (set_vblank (some p) w (some crtc) (some vblank)).0 [
      | none ↦ none
      | some q ↦ q.vblank
    ])
      ≡ (ltb 0 p.num_dirts && p.is_connected)
unfolding set_vblank send_vblank
set_vblank-held p w crtc vblank = ground arith
