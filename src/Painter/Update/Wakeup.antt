-- ===== src/Painter/Update/Wakeup.antt =====
-- No wakeup is lost: a client that asked and was not told to grab is sent an event when there is
-- something to grab.
use evdi.Prelude.{
  ℕ, ◌≡◌, ◌≢◌, refl, true, false, ◌&&◌, not, [], ◌∷◌, ◌++◌, arith, ltb, ◌==◌, ◌⊎◌, inl, inr,
  if-cases,
}
use evdi.Event.{update_ready, event_base}
use evdi.Event.Squash.{View, observe_all}
use evdi.World.{World}
use evdi.Painter.State.{Painter, Env}
use evdi.Painter.Send.{send_update_ready}
use evdi.Painter.Send.Order.{IsLive, outgoing, send_event-observe}
use evdi.Painter.Update.{request_update_on, send_update_ready_on}

-- After a request either the answer is 1, something is dirty and the painter is as it was, or
-- the answer is 0 and the painter knows that the client waits.
pub request_update_lem :
    (p : Painter)
    → ((request_update_on p).1 ≡ 1 × (p.num_dirts ≢ 0) × ((request_update_on p).0 ≡ p))
      ⊎ ((request_update_on p).1 ≡ 0 × ((request_update_on p).0.was_update_requested ≡ true))
unfolding request_update_on
request_update_lem p =
    if-cases Told p.was_update_requested _ _ (λ e. inr (refl, e))
      λ e.
        if-cases Told (ltb 0 p.num_dirts) _ _ (λ d. inl (refl, ground arith, refl))
          (λ d. inr (refl, refl))
  where
    Told : Painter × ℕ → Type 0
    Told r =
        (r.1 ≡ 1 × (p.num_dirts ≢ 0) × (r.0 ≡ p)) ⊎ (r.1 ≡ 0 × (r.0.was_update_requested ≡ true))

-- If the client of an owned and connected painter has asked and something is dirty, and the
-- event can be allocated, the client is told, after all that it was told before, and the request
-- is done with.
pub send_update_ready_tells :
    (env : Env) (p : Painter) (w : World) (v : View)
    → IsLive p
    → env.alloc_event event_base ≡ true
    → p.was_update_requested ≡ true
    → p.num_dirts ≢ 0
    → (observe_all v (outgoing (send_update_ready_on env p w))
        ≡ observe_all v (outgoing (p, w) ++ update_ready ∷ []))
      × ((send_update_ready_on env p w).0.was_update_requested ≡ false)
unfolding send_update_ready_on send_update_ready
send_update_ready_tells env p w v live a r d =
    if-cases {A = Painter × World} Told (p.was_update_requested && not (p.num_dirts == 0)) _ _
      (λ _. (rw a (send_event-observe env.has_space p w update_ready v live), refl))
      (λ h. absurd (ground arith))
  where
    Told : Painter × World → Type 0
    Told out =
        (observe_all v (outgoing out) ≡ observe_all v (outgoing (p, w) ++ update_ready ∷ []))
        × (out.0.was_update_requested ≡ false)

-- A client that did not ask, or has nothing to grab, is not disturbed.
pub send_update_ready_quiet :
    (env : Env) (p : Painter) (w : World)
    → (p.was_update_requested ≡ false) ⊎ (p.num_dirts ≡ 0)
    → send_update_ready_on env p w ≡ (p, w)
unfolding send_update_ready_on
send_update_ready_quiet env p w (inl r) = rw r
send_update_ready_quiet env p w (inr d) = ground arith
