-- ===== src/Painter/Display/Notices.antt =====
-- A switch of virtual terminals is noticed once, until the next modeset.
use evdi.Prelude.{
  ◌≡◌, refl, Bool, true, false, not, ◌&&◌, ◌+◌, ◌==◌, if◌then◌else◌, if-cases, arith, [], ◌∷◌, ◌++◌,
}
use evdi.Event.{dpms, event_base}
use evdi.Event.Squash.{View, observe_all}
use evdi.World.{World}
use evdi.Painter.State.{Painter, Env}
use evdi.Painter.Send.{send_dpms}
use evdi.Painter.Send.Order.{IsLive, outgoing, send_event-observe}
use evdi.Painter.Display.{
  dpms_off, vt_notifier_call, force_full_modeset, dpms_notify_on, note_console,
}

abbrev pub switched : Env → Painter → Bool
switched env p =
    p.is_connected && not (env.front_console == p.fg_console) && not p.needs_full_modeset

-- Once a switch was handled, or there was none, a second call with the same console does nothing.
pub vt_notifier_once :
    (env : Env) (p : Painter) (w : World)
    → let (p', w') = vt_notifier_call env p w in vt_notifier_call env p' w' ≡ (p', w')
unfolding vt_notifier_call force_full_modeset
vt_notifier_once env p w =
    if-cases {A = Painter × World} Settled (switched env p) _ _
      (λ _. forced (dpms_notify_on env p w dpms_off).0 (dpms_notify_on env p w dpms_off).1)
      λ still. unswitched still
  where
    Settled : Painter × World → Type 0
    Settled (p', w') =
        let again : Painter × World =
          if switched env p'
          then (let (p'', w'') = dpms_notify_on env p' w' dpms_off in (force_full_modeset p'', w''))
          else (p', w') in
        ◌≡◌ {A = Painter × World} again (p', w')

    forced : (q : Painter) (w' : World) → Settled (force_full_modeset q, w')
    forced q w' = ground arith

    unswitched : switched env p ≡ false → Settled (p, w)
    unswitched still = ground arith

-- If the client of an owned and connected painter that needs no full modeset is on a console
-- that is not in front, and the event can be allocated, the client is told that its display is
-- off, after all that it was told before, and the next modeset is full.
pub vt_switch_lem :
    (env : Env) (p : Painter) (w : World) (v : View)
    → IsLive p
    → switched env p ≡ true
    → env.alloc_event (event_base + 1) ≡ true
    → let (p', w') = vt_notifier_call env p w in
      (observe_all v (outgoing (p', w')) ≡ observe_all v (outgoing (p, w) ++ dpms dpms_off ∷ []))
      × (p'.needs_full_modeset ≡ true)
unfolding vt_notifier_call dpms_notify_on force_full_modeset send_dpms note_console
vt_switch_lem env p w v live moved alloc =
    if-cases {A = Painter × World} Told (switched env p) _ _ (λ _. told)
      (λ still. absurd (ground arith))
  where
    Told : Painter × World → Type 0
    Told r =
        (observe_all v (outgoing r) ≡ observe_all v (outgoing (p, w) ++ dpms dpms_off ∷ []))
        × (r.0.needs_full_modeset ≡ true)

    told : Told (let (p'', w'') = dpms_notify_on env p w dpms_off in (force_full_modeset p'', w''))
    told = (
      if-cases {A = Painter × World}
          (λ r. observe_all v (outgoing r) ≡ observe_all v (outgoing (p, w) ++ dpms dpms_off ∷ []))
          p.is_connected _ _
          (λ _. rw alloc (send_event-observe env.has_space p w (dpms dpms_off) v live))
          (λ c. absurd (ground (arith, live))),
      refl,
    )
