-- ===== src/Tests/Events.antt =====
-- Events: squashing, flushing, sending, and the notices that send them.
use evdi.Prelude.{◌≡◌, refl, false, [], ◌∷◌, ◌++◌, some, arith}
use evdi.Event.{update_ready}
use evdi.Event.Squash.{observe_all}
use evdi.Painter.Send.{send_event}
use evdi.Painter.Send.Order.{outgoing, send_event-observe, IsLive}
use evdi.Painter.Update.{send_update_ready_on}
use evdi.Painter.Update.Wakeup.{send_update_ready_tells}
use evdi.Tests.Data.{move_to, no_view, full, env, live, live_world}

live-IsLive : IsLive live
live-IsLive = (refl, refl, refl)

send_event-observe_example :
    observe_all no_view (outgoing (send_event full live live_world (some (move_to 2))))
    ≡ observe_all no_view (outgoing (live, live_world) ++ move_to 2 ∷ [])
send_event-observe_example = send_event-observe full live live_world (move_to 2) no_view live-IsLive

send_update_ready_tells_example :
    (observe_all no_view (outgoing (send_update_ready_on env live live_world))
      ≡ observe_all no_view (outgoing (live, live_world) ++ update_ready ∷ []))
    × ((send_update_ready_on env live live_world).0.was_update_requested ≡ false)
send_update_ready_tells_example =
    send_update_ready_tells env live live_world no_view live-IsLive refl refl (λ e. omega arith)
