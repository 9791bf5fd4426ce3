-- ===== src/Painter/Update.antt =====
-- The handshake about updates: the client asks, and is told now or by an event.
pub mod Wakeup
use evdi.Prelude.{
  ℕ, ◌<◌, Bool, true, false, ◌&&◌, not, Option, none, some, ltb, ◌==◌, if◌then◌else◌,
}
use evdi.Errno.{Result, ok, err, enodev}
use evdi.World.{World}
use evdi.Painter.State.{Painter, Env}
use evdi.Painter.Send.{send_update_ready}

-- The answer is 1 if there is something to grab.
unfoldable pub request_update_on : Painter → Painter × ℕ
request_update_on p =
    if p.was_update_requested
    then (p, 0)
    else if ltb 0 p.num_dirts
    then (p, 1)
    else (record p { was_update_requested = true }, 0)

abbrev pub request_update_ioctl : Option Painter → Option Painter × Result ℕ
request_update_ioctl none = (none, err enodev)
request_update_ioctl (some p) = let (p', result) = request_update_on p in (some p', ok result)

unfoldable pub send_update_ready_on : Env → Painter → World → Painter × World
send_update_ready_on env p w =
    if p.was_update_requested && not (p.num_dirts == 0)
    then (let (p', w') = send_update_ready env p w in
        (record p' { was_update_requested = false }, w'))
    else (p, w)

abbrev pub send_update_ready_if_needed : Env → Option Painter → World → Option Painter × World
send_update_ready_if_needed env none w = (none, w)
send_update_ready_if_needed env (some p) w =
    let (p', w') = send_update_ready_on env p w in (some p', w')
