-- ===== src/Connector/Detect.antt =====
-- What a connector that is detected as disconnected offers.
use evdi.Prelude.{ℕ, ◌≡◌, ap, Bool, false, arith, List, Option, none}
use evdi.Errno.{Status, ok}
use evdi.Painter.State.{Device}
use evdi.Painter.Connect.{is_connected}
use evdi.Painter.Connect.Lifecycle.{get_edid_copy-none}
use evdi.Connector.{disconnected, detect, get_modes, get_modes_of}

-- A connector is detected as disconnected only where the painter is missing or not connected.
pub detect_lem : (evdi : Device) → detect evdi ≡ disconnected → is_connected evdi.painter ≡ false
unfolding detect
detect_lem evdi h = ground arith

-- Where the connector is detected as disconnected, it offers no mode, and its edid is cleared.
pub get_modes-disconnected :
    {Connector : Type 0} (update_edid_property : Connector → Option (List ℕ) → Connector × Status)
    (add_edid_modes : Connector → List ℕ → Connector × ℕ) (evdi : Device) (alloc : Bool)
    (conn : Connector)
    → detect evdi ≡ disconnected
    → get_modes update_edid_property add_edid_modes evdi alloc conn
      ≡ ((update_edid_property conn none).0, ok 0)
unfolding get_modes get_modes_of
get_modes-disconnected update_edid_property add_edid_modes evdi alloc conn h =
    ap (λ e. get_modes_of update_edid_property add_edid_modes e conn)
      (get_edid_copy-none evdi.painter alloc (detect_lem evdi h))
