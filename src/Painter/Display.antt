-- ===== src/Painter/Display.antt =====
-- Notices about the display: power state, mode, and the switch of virtual terminals.
pub mod Notices
use evdi.Prelude.{
  ℕ, ◌*◌, ◌+◌, Bool, true, false, not, ◌&&◌, Option, none, some, ◌==◌, if◌then◌else◌,
}
use evdi.World.{World, Framebuffer}
use evdi.Painter.State.{Painter, Env}
use evdi.Painter.Send.{send_dpms, send_mode_changed, DisplayMode}

-- `DRM_MODE_DPMS_OFF`
abbrev pub dpms_off : ℕ
dpms_off = 3

-- Only `DRM_MODE_DPMS_ON`, 0, notes the console in front.
unfoldable pub note_console : Env → Painter → ℕ → Painter
note_console env p mode = if mode == 0 then record p { fg_console = env.front_console } else p

unfoldable pub dpms_notify_on : Env → Painter → World → ℕ → Painter × World
unfolding note_console
dpms_notify_on env p w mode =
    if p.is_connected then send_dpms env (note_console env p mode) w mode else (p, w)

abbrev pub dpms_notify : Env → Option Painter → World → ℕ → Option Painter × World
dpms_notify env none w mode = (none, w)
dpms_notify env (some p) w mode = let (p', w') = dpms_notify_on env p w mode in (some p', w')

-- with a scanout framebuffer
abbrev pub mode_changed_on : Env → Painter → World → Framebuffer → DisplayMode → Painter × World
mode_changed_on env p w fb mode =
    let (p', w') = send_mode_changed env p w mode (fb.cpp * 8) fb.pixel_format in
    (record p' { needs_full_modeset = false }, w')

abbrev pub mode_changed_scanout :
    Env → Painter → World → Option Framebuffer → DisplayMode → Painter × World
mode_changed_scanout env p w none mode = (p, w)
mode_changed_scanout env p w (some fb) mode = mode_changed_on env p w fb mode

abbrev pub mode_changed_notify : Env → Option Painter → World → DisplayMode → Option Painter × World
mode_changed_notify env none w mode = (none, w)
mode_changed_notify env (some p) w mode =
    let (p', w') = mode_changed_scanout env p w p.scanout_fb mode in (some p', w')

abbrev pub needs_full_modeset : Option Painter → Bool
needs_full_modeset none = false
needs_full_modeset (some p) = p.needs_full_modeset

unfoldable pub force_full_modeset : Painter → Painter
force_full_modeset p = record p { needs_full_modeset = true }

unfoldable pub vt_notifier_call : Env → Painter → World → Painter × World
unfolding force_full_modeset
vt_notifier_call env p w =
    if p.is_connected && not (env.front_console == p.fg_console) && not p.needs_full_modeset
    then (let (p', w') = dpms_notify_on env p w dpms_off in (force_full_modeset p', w'))
    else (p, w)
