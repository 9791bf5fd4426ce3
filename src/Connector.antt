-- ===== src/Connector.antt =====
-- The connector of module/evdi_connector.c: which display modes it accepts, what it detects and which
-- modes it offers. What the kernel's functions on modes and edids do is a parameter.
pub mod Modes
pub mod I2c
pub mod Detect
use evdi.Prelude.{
  ℕ, ◌*◌, ◌%◌, ◌^◌, Bool, true, false, ◌&&◌, List, [], ◌∷◌, Option, none, some, ltb, leb, ◌==◌,
  if◌then◌else◌,
}
use evdi.Errno.{Result, Status, ok, err}
use evdi.Painter.State.{Device}
use evdi.Painter.Connect.{is_connected, get_edid_copy}

-- The part of `struct drm_display_mode` that a refresh rate is computed of.
pub record DisplayMode : Type 0 where
  pub hdisplay : ℕ
  pub vdisplay : ℕ
  pub clock : ℕ
  pub htotal : ℕ
  pub vtotal : ℕ

pub data ModeStatus : Type 0 where
  mode_ok mode_bad : ModeStatus

pub data ConnectorStatus : Type 0 where
  connected disconnected : ConnectorStatus

-- The products are taken in 32 bits.
unfoldable pub area_of : DisplayMode → ℕ
area_of mode = (mode.hdisplay * mode.vdisplay) % 2 ^ 32

module _ (drm_mode_vrefresh : DisplayMode → ℕ) where
  unfoldable pub rate_of : DisplayMode → ℕ
  rate_of mode = (area_of mode * drm_mode_vrefresh mode) % 2 ^ 32

  abbrev pub same_resolution : DisplayMode → DisplayMode → Bool
  same_resolution a b = (a.hdisplay == b.hdisplay) && (a.vdisplay == b.vdisplay)

  abbrev pub slower : DisplayMode → DisplayMode → Bool
  slower a b = same_resolution a b && ltb (drm_mode_vrefresh a) (drm_mode_vrefresh b)

  unfoldable pub is_lowest_frequency_mode : List DisplayMode → DisplayMode → Bool
  is_lowest_frequency_mode [] mode = true
  is_lowest_frequency_mode (modeptr ∷ modes) mode =
      if slower modeptr mode then false else is_lowest_frequency_mode modes mode

  unfoldable pub mode_valid : Device → List DisplayMode → DisplayMode → ModeStatus
  mode_valid evdi modes mode =
      if evdi.pixel_per_second_limit == 0
      then mode_ok
      else if ltb evdi.pixel_area_limit (area_of mode)
      then mode_bad
      else if leb (rate_of mode) evdi.pixel_per_second_limit
      then mode_ok
      else if is_lowest_frequency_mode modes mode
      then mode_ok
      else mode_bad

pub detect : Device → ConnectorStatus
detect evdi = if is_connected evdi.painter then connected else disconnected

-- The kernel's side of the connector: `drm_connector_update_edid_property` and `drm_add_edid_modes`,
-- which gives the number of modes.
module _ {Connector : Type 0}
    (update_edid_property : Connector → Option (List ℕ) → Connector × Status)
    (add_edid_modes : Connector → List ℕ → Connector × ℕ) where
  unfoldable pub with_property : List ℕ → Connector × Status → Connector × Result ℕ
  with_property edid (conn, ok _) = let (conn', n) = add_edid_modes conn edid in (conn', ok n)
  with_property edid (conn, err e) = (conn, err e)

  unfoldable pub get_modes_of : Option (List ℕ) → Connector → Connector × Result ℕ
  get_modes_of none conn = let (conn', _) = update_edid_property conn none in (conn', ok 0)
  get_modes_of (some edid) conn = with_property edid (update_edid_property conn (some edid))

  unfoldable pub get_modes : Device → Bool → Connector → Connector × Result ℕ
  get_modes evdi alloc conn = get_modes_of (get_edid_copy evdi.painter alloc) conn
