-- ===== src/Tests/Connectors.antt =====
-- The connector's theorems at two modes of one resolution, of which the device can take neither's rate.
use evdi.Prelude.{ℕ, ◌≡◌, ◌≤◌, refl, arith, List, [], ◌∷◌}
use mathlib.Core.List.{Memᴰ}
use evdi.Painter.State.{Device}
use evdi.Connector.{
  DisplayMode, mode_valid, mode_ok, mode_bad, area_of, rate_of, is_lowest_frequency_mode,
}
use evdi.Connector.Modes.{mode_valid-keeps}
use evdi.Tests.Data.{live_device}

abbrev hertz : DisplayMode → ℕ
hertz m = m.clock

abbrev mode_at : ℕ → DisplayMode
mode_at rate = record {
  hdisplay = 1920;
  vdisplay = 1080;
  clock = rate;
  htotal = 2200;
  vtotal = 1125;
}

abbrev limited : Device
limited = record live_device { pixel_area_limit = 3000000; pixel_per_second_limit = 60000000 }

abbrev modes : List DisplayMode
modes = mode_at 60 ∷ mode_at 50 ∷ []

fast_refused : mode_valid hertz limited modes (mode_at 60) ≡ mode_bad
unfolding mode_valid area_of rate_of is_lowest_frequency_mode
fast_refused = refl

slow_kept : mode_valid hertz limited modes (mode_at 50) ≡ mode_ok
unfolding mode_valid area_of rate_of is_lowest_frequency_mode
slow_kept = refl

area_fits : area_of (mode_at 60) ≤ 3000000
unfolding area_of
area_fits = omega arith

mode_valid-keeps_example :
    (kept : DisplayMode) × Memᴰ kept modes
    × (kept.hdisplay ≡ 1920)
    × (kept.vdisplay ≡ 1080)
    × (kept.clock ≤ 60)
    × (mode_valid hertz limited modes kept ≡ mode_ok)
mode_valid-keeps_example =
    mode_valid-keeps hertz limited modes (mode_at 60) (Memᴰ.head refl) area_fits
