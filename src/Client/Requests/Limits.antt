-- ===== src/Client/Requests/Limits.antt =====
-- The limits that a client states, as `evdi_mode_valid` of the module reads them.
use evdi.Prelude.{ℕ, ◌≤◌, ◌<◌, ◌*◌, ◌%◌, ◌^◌, ◌≡◌, arith, inl, inr, List}
use evdi.Connector.{DisplayMode, mode_valid, mode_ok, area_of, rate_of}
use evdi.Connector.Modes.{mode_valid_lem}
use evdi.Painter.State.{Device}
use evdi.Client.Requests.{rate_limit_of}

mul_mono : (x y a b : ℕ) → x ≤ a → y ≤ b → x * y ≤ a * b
mul_mono x y a b h k = grind arith

wrapped-le : (n : ℕ) → n % 2 ^ 32 ≤ n
wrapped-le n = omega arith

-- On a device with the limits that `evdi_connect` states for an area of which 60 fit in 32 bits, every
-- mode within the area, its own product included, is valid at 60 frames a second or fewer.
pub mode_valid-rate_limit :
    (vrefresh : DisplayMode → ℕ) (evdi : Device) (modes : List DisplayMode) (mode : DisplayMode)
    (area : ℕ)
    → evdi.pixel_area_limit ≡ area
    → evdi.pixel_per_second_limit ≡ rate_limit_of area
    → area * 60 < 2 ^ 32
    → mode.hdisplay * mode.vdisplay ≤ area
    → vrefresh mode ≤ 60
    → mode_valid vrefresh evdi modes mode ≡ mode_ok
unfolding rate_limit_of area_of rate_of
mode_valid-rate_limit vrefresh evdi modes mode area a r small within slow =
    let shown = wrapped-le (mode.hdisplay * mode.vdisplay) in
    let product = mul_mono (area_of mode) (vrefresh mode) area 60 (omega arith) slow in
    let rate = wrapped-le (area_of mode * vrefresh mode) in
    (mode_valid_lem vrefresh evdi modes mode).1 (inr (omega arith, inl (omega (arith, r))))
