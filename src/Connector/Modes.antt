-- ===== src/Connector/Modes.antt =====
-- Which modes `evdi_mode_valid` leaves.
use evdi.Prelude.{
  ℕ, ◌≤◌, ◌≡◌, refl, sym, subst, ap, ap₂, ◌∙◌, ◌<◌, ◌↔◌, true, false, List, [], ◌∷◌, arith, ◌⊎◌,
  inl, inr, Bool-cases, if◌then◌else◌, ◌*◌, ◌^◌, ◌%◌,
}
use mathlib.Core.List.{Memᴰ}
use evdi.Painter.State.{Device}
use evdi.Connector.{
  DisplayMode, mode_ok, slower, is_lowest_frequency_mode, mode_valid, area_of, rate_of,
}

same_area :
    (a b : DisplayMode) → a.hdisplay ≡ b.hdisplay → a.vdisplay ≡ b.vdisplay → area_of a ≡ area_of b
unfolding area_of
same_area a b w h = ap₂ (λ x y. (x * y) % 2 ^ 32) w h

module _ (vrefresh : DisplayMode → ℕ) where
  -- a mode no faster than `m`, of its resolution, that no mode of the list is slower than
  record Lowest (modes : List DisplayMode) (m : DisplayMode) : Type 0 where
    pub slowest : DisplayMode
    pub among : (slowest ≡ m) ⊎ Memᴰ slowest modes
    pub wide : slowest.hdisplay ≡ m.hdisplay
    pub high : slowest.vdisplay ≡ m.vdisplay
    pub no_faster : vrefresh slowest ≤ vrefresh m
    pub lowest : is_lowest_frequency_mode vrefresh modes slowest ≡ true

  among_cons :
      (x m b : DisplayMode) (xs : List DisplayMode)
      → (b ≡ x) ⊎ Memᴰ b xs
      → (b ≡ m) ⊎ Memᴰ b (x ∷ xs)
  among_cons x m b xs (inl e) = inr (subst (λ y. Memᴰ y (x ∷ xs)) (sym e) (Memᴰ.head refl))
  among_cons x m b xs (inr i) = inr (Memᴰ.tail i)

  Slower : DisplayMode → DisplayMode → Type 0
  Slower a b = (a.hdisplay ≡ b.hdisplay) × (a.vdisplay ≡ b.vdisplay) × (vrefresh a < vrefresh b)

  slower-Slower : (a b : DisplayMode) → slower vrefresh a b ≡ true → Slower a b
  unfolding Slower
  slower-Slower a b h = ground arith

  not_slower : (a b : DisplayMode) → ¬ Slower a b → slower vrefresh a b ≡ false
  unfolding Slower
  not_slower a b n = elim (Bool-cases (slower vrefresh a b)) [
    | inl h ↦ absurd (n (slower-Slower a b h))
    | inr h ↦ h
  ]

  lowest_cons :
      (x b : DisplayMode) (xs : List DisplayMode)
      → slower vrefresh x b ≡ false
      → is_lowest_frequency_mode vrefresh xs b ≡ true
      → is_lowest_frequency_mode vrefresh (x ∷ xs) b ≡ true
  unfolding is_lowest_frequency_mode
  lowest_cons x b xs n h =
      ap (λ c. if c then false else is_lowest_frequency_mode vrefresh xs b) n ∙ h

  -- what is slower than a mode no faster than `m` is slower than `m`
  not_faster :
      (x m b : DisplayMode)
      → slower vrefresh x m ≡ false
      → b.hdisplay ≡ m.hdisplay
      → b.vdisplay ≡ m.vdisplay
      → vrefresh b ≤ vrefresh m
      → slower vrefresh x b ≡ false
  not_faster x m b h w v f = ground arith

  find-Lowest : (modes : List DisplayMode) (m : DisplayMode) → Lowest modes m
  unfolding is_lowest_frequency_mode Slower
  find-Lowest [] m = record {
    slowest = m;
    among = inl refl;
    wide = refl;
    high = refl;
    no_faster = ground arith;
    lowest = refl;
  }
  find-Lowest (x ∷ xs) m = elim (Bool-cases (slower vrefresh x m)) [
    | inl h ↦
        let l = find-Lowest xs x in
        let s = slower-Slower x m h in
        let no_faster = l.no_faster in
        record {
          slowest = l.slowest;
          among = among_cons x m l.slowest xs l.among;
          wide = l.wide ∙ s.0;
          high = l.high ∙ s.1;
          no_faster = omega arith;
          lowest =
              lowest_cons x l.slowest xs
                (not_slower x l.slowest (λ t. let faster = t.2 in omega arith)) l.lowest;
        }
    | inr h ↦
        let l = find-Lowest xs m in
        let no_faster = l.no_faster in
        record {
          slowest = l.slowest;
          among = elim l.among [ inl e ↦ inl e | inr i ↦ inr (Memᴰ.tail i) ];
          wide = l.wide;
          high = l.high;
          no_faster = l.no_faster;
          lowest =
              lowest_cons x l.slowest xs (not_faster x m l.slowest h l.wide l.high l.no_faster)
                l.lowest;
        }
  ]

  -- what a device asks of a mode that it accepts
  abbrev pub Accepts : Device → List DisplayMode → DisplayMode → Type 0
  Accepts evdi modes m =
      (evdi.pixel_per_second_limit ≡ 0)
      ⊎ ((area_of m ≤ evdi.pixel_area_limit)
          × ((rate_of vrefresh m ≤ evdi.pixel_per_second_limit)
              ⊎ (is_lowest_frequency_mode vrefresh modes m ≡ true)))

  -- A mode is accepted exactly if the device has no limit, or the mode's area, in 32 bits, is within
  -- the limit and its rate is too or no mode of its resolution is slower.
  pub mode_valid_lem :
      (evdi : Device) (modes : List DisplayMode) (m : DisplayMode)
      → (mode_valid vrefresh evdi modes m ≡ mode_ok) ↔ Accepts evdi modes m
  unfolding mode_valid
  mode_valid_lem evdi modes m = ground arith

  -- For a mode of a list whose area is within the limit, the list has a mode of the same resolution
  -- that is accepted and no faster: no resolution is lost to the limit on the rate.
  pub mode_valid-keeps :
      (evdi : Device) (modes : List DisplayMode) (m : DisplayMode)
      → Memᴰ m modes
      → area_of m ≤ evdi.pixel_area_limit
      → (kept : DisplayMode) × Memᴰ kept modes
        × (kept.hdisplay ≡ m.hdisplay)
        × (kept.vdisplay ≡ m.vdisplay)
        × (vrefresh kept ≤ vrefresh m)
        × (mode_valid vrefresh evdi modes kept ≡ mode_ok)
  mode_valid-keeps evdi modes m i a =
      let l = find-Lowest modes m in
      (
        l.slowest,
        elim l.among [ inl e ↦ subst (λ y. Memᴰ y modes) (sym e) i | inr j ↦ j ],
        l.wide,
        l.high,
        l.no_faster,
        (mode_valid_lem evdi modes l.slowest).1 (
            inr (
              subst (λ n. n ≤ evdi.pixel_area_limit) (sym (same_area l.slowest m l.wide l.high)) a,
              inr l.lowest,
            )),
      )
