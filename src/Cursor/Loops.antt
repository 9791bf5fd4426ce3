-- ===== src/Cursor/Loops.antt =====
-- The loops of the composition: every write lands, and with no fault every pixel is written.
use evdi.Prelude.{
  ℕ, zero, suc, ◌+◌, ◌*◌, ◌/◌, ◌%◌, ◌^◌, ◌≤◌, ◌<◌, ◌≡◌, ◌≢◌, refl, arith, List, [], ◌∷◌, true,
  false, Bool-cases, inl, inr, ◌⊎◌, ◌==◌, none, some,
}
use evdi.Errno.{ok, err, done, einval}
use evdi.Gem.{Memory}
use evdi.World.{World}
use evdi.Cursor.{
  Scene, Pixel, outside, put, Writes, compose_pixel, put_pixel, compose_row, and_then, compose_rows,
  cursor_compose_and_copy,
}
use evdi.Cursor.Compose.{Fits, Lands, at-Lands}

-- every write lands
abbrev pub AllLand : Scene → List (ℕ × ℕ) → Type 0
AllLand s [] = Unit {0}
AllLand s ((offset, value) ∷ rest) = Lands s offset value × AllLand s rest

-- the write is among those made
abbrev pub Wrote : ℕ → ℕ → List (ℕ × ℕ) → Type 0
Wrote offset value [] = ⊥
Wrote offset value ((o, v) ∷ rest) = ((o ≡ offset) × (v ≡ value)) ⊎ Wrote offset value rest

put-AllLand :
    (s : Scene) (row column : ℕ) (p : Pixel) (rest : Writes)
    → Fits s
    → column < s.cursor.width
    → row < s.cursor.height
    → compose_pixel s row column ≡ p
    → AllLand s rest.1
    → AllLand s (put_pixel s p rest).1
unfolding put_pixel compose_pixel
put-AllLand s row column outside rest f hc hr e a = a
put-AllLand s row column (put offset value) rest f hc hr e a = elim (Bool-cases (s.copies offset)) [
  | inl c ↦ rw c (at-Lands s row column offset value _ _ f hc hr refl refl e, a)
  | inr c ↦ rw c tt
]

row-AllLand :
    (s : Scene) (row left column : ℕ)
    → Fits s
    → column + left ≤ s.cursor.width
    → row < s.cursor.height
    → AllLand s (compose_row s row left column).1
unfolding compose_row
row-AllLand s row zero column f hc hr = tt
row-AllLand s row (suc left) column f hc hr =
    put-AllLand s row column _ _ f (omega arith) hr refl
      (row-AllLand s row left (column + 1) f (omega arith) hr)

and_then-AllLand :
    (s : Scene) (first rest : Writes)
    → AllLand s first.1
    → AllLand s rest.1
    → AllLand s (and_then first rest).1
and_then-AllLand s (err e, ws) rest a b = a
and_then-AllLand s (ok _, []) rest a b = b
and_then-AllLand s (ok _, w ∷ ws) rest a b = (a.0, and_then-AllLand s (done, ws) rest a.1 b)

rows-AllLand :
    (s : Scene) (left row : ℕ)
    → Fits s
    → row + left ≤ s.cursor.height
    → AllLand s (compose_rows s left row).1
unfolding compose_rows
rows-AllLand s zero row f hr = tt
rows-AllLand s (suc left) row f hr =
    and_then-AllLand s _ _
      (row-AllLand s row (s.cursor.width / 2 * 2) 0 f (omega arith) (omega arith))
      (rows-AllLand s left (row + 1) f (omega arith))

row-Wrote :
    (s : Scene) (row left column k offset value : ℕ)
    → ((o : ℕ) → s.copies o ≡ true)
    → column ≤ k
    → k < column + left
    → compose_pixel s row k ≡ put offset value
    → Wrote offset value (compose_row s row left column).1
unfolding compose_row
row-Wrote s row zero column k offset value c h1 h2 e = absurd (omega arith)
row-Wrote s row (suc left) column k offset value c h1 h2 e = elim (Bool-cases (column == k)) [
  | inl q ↦ here (ground arith)
  | inr n ↦
      there _ (row-Wrote s row left (column + 1) k offset value c (ground arith) (omega arith) e)
]
  where
    here :
        column ≡ k
        → Wrote offset value
            (put_pixel s (compose_pixel s row column) (compose_row s row left (column + 1))).1
    here q = rw (q, e, c offset) (inl (refl, refl))

    there :
        (p : Pixel)
        → Wrote offset value (compose_row s row left (column + 1)).1
        → Wrote offset value (put_pixel s p (compose_row s row left (column + 1))).1
    there outside w = w
    there (put o v) w = rw (c o) (inr w)

row-done :
    (s : Scene) (row left column : ℕ)
    → ((o : ℕ) → s.copies o ≡ true)
    → (compose_row s row left column).0 ≡ done
unfolding compose_row
row-done s row zero column c = refl
row-done s row (suc left) column c =
    kept (compose_pixel s row column) (row-done s row left (column + 1) c)
  where
    kept :
        (p : Pixel)
        → (compose_row s row left (column + 1)).0 ≡ done
        → (put_pixel s p (compose_row s row left (column + 1))).0 ≡ done
    kept outside w = w
    kept (put o v) w = rw (c o) w

and_then-done :
    (first rest : Writes) → first.0 ≡ done → rest.0 ≡ done → (and_then first rest).0 ≡ done
and_then-done (err e, ws) rest a b = a
and_then-done (ok _, []) rest a b = b
and_then-done (ok _, w ∷ ws) rest a b = and_then-done (done, ws) rest refl b

and_then-Wrote :
    (offset value : ℕ) (first rest : Writes)
    → first.0 ≡ done
    → Wrote offset value first.1 ⊎ Wrote offset value rest.1
    → Wrote offset value (and_then first rest).1
and_then-Wrote offset value (err e, ws) rest a w = cc
and_then-Wrote offset value (ok _, []) rest a (inr w) = w
and_then-Wrote offset value (ok _, []) rest a (inl w) = elim w [ ]
and_then-Wrote offset value (ok _, p ∷ ws) rest a (inl (inl q)) = inl q
and_then-Wrote offset value (ok _, p ∷ ws) rest a (inl (inr w)) =
    inr (and_then-Wrote offset value (done, ws) rest refl (inl w))
and_then-Wrote offset value (ok _, p ∷ ws) rest a (inr w) =
    inr (and_then-Wrote offset value (done, ws) rest refl (inr w))

rows-done :
    (s : Scene) (left row : ℕ) → ((o : ℕ) → s.copies o ≡ true) → (compose_rows s left row).0 ≡ done
unfolding compose_rows
rows-done s zero row c = refl
rows-done s (suc left) row c =
    and_then-done (compose_row s row (s.cursor.width / 2 * 2) 0) (compose_rows s left (row + 1))
      (row-done s row (s.cursor.width / 2 * 2) 0 c) (rows-done s left (row + 1) c)

rows-Wrote :
    (s : Scene) (left row k column offset value : ℕ)
    → ((o : ℕ) → s.copies o ≡ true)
    → row ≤ k
    → k < row + left
    → column < s.cursor.width / 2 * 2
    → compose_pixel s k column ≡ put offset value
    → Wrote offset value (compose_rows s left row).1
unfolding compose_rows
rows-Wrote s zero row k column offset value c h1 h2 hc e = absurd (omega arith)
rows-Wrote s (suc left) row k column offset value c h1 h2 hc e =
    and_then-Wrote offset value _ _ (row-done s row (s.cursor.width / 2 * 2) 0 c)
      (elim (Bool-cases (row == k)) [
        | inl q ↦ inl (
            row-Wrote s row (s.cursor.width / 2 * 2) 0 column offset value c (omega arith)
              (omega arith) (ground arith))
        | inr n ↦
            inr (
              rows-Wrote s left (row + 1) k column offset value c (ground arith) (omega arith) hc e)
      ])

-- the rows and columns that the loops go over: an odd last one is left out
abbrev pub InLoops : Scene → ℕ → ℕ → Type 0
InLoops s row column = (row < s.cursor.height / 2 * 2) × (column < s.cursor.width / 2 * 2)

-- Composing an enabled cursor of four bytes per pixel, whose object is mapped and large enough,
-- where no offset wraps: every write lands at a pixel of the framebuffer with the blended value,
-- and if the user's buffer takes all writes, the status is 0 and every pixel that the loops find
-- inside is written.
pub compose_lem :
    (w : World) (s : Scene) (id : ℕ) (vmapping : Memory)
    → s.cursor.enabled ≡ true
    → s.cursor.obj ≡ some id
    → (w.gems id).vmapping ≡ some vmapping
    → s.cursor.width * s.cursor.height * 4 ≤ (w.gems id).size
    → Fits s
    → let drawn = record s { cursor_buffer = vmapping } in
      let result = cursor_compose_and_copy w s 32 in
      AllLand drawn result.1
      × (((o : ℕ) → s.copies o ≡ true)
          → (result.0 ≡ done)
            × ((row column offset value : ℕ)
                → InLoops s row column
                → compose_pixel drawn row column ≡ put offset value
                → Wrote offset value result.1))
unfolding cursor_compose_and_copy
compose_lem w s id vmapping en ob ma si f = rw runs (
  rows-AllLand drawn (s.cursor.height / 2 * 2) 0 fits (omega arith),
  λ c. (
    rows-done drawn (s.cursor.height / 2 * 2) 0 c,
    λ row column offset value i e.
        rows-Wrote drawn (s.cursor.height / 2 * 2) 0 row column offset value c (omega arith)
          (omega (arith, i)) i.1 e,
  ),
)
  where
    drawn : Scene
    drawn = record s { cursor_buffer = vmapping }

    fits : Fits drawn
    fits = record {
      width_small = f.width_small;
      height_small = f.height_small;
      row_fits = f.row_fits;
      buffer_small = f.buffer_small;
      pitch_fits = f.pitch_fits;
      source_small = f.source_small;
      cursor_small = f.cursor_small;
    }

    runs : cursor_compose_and_copy w s 32 ≡ compose_rows drawn (s.cursor.height / 2 * 2) 0
    runs = ground arith

-- A cursor that is off draws nothing. One that is on fails with -EINVAL, and draws nothing, if it has
-- no object, the object is not mapped, its pixels do not take four bytes, or the object is too small.
pub compose_refuses :
    (w : World) (s : Scene) (bits : ℕ)
    → (s.cursor.enabled ≡ false → cursor_compose_and_copy w s bits ≡ (done, []))
      × (s.cursor.enabled ≡ true
          → s.cursor.obj ≡ none
          → cursor_compose_and_copy w s bits ≡ (err einval, []))
      × ((id : ℕ)
          → s.cursor.enabled ≡ true
          → s.cursor.obj ≡ some id
          → ((w.gems id).vmapping ≡ none)
            ⊎ (((bits + 7) % 2 ^ 32 / 8 ≢ 4)
                ⊎ ((w.gems id).size < s.cursor.width * s.cursor.height % 2 ^ 32 * 4 % 2 ^ 32))
          → cursor_compose_and_copy w s bits ≡ (err einval, []))
unfolding cursor_compose_and_copy
compose_refuses w s bits = (λ h. ground arith, λ h k. ground arith, λ id h k c. ground arith)
