-- ===== src/Client/Events/Decode.antt =====
-- An event that lies in the array is the one that the library casts it to.
use evdi.Prelude.{
  ℕ, ◌+◌, ◌-◌, ◌*◌, ◌/◌, ◌%◌, ◌^◌, ◌<◌, ◌≡◌, refl, ap, ap₂, subst, ◌∙◌, arith, Bool, true, false,
  not, List, [], ◌∷◌, ◌++◌, Option, some, if◌then◌else◌, length, replicate, min, ◌==◌,
  length-replicate,
}
use evdi.Event.{
  Event, ModeChanged, CursorSet, CursorMove, DdcciData, update_ready, dpms, mode_changed,
  crtc_state, cursor_set, cursor_move, ddcci_data, event_base,
}
use evdi.Client.Events.{
  Buffer, u16_at, u32_at, bytes_at, event_at, event_of, mode_changed_at, cursor_set_at,
  ddcci_data_at,
}
use evdi.Client.Events.Layout.{
  le16, le32, header, event_bytes, event_size, Fits, IsU32, AllU32, le32s, mode_fields,
  shape_fields, buffer_fields,
}

-- the bytes lie in the array from offset `k` of the place `i` on
abbrev pub Reads : Buffer → ℕ → ℕ → List ℕ → Type 0
Reads buf i k [] = Unit {0}
Reads buf i k (x ∷ xs) = (buf (i + k) ≡ x) × Reads buf i (k + 1) xs

-- four bytes are the number that was split into them
u32_eq :
    (n a b c d : ℕ)
    → IsU32 n
    → a ≡ n % 256
    → b ≡ n / 256 % 256
    → c ≡ n / 65536 % 256
    → d ≡ n / 16777216 % 256
    → a + 256 * b + 65536 * (c + 256 * d) ≡ n
u32_eq n a b c d h p q r s = omega arith

u16_eq : (n a b : ℕ) → n < 2 ^ 16 → a ≡ n % 256 → b ≡ n / 256 % 256 → a + 256 * b ≡ n
u16_eq n a b h p q = omega arith

module _ (buf : Buffer) (i : ℕ) where
  read32 :
      (k n : ℕ) (rest : List ℕ)
      → IsU32 n
      → Reads buf i k (le32 n ++ rest)
      → (u32_at buf i k ≡ n) × Reads buf i (k + 1 + 1 + 1 + 1) rest
  read32 k n rest h (a, (b, (c, (d, r)))) = (u32_eq n _ _ _ _ h a b c d, r)

  -- The numbers at the offsets from `k` on, and the bytes behind them.
  Values : ℕ → List ℕ → List ℕ → Type 0
  Values k [] rest = Reads buf i k rest
  Values k (n ∷ ns) rest = (u32_at buf i k ≡ n) × Values (k + 1 + 1 + 1 + 1) ns rest

  read32s :
      (k : ℕ) (ns rest : List ℕ) → AllU32 ns → Reads buf i k (le32s ns ++ rest) → Values k ns rest
  unfolding Values
  read32s k [] rest h r = r
  read32s k (n ∷ ns) rest (h, hs) r =
      let (e, r') = read32 k n (le32s ns ++ rest) h r in
      (e, read32s (k + 1 + 1 + 1 + 1) ns rest hs r')

  read16 :
      (k n : ℕ) (rest : List ℕ)
      → n < 2 ^ 16
      → Reads buf i k (le16 n ++ rest)
      → (u16_at buf i k ≡ n) × Reads buf i (k + 1 + 1) rest
  read16 k n rest h (a, (b, r)) = (u16_eq n _ _ h a b, r)

  -- the type, the length, and the fields behind them
  pub read_header :
      (kind size : ℕ) (rest : List ℕ)
      → kind < 7
      → IsU32 size
      → Reads buf i 0 (header kind size ++ rest)
      → (u32_at buf i 0 ≡ event_base + kind) × (u32_at buf i 4 ≡ size) × Reads buf i 8 rest
  read_header kind size rest h k r =
      let (t, r1) = read32 0 (event_base + kind) (le32 size ++ rest) (omega arith) r in
      let (l, r2) = read32 4 size rest k r1 in (t, l, r2)

  -- the event's cast, from its type
  cast :
      (kind : ℕ) {e : Option Event}
      → u32_at buf i 0 ≡ kind
      → event_of kind buf i ≡ e
      → event_at buf i ≡ e
  unfolding event_at
  cast kind h k = ap (λ n. event_of n buf i) h ∙ k

  Decodes : Event → Type 0
  Decodes e = (event_at buf i ≡ some e) × (u32_at buf i 4 ≡ event_size e)

  update_ready-Decodes : Reads buf i 0 (event_bytes update_ready) → Decodes update_ready
  unfolding event_of Decodes
  update_ready-Decodes r =
      let (t, l, _) = read_header 0 8 [] (omega arith) (omega arith) r in
      (cast event_base t refl, l)

  dpms-Decodes :
      (mode : ℕ) → Fits (dpms mode) → Reads buf i 0 (event_bytes (dpms mode)) → Decodes (dpms mode)
  unfolding event_of Decodes Values
  dpms-Decodes mode h r =
      let (t, l, f) = read_header 1 12 (le32s (mode ∷ [])) (omega arith) (omega arith) r in
      (cast (event_base + 1) t (ap (λ n. some (dpms n)) (read32s 8 (mode ∷ []) [] h f).0), l)

  crtc_state-Decodes :
      (state : ℕ)
      → Fits (crtc_state state)
      → Reads buf i 0 (event_bytes (crtc_state state))
      → Decodes (crtc_state state)
  unfolding event_of Decodes Values
  crtc_state-Decodes state h r =
      let (t, l, f) = read_header 3 12 (le32s (state ∷ [])) (omega arith) (omega arith) r in
      (cast (event_base + 3) t (ap (λ n. some (crtc_state n)) (read32s 8 (state ∷ []) [] h f).0), l)

  cursor_move-Decodes :
      (m : CursorMove)
      → Fits (cursor_move m)
      → Reads buf i 0 (event_bytes (cursor_move m))
      → Decodes (cursor_move m)
  unfolding event_of Decodes Values
  cursor_move-Decodes m h r =
      let (t, l, f) = read_header 5 16 (le32s (m.x ∷ m.y ∷ [])) (omega arith) (omega arith) r in
      let (x, (y, _)) = read32s 8 (m.x ∷ m.y ∷ []) [] h f in
      (cast (event_base + 5) t (ap₂ (λ a b. some (cursor_move (record { x = a; y = b }))) x y), l)

  mode_changed-Decodes :
      (m : ModeChanged)
      → Fits (mode_changed m)
      → Reads buf i 0 (event_bytes (mode_changed m))
      → Decodes (mode_changed m)
  unfolding event_of Decodes Values mode_changed_at
  mode_changed-Decodes m h r =
      let (t, l, f) = read_header 2 28 (le32s (mode_fields m)) (omega arith) (omega arith) r in
      let (h, (v, (rate, (bits, (format, _))))) = read32s 8 (mode_fields m) [] h f in
      (cast (event_base + 2) t (ground arith), l)

  -- `enabled` reads as what was written
  enabled_at : (b : Bool) → u32_at buf i 24 ≡ (if b then 1 else 0) → not (buf (i + 24) == 0) ≡ b
  enabled_at true h = ground arith
  enabled_at false h = ground arith

  cursor_set-Decodes :
      (c : CursorSet)
      → Fits (cursor_set c)
      → Reads buf i 0 (event_bytes (cursor_set c))
      → Decodes (cursor_set c)
  unfolding event_of Decodes Values cursor_set_at
  cursor_set-Decodes c (h, k) r =
      let flag = le32 (if c.enabled then 1 else 0) in
      let behind = le32s (buffer_fields c) ++ [] in
      let (t, l, f) =
        read_header 4 44 (le32s (shape_fields c) ++ (flag ++ behind)) (omega arith) (omega arith)
          r in
      let (x, (y, (width, (height, g)))) = read32s 8 (shape_fields c) (flag ++ behind) h f in
      let (on, g') = read32 24 (if c.enabled then 1 else 0) behind (ground arith) g in
      let (handle, (size, (format, (stride, _)))) = read32s 28 (buffer_fields c) [] k g' in
      let on' = enabled_at c.enabled on in (cast (event_base + 4) t (ground arith), l)

  bytes_at-Reads :
      (k : ℕ) (xs rest : List ℕ) → Reads buf i k (xs ++ rest) → bytes_at buf i k (length xs) ≡ xs
  bytes_at-Reads k [] rest r = refl
  bytes_at-Reads k (x ∷ xs) rest (e, r) = ap₂ ◌∷◌ e (bytes_at-Reads (k + 1) xs rest r)

  -- the bytes behind the first ones
  Reads-skip :
      (k j : ℕ) (xs rest : List ℕ)
      → k + length xs ≡ j
      → Reads buf i k (xs ++ rest)
      → Reads buf i j rest
  Reads-skip k j [] rest h r = subst (λ m. Reads buf i m rest) (omega arith) r
  Reads-skip k j (x ∷ xs) rest h (_, r) = Reads-skip (k + 1) j xs rest (omega arith) r

  ddcci_data-Decodes :
      (d : DdcciData)
      → Fits (ddcci_data d)
      → Reads buf i 0 (event_bytes (ddcci_data d))
      → Decodes (ddcci_data d)
  unfolding event_of Decodes ddcci_data_at
  ddcci_data-Decodes d (n, few, hf, ha) r =
      let size = le32 d.buffer_length in
      let flags = le16 d.flags ++ (le16 d.address ++ []) in
      let zeros : List ℕ = replicate (64 - d.buffer_length) 0 in
      let (t, l, f) =
        read_header 6 80 (d.buffer ++ (zeros ++ (size ++ flags))) (omega arith) (omega arith) r in
      let padding = Reads-skip 8 (8 + length d.buffer) d.buffer (zeros ++ (size ++ flags)) refl f in
      let g =
        Reads-skip (8 + length d.buffer) 72 zeros (size ++ flags)
          (omega (arith, length-replicate (64 - d.buffer_length) (let z : ℕ = 0 in z), n))
          padding in
      let (e, g') = read32 72 d.buffer_length flags (omega arith) g in
      let (ef, g'') = read16 76 d.flags (le16 d.address ++ []) hf g' in
      let (ea, _) = read16 78 d.address [] ha g'' in
      let whole : min (u32_at buf i 72) 64 ≡ length d.buffer = omega (arith, e, n) in
      let message =
        ap (bytes_at buf i 8) whole ∙ bytes_at-Reads 8 d.buffer (zeros ++ (size ++ flags)) f in
      (cast (event_base + 6) t (ground arith), l)

  -- An event whose fields fit their types, and that lies at the place `i` of the array, is cast to the
  -- event that it is, of its size.
  pub event_at-Decodes :
      (e : Event)
      → Fits e
      → Reads buf i 0 (event_bytes e)
      → (event_at buf i ≡ some e) × (u32_at buf i 4 ≡ event_size e)
  unfolding Decodes
  event_at-Decodes update_ready h r = update_ready-Decodes r
  event_at-Decodes (dpms mode) h r = dpms-Decodes mode h r
  event_at-Decodes (mode_changed m) h r = mode_changed-Decodes m h r
  event_at-Decodes (crtc_state state) h r = crtc_state-Decodes state h r
  event_at-Decodes (cursor_set c) h r = cursor_set-Decodes c h r
  event_at-Decodes (cursor_move m) h r = cursor_move-Decodes m h r
  event_at-Decodes (ddcci_data d) h r = ddcci_data-Decodes d h r
