-- ===== src/Painter/Grab/Rects.antt =====
-- The rectangles that a grab hands out: as many as the client has space for, and all that was dirty.
use evdi.Prelude.{
  ap, [], ℕ, ◌≤◌, ◌<◌, ◌≡◌, refl, true, false, not, ◌&&◌, List, Option, none, some, arith, ◌==◌,
  if-cases, length, length-take, take, get_or, get_or-take,
}
use evdi.Prelude.Int.{to_s32, to_u32, ℤ, pos, negsuc, ltb_ℤ, leb_ℤ}
use evdi.Errno.{Errno, efault, done, err, einval}
use evdi.Gem.{GemObject, Memory}
use evdi.World.{World, Framebuffer}
use evdi.Rect.{Rect, no_rect, Dirts, merge_dirty_rects}
use evdi.Rect.Sanitize.{Covers}
use evdi.Rect.Merge.{merge-Shape, collapse-Shape}
use evdi.Rect.Cover.{
  IsDirty, AllWithin, merge-IsDirty, merge-AllWithin, collapse-IsDirty, collapse-AllWithin,
}
use evdi.Painter.State.{Painter, Device}
use evdi.Painter.Dirty.{dirts_of}
use evdi.Painter.Dirty.Safe.{DirtsOk}
use evdi.Painter.Pixels.{User}
use evdi.Painter.Grab.Cases.{grab-cases}
use evdi.Cursor.{Cursor, Scene, cursor_compose_and_copy}
use evdi.Cursor.Loops.{compose_refuses}
use evdi.Painter.Grab.{
  copy_cursor_pixels, put_values, GrabArgs, GrabEnv, GrabOut, grab_rects, grab_mapped,
  grab_framebuffer, grab_painter, grab_vmapping, grabpix_ioctl, begins, map_failed,
}

-- No more rectangles than the client has space for, which is one at least; a pixel that was dirty is
-- covered; and all lie within the framebuffer, if the dirty ones did.
pub grab_rects_lem :
    (d : Dirts) (n : ℕ)
    → DirtsOk d
    → 1 ≤ n
    → ((grab_rects d (pos n)).1 ≤ n)
      × DirtsOk (grab_rects d (pos n))
      × ((x y : ℕ) → IsDirty d x y → IsDirty (grab_rects d (pos n)) x y)
      × ((w h : ℕ) → AllWithin w h d → AllWithin w h (grab_rects d (pos n)))
unfolding grab_rects
grab_rects_lem d n v h =
    if-cases {A = Dirts} Fine (ltb_ℤ (pos n) (pos merged.1)) _ _
      (λ e. (
        omega (arith, collapse-Shape merged),
        omega (arith, collapse-Shape merged, shape, v),
        λ x y p.
            collapse-IsDirty merged x y (omega (arith, shape, v))
              (merge-IsDirty d x y (omega (arith, v)) p),
        λ w k a.
            collapse-AllWithin w k merged (ground arith) (omega (arith, shape, v))
              (merge-AllWithin w k d (omega (arith, v)) a),
      ))
      (λ e. (
        ground arith,
        omega (arith, shape, v),
        λ x y p. merge-IsDirty d x y (omega (arith, v)) p,
        λ w k a. merge-AllWithin w k d (omega (arith, v)) a,
      ))
  where
    merged : Dirts
    merged = merge_dirty_rects d

    shape : (merged.1 ≤ d.1) × (0 < d.1 → 0 < merged.1) × (length merged.0 ≡ length d.0)
    shape = merge-Shape d (omega (arith, v))

    Fine : Dirts → Type 0
    Fine r =
        (r.1 ≤ n)
        × DirtsOk r
        × ((x y : ℕ) → IsDirty d x y → IsDirty r x y)
        × ((w k : ℕ) → AllWithin w k d → AllWithin w k r)

-- some rectangle of the list covers the pixel
abbrev pub CoveredBy : List Rect → ℕ → ℕ → Type 0
CoveredBy rects x y = (i : ℕ) × (i < length rects) × Covers (get_or rects i no_rect) x y

take-CoveredBy : (d : Dirts) (x y : ℕ) → DirtsOk d → IsDirty d x y → CoveredBy (take d.1 d.0) x y
take-CoveredBy d x y v (i, il, c) =
    (i, omega (arith, length-take d.1 d.0, v), rw (get_or-take d.1 d.0 i no_rect il) c)

-- an outcome that hands out these rectangles, and says how many, if it is a success
pub record HandsOut (cmd : GrabArgs) (rects : List Rect) (out : GrabOut) : Type 0 where
  pub handed : out.status ≡ done → (out.rects ≡ some rects) × (out.num_rects ≡ cmd.num_rects)

failed-HandsOut :
    (cmd : GrabArgs) (rects : List Rect) (e : Errno) (written : Option (List Rect)) (user : User)
    → HandsOut cmd rects
        (record { status = err e; num_rects = cmd.num_rects; rects = written; user = user })
failed-HandsOut cmd rects e written user = record { handed = λ h. cc }

grab_mapped-HandsOut :
    (env : GrabEnv) (d : Device) (cmd : GrabArgs) (fb : Framebuffer) (obj : GemObject)
    (vmapping : Memory) (rects : List Rect) (user : User)
    → HandsOut cmd rects (grab_mapped env d cmd fb obj vmapping rects user)
unfolding grab_mapped
grab_mapped-HandsOut env d cmd fb obj vmapping rects user =
    if-cases {A = GrabOut} (HandsOut cmd rects)
      (not (to_u32 cmd.buf_width == fb.width && to_u32 cmd.buf_height == fb.height)) _ _
      (λ _. failed-HandsOut cmd rects einval none user)
      (λ _.
        if-cases {A = GrabOut} (HandsOut cmd rects) (not env.copies_rects) _ _
          (λ _. failed-HandsOut cmd rects efault none user)
          (λ _.
            if-cases {A = GrabOut} (HandsOut cmd rects) (not (begins env obj.import_attach)) _ _
              (λ _. failed-HandsOut cmd rects efault (some rects) user)
              (λ _. record { handed = λ h. (refl, refl) })))

grab_vmapping-HandsOut :
    (env : GrabEnv) (d : Device) (cmd : GrabArgs) (fb : Framebuffer) (obj : GemObject)
    (vmapping : Option Memory) (rects : List Rect) (user : User)
    → HandsOut cmd rects (grab_vmapping env d cmd fb obj vmapping rects user)
unfolding grab_vmapping
grab_vmapping-HandsOut env d cmd fb obj none rects user = failed-HandsOut cmd rects efault none user
grab_vmapping-HandsOut env d cmd fb obj (some vmapping) rects user =
    grab_mapped-HandsOut env d cmd fb obj vmapping rects user

grab_framebuffer-HandsOut :
    (env : GrabEnv) (d : Device) (cmd : GrabArgs) (fb : Framebuffer) (rects : List Rect)
    (user : User)
    → HandsOut cmd rects (grab_framebuffer env d cmd fb rects user).0
unfolding grab_framebuffer
grab_framebuffer-HandsOut env d cmd fb rects user =
    if-cases {A = GrabOut} (HandsOut cmd rects) (map_failed env.mapping (d.world.gems fb.obj)) _ _
      (λ _. failed-HandsOut cmd rects efault none user)
      (λ _. grab_vmapping-HandsOut env _ cmd fb _ _ rects user)

-- A success gave the client rectangles that cover every pixel that was dirty, not more of them than it has
-- space for, and left nothing dirty.
abbrev pub Delivered : Painter → GrabArgs → Device × GrabOut → Type 0
Delivered p cmd (d', out) =
    out.status ≡ done
    → (rects : List Rect) × (n : ℕ) × (out.rects ≡ some rects)
      × (out.num_rects ≡ pos n)
      × (length rects ≡ n)
      × (leb_ℤ (pos n) cmd.num_rects ≡ true)
      × ((x y : ℕ) → IsDirty (dirts_of p) x y → CoveredBy rects x y)
      × ((q : Painter) → d'.painter ≡ some q → q.num_dirts ≡ 0)

grab_painter-Delivered :
    (env : GrabEnv) (d : Device) (cmd : GrabArgs) (p : Painter) (fb : Option Framebuffer)
    (user : User) (n : ℕ)
    → DirtsOk (dirts_of p)
    → cmd.num_rects ≡ pos n
    → 1 ≤ n
    → Delivered p cmd (grab_painter env d cmd p (grab_rects (dirts_of p) (pos n)) fb user)
unfolding grab_painter
grab_painter-Delivered env d cmd p none user n v e h s = cc
grab_painter-Delivered env d cmd p (some fb) user n v e h s =
    let dirts : Dirts = grab_rects (dirts_of p) (pos n) in
    let (few, fits, covers, _) = grab_rects_lem (dirts_of p) n v h in
    let out =
      (grab_framebuffer-HandsOut env _ (record cmd { num_rects = pos dirts.1 }) fb
          (take dirts.1 dirts.0) user).handed
        s in
    (
      take dirts.1 dirts.0,
      dirts.1,
      out.0,
      out.1,
      omega (arith, length-take dirts.1 dirts.0, fits),
      rw e (ground (arith, few)),
      λ x y i. take-CoveredBy dirts x y fits (covers x y i),
      λ q k. cc,
    )

-- With a well-formed array of dirty rectangles, a grab that returns 0 gave the client rectangles
-- that cover every pixel that was dirty, said how many, not more of them than the client has
-- space for, and left nothing dirty.
pub grab-Delivered :
    (env : GrabEnv) (d : Device) (cmd : GrabArgs) (user : User) (p : Painter)
    → d.painter ≡ some p
    → DirtsOk (dirts_of p)
    → Delivered p cmd (grabpix_ioctl env d cmd user)
grab-Delivered env d cmd user p e v =
    grab-cases (Delivered p cmd) env d cmd user p e (λ _ h. cc) (λ n. positive cmd.num_rects refl n)
  where
    positive :
        (z : ℤ)
        → cmd.num_rects ≡ z
        → ltb_ℤ z (pos 1) ≡ false
        → Delivered p cmd (grab_painter env d cmd p (grab_rects (dirts_of p) z) p.scanout_fb user)
    positive (pos n) k b = grab_painter-Delivered env d cmd p p.scanout_fb user n v k (ground arith)
    positive (negsuc n) k b = absurd (ground arith)

-- A cursor that is off leaves the user's buffer alone.
pub copy_cursor_off :
    (env : GrabEnv) (w : World) (cursor : Cursor) (fb : Framebuffer) (vmapping : Memory)
    (stride : ℤ) (user : User)
    → cursor.enabled ≡ false
    → copy_cursor_pixels env w cursor fb vmapping stride user ≡ user
unfolding copy_cursor_pixels put_values
copy_cursor_off env w cursor fb vmapping stride user off =
    ap (λ r. put_values user r.1) (whole.0 off)
  where
    scene : Scene
    scene = record {
      cursor = cursor;
      fb = fb;
      cursor_buffer = vmapping;
      fb_buffer = vmapping;
      buf_byte_stride = to_u32 stride;
      copies = λ offset. env.copies (to_s32 offset) (pos 4);
    }

    whole :
        (cursor.enabled ≡ false → cursor_compose_and_copy w scene env.cursor_bits ≡ (done, []))
        × (cursor.enabled ≡ true
            → cursor.obj ≡ none
            → cursor_compose_and_copy w scene env.cursor_bits ≡ (err einval, []))
    whole = let c = compose_refuses w scene env.cursor_bits in (c.0, c.1)
