-- ===== src/Client/Grab/Whole.antt =====
-- A grab from the client's call to the painter's array and back.
use evdi.Prelude.{ℕ, ◌≤◌, ◌≡◌, refl, sym, ap, subst, ◌∙◌, arith, true, none, some, length}
use evdi.Prelude.Int.{pos}
use evdi.Errno.{done}
use evdi.Rect.{max_dirts}
use evdi.Rect.Cover.{IsDirty}
use evdi.Painter.State.{Painter, Device}
use evdi.Painter.Dirty.{dirts_of}
use evdi.Painter.Dirty.Safe.{DirtsOk}
use evdi.Painter.Pixels.{User}
use evdi.Painter.Grab.{GrabEnv, grabpix_ioctl}
use evdi.Painter.Grab.Rects.{grab-Delivered, CoveredBy}
use evdi.Client.{Os, Context, Buffer, GrabCmd, Reply, grabpix}
use evdi.Client.Ioctl.{is_interrupted, written_back}
use evdi.Client.Buffers.{find_buffer}
use evdi.Client.Grab.{Grabbed, grab_cmd, evdi_grab_pixels}
use evdi.Client.Grab.Module.{Grabs, Shared, args_of, grab_pixels-grabpix}

-- what the caller of `evdi_grab_pixels` has afterwards, of the painter before
abbrev pub Taken : Painter → Shared × Grabbed → Type 0
Taken p (s, g) =
    (g.num_rects ≡ pos (length g.rects))
    × (length g.rects ≤ max_dirts)
    × ((x y : ℕ) → IsDirty (dirts_of p) x y → CoveredBy g.rects x y)
    × ((q : Painter) → s.0.painter ≡ some q → q.num_dirts ≡ 0)

-- With the module as the kernel, a registered buffer and a well-formed array of dirty rectangles: where
-- the module's grab succeeds, the client has 16 rectangles at most, as many as it is told, which cover
-- every pixel that was dirty, and nothing is left dirty.
pub grab_pixels-Taken :
    (env : GrabEnv) (os : Os Shared) (d : Device) (user : User) (handle : Context) (b : Buffer)
    (p : Painter)
    → Grabs env os
    → find_buffer handle.frame_buffers handle.buffer_to_update ≡ some b
    → d.painter ≡ some p
    → DirtsOk (dirts_of p)
    → (grabpix_ioctl env d (args_of (grab_cmd b)) user).1.status ≡ done
    → Taken p (evdi_grab_pixels os (d, user) handle)
grab_pixels-Taken env os d user handle b p law found e v s =
    let (rects, n, r, k, l, few, covers, clean) =
      grab-Delivered env d (args_of (grab_cmd b)) user p e v s in
    subst (Taken p)
      (sym (
        grab_pixels-grabpix env os d user handle b rects law found s r (k ∙ ap pos (sym l))
          (ground arith)))
      (refl, ground arith, covers, clean)

-- a painter without a framebuffer to scan out, whose array is well formed
abbrev pub NoScanout : Painter → Shared → Type 0
NoScanout p s = (s.0.painter ≡ some p) × (p.scanout_fb ≡ none) × DirtsOk (dirts_of p)

-- such a painter with a pixel that is dirty
abbrev Waits : ℕ → ℕ → Shared → Type 0
Waits x y s = (p : Painter) × NoScanout p s × IsDirty (dirts_of p) x y

-- a grab with space for at least one rectangle
abbrev Asks : GrabCmd → Type 0
Asks cmd = (cmd.mode ≡ 1) × ((n : ℕ) × (cmd.num_rects ≡ pos n) × (1 ≤ n))

-- what one grab comes to: an interruption, which leaves a painter and an argument of the same kind
abbrev AsksAgain : ℕ → ℕ → GrabCmd → Shared × Reply → Type 0
AsksAgain x y cmd r =
    (is_interrupted r.1 ≡ true)
    × Waits x y r.0
    × ((next : GrabCmd) × Asks next × (written_back (grabpix cmd) r.1.payload ≡ grabpix next))
