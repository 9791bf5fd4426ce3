-- ===== src/Client/Grab/Module.antt =====
-- The client's grab and the module's, one calling the other: the kernel's grabpix ioctl is
-- `grabpix_ioctl` of Painter.Grab.
use evdi.Prelude.{
  ℕ, zero, suc, ◌+◌, ◌-◌, ◌≤◌, ◌≡◌, refl, ap, ◌∙◌, arith, false, List, [], ◌∷◌, ◌++◌, Option, none,
  some, take, length, get_or,
}
use evdi.Prelude.Int.{ℤ, pos, negsuc}
use evdi.Errno.{
  Errno, Status, ok, err, done, einval, enomem, efault, eagain, enodev, enoent, erestartsys, ebusy,
  other,
}
use evdi.Rect.{Rect, no_rect, max_dirts}
use evdi.Painter.State.{Device}
use evdi.Painter.Pixels.{User}
use evdi.Painter.Grab.{GrabArgs, GrabEnv, GrabOut, grabpix_ioctl}
use evdi.Client.{Os, Context, Buffer, Reply, Payload, GrabCmd, grabpix, grabbed, eintr}
use evdi.Client.Ioctl.{drm_ioctl_once, is_interrupted}
use evdi.Client.Buffers.{find_buffer}
use evdi.Client.Grab.{grab_cmd, kernel_dirts, copy_rects, grab_result, grab_into, evdi_grab_pixels}

-- What the C library makes of a negative result: -1, and the number in `errno`. An interrupted call that
-- the kernel may restart is EINTR to it.
abbrev pub errno_number : Errno → ℕ
errno_number einval = 22
errno_number enomem = 12
errno_number efault = 14
errno_number eagain = 11
errno_number enodev = 19
errno_number enoent = 2
errno_number erestartsys = eintr
errno_number ebusy = 16
errno_number (other n) = n

abbrev pub reply_of : Status → Payload → Reply
reply_of (ok _) payload = record { code = pos 0; errno = 0; payload = payload }
reply_of (err e) payload = record { code = negsuc 0; errno = errno_number e; payload = payload }

abbrev pub written : Option (List Rect) → List Rect
written none = []
written (some rects) = rects

abbrev pub args_of : GrabCmd → GrabArgs
args_of cmd = record {
  mode = cmd.mode;
  buf_width = cmd.buf_width;
  buf_height = cmd.buf_height;
  buf_byte_stride = cmd.buf_byte_stride;
  num_rects = cmd.num_rects;
}

-- The device, and the pixels of the client's buffer.
abbrev pub Shared : Type 0
Shared = Device × User

abbrev pub grab_reply : Device × GrabOut → Shared × Reply
grab_reply (d, out) =
    ((d, out.user), reply_of out.status (grabbed out.num_rects (written out.rects)))

-- An operating system whose grabpix ioctl is the module's.
abbrev pub Grabs : GrabEnv → Os Shared → Type 0
Grabs env os =
    (s : Shared) (fd : ℕ) (cmd : GrabCmd)
    → os.ioctl s fd (grabpix cmd) ≡ grab_reply (grabpix_ioctl env s.0 (args_of cmd) s.1)

copy_rects_tail :
    (x : Rect) (xs : List Rect) (n k r : ℕ)
    → k ≡ suc r
    → copy_rects n k (x ∷ xs) ≡ copy_rects n r xs
unfolding copy_rects
copy_rects_tail x xs zero k r h = refl
copy_rects_tail x xs (suc n) k r h =
    rw h
      (ap (λ l. get_or xs r no_rect ∷ l) (copy_rects_tail x xs n (suc r + 1) (r + 1) (omega arith)))

copy_rects-append : (xs rest : List Rect) → copy_rects (length xs) 0 (xs ++ rest) ≡ xs
unfolding copy_rects
copy_rects-append [] rest = refl
copy_rects-append (x ∷ xs) rest =
    ap (λ l. x ∷ l)
      (copy_rects_tail x (xs ++ rest) (length xs) (0 + 1) 0 (omega arith)
        ∙ copy_rects-append xs rest)

take-append :
    (n : ℕ) (xs rest : List Rect)
    → length xs ≤ n
    → take n (xs ++ rest) ≡ xs ++ take (n - length xs) rest
take-append n [] rest h = let e : n - 0 ≡ n = omega arith in rw e
take-append zero (x ∷ xs) rest h = absurd (omega arith)
take-append (suc n) (x ∷ xs) rest h =
    let e : suc n - suc (length xs) ≡ n - length xs = omega arith in
    rw e (ap (λ l. x ∷ l) (take-append n xs rest (omega arith)))

-- What the kernel wrote to the start of the array comes out of it again.
copy_rects-kernel_dirts :
    (xs : List Rect) → length xs ≤ max_dirts → copy_rects (length xs) 0 (kernel_dirts xs) ≡ xs
unfolding kernel_dirts
copy_rects-kernel_dirts xs h =
    ap (copy_rects (length xs) 0) (take-append max_dirts xs _ h) ∙ copy_rects-append xs _

-- a success is no interruption, and what the client makes of it
reply-Grabbed :
    (status : Status) (num_rects : ℤ) (out : Option (List Rect)) (rects : List Rect)
    → status ≡ done
    → out ≡ some rects
    → num_rects ≡ pos (length rects)
    → length rects ≤ max_dirts
    → let reply = reply_of status (grabbed num_rects (written out)) in
      (is_interrupted reply ≡ false)
      × (grab_result reply ≡ record { rects = rects; num_rects = pos (length rects) })
unfolding grab_result is_interrupted
reply-Grabbed status num_rects out rects s r k few = rw s (
    rw r (
      rw k (
        refl,
        ap (λ l. record { rects = l; num_rects = pos (length rects) })
            (copy_rects-kernel_dirts rects few),
      )))

-- The client's grab, of a buffer that is registered, where the module's grab gives 0: the client has the
-- pixels and exactly the rectangles that the module gave, with their number.
pub grab_pixels-grabpix :
    (env : GrabEnv) (os : Os Shared) (d : Device) (user : User) (handle : Context) (b : Buffer)
    (rects : List Rect)
    → Grabs env os
    → find_buffer handle.frame_buffers handle.buffer_to_update ≡ some b
    → let (d', out) = grabpix_ioctl env d (args_of (grab_cmd b)) user in
      out.status ≡ done
      → out.rects ≡ some rects
      → out.num_rects ≡ pos (length rects)
      → length rects ≤ max_dirts
      → evdi_grab_pixels os (d, user) handle
        ≡ ((d', out.user), record { rects = rects; num_rects = pos (length rects) })
unfolding evdi_grab_pixels grab_into
grab_pixels-grabpix env os d user handle b rects law found s r k few =
    let request = grabpix (grab_cmd b) in
    let (d', out) = grabpix_ioctl env d (args_of (grab_cmd b)) user in
    let made = law (d, user) handle.fd (grab_cmd b) in
    let (calm, result) = reply-Grabbed out.status out.num_rects out.rects rects s r k few in
    let once =
      drm_ioctl_once os (d, user) handle.fd request (ap (λ x. is_interrupted x.1) made ∙ calm)
      ∙ made in
    ap (grab_into os (d, user) handle) found
    ∙ ap (λ x. (x.0, grab_result x.1)) once
    ∙ ap (λ g. ((d', out.user), g)) result
