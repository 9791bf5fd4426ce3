-- ===== src/Client/Ioctl.antt =====
-- `drm_ioctl` of library/evdi_lib.c: a call is repeated while it is interrupted, with the argument that the
-- kernel left.
use evdi.Prelude.{
  ℕ, zero, suc, ◌≤◌, ◌≡◌, ◌⊎◌, refl, Bool, true, false, ◌&&◌, ◌||◌, ◌==◌, if◌then◌else◌, arith, inl,
  inr, if-cases,
}
use evdi.Prelude.Int.{ℤ, pos, negsuc, eq_ℤ}
use evdi.Client.{Os, Request, Reply, Payload, grabpix, grabbed, version, version_of, eintr, eagain}

unfoldable pub is_interrupted : Reply → Bool
is_interrupted reply = eq_ℤ reply.code (negsuc 0) && (reply.errno == eintr || reply.errno == eagain)

-- The argument after a call. Of the structs that the kernel writes to, these two have fields that it also
-- reads; the DRM core copies a struct back whatever the call returns.
unfoldable pub written_back : Request → Payload → Request
written_back (grabpix cmd) (grabbed num_rects _) = grabpix (record cmd { num_rects = num_rects })
written_back (version _) (version_of ver) = version ver.name_len
written_back request _ = request

-- -1, with EINTR or EAGAIN in `errno`
abbrev pub Interrupted : Reply → Type 0
Interrupted reply = (reply.code ≡ negsuc 0) × ((reply.errno ≡ eintr) ⊎ (reply.errno ≡ eagain))

eq_of_eq_ℤ : (a : ℤ) → eq_ℤ a (negsuc 0) ≡ true → a ≡ negsuc 0
eq_of_eq_ℤ (pos n) h = absurd (ground arith)
eq_of_eq_ℤ (negsuc zero) h = refl
eq_of_eq_ℤ (negsuc (suc n)) h = absurd (ground arith)

is_interrupted-Interrupted : (reply : Reply) → is_interrupted reply ≡ true → Interrupted reply
unfolding is_interrupted
is_interrupted-Interrupted reply h = (eq_of_eq_ℤ reply.code (ground arith), ground arith)

is_interrupted_of : (reply : Reply) → Interrupted reply → is_interrupted reply ≡ true
unfolding is_interrupted
is_interrupted_of reply (c, inl e) = rw (c, e) refl
is_interrupted_of reply (c, inr e) = rw (c, e) refl

module _ {S : Type 0} (ioctl : S → ℕ → Request → S × Reply) (fd : ℕ) where
  -- `drm_ioctl`, interrupted `fuel` times at most.
  unfoldable pub retry : ℕ → Request → S → S × Reply
  unfolding written_back
  retry zero request s = ioctl s fd request
  retry (suc fuel) request s =
      let (s', reply) = ioctl s fd request in
      let again = retry fuel (written_back request reply.payload) s' in
      if is_interrupted reply then again else (s', reply)

  -- From a state and an argument, this many interrupted calls lead to others.
  pub data Repeats : S → Request → ℕ → S → Request → Type 0 where
    here : (s : S) (request : Request) → Repeats s request 0 s request
    call :
        (s s' t : S) (request next : Request) (n : ℕ) (reply : Reply)
        → ioctl s fd request ≡ (s', reply)
        → Interrupted reply
        → Repeats s' (written_back request reply.payload) n t next
        → Repeats s request (suc n) t next

  -- Where a call comes back without an interruption after `n` interrupted ones, each made with the
  -- argument that the one before left, `drm_ioctl` ends with its answer on any fuel from `n` on.
  pub retry_lem :
      (s t : S) (request next : Request) (n fuel : ℕ)
      → Repeats s request n t next
      → ¬ Interrupted (ioctl t fd next).1
      → n ≤ fuel
      → retry fuel request s ≡ ioctl t fd next
  unfolding retry
  retry_lem s t request next zero zero (Repeats.here _ _) stop le = refl
  retry_lem s t request next zero (suc fuel) (Repeats.here _ _) stop le =
      if-cases (λ r. r ≡ ioctl s fd request) (is_interrupted (ioctl s fd request).1) _ _
        (λ i. absurd (stop (is_interrupted-Interrupted _ i))) (λ _. refl)
  retry_lem s t request next (suc n) zero c stop le = absurd (omega arith)
  retry_lem s t request next (suc n) (suc fuel) (Repeats.call _ s' _ _ _ _ reply e i more) stop le =
      let rest = retry_lem s' t _ next n fuel more stop (omega arith) in
      rw e (rw (is_interrupted_of reply i) rest)

  -- A call that is not interrupted is made once.
  pub retry_once :
      (s : S) (request : Request) (fuel : ℕ)
      → is_interrupted (ioctl s fd request).1 ≡ false
      → retry fuel request s ≡ ioctl s fd request
  unfolding retry
  retry_once s request zero h = refl
  retry_once s request (suc fuel) h = rw h refl

  -- an interrupted call is made again, with what it left
  pub retry_again :
      (s s' : S) (request : Request) (reply : Reply) (fuel : ℕ)
      → ioctl s fd request ≡ (s', reply)
      → is_interrupted reply ≡ true
      → retry (suc fuel) request s ≡ retry fuel (written_back request reply.payload) s'
  unfolding retry
  retry_again s s' request reply fuel e i = rw e (rw i refl)

module _ {S : Type 0} (os : Os S) where
  unfoldable pub drm_ioctl : S → ℕ → Request → S × Reply
  drm_ioctl s fd request = retry os.ioctl fd os.patience request s

  pub drm_ioctl_once :
      (s : S) (fd : ℕ) (request : Request)
      → is_interrupted (os.ioctl s fd request).1 ≡ false
      → drm_ioctl s fd request ≡ os.ioctl s fd request
  unfolding drm_ioctl
  drm_ioctl_once s fd request h = retry_once os.ioctl fd s request os.patience h
