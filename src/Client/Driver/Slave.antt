-- ===== src/Client/Driver/Slave.antt =====
-- No file is left open but the one that the caller gets.
use evdi.Prelude.{
  ℕ, zero, suc, ◌+◌, ◌≡◌, arith, ◌&&◌, List, ◌∷◌, Option, none, some, if◌then◌else◌, if-cases,
}
use evdi.Prelude.Int.{ℤ, pos, ltb_ℤ}
use evdi.World.{count, holds}
use evdi.Client.{Os, Request, Reply, drop_master}
use evdi.Client.Text.{Bytes}
use evdi.Client.Ioctl.{drm_ioctl, retry, is_interrupted}
use evdi.Client.Procfs.{Process, device_has_master, xorg_running}
use evdi.Client.Driver.{
  is_evdi, is_evdi_compatible, drm_auth_magic, drm_is_master, enslave, open_as_slave,
  wait_for_device, wait_for_master, open_device, wait_count, card_path,
}

-- The kernel's state beside the descriptors that were opened and closed, newest first.
pub record Files (S : Type 0) : Type 0 where
  pub state : S
  pub opens : List ℕ
  pub closes : List ℕ

abbrev opened : {S : Type 0} → Files S → S → Option ℕ → Files S × Option ℕ
opened f s none = (record f { state = s }, none)
opened f s (some fd) = (record f { state = s; opens = fd ∷ f.opens }, some fd)

-- the same system calls, with a record of those on descriptors
abbrev pub traced : {S : Type 0} → Os S → Os (Files S)
traced os = record {
  ioctl = λ f fd request.
      let (s, reply) = os.ioctl f.state fd request in (record f { state = s }, reply);
  patience = os.patience;
  open_path = λ f path. let (s, fd) = os.open_path f.state path in opened f s fd;
  close_fd = λ f fd. record f { state = os.close_fd f.state fd; closes = fd ∷ f.closes };
  mmap = λ f fd size offset. os.mmap f.state fd size offset;
  usleep = λ f us. record f { state = os.usleep f.state us };
}

-- Of the descriptors opened, those not closed are the one held and those that others hold.
abbrev pub Holds : {S : Type 0} → (ℕ → ℕ) → Files S → Option ℕ → Type 0
Holds others f held = (id : ℕ) → count id f.opens ≡ count id f.closes + holds held id + others id

module _ {S : Type 0} (os : Os S) (others : ℕ → ℕ) where
  retry-Holds :
      (fd fuel : ℕ) (request : Request) (f : Files S) (held : Option ℕ)
      → Holds others f held
      → Holds others (retry (traced os).ioctl fd fuel request f).0 held
  unfolding retry
  retry-Holds fd zero request f held h = h
  retry-Holds fd (suc fuel) request f held h =
      let r = (traced os).ioctl f fd request in
      if-cases {A = Files S × Reply} (λ r. Holds others r.0 held) (is_interrupted r.1) _ _
        (λ _. retry-Holds fd fuel _ r.0 held h) (λ _. h)

  pub drm_ioctl-Holds :
      (f : Files S) (fd : ℕ) (request : Request) (held : Option ℕ)
      → Holds others f held
      → Holds others (drm_ioctl (traced os) f fd request).0 held
  unfolding drm_ioctl
  drm_ioctl-Holds f fd request held h = retry-Holds fd os.patience request f held h

  is_master-Holds :
      (f : Files S) (fd : ℕ) (held : Option ℕ)
      → Holds others f held
      → Holds others (drm_is_master (traced os) f fd).0 held
  unfolding drm_is_master drm_auth_magic
  is_master-Holds f fd held h = drm_ioctl-Holds f fd _ held h

  pub is_evdi-Holds :
      (f : Files S) (fd : ℕ) (held : Option ℕ)
      → Holds others f held
      → Holds others (is_evdi (traced os) f fd).0 held
  unfolding is_evdi
  is_evdi-Holds f fd held h = drm_ioctl-Holds f fd _ held h

  pub is_evdi_compatible-Holds :
      (f : Files S) (fd : ℕ) (held : Option ℕ)
      → Holds others f held
      → Holds others (is_evdi_compatible (traced os) f fd).0 held
  unfolding is_evdi_compatible
  is_evdi_compatible-Holds f fd held h = drm_ioctl-Holds f fd _ held h

  -- closing the descriptor held
  pub close-Holds :
      (f : Files S) (fd : ℕ)
      → Holds others f (some fd)
      → Holds others ((traced os).close_fd f fd) none
  close-Holds f fd h id = ground (arith, h id)

  -- opening one
  open-Holds :
      (f : Files S) (s : S) (fd : Option ℕ)
      → Holds others f none
      → Holds others (opened f s fd).0 (opened f s fd).1
  open-Holds f s none h = h
  open-Holds f s (some fd) h = λ id. ground (arith, h id)

  abbrev HoldsResult : Files S × Option ℕ → Type 0
  HoldsResult r = Holds others r.0 r.1

  enslave-Holds :
      (f : Files S) (fd : ℕ) → Holds others f (some fd) → HoldsResult (enslave (traced os) f fd)
  unfolding enslave
  enslave-Holds f fd h =
      let m = drm_is_master (traced os) f fd in
      let held = is_master-Holds f fd (some fd) h in
      let d = drm_ioctl (traced os) m.0 fd drop_master in
      let dropped = drm_ioctl-Holds m.0 fd drop_master (some fd) held in
      let still = drm_is_master (traced os) (if m.1 then d.0 else m.0) fd in
      let last = is_master-Holds _ fd (some fd) (
        if-cases {A = Files S} (λ g. Holds others g (some fd)) m.1 d.0 m.0 (λ _. dropped)
          (λ _. held)) in
      if-cases HoldsResult (m.1 && ltb_ℤ d.1.code (pos 0)) _ _ (λ _. close-Holds d.0 fd dropped)
        (λ _. if-cases HoldsResult still.1 _ _ (λ _. close-Holds still.0 fd last) (λ _. last))

  open_as_slave-Holds :
      (f : Files S) (path : Bytes)
      → Holds others f none
      → HoldsResult (open_as_slave (traced os) f path)
  unfolding open_as_slave
  open_as_slave-Holds f path h = go (os.open_path f.state path)
    where
      go :
          (r : S × Option ℕ)
          → HoldsResult (
              let (f', fd) = opened f r.0 r.1 in
              elim fd [ none ↦ (f', none) | some n ↦ enslave (traced os) f' n ])
      go (s, none) = h
      go (s, some fd) = enslave-Holds _ fd (open-Holds f s (some fd) h)

  -- a failure holds nothing, and the next round starts so
  again-Holds :
      (r next : Files S × Option ℕ)
      → HoldsResult r
      → (Holds others r.0 none → HoldsResult next)
      → HoldsResult (elim r.1 [ none ↦ next | some n ↦ (r.0, some n) ])
  again-Holds (f, none) next h go = go h
  again-Holds (f, some n) next h go = h

  pub wait_for_device-Holds :
      (cnt : ℕ) (f : Files S) (path : Bytes)
      → Holds others f none
      → HoldsResult (wait_for_device (traced os) cnt f path)
  unfolding wait_for_device
  wait_for_device-Holds zero f path h = open_as_slave-Holds f path h
  wait_for_device-Holds (suc cnt) f path h =
      again-Holds (open_as_slave (traced os) f path) _ (open_as_slave-Holds f path h)
        (λ k. wait_for_device-Holds cnt _ path k)

  module _ (proc : Files S → Option (List Process)) (myself : ℤ) where
    wait_for_master-Holds :
        (cnt : ℕ) (f : Files S) (path : Bytes)
        → Holds others f none
        → Holds others (wait_for_master (traced os) proc myself cnt f path) none
    unfolding wait_for_master
    wait_for_master-Holds zero f path h = h
    wait_for_master-Holds (suc cnt) f path h =
        if-cases {A = Files S} (λ g. Holds others g none) (device_has_master myself path (proc f)) _
          _ (λ _. h) (λ _. wait_for_master-Holds cnt _ path h)

    pub open_device-Holds :
        (f : Files S) (device : ℕ)
        → Holds others f none
        → HoldsResult (open_device (traced os) proc myself f device)
    unfolding open_device
    open_device-Holds f device h = last _ (
        wait_for_device-Holds wait_count _ (card_path device) (
          if-cases {A = Files S} (λ g. Holds others g none) (xorg_running (proc f)) _ _
            (λ _. wait_for_master-Holds wait_count f (card_path device) h) (λ _. h)))
      where
        last :
            (r : Files S × Option ℕ)
            → HoldsResult r
            → HoldsResult (elim r.1 [
              | none ↦ (r.0, none)
              | some n ↦ ((drm_ioctl (traced os) r.0 n drop_master).0, some n)
            ])
        last (g, none) k = k
        last (g, some n) k = drm_ioctl-Holds g n drop_master (some n) k
