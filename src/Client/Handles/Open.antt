-- ===== src/Client/Handles/Open.antt =====
-- The files that opening and closing a card leave open.
use evdi.Prelude.{
  ◌+◌, List, ==_refl, ℕ, ◌≡◌, ◌≢◌, refl, sym, subst, arith, Bool, true, false, Option, none, some,
  ltb, if-cases,
}
use evdi.Prelude.Int.{ℤ}
use evdi.World.{count, holds}
use evdi.Client.{Os, Context}
use evdi.Client.Procfs.{Process}
use evdi.Client.Driver.{open_device, is_evdi}
use evdi.Client.Driver.Slave.{
  Files, traced, Holds, close-Holds, is_evdi-Holds, is_evdi_compatible-Holds, open_device-Holds,
}
use evdi.Client.Handles.{
  Library, add_handle, is_usable, make_handle, with_descriptor, evdi_open, evdi_close,
  close_context,
}

-- the descriptor of a handle, if there is one
abbrev pub fd_of : Library → Option ℕ → Option ℕ
fd_of lib none = none
fd_of lib (some h) = elim (lib.handles h) [ none ↦ none | some ctx ↦ some ctx.fd ]

module _ {S : Type 0} (os : Os S) (others : ℕ → ℕ) where
  -- Of the files opened, those not closed are the handle's and the others.
  abbrev pub HoldsHandle : (Files S × Library) × Option ℕ → Type 0
  HoldsHandle r =
      (id : ℕ)
      → count id r.0.0.opens ≡ count id r.0.0.closes + holds (fd_of r.0.1 r.1) id + others id

  module _ (proc : Files S → Option (List Process)) (myself : ℤ) (alloc : Option ℕ) where
    is_usable-Holds :
        (f : Files S) (fd : ℕ)
        → Holds others f (some fd)
        → Holds others (is_usable (traced os) proc myself alloc f fd).0 (some fd)
    unfolding is_usable
    is_usable-Holds f fd h =
        let asked = is_evdi-Holds os others f fd (some fd) h in
        if-cases {A = Files S × Bool} (λ r. Holds others r.0 (some fd)) (is_evdi (traced os) f fd).1
          _ _ (λ _. is_evdi_compatible-Holds os others _ fd (some fd) asked) (λ _. asked)

    make_handle-HoldsHandle :
        (f : Files S) (lib : Library) (fd device : ℕ) (usable : Bool) (h : Option ℕ)
        → Holds others f (some fd)
        → HoldsHandle (make_handle (traced os) proc myself alloc f lib fd device usable h)
    unfolding make_handle add_handle
    make_handle-HoldsHandle f lib fd device true (some h) k =
        let found : fd_of (add_handle lib h fd device) (some h) ≡ some fd =
          ground (arith, ==_refl h) in
        subst (Holds others f) (sym found) k
    make_handle-HoldsHandle f lib fd device true none k = close-Holds os others f fd k
    make_handle-HoldsHandle f lib fd device false h k = close-Holds os others f fd k

    with_descriptor-HoldsHandle :
        (f : Files S) (lib : Library) (fd : Option ℕ) (device : ℕ)
        → fd ≢ some 0
        → Holds others f fd
        → HoldsHandle (with_descriptor (traced os) proc myself alloc f lib fd device)
    unfolding with_descriptor
    with_descriptor-HoldsHandle f lib none device n k = k
    with_descriptor-HoldsHandle f lib (some fd) device n k =
        if-cases HoldsHandle (ltb 0 fd) _ _
          (λ _. make_handle-HoldsHandle _ lib fd device _ alloc (is_usable-Holds f fd k))
          (λ zero_fd. absurd (n (ground arith)))

    -- Whatever the kernel answers and whatever other files are open: of the files that opening a card
    -- opens, the handle's is left open if there is a handle, and none if there is none, as long as the
    -- kernel does not give the descriptor 0.
    pub evdi_open-HoldsHandle :
        (f : Files S) (lib : Library) (device : ℕ)
        → (open_device (traced os) proc myself f device).1 ≢ some 0
        → Holds others f none
        → HoldsHandle (evdi_open (traced os) proc myself alloc f lib device)
    unfolding evdi_open
    evdi_open-HoldsHandle f lib device n h =
        with_descriptor-HoldsHandle _ lib _ device n
          (open_device-Holds os others proc myself f device h)

    -- With the descriptor 0 the file is left open and there is no handle.
    pub with_descriptor_zero :
        (f : Files S) (lib : Library) (device : ℕ)
        → with_descriptor (traced os) proc myself alloc f lib (some 0) device ≡ ((f, lib), none)
    unfolding with_descriptor
    with_descriptor_zero f lib device = refl

  pub evdi_close-Holds :
      (f : Files S) (lib : Library) (h : ℕ) (ctx : Context)
      → lib.handles h ≡ some ctx
      → Holds others f (some ctx.fd)
      → Holds others (evdi_close (traced os) f lib (some h)).0 none
  unfolding evdi_close close_context
  evdi_close-Holds f lib h ctx e k =
      subst (λ o. Holds others (close_context (traced os) f o) none) (sym e)
        (close-Holds os others f ctx.fd k)
