-- ===== src/Drm/Life.antt =====
-- What is left of a device, from its creation to its release.
use evdi.Prelude.{◌≡◌, refl, sym, subst, Bool, true, false, not, Option, none, some, if-cases}
use evdi.Errno.{Errno, ok, err, Status, enomem}
use evdi.World.{World, IsBalanced}
use evdi.Cursor.{Cursor, cursor_init, cursor_free}
use evdi.Cursor.Buffer.{HoldsRef, cursor_free_lem, cursor_free_refs, cursor_free-none}
use evdi.Painter.State.{Painter, Device, painter_fresh}
use evdi.Painter.Connect.{painter_init, painter_cleanup}
use evdi.Painter.Connect.Scanout.{cleanup-IsBalanced, cleanup_gems}
use evdi.Painter.Session.{Reaches}
use evdi.Painter.Session.Keeps.{Ok}
use evdi.Painter.Session.Safe.{session-Ok, fresh-Ok}
use evdi.Drm.{
  InitEnv, FbdevInit, made, no_memory, freed, Init, ready, failed, crashed, err_free, release_cb,
  last_steps, with_console, bare_device, no_cursor, with_cursor, drm_device_init, register,
  drm_device_create,
}

-- no reference is left over
abbrev pub NothingHeld : World → Type 0
NothingHeld w = IsBalanced w.fb_gets w.fb_puts none × IsBalanced w.gem_gets w.gem_puts none

-- A device whose invariants hold gives back every reference when it is released.
pub release-NothingHeld :
    (d : Device) (p : Painter)
    → d.painter ≡ some p
    → Ok p d.cursor d.world
    → NothingHeld (release_cb d)
unfolding release_cb
release-NothingHeld d p e k =
    subst (λ o. NothingHeld (painter_cleanup o freed_cursor)) (sym e)
      (
        cleanup-IsBalanced p freed_cursor (rw (fbs.0, fbs.1) k.scanout),
        rw (gems.0, gems.1) (cursor_free_lem d.cursor d.world k.cursor_ref),
      )
  where
    freed_cursor : World
    freed_cursor = cursor_free (some d.cursor) d.world

    fbs : (freed_cursor.fb_gets ≡ d.world.fb_gets) × (freed_cursor.fb_puts ≡ d.world.fb_puts)
    fbs = cursor_free_refs d.cursor d.world

    gems :
        ((painter_cleanup (some p) freed_cursor).gem_gets ≡ freed_cursor.gem_gets)
        × ((painter_cleanup (some p) freed_cursor).gem_puts ≡ freed_cursor.gem_puts)
    gems = cleanup_gems p freed_cursor

-- A device that was made is as `evdi_painter_init` and `evdi_cursor_init` leave it; one that was not holds
-- nothing.
abbrev pub Fresh : World → Init → Type 0
Fresh w (ready d) = (d.painter ≡ some painter_fresh) × (d.cursor.obj ≡ none) × (d.world ≡ w)
Fresh w (failed e n w') = NothingHeld w'
Fresh w crashed = Unit {0}

module _ (w : World) (b : NothingHeld w) where
  err_free-Fresh :
      (p : Option Painter) (cursor : Cursor) (e : Errno)
      → cursor.obj ≡ none
      → Fresh w (err_free p (some cursor) w e)
  unfolding err_free
  err_free-Fresh p cursor e h =
      let fbs = cursor_free_refs cursor w in
      (
        rw (fbs.0, fbs.1) (b.0),
        cursor_free_lem cursor w (subst (IsBalanced w.gem_gets w.gem_puts) (sym h) (b.1)),
      )

  cursorless-Fresh : (p : Option Painter) (e : Errno) → Fresh w (err_free p none w e)
  unfolding err_free
  cursorless-Fresh p e = subst NothingHeld (sym (cursor_free-none w)) b

  -- what the first steps make
  abbrev New : Device → Type 0
  New d = (d.painter ≡ some painter_fresh) × (d.cursor.obj ≡ none) × (d.world ≡ w)

  freed-Fresh :
      (d : Device) (e : Errno) → New d → Fresh w (err_free d.painter (some d.cursor) d.world e)
  freed-Fresh d e (p, o, k) =
      subst (λ w'. Fresh w (err_free d.painter (some d.cursor) w' e)) (sym k)
        (err_free-Fresh d.painter d.cursor e o)

  last_steps-Fresh : (env : InitEnv) (d : Device) → New d → Fresh w (last_steps env d)
  unfolding last_steps
  last_steps-Fresh env d n = go env.vblank env.action
    where
      go :
          (vblank action : Status)
          → Fresh w (elim vblank as (λ _. Init) [
            | err e ↦ err_free d.painter (some d.cursor) d.world e
            | ok _ ↦ elim action as (λ _. Init) [ err _ ↦ crashed | ok _ ↦ ready d ]
          ])
      go (err e) action = freed-Fresh d e n
      go (ok _) (err e) = tt
      go (ok _) (ok _) = n

  with_console-Fresh : (env : InitEnv) (d : Device) → New d → Fresh w (with_console env d)
  unfolding with_console
  with_console-Fresh env d n = go env.fbdev
    where
      go :
          (fbdev : FbdevInit)
          → Fresh w (elim fbdev as (λ _. Init) [
            | made ↦ last_steps env d
            | no_memory ↦ err_free d.painter (some d.cursor) d.world enomem
            | freed _ ↦ crashed
          ])
      go made = last_steps-Fresh env d n
      go no_memory = freed-Fresh d enomem n
      go (freed e) = tt

  with_cursor-Fresh : (env : InitEnv) → Fresh w (with_cursor env w (some painter_fresh))
  unfolding with_cursor
  with_cursor-Fresh env = go env.cursor_alloc
    where
      go :
          (alloc : Bool)
          → Fresh w (elim (cursor_init none alloc) as (λ _. Init) [
            | err e ↦ err_free (some painter_fresh) none w e
            | ok cursor ↦
                with_console env (record (bare_device cursor w) { painter = some painter_fresh })
          ])
      go true = with_console-Fresh env _ (refl, refl, refl)
      go false = cursorless-Fresh (some painter_fresh) enomem

  init-Fresh : (env : InitEnv) → Fresh w (drm_device_init env w)
  unfolding drm_device_init no_cursor
  init-Fresh env =
      if-cases (Fresh w) (not env.alloc) (failed enomem 0 w) _ (λ _. b) (λ _. go env.painter_alloc)
    where
      go :
          (alloc : Bool)
          → Fresh w (
              let (evdi, status) = painter_init (bare_device no_cursor w) alloc in
              elim status as (λ _. Init) [
                | err e ↦ err_free evdi.painter none w e
                | ok _ ↦ with_cursor env w evdi.painter
              ])
      go true = with_cursor-Fresh env
      go false = cursorless-Fresh none enomem

  New-IsBalanced :
      (d : Device)
      → New d
      → IsBalanced d.world.fb_gets d.world.fb_puts none × HoldsRef (d.cursor, d.world)
  New-IsBalanced d (p, o, k) =
      subst (λ v. IsBalanced v.fb_gets v.fb_puts none × HoldsRef (d.cursor, v)) (sym k)
        (b.0, subst (IsBalanced w.gem_gets w.gem_puts) (sym o) (b.1))

  register-Fresh :
      (init : Init) (registers : Status) → Fresh w init → Fresh w (register init registers)
  unfolding register
  register-Fresh (ready d) (err e) n =
      let (fbs, gems) = New-IsBalanced d n in
      release-NothingHeld d painter_fresh n.0 (fresh-Ok d.cursor d.world fbs gems)
  register-Fresh (ready d) (ok _) h = h
  register-Fresh (failed e n w') registers h = h
  register-Fresh crashed registers h = h

  create-Fresh :
      (dev_alloc : Status) (env : InitEnv) (registers : Status)
      → Fresh w (drm_device_create dev_alloc env registers w)
  unfolding drm_device_create
  create-Fresh (err e) env registers = b
  create-Fresh (ok _) env registers =
      register-Fresh (drm_device_init env w) registers (init-Fresh env)

-- From a world in which nothing is held: a device that was created gives back every reference to a framebuffer and to a cursor's object when it is
-- released, whatever sequence of operations it went through.
pub create-release :
    (dev_alloc : Status) (env : InitEnv) (registers : Status) (w : World) (d e : Device)
    (p : Painter)
    → NothingHeld w
    → drm_device_create dev_alloc env registers w ≡ ready d
    → Reaches d e
    → e.painter ≡ some p
    → NothingHeld (release_cb e)
create-release dev_alloc env registers w d e p b new r h =
    let fresh = subst (Fresh w) new (create-Fresh w b dev_alloc env registers) in
    let (fbs, gems) = New-IsBalanced w b d fresh in
    release-NothingHeld e p h (session-Ok d e p fresh.0 fbs gems r h)
