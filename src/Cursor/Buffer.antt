-- ===== src/Cursor/Buffer.antt =====
-- The cursor's buffer object: references are balanced, and the cursor is shown only with an object.
use evdi.Prelude.{ℕ, ◌≡◌, refl, Bool, true, false, Option, none, some, arith, is_some, ◌⊎◌}
use evdi.Errno.{ok}
use evdi.Gem.{MapEnv, gem_vmap}
use evdi.World.{World, IsBalanced, exchange-IsBalanced}
use evdi.Cursor.{Cursor, Image, cursor_set, cursor_enable, cursor_free, map_for_cursor}

-- the references to buffer objects that the cursor accounts for
abbrev pub HoldsRef : Cursor × World → Type 0
HoldsRef (cursor, w) = IsBalanced w.gem_gets w.gem_puts cursor.obj

-- the object that is left, and that mapping takes no reference
map_for_cursor_lem :
    (env : MapEnv) (w : World) (obj : Option ℕ)
    → let (left, w') = map_for_cursor env w obj in
      (w'.gem_gets ≡ w.gem_gets)
      × (w'.gem_puts ≡ w.gem_puts)
      × ((id : ℕ) → left ≡ some id → obj ≡ some id)
unfolding map_for_cursor
map_for_cursor_lem env w none = (refl, refl, λ id h. h)
map_for_cursor_lem env w (some k) = (ground arith, ground arith, λ id h. ground arith)

-- If the references of the cursor were balanced, `evdi_cursor_set` keeps them so, shows the
-- cursor exactly if it has an object, and gives it no object but the one asked for, which it has
-- if that is mapped already or can be mapped.
pub cursor_set_lem :
    (env : MapEnv) (cursor : Cursor) (w : World) (obj : Option ℕ) (image : Image)
    → HoldsRef (cursor, w)
    → let (after, w') = cursor_set env cursor w obj image in
      HoldsRef (after, w')
      × (after.enabled ≡ is_some after.obj)
      × ((id : ℕ) → after.obj ≡ some id → obj ≡ some id)
      × ((id : ℕ)
          → obj ≡ some id
          → (is_some (w.gems id).vmapping ≡ true) ⊎ ((gem_vmap env (w.gems id)).0 ≡ ok tt)
          → after.obj ≡ some id)
unfolding cursor_set
cursor_set_lem env cursor w obj image b =
    let m = map_for_cursor_lem env w obj in
    (
      rw (m.0, m.1)
          (exchange-IsBalanced w.gem_gets w.gem_puts cursor.obj (map_for_cursor env w obj).0 b),
      refl,
      m.2,
      λ id e c. kept id e c,
    )
  where
    kept :
        (id : ℕ)
        → obj ≡ some id
        → (is_some (w.gems id).vmapping ≡ true) ⊎ ((gem_vmap env (w.gems id)).0 ≡ ok tt)
        → (map_for_cursor env w obj).0 ≡ some id
    kept id e c = rw e (ground arith)

-- `evdi_cursor_enable` keeps the references balanced. Off, the cursor has no object; on, it is shown
-- whether it has one or not.
pub cursor_enable_lem :
    (cursor : Cursor) (w : World) (enable : Bool)
    → HoldsRef (cursor, w)
    → let (after, w') = cursor_enable cursor w enable in
      HoldsRef (after, w')
      × (after.enabled ≡ enable)
      × (enable ≡ false → after.obj ≡ none)
      × (enable ≡ true → after.obj ≡ cursor.obj)
unfolding cursor_enable
cursor_enable_lem cursor w true b = (b, refl, λ h. cc, λ h. refl)
cursor_enable_lem cursor w false b =
    (exchange-IsBalanced w.gem_gets w.gem_puts cursor.obj none b, refl, λ h. refl, λ h. cc)

-- A freed cursor leaves no reference behind.
pub cursor_free_lem :
    (cursor : Cursor) (w : World)
    → HoldsRef (cursor, w)
    → IsBalanced (cursor_free (some cursor) w).gem_gets (cursor_free (some cursor) w).gem_puts none
unfolding cursor_free
cursor_free_lem cursor w b = exchange-IsBalanced w.gem_gets w.gem_puts cursor.obj none b

-- The cursor takes and drops no reference to a framebuffer.
pub cursor_set_refs :
    (env : MapEnv) (cursor : Cursor) (w : World) (obj : Option ℕ) (image : Image)
    → ((cursor_set env cursor w obj image).1.fb_gets ≡ w.fb_gets)
      × ((cursor_set env cursor w obj image).1.fb_puts ≡ w.fb_puts)
unfolding cursor_set map_for_cursor
cursor_set_refs env cursor w none image = (refl, refl)
cursor_set_refs env cursor w (some id) image = (ground arith, ground arith)

pub cursor_enable_refs :
    (cursor : Cursor) (w : World) (enable : Bool)
    → ((cursor_enable cursor w enable).1.fb_gets ≡ w.fb_gets)
      × ((cursor_enable cursor w enable).1.fb_puts ≡ w.fb_puts)
unfolding cursor_enable
cursor_enable_refs cursor w true = (refl, refl)
cursor_enable_refs cursor w false = (refl, refl)

pub cursor_free_refs :
    (cursor : Cursor) (w : World)
    → ((cursor_free (some cursor) w).fb_gets ≡ w.fb_gets)
      × ((cursor_free (some cursor) w).fb_puts ≡ w.fb_puts)
unfolding cursor_free
cursor_free_refs cursor w = (refl, refl)

pub cursor_free-none : (w : World) → cursor_free none w ≡ w
unfolding cursor_free
cursor_free-none w = refl
