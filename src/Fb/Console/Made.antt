-- ===== src/Fb/Console/Made.antt =====
-- What making the console's framebuffer leaves behind.
use evdi.Prelude.{
  ℕ, ◌≡◌, refl, arith, true, false, not, ◌||◌, Option, none, some, ◌==◌, if◌then◌else◌, if-cases,
  subst,
}
use evdi.Errno.{Status, err, done, is_ok, is_ok-done, einval}
use evdi.Gem.{GemObject, gem_vmap}
use evdi.Gem.Dumb.{gem_alloc_object}
use evdi.Fb.Create.{Owes}
use evdi.Fb.Console.{
  Console, SurfaceSize, ConsoleEnv, console_size, init_console, map_console, evdifb_create,
  fbdev_destroy,
}

-- Taken down, the console is as it was before it was made, `c`: no reference and no info is left over.
abbrev pub TakenDown : Console → Console → Type 0
TakenDown c c' =
    ((id : ℕ) → Owes c.world (fbdev_destroy c').world id 0) × ((fbdev_destroy c').infos ≡ c.infos)

-- where the making is said to have succeeded
abbrev Clean : Console → Console × Status → Type 0
Clean c r = r.1 ≡ done → TakenDown c r.0

map_console-Clean :
    (env : ConsoleEnv) (c : Console) (id : ℕ) (obj : GemObject) (size : ℕ)
    → c.fbdev.info ≡ none
    → Clean c (map_console env c id obj size)
unfolding map_console init_console fbdev_destroy
map_console-Clean env c id obj size fresh =
    if-cases (Clean c) (not (is_ok (gem_vmap env.mapping obj).0)) _ _
      (λ f e. absurd (is_ok-done _ f e))
      (λ _.
        if-cases (Clean c) (not env.info_alloc) _ _ (λ _ e. cc)
          (λ _.
            if-cases (Clean c) (not (is_ok env.init)) _ _ (λ f e. absurd (is_ok-done _ f e))
              (λ _.
                if-cases (Clean c) (not env.cmap_alloc) _ _ (λ _ e. cc)
                  (λ _ e. (λ k. ground arith, ground arith)))))

-- A console without an info and an object whose framebuffer is said to have been made gives everything back
-- when it is taken down: every reference to an object, and the info. That holds also where the object could
-- not be allocated, which is no error to the source.
pub destroy-evdifb_create :
    (env : ConsoleEnv) (c c' : Console) (sizes : SurfaceSize)
    → c.fbdev.info ≡ none
    → c.fbdev.obj ≡ none
    → evdifb_create env c sizes ≡ (c', done)
    → TakenDown c c'
unfolding evdifb_create
destroy-evdifb_create env c c' sizes no_info no_obj e =
    subst (Clean c) e (whole (gem_alloc_object env.create (console_size sizes))) refl
  where
    nothing : Clean c (c, done)
    nothing e' = unfold fbdev_destroy in (λ id. ground arith, ground arith)

    made :
        (o : Option GemObject)
        → Clean c (elim o as (λ _. Console × Status) [
          | none ↦ (c, done)
          | some obj ↦ map_console env c env.fresh_obj obj (console_size sizes)
        ])
    made none = nothing
    made (some obj) = map_console-Clean env c env.fresh_obj obj (console_size sizes) no_info

    whole :
        (o : Option GemObject)
        → Clean c (
            if not (sizes.surface_bpp == 24 || sizes.surface_bpp == 32)
            then (c, err einval)
            else elim o as (λ _. Console × Status) [
              | none ↦ (c, done)
              | some obj ↦ map_console env c env.fresh_obj obj (console_size sizes)
            ])
    whole o =
        if-cases (Clean c) (not (sizes.surface_bpp == 24 || sizes.surface_bpp == 32)) _ _
          (λ _ e'. cc) (λ _. made o)

-- Where the new object cannot be mapped, or the info not be allocated, the reference to the object is never
-- given back: the framebuffer, whose object would be put, does not have it yet.
pub map_console_leaks :
    (env : ConsoleEnv) (c : Console) (id : ℕ) (obj : GemObject) (size : ℕ)
    → c.fbdev.info ≡ none
    → c.fbdev.obj ≡ none
    → ((not (is_ok (gem_vmap env.mapping obj).0)) || not env.info_alloc) ≡ true
    → let (c', status) = map_console env c id obj size in
      (is_ok status ≡ false) × Owes c.world (fbdev_destroy c').world id 1
unfolding map_console fbdev_destroy
map_console_leaks env c id obj size no_info no_obj h =
    if-cases Leaks (not (is_ok (gem_vmap env.mapping obj).0)) _ _
      (λ bad. (ground arith, ground arith))
      (λ mapped.
        if-cases Leaks (not env.info_alloc) _ _ (λ _. (refl, ground arith))
          (λ given. absurd (ground arith)))
  where
    Leaks : Console × Status → Type 0
    Leaks r = (is_ok r.1 ≡ false) × Owes c.world (fbdev_destroy r.0).world id 1
