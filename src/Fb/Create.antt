-- ===== src/Fb/Create.antt =====
-- Making a framebuffer: references, and the size of its object.
use evdi.Prelude.{
  ℕ, ◌+◌, ◌≤◌, ◌≡◌, refl, not, Option, none, some, arith, ltb, ◌==◌, if◌then◌else◌, if-cases, subst,
}
use evdi.Errno.{Result, ok, err, is_ok, enoent}
use evdi.World.{World, Framebuffer, count}
use evdi.Fb.{
  FbCmd, FbEnv, fb_size, new_framebuffer, fb_create_on, fb_user_fb_create, user_framebuffer_destroy,
}

-- the references to an object that were taken and not dropped, less those before
abbrev pub Owes : World → World → ℕ → ℕ → Type 0
Owes w w' obj n =
    count obj w'.gem_gets + count obj w.gem_puts ≡ count obj w.gem_gets + count obj w'.gem_puts + n

-- A failure, with every reference given back; or a framebuffer of four bytes per pixel as asked for, with
-- one reference to its object, which is as large as the size that was computed.
abbrev pub CreateOutcome : FbEnv → World → FbCmd → World × Result Framebuffer → Type 0
CreateOutcome env w cmd (w', err e) = (id : ℕ) → Owes w w' id 0
CreateOutcome env w cmd (w', ok fb) =
    (env.lookup cmd.handle ≡ some fb.obj)
    × (env.bpp cmd.pixel_format ≡ 32)
    × (fb.width ≡ cmd.width)
    × (fb.height ≡ cmd.height)
    × (fb.pitch ≡ cmd.pitch)
    × (fb_size cmd ≤ (w.gems fb.obj).size)
    × ((id : ℕ) → Owes w w' id (if fb.obj == id then 1 else 0))

on-CreateOutcome :
    (env : FbEnv) (w : World) (cmd : FbCmd) (obj : ℕ)
    → env.bpp cmd.pixel_format ≡ 32
    → env.lookup cmd.handle ≡ some obj
    → CreateOutcome env w cmd (fb_create_on env w cmd obj)
unfolding fb_create_on new_framebuffer
on-CreateOutcome env w cmd obj b l =
    if-cases (CreateOutcome env w cmd) (ltb (w.gems obj).size (fb_size cmd)) _ _
      (λ _ id. ground arith)
      λ fits.
        if-cases (CreateOutcome env w cmd) (not env.alloc) _ _ (λ _ id. ground arith)
          λ _.
            if-cases (CreateOutcome env w cmd) (not (is_ok env.init)) _ _ (λ _ id. ground arith)
              λ _. (l, b, refl, refl, refl, ground arith, λ id. ground arith)

-- Creating a framebuffer for user space either fails with every reference to its object given back,
-- or gives a framebuffer of 32 bits per pixel as asked for that holds one, of an object as large as the
-- size that the source computes.
pub fb_create_lem :
    (env : FbEnv) (w : World) (cmd : FbCmd) → CreateOutcome env w cmd (fb_user_fb_create env w cmd)
unfolding fb_user_fb_create
fb_create_lem env w cmd =
    if-cases (CreateOutcome env w cmd) (not (env.bpp cmd.pixel_format == 32)) _ _
      (λ _ id. ground arith) (λ b. found (ground arith) (env.lookup cmd.handle) refl)
  where
    found :
        env.bpp cmd.pixel_format ≡ 32
        → (o : Option ℕ) → env.lookup cmd.handle ≡ o
        → CreateOutcome env w cmd (
            let r : World × Result Framebuffer = elim o [
              | none ↦ (w, err enoent)
              | some obj ↦ fb_create_on env w cmd obj
            ] in
            r)
    found b none e = λ id. ground arith
    found b (some obj) e = on-CreateOutcome env w cmd obj b e

-- A framebuffer that is made and destroyed leaves no reference to its object behind.
pub destroy-create :
    (env : FbEnv) (w w' : World) (cmd : FbCmd) (fb : Framebuffer)
    → fb_user_fb_create env w cmd ≡ (w', ok fb)
    → (id : ℕ) → Owes w (user_framebuffer_destroy w' fb) id 0
unfolding user_framebuffer_destroy
destroy-create env w w' cmd fb e id =
    let (_, _, _, _, _, _, owes) = subst (CreateOutcome env w cmd) e (fb_create_lem env w cmd) in
    ground (arith, owes id)
