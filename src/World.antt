-- ===== src/World.antt =====
-- What the driver's calls leave behind outside its own state: the framebuffers and buffer objects that
-- it holds, the events and vertical blanks that it has sent, and the references that it takes and drops.
use evdi.Prelude.{
  ℕ, suc, ◌+◌, ◌≡◌, Bool, List, [], ◌∷◌, Option, none, some, arith, ◌==◌, if◌then◌else◌,
}
use evdi.Gem.{GemObject}
use evdi.Event.{Event}

-- `struct evdi_framebuffer`, with the fields of its `struct drm_framebuffer` that the driver reads.
-- `id` tells framebuffers apart, and `obj` is the identity of the buffer object.
pub record Framebuffer : Type 0 where
  pub id : ℕ
  pub width : ℕ
  pub height : ℕ
  pub pitch : ℕ
  pub offset : ℕ
  pub pixel_format : ℕ
  pub cpp : ℕ
  pub obj : ℕ
  pub active : Bool
  pub is_from_xe : Bool

-- The identities in the lists of references, newest first.
pub record World : Type 0 where
  pub gems : ℕ → GemObject
  pub sent : List Event
  pub cancelled : List Event
  pub vblanks : List ℕ
  pub fb_gets : List ℕ
  pub fb_puts : List ℕ
  pub gem_gets : List ℕ
  pub gem_puts : List ℕ
  pub hotplugs : ℕ

abbrev pub store_gem : (ℕ → GemObject) → ℕ → GemObject → ℕ → GemObject
store_gem gems id obj k = if id == k then obj else gems k

abbrev pub count : ℕ → List ℕ → ℕ
count a [] = 0
count a (x ∷ xs) = if x == a then suc (count a xs) else count a xs

-- one, if the pointer is to `id`
abbrev pub holds : Option ℕ → ℕ → ℕ
holds none id = 0
holds (some a) id = if a == id then 1 else 0

-- Every reference taken was dropped, but for the one that the pointer holds.
abbrev pub IsBalanced : List ℕ → List ℕ → Option ℕ → Type 0
IsBalanced gets puts held = (id : ℕ) → count id gets ≡ count id puts + holds held id

-- the list of references after one more, if the pointer is not NULL
abbrev pub add_ref : Option ℕ → List ℕ → List ℕ
add_ref none refs = refs
add_ref (some id) refs = id ∷ refs

-- exchanging the pointer held for another keeps the balance
pub exchange-IsBalanced :
    (gets puts : List ℕ) (old new : Option ℕ)
    → IsBalanced gets puts old
    → IsBalanced (add_ref new gets) (add_ref old puts) new
exchange-IsBalanced gets puts old new b id = ground (arith, b id)
