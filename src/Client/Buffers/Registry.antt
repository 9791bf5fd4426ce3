-- ===== src/Client/Buffers/Registry.antt =====
-- The list of buffers as a map from ids to buffers.
use evdi.Prelude.{
  eq-none_of_not, ℕ, ◌≡◌, refl, arith, true, List, [], ◌∷◌, Option, none, some, ◌==◌, if◌then◌else◌,
  is_some, subst, if-cases,
}
use evdi.Client.{Buffer, Context}
use evdi.Client.Buffers.{
  find_buffer, add_frame_buffer, remove_frame_buffer, register_buffer, unregister_buffer,
}

find_buffer-add :
    (bs : List Buffer) (b : Buffer) (id : ℕ)
    → find_buffer bs b.id ≡ none
    → find_buffer (add_frame_buffer bs b) id ≡ (if b.id == id then some b else find_buffer bs id)
unfolding find_buffer add_frame_buffer
find_buffer-add [] b id h = refl
find_buffer-add (x ∷ bs) b id h = ground (arith, find_buffer-add bs b id)

find_buffer-remove :
    (bs : List Buffer) (gone id : ℕ)
    → find_buffer (remove_frame_buffer bs (some gone)) id
      ≡ (if gone == id then none else find_buffer bs id)
unfolding find_buffer remove_frame_buffer
find_buffer-remove [] gone id = ground arith
find_buffer-remove (x ∷ bs) gone id = ground (arith, find_buffer-remove bs gone id)

-- every id stands in the list once
abbrev pub Distinct : List Buffer → Type 0
Distinct [] = Unit {0}
Distinct (b ∷ bs) = (find_buffer bs b.id ≡ none) × Distinct bs

add-Distinct :
    (bs : List Buffer) (b : Buffer)
    → find_buffer bs b.id ≡ none
    → Distinct bs
    → Distinct (add_frame_buffer bs b)
unfolding find_buffer add_frame_buffer
add-Distinct [] b h d = (refl, tt)
add-Distinct (x ∷ bs) b h (n, d) =
    (ground (arith, find_buffer-add bs b x.id), add-Distinct bs b (ground arith) d)

remove-Distinct :
    (bs : List Buffer) (id : ℕ) → Distinct bs → Distinct (remove_frame_buffer bs (some id))
unfolding remove_frame_buffer
remove-Distinct [] id d = tt
remove-Distinct (x ∷ bs) id (n, d) =
    if-cases Distinct (x.id == id) (remove_frame_buffer bs (some id))
      (x ∷ remove_frame_buffer bs (some id)) (λ _. remove-Distinct bs id d)
      (λ _. (ground (arith, find_buffer-remove bs id x.id), remove-Distinct bs id d))

-- what a registration and its reversal do to the map
abbrev pub Registered : Context → Buffer → Option Context → Type 0
Registered h b none = is_some (find_buffer h.frame_buffers b.id) ≡ true
Registered h b (some h') =
    (find_buffer h.frame_buffers b.id ≡ none)
    × Distinct h'.frame_buffers
    × ((id : ℕ)
        → find_buffer h'.frame_buffers id
          ≡ (if b.id == id then some b else find_buffer h.frame_buffers id))

abbrev pub Unregistered : Context → ℕ → Option Context → Type 0
Unregistered h gone none = find_buffer h.frame_buffers gone ≡ none
Unregistered h gone (some h') =
    (is_some (find_buffer h.frame_buffers gone) ≡ true)
    × Distinct h'.frame_buffers
    × ((id : ℕ)
        → find_buffer h'.frame_buffers id
          ≡ (if gone == id then none else find_buffer h.frame_buffers id))

-- With every id in the list once, a registration is refused exactly if the id is taken; otherwise it
-- adds the buffer under its id, changes no other, and keeps every id once.
pub register_buffer_lem :
    (h : Context) (b : Buffer) → Distinct h.frame_buffers → Registered h b (register_buffer h b)
unfolding register_buffer
register_buffer_lem h b d =
    if-cases (Registered h b) _ _ _ (λ k. k)
      λ k.
        let free = eq-none_of_not (find_buffer h.frame_buffers b.id) k in
        (
          free,
          add-Distinct h.frame_buffers b free d,
          λ id. find_buffer-add h.frame_buffers b id free,
        )

pub unregister_buffer_lem :
    (h : Context) (id : ℕ) → Distinct h.frame_buffers → Unregistered h id (unregister_buffer h id)
unfolding unregister_buffer
unregister_buffer_lem h id d =
    if-cases (Unregistered h id) _ _ _
      (λ k. (k, remove-Distinct h.frame_buffers id d, λ j. find_buffer-remove h.frame_buffers id j))
      (λ k. eq-none_of_not (find_buffer h.frame_buffers id) k)

-- With every id in the list once, what registers under a free id and is unregistered again leaves the
-- map as it was.
pub find_buffer-unregister-register :
    (h h' : Context) (b : Buffer) (id : ℕ)
    → Distinct h.frame_buffers
    → register_buffer h b ≡ some h'
    → (h'' : Context) × (unregister_buffer h' b.id ≡ some h'')
      × (find_buffer h''.frame_buffers id ≡ find_buffer h.frame_buffers id)
unfolding unregister_buffer
find_buffer-unregister-register h h' b id d e =
    let (free, d', law) = subst (Registered h b) e (register_buffer_lem h b d) in
    (
      record h' { frame_buffers = remove_frame_buffer h'.frame_buffers (some b.id) },
      ground (arith, law b.id),
      ground (arith, law id, find_buffer-remove h'.frame_buffers b.id id),
    )
