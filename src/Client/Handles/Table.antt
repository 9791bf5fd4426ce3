-- ===== src/Client/Handles/Table.antt =====
-- The table of used cards: what it says of the handles that are allocated.
use evdi.Prelude.{
  ℕ, zero, suc, ◌<◌, ◌≡◌, ◌≢◌, refl, sym, ap, ◌∙◌, arith, Bool, true, false, List, [], ◌∷◌, Option,
  none, some, ◌==◌, if◌then◌else◌, if-cases, length, length-set, get_or, get_or-set,
  get_or-set_self, get_or-set_ne, same_id, Bool-cases, inl, inr, ltb,
}
use evdi.Prelude.Int.{ℤ}
use evdi.Client.{Os, Context}
use evdi.Client.Procfs.{Process}
use evdi.Client.Driver.{open_device}
use evdi.Client.Handles.{
  Library, fresh_context, add_handle, forget_usage, make_handle, with_descriptor, evdi_open,
  evdi_close,
}

-- Every entry of the table is a handle that is allocated, for the card of that index.
pub record LibraryOk (lib : Library) : Type 0 where
  pub sized : length lib.card_usage ≡ 64
  pub used :
      (d h : ℕ)
      → get_or lib.card_usage d none ≡ some h
      → (ctx : Context) × (lib.handles h ≡ some ctx) × (ctx.device_index ≡ d)

add_handle-LibraryOk :
    (lib : Library) (h fd device : ℕ)
    → LibraryOk lib
    → lib.handles h ≡ none
    → device < 64
    → LibraryOk (add_handle lib h fd device)
unfolding add_handle
add_handle-LibraryOk lib h fd device inv fresh small = record {
  sized = length-set lib.card_usage device (some h) ∙ inv.sized;
  used = λ d k e.
      let entry = get_or-set lib.card_usage device d (some h) none (omega (arith, inv.sized)) in
      elim (Bool-cases (device == d)) [
        | inl same ↦ (fresh_context fd device, ground (arith, entry), ground arith)
        | inr other ↦
            let (ctx, kept, index) = inv.used d k (ground (arith, entry)) in
            (ctx, ground arith, index)
      ];
}

get_or-forget :
    (h : ℕ) (usage : List (Option ℕ)) (d : ℕ)
    → get_or (forget_usage h usage) d none
      ≡ (if same_id (get_or usage d none) (some h) then none else get_or usage d none)
unfolding forget_usage
get_or-forget h [] d = refl
get_or-forget h (x ∷ usage) zero = refl
get_or-forget h (x ∷ usage) (suc d) = get_or-forget h usage d

length-forget : (h : ℕ) (usage : List (Option ℕ)) → length (forget_usage h usage) ≡ length usage
unfolding forget_usage
length-forget h [] = refl
length-forget h (x ∷ usage) = ap suc (length-forget h usage)

same_id_iff : (o : Option ℕ) (h : ℕ) → same_id o (some h) ≡ true → o ≡ some h
same_id_iff none h e = cc
same_id_iff (some k) h e = ground arith

-- an entry that is left is another handle's
kept_entry :
    (h k d : ℕ) (usage : List (Option ℕ))
    → get_or (forget_usage h usage) d none ≡ some k
    → (get_or usage d none ≡ some k) × (k ≢ h)
kept_entry h k d usage e = go (get_or usage d none) (sym (get_or-forget h usage d) ∙ e)
  where
    go : (o : Option ℕ) → (if same_id o (some h) then none else o) ≡ some k → (o ≡ some k) × (k ≢ h)
    go none e' = cc
    go (some m) e' = (ground arith, λ q. ground arith)

-- After closing a handle, no entry of the table is that handle, every other entry is as it was, and the
-- table still says of each of its entries an allocated handle for that card.
pub evdi_close_lem :
    {S : Type 0} (os : Os S) (s : S) (lib : Library) (h : ℕ)
    → LibraryOk lib
    → let after = (evdi_close os s lib (some h)).1 in
      LibraryOk after
      × ((d : ℕ) → get_or after.card_usage d none ≢ some h)
      × ((d k : ℕ)
          → k ≢ h
          → get_or lib.card_usage d none ≡ some k
          → get_or after.card_usage d none ≡ some k)
unfolding evdi_close
evdi_close_lem os s lib h inv = (
  record {
    sized = length-forget h lib.card_usage ∙ inv.sized;
    used = λ d k e.
        let (entry, other) = kept_entry h k d lib.card_usage e in
        let (ctx, kept, index) = inv.used d k entry in (ctx, ground arith, index);
  },
  λ d e. (kept_entry h h d lib.card_usage e).1 refl,
  λ d k other e. ground (arith, get_or-forget h lib.card_usage d),
)

-- what opening a card may do to the table
abbrev pub Opened : {S : Type 0} → Library → ℕ → (S × Library) × Option ℕ → Type 0
Opened lib device ((s, after), none) = after ≡ lib
Opened lib device ((s, after), some h) =
    (get_or after.card_usage device none ≡ some h)
    × LibraryOk after
    × ((d : ℕ) → d ≢ device → get_or after.card_usage d none ≡ get_or lib.card_usage d none)

-- Opening a card of the table's range, with a handle that was not allocated: the table stays true of its
-- entries; it has the new handle for the card and its other entries as they were, or, where there is no
-- handle, nothing is changed.
pub evdi_open-Opened :
    {S : Type 0} (os : Os S) (proc : S → Option (List Process)) (myself : ℤ) (alloc : Option ℕ)
    (s : S) (lib : Library) (device : ℕ)
    → LibraryOk lib
    → ((h : ℕ) → alloc ≡ some h → lib.handles h ≡ none)
    → device < 64
    → Opened lib device (evdi_open os proc myself alloc s lib device)
unfolding evdi_open with_descriptor make_handle
evdi_open-Opened {S} os proc myself alloc s lib device inv fresh small =
    opened (open_device os proc myself s device)
  where
    made :
        (s' : S) (fd : ℕ) (usable : Bool) (h : Option ℕ)
        → alloc ≡ h
        → Opened lib device (make_handle os proc myself alloc s' lib fd device usable h)
    made s' fd false h e = refl
    made s' fd true none e = refl
    made s' fd true (some h) e = (
      get_or-set_self lib.card_usage device (some h) none (omega (arith, inv.sized)),
      add_handle-LibraryOk lib h fd device inv (fresh h e) small,
      λ d other. get_or-set_ne lib.card_usage device d (some h) none (λ q. other (sym q)),
    )

    opened :
        (r : S × Option ℕ)
        → Opened lib device (with_descriptor os proc myself alloc r.0 lib r.1 device)
    opened (s', none) = refl
    opened (s', some fd) =
        if-cases {A = (S × Library) × Option ℕ} (Opened lib device) (ltb 0 fd) _ ((s', lib), none)
          (λ _. made _ fd _ alloc refl) (λ _. refl)
