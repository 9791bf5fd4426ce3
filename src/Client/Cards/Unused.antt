-- ===== src/Client/Cards/Unused.antt =====
-- What the search for a card finds, and how it compares a parent's name.
use evdi.Prelude.{
  eq-none_of_not, ℕ, ◌<◌, ◌≡◌, refl, subst, arith, true, not, List, [], ◌∷◌, Option, none, ltb,
  if-cases, get_or, is_some,
}
use evdi.Prelude.Int.{ℤ, pos, negsuc}
use mathlib.Core.List.{Memᴰ}
use evdi.Client.Text.{Bytes}
use evdi.Client.Cards.{
  PlatformEntry, Search, aborted, not_found, found, usage_len, get_drm_device_index, is_candidate,
  take_card, search_entries,
}

module _ (gap : ℕ) (usage : List (Option ℕ)) (parent : Option Bytes) where
  -- a card of the entry that the table does not use
  abbrev Offers : List PlatformEntry → Search → Type 0
  Offers entries aborted = Unit {0}
  Offers entries not_found = Unit {0}
  Offers entries (found d) =
      (entry : PlatformEntry) × Memᴰ entry entries
      × (is_candidate gap usage parent entry ≡ true)
      × (get_drm_device_index entry.drm ≡ pos d)
      × (d < usage_len)
      × (get_or usage d none ≡ none)

  weaken-Offers :
      (x : PlatformEntry) (entries : List PlatformEntry) (r : Search)
      → Offers entries r
      → Offers (x ∷ entries) r
  weaken-Offers x entries aborted o = tt
  weaken-Offers x entries not_found o = tt
  weaken-Offers x entries (found d) (entry, m, rest, index, small, free) =
      (entry, Memᴰ.tail m, rest, index, small, free)

  take_card-Offers :
      (x : PlatformEntry) (entries : List PlatformEntry) (index : ℤ) (rest : Search)
      → is_candidate gap usage parent x ≡ true
      → get_drm_device_index x.drm ≡ index
      → Offers (x ∷ entries) rest
      → Offers (x ∷ entries) (take_card gap usage parent index rest)
  unfolding take_card
  take_card-Offers x entries (negsuc n) rest c e o = tt
  take_card-Offers x entries (pos d) rest c e o =
      if-cases (Offers (x ∷ entries)) (not (ltb d usage_len)) aborted _ (λ _. tt)
        (λ small.
          if-cases (Offers (x ∷ entries)) (is_some (get_or usage d none)) rest (found d) (λ _. o)
            (λ free.
              (x, Memᴰ.head refl, c, e, ground arith, eq-none_of_not (get_or usage d none) free)))

  search_entries-Offers :
      (entries : List PlatformEntry) → Offers entries (search_entries gap usage parent entries)
  unfolding search_entries
  search_entries-Offers [] = tt
  search_entries-Offers (x ∷ entries) =
      let more = weaken-Offers x entries _ (search_entries-Offers entries) in
      if-cases (Offers (x ∷ entries)) (is_candidate gap usage parent x) _ _
        (λ c. take_card-Offers x entries _ _ c refl more) (λ _. more)

-- A card that the search finds is one that no handle uses, in the table's range, and the last card of a
-- device of this driver with the parent that was asked for.
pub search_entries_lem :
    (gap : ℕ) (usage : List (Option ℕ)) (parent : Option Bytes) (entries : List PlatformEntry)
    (d : ℕ)
    → search_entries gap usage parent entries ≡ found d
    → (entry : PlatformEntry) × Memᴰ entry entries
      × (is_candidate gap usage parent entry ≡ true)
      × (get_drm_device_index entry.drm ≡ pos d)
      × (d < usage_len)
      × (get_or usage d none ≡ none)
search_entries_lem gap usage parent entries d e =
    subst (Offers gap usage parent entries) e (search_entries-Offers gap usage parent entries)
