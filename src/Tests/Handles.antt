-- ===== src/Tests/Handles.antt =====
-- The user library: handles, cards, buffers and the searches of /proc.
use evdi.World.{count, holds}
use evdi.Prelude.{
  ◌+◌, some-inj, sym, ◌==◌, if◌then◌else◌, ℕ, zero, suc, ◌<◌, ◌≡◌, ◌≢◌, refl, arith, true, false,
  List, [], ◌∷◌, Option, none, some, replicate, get_or,
}
use evdi.Prelude.Int.{ℤ, pos, negsuc, eq_ℤ}
use mathlib.Core.List.{Memᴰ}
use evdi.Client.{
  Os, Request, Reply, auth_magic, version, version_of, nothing, eacces, Context, Buffer,
}
use evdi.Client.Text.{Bytes, to_int}
use evdi.Client.Procfs.{Process, is_numeric, device_has_master}
use evdi.Client.Cards.{
  PlatformEntry, found, usage_len, is_candidate, get_drm_device_index, search_entries,
}
use evdi.Client.Cards.Unused.{search_entries_lem}
use evdi.Client.Driver.{open_device}
use evdi.Client.Driver.Slave.{Files, traced}
use evdi.Client.Handles.{Library, fresh_context, evdi_open, evdi_close}
use evdi.Client.Handles.Table.{LibraryOk, Opened, evdi_open-Opened, evdi_close_lem}
use evdi.Client.Handles.Open.{fd_of, evdi_open-HoldsHandle}
use evdi.Tests.Clients.{quick_os}

-- a kernel with the driver of a version that fits, whose master is somebody else
abbrev card_ioctl : ℕ → ℕ → Request → ℕ × Reply
card_ioctl s fd (auth_magic _) = (s, record { code = negsuc 0; errno = eacces; payload = nothing })
card_ioctl s fd (version _) = (
  s,
  record {
    code = pos 0;
    errno = 0;
    payload = version_of (record {
      version_major = pos 1;
      version_minor = pos 14;
      version_patchlevel = pos 0;
      name_len = 4;
      name = b'e' ∷ b'v' ∷ b'd' ∷ b'i' ∷ [];
    });
  },
)
card_ioctl s fd _ = (s, record { code = pos 0; errno = 0; payload = nothing })

abbrev card_os : Os ℕ
card_os = record quick_os { ioctl = card_ioctl }

abbrev empty_library : Library
empty_library = record { card_usage = replicate 64 none; handles = λ _. none }

nothing_used : (n d : ℕ) → get_or {A = Option ℕ} (replicate n none) d none ≡ none
nothing_used zero d = refl
nothing_used (suc n) zero = refl
nothing_used (suc n) (suc d) = nothing_used n d

empty_library-LibraryOk : LibraryOk empty_library
empty_library-LibraryOk = record {
  sized = refl;
  used = λ d h e. let unused = nothing_used 64 d in cc;
}

evdi_open-Opened_example :
    Opened empty_library 1 (evdi_open card_os (λ _. none) (pos 7) (some 5) 0 empty_library 1)
evdi_open-Opened_example =
    evdi_open-Opened card_os (λ _. none) (pos 7) (some 5) 0 empty_library 1 empty_library-LibraryOk
      (λ _ _. refl) (omega arith)

-- card 1 is used by handle 5
abbrev one_used : Library
one_used = record {
  card_usage = none ∷ some 5 ∷ replicate 62 none;
  handles = λ h. if 5 == h then some (fresh_context 3 1) else none;
}

one_used-entry :
    (d h : ℕ) → get_or (none ∷ some 5 ∷ replicate 62 none) d none ≡ some h → (h ≡ 5) × (d ≡ 1)
one_used-entry zero h e = cc
one_used-entry (suc zero) h e = (some-inj (sym e), refl)
one_used-entry (suc (suc d)) h e = let unused = nothing_used 62 d in cc

one_used-LibraryOk : LibraryOk one_used
one_used-LibraryOk = record {
  sized = refl;
  used = λ d h e.
      let (same, card) = one_used-entry d h e in (fresh_context 3 1, ground arith, sym card);
}

evdi_close_lem_example :
    let after = (evdi_close card_os 0 one_used (some 5)).1 in
    LibraryOk after
    × ((d : ℕ) → get_or after.card_usage d none ≢ some 5)
    × ((d k : ℕ)
        → k ≢ 5
        → get_or one_used.card_usage d none ≡ some k
        → get_or after.card_usage d none ≡ some k)
evdi_close_lem_example = evdi_close_lem card_os 0 one_used 5 one_used-LibraryOk

abbrev no_files : Files ℕ
no_files = record { state = 0; opens = []; closes = [] }

opens_3 : (open_device (traced card_os) (λ _. none) (pos 7) no_files 1).1 ≡ some 3
unfolding open_device evdi.Client.Ioctl.drm_ioctl evdi.Client.Ioctl.is_interrupted
    evdi.Client.Ioctl.retry evdi.Client.Procfs.xorg_running
opens_3 = refl

evdi_open-HoldsHandle_example :
    let ((f, lib), h) =
      evdi_open (traced card_os) (λ _. none) (pos 7) (some 5) no_files empty_library 1 in
    count 3 f.opens ≡ count 3 f.closes + holds (fd_of lib h) 3 + 0
evdi_open-HoldsHandle_example =
    evdi_open-HoldsHandle card_os (λ _. 0) (λ _. none) (pos 7) (some 5) no_files empty_library 1
      (λ e. let three = opens_3 in cc) (λ _. refl) 3

abbrev card1 : Bytes
card1 = b'c' ∷ b'a' ∷ b'r' ∷ b'd' ∷ b'1' ∷ []

abbrev evdi0 : PlatformEntry
evdi0 = record {
  d_name = b'e' ∷ b'v' ∷ b'd' ∷ b'i' ∷ b'.' ∷ b'0' ∷ [];
  device_link = none;
  drm = some (card1 ∷ []);
}

evdi0-found : search_entries 4096 (replicate 64 none) none (evdi0 ∷ []) ≡ found 1
unfolding search_entries evdi.Client.Text.is_prefix evdi.Client.Text.to_int evdi.Prelude.Int.wrap32
evdi0-found = refl

search_entries_lem_example :
    (entry : PlatformEntry) × Memᴰ entry (evdi0 ∷ [])
    × (is_candidate 4096 (replicate 64 none) none entry ≡ true)
    × (get_drm_device_index entry.drm ≡ pos 1)
    × (1 < usage_len)
    × (get_or {A = Option ℕ} (replicate 64 none) 1 none ≡ none)
search_entries_lem_example =
    search_entries_lem 4096 (replicate 64 none) none (evdi0 ∷ []) 1 evdi0-found

-- "../1-2" and "1-2"
abbrev link : Bytes
link = b'.' ∷ b'.' ∷ b'/' ∷ b'1' ∷ b'-' ∷ b'2' ∷ []

abbrev port : Bytes
port = b'1' ∷ b'-' ∷ b'2' ∷ []
