-- ===== src/Fb/Console/Mmap.antt =====
-- Which memory of the console's framebuffer a process is given.
use evdi.Prelude.{
  ℕ, zero, suc, ◌+◌, ◌-◌, ◌*◌, ◌/◌, ◌%◌, ◌^◌, ◌<◌, ◌≤◌, ◌≡◌, refl, arith, Bool, true, not, ◌||◌,
  List, [], ◌∷◌, Option, ltb, if◌then◌else◌, if-cases, is_some,
}
use evdi.Errno.{Status}
use evdi.Gem.{page_size}
use evdi.Fb.Console.{FbInfo, Area, map_pages, fb_mmap}

-- every page lies between the two addresses
abbrev pub Between : ℕ → ℕ → List (ℕ × ℕ) → Type 0
Between low top [] = Unit {0}
Between low top ((_, pos) ∷ pages) = (low ≤ pos) × (pos + 4096 ≤ top) × Between low top pages

-- the loop ended, with pages inside
abbrev pub Inside : ℕ → ℕ → List (ℕ × ℕ) × Option Status → Type 0
Inside low top r = Between low top r.0 × (is_some r.1 ≡ true)

map_pages-Inside :
    (remaps : ℕ → Bool) (low top fuel size start pos pages : ℕ)
    → low ≤ pos
    → pos + 4096 * pages ≡ top
    → top < 2 ^ 64
    → size ≤ 4096 * pages
    → size ≤ 4096 * fuel
    → Inside low top (map_pages remaps fuel size start pos)
unfolding map_pages
map_pages-Inside remaps low top zero size start pos pages l e t s f = (tt, ground arith)
map_pages-Inside remaps low top (suc fuel) size start pos pages l e t s f =
    if-cases (Inside low top) (not (ltb 0 size)) _ _ (λ _. (tt, refl))
      (λ some_size.
        if-cases (Inside low top) (not (remaps start)) _ _ (λ _. (tt, refl))
          (λ _.
            let next = if ltb page_size size then size - page_size else 0 in
            let (rest, ended) =
              map_pages-Inside remaps low top fuel next ((start + page_size) % 2 ^ 64)
                ((pos + page_size) % 2 ^ 64) (pages - 1) (ground arith) (ground arith) t
                (ground arith) (ground arith) in
            ((l, ground arith, rest), ended)))

pages_enough : (size : ℕ) → size ≤ 4096 * (size / 4096 + 1)
pages_enough size = omega arith

-- what is left of the memory behind the offset is whole pages, and has room for the area
whole_pages :
    (start len offset size : ℕ)
    → len % 4096 ≡ 0
    → offset % 4096 ≡ 0
    → offset ≤ len
    → size ≤ len - offset
    → start + len < 2 ^ 64
    → let pages = (len - offset) / 4096 in
      let pos = (start + offset) % 2 ^ 64 in
      (start ≤ pos) × (pos + 4096 * pages ≡ start + len) × (size ≤ 4096 * pages)
whole_pages start len offset size w a l r s = (omega arith, omega arith, omega arith)

-- Where the console's memory is whole pages below 2 ^ 64, a process that maps it, at whatever offset and
-- length, is only ever given pages inside it, and the loop ends on the fuel it has, a page for each 4096
-- bytes of the area and one more.
pub fb_mmap-Inside :
    (info : FbInfo) (vma : Area) (remaps : ℕ → Bool)
    → info.smem_len % 4096 ≡ 0
    → info.smem_start + info.smem_len < 2 ^ 64
    → Inside info.smem_start (info.smem_start + info.smem_len) (fb_mmap info vma remaps)
unfolding fb_mmap
fb_mmap-Inside info vma remaps whole small =
    let size = (vma.vm_end + 2 ^ 64 - vma.vm_start) % 2 ^ 64 in
    let offset = vma.vm_pgoff * page_size % 2 ^ 64 in
    let Within = Inside info.smem_start (info.smem_start + info.smem_len) in
    if-cases Within (ltb ((2 ^ 64 - 1) / page_size) vma.vm_pgoff) _ _ (λ _. (tt, refl))
      (λ fits.
        if-cases Within (ltb info.smem_len offset || ltb (info.smem_len - offset) size) _ _
          (λ _. (tt, refl))
          (λ inside.
            let low : offset ≤ info.smem_len = ground arith in
            let room : size ≤ info.smem_len - offset = ground arith in
            let aligned : offset % 4096 ≡ 0 = omega arith in
            let (first, last, wide) =
              whole_pages info.smem_start info.smem_len offset size whole aligned low room small in
            map_pages-Inside remaps info.smem_start (info.smem_start + info.smem_len)
              (size / page_size + 1) size vma.vm_start ((info.smem_start + offset) % 2 ^ 64)
              ((info.smem_len - offset) / 4096) first last small wide (pages_enough size)))
