-- ===== src/Gem.antt =====
-- Buffer objects: `struct evdi_gem_object` and module/evdi_gem.c. An operation returns the changed
-- object; what the kernel answers is a parameter (`MapEnv`). Sizes and counts are `unsigned int`s or
-- `size_t`s, and wrap where the source's do.
pub mod Pages
pub mod Dumb
pub mod Handles
use Prim.Native.String.{String}
use Prim.Native.Char.{code}
use text.Mathlib.Text.{◌==◌ as str_eq}
use evdi.Prelude.{
  ℕ, ◌+◌, ◌-◌, ◌*◌, ◌/◌, ◌%◌, ◌^◌, Bool, true, false, not, ◌&&◌, ◌||◌, List, [], ◌∷◌, Option, none,
  some, ltb, leb, ◌==◌, if◌then◌else◌, is_some, get_elem?, length,
}
use evdi.Errno.{
  Errno, Result, ok, err, Status, done, einval, enomem, enoent, eagain, erestartsys, ebusy,
}

abbrev pub page_size : ℕ
page_size = 4096

-- the bytes at a kernel address, by their offsets
abbrev pub Memory : Type 0
Memory = ℕ → ℕ

-- A `struct dma_buf`: the name of the owning module, whether its `vmap` is the DRM helper's, and
-- whether the object behind it is there and has a `vmap` of its own.
pub record DmaBuf : Type 0 where
  pub owner : Option String
  pub has_drm_vmap : Bool
  pub has_object : Bool
  pub object_vmap : Bool

-- A mapped address, which may be NULL, as `struct iosys_map` has it.
pub record Mapping : Type 0 where
  pub vaddr : Option Memory
  pub is_iomem : Bool

pub record GemObject : Type 0 where
  pub size : ℕ
  pub import_attach : Option DmaBuf
  pub pages : Option (List ℕ)
  pub pages_pin_count : ℕ
  pub vmapping : Option Memory
  pub vmap_is_iomem : Bool
  pub allow_sw_cursor_rect_updates : Bool

-- What the kernel answers: `drm_gem_get_pages`, `vmap`, `drm_gem_ttm_vmap`, `dma_buf_vmap_unlocked`.
pub record MapEnv : Type 0 where
  pub gem_get_pages : ℕ → Result (List ℕ)
  pub vmap_pages : List ℕ → ℕ → Option Memory
  pub ttm_vmap : DmaBuf → Result Mapping
  pub dma_buf_vmap : DmaBuf → Result Mapping

use_import_attach_of : Option String → Bool
use_import_attach_of none = false
use_import_attach_of (some name) = not (str_eq name "amdgpu")

-- whether an imported buffer is mapped by its exporter
unfoldable pub drm_gem_object_use_import_attach : GemObject → Bool
unfolding use_import_attach_of
drm_gem_object_use_import_attach obj = elim obj.import_attach [
  | none ↦ false
  | some dmabuf ↦ use_import_attach_of dmabuf.owner
]

-- DIV_ROUND_UP(size, PAGE_SIZE)
abbrev pub page_count : ℕ → ℕ
page_count size = (size + page_size - 1) / page_size

gem_get_pages_if : MapEnv → GemObject → Option (List ℕ) → Status × GemObject
gem_get_pages_if env obj (some _) = (done, obj)
gem_get_pages_if env obj none = elim (env.gem_get_pages obj.size) [
  | ok pages ↦ (done, record obj { pages = some pages })
  | err e ↦ (err e, obj)
]

pub gem_get_pages : MapEnv → GemObject → Status × GemObject
unfolding gem_get_pages_if
gem_get_pages env obj = gem_get_pages_if env obj obj.pages

-- The pages go back to the kernel, or the array of an import is freed.
pub gem_put_pages : GemObject → GemObject
gem_put_pages obj = record obj { pages = none }

-- `unsigned int` increment and decrement
abbrev pub incr : ℕ → ℕ
incr n = (n + 1) % 2 ^ 32

abbrev pub decr : ℕ → ℕ
decr n = (n + 2 ^ 32 - 1) % 2 ^ 32

-- the count as it was raised, undone if no pages were got
settle_pin : Status × GemObject → Status × GemObject
settle_pin (ok _, obj) = (done, obj)
settle_pin (err e, obj) = (err e, record obj { pages_pin_count = decr obj.pages_pin_count })

unfoldable pub pin_pages : MapEnv → GemObject → Status × GemObject
unfolding gem_get_pages settle_pin
pin_pages env obj =
    let raised = record obj { pages_pin_count = incr obj.pages_pin_count } in
    if obj.pages_pin_count == 0 then settle_pin (gem_get_pages env raised) else (done, raised)

pub unpin_pages : GemObject → GemObject
unfolding gem_put_pages
unpin_pages obj =
    let lowered = record obj { pages_pin_count = decr obj.pages_pin_count } in
    if lowered.pages_pin_count == 0 then gem_put_pages lowered else lowered

-- `strncmp("xe", name, min(2, strlen(name))) == 0`, on the code points of the name
names_xe : String → Bool
names_xe String.[] = true
names_xe (String.◌∷◌ c String.[]) = code c == b'x'
names_xe (String.◌∷◌ c (String.◌∷◌ d _)) = code c == b'x' && code d == b'e'

owned_by_xe : Option String → Bool
unfolding names_xe
owned_by_xe none = false
owned_by_xe (some name) = names_xe name

pub is_xe_gem_ttm_object_without_vmap : DmaBuf → Bool
unfolding owned_by_xe
is_xe_gem_ttm_object_without_vmap dmabuf =
    dmabuf.has_drm_vmap
    && is_some dmabuf.owner
    && dmabuf.has_object
    && owned_by_xe dmabuf.owner
    && not dmabuf.object_vmap

-- the second attempt, made if the first gave an error
or_else : Result Mapping → Result Mapping → Result Mapping
or_else (ok map) _ = ok map
or_else (err _) second = second

pub evdi_dma_buf_vmap_unlocked : MapEnv → DmaBuf → Result Mapping
unfolding is_xe_gem_ttm_object_without_vmap or_else
evdi_dma_buf_vmap_unlocked env dmabuf =
    or_else (if is_xe_gem_ttm_object_without_vmap dmabuf then env.ttm_vmap dmabuf else err einval)
      (env.dma_buf_vmap dmabuf)

-- the mapping of an import, by its exporter
vmap_import : MapEnv → GemObject → DmaBuf → Status × GemObject
vmap_import env obj dmabuf = elim (evdi_dma_buf_vmap_unlocked env dmabuf) [
  | ok map ↦ (done, record obj { vmapping = map.vaddr; vmap_is_iomem = map.is_iomem })
  | err _ ↦ (err enomem, obj)
]

-- the mapping of pinned pages; on failure the pin is kept
vmap_pinned : MapEnv → Status × GemObject → Status × GemObject
vmap_pinned env (err e, obj) = (err e, obj)
vmap_pinned env (ok _, obj) = elim obj.pages [
  | none ↦ (err enomem, record obj { vmapping = none })
  | some pages ↦ elim (env.vmap_pages pages (page_count obj.size)) [
    | some vaddr ↦ (done, record obj { vmapping = some vaddr })
    | none ↦ (err enomem, record obj { vmapping = none })
  ]
]

vmap_by : MapEnv → GemObject → Bool → Option DmaBuf → Status × GemObject
unfolding vmap_import vmap_pinned pin_pages
vmap_by env obj true (some dmabuf) = vmap_import env obj dmabuf
vmap_by env obj _ _ = vmap_pinned env (pin_pages env obj)

unfoldable pub gem_vmap : MapEnv → GemObject → Status × GemObject
unfolding vmap_by drm_gem_object_use_import_attach
gem_vmap env obj = vmap_by env obj (drm_gem_object_use_import_attach obj) obj.import_attach

pub gem_vunmap : GemObject → GemObject
unfolding drm_gem_object_use_import_attach unpin_pages
gem_vunmap obj =
    if drm_gem_object_use_import_attach obj
    then record obj { vmapping = none }
    else unpin_pages (record obj { vmapping = none })

-- What is left of the object when its memory is freed.
pub gem_free_object : GemObject → GemObject
unfolding gem_vunmap gem_put_pages
gem_free_object obj =
    let unmapped = if is_some obj.vmapping then gem_vunmap obj else obj in
    if is_some unmapped.pages then gem_put_pages unmapped else unmapped

-- The answer of `drm_gem_create_mmap_offset` with the node's offset. Every way out but the failed
-- pin leaves the pages pinned.
gem_mmap_pinned : Result ℕ → Status × GemObject → Result ℕ × GemObject
gem_mmap_pinned created (err e, obj) = (err e, obj)
gem_mmap_pinned created (ok _, obj) =
    if is_some obj.import_attach then (err einval, obj) else (created, obj)

pub gem_mmap : MapEnv → Result ℕ → Option GemObject → Result ℕ × Option GemObject
unfolding gem_mmap_pinned pin_pages
gem_mmap env created none = (err enoent, none)
gem_mmap env created (some obj) =
    let (result, after) = gem_mmap_pinned created (pin_pages env obj) in (result, some after)

pub data Fault : Type 0 where
  sigbus nopage oom : Fault

-- the `switch` on the result of `vm_insert_page`
fault_of : Status → Fault
fault_of (ok _) = nopage
fault_of (err eagain) = nopage
fault_of (err erestartsys) = nopage
fault_of (err ebusy) = nopage
fault_of (err enomem) = oom
fault_of (err _) = sigbus

-- The page at `pages[page_offset]` is inserted; `none` is a read outside the array.
fault_at : (ℕ → Status) → ℕ → ℕ → Option (List ℕ) → Option Fault
unfolding fault_of
fault_at insert_page num_pages page_offset none = some sigbus
fault_at insert_page num_pages page_offset (some pages) =
    if leb num_pages page_offset then some sigbus else elim (get_elem? pages page_offset) [
      | none ↦ none
      | some page ↦ some (fault_of (insert_page page))
    ]

pub gem_fault : (ℕ → Status) → GemObject → ℕ → ℕ → Option Fault
unfolding fault_at
gem_fault insert_page obj address vm_start =
    fault_at insert_page (obj.size / page_size) ((address + 2 ^ 64 - vm_start) % 2 ^ 64 / page_size)
      obj.pages
