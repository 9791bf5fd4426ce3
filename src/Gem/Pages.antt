-- ===== src/Gem/Pages.antt =====
-- Pinning, mapping and faults.
use evdi.Prelude.{
  ◌||◌, ℕ, ◌+◌, ◌-◌, ◌/◌, ◌%◌, ◌^◌, ◌≤◌, ◌<◌, ◌≡◌, ◌≢◌, true, false, none, some, List, length,
  arith, is_some, get_elem?, zero, suc, ◌∷◌, [], if◌then◌else◌, ◌==◌,
}
use evdi.Errno.{ok, Result, einval, is_ok, Errno, err, Status, done, enomem}
use evdi.Gem.{
  gem_free_object, DmaBuf, gem_mmap, evdi_dma_buf_vmap_unlocked, is_xe_gem_ttm_object_without_vmap,
  GemObject, MapEnv, page_size, page_count, pin_pages, unpin_pages, gem_vmap, gem_vunmap, gem_fault,
  drm_gem_object_use_import_attach,
}

-- Pages are there while they are pinned, and the count has not run full.
pub record IsPinned (obj : GemObject) : Type 0 where
  pub held : 0 < obj.pages_pin_count → is_some obj.pages ≡ true
  pub small : obj.pages_pin_count + 1 < 2 ^ 32

-- For an object that has pages while they are pinned, and whose count is not full,
-- `evdi_pin_pages` raises the count by one, has pages and keeps those that were pinned; or it
-- fails and leaves the object as it was.
pub pin_pages_lem :
    (env : MapEnv) (obj : GemObject)
    → IsPinned obj
    → let (status, after) = pin_pages env obj in
      (status ≡ done
        → (after.pages_pin_count ≡ obj.pages_pin_count + 1)
          × (is_some after.pages ≡ true)
          × (0 < obj.pages_pin_count → after.pages ≡ obj.pages))
      × ((e : Errno) → status ≡ err e → after ≡ obj)
unfolding pin_pages
pin_pages_lem env obj v = (λ h. ground arith, λ e h. ground arith)

-- An unpin after a pin gives the count back, and drops the pages with the last pin.
pub unpin-pin :
    (env : MapEnv) (obj : GemObject)
    → IsPinned obj
    → (pin_pages env obj).0 ≡ done
    → let after = unpin_pages (pin_pages env obj).1 in
      (after.pages_pin_count ≡ obj.pages_pin_count)
      × (after.pages ≡ (if obj.pages_pin_count == 0 then none else obj.pages))
unfolding pin_pages unpin_pages
unpin-pin env obj v h = ground arith

-- For an object that has pages while they are pinned, and whose count is not full, a mapping
-- made and taken down again leaves the count of pins as it was, and no mapping.
pub vunmap-vmap :
    (env : MapEnv) (obj : GemObject)
    → IsPinned obj
    → (gem_vmap env obj).0 ≡ done
    → let after = gem_vunmap (gem_vmap env obj).1 in
      (after.pages_pin_count ≡ obj.pages_pin_count) × (after.vmapping ≡ none)
unfolding gem_vmap gem_vunmap
vunmap-vmap env obj v h = ground arith

-- Where the pages of an object that is not mapped by its exporter are pinned but cannot be
-- mapped, `evdi_gem_vmap` gives -ENOMEM with one pin more left behind.
pub vmap_leaks_pin :
    (env : MapEnv) (obj : GemObject)
    → IsPinned obj
    → drm_gem_object_use_import_attach obj ≡ false
    → (pin_pages env obj).0 ≡ done
    → ((pages : List ℕ) (n : ℕ) → env.vmap_pages pages n ≡ none)
    → ((gem_vmap env obj).0 ≡ err enomem)
      × ((gem_vmap env obj).1.pages_pin_count ≡ obj.pages_pin_count + 1)
unfolding gem_vmap
vmap_leaks_pin env obj v u h broken = grind arith

get_elem?-in_range : (xs : List ℕ) (i : ℕ) → i < length xs → get_elem? xs i ≢ none
get_elem?-in_range [] i h e = absurd (omega arith)
get_elem?-in_range (x ∷ xs) zero h e = cc
get_elem?-in_range (x ∷ xs) (suc i) h e = get_elem?-in_range xs i (omega arith) e

-- A fault reads inside the page array, if the object has a page for each of its bytes.
pub gem_fault_in_range :
    (insert_page : ℕ → Status) (obj : GemObject) (pages : List ℕ) (address vm_start : ℕ)
    → obj.pages ≡ some pages
    → page_count obj.size ≤ length pages
    → gem_fault insert_page obj address vm_start ≢ none
unfolding gem_fault
gem_fault_in_range insert_page obj pages address vm_start e h =
    ground (arith, get_elem?-in_range pages ((address + 2 ^ 64 - vm_start) % 2 ^ 64 / page_size))

-- A freed object has neither a mapping nor pages, whatever it had.
pub gem_free_lem :
    (obj : GemObject)
    → ((gem_free_object obj).vmapping ≡ none) × ((gem_free_object obj).pages ≡ none)
unfolding gem_free_object
gem_free_lem obj = ground arith

-- An object that is mapped to user space is not an import, and its pages are pinned; an import is
-- refused with its pages pinned all the same.
pub gem_mmap_lem :
    (env : MapEnv) (created : Result ℕ) (obj : GemObject)
    → IsPinned obj
    → ((offset : ℕ)
        → (gem_mmap env created (some obj)).0 ≡ ok offset
        → (is_some obj.import_attach ≡ false) × (created ≡ ok offset))
      × (is_some obj.import_attach ≡ true
          → (pin_pages env obj).0 ≡ done
          → gem_mmap env created (some obj) ≡ (err einval, some (pin_pages env obj).1))
unfolding gem_mmap
gem_mmap_lem env created obj v = (λ offset h. ground arith, λ i h. ground arith)

-- A buffer of another exporter is mapped if either way to map it succeeds, and only then.
pub dma_buf_vmap_lem :
    (env : MapEnv) (dmabuf : DmaBuf)
    → is_xe_gem_ttm_object_without_vmap dmabuf ≡ true
    → is_ok (evdi_dma_buf_vmap_unlocked env dmabuf)
      ≡ (is_ok (env.ttm_vmap dmabuf) || is_ok (env.dma_buf_vmap dmabuf))
unfolding evdi_dma_buf_vmap_unlocked
dma_buf_vmap_lem env dmabuf h = ground arith
