-- ===== src/Mm/Tests.antt =====
-- A small memory: runs of the page manager, and its theorems at them.
use dancy.Base.{
  ℕ, zero, suc, ◌*◌, ◌/◌, ◌^◌, ◌≤◌, ◌<◌, ◌≡◌, ◌≢◌, ◌⊎◌, refl, ap, true, arith, ◌∷◌, replicate,
  length-replicate,
}
use dancy.Base.Int.{pos}
use dancy.Mm.{
  Manager, byte_at, take_page, skip_full, has_bit, take_pages, align_down, mm_bitmap_test,
  test_loop, mm_get_count, mm_alloc_page, mm_alloc_pages, mm_free_page, mm_free_pages,
  mm_available_pages, normal, addr20,
}
use dancy.Mm.Frames.{in_use, AllBytes}
use dancy.Mm.Counts.{ceiling}
use dancy.Mm.Alloc.{IsValid}
use dancy.Mm.Page.{Allocates, Frees, mm_alloc_page-Allocates, mm_free_page-Frees}
use dancy.Mm.Pages.{AllocatesBlock}
use dancy.Mm.AllocPages.{mm_alloc_pages-AllocatesBlock}
use dancy.Mm.FreePages.{IsBlock, FreesBlock, mm_free_pages-FreesBlock, mm_free_pages-mm_alloc_pages}
use dancy.Mm.Available.{free_below, mm_available_pages-free_below}

full_bytes-AllBytes : (n : ℕ) → AllBytes (replicate n 0xff)
full_bytes-AllBytes zero = tt
full_bytes-AllBytes (suc n) = (omega arith, full_bytes-AllBytes n)

full_bytes-byte_at : (n i : ℕ) → i < n → byte_at (replicate n 0xff) i ≡ 0xff
full_bytes-byte_at zero i h = absurd (omega arith)
full_bytes-byte_at (suc n) zero h = refl
full_bytes-byte_at (suc n) (suc i) h = full_bytes-byte_at n i (omega arith)

-- Frames 4 to 7 and 10 are free.
abbrev memory : Manager
memory = record {
  ready = true;
  size = 4096;
  used = 4094;
  bitmap = 0x0f ∷ (0xfb ∷ replicate 4094 0xff);
}

memory_full : (i : ℕ) → 2 ≤ i → i < 4096 → byte_at (0x0f ∷ (0xfb ∷ replicate 4094 0xff)) i ≡ 0xff
memory_full zero h h' = absurd (omega arith)
memory_full (suc zero) h h' = absurd (omega arith)
memory_full (suc (suc i)) h h' = full_bytes-byte_at 4094 i (omega arith)

memory-IsValid : IsValid memory
memory-IsValid = record {
  length_is = ap (λ n. suc (suc n)) (length-replicate {A = ℕ} 4094 0xff);
  bytes = (omega arith, (omega arith, full_bytes-AllBytes 4094));
  pages = refl;
  some_size = omega arith;
  small = omega arith;
  used_le = omega arith;
  full = memory_full;
}

runs : Unit {0}
unfolding mm_alloc_page take_page skip_full has_bit mm_get_count mm_alloc_pages take_pages
    align_down mm_bitmap_test test_loop
runs = tt

alloc_page_run : (mm_alloc_page true memory).0 ≡ 10 * 0x1000
unfolding runs
alloc_page_run = refl

some_page : (mm_alloc_page true memory).0 ≢ 0
unfolding runs
some_page h = absurd (omega arith)

-- The frames 6 and 7.
alloc_pages_run : (mm_alloc_pages true normal (pos 1) memory).0 ≡ 6 * 0x1000
unfolding runs
alloc_pages_run = refl

pair : mm_get_count (pos 1) ≢ 0
unfolding runs
pair h = absurd (omega arith)

some_pages : (mm_alloc_pages true normal (pos 1) memory).0 ≢ 0
unfolding runs
some_pages h = absurd (omega arith)

mm_alloc_page-Allocates_example :
    Allocates memory (mm_alloc_page true memory).0 (mm_alloc_page true memory).1
mm_alloc_page-Allocates_example = mm_alloc_page-Allocates memory refl memory-IsValid

mm_free_page-Frees_example :
    ((0 < 0x9abc / 2 ^ 12)
      × (0x9abc / 2 ^ 12 < memory.size * 8)
      × Frees memory (0x9abc / 2 ^ 12) (mm_free_page true 0x9abc memory))
    ⊎ (((0x9abc / 2 ^ 12 ≡ 0) ⊎ (memory.size * 8 ≤ 0x9abc / 2 ^ 12))
        × (mm_free_page true 0x9abc memory ≡ memory))
mm_free_page-Frees_example = mm_free_page-Frees memory 0x9abc refl memory-IsValid

mm_alloc_pages-AllocatesBlock_example :
    let r = mm_alloc_pages true normal (pos 1) memory in
    AllocatesBlock normal (mm_get_count (pos 1)) memory r.0 r.1
mm_alloc_pages-AllocatesBlock_example =
    mm_alloc_pages-AllocatesBlock normal (pos 1) memory refl memory-IsValid pair

mm_free_pages-FreesBlock_example :
    (IsBlock memory (0x2000 / 2 ^ 12) (mm_get_count (pos 1))
      × FreesBlock memory
          (0x2000 / 2 ^ 12)
          (mm_get_count (pos 1))
          (mm_free_pages true 0x2000 (pos 1) memory))
    ⊎ ((¬ IsBlock memory (0x2000 / 2 ^ 12) (mm_get_count (pos 1)))
        × (mm_free_pages true 0x2000 (pos 1) memory ≡ memory))
mm_free_pages-FreesBlock_example =
    mm_free_pages-FreesBlock memory 0x2000 (pos 1) refl memory-IsValid pair

mm_free_pages-mm_alloc_pages_example :
    let (page, m') = mm_alloc_pages true normal (pos 1) memory in
    IsValid (mm_free_pages true page (pos 1) m')
    × ((g : ℕ) → in_use (mm_free_pages true page (pos 1) m').bitmap g ≡ in_use memory.bitmap g)
mm_free_pages-mm_alloc_pages_example =
    mm_free_pages-mm_alloc_pages normal (pos 1) memory refl memory-IsValid pair some_pages

mm_available_pages-free_below_example :
    mm_available_pages true addr20 memory
    ≡ free_below memory.bitmap (ceiling addr20 (memory.size * 8))
mm_available_pages-free_below_example = mm_available_pages-free_below addr20 memory refl
