-- ===== src/Heap/Tests.antt =====
-- A heap with two blocks: runs of heap.c, and its theorems at it.
use dancy.Base.{ℕ, zero, suc, ◌+◌, ◌^◌, ◌≡◌, ◌≢◌, refl, true, arith, List, [], ◌∷◌, some}
use dancy.Heap.{
  Heap, is_used, address, used_entry, search_loop, store_section, store_entry, grow_map,
  release_loop, merge_loop, heap_aligned_alloc, heap_free, heap_alloc_static_page, calloc, strdup,
}
use dancy.Heap.Sections.{owned}
use dancy.Heap.Alloc.{IsValid, Allocates, heap_aligned_alloc-Allocates}
use dancy.Heap.Free.{FreesHeap, heap_free-FreesHeap, heap_free-heap_aligned_alloc}
use dancy.Heap.Pages.{TakesPage, heap_alloc_static_page-TakesPage}
use dancy.Heap.Strdup.{Copies, strdup-Copies}
use dancy.Heap.Calloc.{Zeroes, calloc-Zeroes}

runs : Unit {0}
unfolding is_used address used_entry search_loop store_section store_entry grow_map release_loop
    merge_loop heap_aligned_alloc heap_free calloc heap_alloc_static_page
runs = tt

-- Sections at 0x101000 (free), 0x180000 (in use), 0x190000 (free) and 0x1f0000 (in use), up to 0x200000.
abbrev blocks : Heap
blocks = record {
  map_addr = 0x100000;
  map_size = 0x1000;
  map = 0x101000 ∷ (0x180001 ∷ (0x190000 ∷ (0x1f0001 ∷ (0x200000 ∷ []))));
}

blocks-IsValid : IsValid blocks
unfolding runs
blocks-IsValid = record {
  ordered = (
    (omega arith, refl),
    omega arith,
    (
      (omega arith, refl),
      omega arith,
      (
        (omega arith, refl),
        omega arith,
        ((omega arith, refl), omega arith, ((omega arith, refl), tt, tt)),
      ),
    ),
  );
  two = omega arith;
  pages = refl;
  room = omega arith;
  after_map = refl;
}

alloc_run : heap_aligned_alloc 0x40 100 blocks ≡ (
  0x1eff80,
  record blocks {
    map = 0x101000 ∷ (0x180001 ∷ (0x190000 ∷ (0x1eff81 ∷ (0x1f0001 ∷ (0x200000 ∷ [])))));
  },
)
unfolding runs
alloc_run = refl

-- The three sections from 0x101000 on become one.
free_run :
    heap_free 0x180000 blocks ≡ record blocks { map = 0x101000 ∷ (0x1f0001 ∷ (0x200000 ∷ [])) }
unfolding runs
free_run = refl

got_block : (heap_aligned_alloc 0x40 100 blocks).0 ≢ 0
unfolding runs
got_block h = absurd (omega arith)

got_zeroes : (calloc true 10 10 (λ x. 7) blocks).0 ≢ 0
unfolding runs
got_zeroes h = absurd (omega arith)

-- 2 ^ 63 times 2 wraps to 0, and 2 ^ 63 + 1 times 2 to 2.
overflow_run : (calloc true (2 ^ 63 + 1) 2 (λ x. 7) blocks).0 ≡ 0
unfolding runs
overflow_run = refl

heap_aligned_alloc-Allocates_example :
    let r = heap_aligned_alloc 0x40 100 blocks in Allocates 0x40 100 blocks r.0 r.1
heap_aligned_alloc-Allocates_example =
    heap_aligned_alloc-Allocates 0x40 100 blocks blocks-IsValid (omega arith)

heap_free-FreesHeap_example : FreesHeap 0x180000 blocks (heap_free 0x180000 blocks)
heap_free-FreesHeap_example = heap_free-FreesHeap 0x180000 blocks blocks-IsValid

heap_free-heap_aligned_alloc_example :
    let (addr, h') = heap_aligned_alloc 0x40 100 blocks in
    IsValid (heap_free addr h') × ((x : ℕ) → owned (heap_free addr h').map x ≡ owned blocks.map x)
heap_free-heap_aligned_alloc_example =
    heap_free-heap_aligned_alloc 0x40 100 blocks blocks-IsValid (omega arith) got_block

-- The page at 0x100000 is filled with 0.
page_run :
    let r = heap_alloc_static_page true (λ x. 7) blocks in
    r.0 ∷ r.1 0xfffff ∷ r.1 0x100000 ∷ r.1 0x100fff ∷ r.1 0x101000 ∷ (r.2).map_addr ∷ []
    ≡ (0x100000 ∷ 7 ∷ 0 ∷ 0 ∷ 7 ∷ 0x101000 ∷ [])
unfolding runs
page_run = refl

heap_alloc_static_page-TakesPage_example :
    let r = heap_alloc_static_page true (λ x. 7) blocks in TakesPage (λ x. 7) blocks r.0 r.1 r.2
heap_alloc_static_page-TakesPage_example =
    heap_alloc_static_page-TakesPage (λ x. 7) blocks blocks-IsValid

calloc-Zeroes_example :
    let r = calloc true 10 10 (λ x. 7) blocks in Zeroes 10 10 (λ x. 7) blocks r.0 r.1 r.2
calloc-Zeroes_example = calloc-Zeroes 10 10 (λ x. 7) blocks blocks-IsValid (omega arith) got_zeroes

abbrev used_from : ℕ → ℕ → List ℕ
used_from zero a = (a + 0xff0) ∷ []
used_from (suc n) a = (a + 1) ∷ used_from n (a + 0x10)

-- A map with 1024 entries, which is full, and a free section of 0x2000 bytes at its end.
abbrev full_map : Heap
full_map = record {
  map_addr = 0x100000;
  map_size = 0x1000;
  map = 0x101000 ∷ used_from 1022 0x103000;
}

-- The map grows up to 0x102000, over the block that is returned.
overlap_run :
    let r = heap_aligned_alloc 16 0x1ff0 full_map in
    (r.0 ≡ 0x101010) × ((r.1).map_addr + (r.1).map_size ≡ 0x102000)
unfolding runs
overlap_run = (refl, refl)

got_copy : (strdup true (some (0x61 ∷ 0x62 ∷ [])) (λ x. 7) blocks).0 ≢ 0
unfolding runs strdup
got_copy h = absurd (omega arith)

strdup-Copies_example :
    let r = strdup true (some (0x61 ∷ 0x62 ∷ [])) (λ x. 7) blocks in
    Copies (0x61 ∷ 0x62 ∷ []) (λ x. 7) blocks r.0 r.1 r.2
strdup-Copies_example =
    strdup-Copies (0x61 ∷ 0x62 ∷ []) (λ x. 7) blocks blocks-IsValid (omega arith) got_copy
