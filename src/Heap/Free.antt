-- ===== src/Heap/Free.antt =====
-- `heap_free` on a heap in order.
use dancy.Base.{
  ℕ, suc, ◌-◌, ◌*◌, ◌<◌, ◌≡◌, ◌≢◌, ◌∙◌, sym, ap, refl, not, ◌&&◌, arith, List, length, dec_lt,
}
use dancy.Heap.{Heap, address, entry, used_entry, merge_loop, heap_free, heap_aligned_alloc}
use dancy.Heap.Sections.{Ordered, inside, owned, address_mono}
use dancy.Heap.Store.{Stores}
use dancy.Heap.Alloc.{IsValid, Allocates, refused, no_room, block, heap_aligned_alloc-Allocates}
use dancy.Heap.Release.{set-Clears, Releases, none_there, cleared, release_loop-Releases}
use dancy.Heap.Merge.{MergedBelow, merge_loop-Agrees}

-- What `heap_free` says of the addresses afterwards: the section whose entry is that of `ptr` in use is
-- free, if there is one, and nothing else changes.
pub data Frees (ptr : ℕ) (map map' : List ℕ) : Type 0 where
  unknown :
      ((j : ℕ) → suc j < length map → entry map j ≢ used_entry ptr)
      → ((x : ℕ) → owned map' x ≡ owned map x)
      → Frees ptr map map'
  freed :
      (j : ℕ)
      → suc j < length map
      → entry map j ≡ used_entry ptr
      → ((x : ℕ)
          → owned map' x
            ≡ (owned map x && not (inside (address (entry map j)) (address (entry map (suc j))) x)))
      → Frees ptr map map'

pub record FreesHeap (ptr : ℕ) (h h' : Heap) : Type 0 where
  pub valid : IsValid h'
  pub merged : MergedBelow h'.map (length h'.map - 1)
  pub frees : Frees ptr h.map h'.map

-- What is left in order when the entry has been looked for.
merged_FreesHeap :
    (ptr : ℕ) (h : Heap) (map : List ℕ)
    → IsValid h
    → Ordered map
    → length map ≡ length h.map
    → address (entry map 0) ≡ address (entry h.map 0)
    → ((map' : List ℕ) → ((x : ℕ) → owned map' x ≡ owned map x) → Frees ptr h.map map')
    → FreesHeap ptr h (record h { map = merge_loop (length map) 1 map })
merged_FreesHeap ptr h map v o len first frees =
    let r =
      merge_loop-Agrees (length map) 0 map o (omega (arith, v.two)) (omega arith)
        (λ j lt. absurd (omega arith)) in
    record {
      valid = record {
        ordered = (r.0).ordered;
        two = (r.0).two;
        pages = v.pages;
        room = omega (arith, (r.0).length_le, v.room);
        after_map = omega (arith, (r.0).first, v.after_map);
      };
      merged = r.1;
      frees = frees _ (r.0).owned_is;
    }

free_cases :
    (ptr : ℕ) (h : Heap) (map : List ℕ)
    → IsValid h
    → Releases h.map (length h.map - 1) 0 (used_entry ptr) map
    → FreesHeap ptr h (record h { map = merge_loop (length map) 1 map })
free_cases ptr h map v (none_there e all) = rw e (
    merged_FreesHeap ptr h h.map v v.ordered refl refl
      (λ map' same. unknown (λ j lt. all j (omega arith) (omega arith)) same))
free_cases ptr h map v (cleared j e lo hi is_a) =
    let c = set-Clears h.map j v.ordered (omega arith) in
    rw e (
      merged_FreesHeap ptr h _ v c.ordered c.length_is c.first
        (λ map' same. freed j (omega arith) is_a (λ x. same x ∙ c.owned_is x)))

-- `heap_free` on a heap in order: if the entry of the address as one in use is in the map, other than at its
-- end, then the addresses of that section are free, and all others are in use or free as before; else that
-- holds for all. The heap stays in order, and no two free sections are side by side.
pub heap_free-FreesHeap : (ptr : ℕ) (h : Heap) → IsValid h → FreesHeap ptr h (heap_free ptr h)
unfolding heap_free
heap_free-FreesHeap ptr h v =
    free_cases ptr h _ v (release_loop-Releases (length h.map - 1) 0 (used_entry ptr) h.map)

same_place :
    (map : List ℕ) (i j : ℕ)
    → Ordered map
    → i < length map
    → j < length map
    → address (entry map i) ≡ address (entry map j)
    → i ≡ j
same_place map i j o hi hj e = elim (dec_lt i j) [
  | yes lt ↦ absurd (omega (arith, e, address_mono map i j lt hj o))
  | no ge ↦ elim (dec_lt j i) [
    | yes lt ↦ absurd (omega (arith, e, address_mono map j i lt hi o))
    | no le ↦ omega arith
  ]
]

restores :
    (map map' map'' : List ℕ) (addr e : ℕ)
    → Stores map addr e map'
    → Frees addr map' map''
    → (x : ℕ) → owned map'' x ≡ owned map x
restores map map' map'' addr e s (unknown all same) x = absurd (all s.place s.place_lt s.entry_is)
restores map map' map'' addr e s (freed j lt is_a owned_is) x =
    let at : j ≡ s.place =
      same_place map' j s.place s.ordered (omega arith) (omega (arith, s.place_lt))
        (ap address (is_a ∙ sym s.entry_is)) in
    owned_is x ∙ rw at (ground (arith, s.start_is, s.end_is, s.owned_is x, s.free_before x))

freed_again :
    (alignment size : ℕ) (h : Heap) (addr : ℕ) (h' : Heap)
    → addr ≢ 0
    → Allocates alignment size h addr h'
    → IsValid (heap_free addr h') × ((x : ℕ) → owned (heap_free addr h').map x ≡ owned h.map x)
freed_again alignment size h addr h' ne (refused bad z e) = absurd (ne z)
freed_again alignment size h addr h' ne (no_room ok z e all) = absurd (ne z)
freed_again alignment size h addr h' ne (block e ok some al fits s v) =
    let f = heap_free-FreesHeap addr h' v in (f.valid, restores h.map h'.map _ addr e s f.frees)

-- On a heap in order whose map is not full: freeing the block that `heap_aligned_alloc` returned leaves every
-- address in use or free as it was before, and the heap in order.
pub heap_free-heap_aligned_alloc :
    (alignment size : ℕ) (h : Heap)
    → IsValid h
    → 4 * length h.map < h.map_size
    → (heap_aligned_alloc alignment size h).0 ≢ 0
    → let (addr, h') = heap_aligned_alloc alignment size h in
      IsValid (heap_free addr h') × ((x : ℕ) → owned (heap_free addr h').map x ≡ owned h.map x)
heap_free-heap_aligned_alloc alignment size h v room ne =
    freed_again alignment size h _ _ ne (heap_aligned_alloc-Allocates alignment size h v room)
