-- ===== src/Heap/Strdup.antt =====
-- `strdup` on a heap in order.
use dancy.Base.{
  ℕ, ◌+◌, ◌-◌, ◌*◌, ◌<◌, ◌≡◌, ◌≢◌, refl, ◌∙◌, true, false, arith, List, [], ◌∷◌, length, get_or,
  ℕ_discrete, some,
}
use dancy.Heap.{Heap, strdup, heap_aligned_alloc, copy_string}
use dancy.Heap.Sections.{inside}
use dancy.Heap.Alloc.{IsValid, Allocates, heap_aligned_alloc-Allocates}

-- What `strdup` has done when it does not return NULL.
pub record Copies (s : List ℕ) (mem : ℕ → ℕ) (h : Heap) (ptr : ℕ) (mem' : ℕ → ℕ) (h' : Heap)
    : Type 0 where
  pub bytes : (i : ℕ) → i < length s → mem' (ptr + i) ≡ get_or s i 0
  pub zero_after : mem' (ptr + length s) ≡ 0
  pub others : (x : ℕ) → inside ptr (ptr + length s + 1) x ≡ false → mem' x ≡ mem x
  pub allocates : Allocates 16 (length s + 1) h ptr h'

get_or-past : (s : List ℕ) → get_or s (length s) 0 ≡ 0
get_or-past [] = refl
get_or-past (c ∷ s) = get_or-past s

strdup-none :
    (s : List ℕ) (mem : ℕ → ℕ) (h : Heap)
    → (heap_aligned_alloc 16 (length s + 1) h).0 ≡ 0
    → (strdup true (some s) mem h).0 ≡ 0
unfolding strdup
strdup-none s mem h z = ground (arith, z)

strdup-some :
    (s : List ℕ) (mem : ℕ → ℕ) (h : Heap)
    → let r = heap_aligned_alloc 16 (length s + 1) h in
      r.0 ≢ 0 → strdup true (some s) mem h ≡ (r.0, copy_string mem r.0 s, r.1)
unfolding strdup
strdup-some s mem h ne = ground (arith, ne)

copied :
    (s : List ℕ) (mem : ℕ → ℕ) (ptr i : ℕ)
    → i < length s + 1
    → copy_string mem ptr s (ptr + i) ≡ get_or s i 0
copied s mem ptr i h = let e : ptr + i - ptr ≡ i = omega arith in rw e (ground arith)

-- `strdup` on a heap in order whose map is not full, with the lock, when it does not return NULL: the bytes of the
-- string and a zero stand from the address on, all other bytes are as before, and the heap is as
-- `heap_aligned_alloc` leaves it for that number of bytes.
pub strdup-Copies :
    (s : List ℕ) (mem : ℕ → ℕ) (h : Heap)
    → IsValid h
    → 4 * length h.map < h.map_size
    → let r = strdup true (some s) mem h in r.0 ≢ 0 → Copies s mem h r.0 r.1 r.2
strdup-Copies s mem h v room ne = elim (ℕ_discrete (heap_aligned_alloc 16 (length s + 1) h).0 0) [
  | yes z ↦ absurd (ne (strdup-none s mem h z))
  | no got ↦ rw (strdup-some s mem h got) (record {
    bytes = λ i lt. copied s mem _ i (omega arith);
    zero_after = copied s mem _ (length s) (omega arith) ∙ get_or-past s;
    others = λ x out. ground (arith, out);
    allocates = heap_aligned_alloc-Allocates 16 (length s + 1) h v room;
  })
]
