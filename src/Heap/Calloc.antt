-- ===== src/Heap/Calloc.antt =====
-- `calloc` on a heap in order.
use dancy.Base.{
  ℕ, ◌+◌, ◌*◌, ◌/◌, ◌%◌, ◌^◌, ◌<◌, ◌≡◌, ◌≢◌, ◌⊎◌, ap, true, arith, length, inl, inr, if◌then◌else◌,
  ℕ_discrete,
}
use native.Mathlib.Nat.{div-add-mod'}
use dancy.Heap.{Heap, calloc, heap_aligned_alloc, memset}
use dancy.Heap.Sections.{inside}
use dancy.Heap.Alloc.{IsValid, Allocates, heap_aligned_alloc-Allocates}

-- What `calloc` has done when it does not return NULL.
pub record Zeroes (nmemb size : ℕ) (mem : ℕ → ℕ) (h : Heap) (ptr : ℕ) (mem' : ℕ → ℕ) (h' : Heap)
    : Type 0 where
  pub fits : nmemb * size < 2 ^ 64
  pub zeroed : (x : ℕ) → mem' x ≡ (if inside ptr (ptr + nmemb * size) x then 0 else mem x)
  pub allocates : Allocates 16 (nmemb * size) h ptr h'

no_wrap : (n s : ℕ) → n * s % 2 ^ 64 / n ≡ s → n * s % 2 ^ 64 ≡ n * s
no_wrap n s e =
    let parts = div-add-mod' (n * s % 2 ^ 64) n in
    let times = ap (λ q. q * n) e in let turn : s * n ≡ n * s = grind arith in omega arith

calloc-null :
    (n s : ℕ) (mem : ℕ → ℕ) (h : Heap)
    → (n * s % 2 ^ 64 ≡ 0) ⊎ (n * s % 2 ^ 64 / n ≢ s)
    → calloc true n s mem h ≡ (0, mem, h)
unfolding calloc
calloc-null n s mem h c = ground (arith, c)

calloc-none :
    (n s : ℕ) (mem : ℕ → ℕ) (h : Heap)
    → (heap_aligned_alloc 16 (n * s % 2 ^ 64) h).0 ≡ 0
    → (calloc true n s mem h).0 ≡ 0
unfolding calloc
calloc-none n s mem h z = ground (arith, z)

calloc-some :
    (n s : ℕ) (mem : ℕ → ℕ) (h : Heap)
    → n * s % 2 ^ 64 ≢ 0
    → n * s % 2 ^ 64 / n ≡ s
    → let r = heap_aligned_alloc 16 (n * s % 2 ^ 64) h in
      r.0 ≢ 0 → calloc true n s mem h ≡ (r.0, memset mem r.0 0 (n * s % 2 ^ 64), r.1)
unfolding calloc
calloc-some n s mem h some e ne = ground (arith, ne, e, some)

-- `calloc` on a heap in order whose map is not full, with the lock, when it does not return NULL: the product of
-- its arguments is below 2 ^ 64; the bytes of that number from the address on are 0 and all others as before;
-- and the heap is as `heap_aligned_alloc` leaves it for that number of bytes.
pub calloc-Zeroes :
    (nmemb size : ℕ) (mem : ℕ → ℕ) (h : Heap)
    → IsValid h
    → 4 * length h.map < h.map_size
    → let r = calloc true nmemb size mem h in r.0 ≢ 0 → Zeroes nmemb size mem h r.0 r.1 r.2
calloc-Zeroes n s mem h v room ne = elim (ℕ_discrete (n * s % 2 ^ 64) 0) [
  | yes z ↦ absurd (ne (ap (λ r. r.0) (calloc-null n s mem h (inl z))))
  | no some ↦ elim (ℕ_discrete (n * s % 2 ^ 64 / n) s) [
    | no wraps ↦ absurd (ne (ap (λ r. r.0) (calloc-null n s mem h (inr wraps))))
    | yes e ↦ elim (ℕ_discrete (heap_aligned_alloc 16 (n * s % 2 ^ 64) h).0 0) [
      | yes z ↦ absurd (ne (calloc-none n s mem h z))
      | no got ↦
          let whole = no_wrap n s e in
          rw (calloc-some n s mem h some e got) (record {
            fits = omega arith;
            zeroed = λ x. rw whole;
            allocates = rw whole (heap_aligned_alloc-Allocates 16 (n * s) h v room);
          })
    ]
  ]
]
