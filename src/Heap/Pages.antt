-- ===== src/Heap/Pages.antt =====
-- `heap_init`, `heap_usage` and `heap_alloc_static_page`.
use dancy.Base.{
  ℕ, zero, suc, ◌+◌, ◌-◌, ◌%◌, ◌^◌, ◌<◌, ◌≤◌, ◌≡◌, ◌⊎◌, ◌∙◌, ap, refl, true, false, arith, List, [],
  ◌∷◌, if◌then◌else◌, set, length, Bool-cases, inl, inr, dec_lt, length-set,
}
use dancy.Base.Bits.{bit_and-ones}
use dancy.Heap.{
  Heap, is_used, address, entry, memset, ready, heap_init, usage_loop, heap_usage,
  heap_alloc_static_page,
}
use dancy.Heap.Words.{IsEntry, is_used_lem, address_lem, address_of_free}
use dancy.Heap.Sections.{inside, Ordered, owned, owned-cons, entry-IsEntry, address_mono}
use dancy.Heap.Alloc.{IsValid}
use dancy.Heap.Store.{low_entry}

-- The heap from one address up to another, with one free section.
abbrev pub whole : ℕ → ℕ → Heap
whole heap_addr stack_array_addr = record {
  map_addr = heap_addr;
  map_size = 0x1000;
  map = (heap_addr + 0x1000) ∷ (stack_array_addr ∷ []);
}

zero_address : address (entry [] 0) ≡ 0
unfolding address
zero_address = refl

-- For page addresses below 2 ^ 32 that are 0x100000 to 0x10000000 bytes apart, and if the mutex can be made:
-- `heap_init` succeeds with a heap in order that reaches up to the second address, in which nothing is in use.
pub heap_init-IsValid :
    (a s : ℕ)
    → s < 2 ^ 32
    → a % 0x1000 ≡ 0
    → s % 0x1000 ≡ 0
    → a + 0x100000 ≤ s
    → s ≤ a + 0x10000000
    → (heap_init true a s ≡ ready (whole a s))
      × IsValid (whole a s)
      × ((x : ℕ) → owned (whole a s).map x ≡ false)
unfolding heap_init
heap_init-IsValid a s hs al al' lo hi =
    let size : (s + 2 ^ 64 - a) % 2 ^ 64 ≡ s - a = omega arith in
    let first = address_lem (a + 0x1000) (omega arith) in
    let last = address_lem s (omega arith) in
    let small : (a + 0x1000) % 2 ^ 32 ≡ a + 0x1000 = omega arith in
    let small' : s % 2 ^ 32 ≡ s = omega arith in
    (
      rw (size, bit_and-ones 12 (s - a), bit_and-ones 12 a, small, small') (ground arith),
      record {
        ordered = (
          (omega arith, omega arith),
          omega (arith, first, last),
          ((omega arith, omega arith), tt, tt),
        );
        two = omega arith;
        pages = refl;
        room = omega arith;
        after_map = omega (arith, first);
      },
      λ x.
          owned-cons (a + 0x1000) (s ∷ []) x
          ∙ ground (arith, is_used_lem (a + 0x1000), owned_last s x),
    )
  where
    owned_last : (b x : ℕ) → owned (b ∷ []) x ≡ false
    owned_last b x = unfold owned in ground (arith, zero_address)

usage-next :
    (map : List ℕ) (n : ℕ)
    → address (entry map n) < address (entry map (suc n))
    → (is_used (entry map n) ≡ false → address (entry map n) ≡ entry map n)
    → (usage_loop map (suc n)).0 + (usage_loop map (suc n)).1
      ≡ (usage_loop map n).0
        + (usage_loop map n).1
        + (address (entry map (suc n)) - address (entry map n))
unfolding usage_loop
usage-next map n lt same = ground (arith, same)

usage_total :
    (map : List ℕ) (n : ℕ)
    → Ordered map
    → n < length map
    → (usage_loop map n).0 + (usage_loop map n).1 ≡ address (entry map n) - address (entry map 0)
usage_total map zero o h = unfold usage_loop in omega arith
usage_total map (suc n) o h =
    let next = address_mono map n (suc n) (omega arith) h o in
    let rest = usage_total map n o (omega arith) in
    usage-next map n next (address_of_free (entry map n) (entry-IsEntry map n (omega arith) o))
    ∙ omega (arith, next, rest, low_entry map n (omega arith) o)

-- `heap_usage` of a heap in order, with the lock: what is in use and what is free add up to the bytes from the
-- end of the map to the end of the heap.
pub heap_usage-total :
    (h : Heap)
    → IsValid h
    → (heap_usage true h).0 + (heap_usage true h).1 + (h.map_addr + h.map_size)
      ≡ address (entry h.map (length h.map - 1))
unfolding heap_usage
heap_usage-total h v = omega (
  arith,
  usage_total h.map (length h.map - 1) v.ordered (omega (arith, v.two)),
  low_entry h.map (length h.map - 1) (omega (arith, v.two)) v.ordered,
  v.after_map,
)

-- What `heap_alloc_static_page` has done.
pub data TakesPage (mem : ℕ → ℕ) (h : Heap) (page : ℕ) (mem' : ℕ → ℕ) (h' : Heap) : Type 0 where
  no_page :
      page ≡ 0
      → mem' ≡ mem
      → h' ≡ h
      → (is_used (entry h.map 0) ≡ true) ⊎ (entry h.map 1 < entry h.map 0 + 0x2000)
      → TakesPage mem h page mem' h'
  page_taken :
      is_used (entry h.map 0) ≡ false
      → entry h.map 0 + 0x2000 ≤ entry h.map 1
      → page ≡ h.map_addr
      → ((x : ℕ) → mem' x ≡ (if inside page (page + 0x1000) x then 0 else mem x))
      → h'.map_addr ≡ h.map_addr + 0x1000
      → ((x : ℕ) → owned h'.map x ≡ owned h.map x)
      → IsValid h'
      → TakesPage mem h page mem' h'

-- The difference of the first two entries does not wrap.
first_lt :
    (h : Heap)
    → IsValid h
    → is_used (entry h.map 0) ≡ false
    → (entry h.map 0 < entry h.map 1) × (entry h.map 1 < 2 ^ 32)
first_lt h v f =
    let here = entry-IsEntry h.map 0 (omega (arith, v.two)) v.ordered in
    let next = entry-IsEntry h.map 1 (omega (arith, v.two)) v.ordered in
    let rises = address_mono h.map 0 1 (omega arith) (omega (arith, v.two)) v.ordered in
    (
      omega (
        arith,
        rises,
        address_of_free (entry h.map 0) here f,
        address_lem (entry h.map 1) next.0,
      ),
      next.0,
    )

-- The difference as the source has it.
abbrev first_size : Heap → ℕ
first_size h = (entry h.map 1 + 2 ^ 32 - entry h.map 0) % 2 ^ 32

static-used :
    (mem : ℕ → ℕ) (h : Heap)
    → is_used (entry h.map 0) ≡ true
    → heap_alloc_static_page true mem h ≡ (0, mem, h)
unfolding heap_alloc_static_page
static-used mem h c = ground (arith, c)

static-short :
    (mem : ℕ → ℕ) (h : Heap)
    → first_size h < 0x2000
    → heap_alloc_static_page true mem h ≡ (0, mem, h)
unfolding heap_alloc_static_page
static-short mem h c = ground (arith, c)

shifted : Heap → Heap
shifted h = record {
  map_addr = h.map_addr + 0x1000;
  map_size = h.map_size;
  map = set h.map 0 ((h.map_addr + 0x1000 + h.map_size) % 2 ^ 32);
}

static-some :
    (mem : ℕ → ℕ) (h : Heap)
    → is_used (entry h.map 0) ≡ false
    → 0x2000 ≤ first_size h
    → heap_alloc_static_page true mem h ≡ (h.map_addr, memset mem h.map_addr 0 0x1000, shifted h)
unfolding heap_alloc_static_page shifted
static-some mem h f c = ground (arith, f)

-- The free first section begins elsewhere.
first_moved :
    (map : List ℕ) (b : ℕ)
    → Ordered map
    → 2 ≤ length map
    → is_used (entry map 0) ≡ false
    → IsEntry b
    → is_used b ≡ false
    → address b < address (entry map 1)
    → Ordered (set map 0 b) × ((x : ℕ) → owned (set map 0 b) x ≡ owned map x)
first_moved [] b o h f k f' lt = absurd (omega arith)
first_moved (a ∷ []) b o h f k f' lt = absurd (omega arith)
first_moved (a ∷ (c ∷ map)) b o h f k f' lt =
    ((k, lt, o.2), λ x. owned-cons b (c ∷ map) x ∙ ground (arith, owned-cons a (c ∷ map) x, f, f'))

entry-set : (map : List ℕ) (b : ℕ) → 0 < length map → entry (set map 0 b) 0 ≡ b
entry-set [] b h = absurd (omega arith)
entry-set (a ∷ map) b h = refl

shifted-IsValid :
    (h : Heap)
    → IsValid h
    → is_used (entry h.map 0) ≡ false
    → entry h.map 0 + 0x2000 ≤ entry h.map 1
    → IsValid (shifted h) × ((x : ℕ) → owned (shifted h).map x ≡ owned h.map x)
unfolding shifted
shifted-IsValid h v f c =
    let here = entry-IsEntry h.map 0 (omega (arith, v.two)) v.ordered in
    let next = entry-IsEntry h.map 1 (omega (arith, v.two)) v.ordered in
    let begins = address_of_free (entry h.map 0) here f in
    let ends = address_lem (entry h.map 1) next.0 in
    let small : (h.map_addr + 0x1000 + h.map_size) % 2 ^ 32 ≡ h.map_addr + 0x1000 + h.map_size =
      omega (arith, v.after_map, begins, c, next.0) in
    let new : IsEntry (h.map_addr + 0x1000 + h.map_size) =
      (omega (arith, v.after_map, begins, c, next.0), omega (arith, v.after_map, begins, here.1)) in
    let new_is = address_lem (h.map_addr + 0x1000 + h.map_size) new.0 in
    let moved =
      first_moved h.map (h.map_addr + 0x1000 + h.map_size) v.ordered v.two f new
        (is_used_lem (h.map_addr + 0x1000 + h.map_size)
          ∙ ground (arith, v.after_map, begins, here.1, address_lem (entry h.map 0) here.0))
        (omega (arith, new_is, ends, v.after_map, begins, c)) in
    rw small (
      record {
        ordered = moved.0;
        two = omega (arith, v.two, length-set h.map 0 (h.map_addr + 0x1000 + h.map_size));
        pages = v.pages;
        room = omega (arith, v.room, length-set h.map 0 (h.map_addr + 0x1000 + h.map_size));
        after_map =
            ap address (entry-set h.map _ (omega (arith, v.two)))
            ∙ omega (
              arith,
              new_is,
              new.1,
              v.after_map,
              begins,
              here.1,
              address_lem (entry h.map 0) here.0,
            );
      },
      moved.1,
    )

-- `heap_alloc_static_page` of a heap in order, with the lock: it returns NULL and changes nothing just when the
-- first section is in use or shorter than 0x2000 bytes; else it returns the page at which the map began, the
-- bytes of the page are 0 and all others as before, the map begins one page higher, the heap is in order and
-- every address is in use or free as before.
pub heap_alloc_static_page-TakesPage :
    (mem : ℕ → ℕ) (h : Heap)
    → IsValid h
    → let r = heap_alloc_static_page true mem h in TakesPage mem h r.0 r.1 r.2
heap_alloc_static_page-TakesPage mem h v = elim (Bool-cases (is_used (entry h.map 0))) [
  | inl u ↦ rw (static-used mem h u) (no_page refl refl refl (inl u))
  | inr f ↦
      let lt = first_lt h v f in
      elim (dec_lt (first_size h) 0x2000) [
        | yes short ↦
            rw (static-short mem h short) (no_page refl refl refl (inr (omega (arith, lt))))
        | no long ↦
            let room : entry h.map 0 + 0x2000 ≤ entry h.map 1 = omega (arith, lt) in
            let s = shifted-IsValid h v f room in
            rw (static-some mem h f (omega arith))
              (page_taken f room refl (λ x. refl) (unfold shifted in refl) s.1 s.0)
      ]
]
