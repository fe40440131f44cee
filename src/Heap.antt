-- ===== src/Heap.antt =====
-- kernel/base/heap.c: the heap of the kernel over its map of sections. An entry of the map is the address
-- of a section, with bit 0 set if the section is in use; a section ends where the next one begins. A
-- `size_t` has 64 bits. Where `mtx_lock` can fail, the argument `locked` says whether it succeeds.
pub mod Words
pub mod Sections
pub mod Store
pub mod Scan
pub mod Alloc
pub mod Release
pub mod Merge
pub mod Free
pub mod Pages
pub mod Calloc
pub mod Strdup
mod Tests
use dancy.Base.{
  ℕ, zero, suc, ◌+◌, ◌-◌, ◌*◌, ◌/◌, ◌%◌, ◌^◌, Bool, true, false, not, ◌&&◌, ◌||◌, bit_and, bit_or,
  List, [], ◌∷◌, ◌++◌, take, drop, length, ltb, leb, ◌==◌, if◌then◌else◌, get_or, set, max, Option,
  none, some,
}

-- The static variables of heap.c without the mutex: the address of the map, its size in bytes, and the
-- entries that are in it.
pub record Heap : Type 0 where
  pub map_addr : ℕ
  pub map_size : ℕ
  pub map : List ℕ

abbrev pub entry : List ℕ → ℕ → ℕ
entry map i = get_or map i 0

-- `(b & used_bit) != 0`, `b & (~used_bit)` and `a | used_bit`.
unfoldable pub is_used : ℕ → Bool
is_used b = not (bit_and b 1 == 0)

unfoldable pub address : ℕ → ℕ
address b = bit_and b (2 ^ 32 - 2)

unfoldable pub used_entry : ℕ → ℕ
used_entry addr = bit_or (addr % 2 ^ 32) 1

-- `heap_init` after `spin_trylock`, with the two addresses of the `kernel` structure, the number of its
-- error, or the heap.
pub data Init : Type 0 where
  memory unexpected : Init
  ready : Heap → Init

unfoldable pub heap_init : Bool → ℕ → ℕ → Init
heap_init mtx heap_addr stack_array_addr =
    let heap_size = (stack_array_addr + 2 ^ 64 - heap_addr) % 2 ^ 64 in
    if ltb heap_size 0x100000
    then memory
    else if ltb 0x10000000 heap_size
    then unexpected
    else if not (bit_and heap_size 0xfff == 0) || not (bit_and heap_addr 0xfff == 0)
    then unexpected
    else if not mtx
    then unexpected
    else ready (record {
      map_addr = heap_addr;
      map_size = 0x1000;
      map = (heap_addr + 0x1000) % 2 ^ 32 ∷ (stack_array_addr % 2 ^ 32 ∷ []);
    })

-- The loop of `heap_usage` from entry `i` down: the bytes in use, and the free ones.
unfoldable pub usage_loop : List ℕ → ℕ → ℕ × ℕ
usage_loop map zero = (0, 0)
usage_loop map (suc j) =
    let b = entry map j in
    let e = address (entry map (suc j)) in
    let rest = usage_loop map j in
    if is_used b
    then (if ltb (address b) e then (rest.0 + (e - address b), rest.1) else rest)
    else if ltb b e
    then (rest.0, rest.1 + (e - b))
    else rest

unfoldable pub heap_usage : Bool → Heap → ℕ × ℕ
heap_usage locked h = if not locked then (0, 0) else usage_loop h.map (length h.map - 1)

-- How the search of `heap_aligned_alloc` ends: with NULL at once, with no section, or with `i`, `addr` and
-- `map_insert`.
pub data Search : Type 0 where
  broken : Search
  no_section : Search
  section : ℕ → ℕ → Bool → Search

unfoldable pub search_loop : List ℕ → ℕ → ℕ → ℕ → Search
search_loop map alignment size zero = no_section
search_loop map alignment size (suc j) =
    let b = entry map j in
    let e = address (entry map (suc j)) in
    let remainder = (e - size) % alignment in
    let addr = e - size - remainder in
    let rest = search_loop map alignment size j in
    if is_used b
    then rest
    else if leb e b
    then broken
    else if ltb (e - b) size
    then rest
    else if leb (size + remainder) (e - b)
    then section (suc j) addr (not (addr == b))
    else rest

-- Room for one more entry in the map, from the first section if need be; `none` is a return of NULL.
unfoldable pub grow_map : Heap → Option Heap
grow_map h =
    let map_used = 4 * length h.map in
    if ltb map_used h.map_size
    then some h
    else if ltb h.map_size map_used
    then none
    else if is_used (entry h.map 0)
    then none
    else if ltb ((entry h.map 1 + 2 ^ 32 - entry h.map 0) % 2 ^ 32) 0x2000
    then none
    else some (record {
      map_addr = h.map_addr;
      map_size = h.map_size + 0x1000;
      map = set h.map 0 ((h.map_addr + (h.map_size + 0x1000)) % 2 ^ 32);
    })

-- The end of `heap_aligned_alloc`, with the shift of the entries from `i` on.
unfoldable pub store_entry : ℕ → ℕ → Bool → List ℕ → List ℕ
store_entry i addr map_insert map =
    if map_insert
    then take i map ++ (used_entry addr ∷ drop i map)
    else set map (i - 1) (used_entry addr)

-- What the search has found is stored; 0 is NULL.
unfoldable pub store_section : Search → Heap → ℕ × Heap
store_section broken h = (0, h)
store_section no_section h = (0, h)
store_section (section i addr map_insert) h = if addr == 0 then (0, h) else elim (grow_map h) [
  | none ↦ (0, h)
  | some h' ↦ (addr, record h' { map = store_entry i addr map_insert h'.map })
]

unfoldable pub heap_aligned_alloc : ℕ → ℕ → Heap → ℕ × Heap
heap_aligned_alloc alignment size h =
    if (alignment == 0) || ltb 0x2000 alignment
    then (0, h)
    else if not (bit_and alignment (alignment - 1) == 0)
    then (0, h)
    else if (size == 0) || ltb 0x10000000 size
    then (0, h)
    else store_section (search_loop h.map (max alignment 0x10) size (length h.map - 1)) h

-- The first loop of `heap_free`, over `n` entries from `i` on.
unfoldable pub release_loop : ℕ → ℕ → ℕ → List ℕ → List ℕ
release_loop zero i a map = map
release_loop (suc n) i a map =
    let rest = release_loop n (i + 1) a map in
    if a == entry map i then set map i (address (entry map i)) else rest

-- The second loop of `heap_free`. Each round raises `i` or drops an entry, so that as many rounds as
-- entries are enough.
unfoldable pub merge_loop : ℕ → ℕ → List ℕ → List ℕ
merge_loop zero i map = map
merge_loop (suc fuel) i map =
    let next = merge_loop fuel (i + 1) map in
    let merged = merge_loop fuel i (take i map ++ drop (i + 1) map) in
    if ltb i (length map - 1)
    then (if is_used (entry map (i - 1)) || is_used (entry map i) then next else merged)
    else map

unfoldable pub heap_free : ℕ → Heap → Heap
heap_free ptr h =
    let map = release_loop (length h.map - 1) 0 (used_entry ptr) h.map in
    record h { map = merge_loop (length map) 1 map }

-- The bytes of the memory, by their addresses; those of the map itself are just in the list.
abbrev pub memset : (ℕ → ℕ) → ℕ → ℕ → ℕ → ℕ → ℕ
memset mem ptr val size x = if leb ptr x && ltb x (ptr + size) then val else mem x

unfoldable pub heap_alloc_static_page : Bool → (ℕ → ℕ) → Heap → ℕ × (ℕ → ℕ) × Heap
heap_alloc_static_page locked mem h =
    if not locked
    then (0, mem, h)
    else if is_used (entry h.map 0)
    then (0, mem, h)
    else if ltb ((entry h.map 1 + 2 ^ 32 - entry h.map 0) % 2 ^ 32) 0x2000
    then (0, mem, h)
    else (
      h.map_addr,
      memset mem h.map_addr 0 0x1000,
      record {
        map_addr = h.map_addr + 0x1000;
        map_size = h.map_size;
        map = set h.map 0 ((h.map_addr + 0x1000 + h.map_size) % 2 ^ 32);
      },
    )

unfoldable pub aligned_alloc : Bool → ℕ → ℕ → Heap → ℕ × Heap
aligned_alloc locked alignment size h =
    if not locked then (0, h) else heap_aligned_alloc alignment size h

unfoldable pub malloc : Bool → ℕ → Heap → ℕ × Heap
malloc locked size h = if not locked then (0, h) else heap_aligned_alloc 16 size h

unfoldable pub calloc : Bool → ℕ → ℕ → (ℕ → ℕ) → Heap → ℕ × (ℕ → ℕ) × Heap
calloc locked nmemb size mem h =
    let mem_size = nmemb * size % 2 ^ 64 in
    let r = heap_aligned_alloc 16 mem_size h in
    if (mem_size == 0) || not (mem_size / nmemb == size)
    then (0, mem, h)
    else if not locked
    then (0, mem, h)
    else if r.0 == 0
    then (0, mem, r.1)
    else (r.0, memset mem r.0 0 mem_size, r.1)

unfoldable pub free : Bool → ℕ → Heap → Heap
free locked ptr h = if ptr == 0 then h else if not locked then h else heap_free ptr h

-- The bytes of a string and its zero, copied to an address.
abbrev pub copy_string : (ℕ → ℕ) → ℕ → List ℕ → ℕ → ℕ
copy_string mem ptr s x =
    if leb ptr x && ltb x (ptr + (length s + 1)) then get_or s (x - ptr) 0 else mem x

-- `strdup` of the string with these bytes before its zero, or of NULL.
unfoldable pub strdup : Bool → Option (List ℕ) → (ℕ → ℕ) → Heap → ℕ × (ℕ → ℕ) × Heap
strdup locked none mem h = (0, mem, h)
strdup locked (some s) mem h =
    let r = heap_aligned_alloc 16 (length s + 1) h in
    if not locked
    then (0, mem, h)
    else if r.0 == 0
    then (0, mem, r.1)
    else (r.0, copy_string mem r.0 s, r.1)
