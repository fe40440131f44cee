-- ===== src/Heap/Alloc.antt =====
-- `heap_aligned_alloc` on a heap in order.
use dancy.Base.{
  ℕ, suc, ◌+◌, ◌-◌, ◌*◌, ◌/◌, ◌%◌, ◌<◌, ◌≤◌, ◌≡◌, ◌≢◌, ap, refl, Bool, true, false, not, ◌&&◌, ◌||◌,
  ltb, ◌==◌, max, bit_and, arith, length, Bool-cases, inl, inr, some,
}
use dancy.Base.Tables.{every_below, every_below_at}
use native.Mathlib.Nat.{div-add-mod', mul-mod_left}
use dancy.Heap.{
  Heap, address, entry, Search, section, search_loop, store_section, store_entry, grow_map,
  heap_aligned_alloc,
}
use dancy.Heap.Words.{address_of_free}
use dancy.Heap.Sections.{Ordered, entry-IsEntry}
use dancy.Heap.Store.{Stores, store_entry-Stores, low_entry}
use dancy.Heap.Scan.{Finds, nothing, found, Fits, section_end, top_of, search_loop-Finds}

-- The map is in order, the first section begins at its end, and the map has the entries' size or more.
pub record IsValid (h : Heap) : Type 0 where
  pub ordered : Ordered h.map
  pub two : 2 ≤ length h.map
  pub pages : h.map_size % 0x1000 ≡ 0
  pub room : 4 * length h.map ≤ h.map_size
  pub after_map : address (entry h.map 0) ≡ h.map_addr + h.map_size

-- What `heap_aligned_alloc` accepts.
abbrev pub accepts : ℕ → ℕ → Bool
accepts alignment size =
    not ((alignment == 0) || ltb 0x2000 alignment)
    && ((bit_and alignment (alignment - 1) == 0) && not ((size == 0) || ltb 0x10000000 size))

-- What `heap_aligned_alloc` has done: NULL for arguments that it does not accept; or, for others, NULL as no
-- free section has room, or a block from `addr` on.
pub data Allocates (alignment size : ℕ) (h : Heap) (addr : ℕ) (h' : Heap) : Type 0 where
  refused : accepts alignment size ≡ false → addr ≡ 0 → h' ≡ h → Allocates alignment size h addr h'
  no_room :
      accepts alignment size ≡ true
      → addr ≡ 0
      → h' ≡ h
      → ((j : ℕ) → j < length h.map - 1 → ¬ Fits h.map (max alignment 0x10) size j)
      → Allocates alignment size h addr h'
  block :
      (e : ℕ)
      → accepts alignment size ≡ true
      → addr ≢ 0
      → addr % max alignment 0x10 ≡ 0
      → addr + size ≤ e
      → Stores h.map addr e h'.map
      → IsValid h'
      → Allocates alignment size h addr h'

sub_mod : (x al : ℕ) → (x - x % al) % al ≡ 0
sub_mod x al =
    let e : x - x % al ≡ x / al * al = omega (arith, div-add-mod' x al) in
    rw e (mul-mod_left (x / al) al)

-- The alignment that is used is a multiple of 16.
abbrev sixteen : ℕ → Bool
sixteen al = (al == 0) || (not (bit_and al (al - 1) == 0) || (max al 0x10 % 16 == 0))

sixteen_table : every_below 0x2001 sixteen ≡ true
unfolding every_below
sixteen_table = refl

accepts-alignment : (al size : ℕ) → accepts al size ≡ true → max al 0x10 % 16 ≡ 0
accepts-alignment al size ok =
    let row = every_below_at 0x2001 sixteen al sixteen_table (ground arith) in ground (arith, row)

mod_mod : (x al : ℕ) → al % 16 ≡ 0 → x % al ≡ 0 → x % 16 ≡ 0
mod_mod x al h h' =
    let k = x / al in
    let q = al / 16 in
    let al_is : al ≡ q * 16 = omega arith in
    let parts = div-add-mod' x al in
    let times = ap (λ y. k * y) al_is in let x_is : x ≡ k * q * 16 = grind arith in omega arith

grow_map-room : (h : Heap) → 4 * length h.map < h.map_size → grow_map h ≡ some h
unfolding grow_map
grow_map-room h r = ground arith

store-eq :
    (h : Heap) (i addr : ℕ) (ins : Bool)
    → 4 * length h.map < h.map_size
    → addr ≢ 0
    → store_section (section i addr ins) h ≡ (addr, record h { map = store_entry i addr ins h.map })
unfolding store_section
store-eq h i addr ins r ne = rw (grow_map-room h r) (ground arith)

alloc-accepted :
    (alignment size : ℕ) (h : Heap)
    → accepts alignment size ≡ true
    → heap_aligned_alloc alignment size h
      ≡ store_section (search_loop h.map (max alignment 0x10) size (length h.map - 1)) h
unfolding heap_aligned_alloc
alloc-accepted alignment size h ok = ground (arith, ok)

alloc-refused :
    (alignment size : ℕ) (h : Heap)
    → accepts alignment size ≡ false
    → heap_aligned_alloc alignment size h ≡ (0, h)
unfolding heap_aligned_alloc
alloc-refused alignment size h bad = ground (arith, bad)

found_Allocates :
    (alignment size : ℕ) (h : Heap) (r : Search)
    → accepts alignment size ≡ true
    → IsValid h
    → 4 * length h.map < h.map_size
    → Finds h.map (max alignment 0x10) size (length h.map - 1) r
    → Allocates alignment size h (store_section r h).0 (store_section r h).1
found_Allocates alignment size h r ok v room (nothing e all) =
    rw e (unfold store_section in no_room ok refl refl all)
found_Allocates alignment size h r ok v room (found j e lt fit above) =
    rw (e, store-eq h (suc j) addr _ room some_addr)
      (block (section_end h.map j) ok some_addr al (omega (arith, fit)) stores (record {
        ordered = stores.ordered;
        two = omega (arith, stores.place_lt);
        pages = v.pages;
        room = omega (arith, stores.length_le, v.pages);
        after_map = omega (arith, v.after_map, stores.first);
      }))
  where
    addr : ℕ
    addr = top_of h.map (max alignment 0x10) size j

    al : addr % max alignment 0x10 ≡ 0
    al = sub_mod (section_end h.map j - size) (max alignment 0x10)

    begins : address (entry h.map j) ≡ entry h.map j
    begins = address_of_free (entry h.map j) (entry-IsEntry h.map j (omega arith) v.ordered) fit.0

    some_addr : addr ≢ 0
    some_addr z = omega (
      arith,
      z,
      fit,
      begins,
      low_entry h.map j (omega arith) v.ordered,
      v.after_map,
      v.room,
      v.two,
    )

    size_pos : 0 < size
    size_pos = ground (arith, ok)

    stores :
        Stores h.map addr
          (section_end h.map j)
          (store_entry (suc j) addr (not (addr == entry h.map j)) h.map)
    stores =
        store_entry-Stores h.map j addr _ v.ordered (omega arith) fit.0 (omega (arith, fit))
          (omega (arith, fit, size_pos))
          (mod_mod addr (max alignment 0x10) (accepts-alignment alignment size ok) al) refl

-- `heap_aligned_alloc` on a heap in order whose map is not full: it returns NULL and changes nothing if the
-- alignment is not a power of two up to 0x2000 or the size is 0 or above 0x10000000, or if no free section
-- has room for the size at that alignment, 16 at least; else, for a power of two up to 0x2000 and a size
-- from 1 to 0x10000000, it returns an address of that alignment, from
-- which on the size lies in a section that nothing was in and that is in use now, while every address
-- outside that section is in use or free as before. The heap stays in order.
pub heap_aligned_alloc-Allocates :
    (alignment size : ℕ) (h : Heap)
    → IsValid h
    → 4 * length h.map < h.map_size
    → let r = heap_aligned_alloc alignment size h in Allocates alignment size h r.0 r.1
heap_aligned_alloc-Allocates alignment size h v room = elim (Bool-cases (accepts alignment size)) [
  | inr bad ↦ rw (alloc-refused alignment size h bad) (refused bad refl refl)
  | inl ok ↦ rw (alloc-accepted alignment size h ok) (
      found_Allocates alignment size h _ ok v room (
        search_loop-Finds h.map (max alignment 0x10) size (length h.map - 1) v.ordered
          (omega (arith, v.two))))
]
