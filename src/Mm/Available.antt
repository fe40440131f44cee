-- ===== src/Mm/Available.antt =====
-- `mm_available_pages` as a count of frames.
use dancy.Base.{
  ℕ, zero, suc, ◌+◌, ◌*◌, ◌/◌, ◌%◌, ◌<◌, ◌≡◌, ◌≢◌, refl, ◌∙◌, ap, true, false, arith, ltb,
  if◌then◌else◌, List, length,
}
use dancy.Mm.{
  Manager, byte_at, has_bit, clear_bits, count_pages, mm_available_pages, mm_alloc_page, MmType,
  normal,
}
use dancy.Mm.Frames.{in_use, AllBytes, mark, in_use-mark}
use dancy.Mm.Counts.{ceiling}
use dancy.Mm.Alloc.{IsValid, Takes, none_free, found}
use dancy.Mm.Page.{Allocates, mm_alloc_page-Allocates}

-- The number of free frames below `n`.
unfoldable pub free_below : List ℕ → ℕ → ℕ
free_below bm zero = 0
free_below bm (suc n) = (if in_use bm n then 0 else 1) + free_below bm n

one_bit : (bm : List ℕ) (i b : ℕ) → b < 8 → in_use bm (i * 8 + b) ≡ has_bit (byte_at bm i) b
unfolding in_use
one_bit bm i b h =
    let byte_is : (i * 8 + b) / 8 ≡ i = omega arith in
    let bit_is : (i * 8 + b) % 8 ≡ b = omega arith in rw (byte_is, bit_is)

free_below-next :
    (bm : List ℕ) (i b : ℕ)
    → b < 8
    → free_below bm (i * 8 + (b + 1))
      ≡ (if has_bit (byte_at bm i) b then 0 else 1) + free_below bm (i * 8 + b)
free_below-next bm i b h =
    let next : i * 8 + (b + 1) ≡ suc (i * 8 + b) = omega arith in
    rw next (unfold free_below in rw (one_bit bm i b h))

one_byte :
    (bm : List ℕ) (i : ℕ)
    → free_below bm ((i + 1) * 8) ≡ clear_bits 8 (byte_at bm i) + free_below bm (i * 8)
unfolding clear_bits
one_byte bm i =
    let next : (i + 1) * 8 ≡ i * 8 + 8 = omega arith in
    let here : i * 8 ≡ i * 8 + 0 = omega arith in
    ap (free_below bm) next
    ∙ omega (
      arith,
      ap (free_below bm) here,
      free_below-next bm i 0 (omega arith),
      free_below-next bm i 1 (omega arith),
      free_below-next bm i 2 (omega arith),
      free_below-next bm i 3 (omega arith),
      free_below-next bm i 4 (omega arith),
      free_below-next bm i 5 (omega arith),
      free_below-next bm i 6 (omega arith),
      free_below-next bm i 7 (omega arith),
    )

count_end : (bm : List ℕ) (i : ℕ) → count_pages bm 0 i ≡ 0
unfolding count_pages
count_end bm i = refl

count_next :
    (bm : List ℕ) (n i : ℕ)
    → count_pages bm (suc n) i ≡ clear_bits 8 (byte_at bm i) + count_pages bm n (i + 1)
unfolding count_pages
count_next bm n i = refl

free_below-suc :
    (bm : List ℕ) (n : ℕ) → free_below bm (suc n) ≡ (if in_use bm n then 0 else 1) + free_below bm n
unfolding free_below
free_below-suc bm n = refl

count_pages-free_below :
    (bm : List ℕ) (n i : ℕ)
    → count_pages bm n i + free_below bm (i * 8) ≡ free_below bm ((i + n) * 8)
count_pages-free_below bm zero i =
    let e : i + 0 ≡ i = omega arith in
    omega (arith, count_end bm i, ap (λ j. free_below bm (j * 8)) e)
count_pages-free_below bm (suc n) i =
    let e : i + suc n ≡ i + 1 + n = omega arith in
    omega (
      arith,
      count_next bm n i,
      count_pages-free_below bm n (i + 1),
      one_byte bm i,
      ap (λ j. free_below bm (j * 8)) e,
    )

available-eq :
    (type : MmType) (m : Manager)
    → m.ready ≡ true
    → mm_available_pages true type m ≡ count_pages m.bitmap (ceiling type (m.size * 8) / 8) 0
unfolding mm_available_pages count_pages
available-eq type m r = ground arith

whole_bytes : (type : MmType) (size : ℕ) → ceiling type (size * 8) / 8 * 8 ≡ ceiling type (size * 8)
whole_bytes type size = ground arith

-- `mm_available_pages` of a manager that is ready, with the lock, is the number of the free frames below the
-- limit of the memory type; for an unknown type that is 0.
pub mm_available_pages-free_below :
    (type : MmType) (m : Manager)
    → m.ready ≡ true
    → mm_available_pages true type m ≡ free_below m.bitmap (ceiling type (m.size * 8))
mm_available_pages-free_below type m r =
    let count = count_pages-free_below m.bitmap (ceiling type (m.size * 8) / 8) 0 in
    let none_below : free_below m.bitmap (0 * 8) ≡ 0 = unfold free_below in refl in
    let end : (0 + ceiling type (m.size * 8) / 8) * 8 ≡ ceiling type (m.size * 8) =
      omega (arith, whole_bytes type m.size) in
    available-eq type m r ∙ omega (arith, count, none_below, ap (free_below m.bitmap) end)

free_below-mark :
    (bm : List ℕ) (f n : ℕ)
    → AllBytes bm
    → f / 8 < length bm
    → in_use bm f ≡ false
    → free_below (mark bm f) n + (if ltb f n then 1 else 0) ≡ free_below bm n
free_below-mark bm f zero b h idle = unfold free_below in ground arith
free_below-mark bm f (suc n) b h idle =
    let rest = free_below-mark bm f n b h idle in
    ground (arith, in_use-mark bm f n b h, free_below-suc bm n, free_below-suc (mark bm f) n)

one_less :
    (m m' : Manager) (page : ℕ)
    → page ≢ 0
    → m.ready ≡ true
    → IsValid m
    → Allocates m page m'
    → mm_available_pages true normal m' + 1 ≡ mm_available_pages true normal m
one_less m m' page ne r v a =
    rw
      (
        mm_available_pages-free_below normal m r,
        mm_available_pages-free_below normal m' (a.ready_is ∙ r),
        a.size_is,
      )
      (by_case a.takes)
  where
    by_case :
        Takes m.bitmap (m.size * 8) page m'.bitmap
        → free_below m'.bitmap (m.size * 8) + 1 ≡ free_below m.bitmap (m.size * 8)
    by_case (none_free z same all) = absurd (ne z)
    by_case (found f is_f b lo hi idle above) = rw b (
        ground (
          arith,
          free_below-mark m.bitmap f (m.size * 8) v.bytes (omega (arith, v.length_is)) idle,
        ))

-- In a manager that is ready and in order: when `mm_alloc_page` returns a page, the number that
-- `mm_available_pages` gives for all memory goes down by one.
pub mm_available_pages-mm_alloc_page :
    (m : Manager)
    → m.ready ≡ true
    → IsValid m
    → (mm_alloc_page true m).0 ≢ 0
    → mm_available_pages true normal (mm_alloc_page true m).1 + 1 ≡ mm_available_pages true normal m
mm_available_pages-mm_alloc_page m r v ne = one_less m _ _ ne r v (mm_alloc_page-Allocates m r v)
