-- ===== src/Mm.antt =====
-- kernel/base/mm.c: the manager of physical pages over its bitmap. A set bit is a page in use. A frame
-- is the number of a page; `size_t` sums of frames stay below 2 ^ 64. Where `mtx_lock` can fail, the
-- argument `locked` says whether it succeeds.
pub mod Bytes
pub mod Frames
pub mod Runs
pub mod Counts
pub mod Blocks
pub mod Alloc
pub mod Pages
pub mod AllocPages
pub mod Page
pub mod FreePages
pub mod Available
mod Tests
use dancy.Base.{
  ℕ, zero, suc, ◌+◌, ◌-◌, ◌*◌, ◌/◌, ◌%◌, ◌^◌, Bool, true, false, not, ◌&&◌, ◌||◌, bit_and, bit_or,
  List, [], ◌∷◌, ltb, leb, ◌==◌, if◌then◌else◌, get_or, set, Option, none, some,
}
use dancy.Base.Int.{ℤ, pos, negsuc}

-- The static variables of mm.c without the mutex.
pub record Manager : Type 0 where
  pub ready : Bool
  pub size : ℕ
  pub used : ℕ
  pub bitmap : List ℕ

-- `enum mm_type`, and any other number.
pub data MmType : Type 0 where
  normal addr36 addr32 addr28 addr24 addr20 kernel unknown : MmType

-- `mm_bitmap[i]`, a byte.
abbrev pub byte_at : List ℕ → ℕ → ℕ
byte_at bm i = get_or bm i 0

-- `val | (1u << b)`, `val & (~(1u << b))` and `(val & (1u << b)) != 0`.
unfoldable pub with_bit : ℕ → ℕ → ℕ
with_bit val b = bit_or val (2 ^ b) % 256

unfoldable pub without_bit : ℕ → ℕ → ℕ
without_bit val b = bit_and val (2 ^ 32 - 1 - 2 ^ b) % 256

unfoldable pub has_bit : ℕ → ℕ → Bool
has_bit val b = not (bit_and val (2 ^ b) == 0)

-- The loops over `page_count` frames, at bit `b` of byte `i`.
unfoldable pub clear_loop : ℕ → ℕ → ℕ → List ℕ → List ℕ
clear_loop zero b i bm = bm
clear_loop (suc n) b i bm =
    let b' = bit_and (b + 1) 7 in
    clear_loop n b' (if b' == 0 then i + 1 else i) (set bm i (without_bit (byte_at bm i) b))

unfoldable pub set_loop : ℕ → ℕ → ℕ → List ℕ → List ℕ
set_loop zero b i bm = bm
set_loop (suc n) b i bm =
    let b' = bit_and (b + 1) 7 in
    set_loop n b' (if b' == 0 then i + 1 else i) (set bm i (with_bit (byte_at bm i) b))

unfoldable pub test_loop : ℕ → ℕ → ℕ → List ℕ → Bool
test_loop zero b i bm = false
test_loop (suc n) b i bm =
    let b' = bit_and (b + 1) 7 in
    let rest = test_loop n b' (if b' == 0 then i + 1 else i) bm in
    if has_bit (byte_at bm i) b then true else rest

unfoldable pub mm_bitmap_clear : ℕ → ℕ → List ℕ → List ℕ
mm_bitmap_clear frame count bm = clear_loop count (bit_and frame 7) (frame / 2 ^ 3) bm

unfoldable pub mm_bitmap_set : ℕ → ℕ → List ℕ → List ℕ
mm_bitmap_set frame count bm = set_loop count (bit_and frame 7) (frame / 2 ^ 3) bm

unfoldable pub mm_bitmap_test : ℕ → ℕ → List ℕ → Bool
mm_bitmap_test frame count bm = test_loop count (bit_and frame 7) (frame / 2 ^ 3) bm

abbrev pub count_table : List ℕ
count_table =
    0x0001 ∷ 0x0002 ∷ 0x0004 ∷ 0x0008 ∷ 0x0010 ∷ 0x0020 ∷ 0x0040 ∷ 0x0080 ∷ 0x0100 ∷ 0x0200 ∷ 0x0400
    ∷ []

unfoldable pub mm_get_count : ℤ → ℕ
mm_get_count (pos order) = if ltb order 11 then get_or count_table order 0 else 0
mm_get_count (negsuc n) = 0

-- The first frame past the memory of a type, in the chains of tests of `mm_available_pages` and
-- `mm_alloc_pages`; `none` is an unknown type, and `mm_normal` has no limit.
abbrev pub limit : MmType → ℕ → Option ℕ
limit normal frame = some frame
limit addr36 frame = some (if ltb 0x1000000 frame then 0x1000000 else frame)
limit addr32 frame = some (if ltb 0x100000 frame then 0x100000 else frame)
limit addr28 frame = some (if ltb 0x10000 frame then 0x10000 else frame)
limit addr24 frame = some (if ltb 0x1000 frame then 0x1000 else frame)
limit addr20 frame = some (if ltb 0x100 frame then 0x100 else frame)
limit kernel frame = some (if ltb 0x10000 frame then 0x10000 else frame)
limit unknown frame = none

-- The loop over full bytes from the top: what is added to `mm_bitmap_used`, and `page_frame`.
unfoldable pub skip_full : List ℕ → ℕ → ℕ × ℕ
skip_full bm zero = (0, 0)
skip_full bm (suc size) =
    let rest = skip_full bm size in
    if byte_at bm size == 0xff then (rest.0 + 1, rest.1) else (0, suc size * 8)

-- The second loop of `mm_alloc_page`, from `page_frame` down: the address, and the bitmap.
unfoldable pub take_page : ℕ → List ℕ → ℕ × List ℕ
take_page zero bm = (0, bm)
take_page (suc f) bm =
    let frame = suc f in
    let val = byte_at bm (frame / 2 ^ 3) in
    let rest = take_page f bm in
    if not (has_bit val (bit_and frame 7))
    then (frame * 0x1000, set bm (frame / 2 ^ 3) (with_bit val (bit_and frame 7)))
    else rest

unfoldable pub mm_alloc_page : Bool → Manager → ℕ × Manager
mm_alloc_page locked m =
    let (full, frame) = skip_full m.bitmap (m.size - m.used) in
    let (page, bm) = take_page (frame - 1) m.bitmap in
    if not m.ready || not locked
    then (0, m)
    else (page, record m { used = m.used + full; bitmap = bm })

-- `x & (~(page_count - 1))` on `size_t`.
unfoldable pub align_down : ℕ → ℕ → ℕ
align_down x count = bit_and x (2 ^ 64 - 1 - (count - 1))

-- The second loop of `mm_alloc_pages`. `page_frame` is a multiple of the count, so that the subtraction
-- does not wrap and as many rounds as frames are enough.
unfoldable pub take_pages : ℕ → ℕ → ℕ → List ℕ → ℕ × List ℕ
take_pages zero count frame bm = (0, bm)
take_pages (suc fuel) count frame bm =
    let rest = take_pages fuel count (frame - count) bm in
    if frame == 0
    then (0, bm)
    else if not (mm_bitmap_test frame count bm)
    then (frame * 0x1000, mm_bitmap_set frame count bm)
    else rest

-- `page_frame` after the tests of the type and the alignment.
abbrev pub first_block : MmType → ℕ → ℕ → ℕ
first_block type count frame = elim (limit type frame) [
  | none ↦ 0
  | some top ↦ if top == 0 then 0 else align_down (top - 1) count
]

unfoldable pub mm_alloc_pages : Bool → MmType → ℤ → Manager → ℕ × Manager
mm_alloc_pages locked type order m =
    let count = mm_get_count order in
    let (full, frame) = skip_full m.bitmap (m.size - m.used) in
    let start = first_block type count frame in
    let (page, bm) = take_pages (suc start) count start m.bitmap in
    if not m.ready || (count == 0)
    then (0, m)
    else if not locked
    then (0, m)
    else (page, record m { used = m.used + full; bitmap = bm })

-- The hint after byte `i` has been changed: the bytes above it are still known to be full.
abbrev pub lower_used : Manager → ℕ → ℕ
lower_used m i = let above = m.size - i - 1 in if ltb above m.used then above else m.used

unfoldable pub mm_free_page : Bool → ℕ → Manager → Manager
mm_free_page locked addr m =
    let frame = addr / 2 ^ 12 in
    let i = frame / 8 in
    if not m.ready || (frame == 0)
    then m
    else if leb m.size i
    then m
    else if not locked
    then m
    else record m {
      bitmap = set m.bitmap i (without_bit (byte_at m.bitmap i) (bit_and frame 7));
      used = lower_used m i;
    }

unfoldable pub mm_free_pages : Bool → ℕ → ℤ → Manager → Manager
mm_free_pages locked addr order m =
    let frame = addr / 2 ^ 12 in
    let count = mm_get_count order in
    let i = (frame + (count - 1)) / 8 in
    if not m.ready || (count == 0)
    then m
    else if (frame == 0) || not (bit_and frame (count - 1) == 0)
    then m
    else if leb m.size i
    then m
    else if not locked
    then m
    else record m { bitmap = mm_bitmap_clear frame count m.bitmap; used = lower_used m i }

-- The clear bits of a byte, from bit `8 - n` on.
unfoldable pub clear_bits : ℕ → ℕ → ℕ
clear_bits zero val = 0
clear_bits (suc n) val = (if has_bit val (7 - n) then 0 else 1) + clear_bits n val

-- The loop of `mm_available_pages` over `n` bytes from byte `i` on.
unfoldable pub count_pages : List ℕ → ℕ → ℕ → ℕ
count_pages bm zero i = 0
count_pages bm (suc n) i = clear_bits 8 (byte_at bm i) + count_pages bm n (i + 1)

unfoldable pub mm_available_pages : Bool → MmType → Manager → ℕ
mm_available_pages locked type m = if not m.ready then 0 else elim (limit type (m.size * 8)) [
  | none ↦ 0
  | some frame ↦ if not locked then 0 else count_pages m.bitmap (frame / 2 ^ 3) 0
]
