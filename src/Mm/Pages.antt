-- ===== src/Mm/Pages.antt =====
-- `mm_alloc_pages` on a manager in order.
use dancy.Base.{ℕ, ◌+◌, ◌-◌, ◌*◌, ◌/◌, ◌%◌, ◌^◌, ◌≤◌, ◌<◌, ◌≡◌, ◌∙◌, true, arith, List}
use dancy.Mm.{Manager, has_bit, MmType, byte_at, first_block}
use dancy.Base.Tables.{every_below_of}
use dancy.Mm.Bytes.{eq_full}
use dancy.Mm.Frames.{in_use, AllBytes, byte_at-lt}
use dancy.Mm.Runs.{Changes}
use dancy.Mm.Counts.{IsCount, align_down-mul, ceiling}
use dancy.Mm.Blocks.{TakesBlock, no_block, block}
use dancy.Mm.Alloc.{FullFrom, IsValid, FullFrom-in_use}

-- The blocks of `c` frames that end at frame `top` or below.
abbrev pub Below : ℕ → ℕ → ℕ → Type 0
Below c top j = j * c + c ≤ top

-- What `mm_alloc_pages` has done.
pub record AllocatesBlock (type : MmType) (c : ℕ) (m : Manager) (page : ℕ) (m' : Manager)
    : Type 0 where
  pub valid : IsValid m'
  pub takes : TakesBlock m.bitmap c (Below c (ceiling type (m.size * 8))) page m'.bitmap
  pub size_is : m'.size ≡ m.size
  pub ready_is : m'.ready ≡ m.ready

-- The number of the first block that is tried, for the frame at which the full bytes begin.
abbrev pub first : MmType → ℕ → ℕ → ℕ
first type c frame = (ceiling type frame - 1) / c

pub first_block-mul :
    (type : MmType) (c frame : ℕ)
    → IsCount c
    → frame < 2 ^ 50
    → first_block type c frame ≡ first type c frame * c
first_block-mul type c frame k h = ground (arith, align_down-mul (ceiling type frame - 1) c k)

-- The full bytes stay full where frames are only marked.
pub full_of_in_use :
    (bm : List ℕ) (i : ℕ)
    → AllBytes bm
    → ((c : ℕ) → c < 8 → in_use bm (i * 8 + c) ≡ true)
    → byte_at bm i ≡ 0xff
unfolding in_use
full_of_in_use bm i b h = eq_full (byte_at bm i) (byte_at-lt bm i b) (every_below_of 8 _ bit)
  where
    bit : (c : ℕ) → c < 8 → has_bit (byte_at bm i) c ≡ true
    bit c hc =
        let byte_is : (i * 8 + c) / 8 ≡ i = omega arith in
        let bit_is : (i * 8 + c) % 8 ≡ c = omega arith in rw (byte_is, bit_is) at (h c hc)

FullFrom-Changes :
    (bm bm' : List ℕ) (lo hi f n : ℕ)
    → FullFrom bm lo hi
    → Changes true f n bm bm'
    → FullFrom bm' lo hi
FullFrom-Changes bm bm' lo hi f n full ch i h h' = full_of_in_use bm' i ch.bytes (λ c hc.
    ch.frames (i * 8 + c)
    ∙ ground (arith, FullFrom-in_use bm lo hi (i * 8 + c) full (omega arith) (omega arith)))

pub TakesBlock-IsValid :
    (m : Manager) (full c page : ℕ) (R : ℕ → Type 0) (bm : List ℕ)
    → IsValid m
    → full ≤ m.size - m.used
    → FullFrom m.bitmap (m.size - m.used - full) m.size
    → TakesBlock m.bitmap c R page bm
    → IsValid (record m { used = m.used + full; bitmap = bm })
TakesBlock-IsValid m full c page R bm v le ff (no_block z same all) = record {
  length_is = rw same v.length_is;
  bytes = rw same v.bytes;
  pages = v.pages;
  some_size = v.some_size;
  small = v.small;
  used_le = omega (arith, v.used_le);
  full = λ i lo hi. rw same (ff i (omega arith) hi);
}
TakesBlock-IsValid m full c page R bm v le ff (block j is_j ch lo r idle above) = record {
  length_is = ch.length_is ∙ v.length_is;
  bytes = ch.bytes;
  pages = v.pages;
  some_size = v.some_size;
  small = v.small;
  used_le = omega (arith, v.used_le);
  full = λ i lo' hi'.
      FullFrom-Changes m.bitmap bm (m.size - m.used - full) m.size (j * c) c ff ch i (omega arith)
        hi';
}
