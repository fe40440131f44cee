-- ===== src/Mm/AllocPages.antt =====
-- `mm_alloc_pages`: which block it returns.
use dancy.Base.{
  ℕ, suc, ◌+◌, ◌-◌, ◌*◌, ◌/◌, ◌%◌, ◌^◌, ◌≤◌, ◌<◌, ◌≡◌, ◌≢◌, ◌⊎◌, refl, ap, true, arith, List,
  dec_lt,
}
use native.Mathlib.Nat.{div-add-mod', mod-lt, mul-le-mul_left, mul-le-mul_right}
use dancy.Base.Int.{ℤ}
use dancy.Mm.{Manager, MmType, skip_full, take_pages, first_block, mm_get_count, mm_alloc_pages}
use dancy.Mm.Frames.{in_use}
use dancy.Mm.Runs.{AllFree}
use dancy.Mm.Counts.{IsCount, mm_get_count-IsCount, ceiling, ceiling-le, block_fits}
use dancy.Mm.Blocks.{TakesBlock, no_block, block, take_pages-TakesBlock}
use dancy.Mm.Alloc.{FullFrom, IsValid, Skips, skip_full-Skips, FullFrom-in_use, FullFrom-append}
use dancy.Mm.Pages.{Below, AllocatesBlock, first, first_block-mul, TakesBlock-IsValid}

ceiling-cases :
    (type : MmType) (frame frames : ℕ)
    → frame ≤ frames
    → (ceiling type frame ≤ ceiling type frames)
      × ((ceiling type frame ≡ frame) ⊎ (ceiling type frame ≡ ceiling type frames))
ceiling-cases type frame frames h = ground arith

count_pos : (c : ℕ) → IsCount c → 0 < c
count_pos c k = ground arith

count_le : (c : ℕ) → IsCount c → c ≤ 0x400
count_le c k = ground arith

mul_lt : (i q c t : ℕ) → 0 < c → q ≡ (t - 1) / c → q < i → t ≤ i * c
mul_lt i q c t hc e h =
    let parts = div-add-mod' (t - 1) c in
    let rest = mod-lt (t - 1) hc in
    let times = mul-le-mul_right c h in let blocks = ap (λ y. y * c) e in grind arith

mul_le : (j q c t : ℕ) → 0 < c → q ≡ (t - 1) / c → 0 < j → j ≤ q → j * c < t
mul_le j q c t hc e lo h =
    let parts = div-add-mod' (t - 1) c in
    let times = mul-le-mul_right c h in
    let one_block = mul-le-mul_right c lo in let blocks = ap (λ y. y * c) e in grind arith

enough_fuel : (q c : ℕ) → 0 < c → q < suc (q * c)
enough_fuel q c h = let times = mul-le-mul_left q h in grind arith

-- The search over the numbers up to `q` is the search over all blocks below the ceiling.
module _ (type : MmType) (bm : List ℕ) (c frame frames : ℕ) (k : IsCount c)
    (pages : frames % 0x8000 ≡ 0) (le : frame ≤ frames)
    (full : (g : ℕ) → frame ≤ g → g < frames → in_use bm g ≡ true) where
  fits-Below : (j : ℕ) → 0 < j → j ≤ first type c frame → Below c (ceiling type frames) j
  fits-Below j lo h = block_fits type frames c j k pages lo (
      omega (
        arith,
        ceiling-cases type frame frames le,
        mul_le j (first type c frame) c (ceiling type frame) (count_pos c k) refl lo h,
      ))

  last_fits : 0 < frames → first type c frame * c + c ≤ frames
  last_fits h = elim (dec_lt 0 (first type c frame)) [
    | yes lo ↦
        omega (arith, fits-Below (first type c frame) lo (omega arith), ceiling-le type frames)
    | no lo ↦
        let z : first type c frame ≡ 0 = omega arith in
        omega (arith, ap (λ q. q * c) z, count_le c k)
  ]

  busy_above :
      (i : ℕ) → first type c frame < i → Below c (ceiling type frames) i → ¬ AllFree bm (i * c) c
  busy_above i h fits free =
      let some_frames = count_pos c k in
      let past = mul_lt i (first type c frame) c (ceiling type frame) some_frames refl h in
      let cases = ceiling-cases type frame frames le in
      let below = ceiling-le type frames in
      let busy = full (i * c) (omega (arith, cases)) (omega (arith, below)) in
      let idle = free (i * c) (omega arith) (omega arith) in cc

  widen :
      (page : ℕ) (bm' : List ℕ)
      → TakesBlock bm c (λ j. j ≤ first type c frame) page bm'
      → TakesBlock bm c (Below c (ceiling type frames)) page bm'
  widen page bm' (no_block z same all) = no_block z same (λ j lo fits.
      elim (dec_lt (first type c frame) j) [
        | yes past ↦ busy_above j past fits
        | no low ↦ all j lo (omega arith)
      ])
  widen page bm' (block j is_j ch lo r idle above) =
      block j is_j ch lo (fits-Below j lo r) idle (λ i h fits.
        elim (dec_lt (first type c frame) i) [
          | yes past ↦ busy_above i past fits
          | no low ↦ above i h (omega arith)
        ])

found_AllocatesBlock :
    (type : MmType) (m : Manager) (c full frame page : ℕ) (bm : List ℕ)
    → IsCount c
    → IsValid m
    → Skips m.bitmap (m.size - m.used) (full, frame)
    → TakesBlock m.bitmap c (λ j. j ≤ first type c frame) page bm
    → AllocatesBlock type c m page (record m { used = m.used + full; bitmap = bm })
found_AllocatesBlock type m c full frame page bm k v s t = record {
  valid =
      TakesBlock-IsValid m full c page (Below c (ceiling type (m.size * 8))) bm v s.at_most top_full
        takes;
  takes = takes;
  size_is = refl;
  ready_is = refl;
}
  where
    top_full : FullFrom m.bitmap (m.size - m.used - full) m.size
    top_full =
        FullFrom-append m.bitmap (m.size - m.used - full) (m.size - m.used) m.size s.full v.full

    takes : TakesBlock m.bitmap c (Below c (ceiling type (m.size * 8))) page bm
    takes =
        widen type m.bitmap c frame (m.size * 8) k (omega (arith, v.pages))
          (omega (arith, s.frame_is))
          (λ g lo hi.
            FullFrom-in_use m.bitmap (m.size - m.used - full) m.size g top_full
              (omega (arith, s.frame_is)) hi)
          page bm t

alloc-eq :
    (type : MmType) (order : ℤ) (m : Manager)
    → m.ready ≡ true
    → mm_get_count order ≢ 0
    → let skip = skip_full m.bitmap (m.size - m.used) in
      let start = first_block type (mm_get_count order) skip.1 in
      let take = take_pages (suc start) (mm_get_count order) start m.bitmap in
      mm_alloc_pages true type order m
      ≡ (take.0, record m { used = m.used + skip.0; bitmap = take.1 })
unfolding mm_alloc_pages
alloc-eq type order m r h = ground arith

full_above :
    (m : Manager) (full frame : ℕ)
    → IsValid m
    → Skips m.bitmap (m.size - m.used) (full, frame)
    → (g : ℕ) → frame ≤ g
    → g < m.size * 8
    → in_use m.bitmap g ≡ true
full_above m full frame v s g lo hi =
    FullFrom-in_use m.bitmap (m.size - m.used - full) m.size g
      (FullFrom-append m.bitmap (m.size - m.used - full) (m.size - m.used) m.size s.full v.full)
      (omega (arith, s.frame_is)) hi

-- `mm_alloc_pages` of a manager that is ready and in order, with the lock, for an order from 0 to 10: among
-- the blocks of that size that are aligned to it, end below the limit of the memory type and are not
-- block 0, it takes the highest that is free as a whole, marks its frames and no other, and returns its
-- address; it returns 0 and leaves the bitmap as it is only if there is no such block. The manager stays
-- ready and in order, over the same memory.
pub mm_alloc_pages-AllocatesBlock :
    (type : MmType) (order : ℤ) (m : Manager)
    → m.ready ≡ true
    → IsValid m
    → mm_get_count order ≢ 0
    → let r = mm_alloc_pages true type order m in AllocatesBlock type (mm_get_count order) m r.0 r.1
mm_alloc_pages-AllocatesBlock type order m r v h =
    let c = mm_get_count order in
    let k = mm_get_count-IsCount order h in
    let s = skip_full-Skips m.bitmap (m.size - m.used) in
    let frame = (skip_full m.bitmap (m.size - m.used)).1 in
    let small : frame < 2 ^ 50 = omega (arith, s.frame_is, v.small) in
    rw (alloc-eq type order m r h, first_block-mul type c frame k small)
      (found_AllocatesBlock type m c _ _ _ _ k v s (
        take_pages-TakesBlock m.bitmap c (count_pos c k) v.bytes (suc (first type c frame * c))
          (first type c frame) (enough_fuel (first type c frame) c (count_pos c k))
          (omega (
            arith,
            v.length_is,
            last_fits type m.bitmap c frame (m.size * 8) k (omega (arith, v.pages))
                (omega (arith, s.frame_is)) (full_above m _ frame v s) (omega (arith, v.some_size)),
          ))))
