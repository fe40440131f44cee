-- ===== src/Mm/Blocks.antt =====
-- The loop of `mm_alloc_pages` over aligned blocks.
use dancy.Base.{
  ℕ, zero, suc, ◌+◌, ◌-◌, ◌*◌, ◌≤◌, ◌<◌, ◌≡◌, ◌≢◌, inl, inr, refl, true, false, arith, Bool-cases,
  List, length, ℕ_discrete,
}
use dancy.Mm.{take_pages, mm_bitmap_test, mm_bitmap_set}
use dancy.Mm.Frames.{AllBytes}
use dancy.Mm.Runs.{Changes, AllFree, mm_bitmap_set-Changes, mm_bitmap_test_iff}

-- The highest block that is free as a whole, among those whose number fits `R` and is not 0: its
-- address, and the bitmap with it marked; or nothing, as there is none. Block `j` starts at frame `j * c`.
pub data TakesBlock (bm : List ℕ) (c : ℕ) (R : ℕ → Type 0) (page : ℕ) (bm' : List ℕ) : Type 0 where
  no_block :
      page ≡ 0
      → bm' ≡ bm
      → ((j : ℕ) → 0 < j → R j → ¬ AllFree bm (j * c) c)
      → TakesBlock bm c R page bm'
  block :
      (j : ℕ)
      → page ≡ j * c * 0x1000
      → Changes true (j * c) c bm bm'
      → 0 < j
      → R j
      → AllFree bm (j * c) c
      → ((i : ℕ) → j < i → R i → ¬ AllFree bm (i * c) c)
      → TakesBlock bm c R page bm'

pages_end : (fuel c : ℕ) (bm : List ℕ) → take_pages (suc fuel) c 0 bm ≡ (0, bm)
unfolding take_pages
pages_end fuel c bm = refl

pages_hit :
    (fuel c f : ℕ) (bm : List ℕ)
    → f ≢ 0
    → mm_bitmap_test f c bm ≡ false
    → take_pages (suc fuel) c f bm ≡ (f * 0x1000, mm_bitmap_set f c bm)
unfolding take_pages
pages_hit fuel c f bm h t = ground arith

pages_miss :
    (fuel c f : ℕ) (bm : List ℕ)
    → f ≢ 0
    → mm_bitmap_test f c bm ≡ true
    → take_pages (suc fuel) c f bm ≡ take_pages fuel c (f - c) bm
unfolding take_pages
pages_miss fuel c f bm h t = ground arith

-- The busy block `suc p` above what has been searched.
higher_block :
    (bm : List ℕ) (c p page : ℕ) (bm' : List ℕ)
    → ¬ AllFree bm (suc p * c) c
    → TakesBlock bm c (λ j. j ≤ p) page bm'
    → TakesBlock bm c (λ j. j ≤ suc p) page bm'
higher_block bm c p page bm' busy (no_block z same all) =
    no_block z same (λ j lo hi. elim (ℕ_discrete j (suc p)) [
      | yes e ↦ rw e busy
      | no ne ↦ all j lo (omega arith)
    ])
higher_block bm c p page bm' busy (block j is_j ch lo hi idle above) =
    block j is_j ch lo (omega arith) idle (λ i lo' hi'. elim (ℕ_discrete i (suc p)) [
      | yes e ↦ rw e busy
      | no ne ↦ above i lo' (omega arith)
    ])

module _ (bm : List ℕ) (c : ℕ) (hc : 0 < c) (b : AllBytes bm) where
  occupied : (f : ℕ) → mm_bitmap_test f c bm ≡ true → ¬ AllFree bm f c
  occupied f busy free = let idle = (mm_bitmap_test_iff f c bm).1 free in cc

  pub take_pages-TakesBlock :
      (fuel q : ℕ)
      → q < fuel
      → q * c + c ≤ 8 * length bm
      → TakesBlock bm c
          (λ j. j ≤ q)
          (take_pages fuel c (q * c) bm).0
          (take_pages fuel c (q * c) bm).1
  take_pages-TakesBlock zero q h fits = absurd (omega arith)
  take_pages-TakesBlock (suc fuel) zero h fits =
      let z : 0 * c ≡ 0 = omega arith in
      rw (z, pages_end fuel c bm) (no_block refl refl (λ j lo hi. absurd (omega arith)))
  take_pages-TakesBlock (suc fuel) (suc p) h fits =
      let some_frame : suc p * c ≢ 0 = grind arith in
      let one_less : suc p * c - c ≡ p * c = grind arith in
      elim (Bool-cases (mm_bitmap_test (suc p * c) c bm)) [
        | inr idle ↦ rw (pages_hit fuel c (suc p * c) bm some_frame idle) (
            block (suc p) refl (mm_bitmap_set-Changes (suc p * c) c bm fits b) (omega arith)
              (omega arith) ((mm_bitmap_test_iff (suc p * c) c bm).0 idle)
              (λ i lo hi. absurd (omega arith)))
        | inl busy ↦
            rw (pages_miss fuel c (suc p * c) bm some_frame busy, one_less)
              (higher_block bm c p _ _ (occupied (suc p * c) busy)
                (take_pages-TakesBlock fuel p (omega arith) (omega (arith, one_less))))
      ]
