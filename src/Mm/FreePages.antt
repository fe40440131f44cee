-- ===== src/Mm/FreePages.antt =====
-- `mm_free_pages` on a manager in order.
use dancy.Base.{
  ℕ, ◌+◌, ◌-◌, ◌*◌, ◌/◌, ◌%◌, ◌^◌, ◌≤◌, ◌<◌, ◌≡◌, ◌≢◌, ◌⊎◌, inl, inr, refl, ◌∙◌, sym, true, false,
  arith, if◌then◌else◌, ℕ_discrete, dec_lt, bit_and,
}
use dancy.Base.Bits.{bit_and-ones}
use dancy.Base.Int.{ℤ}
use dancy.Mm.{
  Manager, mm_get_count, mm_free_pages, mm_alloc_pages, mm_bitmap_clear, lower_used, MmType,
}
use dancy.Mm.Frames.{in_use}
use dancy.Mm.Runs.{within, mm_bitmap_clear-Changes}
use dancy.Mm.Counts.{IsCount, mm_get_count-IsCount, ceiling, ceiling-le}
use dancy.Mm.Blocks.{TakesBlock, no_block, block}
use dancy.Mm.Alloc.{IsValid, FullFrom-in_use}
use dancy.Mm.Page.{lower_used_lem}
use dancy.Mm.Pages.{Below, AllocatesBlock, full_of_in_use}
use dancy.Mm.AllocPages.{mm_alloc_pages-AllocatesBlock}

-- A freed block: its frames are free, all others are as they were.
pub record FreesBlock (m : Manager) (f c : ℕ) (m' : Manager) : Type 0 where
  pub valid : IsValid m'
  pub frames : (g : ℕ) → in_use m'.bitmap g ≡ (if within f c g then false else in_use m.bitmap g)
  pub size_is : m'.size ≡ m.size
  pub ready_is : m'.ready ≡ m.ready

-- A block of the bitmap, aligned and not at frame 0.
abbrev pub IsBlock : Manager → ℕ → ℕ → Type 0
IsBlock m f c = (0 < f) × (f % c ≡ 0) × (f + c ≤ m.size * 8)

freed_block : Manager → ℕ → ℕ → Manager
freed_block m f c = record m {
  bitmap = mm_bitmap_clear f c m.bitmap;
  used = lower_used m ((f + (c - 1)) / 8);
}

freed_block-FreesBlock :
    (m : Manager) (f c : ℕ)
    → IsValid m
    → 0 < c
    → f + c ≤ m.size * 8
    → FreesBlock m f c (freed_block m f c)
unfolding freed_block
freed_block-FreesBlock m f c v hc h =
    let low = lower_used_lem m ((f + (c - 1)) / 8) v.used_le (omega arith) in
    let ch = mm_bitmap_clear-Changes f c m.bitmap (omega (arith, v.length_is)) v.bytes in
    record {
      valid = record {
        length_is = ch.length_is ∙ v.length_is;
        bytes = ch.bytes;
        pages = v.pages;
        some_size = v.some_size;
        small = v.small;
        used_le = omega (arith, low, v.used_le);
        full = λ i lo hi. full_of_in_use _ i ch.bytes (λ b hb.
            ch.frames (i * 8 + b)
            ∙ ground (
              arith,
              low,
              FullFrom-in_use m.bitmap (m.size - m.used) m.size (i * 8 + b) v.full
                  (omega (arith, low, v.used_le)) (omega arith),
            ));
      };
      frames = ch.frames;
      size_is = refl;
      ready_is = refl;
    }

mask_at : (k x c : ℕ) → c ≡ 2 ^ k → bit_and x (c - 1) ≡ x % c
mask_at k x c e = rw e (bit_and-ones k x)

-- The test of the alignment.
mask_mod : (x c : ℕ) → IsCount c → bit_and x (c - 1) ≡ x % c
mask_mod x c (inl e) = mask_at 0 x c e
mask_mod x c (inr (inl e)) = mask_at 1 x c e
mask_mod x c (inr (inr (inl e))) = mask_at 2 x c e
mask_mod x c (inr (inr (inr (inl e)))) = mask_at 3 x c e
mask_mod x c (inr (inr (inr (inr (inl e))))) = mask_at 4 x c e
mask_mod x c (inr (inr (inr (inr (inr (inl e)))))) = mask_at 5 x c e
mask_mod x c (inr (inr (inr (inr (inr (inr (inl e))))))) = mask_at 6 x c e
mask_mod x c (inr (inr (inr (inr (inr (inr (inr (inl e)))))))) = mask_at 7 x c e
mask_mod x c (inr (inr (inr (inr (inr (inr (inr (inr (inl e))))))))) = mask_at 8 x c e
mask_mod x c (inr (inr (inr (inr (inr (inr (inr (inr (inr (inl e)))))))))) = mask_at 9 x c e
mask_mod x c (inr (inr (inr (inr (inr (inr (inr (inr (inr (inr e)))))))))) = mask_at 10 x c e

block_fits_bytes :
    (f c size : ℕ) → IsCount c → f % c ≡ 0 → (f + (c - 1)) / 8 < size → f + c ≤ size * 8
block_fits_bytes f c size k al h = ground arith

module _ (m : Manager) (addr : ℕ) (order : ℤ) (r : m.ready ≡ true)
    (h : mm_get_count order ≢ 0) where
  free-eq :
      0 < addr / 2 ^ 12
      → bit_and (addr / 2 ^ 12) (mm_get_count order - 1) ≡ 0
      → (addr / 2 ^ 12 + (mm_get_count order - 1)) / 8 < m.size
      → mm_free_pages true addr order m ≡ freed_block m (addr / 2 ^ 12) (mm_get_count order)
  unfolding mm_free_pages freed_block
  free-eq lo al hi = ground arith

  skipped :
      (addr / 2 ^ 12 ≡ 0)
        ⊎ ((bit_and (addr / 2 ^ 12) (mm_get_count order - 1) ≢ 0)
            ⊎ (m.size ≤ (addr / 2 ^ 12 + (mm_get_count order - 1)) / 8))
      → mm_free_pages true addr order m ≡ m
  unfolding mm_free_pages
  skipped e = ground arith

-- `mm_free_pages` of a manager that is ready and in order, with the lock, for an order from 0 to 10: if the
-- address lies in the first page of an aligned block of that size, other than block 0 and within the bitmap,
-- then the pages of the block are free and no other page changes; else nothing is done. The manager stays in
-- order.
pub mm_free_pages-FreesBlock :
    (m : Manager) (addr : ℕ) (order : ℤ)
    → m.ready ≡ true
    → IsValid m
    → mm_get_count order ≢ 0
    → (IsBlock m (addr / 2 ^ 12) (mm_get_count order)
        × FreesBlock m (addr / 2 ^ 12) (mm_get_count order) (mm_free_pages true addr order m))
      ⊎ ((¬ IsBlock m (addr / 2 ^ 12) (mm_get_count order)) × (mm_free_pages true addr order m ≡ m))
mm_free_pages-FreesBlock m addr order r v h =
    let k = mm_get_count-IsCount order h in
    let mask = mask_mod f c k in
    elim (dec_lt 0 f) [
      | no zero_page ↦ inr (λ b. zero_page b.0, skipped m addr order r h (inl (omega arith)))
      | yes lo ↦ elim (ℕ_discrete (f % c) 0) [
        | no ne ↦ inr (λ b. ne b.1, skipped m addr order r h (inr (inl (λ e. ne (sym mask ∙ e)))))
        | yes al ↦ elim (dec_lt ((f + (c - 1)) / 8) m.size) [
          | no past ↦
              inr
                (λ b. past (omega (arith, b.2)), skipped m addr order r h (inr (inr (omega arith))))
          | yes hi ↦ inl (
            (lo, al, block_fits_bytes f c m.size k al hi),
            rw (free-eq m addr order r h lo (mask ∙ al) hi) (
                freed_block-FreesBlock m f c v (omega arith) (block_fits_bytes f c m.size k al hi)),
          )
        ]
      ]
    ]
  where
    f : ℕ
    f = addr / 2 ^ 12

    c : ℕ
    c = mm_get_count order

mul_mod : (j c : ℕ) → IsCount c → j * c % c ≡ 0
mul_mod j c k = ground arith

returned :
    (type : MmType) (c : ℕ) (m m' : Manager) (page : ℕ) (m'' : Manager)
    → page ≢ 0
    → IsCount c
    → IsValid m
    → AllocatesBlock type c m page m'
    → (IsBlock m' (page / 2 ^ 12) c × FreesBlock m' (page / 2 ^ 12) c m'')
      ⊎ ((¬ IsBlock m' (page / 2 ^ 12) c) × (m'' ≡ m'))
    → IsValid m'' × ((g : ℕ) → in_use m''.bitmap g ≡ in_use m.bitmap g)
returned type c m m' page m'' ne k v a t = by_case a.takes t
  where
    by_case :
        TakesBlock m.bitmap c (Below c (ceiling type (m.size * 8))) page m'.bitmap
        → (IsBlock m' (page / 2 ^ 12) c × FreesBlock m' (page / 2 ^ 12) c m'')
          ⊎ ((¬ IsBlock m' (page / 2 ^ 12) c) × (m'' ≡ m'))
        → IsValid m'' × ((g : ℕ) → in_use m''.bitmap g ≡ in_use m.bitmap g)
    by_case (no_block z same all) t = absurd (ne z)
    by_case (block j is_j ch lo fits idle above) (inl (b, t)) =
        let frame_is : page / 2 ^ 12 ≡ j * c = omega arith in
        (t.valid, λ g. t.frames g ∙ ground (arith, ch.frames g, idle g))
    by_case (block j is_j ch lo fits idle above) (inr (b, e)) =
        let frame_is : page / 2 ^ 12 ≡ j * c = omega arith in
        absurd (
          b (
            omega (arith, ne),
            rw frame_is (mul_mod j c k),
            omega (arith, fits, a.size_is, ceiling-le type (m.size * 8)),
          ))

-- In a manager that is ready and in order, with the lock, for an order from 0 to 10: freeing the block that
-- `mm_alloc_pages` returned, with the same order, leaves each frame in use or free as it was before, and the
-- manager in order.
pub mm_free_pages-mm_alloc_pages :
    (type : MmType) (order : ℤ) (m : Manager)
    → m.ready ≡ true
    → IsValid m
    → mm_get_count order ≢ 0
    → (mm_alloc_pages true type order m).0 ≢ 0
    → let (page, m') = mm_alloc_pages true type order m in
      IsValid (mm_free_pages true page order m')
      × ((g : ℕ) → in_use (mm_free_pages true page order m').bitmap g ≡ in_use m.bitmap g)
mm_free_pages-mm_alloc_pages type order m r v h ne =
    let a = mm_alloc_pages-AllocatesBlock type order m r v h in
    returned type (mm_get_count order) m _ _ _ ne (mm_get_count-IsCount order h) v a
      (mm_free_pages-FreesBlock _ _ order (a.ready_is ∙ r) a.valid h)
