-- ===== src/Mm/Page.antt =====
-- `mm_alloc_page` and `mm_free_page` on a manager in order.
use dancy.Base.{
  ℕ, suc, ◌+◌, ◌-◌, ◌*◌, ◌/◌, ◌^◌, ◌≤◌, ◌<◌, ◌≡◌, ◌≢◌, ◌⊎◌, inl, inr, refl, ◌∙◌, ap, true, false,
  arith, ◌==◌, if◌then◌else◌, List, length, length-set, dec_lt,
}
use dancy.Base.Bits.{bit_and-ones}
use dancy.Mm.{Manager, skip_full, take_page, mm_alloc_page, mm_free_page, lower_used}
use dancy.Mm.Frames.{in_use, unmark, in_use-mark, in_use-unmark, unmark-AllBytes, byte_at-set}
use dancy.Mm.Alloc.{
  FullFrom, IsValid, Skips, skip_full-Skips, Takes, none_free, found, take_page-Takes, raise_Takes,
  FullFrom-in_use, FullFrom-append, Takes-IsValid,
}

-- What `mm_alloc_page` has done.
pub record Allocates (m : Manager) (page : ℕ) (m' : Manager) : Type 0 where
  pub valid : IsValid m'
  pub takes : Takes m.bitmap (m.size * 8) page m'.bitmap
  pub size_is : m'.size ≡ m.size
  pub ready_is : m'.ready ≡ m.ready

found_Allocates :
    (m : Manager) (full frame page : ℕ) (bm : List ℕ)
    → IsValid m
    → Skips m.bitmap (m.size - m.used) (full, frame)
    → Takes m.bitmap (suc (frame - 1)) page bm
    → Allocates m page (record m { used = m.used + full; bitmap = bm })
found_Allocates m full frame page bm v s t = record {
  valid = Takes-IsValid m full page bm v s.at_most top_full takes;
  takes = takes;
  size_is = refl;
  ready_is = refl;
}
  where
    top_full : FullFrom m.bitmap (m.size - m.used - full) m.size
    top_full =
        FullFrom-append m.bitmap (m.size - m.used - full) (m.size - m.used) m.size s.full v.full

    takes : Takes m.bitmap (m.size * 8) page bm
    takes =
        raise_Takes m.bitmap (suc (frame - 1)) (m.size * 8) page bm
          (omega (arith, s.frame_is, s.at_most, v.some_size))
          (λ g lo hi.
            FullFrom-in_use m.bitmap (m.size - m.used - full) m.size g top_full
              (omega (arith, s.frame_is)) hi)
          t

alloc-eq :
    (m : Manager)
    → m.ready ≡ true
    → let skip = skip_full m.bitmap (m.size - m.used) in
      let take = take_page (skip.1 - 1) m.bitmap in
      mm_alloc_page true m ≡ (take.0, record m { used = m.used + skip.0; bitmap = take.1 })
unfolding mm_alloc_page
alloc-eq m r = ground arith

-- `mm_alloc_page` of a manager that is ready and in order, with the lock, takes the highest free frame
-- that is not frame 0, marks it and no other, and returns its address; it returns 0 and leaves the bitmap
-- as it is only if there is no such frame. The manager stays ready and in order, over the same memory.
pub mm_alloc_page-Allocates :
    (m : Manager)
    → m.ready ≡ true
    → IsValid m
    → Allocates m (mm_alloc_page true m).0 (mm_alloc_page true m).1
mm_alloc_page-Allocates m r v = rw (alloc-eq m r) (
    found_Allocates m _ _ _ _ v (skip_full-Skips m.bitmap (m.size - m.used))
      (take_page-Takes _ m.bitmap))

-- A freed frame: its bit is clear, all others are as they were.
pub record Frees (m : Manager) (f : ℕ) (m' : Manager) : Type 0 where
  pub valid : IsValid m'
  pub frames : (g : ℕ) → in_use m'.bitmap g ≡ (if f == g then false else in_use m.bitmap g)
  pub size_is : m'.size ≡ m.size
  pub ready_is : m'.ready ≡ m.ready

freed : Manager → ℕ → Manager
freed m f = record m { bitmap = unmark m.bitmap f; used = lower_used m (f / 8) }

pub lower_used_lem :
    (m : Manager) (i : ℕ)
    → m.used ≤ m.size
    → i < m.size
    → (lower_used m i ≤ m.used) × (i < m.size - lower_used m i)
lower_used_lem m i h h' = ground arith

freed-Frees : (m : Manager) (f : ℕ) → IsValid m → f < m.size * 8 → Frees m f (freed m f)
unfolding freed
freed-Frees m f v h =
    let low = lower_used_lem m (f / 8) v.used_le (omega arith) in
    let inside : f / 8 < length m.bitmap = omega (arith, v.length_is) in
    record {
      valid = record {
        length_is = length-set m.bitmap (f / 8) _ ∙ v.length_is;
        bytes = unmark-AllBytes m.bitmap f v.bytes;
        pages = v.pages;
        some_size = v.some_size;
        small = v.small;
        used_le = omega (arith, low, v.used_le);
        full = λ i lo hi.
            byte_at-set m.bitmap (f / 8) i _ inside
            ∙ ground (arith, low, v.full i (omega (arith, low, v.used_le)) hi);
      };
      frames = λ g. in_use-unmark m.bitmap f g v.bytes inside;
      size_is = refl;
      ready_is = refl;
    }

free-eq :
    (m : Manager) (addr : ℕ)
    → m.ready ≡ true
    → 0 < addr / 2 ^ 12
    → addr / 2 ^ 12 < m.size * 8
    → mm_free_page true addr m ≡ freed m (addr / 2 ^ 12)
unfolding mm_free_page freed
free-eq m addr r lo hi = rw (bit_and-ones 3 (addr / 2 ^ 12)) (ground arith)

skipped :
    (m : Manager) (addr : ℕ)
    → (addr / 2 ^ 12 ≡ 0) ⊎ (m.size * 8 ≤ addr / 2 ^ 12)
    → mm_free_page true addr m ≡ m
unfolding mm_free_page
skipped m addr h = ground arith

-- `mm_free_page` of a manager that is ready and in order, with the lock: it clears the bit of the page
-- that the address lies in, and no other, if that is a page of the bitmap and not page 0; else it does
-- nothing. The manager stays in order, with its hint about the full bytes lowered as needed.
pub mm_free_page-Frees :
    (m : Manager) (addr : ℕ)
    → m.ready ≡ true
    → IsValid m
    → ((0 < addr / 2 ^ 12)
        × (addr / 2 ^ 12 < m.size * 8)
        × Frees m (addr / 2 ^ 12) (mm_free_page true addr m))
      ⊎ (((addr / 2 ^ 12 ≡ 0) ⊎ (m.size * 8 ≤ addr / 2 ^ 12)) × (mm_free_page true addr m ≡ m))
mm_free_page-Frees m addr r v = elim (dec_lt 0 f) [
  | no zero_page ↦ inr (inl (omega arith), skip (inl (omega arith)))
  | yes lo ↦ elim (dec_lt f (m.size * 8)) [
    | no past ↦ inr (inr (omega arith), skip (inr (omega arith)))
    | yes hi ↦ inl (lo, hi, rw (free-eq m addr r lo hi) (freed-Frees m f v hi))
  ]
]
  where
    f : ℕ
    f = addr / 2 ^ 12

    skip : (f ≡ 0) ⊎ (m.size * 8 ≤ f) → mm_free_page true addr m ≡ m
    skip = skipped m addr

restores :
    (m m' : Manager) (page : ℕ)
    → page ≢ 0
    → m'.ready ≡ true
    → IsValid m
    → Allocates m page m'
    → IsValid (mm_free_page true page m')
      × ((g : ℕ) → in_use (mm_free_page true page m').bitmap g ≡ in_use m.bitmap g)
restores m m' page ne r v a = by_case a.takes (mm_free_page-Frees m' page r a.valid)
  where
    Answer : Type 0
    Answer =
        IsValid (mm_free_page true page m')
        × ((g : ℕ) → in_use (mm_free_page true page m').bitmap g ≡ in_use m.bitmap g)

    by_case :
        Takes m.bitmap (m.size * 8) page m'.bitmap
        → ((0 < page / 2 ^ 12)
            × (page / 2 ^ 12 < m'.size * 8)
            × Frees m' (page / 2 ^ 12) (mm_free_page true page m'))
          ⊎ (((page / 2 ^ 12 ≡ 0) ⊎ (m'.size * 8 ≤ page / 2 ^ 12))
              × (mm_free_page true page m' ≡ m'))
        → Answer
    by_case (none_free z same all) t = absurd (ne z)
    by_case (found f is_f b lo hi idle above) (inl (p, q, t)) = (
      t.valid,
      λ g.
          t.frames g
          ∙ ground (
            arith,
            ap (λ bm. in_use bm g) b,
            in_use-mark m.bitmap f g v.bytes (omega (arith, v.length_is)),
            idle,
          ),
    )
    by_case (found f is_f b lo hi idle above) (inr (h, e)) = absurd (omega (arith, a.size_is))

-- In a manager that is ready and in order: freeing the page that `mm_alloc_page` returned leaves each frame
-- in use or free as it was before, and the manager in order.
pub mm_free_page-mm_alloc_page :
    (m : Manager)
    → m.ready ≡ true
    → IsValid m
    → (mm_alloc_page true m).0 ≢ 0
    → let (page, m') = mm_alloc_page true m in
      IsValid (mm_free_page true page m')
      × ((g : ℕ) → in_use (mm_free_page true page m').bitmap g ≡ in_use m.bitmap g)
mm_free_page-mm_alloc_page m r v ne =
    let a = mm_alloc_page-Allocates m r v in restores m _ _ ne (a.ready_is ∙ r) v a
