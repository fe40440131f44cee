-- ===== src/Mm/Counts.antt =====
-- The sizes of blocks, their alignment, and the limits of the memory types.
use dancy.Base.{
  ℕ, ◌+◌, ◌-◌, ◌*◌, ◌/◌, ◌%◌, ◌^◌, ◌≤◌, ◌<◌, ◌≡◌, ◌≢◌, ◌⊎◌, inl, inr, refl, ◌∙◌, ap, arith, some,
  none,
}
use dancy.Base.Bits.{bit_and-ones, bit_and-shift}
use native.Mathlib.Nat.{mod-eq_of_lt, div-le_self}
use dancy.Base.Int.{ℤ, pos, negsuc}
use dancy.Mm.{MmType, mm_get_count, align_down, limit}

-- The count of an order from 0 to 10.
abbrev pub IsCount : ℕ → Type 0
IsCount c =
    (c ≡ 0x001)
    ⊎ ((c ≡ 0x002)
        ⊎ ((c ≡ 0x004)
            ⊎ ((c ≡ 0x008)
                ⊎ ((c ≡ 0x010)
                    ⊎ ((c ≡ 0x020)
                        ⊎ ((c ≡ 0x040)
                            ⊎ ((c ≡ 0x080) ⊎ ((c ≡ 0x100) ⊎ ((c ≡ 0x200) ⊎ (c ≡ 0x400))))))))))

pub mm_get_count-IsCount : (order : ℤ) → mm_get_count order ≢ 0 → IsCount (mm_get_count order)
unfolding mm_get_count
mm_get_count-IsCount (negsuc n) h = absurd (h refl)
mm_get_count-IsCount (pos order) h = ground arith

align_at :
    (k x c : ℕ)
    → c ≡ 2 ^ k
    → 2 ^ 64 - 1 - (2 ^ k - 1) ≡ (2 ^ (64 - k) - 1) * 2 ^ k
    → 2 ^ 50 ≤ 2 ^ (64 - k)
    → x < 2 ^ 50
    → align_down x c ≡ x / c * c
unfolding align_down
align_at k x c e mask wide h = rw e (
    rw mask (
      bit_and-shift k x (2 ^ (64 - k) - 1)
      ∙ ap (λ y. y * 2 ^ k) (bit_and-ones (64 - k) (x / 2 ^ k) ∙ mod-eq_of_lt small)))
  where
    small : x / 2 ^ k < 2 ^ (64 - k)
    small = omega (arith, div-le_self x (2 ^ k))

-- Rounding down to a block.
pub align_down-mul : (x c : ℕ) → IsCount c → x < 2 ^ 50 → align_down x c ≡ x / c * c
align_down-mul x c (inl e) h = align_at 0 x c e refl (omega arith) h
align_down-mul x c (inr (inl e)) h = align_at 1 x c e refl (omega arith) h
align_down-mul x c (inr (inr (inl e))) h = align_at 2 x c e refl (omega arith) h
align_down-mul x c (inr (inr (inr (inl e)))) h = align_at 3 x c e refl (omega arith) h
align_down-mul x c (inr (inr (inr (inr (inl e))))) h = align_at 4 x c e refl (omega arith) h
align_down-mul x c (inr (inr (inr (inr (inr (inl e)))))) h = align_at 5 x c e refl (omega arith) h
align_down-mul x c (inr (inr (inr (inr (inr (inr (inl e))))))) h =
    align_at 6 x c e refl (omega arith) h
align_down-mul x c (inr (inr (inr (inr (inr (inr (inr (inl e)))))))) h =
    align_at 7 x c e refl (omega arith) h
align_down-mul x c (inr (inr (inr (inr (inr (inr (inr (inr (inl e))))))))) h =
    align_at 8 x c e refl (omega arith) h
align_down-mul x c (inr (inr (inr (inr (inr (inr (inr (inr (inr (inl e)))))))))) h =
    align_at 9 x c e refl (omega arith) h
align_down-mul x c (inr (inr (inr (inr (inr (inr (inr (inr (inr (inr e)))))))))) h =
    align_at 10 x c e refl (omega arith) h

-- The first frame past the memory of a type, in a bitmap for `frames` frames; 0 for an unknown type.
abbrev pub ceiling : MmType → ℕ → ℕ
ceiling type frames = elim (limit type frames) [ none ↦ 0 | some top ↦ top ]

pub ceiling-le : (type : MmType) (frames : ℕ) → ceiling type frames ≤ frames
ceiling-le type frames = ground arith

-- A block that starts below the ceiling ends below it, or at it.
pub block_fits :
    (type : MmType) (frames c j : ℕ)
    → IsCount c
    → frames % 0x8000 ≡ 0
    → 0 < j
    → j * c < ceiling type frames
    → j * c + c ≤ ceiling type frames
block_fits type frames c j k pages lo h = ground arith
