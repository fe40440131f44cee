-- ===== src/Mm/Frames.antt =====
-- The bitmap as the set of the frames in use, and the loops over a run of frames.
use dancy.Base.{
  ℕ, zero, suc, ◌/◌, ◌%◌, ◌<◌, ◌≡◌, ◌∙◌, ap, Bool, true, false, arith, ◌==◌, if◌then◌else◌, List,
  [], ◌∷◌, set, length,
}
use dancy.Mm.{byte_at, with_bit, without_bit, has_bit}
use dancy.Mm.Bytes.{has_bit-with_bit, has_bit-without_bit, with_bit-lt, without_bit-lt}

-- The frame is in use.
unfoldable pub in_use : List ℕ → ℕ → Bool
in_use bm frame = has_bit (byte_at bm (frame / 8)) (frame % 8)

-- All its entries are bytes.
abbrev pub AllBytes : List ℕ → Type 0
AllBytes [] = Unit
AllBytes (v ∷ bm) = (v < 256) × AllBytes bm

pub byte_at-lt : (bm : List ℕ) (i : ℕ) → AllBytes bm → byte_at bm i < 256
byte_at-lt [] i h = omega arith
byte_at-lt (v ∷ bm) zero h = h.0
byte_at-lt (v ∷ bm) (suc i) h = byte_at-lt bm i h.1

pub set-AllBytes : (bm : List ℕ) (i v : ℕ) → v < 256 → AllBytes bm → AllBytes (set bm i v)
set-AllBytes [] i v hv h = h
set-AllBytes (w ∷ bm) zero v hv h = (hv, h.1)
set-AllBytes (w ∷ bm) (suc i) v hv h = (h.0, set-AllBytes bm i v hv h.1)

pub byte_at-set :
    (bm : List ℕ) (i j v : ℕ)
    → i < length bm
    → byte_at (set bm i v) j ≡ (if i == j then v else byte_at bm j)
byte_at-set [] i j v h = absurd (omega arith)
byte_at-set (w ∷ bm) zero zero v h = ground arith
byte_at-set (w ∷ bm) zero (suc j) v h = ground arith
byte_at-set (w ∷ bm) (suc i) zero v h = ground arith
byte_at-set (w ∷ bm) (suc i) (suc j) v h = byte_at-set bm i j v (omega arith) ∙ ground arith

-- One frame set, or cleared.
abbrev pub mark : List ℕ → ℕ → List ℕ
mark bm f = set bm (f / 8) (with_bit (byte_at bm (f / 8)) (f % 8))

abbrev pub unmark : List ℕ → ℕ → List ℕ
unmark bm f = set bm (f / 8) (without_bit (byte_at bm (f / 8)) (f % 8))

module _ (bm : List ℕ) (f g : ℕ) (b : AllBytes bm) (h : f / 8 < length bm) where
  pub in_use-mark : in_use (mark bm f) g ≡ (if f == g then true else in_use bm g)
  unfolding in_use
  in_use-mark =
      ap (λ v. has_bit v (g % 8)) (byte_at-set bm (f / 8) (g / 8) _ h)
      ∙ ground (
        arith,
        has_bit-with_bit (byte_at bm (f / 8)) (f % 8) (g % 8) (byte_at-lt bm (f / 8) b)
            (omega arith) (omega arith),
      )

  pub in_use-unmark : in_use (unmark bm f) g ≡ (if f == g then false else in_use bm g)
  unfolding in_use
  in_use-unmark =
      ap (λ v. has_bit v (g % 8)) (byte_at-set bm (f / 8) (g / 8) _ h)
      ∙ ground (
        arith,
        has_bit-without_bit (byte_at bm (f / 8)) (f % 8) (g % 8) (byte_at-lt bm (f / 8) b)
            (omega arith) (omega arith),
      )

pub mark-AllBytes : (bm : List ℕ) (f : ℕ) → AllBytes bm → AllBytes (mark bm f)
mark-AllBytes bm f b = set-AllBytes bm (f / 8) _ (with_bit-lt _ _) b

pub unmark-AllBytes : (bm : List ℕ) (f : ℕ) → AllBytes bm → AllBytes (unmark bm f)
unmark-AllBytes bm f b = set-AllBytes bm (f / 8) _ (without_bit-lt _ _) b
