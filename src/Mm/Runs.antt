-- ===== src/Mm/Runs.antt =====
-- The loops of mm.c over a run of frames.
use dancy.Base.{
  ℕ, zero, suc, ◌+◌, ◌*◌, ◌/◌, ◌%◌, ◌≤◌, ◌<◌, ◌≡◌, ◌↔◌, inl, inr, refl, ◌∙◌, sym, Bool, true, false,
  ◌&&◌, arith, ltb, leb, ◌==◌, if◌then◌else◌, Bool-cases, List, length, length-set, bit_and,
  ℕ_discrete,
}
use dancy.Base.Bits.{bit_and-ones}
use dancy.Mm.{
  byte_at, with_bit, without_bit, clear_loop, set_loop, test_loop, mm_bitmap_clear, mm_bitmap_set,
  mm_bitmap_test,
}
use dancy.Mm.Frames.{
  in_use, AllBytes, mark, unmark, in_use-mark, in_use-unmark, mark-AllBytes, unmark-AllBytes,
}

next_bit : (f : ℕ) → bit_and (f % 8 + 1) 7 ≡ (f + 1) % 8
next_bit f = omega (arith, bit_and-ones 3 (f % 8 + 1))

next_byte : (f : ℕ) → (if (f + 1) % 8 == 0 then f / 8 + 1 else f / 8) ≡ (f + 1) / 8
next_byte f = ground arith

-- In the run of `n` frames from `f` on.
abbrev pub within : ℕ → ℕ → ℕ → Bool
within f n g = leb f g && ltb g (f + n)

clear_loop-suc :
    (n f : ℕ) (bm : List ℕ)
    → clear_loop (suc n) (f % 8) (f / 8) bm ≡ clear_loop n ((f + 1) % 8) ((f + 1) / 8) (unmark bm f)
unfolding clear_loop
clear_loop-suc n f bm = rw (next_bit f, next_byte f)

set_loop-suc :
    (n f : ℕ) (bm : List ℕ)
    → set_loop (suc n) (f % 8) (f / 8) bm ≡ set_loop n ((f + 1) % 8) ((f + 1) / 8) (mark bm f)
unfolding set_loop
set_loop-suc n f bm = rw (next_bit f, next_byte f)

test_loop-suc :
    (n f : ℕ) (bm : List ℕ)
    → test_loop (suc n) (f % 8) (f / 8) bm
      ≡ (if in_use bm f then true else test_loop n ((f + 1) % 8) ((f + 1) / 8) bm)
unfolding test_loop in_use
test_loop-suc n f bm = rw (next_bit f, next_byte f)

-- What a loop over a run leaves behind: the frames in the run have the value `v`, and no other changes.
pub record Changes (v : Bool) (f n : ℕ) (bm bm' : List ℕ) : Type 0 where
  pub frames : (g : ℕ) → in_use bm' g ≡ (if within f n g then v else in_use bm g)
  pub bytes : AllBytes bm'
  pub length_is : length bm' ≡ length bm

clear_loop-Changes :
    (n f : ℕ) (bm : List ℕ)
    → f + n ≤ 8 * length bm
    → AllBytes bm
    → Changes false f n bm (clear_loop n (f % 8) (f / 8) bm)
clear_loop-Changes zero f bm h b =
    unfold clear_loop in record { frames = λ g. ground arith; bytes = b; length_is = refl }
clear_loop-Changes (suc n) f bm h b =
    let len = length-set bm (f / 8) (without_bit (byte_at bm (f / 8)) (f % 8)) in
    let c =
      clear_loop-Changes n (f + 1) (unmark bm f) (omega (arith, len)) (unmark-AllBytes bm f b) in
    rw clear_loop-suc (record {
      frames = λ g. c.frames g ∙ ground (arith, in_use-unmark bm f g b (omega arith));
      bytes = c.bytes;
      length_is = c.length_is ∙ len;
    })

set_loop-Changes :
    (n f : ℕ) (bm : List ℕ)
    → f + n ≤ 8 * length bm
    → AllBytes bm
    → Changes true f n bm (set_loop n (f % 8) (f / 8) bm)
set_loop-Changes zero f bm h b =
    unfold set_loop in record { frames = λ g. ground arith; bytes = b; length_is = refl }
set_loop-Changes (suc n) f bm h b =
    let len = length-set bm (f / 8) (with_bit (byte_at bm (f / 8)) (f % 8)) in
    let c = set_loop-Changes n (f + 1) (mark bm f) (omega (arith, len)) (mark-AllBytes bm f b) in
    rw set_loop-suc (record {
      frames = λ g. c.frames g ∙ ground (arith, in_use-mark bm f g b (omega arith));
      bytes = c.bytes;
      length_is = c.length_is ∙ len;
    })

-- No frame of the run is in use.
abbrev pub AllFree : List ℕ → ℕ → ℕ → Type 0
AllFree bm f n = (g : ℕ) → f ≤ g → g < f + n → in_use bm g ≡ false

test_loop-free : (n f : ℕ) (bm : List ℕ) → test_loop n (f % 8) (f / 8) bm ≡ false → AllFree bm f n
test_loop-free zero f bm h g lo hi = absurd (omega arith)
test_loop-free (suc n) f bm h g lo hi =
    let step = sym (test_loop-suc n f bm) ∙ h in
    elim (Bool-cases (in_use bm f)) [
      | inl busy ↦ cc
      | inr idle ↦ elim (ℕ_discrete f g) [
        | yes e ↦ rw (← e) idle
        | no ne ↦ test_loop-free n (f + 1) bm (rw idle at step) g (omega arith) (omega arith)
      ]
    ]

test_loop_of_free :
    (n f : ℕ) (bm : List ℕ) → AllFree bm f n → test_loop n (f % 8) (f / 8) bm ≡ false
test_loop_of_free zero f bm h = unfold test_loop in refl
test_loop_of_free (suc n) f bm h =
    test_loop-suc n f bm
    ∙ ground (
      arith,
      h f (omega arith) (omega arith),
      test_loop_of_free n (f + 1) bm (λ g lo hi. h g (omega arith) (omega arith)),
    )

module _ (f n : ℕ) (bm : List ℕ) where
  pub mm_bitmap_set-Changes :
      f + n ≤ 8 * length bm → AllBytes bm → Changes true f n bm (mm_bitmap_set f n bm)
  unfolding mm_bitmap_set
  mm_bitmap_set-Changes h b = rw (bit_and-ones 3 f) (set_loop-Changes n f bm h b)

  pub mm_bitmap_clear-Changes :
      f + n ≤ 8 * length bm → AllBytes bm → Changes false f n bm (mm_bitmap_clear f n bm)
  unfolding mm_bitmap_clear
  mm_bitmap_clear-Changes h b = rw (bit_and-ones 3 f) (clear_loop-Changes n f bm h b)

  pub mm_bitmap_test_iff : (mm_bitmap_test f n bm ≡ false) ↔ AllFree bm f n
  unfolding mm_bitmap_test
  mm_bitmap_test_iff = rw (bit_and-ones 3 f) (test_loop-free n f bm, test_loop_of_free n f bm)
