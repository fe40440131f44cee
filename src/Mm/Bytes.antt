-- ===== src/Mm/Bytes.antt =====
-- One bit of one byte of the bitmap.
use dancy.Base.{ℕ, ◌<◌, ◌≡◌, refl, Bool, true, false, not, ◌||◌, arith, ◌==◌, ==_iff, if◌then◌else◌}
use dancy.Base.Tables.{every_below, every_below_at}
use dancy.Mm.{with_bit, without_bit, has_bit}

abbrev same : Bool → Bool → Bool
same true b = b
same false b = not b

same→eq : (a b : Bool) → same a b ≡ true → a ≡ b
same→eq true true h = refl
same→eq true false h = cc
same→eq false true h = cc
same→eq false false h = refl

-- Every value of a byte and two bits.
abbrev byte_table : (ℕ → ℕ → ℕ → Bool) → Bool
byte_table p = every_below 256 (λ v. every_below 8 (λ b. every_below 8 (λ c. p v b c)))

byte_table_sound :
    (p : ℕ → ℕ → ℕ → Bool) (v b c : ℕ)
    → byte_table p ≡ true
    → v < 256
    → b < 8
    → c < 8
    → p v b c ≡ true
byte_table_sound p v b c h hv hb hc =
    every_below_at 8 (λ c. p v b c) c
      (every_below_at 8 (λ b. every_below 8 (λ c. p v b c)) b
        (every_below_at 256 (λ v. every_below 8 (λ b. every_below 8 (λ c. p v b c))) v h hv) hb)
      hc

abbrev set_case : ℕ → ℕ → ℕ → Bool
set_case v b c = same (has_bit (with_bit v b) c) (if b == c then true else has_bit v c)

abbrev clear_case : ℕ → ℕ → ℕ → Bool
clear_case v b c = same (has_bit (without_bit v b) c) (if b == c then false else has_bit v c)

set_table : byte_table set_case ≡ true
unfolding every_below has_bit with_bit
set_table = refl

clear_table : byte_table clear_case ≡ true
unfolding every_below has_bit without_bit
clear_table = refl

module _ (v b c : ℕ) (hv : v < 256) (hb : b < 8) (hc : c < 8) where
  pub has_bit-with_bit : has_bit (with_bit v b) c ≡ (if b == c then true else has_bit v c)
  has_bit-with_bit = same→eq _ _ (byte_table_sound set_case v b c set_table hv hb hc)

  pub has_bit-without_bit : has_bit (without_bit v b) c ≡ (if b == c then false else has_bit v c)
  has_bit-without_bit = same→eq _ _ (byte_table_sound clear_case v b c clear_table hv hb hc)

pub with_bit-lt : (v b : ℕ) → with_bit v b < 256
unfolding with_bit
with_bit-lt v b = omega arith

pub without_bit-lt : (v b : ℕ) → without_bit v b < 256
unfolding without_bit
without_bit-lt v b = omega arith

-- A full byte has all its bits.
full_table : every_below 8 (λ c. has_bit 0xff c) ≡ true
unfolding every_below has_bit
full_table = refl

pub has_bit_full : (c : ℕ) → c < 8 → has_bit 0xff c ≡ true
has_bit_full c h = every_below_at 8 (λ c. has_bit 0xff c) c full_table h

-- Only a full byte has all its bits.
abbrev full_case : ℕ → Bool
full_case v = (v == 0xff) || not (every_below 8 (λ c. has_bit v c))

full_cases : every_below 256 full_case ≡ true
unfolding every_below has_bit
full_cases = refl

pub eq_full : (v : ℕ) → v < 256 → every_below 8 (λ c. has_bit v c) ≡ true → v ≡ 0xff
eq_full v h all =
    (==_iff v 0xff).0 (left_true _ _ (every_below_at 256 full_case v full_cases h) (rw all))
  where
    left_true : (a b : Bool) → (a || b) ≡ true → b ≡ false → a ≡ true
    left_true true b h e = refl
    left_true false b h e = cc
