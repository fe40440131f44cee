-- ===== src/Bitarray/Stream.antt =====
-- A bit array as the list of the bits that are left in it.
use dancy.Base.{
  ℕ, zero, suc, ◌-◌, ◌*◌, ◌/◌, ◌%◌, ◌<◌, ◌≤◌, ◌≡◌, refl, ap, bit_and, List, [], ◌∷◌, ◌++◌, length,
  ◌==◌, if◌then◌else◌, arith,
}
use dancy.Base.Bits.{bit_and-ones}
use dancy.Bitarray.{Bitarray, Round, bit, again, ended, round, load, refill, bitarray_clear}

-- The `n` low bits of a number, the lowest first.
abbrev pub bits_of : ℕ → ℕ → List ℕ
bits_of zero v = []
bits_of (suc n) v = (v % 2) ∷ bits_of n (v / 2)

abbrev pub byte_bits : List ℕ → List ℕ
byte_bits [] = []
byte_bits (c ∷ bytes) = bits_of 8 c ++ byte_bits bytes

-- The refills up to an empty one.
abbrev pub refill_bits : List (List ℕ) → List ℕ
refill_bits [] = []
refill_bits ([] ∷ refills) = []
refill_bits ((c ∷ bytes) ∷ refills) = byte_bits (c ∷ bytes) ++ refill_bits refills

pub length-bits_of : (n v : ℕ) → length (bits_of n v) ≡ n
length-bits_of zero v = refl
length-bits_of (suc n) v = ap suc (length-bits_of n (v / 2))

pub length-byte_bits : (bytes : List ℕ) → length (byte_bits bytes) ≡ 8 * length bytes
length-byte_bits [] = refl
length-byte_bits (c ∷ bytes) = omega (arith, length-byte_bits bytes)

unfoldable pub stream : Bitarray → List ℕ
stream b = bits_of b.count b.val ++ (byte_bits b.bytes ++ refill_bits b.refills)

-- The rounds before a bit is taken.
unfoldable pub delay : Bitarray → ℕ
delay b = if b.count == 0 then (if length b.bytes == 0 then 2 else 1) else 0

-- What a round does to the bits that are left.
pub data Takes (b : Bitarray) (r : Round) : Type 0 where
  took : (v : ℕ) (b' : Bitarray) → r ≡ bit v b' → stream b ≡ v ∷ stream b' → v < 2 → Takes b r
  went_on : (b' : Bitarray) → r ≡ again b' → stream b' ≡ stream b → delay b' < delay b → Takes b r
  at_end : (b' : Bitarray) → r ≡ ended b' → stream b ≡ [] → Takes b r

pub delay_le : (b : Bitarray) → delay b ≤ 2
unfolding delay
delay_le b = ground arith

refill-Takes :
    (b : Bitarray) (refills : List (List ℕ))
    → b.count ≡ 0
    → b.bytes ≡ []
    → b.refills ≡ refills
    → Takes b (refill refills (bitarray_clear b))
unfolding refill stream delay bitarray_clear
refill-Takes b [] z e f = at_end _ refl (rw (z, e, f) refl)
refill-Takes b ([] ∷ refills) z e f = at_end _ refl (rw (z, e, f) refl)
refill-Takes b ((c ∷ bytes) ∷ refills) z e f =
    went_on _ refl (rw (z, e, f) refl) (rw (z, e) (ground arith))

load-Takes :
    (b : Bitarray) (bytes : List ℕ) → b.count ≡ 0 → b.bytes ≡ bytes → Takes b (load bytes b)
unfolding load stream delay
load-Takes b [] z e = refill-Takes b b.refills z e refl
load-Takes b (c ∷ bytes) z e = went_on _ refl (rw (z, e) refl) (rw (z, e) (ground arith))

bit-Takes :
    (b : Bitarray) (n : ℕ)
    → b.count ≡ suc n
    → Takes b (bit (bit_and b.val 1) (record b { count = n; val = b.val / 2 }))
unfolding stream
bit-Takes b n e =
    took _ _ refl (rw (e, bit_and-ones 1 b.val) refl) (rw (bit_and-ones 1 b.val) (omega arith))

round-bit :
    (b : Bitarray) (n : ℕ)
    → b.count ≡ suc n
    → round b ≡ bit (bit_and b.val 1) (record b { count = n; val = b.val / 2 })
unfolding round
round-bit b n e = let one_less : suc n - 1 ≡ n = omega arith in rw (e, one_less) (ground arith)

round-load : (b : Bitarray) → b.count ≡ 0 → round b ≡ load b.bytes b
unfolding round
round-load b e = rw e

pub round-Takes : (b : Bitarray) → Takes b (round b)
round-Takes b = by_count b.count refl
  where
    by_count : (n : ℕ) → b.count ≡ n → Takes b (round b)
    by_count zero e = rw (round-load b e) (load-Takes b b.bytes e refl)
    by_count (suc n) e = rw (round-bit b n e) (bit-Takes b n e)
