-- ===== src/Bitarray/Fetch.antt =====
-- `bitarray_fetch` takes the next bits of the stream.
use dancy.Base.{
  ℕ, zero, suc, ◌+◌, ◌*◌, ◌^◌, ◌<◌, ◌≤◌, ◌≡◌, refl, ap, ◌∙◌, bit_or, List, [], ◌∷◌, ◌++◌, length,
  arith,
}
use dancy.Base.Bits.{bit_and-ones, bit_or-add}
use native.Mathlib.Nat.{mod-eq_of_lt, pow-suc, pow-le-pow_right}
use dancy.Bitarray.{
  Bitarray, bit, again, ended, round, Fetched, got, failed, fetch_loop, bitarray_fetch,
}
use dancy.Bitarray.Stream.{stream, delay, delay_le, Takes, took, went_on, at_end, round-Takes}

-- The number with these bits, the lowest first.
abbrev pub val_of : List ℕ → ℕ
val_of [] = 0
val_of (v ∷ bits) = v + 2 * val_of bits

-- `n` bits of the stream are taken, and make a number; or it has fewer than that.
pub data Fetches (n : ℕ) (number : List ℕ → ℕ) (bits : List ℕ) (r : Fetched × Bitarray)
    : Type 0 where
  enough :
      (bs rest : List ℕ)
      → bits ≡ bs ++ rest
      → length bs ≡ n
      → r.0 ≡ got (number bs)
      → stream r.1 ≡ rest
      → Fetches n number bits r
  short : length bits < n → r.0 ≡ failed → Fetches n number bits r

fetch-end :
    (fuel index ret : ℕ) (b : Bitarray)
    → ret < 2 ^ index
    → 2 ^ index ≤ 2 ^ 31
    → fetch_loop fuel 0 index ret b ≡ (got ret, b)
unfolding fetch_loop
fetch-end zero index ret b h h' =
    ap (λ v. (got v, b)) (bit_and-ones 31 ret ∙ mod-eq_of_lt (omega arith))
fetch-end (suc fuel) index ret b h h' =
    ap (λ v. (got v, b)) (bit_and-ones 31 ret ∙ mod-eq_of_lt (omega arith))

module _ (fuel n index ret : ℕ) (b : Bitarray) where
  fetch-bit :
      (v : ℕ) (b' : Bitarray)
      → round b ≡ bit v b'
      → fetch_loop (suc fuel) (suc n) index ret b
        ≡ fetch_loop fuel n (index + 1) (bit_or (v * 2 ^ index) ret) b'
  unfolding fetch_loop
  fetch-bit v b' e = rw (e, fetch_loop) refl

  fetch-again :
      (b' : Bitarray)
      → round b ≡ again b'
      → fetch_loop (suc fuel) (suc n) index ret b ≡ fetch_loop fuel (suc n) index ret b'
  unfolding fetch_loop
  fetch-again b' e = rw (e, fetch_loop) refl

  fetch-ended :
      (b' : Bitarray)
      → round b ≡ ended b'
      → fetch_loop (suc fuel) (suc n) index ret b ≡ (failed, b')
  unfolding fetch_loop
  fetch-ended b' e = rw (e, fetch_loop) refl

pub pow_next : (k : ℕ) → 2 ^ (k + 1) ≡ 2 * 2 ^ k
pow_next k = let e : k + 1 ≡ suc k = omega arith in rw (e, pow-suc) (omega arith)

pub ret_lt : (v index ret : ℕ) → v < 2 → ret < 2 ^ index → v * 2 ^ index + ret < 2 ^ (index + 1)
ret_lt zero index ret h h' = omega (arith, pow_next index)
ret_lt (suc zero) index ret h h' = omega (arith, pow_next index)
ret_lt (suc (suc v)) index ret h h' = absurd (omega arith)

-- One more bit before those that the rest of the loop takes.
more_Fetches :
    (n index ret v : ℕ) (bits : List ℕ) (r : Fetched × Bitarray)
    → Fetches n (λ bs. v * 2 ^ index + ret + 2 ^ (index + 1) * val_of bs) bits r
    → Fetches (suc n) (λ bs. ret + 2 ^ index * val_of bs) (v ∷ bits) r
more_Fetches n index ret v bits r (enough bs rest e len value left) =
    enough (v ∷ bs) rest (ap (λ l. v ∷ l) e) (ap suc len)
      (value ∙ ap got (rw pow_next (grind arith))) left
more_Fetches n index ret v bits r (short h e) = short (omega arith) e

fetch_loop-Fetches :
    (fuel n index ret : ℕ) (b : Bitarray)
    → ret < 2 ^ index
    → 2 ^ (index + n) ≤ 2 ^ 31
    → delay b + 3 * n ≤ fuel + 2
    → Fetches n (λ bs. ret + 2 ^ index * val_of bs) (stream b) (fetch_loop fuel n index ret b)
fetch_loop-Fetches fuel zero index ret b h h' f =
    let e : index + 0 ≡ index = omega arith in
    rw (fetch-end fuel index ret b h (rw e at h'))
      (enough [] (stream b) refl refl (ap got (omega arith)) refl)
fetch_loop-Fetches zero (suc n) index ret b h h' f = absurd (omega arith)
fetch_loop-Fetches (suc fuel) (suc n) index ret b h h' f =
    by_round (round-Takes b) (fetch_loop-Fetches fuel n (index + 1))
      (fetch_loop-Fetches fuel (suc n) index ret)
  where
    index_is : index + suc n ≡ index + 1 + n
    index_is = omega arith

    by_round :
        Takes b (round b)
        → ((ret' : ℕ) (b' : Bitarray)
            → ret' < 2 ^ (index + 1)
            → 2 ^ (index + 1 + n) ≤ 2 ^ 31
            → delay b' + 3 * n ≤ fuel + 2
            → Fetches n
                (λ bs. ret' + 2 ^ (index + 1) * val_of bs)
                (stream b')
                (fetch_loop fuel n (index + 1) ret' b'))
        → ((b' : Bitarray)
            → ret < 2 ^ index
            → 2 ^ (index + suc n) ≤ 2 ^ 31
            → delay b' + 3 * suc n ≤ fuel + 2
            → Fetches
                (suc n)
                (λ bs. ret + 2 ^ index * val_of bs)
                (stream b')
                (fetch_loop fuel (suc n) index ret b'))
        → Fetches
            (suc n)
            (λ bs. ret + 2 ^ index * val_of bs)
            (stream b)
            (fetch_loop (suc fuel) (suc n) index ret b)
    by_round (took v b' e s small) next same =
        rw (fetch-bit fuel n index ret b v b' e, s, bit_or-add index v ret h)
          (more_Fetches n index ret v (stream b') _ (
            next (v * 2 ^ index + ret) b' (ret_lt v index ret small h) (rw index_is at h')
              (omega (arith, delay_le b'))))
    by_round (went_on b' e s less) next same =
        rw (fetch-again fuel n index ret b b' e, ← s) (same b' h h' (omega arith))
    by_round (at_end b' e s) next same =
        rw (fetch-ended fuel n index ret b b' e, s) (short (omega arith) refl)

number_Fetches :
    (n : ℕ) (f g : List ℕ → ℕ) (bits : List ℕ) (r : Fetched × Bitarray)
    → ((bs : List ℕ) → f bs ≡ g bs)
    → Fetches n f bits r
    → Fetches n g bits r
number_Fetches n f g bits r same (enough bs rest e len value left) =
    enough bs rest e len (value ∙ ap got (same bs)) left
number_Fetches n f g bits r same (short h e) = short h e

-- `bitarray_fetch` of up to 31 bits takes the next bits of the stream and makes a number of them, the lowest
-- first, or fails as the stream has fewer bits.
pub bitarray_fetch-Fetches :
    (b : Bitarray) (n : ℕ) → n ≤ 31 → Fetches n val_of (stream b) (bitarray_fetch b n)
unfolding bitarray_fetch
bitarray_fetch-Fetches b n h =
    number_Fetches n _ val_of (stream b) _ (λ bs. omega arith)
      (fetch_loop-Fetches (3 * n) n 0 0 b (omega arith) (pow-le-pow_right (omega arith) (low h))
        (omega (arith, delay_le b)))
  where
    low : n ≤ 31 → 0 + n ≤ 31
    low h = omega arith
