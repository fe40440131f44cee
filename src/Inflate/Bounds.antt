-- ===== src/Inflate/Bounds.antt =====
-- `inflate` on any bytes: it returns, and keeps within the buffer.
use dancy.Base.{
  ℕ, zero, suc, ◌*◌, ◌^◌, ◌≤◌, ◌<◌, ◌≡◌, ◌≢◌, ◌↔◌, refl, ap, sym, ◌∙◌, false, List, [], ◌∷◌, ◌++◌,
  length, length-append, get_or, ◌==◌, ==_iff, arith, Bool-cases, inl, inr, ℕ_discrete,
}
use dancy.Bitarray.{Bitarray, got, bitarray_fetch}
use dancy.Bitarray.Stream.{bits_of, byte_bits, refill_bits, stream}
use dancy.Huffman.{Huffman, huffman_fetch}
use dancy.Huffman.Fetch.{next_word, Decodes, symbol, too_short, no_symbol, huffman_fetch-Decodes}
use dancy.Huffman.Prefix.{next_word-lt}
use dancy.Inflate.{
  symbol_step, Inflated, returned, inflate_loop, total_bytes, bit_count, inflate, is_one,
}
use dancy.Bitarray.Stream.{length-bits_of, length-byte_bits}
use dancy.Inflate.Steps.{StepStays, goes_on, stops, symbol_step-Stays}
use dancy.Inflate.Codes.{static_code, static_dist, inflate_init-static}
use dancy.Inflate.Output.{Keeps, Keeps-refl, Keeps-trans}

-- What `inflate` returns: a code, the buffer as long as it was and the same behind `size` bytes, and at most
-- `size` as the number of bytes written, which differs from it only for the code 1.
pub data Inflates (size : ℕ) (out : List ℕ) (r : Inflated) : Type 0 where
  returns :
      (code : ℕ) (out' : List ℕ) (size' : ℕ) (b : Bitarray)
      → r ≡ returned code out' size' b
      → code ≤ 5
      → Keeps size out out'
      → size' ≤ size
      → (size' ≡ size) ↔ (code ≢ 1)
      → Inflates size out r

returns_other :
    (size code : ℕ) (out out' : List ℕ) (b : Bitarray) (r : Inflated)
    → code ≤ 5
    → code ≢ 1
    → Keeps size out out'
    → r ≡ returned code out' size b
    → Inflates size out r
returns_other size code out out' b r h ne keeps e =
    returns code out' size b e h keeps (omega arith) (λ _. ne, λ _. refl)

Inflates-after :
    (size : ℕ) (out out' : List ℕ) (r : Inflated)
    → Keeps size out out'
    → Inflates size out' r
    → Inflates size out r
Inflates-after size out out' r keeps (returns code out'' size' b e h keeps' h' wrong) =
    returns code out'' size' b e h (Keeps-trans size out out' out'' keeps keeps') h' wrong

module _ (h_code h_dist : Huffman) (full : length h_code.lengths ≡ 16)
    (full' : length h_dist.lengths ≡ 16) (size : ℕ) (limit : size < 2 ^ 63) where
  -- The rounds that are left give a result, wherever the round before them has led.
  abbrev Goes : ℕ → Type 0
  Goes fuel =
      (out : List ℕ) (off : ℕ) (b : Bitarray)
      → off ≤ size
      → size ≤ length out
      → length (stream b) < fuel
      → Inflates size out (inflate_loop fuel h_code h_dist size out off b)

  module _ (fuel : ℕ) (out : List ℕ) (off : ℕ) (b : Bitarray) (go : Goes fuel) (h : off ≤ size)
      (room : size ≤ length out) where
    last_symbol :
        (huffman_fetch h_code b).0 ≡ got 256
        → Inflates size out (inflate_loop (suc fuel) h_code h_dist size out off b)
    unfolding inflate_loop
    last_symbol v = elim (ℕ_discrete size off) [
      | yes e ↦
          rw (inflate_loop, v, (==_iff size off).1 e)
            (returns_other size 0 out out _ _ (omega arith) (omega arith) (Keeps-refl size out)
              refl)
      | no ne ↦
          let differ : (size == off) ≡ false = ground (arith, λ (e : size ≡ off). ne e) in
          rw (inflate_loop, v, differ)
            (returns 1 out off (huffman_fetch h_code b).1 refl (omega arith) (Keeps-refl size out) h
              (λ e. absurd (ne (sym e)), λ wrong. absurd (wrong refl)))
    ]

    other_symbol :
        (c : ℕ)
        → (huffman_fetch h_code b).0 ≡ got c
        → c ≢ 256
        → length (stream (huffman_fetch h_code b).1) < fuel
        → StepStays size
            (length (stream (huffman_fetch h_code b).1))
            out
            (symbol_step h_dist size c out off (huffman_fetch h_code b).1)
        → Inflates size out (inflate_loop (suc fuel) h_code h_dist size out off b)
    unfolding inflate_loop
    other_symbol c v ne few (goes_on out' off' b' e h' keeps few') =
        let differ : (c == 256) ≡ false = ground (arith, λ (e : c ≡ 256). ne e) in
        rw (inflate_loop, v, differ, e)
          (Inflates-after size out out' _ keeps
            (go out' off' b' h' (omega (arith, keeps.length_is)) (omega arith)))
    other_symbol c v ne few (stops code out' b' e h' keeps) =
        let differ : (c == 256) ≡ false = ground (arith, λ (e : c ≡ 256). ne e) in
        rw (inflate_loop, v, differ, e)
          (returns_other size code out out' b' _ h'.1 (omega arith) keeps refl)

    round-Inflates :
        length (stream b) < suc fuel
        → Decodes h_code.symbols (next_word h_code (stream b)) (huffman_fetch h_code b)
        → Inflates size out (inflate_loop (suc fuel) h_code h_dist size out off b)
    unfolding inflate_loop
    round-Inflates few (symbol place rest e v s) =
        elim (ℕ_discrete (get_or h_code.symbols place 0) 256) [
          | yes last ↦ last_symbol (v ∙ ap got last)
          | no ne ↦
              let fewer : length (stream (huffman_fetch h_code b).1) < fuel =
                rw s (omega (arith, next_word-lt h_code place (stream b) rest e)) in
              other_symbol _ v ne fewer (
                symbol_step-Stays size _ out off room h_dist _ (huffman_fetch h_code b).1 full' h
                  limit ne (omega arith))
        ]
    round-Inflates few (too_short e v) =
        rw (inflate_loop, v)
          (returns_other size 3 out out _ _ (omega arith) (omega arith) (Keeps-refl size out) refl)
    round-Inflates few (no_symbol rest e v s) =
        rw (inflate_loop, v)
          (returns_other size 3 out out _ _ (omega arith) (omega arith) (Keeps-refl size out) refl)

  inflate_loop-Inflates : (fuel : ℕ) → Goes fuel
  inflate_loop-Inflates zero out off b h room few = absurd (omega arith)
  inflate_loop-Inflates (suc fuel) out off b h room few =
      round-Inflates fuel out off b (inflate_loop-Inflates fuel) h room few
        (huffman_fetch-Decodes h_code b full)

length-refill_bits :
    (refills : List (List ℕ)) → length (refill_bits refills) ≤ 8 * total_bytes refills
unfolding total_bytes
length-refill_bits [] = omega arith
length-refill_bits ([] ∷ refills) = omega arith
length-refill_bits ((c ∷ bytes) ∷ refills) = omega (
  arith,
  length-append (byte_bits (c ∷ bytes)) (refill_bits refills),
  length-byte_bits (c ∷ bytes),
  length-refill_bits refills,
)

pub length-stream : (b : Bitarray) → length (stream b) ≤ bit_count b
unfolding stream bit_count
length-stream b = omega (
  arith,
  length-append (bits_of b.count b.val) (byte_bits b.bytes ++ refill_bits b.refills),
  length-append (byte_bits b.bytes) (refill_bits b.refills),
  length-bits_of b.count b.val,
  length-byte_bits b.bytes,
  length-refill_bits b.refills,
)

-- On any bytes, and for a buffer with at least `size` bytes, below 2 ^ 63: `inflate` returns one of the codes
-- from 0 to 5, with no read or write outside the buffer; it writes just the first `size` bytes; and what it
-- stores at `size` is no more than was there, and other than that just when it returns 1.
pub inflate-Inflates :
    (b : Bitarray) (out : List ℕ) (size : ℕ)
    → size ≤ length out
    → size < 2 ^ 63
    → Inflates size out (inflate b out size)
unfolding inflate
inflate-Inflates b out size room limit = elim (Bool-cases (is_one (bitarray_fetch b 1).0)) [
  | inl t ↦ elim (Bool-cases (is_one (bitarray_fetch (bitarray_fetch b 1).1 2).0)) [
    | inl t' ↦
        rw (inflate, inflate_init-static, t, t')
          (inflate_loop-Inflates static_code static_dist (unfold static_code in refl)
            (unfold static_dist in refl) size limit _ out 0 _ (omega arith) room
            (omega (arith, length-stream (bitarray_fetch (bitarray_fetch b 1).1 2).1)))
    | inr t' ↦
        rw (inflate, inflate_init-static, t, t')
          (returns_other size 2 out out _ _ (omega arith) (omega arith) (Keeps-refl size out) refl)
  ]
  | inr t ↦
      rw (inflate, inflate_init-static, t)
        (returns_other size 2 out out _ _ (omega arith) (omega arith) (Keeps-refl size out) refl)
]
