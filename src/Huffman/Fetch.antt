-- ===== src/Huffman/Fetch.antt =====
-- `huffman_fetch` on the bits of a stream.
use dancy.Base.{
  ℕ, zero, suc, ◌+◌, ◌-◌, ◌*◌, ◌%◌, ◌^◌, ◌≤◌, ◌≡◌, refl, true, false, bit_or, List, [], ◌∷◌, length,
  get_or, drop, length-drop, ltb, arith, Bool-cases, inl, inr,
}
use dancy.Bitarray.{Bitarray, bit, again, ended, round, Fetched, got, failed, no_code}
use dancy.Bitarray.Stream.{stream, delay, delay_le, Takes, took, went_on, at_end, round-Takes}
use dancy.Huffman.{Huffman, huffman_loop, huffman_fetch}

-- What a list of bits starts with: a code word, of the symbol at this place, and the bits after it; all the
-- bits are taken with no code word complete; or as many are taken as a code word can have.
pub data Word : Type 0 where
  word : ℕ → List ℕ → Word
  partial : Word
  invalid : List ℕ → Word

-- The code words of the same length are numbers in a row; the first of a length is twice what would be the
-- next of the length before it.
unfoldable pub match_word : List ℕ → ℕ → ℕ → ℕ → List ℕ → Word
match_word [] base off val bits = invalid bits
match_word (len ∷ lengths) base off val [] = partial
match_word (len ∷ lengths) base off val (v ∷ bits) =
    let val' = bit_or (val * 2 % 2 ^ 32) v in
    elim (ltb val' ((base + len) % 2 ^ 32)) [
      | true ↦ word ((off + (val' + 2 ^ 32 - base)) % 2 ^ 32) bits
      | false ↦ match_word lengths ((base + len) * 2 % 2 ^ 32) ((off + len) % 2 ^ 32) val' bits
    ]

-- The result of reading a symbol.
pub data Decodes (symbols : List ℕ) (w : Word) (r : Fetched × Bitarray) : Type 0 where
  symbol :
      (place : ℕ) (bits : List ℕ)
      → w ≡ word place bits
      → r.0 ≡ got (get_or symbols place 0)
      → stream r.1 ≡ bits
      → Decodes symbols w r
  too_short : w ≡ partial → r.0 ≡ failed → Decodes symbols w r
  no_symbol :
      (bits : List ℕ) → w ≡ invalid bits → r.0 ≡ no_code → stream r.1 ≡ bits → Decodes symbols w r

module _ (fuel len : ℕ) (lengths : List ℕ) (base off val : ℕ) (symbols : List ℕ)
    (b : Bitarray) where
  loop-bit :
      (v : ℕ) (b' : Bitarray)
      → round b ≡ bit v b'
      → (huffman_loop (suc fuel) (len ∷ lengths) base off val symbols b)
        ≡ elim (ltb (bit_or (val * 2 % 2 ^ 32) v) ((base + len) % 2 ^ 32)) [
          | true ↦ (
            got (get_or symbols ((off + (bit_or (val * 2 % 2 ^ 32) v + 2 ^ 32 - base)) % 2 ^ 32) 0),
            b',
          )
          | false ↦
              huffman_loop fuel lengths
                ((base + len) * 2 % 2 ^ 32)
                ((off + len) % 2 ^ 32)
                (bit_or (val * 2 % 2 ^ 32) v)
                symbols
                b'
        ]
  unfolding huffman_loop
  loop-bit v b' e = rw (e, huffman_loop) refl

  loop-again :
      (b' : Bitarray)
      → round b ≡ again b'
      → huffman_loop (suc fuel) (len ∷ lengths) base off val symbols b
        ≡ huffman_loop fuel (len ∷ lengths) base off val symbols b'
  unfolding huffman_loop
  loop-again b' e = rw (e, huffman_loop) refl

  loop-ended :
      (b' : Bitarray)
      → round b ≡ ended b'
      → huffman_loop (suc fuel) (len ∷ lengths) base off val symbols b ≡ (failed, b')
  unfolding huffman_loop
  loop-ended b' e = rw (e, huffman_loop) refl

-- A bit that completes a code word, or does not.
bit-Decodes :
    (len : ℕ) (lengths : List ℕ) (base off val v : ℕ) (symbols bits : List ℕ) (b' : Bitarray)
    (rest : Fetched × Bitarray)
    → stream b' ≡ bits
    → Decodes symbols
        (match_word lengths
          ((base + len) * 2 % 2 ^ 32)
          ((off + len) % 2 ^ 32)
          (bit_or (val * 2 % 2 ^ 32) v)
          bits)
        rest
    → Decodes symbols
        (match_word (len ∷ lengths) base off val (v ∷ bits))
        (elim (ltb (bit_or (val * 2 % 2 ^ 32) v) ((base + len) % 2 ^ 32)) [
          | true ↦ (
            got (get_or symbols ((off + (bit_or (val * 2 % 2 ^ 32) v + 2 ^ 32 - base)) % 2 ^ 32) 0),
            b',
          )
          | false ↦ rest
        ])
unfolding match_word
bit-Decodes len lengths base off val v symbols bits b' rest s more =
    elim (Bool-cases (ltb (bit_or (val * 2 % 2 ^ 32) v) ((base + len) % 2 ^ 32))) [
      | inl e ↦ rw (e, match_word) (symbol _ _ refl refl s)
      | inr e ↦ rw (e, match_word) more
    ]

loop-Decodes :
    (fuel : ℕ) (lengths : List ℕ) (base off val : ℕ) (symbols : List ℕ) (b : Bitarray)
    → delay b + 3 * length lengths ≤ fuel + 2
    → Decodes symbols
        (match_word lengths base off val (stream b))
        (huffman_loop fuel lengths base off val symbols b)
loop-Decodes fuel [] base off val symbols b h =
    unfold huffman_loop match_word in no_symbol _ refl refl refl
loop-Decodes zero (len ∷ lengths) base off val symbols b h = absurd (omega arith)
loop-Decodes (suc fuel) (len ∷ lengths) base off val symbols b h =
    by_round (round-Takes b) (loop-Decodes fuel lengths)
      (loop-Decodes fuel (len ∷ lengths) base off val symbols)
  where
    by_round :
        Takes b (round b)
        → ((base' off' val' : ℕ) (symbols' : List ℕ) (b' : Bitarray)
            → delay b' + 3 * length lengths ≤ fuel + 2
            → Decodes symbols'
                (match_word lengths base' off' val' (stream b'))
                (huffman_loop fuel lengths base' off' val' symbols' b'))
        → ((b' : Bitarray)
            → delay b' + 3 * length (len ∷ lengths) ≤ fuel + 2
            → Decodes symbols
                (match_word (len ∷ lengths) base off val (stream b'))
                (huffman_loop fuel (len ∷ lengths) base off val symbols b'))
        → Decodes symbols
            (match_word (len ∷ lengths) base off val (stream b))
            (huffman_loop (suc fuel) (len ∷ lengths) base off val symbols b)
    by_round (took v b' e s small) next same =
        rw (loop-bit fuel len lengths base off val symbols b v b' e, s)
          (bit-Decodes len lengths base off val v symbols (stream b') b' _ refl
            (next _ _ _ symbols b' (omega (arith, delay_le b'))))
    by_round (went_on b' e s less) next same =
        rw (loop-again fuel len lengths base off val symbols b b' e, ← s) (same b' (omega arith))
    by_round (at_end b' e s) next same =
        rw (loop-ended fuel len lengths base off val symbols b b' e, s)
          (unfold match_word in too_short refl refl)

-- The code word that a stream starts with.
unfoldable pub next_word : Huffman → List ℕ → Word
next_word h bits = match_word (drop 1 h.lengths) 0 0 0 bits

-- With 16 counters of lengths, `huffman_fetch` reads the code word that the stream of bits starts with and
-- gives its symbol, and the bits after it are left; it fails as the stream ends within the code word, and
-- finds no code after 15 bits that none starts with.
pub huffman_fetch-Decodes :
    (h : Huffman) (b : Bitarray)
    → length h.lengths ≡ 16
    → Decodes h.symbols (next_word h (stream b)) (huffman_fetch h b)
unfolding huffman_fetch next_word
huffman_fetch-Decodes h b e =
    loop-Decodes 45 (drop 1 h.lengths) 0 0 0 h.symbols b
      (omega (arith, length-drop 1 h.lengths, delay_le b))
