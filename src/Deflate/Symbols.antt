-- ===== src/Deflate/Symbols.antt =====
-- What `inflate` does at the bits of a symbol that has been written.
use dancy.Base.{
  ℕ, zero, suc, ◌+◌, ◌-◌, ◌%◌, ◌^◌, ◌≤◌, ◌<◌, ◌≡◌, refl, ap, ◌∙◌, false, List, [], ◌∷◌, ◌++◌,
  append_assoc, length, get_or, get_elem?, ltb, leb, some, arith, Bool-cases, inl, inr,
}
use dancy.Bitarray.{Bitarray, got, bitarray_fetch}
use dancy.Bitarray.Stream.{bits_of, stream}
use dancy.Bitarray.RoundTrip.{bitarray_fetch-bits_of}
use dancy.Huffman.{Huffman, huffman_fetch}
use dancy.Huffman.Fetch.{
  word, partial, invalid, next_word, Decodes, symbol, too_short, no_symbol, huffman_fetch-Decodes,
}
use dancy.Huffman.Prefix.{next_word-lt}
use dancy.Inflate.{distance_codes, length_codes, copy_match, distance_extra, read_distance}
use dancy.Inflate.Codes.{static_dist, length_codes_at, distance_codes_at}
use dancy.Deflate.{find_code, dist_table}
use dancy.Deflate.Bits.{word_bits, HasWords, dist_table-HasWords}
use dancy.Deflate.Encoding.{IsCode, distance-IsCode, code_bits}

-- Reading a symbol whose code word is at the start of the stream.
pub fetch_word :
    (h : Huffman) (table : List ℕ) (n c : ℕ) (more : List ℕ) (b : Bitarray)
    → length h.lengths ≡ 16
    → HasWords h table n
    → c < n
    → stream b ≡ word_bits table c ++ more
    → ((huffman_fetch h b).0 ≡ got c)
      × (stream (huffman_fetch h b).1 ≡ more)
      × (length more < length (stream b))
fetch_word h table n c more b full words small e =
    let (place, found, symbol_is) = words c more small in
    at_place place symbol_is (ap (λ l. next_word h l) e ∙ found) (huffman_fetch-Decodes h b full)
  where
    at_place :
        (place : ℕ)
        → get_or h.symbols place 0 ≡ c
        → next_word h (stream b) ≡ word place more
        → Decodes h.symbols (next_word h (stream b)) (huffman_fetch h b)
        → ((huffman_fetch h b).0 ≡ got c)
          × (stream (huffman_fetch h b).1 ≡ more)
          × (length more < length (stream b))
    at_place place symbol_is found (symbol place' rest e' v s) =
        let same : place' ≡ place = cc in
        let same' : rest ≡ more = cc in
        (
          v ∙ ap got (ap (λ p. get_or h.symbols p 0) same ∙ symbol_is),
          s ∙ same',
          next_word-lt h place (stream b) more found,
        )
    at_place place symbol_is found (too_short e' v) =
        let no_way : partial ≡ word place more = cc in cc
    at_place place symbol_is found (no_symbol rest e' v s) =
        let no_way : invalid rest ≡ word place more = cc in cc

get_elem?-some :
    (codes : List (ℕ × ℕ)) (j : ℕ) (c : ℕ × ℕ) → get_elem? codes j ≡ some c → j < length codes
get_elem?-some [] j c e = cc
get_elem?-some (d ∷ codes) zero c e = omega arith
get_elem?-some (d ∷ codes) (suc j) c e = omega (arith, get_elem?-some codes j c e)

pub length_extra_le : (j e v : ℕ) → get_elem? length_codes j ≡ some (e, v) → (j < 29) × (e ≤ 13)
length_extra_le j e v at_j =
    let less : j < 29 = get_elem?-some length_codes j (e, v) at_j in
    let (e', v', at_j', small) = length_codes_at j less in
    let same : e' ≡ e = cc in (less, omega (arith, same))

distance_extra_le : (j e v n : ℕ) → IsCode distance_codes n j e v → n ≤ 32768 → (j < 30) × (e ≤ 13)
distance_extra_le j e v n code h =
    let less : j < 31 = get_elem?-some distance_codes j (e, v) code.at_j in
    elim (Bool-cases (ltb j 30)) [
      | inl t ↦
          let less' : j < 30 = ground arith in
          let (e', v', at_j', small) = distance_codes_at j less' in
          let same : e' ≡ e = cc (code.at_j) in (less', omega (arith, same))
      | inr t ↦
          let last : j ≡ 30 = ground arith in absurd (sentinel (rw last at (code.at_j)) code.low)
    ]
  where
    sentinel : get_elem? distance_codes 30 ≡ some (e, v) → v ≤ n → ⊥
    sentinel at_30 low = let far : v ≡ 65535 = cc in omega (arith, far)

-- The value that a code and its extra bits give.
pub extra_value : (n v : ℕ) → v ≤ n → n ≤ 32768 → (v + (n - v)) % 2 ^ 32 ≡ n
extra_value n v h h' = omega arith

module _ (out : List ℕ) (off : ℕ) where
  distance_extra-copy :
      (len e v dist : ℕ) (more : List ℕ) (b : Bitarray)
      → e ≤ 13
      → v ≤ dist
      → dist < v + 2 ^ e
      → dist ≤ 32768
      → stream b ≡ bits_of e (dist - v) ++ more
      → (b' : Bitarray) × (distance_extra len (some (e, v)) out off b
          ≡ copy_match len dist out off b')
        × (stream b' ≡ more)
  unfolding distance_extra
  distance_extra-copy len e v dist more b small low high near s =
      let (value, left) =
        bitarray_fetch-bits_of b e (dist - v) more (omega arith) (omega arith) s in
      (
        (bitarray_fetch b e).1,
        rw (distance_extra, value)
            (ap (λ d. copy_match len d out off (bitarray_fetch b e).1)
              (extra_value dist v low near)),
        left,
      )

  pub read_distance-copy :
      (len dist : ℕ) (more : List ℕ) (b : Bitarray)
      → 0 < dist
      → dist ≤ 32768
      → stream b ≡ code_bits (dist_table).1 0 dist (find_code distance_codes 0 dist) ++ more
      → (b' : Bitarray) × (read_distance static_dist len out off b ≡ copy_match len dist out off b')
        × (stream b' ≡ more)
  unfolding read_distance
  read_distance-copy len dist more b pos near s =
      let (j, e, v, found, code) = distance-IsCode dist pos near in
      let (index, small) = distance_extra_le j e v dist code near in
      let zero_add : 0 + j ≡ j = omega arith in
      let s' : stream b ≡ word_bits (dist_table).1 j ++ (bits_of e (dist - v) ++ more) =
        s
        ∙ ap (λ o. code_bits (dist_table).1 0 dist o ++ more) found
        ∙ ap (λ k. (word_bits (dist_table).1 (0 + k) ++ bits_of e (dist - v)) ++ more) zero_add
        ∙ ap (λ k. (word_bits (dist_table).1 k ++ bits_of e (dist - v)) ++ more) zero_add
        ∙ append_assoc (word_bits (dist_table).1 j) (bits_of e (dist - v)) more in
      let (value, left, less) =
        fetch_word static_dist (dist_table).1 32 j _ b (unfold static_dist in refl)
          dist_table-HasWords (omega arith) s' in
      let (b', copies, left') =
        distance_extra-copy len e v dist more (huffman_fetch static_dist b).1 small code.low
          code.high near left in
      let t : leb 30 j ≡ false = ground arith in
      (b', rw (read_distance, value, t, code.at_j) copies, left')
