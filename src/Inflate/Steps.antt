-- ===== src/Inflate/Steps.antt =====
-- A round of the loop of `inflate` keeps within the buffer.
use dancy.Base.{
  ℕ, ◌+◌, ◌-◌, ◌%◌, ◌^◌, ◌≤◌, ◌<◌, ◌≡◌, ◌≢◌, refl, List, ◌++◌, length, length-append, get_or,
  lt→ltb, set, ltb, leb, some, arith, Bool-cases, inl, inr,
}
use dancy.Bitarray.{Bitarray, bitarray_fetch}
use dancy.Bitarray.Stream.{stream}
use dancy.Bitarray.Fetch.{val_of, Fetches, enough, short, bitarray_fetch-Fetches}
use dancy.Huffman.{Huffman, huffman_fetch}
use dancy.Huffman.Fetch.{next_word, Decodes, symbol, too_short, no_symbol, huffman_fetch-Decodes}
use dancy.Huffman.Prefix.{next_word-lt}
use dancy.Inflate.{
  Step, went_on, stop, copy_match, distance_extra, read_distance, length_extra, put_byte,
  symbol_step,
}
use dancy.Inflate.Codes.{length_codes_at, distance_codes_at}
use dancy.Inflate.Output.{Keeps, Keeps-refl, set-Keeps, copy_loop-Keeps}

-- A round that goes on or ends, within the buffer, with at most `n` bits left.
pub data StepStays (size n : ℕ) (out : List ℕ) (s : Step) : Type 0 where
  goes_on :
      (out' : List ℕ) (off : ℕ) (b : Bitarray)
      → s ≡ went_on out' off b
      → off ≤ size
      → Keeps size out out'
      → length (stream b) ≤ n
      → StepStays size n out s
  stops :
      (code : ℕ) (out' : List ℕ) (b : Bitarray)
      → s ≡ stop code out' b
      → (1 < code) × (code ≤ 5)
      → Keeps size out out'
      → StepStays size n out s

stops_at :
    (size n code : ℕ) (out : List ℕ) (b : Bitarray) (s : Step)
    → (1 < code) × (code ≤ 5)
    → s ≡ stop code out b
    → StepStays size n out s
stops_at size n code out b s h e = stops code out b e h (Keeps-refl size out)

-- What a read leaves is at most what there was.
length-rest : (bits bs rest : List ℕ) → bits ≡ bs ++ rest → length rest ≤ length bits
length-rest bits bs rest e = rw e (omega (arith, length-append bs rest))

module _ (size n : ℕ) (out : List ℕ) (off : ℕ) (room : size ≤ length out) where
  copy_match-Stays :
      (len dist : ℕ) (b : Bitarray)
      → off + len ≤ size
      → length (stream b) ≤ n
      → StepStays size n out (copy_match len dist out off b)
  unfolding copy_match
  copy_match-Stays len dist b h few = elim (Bool-cases (ltb off dist)) [
    | inl e ↦ rw (copy_match, e) (stops_at size n 4 out b _ (omega arith) refl)
    | inr e ↦
        let (out', e', keeps) = copy_loop-Keeps len dist off size out (ground (arith, e)) h room in
        rw (copy_match, e, e') (goes_on out' (off + len) b refl h keeps few)
  ]

  distance_extra-Stays :
      (len extra value : ℕ) (b : Bitarray)
      → extra ≤ 13
      → off + len ≤ size
      → length (stream b) ≤ n
      → StepStays size n out (distance_extra len (some (extra, value)) out off b)
  unfolding distance_extra
  distance_extra-Stays len extra value b small h few =
      by_fetch (bitarray_fetch-Fetches b extra (omega arith))
    where
      by_fetch :
          Fetches extra val_of (stream b) (bitarray_fetch b extra)
          → StepStays size n out (distance_extra len (some (extra, value)) out off b)
      by_fetch (enough bs rest e l v s) =
          rw (distance_extra, v)
            (copy_match-Stays len _ (bitarray_fetch b extra).1 h
              (rw s (omega (arith, length-rest (stream b) bs rest e))))
      by_fetch (short l v) = rw (distance_extra, v) (stops_at size n 5 out _ _ (omega arith) refl)

  read_distance-Stays :
      (h_dist : Huffman) (len : ℕ) (b : Bitarray)
      → length h_dist.lengths ≡ 16
      → off + len ≤ size
      → length (stream b) ≤ n
      → StepStays size n out (read_distance h_dist len out off b)
  unfolding read_distance
  read_distance-Stays h_dist len b full h few = by_word (huffman_fetch-Decodes h_dist b full)
    where
      by_word :
          Decodes h_dist.symbols (next_word h_dist (stream b)) (huffman_fetch h_dist b)
          → StepStays size n out (read_distance h_dist len out off b)
      by_word (symbol place rest e v s) =
          elim (Bool-cases (leb 30 (get_or h_dist.symbols place 0))) [
            | inl t ↦ rw (read_distance, v, t) (stops_at size n 5 out _ _ (omega arith) refl)
            | inr t ↦
                let (extra, value, entry, small) =
                  distance_codes_at (get_or h_dist.symbols place 0) (ground arith) in
                rw (read_distance, v, t, entry)
                  (distance_extra-Stays len extra value (huffman_fetch h_dist b).1 small h
                    (rw s (omega (arith, next_word-lt h_dist place (stream b) rest e))))
          ]
      by_word (too_short e v) = rw (read_distance, v) (stops_at size n 5 out _ _ (omega arith) refl)
      by_word (no_symbol rest e v s) =
          rw (read_distance, v) (stops_at size n 5 out _ _ (omega arith) refl)

  length_extra-Stays :
      (h_dist : Huffman) (extra value : ℕ) (b : Bitarray)
      → length h_dist.lengths ≡ 16
      → extra ≤ 13
      → off ≤ size
      → size < 2 ^ 63
      → length (stream b) ≤ n
      → StepStays size n out (length_extra h_dist size (some (extra, value)) out off b)
  unfolding length_extra
  length_extra-Stays h_dist extra value b full small h limit few =
      by_fetch (bitarray_fetch-Fetches b extra (omega arith))
    where
      by_fetch :
          Fetches extra val_of (stream b) (bitarray_fetch b extra)
          → StepStays size n out (length_extra h_dist size (some (extra, value)) out off b)
      by_fetch (enough bs rest e l v s) =
          let len : ℕ = (value + val_of bs) % 2 ^ 32 in
          elim (Bool-cases (ltb size ((off + len) % 2 ^ 64))) [
            | inl t ↦ rw (length_extra, v, t) (stops_at size n 5 out _ _ (omega arith) refl)
            | inr t ↦
                rw (length_extra, v, t)
                  (read_distance-Stays h_dist len (bitarray_fetch b extra).1 full (ground arith)
                    (rw s (omega (arith, length-rest (stream b) bs rest e))))
          ]
      by_fetch (short l v) = rw (length_extra, v) (stops_at size n 5 out _ _ (omega arith) refl)

  put_byte-Stays :
      (c : ℕ) (b : Bitarray)
      → length (stream b) ≤ n
      → StepStays size n out (put_byte size c out off b)
  unfolding put_byte
  put_byte-Stays c b few = elim (Bool-cases (leb size off)) [
    | inl t ↦ rw (put_byte, t) (stops_at size n 4 out b _ (omega arith) refl)
    | inr t ↦
        let low : off < size = ground arith in
        rw (put_byte, t, lt→ltb off (length out) (omega arith))
          (goes_on (set out off c) (off + 1) b refl (omega arith) (set-Keeps size off c out low)
            few)
  ]

  pub symbol_step-Stays :
      (h_dist : Huffman) (c : ℕ) (b : Bitarray)
      → length h_dist.lengths ≡ 16
      → off ≤ size
      → size < 2 ^ 63
      → c ≢ 256
      → length (stream b) ≤ n
      → StepStays size n out (symbol_step h_dist size c out off b)
  unfolding symbol_step
  symbol_step-Stays h_dist c b full h limit ne few = elim (Bool-cases (ltb c 256)) [
    | inl t ↦ rw (symbol_step, t) (put_byte-Stays c b few)
    | inr t ↦ elim (Bool-cases (leb 286 c)) [
      | inl t' ↦ rw (symbol_step, t, t') (stops_at size n 5 out b _ (omega arith) refl)
      | inr t' ↦
          let (extra, value, entry, small) =
            length_codes_at (c - 257) (ground (arith, λ (e : c ≡ 256). ne e)) in
          rw (symbol_step, t, t', entry)
            (length_extra-Stays h_dist extra value b full small h limit few)
    ]
  ]
