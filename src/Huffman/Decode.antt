-- ===== src/Huffman/Decode.antt =====
-- `huffman_fetch` reads the code words that the lengths give.
use dancy.Base.{
  ℕ, zero, suc, ◌+◌, ◌*◌, ◌^◌, ◌<◌, ◌≡◌, ◌≢◌, refl, ap, ◌∙◌, sym, true, List, [], ◌∷◌, ◌++◌, length,
  get_elem?, get_or, take, drop, length-drop, leb, leb→le, arith, some,
}
use dancy.Base.Tables.{every_below, every_below_at}
use native.Mathlib.Nat.{pow-suc}
use dancy.Bitarray.{Bitarray, Fetched, got, failed, no_code}
use dancy.Bitarray.Stream.{stream, bits_of, byte_bits, refill_bits}
use dancy.Huffman.{Huffman, check_lengths, huffman_fetch}
use dancy.Huffman.Fetch.{
  word, invalid, next_word, Decodes, symbol, too_short, no_symbol, huffman_fetch-Decodes,
}
use dancy.Huffman.Canonical.{
  AllBits, NoWord, Room, Starts, starts, ends_early, no_start, match_word-Starts,
}
use dancy.Huffman.Weights.{weights, sum, number}
use dancy.Huffman.Kraft.{IsRest, Completes-IsRest, IsRest-Completes}

-- The code word of a place. A word of `i` bits stands for the 2 ^ (15 - i) words of 15 bits that start with it, its
-- weight; the words of the places, the short ones first, stand for one row of them after the other, from 0 on.
pub record IsWord (lengths : List ℕ) (place : ℕ) (w : List ℕ) : Type 0 where
  pub weight : ℕ
  pub weight_at : get_elem? (weights lengths) place ≡ some weight
  pub long : weight * 2 ^ length w ≡ 2 ^ length lengths
  pub start : number 0 w * weight ≡ sum (take place (weights lengths))

abbrev pub Nowhere : List ℕ → List ℕ → Type 0
Nowhere lengths bits = (place : ℕ) (w rest : List ℕ) → IsWord lengths place w → bits ≢ w ++ rest

-- What a read of a symbol has done.
pub data Reads (h : Huffman) (bits : List ℕ) (r : Fetched × Bitarray) : Type 0 where
  found :
      (place : ℕ) (w rest : List ℕ)
      → bits ≡ w ++ rest
      → IsWord (drop 1 h.lengths) place w
      → r.0 ≡ got (get_or h.symbols place 0)
      → stream r.1 ≡ rest
      → Reads h bits r
  ended_first : length bits < 15 → Nowhere (drop 1 h.lengths) bits → r.0 ≡ failed → Reads h bits r
  not_found :
      (w rest : List ℕ)
      → bits ≡ w ++ rest
      → length w ≡ 15
      → Nowhere (drop 1 h.lengths) bits
      → r.0 ≡ no_code
      → stream r.1 ≡ rest
      → Reads h bits r

AllBits-append : (xs ys : List ℕ) → AllBits xs → AllBits ys → AllBits (xs ++ ys)
AllBits-append [] ys h h' = h'
AllBits-append (x ∷ xs) ys h h' = (h.0, AllBits-append xs ys h.1 h')

bits_of-AllBits : (n v : ℕ) → AllBits (bits_of n v)
bits_of-AllBits zero v = tt
bits_of-AllBits (suc n) v = (omega arith, bits_of-AllBits n _)

byte_bits-AllBits : (bytes : List ℕ) → AllBits (byte_bits bytes)
byte_bits-AllBits [] = tt
byte_bits-AllBits (c ∷ bytes) =
    AllBits-append (bits_of 8 c) (byte_bits bytes) (bits_of-AllBits 8 c) (byte_bits-AllBits bytes)

refill_bits-AllBits : (refills : List (List ℕ)) → AllBits (refill_bits refills)
refill_bits-AllBits [] = tt
refill_bits-AllBits ([] ∷ refills) = tt
refill_bits-AllBits ((c ∷ bytes) ∷ refills) =
    AllBits-append (byte_bits (c ∷ bytes)) (refill_bits refills) (byte_bits-AllBits (c ∷ bytes))
      (refill_bits-AllBits refills)

stream-AllBits : (b : Bitarray) → AllBits (stream b)
unfolding stream
stream-AllBits b =
    AllBits-append (bits_of b.count b.val) (byte_bits b.bytes ++ refill_bits b.refills)
      (bits_of-AllBits b.count b.val)
      (AllBits-append (byte_bits b.bytes) (refill_bits b.refills) (byte_bits-AllBits b.bytes)
        (refill_bits-AllBits b.refills))

powers : every_below 16 (λ k. leb (2 ^ k) 0x8000) ≡ true
unfolding every_below
powers = refl

Room-from : (lengths : List ℕ) (k : ℕ) → length lengths + k ≡ 15 → Room lengths (2 ^ k)
Room-from [] k h = leb→le _ _ (every_below_at 16 _ k powers (omega arith))
Room-from (len ∷ lengths) k h =
    let double : 2 * 2 ^ k ≡ 2 ^ suc k = omega (arith, pow-suc 2 k) in
    (
      leb→le _ _ (every_below_at 16 _ k powers (omega arith)),
      rw double (Room-from lengths (suc k) (omega arith)),
    )

IsRest-IsWord :
    (lengths : List ℕ) (place : ℕ) (w : List ℕ) (weight : ℕ)
    → IsRest lengths 0 0 place w weight
    → IsWord lengths place w
IsRest-IsWord lengths place w weight r = record {
  weight = weight;
  weight_at = r.weight_at;
  long = r.long;
  start = omega (arith, r.start);
}

IsWord-IsRest :
    (lengths : List ℕ) (place : ℕ) (w : List ℕ) (is : IsWord lengths place w)
    → IsRest lengths 0 0 place w is.weight
IsWord-IsRest lengths place w is = record {
  weight_at = is.weight_at;
  long = is.long;
  start = omega (arith, is.start);
}

NoWord-Nowhere : (lengths bits : List ℕ) → NoWord lengths 0 0 bits → Nowhere lengths bits
NoWord-Nowhere lengths bits nothing place w rest is =
    nothing place w rest
      (IsRest-Completes lengths 0 0 place w is.weight (IsWord-IsRest lengths place w is))

next_word-Starts :
    (h : Huffman) (left : ℕ) (bits : List ℕ)
    → length h.lengths ≡ 16
    → check_lengths (drop 1 h.lengths) 1 ≡ some left
    → AllBits bits
    → Starts (drop 1 h.lengths) 0 0 0 bits (next_word h bits)
unfolding next_word
next_word-Starts h left bits full ok all =
    match_word-Starts (drop 1 h.lengths) 0 0 0 1 1 left bits ok all (record {
      words_are = refl;
      val_lt = omega arith;
      val_ge = omega arith;
      off_le = omega arith;
      small = Room-from (drop 1 h.lengths) 0 (omega (arith, length-drop 1 h.lengths, full));
    })

same_word :
    (p p' : ℕ) (bits bits' : List ℕ) → word (0 + p) bits ≡ word p' bits' → (p ≡ p') × (bits ≡ bits')
same_word p p' bits bits' e = let first : 0 + p ≡ p' = cc in (omega (arith, first), cc)

same_rest : (bits bits' : List ℕ) → invalid bits ≡ invalid bits' → bits ≡ bits'
same_rest bits bits' e = cc

-- For 16 counters of lengths that `huffman_init` accepts, and any stream of bits: `huffman_fetch` reads the code word that is at the start
-- of the stream, and gives its symbol; or it fails, as the stream has fewer than 15 bits and no code word at its
-- start; or it finds no code and takes 15 bits, as no code word is at its start. The code words stand, the short
-- ones first, for one row after the other of the words of 15 bits.
pub huffman_fetch-Reads :
    (h : Huffman) (left : ℕ) (b : Bitarray)
    → length h.lengths ≡ 16
    → check_lengths (drop 1 h.lengths) 1 ≡ some left
    → Reads h (stream b) (huffman_fetch h b)
huffman_fetch-Reads h left b full ok =
    by_word (next_word-Starts h left (stream b) full ok (stream-AllBits b))
      (huffman_fetch-Decodes h b full)
  where
    by_word :
        Starts (drop 1 h.lengths) 0 0 0 (stream b) (next_word h (stream b))
        → Decodes h.symbols (next_word h (stream b)) (huffman_fetch h b)
        → Reads h (stream b) (huffman_fetch h b)
    by_word (starts place w rest m e c) (symbol place' bits m' v s) =
        let (place_is, bits_are) = same_word place place' rest bits (sym m ∙ m') in
        let (weight, r) = Completes-IsRest (drop 1 h.lengths) 0 0 place w c in
        found place w rest e (IsRest-IsWord (drop 1 h.lengths) place w weight r)
          (v ∙ ap (λ n. got (get_or h.symbols n 0)) (sym place_is)) (s ∙ sym bits_are)
    by_word (starts place w rest m e c) (too_short m' v) = cc
    by_word (starts place w rest m e c) (no_symbol bits m' v s) = cc
    by_word (ends_early m few nothing) (symbol place' bits m' v s) = cc
    by_word (ends_early m few nothing) (too_short m' v) =
        ended_first (omega (arith, few, length-drop 1 h.lengths, full))
          (NoWord-Nowhere (drop 1 h.lengths) (stream b) nothing) v
    by_word (ends_early m few nothing) (no_symbol bits m' v s) = cc
    by_word (no_start w rest m e l nothing) (symbol place' bits m' v s) = cc
    by_word (no_start w rest m e l nothing) (too_short m' v) = cc
    by_word (no_start w rest m e l nothing) (no_symbol bits m' v s) =
        not_found w rest e (omega (arith, l, length-drop 1 h.lengths, full))
          (NoWord-Nowhere (drop 1 h.lengths) (stream b) nothing) v
          (s ∙ sym (same_rest rest bits (sym m ∙ m')))
