-- ===== src/Deflate/RoundTrip.antt =====
-- `inflate` gives back what `deflate_compress` has compressed.
use dancy.Base.{
  ℕ, zero, suc, ◌+◌, ◌-◌, ◌^◌, ◌≤◌, ◌<◌, ◌≡◌, ◌≢◌, bit_and, refl, ap, ◌∙◌, true, false, List, [],
  ◌∷◌, ◌++◌, append_assoc, append-nil, length, length-append, get_or, get_elem?, take, ◌==◌, ==_iff,
  some, arith,
}
use dancy.Base.Bits.{bit_and-ones}
use native.Mathlib.Nat.{mod-eq_of_lt}
use dancy.Bitarray.{Bitarray, got, bitarray_fetch, bitarray_init}
use dancy.Bitarray.Stream.{bits_of, byte_bits, stream}
use dancy.Bitarray.RoundTrip.{bitarray_fetch-bits_of}
use dancy.Huffman.{huffman_fetch}
use dancy.Inflate.{
  is_one, length_codes, distance_codes, went_on, symbol_step, Inflated, returned, inflate_loop,
  inflate,
}
use dancy.Inflate.Codes.{static_code, static_dist, inflate_init-static}
use dancy.Inflate.Output.{Keeps, Agrees, Keeps-refl, Keeps-trans}
use dancy.Inflate.Bounds.{length-stream}
use dancy.Deflate.{find_code, code_table, dist_table, deflate_compress}
use dancy.Deflate.Bits.{word_bits, code_table-HasWords}
use dancy.Deflate.Encoding.{length-IsCode, lendist_bits, literal_bits, code_bits}
use dancy.Deflate.Lz77.{Encodes, ends, literal, repeated, text_bits, lz77_compress-Encodes}
use dancy.Deflate.Rounds.{symbol_step-literal, symbol_step-repeated}
use dancy.Deflate.Symbols.{fetch_word, length_extra_le}
use dancy.Deflate.Room.{Compresses, compressed, too_long}
use dancy.Deflate.Compress.{stream_bits, deflate_compress-Compresses}

-- Bytes.
abbrev pub AreBytes : List ℕ → Type 0
AreBytes [] = Unit
AreBytes (c ∷ text) = (c < 256) × AreBytes text

get_or-lt : (text : List ℕ) (i : ℕ) → AreBytes text → get_or text i 0 < 256
get_or-lt [] i bytes = omega arith
get_or-lt (c ∷ text) zero bytes = bytes.0
get_or-lt (c ∷ text) (suc i) bytes = get_or-lt text i bytes.1

get_elem?-get_or :
    (text : List ℕ) (i : ℕ) → i < length text → get_elem? text i ≡ some (get_or text i 0)
get_elem?-get_or [] i h = absurd (omega arith)
get_elem?-get_or (c ∷ text) zero h = refl
get_elem?-get_or (c ∷ text) (suc i) h = get_elem?-get_or text i (omega arith)

-- The buffer holds the text, and the rest of it is as it was.
pub record Restores (text out : List ℕ) (r : Inflated) : Type 0 where
  pub out' : List ℕ
  pub left : Bitarray
  pub returned_is : r ≡ returned 0 out' (length text) left
  pub text_is : take (length text) out' ≡ text
  pub keeps : Keeps (length text) out out'

take-Agrees :
    (text out : List ℕ)
    → Agrees text out (length text)
    → length text ≤ length out
    → take (length text) out ≡ text
take-Agrees [] out agrees h = refl
take-Agrees (c ∷ text) [] agrees h = absurd (omega arith)
take-Agrees (c ∷ text) (d ∷ out) agrees h =
    let first : some d ≡ some c = agrees 0 (omega arith) in
    let same : d ≡ c = cc in
    rw (same, take-Agrees text out (λ k hk. agrees (suc k) (omega arith)) (omega arith)) refl

Restores-after :
    (text out out' : List ℕ) (r : Inflated)
    → Keeps (length text) out out'
    → Restores text out' r
    → Restores text out r
Restores-after text out out' r keeps rest = record {
  out' = rest.out';
  left = rest.left;
  returned_is = rest.returned_is;
  text_is = rest.text_is;
  keeps = Keeps-trans (length text) out out' rest.out' keeps rest.keeps;
}

abbrev pub codes : List ℕ
codes = (code_table).1

abbrev pub dists : List ℕ
dists = (dist_table).1

module _ (text : List ℕ) (bytes : AreBytes text) (limit : length text < 2 ^ 63) where
  abbrev size : ℕ
  size = length text

  inflate_loop-next :
      (fuel c off off' : ℕ) (out out' : List ℕ) (b left : Bitarray)
      → (huffman_fetch static_code b).0 ≡ got c
      → c ≢ 256
      → symbol_step static_dist size c out off (huffman_fetch static_code b).1
        ≡ went_on out' off' left
      → inflate_loop (suc fuel) static_code static_dist size out off b
        ≡ inflate_loop fuel static_code static_dist size out' off' left
  unfolding inflate_loop
  inflate_loop-next fuel c off off' out out' b left v ne e =
      let t : (c == 256) ≡ false = ground (arith, λ (z : c ≡ 256). ne z) in
      rw (inflate_loop, v, t, e) refl

  inflate_loop-last :
      (fuel : ℕ) (out : List ℕ) (b : Bitarray)
      → (huffman_fetch static_code b).0 ≡ got 256
      → inflate_loop (suc fuel) static_code static_dist size out size b
        ≡ returned 0 out size (huffman_fetch static_code b).1
  unfolding inflate_loop
  inflate_loop-last fuel out b v = rw (inflate_loop, v, (==_iff size size).1 refl) refl

  regroup :
      (len dist j extra value : ℕ) (more tail : List ℕ)
      → find_code length_codes 0 len ≡ some (0 + j, extra, value)
      → (lendist_bits codes dists len dist ++ more) ++ tail
        ≡ word_bits codes (257 + j)
          ++ (bits_of extra (len - value)
              ++ (code_bits dists 0 dist (find_code distance_codes 0 dist) ++ (more ++ tail)))
  regroup len dist j extra value more tail found =
      let zero_add : 0 + j ≡ j = omega arith in rw (found, zero_add) (simp append_assoc)

  -- The bits of a text that is left to come, with fuel for them.
  inflate_loop-Restores :
      (i : ℕ) (bits : List ℕ)
      → Encodes codes dists text i bits
      → (fuel : ℕ) (out rest : List ℕ) (b : Bitarray)
      → stream b ≡ bits ++ (word_bits codes 256 ++ rest)
      → i ≤ size
      → Agrees text out i
      → size ≤ length out
      → length (stream b) < fuel
      → Restores text out (inflate_loop fuel static_code static_dist size out i b)
  inflate_loop-Restores _ _ (ends i bits h e) zero out rest b s h' agrees room few =
      absurd (omega arith)
  inflate_loop-Restores _ _ (ends i bits h e) (suc fuel) out rest b s h' agrees room few =
      let (v, left, less) =
        fetch_word static_code codes 288 256 rest b (unfold static_code in refl) code_table-HasWords
          (omega arith) (s ∙ ap (λ l. l ++ (word_bits codes 256 ++ rest)) e) in
      let here : i ≡ size = omega arith in
      record {
        out' = out;
        left = (huffman_fetch static_code b).1;
        returned_is = rw here (inflate_loop-last fuel out b v);
        text_is = take-Agrees text out (λ k hk. agrees k (omega arith)) room;
        keeps = Keeps-refl size out;
      }
  inflate_loop-Restores _ _ (literal i bits more inside d e) zero out rest b s h' agrees room few =
      absurd (omega arith)
  inflate_loop-Restores _ _ (literal i bits more inside d e) (suc fuel) out rest b s h' agrees room
        few =
      let c : ℕ = get_or text i 0 in
      let tail : List ℕ = word_bits codes 256 ++ rest in
      let small : c < 256 = get_or-lt text i bytes in
      let byte : bit_and c 0xff ≡ c = bit_and-ones 8 c ∙ mod-eq_of_lt small in
      let s' : stream b ≡ word_bits codes c ++ (more ++ tail) =
        s
        ∙ ap (λ l. l ++ tail) e
        ∙ append_assoc (literal_bits codes c) more tail
        ∙ ap (λ k. word_bits codes k ++ (more ++ tail)) byte in
      let (v, left, less) =
        fetch_word static_code codes 288 c (more ++ tail) b (unfold static_code in refl)
          code_table-HasWords (omega arith) s' in
      let r =
        symbol_step-literal text out i agrees room c (more ++ tail) (huffman_fetch static_code b).1
          small inside (get_elem?-get_or text i inside) left in
      rw (inflate_loop-next fuel c i (i + 1) out r.out' b r.left v (omega arith) r.step_is) (
        Restores-after text out r.out' _ r.keeps (
          inflate_loop-Restores (i + 1) more d fuel r.out' rest r.left r.left_is (omega arith)
            r.agrees (omega (arith, (r.keeps).length_is))
            (omega (arith, ap (λ l. length l) r.left_is))))
  inflate_loop-Restores _ _ (repeated i len dist bits more match d e) zero out rest b s h' agrees
        room few =
      absurd (omega arith)
  inflate_loop-Restores _ _ (repeated i len dist bits more match d e) (suc fuel) out rest b s h'
        agrees room few =
      let tail : List ℕ = word_bits codes 256 ++ rest in
      let (j, extra, value, found, code) =
        length-IsCode len (match.len_range).0 (match.len_range).1 in
      let (index, few_extra) = length_extra_le j extra value code.at_j in
      let distance : List ℕ = code_bits dists 0 dist (find_code distance_codes 0 dist) in
      let s' : stream b
          ≡ word_bits codes (257 + j)
            ++ (bits_of extra (len - value) ++ (distance ++ (more ++ tail))) =
        s ∙ ap (λ l. l ++ tail) e ∙ regroup len dist j extra value more tail found in
      let (v, left, less) =
        fetch_word static_code codes 288 (257 + j) _ b (unfold static_code in refl)
          code_table-HasWords (omega arith) s' in
      let r =
        symbol_step-repeated text out i agrees room len dist j extra value (more ++ tail)
          (huffman_fetch static_code b).1 match limit code left in
      rw
        (inflate_loop-next fuel (257 + j) i (i + len) out r.out' b r.left v (omega arith) r.step_is)
        (Restores-after text out r.out' _ r.keeps (
          inflate_loop-Restores (i + len) more d fuel r.out' rest r.left r.left_is
            (omega (arith, match.within)) r.agrees (omega (arith, (r.keeps).length_is))
            (omega (
              arith,
              ap (λ l. length l) r.left_is,
              length-append (bits_of extra (len - value)) (distance ++ (more ++ tail)),
              length-append distance (more ++ tail),
            ))))

-- The bits before the text: that the block is the last one, and has the static codes.
stream_head :
    (text bytes pad : List ℕ)
    → byte_bits bytes ≡ stream_bits codes dists text ++ pad
    → stream (bitarray_init bytes [])
      ≡ bits_of 1 1 ++ (bits_of 2 1 ++ (text_bits codes dists text ++ (word_bits codes 256 ++ pad)))
unfolding stream bitarray_init
stream_head text bytes pad e =
    append-nil (byte_bits bytes)
    ∙ e
    ∙ append_assoc (bits_of 1 1 ++ bits_of 2 1) (text_bits codes dists text ++ word_bits codes 256)
        pad
    ∙ ap (λ l. (bits_of 1 1 ++ bits_of 2 1) ++ l)
        (append_assoc (text_bits codes dists text) (word_bits codes 256) pad)

inflate-Restores :
    (text out pad : List ℕ) (b : Bitarray)
    → AreBytes text
    → length text < 2 ^ 63
    → 0 < length text
    → length text ≤ length out
    → stream b
      ≡ bits_of 1 1 ++ (bits_of 2 1 ++ (text_bits codes dists text ++ (word_bits codes 256 ++ pad)))
    → Restores text out (inflate b out (length text))
unfolding inflate
inflate-Restores text out pad b bytes limit pos room s =
    let (one, left) = bitarray_fetch-bits_of b 1 1 _ (omega arith) (omega arith) s in
    let (two, left') =
      bitarray_fetch-bits_of (bitarray_fetch b 1).1 2 1 _ (omega arith) (omega arith) left in
    rw (inflate, inflate_init-static, ap is_one one, ap is_one two)
      (inflate_loop-Restores text bytes limit 0 (text_bits codes dists text)
        ((lz77_compress-Encodes codes dists text pos).0) _ out pad _ left' (omega arith)
        (λ k hk. absurd (omega arith)) room
        (omega (arith, length-stream (bitarray_fetch (bitarray_fetch b 1).1 2).1)))

-- For a text of at least 4 bytes, and fewer than 2 ^ 63, that `deflate_compress` has compressed: `inflate` of
-- the bytes that it made, to a buffer with room for the text, returns 0, the first bytes of the buffer are
-- the text and the others are as they were.
pub inflate-deflate_compress :
    (text out : List ℕ)
    → AreBytes text
    → 4 ≤ length text
    → length text < 2 ^ 63
    → length text ≤ length out
    → (deflate_compress true text).0 ≡ 0
    → let r = deflate_compress true text in
      Restores text out (inflate (bitarray_init (take r.2 r.1) []) out (length text))
inflate-deflate_compress text out bytes long limit room success =
    by_result (deflate_compress-Compresses text long)
  where
    by_result :
        Compresses (stream_bits codes dists text) text (deflate_compress true text)
        → let r = deflate_compress true text in
          Restores text out (inflate (bitarray_init (take r.2 r.1) []) out (length text))
    by_result (compressed pad e few same are pad_lt) =
        inflate-Restores text out pad _ bytes limit (omega arith) room (stream_head text _ pad are)
    by_result (too_long e long') =
        let failed : (deflate_compress true text).0 ≡ 1 = ap (λ r. r.0) e in
        absurd (omega (arith, failed))
