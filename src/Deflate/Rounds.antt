-- ===== src/Deflate/Rounds.antt =====
-- The rounds of `inflate` on what has been written.
use dancy.Base.{
  ℕ, ◌+◌, ◌-◌, ◌%◌, ◌^◌, ◌≤◌, ◌<◌, ◌≡◌, refl, false, List, ◌++◌, length, get_elem?, set, ltb, leb,
  lt→ltb, some, arith,
}
use dancy.Bitarray.{Bitarray, bitarray_fetch}
use dancy.Bitarray.Stream.{bits_of, stream}
use dancy.Bitarray.RoundTrip.{bitarray_fetch-bits_of}
use dancy.Inflate.{
  length_codes, distance_codes, Step, went_on, copy_match, length_extra, put_byte, symbol_step,
}
use dancy.Inflate.Codes.{static_dist}
use dancy.Inflate.Output.{Keeps, copy_loop-Keeps, copy_loop-Agrees, Agrees, set-Agrees, set-Keeps}
use dancy.Deflate.{find_code, dist_table}
use dancy.Deflate.Search.{IsMatch}
use dancy.Deflate.Encoding.{IsCode, code_bits}
use dancy.Deflate.Symbols.{length_extra_le, extra_value, read_distance-copy}

-- The text up to `n` is in the buffer, the bits that are left are these, and the round goes on.
pub record Reaches (text out : List ℕ) (n : ℕ) (more : List ℕ) (s : Step) : Type 0 where
  pub out' : List ℕ
  pub left : Bitarray
  pub step_is : s ≡ went_on out' n left
  pub agrees : Agrees text out' n
  pub keeps : Keeps (length text) out out'
  pub left_is : stream left ≡ more

module _ (text out : List ℕ) (off : ℕ) (agrees : Agrees text out off)
    (room : length text ≤ length out) where
  copy_match-Reaches :
      (len dist : ℕ) (more : List ℕ) (b : Bitarray)
      → IsMatch text off len dist
      → stream b ≡ more
      → Reaches text out (off + len) more (copy_match len dist out off b)
  unfolding copy_match
  copy_match-Reaches len dist more b match s =
      let (out', copied, keeps) =
        copy_loop-Keeps len dist off (length text) out (match.near) (match.within) room in
      let t : ltb off dist ≡ false = ground (arith, match.near) in
      record {
        out' = out';
        left = b;
        step_is = rw (copy_match, t, copied) refl;
        agrees =
            copy_loop-Agrees text len dist off out out' _ (match.dist_range).0 (match.near)
              (omega (arith, match.within)) (match.repeats) agrees copied;
        keeps = keeps;
        left_is = s;
      }

  length_extra-Reaches :
      (len dist e v : ℕ) (more : List ℕ) (b : Bitarray)
      → IsMatch text off len dist
      → length text < 2 ^ 63
      → e ≤ 13
      → v ≤ len
      → len < v + 2 ^ e
      → stream b
        ≡ bits_of e (len - v)
          ++ (code_bits (dist_table).1 0 dist (find_code distance_codes 0 dist) ++ more)
      → Reaches text out
          (off + len)
          more
          (length_extra static_dist (length text) (some (e, v)) out off b)
  unfolding length_extra
  length_extra-Reaches len dist e v more b match limit small low high s =
      let (value, left) = bitarray_fetch-bits_of b e (len - v) _ (omega arith) (omega arith) s in
      let len_is = extra_value len v low (omega (arith, match.len_range)) in
      let (b', copies, left') =
        read_distance-copy out off len dist more (bitarray_fetch b e).1 (match.dist_range).0
          (match.dist_range).1 left in
      let t : ltb (length text) ((off + len) % 2 ^ 64) ≡ false = ground (arith, match.within) in
      rw (length_extra, value, len_is, t, copies) (copy_match-Reaches len dist more b' match left')

  pub symbol_step-literal :
      (c : ℕ) (more : List ℕ) (b : Bitarray)
      → c < 256
      → off < length text
      → get_elem? text off ≡ some c
      → stream b ≡ more
      → Reaches text out (off + 1) more (symbol_step static_dist (length text) c out off b)
  unfolding symbol_step put_byte
  symbol_step-literal c more b small inside e s =
      let t : leb (length text) off ≡ false = ground arith in
      record {
        out' = set out off c;
        left = b;
        step_is =
            rw (symbol_step, lt→ltb c 256 small, t, lt→ltb off (length out) (omega arith)) refl;
        agrees = set-Agrees text out off c (omega arith) e agrees;
        keeps = set-Keeps (length text) off c out inside;
        left_is = s;
      }

  pub symbol_step-repeated :
      (len dist j e v : ℕ) (more : List ℕ) (b : Bitarray)
      → IsMatch text off len dist
      → length text < 2 ^ 63
      → IsCode length_codes len j e v
      → stream b
        ≡ bits_of e (len - v)
          ++ (code_bits (dist_table).1 0 dist (find_code distance_codes 0 dist) ++ more)
      → Reaches text out
          (off + len)
          more
          (symbol_step static_dist (length text) (257 + j) out off b)
  unfolding symbol_step
  symbol_step-repeated len dist j e v more b match limit code s =
      let (less, small) = length_extra_le j e v code.at_j in
      let t : ltb (257 + j) 256 ≡ false = ground arith in
      let t' : leb 286 (257 + j) ≡ false = ground arith in
      let index : 257 + j - 257 ≡ j = omega arith in
      rw (symbol_step, t, t', index, code.at_j)
        (length_extra-Reaches len dist e v more b match limit small code.low code.high s)
