-- ===== src/Deflate.antt =====
-- tools/dy-zip/deflate.c (tools/dy-png/deflate.c is the same code): compression with the static codes. The
-- bytes are a list, with its length as their number; a byte beyond its end is read as 0. Whether `malloc`
-- gives the buffer is an argument.
pub mod Search
pub mod Bits
pub mod Encoding
pub mod Lz77
pub mod Room
pub mod Compress
pub mod Symbols
pub mod Rounds
pub mod RoundTrip
mod Tests
use dancy.Base.{
  ℕ, zero, suc, ◌+◌, ◌-◌, ◌*◌, ◌%◌, min, bit_and, Bool, true, false, ◌&&◌, ◌||◌, List, [], ◌∷◌,
  ◌++◌, length, get_or, ltb, leb, ◌==◌, if◌then◌else◌, Option, none, some, take, drop, not,
}
use dancy.Base.Int.{ℤ, pos, negsuc}
use dancy.Bitarray.{Writer, bitarray_shove, bitarray_written}
use dancy.Huffman.{huffman_init, huffman_table}
use dancy.Inflate.{length_codes, distance_codes, code_lengths, dist_lengths}

-- The two tables, made by `huffman_init` and `huffman_table`; `none` is a return of 1.
unfoldable pub make_table : ℤ × List ℕ → Option (List ℕ)
make_table (pos zero, table) = some table
make_table (pos (suc n), table) = none
make_table (negsuc n, table) = none

unfoldable pub code_table : ℤ × List ℕ
code_table = huffman_table (huffman_init code_lengths).1 576

unfoldable pub dist_table : ℤ × List ℕ
dist_table = huffman_table (huffman_init dist_lengths).1 64

-- The index of a code for the value `n`, its extra bits and its least value. The tables end before `none`.
unfoldable pub find_code : List (ℕ × ℕ) → ℕ → ℕ → Option (ℕ × ℕ × ℕ)
find_code [] i n = none
find_code ((extra, value) ∷ []) i n = if n == value then some (i, extra, value) else none
find_code ((extra, value) ∷ (extra', value') ∷ codes) i n =
    if n == value || ltb n value'
    then some (i, extra, value)
    else find_code ((extra', value') ∷ codes) (i + 1) n

-- A code word from a table and the extra bits, if there are some.
unfoldable pub put_code : List ℕ → ℕ → ℕ → Option (ℕ × ℕ × ℕ) → Writer → Bool × Writer
put_code table base n none w = (false, w)
put_code table base n (some (i, extra, value)) w =
    let r =
      bitarray_shove w (get_or table ((base + i) * 2) 0) (get_or table ((base + i) * 2 + 1) 0) in
    elim (r.0) [
      | false ↦ r
      | true ↦ if extra == 0 then (true, r.1) else bitarray_shove r.1 extra (n - value)
    ]

-- `false` is a return of -1.
unfoldable pub put_lendist : List ℕ → List ℕ → ℕ → ℕ → Writer → Bool × Writer
put_lendist codes dists len dist w =
    if ltb len 3 || (ltb 258 len || (ltb dist 1 || ltb 32768 dist))
    then (false, w)
    else (let r = put_code codes 257 len (find_code length_codes 0 len) w in
        elim (r.0) [
          | false ↦ r
          | true ↦ put_code dists 0 dist (find_code distance_codes 0 dist) r.1
        ])

unfoldable pub put_literal : List ℕ → ℕ → Writer → Bool × Writer
put_literal codes c w =
    bitarray_shove w (get_or codes (bit_and c 0xff * 2) 0) (get_or codes (bit_and c 0xff * 2 + 1) 0)

-- How far the bytes from `i` on are those `dist` before them; `n` bytes from the `j`-th on can be compared.
unfoldable pub match_loop : ℕ → List ℕ → ℕ → ℕ → ℕ → ℕ
match_loop zero text i dist j = j
match_loop (suc n) text i dist j =
    if get_or text (i - dist + j) 0 == get_or text (i + j) 0
    then match_loop n text i dist (j + 1)
    else j

-- The length of the match at this distance, if it is longer than `len`.
unfoldable pub better_match : List ℕ → ℕ → ℕ → ℕ → ℕ → Option ℕ
better_match text i limit dist len =
    let c1 = get_or text i 0 in
    let c2 = if ltb 2 limit then get_or text (i + 1) 0 else 0 in
    let j = match_loop (limit - 2) text i dist 2 in
    if get_or text (i - dist) 0 == c1 && get_or text (i - dist + 1) 0 == c2
    then (if ltb len j then some j else none)
    else none

-- The length and the distance that are found, the latter 0 if none is; `n` distances are to come.
unfoldable pub distance_loop : ℕ → List ℕ → ℕ → ℕ → ℕ → ℕ → ℕ → ℕ × ℕ
distance_loop zero text i limit dist found_len found_dist = (found_len, found_dist)
distance_loop (suc n) text i limit dist found_len found_dist =
    elim (better_match text i limit dist found_len) [
      | none ↦ distance_loop n text i limit (dist + 1) found_len found_dist
      | some j ↦ elim (leb 64 j) [
        | true ↦ (j, dist)
        | false ↦ distance_loop n text i limit (dist + 1) j dist
      ]
    ]

abbrev pub window_size : ℕ → ℕ
window_size size = if leb size 524288 then 32768 else 1024

unfoldable pub find_match : List ℕ → ℕ → ℕ × ℕ
find_match text i =
    distance_loop (min i (window_size (length text))) text i (min (length text - i) 258) 1 2 0

-- The loop of `lz77_compress`. A round takes at least one byte, so that the length of the text is fuel
-- enough; without fuel and with bytes left the model fails.
unfoldable pub lz77_loop : ℕ → List ℕ → List ℕ → List ℕ → ℕ → Writer → Bool × Writer
lz77_loop zero codes dists text i w = (leb (length text) i, w)
lz77_loop (suc fuel) codes dists text i w = elim (ltb i (length text)) [
  | false ↦ (true, w)
  | true ↦
      let found = find_match text i in
      elim (found.1 == 0) [
        | true ↦
            let r = put_literal codes (get_or text i 0) w in
            elim (r.0) [ false ↦ r | true ↦ lz77_loop fuel codes dists text (i + 1) r.1 ]
        | false ↦
            let r = put_lendist codes dists found.0 found.1 w in
            elim (r.0) [ false ↦ r | true ↦ lz77_loop fuel codes dists text (i + found.0) r.1 ]
      ]
]

unfoldable pub lz77_compress : List ℕ → List ℕ → List ℕ → Writer → Bool × Writer
lz77_compress codes dists text w =
    let r = put_literal codes (get_or text 0 0) w in
    elim (r.0) [ false ↦ r | true ↦ lz77_loop (length text) codes dists text 1 r.1 ]

-- The stream, which is `none` where `lz77_compress` fails. The results of the single calls are not looked at.
unfoldable pub write_stream : List ℕ → List ℕ → List ℕ → Writer → Option Writer
write_stream codes dists text w =
    let w' = (bitarray_shove (bitarray_shove w 1 1).1 2 1).1 in
    let r = lz77_compress codes dists text w' in
    elim (r.0) [
      | false ↦ none
      | true ↦ some (bitarray_shove r.1 (get_or codes 512 0) (get_or codes 513 0)).1
    ]

-- The return value, the bytes and their number.
unfoldable pub finish_stream : List ℕ → Option Writer → ℕ × List ℕ × ℕ
finish_stream text none = (1, text, length text)
finish_stream text (some w) =
    let r = bitarray_written w in
    if r.0 && not (ltb (length text - 1) r.1)
    then (0, take r.1 (r.2).bytes ++ drop r.1 text, r.1)
    else (1, text, length text)

unfoldable pub deflate_compress : Bool → List ℕ → ℕ × List ℕ × ℕ
deflate_compress memory text =
    if ltb (length text) 4 then (1, text, length text) else elim (make_table code_table) [
      | none ↦ (1, text, length text)
      | some codes ↦ elim (make_table dist_table) [
        | none ↦ (1, text, length text)
        | some dists ↦
            if memory
            then finish_stream text (
                write_stream codes dists text
                  (record { bytes = []; size = length text; count = 0; val = 0; rooms = [] }))
            else (1, text, length text)
      ]
    ]
