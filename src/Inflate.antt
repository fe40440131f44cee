-- ===== src/Inflate.antt =====
-- kernel/lib/inflate.c: decompression. The buffer is a list, which is read and written just within it; an
-- access beyond it is a fault of the model. The codes, which the source keeps from its first call on, are
-- made in each call.
pub mod Codes
pub mod Output
pub mod Steps
pub mod Bounds
mod Tests
use dancy.Base.{
  ℕ, zero, suc, ◌+◌, ◌-◌, ◌*◌, ◌%◌, ◌^◌, Bool, true, false, List, [], ◌∷◌, ◌++◌, length, get_elem?,
  set, replicate, ltb, leb, ◌==◌, if◌then◌else◌, Option, none, some,
}
use dancy.Base.Int.{ℤ, pos, negsuc}
use dancy.Bitarray.{Bitarray, Fetched, got, failed, no_code, out_of_fuel, bitarray_fetch}
use dancy.Huffman.{Huffman, huffman_init, huffman_fetch}

-- The codes for lengths and for distances: the number of extra bits, and the least value.
abbrev pub length_codes : List (ℕ × ℕ)
length_codes =
    (0, 3)
    ∷ (0, 4)
    ∷ (0, 5)
    ∷ (0, 6)
    ∷ (0, 7)
    ∷ (0, 8)
    ∷ (0, 9)
    ∷ (0, 10)
    ∷ (1, 11)
    ∷ (1, 13)
    ∷ (1, 15)
    ∷ (1, 17)
    ∷ (2, 19)
    ∷ (2, 23)
    ∷ (2, 27)
    ∷ (2, 31)
    ∷ (3, 35)
    ∷ (3, 43)
    ∷ (3, 51)
    ∷ (3, 59)
    ∷ (4, 67)
    ∷ (4, 83)
    ∷ (4, 99)
    ∷ (4, 115)
    ∷ (5, 131)
    ∷ (5, 163)
    ∷ (5, 195)
    ∷ (5, 227)
    ∷ (0, 258)
    ∷ []

abbrev pub distance_codes : List (ℕ × ℕ)
distance_codes =
    (0, 1)
    ∷ (0, 2)
    ∷ (0, 3)
    ∷ (0, 4)
    ∷ (1, 5)
    ∷ (1, 7)
    ∷ (2, 9)
    ∷ (2, 13)
    ∷ (3, 17)
    ∷ (3, 25)
    ∷ (4, 33)
    ∷ (4, 49)
    ∷ (5, 65)
    ∷ (5, 97)
    ∷ (6, 129)
    ∷ (6, 193)
    ∷ (7, 257)
    ∷ (7, 385)
    ∷ (8, 513)
    ∷ (8, 769)
    ∷ (9, 1025)
    ∷ (9, 1537)
    ∷ (10, 2049)
    ∷ (10, 3073)
    ∷ (11, 4097)
    ∷ (11, 6145)
    ∷ (12, 8193)
    ∷ (12, 12289)
    ∷ (13, 16385)
    ∷ (13, 24577)
    ∷ (0, 65535)
    ∷ []

-- The lengths of the static code words, of literals and lengths, and of distances.
abbrev pub code_lengths : List ℕ
code_lengths =
    replicate 144 8 ++ (replicate 112 9 ++ (replicate 24 7 ++ (replicate 6 8 ++ replicate 2 8)))

abbrev pub dist_lengths : List ℕ
dist_lengths = replicate 32 5

abbrev is_success : ℤ → Bool
is_success (pos n) = n == 0
is_success (negsuc n) = false

unfoldable pub inflate_init : Option (Huffman × Huffman)
inflate_init =
    let h1 = huffman_init code_lengths in
    let h2 = huffman_init dist_lengths in
    if is_success h1.0 then (if is_success h2.0 then some (h1.1, h2.1) else none) else none

-- What a symbol does: the loop goes on, or it ends with a code.
pub data Step : Type 0 where
  went_on : List ℕ → ℕ → Bitarray → Step
  stop : ℕ → List ℕ → Bitarray → Step
  broke : Step

-- `out[off - dist]`; where `dist` is above `off` it lies before the buffer, and `none` is a fault.
unfoldable pub byte_back : List ℕ → ℕ → ℕ → Option ℕ
byte_back out off dist = if ltb off dist then none else get_elem? out (off - dist)

unfoldable pub copy_loop : ℕ → ℕ → ℕ → List ℕ → Option (List ℕ × ℕ)
copy_loop zero dist off out = some (out, off)
copy_loop (suc len) dist off out = elim (byte_back out off dist) [
  | none ↦ none
  | some c ↦ elim (ltb off (length out)) [
    | true ↦ copy_loop len dist (off + 1) (set out off c)
    | false ↦ none
  ]
]

unfoldable pub copy_match : ℕ → ℕ → List ℕ → ℕ → Bitarray → Step
copy_match len dist out off b =
    if ltb off dist then stop 4 out b else elim (copy_loop len dist off out) [
      | none ↦ broke
      | some (out', off') ↦ went_on out' off' b
    ]

unfoldable pub distance_extra : ℕ → Option (ℕ × ℕ) → List ℕ → ℕ → Bitarray → Step
distance_extra len none out off b = broke
distance_extra len (some (extra, value)) out off b =
    let r = bitarray_fetch b extra in
    elim (r.0) [
      | got val ↦ copy_match len ((value + val) % 2 ^ 32) out off r.1
      | out_of_fuel ↦ broke
      | _ ↦ stop 5 out r.1
    ]

unfoldable pub read_distance : Huffman → ℕ → List ℕ → ℕ → Bitarray → Step
read_distance h_dist len out off b =
    let r = huffman_fetch h_dist b in
    elim (r.0) [
      | got sym ↦
          if leb 30 sym
          then stop 5 out r.1
          else distance_extra len (get_elem? distance_codes sym) out off r.1
      | out_of_fuel ↦ broke
      | _ ↦ stop 5 out r.1
    ]

unfoldable pub length_extra : Huffman → ℕ → Option (ℕ × ℕ) → List ℕ → ℕ → Bitarray → Step
length_extra h_dist size none out off b = broke
length_extra h_dist size (some (extra, value)) out off b =
    let r = bitarray_fetch b extra in
    elim (r.0) [
      | got val ↦
          let len = (value + val) % 2 ^ 32 in
          if ltb size ((off + len) % 2 ^ 64)
          then stop 5 out r.1
          else read_distance h_dist len out off r.1
      | out_of_fuel ↦ broke
      | _ ↦ stop 5 out r.1
    ]

unfoldable pub put_byte : ℕ → ℕ → List ℕ → ℕ → Bitarray → Step
put_byte size sym out off b =
    if leb size off
    then stop 4 out b
    else if ltb off (length out)
    then went_on (set out off sym) (off + 1) b
    else broke

-- A round of the main loop, for a symbol other than 256.
unfoldable pub symbol_step : Huffman → ℕ → ℕ → List ℕ → ℕ → Bitarray → Step
symbol_step h_dist size sym out off b =
    if ltb sym 256
    then put_byte size sym out off b
    else if leb 286 sym
    then stop 5 out b
    else length_extra h_dist size (get_elem? length_codes (sym - 257)) out off b

-- The code that is returned, the buffer, and what is stored at `size`; `fault` is the model's own.
pub data Inflated : Type 0 where
  returned : ℕ → List ℕ → ℕ → Bitarray → Inflated
  fault : Inflated

unfoldable pub inflate_loop : ℕ → Huffman → Huffman → ℕ → List ℕ → ℕ → Bitarray → Inflated
inflate_loop zero h_code h_dist size out off b = fault
inflate_loop (suc fuel) h_code h_dist size out off b =
    let r = huffman_fetch h_code b in
    elim (r.0) [
      | got sym ↦ elim (sym == 256) [
        | true ↦ if size == off then returned 0 out size r.1 else returned 1 out off r.1
        | false ↦ elim (symbol_step h_dist size sym out off r.1) [
          | went_on out' off' b' ↦ inflate_loop fuel h_code h_dist size out' off' b'
          | stop code out' b' ↦ returned code out' size b'
          | broke ↦ fault
        ]
      ]
      | out_of_fuel ↦ fault
      | _ ↦ returned 3 out size r.1
    ]

abbrev pub is_one : Fetched → Bool
is_one (got v) = v == 1
is_one failed = false
is_one no_code = false
is_one out_of_fuel = false

unfoldable pub total_bytes : List (List ℕ) → ℕ
total_bytes [] = 0
total_bytes (bytes ∷ refills) = length bytes + total_bytes refills

-- A round takes at least one bit, so that there are no more rounds than bits.
unfoldable pub bit_count : Bitarray → ℕ
bit_count b = b.count + 8 * (length b.bytes + total_bytes b.refills)

unfoldable pub inflate : Bitarray → List ℕ → ℕ → Inflated
inflate b out size = elim inflate_init [
  | none ↦ returned 2 out size b
  | some (h_code, h_dist) ↦
      let last = bitarray_fetch b 1 in
      elim (is_one last.0) [
        | false ↦ returned 2 out size last.1
        | true ↦
            let kind = bitarray_fetch last.1 2 in
            elim (is_one kind.0) [
              | false ↦ returned 2 out size kind.1
              | true ↦ inflate_loop (suc (bit_count kind.1)) h_code h_dist size out 0 kind.1
            ]
      ]
]
