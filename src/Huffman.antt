-- ===== src/Huffman.antt =====
-- kernel/lib/huffman.c: prefix codes that are given by the lengths of their code words. The array of symbols
-- has `n` entries, and the table that `huffman_table` fills is apart from it. An entry beyond an array is
-- read as 0.
pub mod Fetch
pub mod Prefix
pub mod Canonical
pub mod Weights
pub mod Kraft
pub mod Decode
mod Tests
use dancy.Base.{
  ℕ, zero, suc, ◌+◌, ◌-◌, ◌*◌, ◌/◌, ◌%◌, ◌^◌, Bool, true, false, bit_and, bit_or, List, [], ◌∷◌,
  map, length, get_or, set, replicate, drop, ltb, ◌==◌, if◌then◌else◌, Option, none, some,
}
use dancy.Base.Int.{ℤ, pos, negsuc}
use dancy.Bitarray.{Bitarray, bit, again, ended, round, Fetched, got, failed, no_code, out_of_fuel}

-- `struct huffman`
pub record Huffman : Type 0 where
  pub lengths : List ℕ
  pub symbols : List ℕ
  pub completed : Bool

-- How many entries have each length, up to an entry that is more than 15.
unfoldable pub count_lengths : List ℕ → List ℕ → Bool × List ℕ
count_lengths [] lengths = (true, lengths)
count_lengths (len ∷ symbols) lengths =
    if ltb 15 len
    then (false, lengths)
    else count_lengths symbols (set lengths len ((get_or lengths len 0 + 1) % 2 ^ 32))

-- The code words that are left over, unless the lengths ask for too many.
unfoldable pub check_lengths : List ℕ → ℕ → Option ℕ
check_lengths [] t = some t
check_lengths (len ∷ lengths) t =
    if ltb (t * 2) len then none else check_lengths lengths (t * 2 - len)

-- `buf` from 1 on: where the symbols of each length start.
unfoldable pub offsets : List ℕ → ℕ → List ℕ
offsets [] off = []
offsets (len ∷ lengths) off = off ∷ offsets lengths ((len + off) % 2 ^ 32)

-- The symbols from `i` on are entered, above the four bits for the lengths.
unfoldable pub place_loop : ℕ → ℕ → List ℕ → List ℕ → List ℕ
place_loop zero i symbols buf = symbols
place_loop (suc n) i symbols buf =
    let len = bit_and (get_or symbols i 0) 0x0f in
    let to = get_or buf len 0 in
    place_loop n (i + 1)
      (if len == 0
        then symbols
        else set symbols to (bit_or (get_or symbols to 0) (i * 16 % 2 ^ 32)))
      (if len == 0 then buf else set buf len ((to + 1) % 2 ^ 32))

unfoldable pub build_symbols : List ℕ → List ℕ → List ℕ
build_symbols lengths symbols =
    map (λ entry. entry / 16)
      (place_loop (length symbols) 0 symbols (0 ∷ offsets (drop 1 lengths) 0))

unfoldable pub huffman_init : List ℕ → ℤ × Huffman
huffman_init symbols =
    let counted = count_lengths symbols (replicate 16 0) in
    let h : Huffman = record { lengths = counted.1; symbols = symbols; completed = false } in
    elim (counted.0) [
      | false ↦ (negsuc 0, h)
      | true ↦
          if get_or h.lengths 0 0 == length symbols
          then (pos 0, h)
          else elim (check_lengths (drop 1 h.lengths) 1) [
            | none ↦ (negsuc 1, h)
            | some t ↦
                (pos 0, record h { symbols = build_symbols h.lengths symbols; completed = t == 0 })
          ]
    ]

-- The loop of `huffman_fetch`, with the lengths from `i` on.
unfoldable pub huffman_loop : ℕ → List ℕ → ℕ → ℕ → ℕ → List ℕ → Bitarray → Fetched × Bitarray
huffman_loop fuel [] base off val symbols b = (no_code, b)
huffman_loop zero (len ∷ lengths) base off val symbols b = (out_of_fuel, b)
huffman_loop (suc fuel) (len ∷ lengths) base off val symbols b = elim (round b) [
  | bit v b' ↦
      let val' = bit_or (val * 2 % 2 ^ 32) v in
      elim (ltb val' ((base + len) % 2 ^ 32)) [
        | true ↦ (got (get_or symbols ((off + (val' + 2 ^ 32 - base)) % 2 ^ 32) 0), b')
        | false ↦
            huffman_loop fuel lengths ((base + len) * 2 % 2 ^ 32) ((off + len) % 2 ^ 32) val'
              symbols b'
      ]
  | again b' ↦ huffman_loop fuel (len ∷ lengths) base off val symbols b'
  | ended b' ↦ (failed, b')
]

-- A code word has 15 bits at most, and a bit takes three rounds at most.
unfoldable pub huffman_fetch : Huffman → Bitarray → Fetched × Bitarray
huffman_fetch h b = huffman_loop 45 (drop 1 h.lengths) 0 0 0 h.symbols b

-- The bits of `val` from `k` on, in reverse order, after those of `rev`.
unfoldable pub reverse_loop : ℕ → ℕ → ℕ → ℕ → ℕ
reverse_loop zero k val rev = rev
reverse_loop (suc n) k val rev =
    reverse_loop n (k + 1) val
      (bit_or (rev * 2 % 2 ^ 32) (if bit_and val (2 ^ k) == 0 then 0 else 1))

-- The code words of the length `i`: of the symbols from `off + j` on. `false` is a return of -2.
unfoldable pub words_loop : ℕ → ℕ → ℕ → ℕ → List ℕ → List ℕ → Bool × ℕ × List ℕ
words_loop zero i from val symbols table = (true, val, table)
words_loop (suc n) i from val symbols table =
    let sym = get_or symbols from 0 * 2 % 2 ^ 32 in
    elim (ltb sym (length table)) [
      | true ↦
          words_loop n i (from + 1) ((val + 1) % 2 ^ 32) symbols
            (set (set table sym i) (sym + 1) (reverse_loop i 0 val 0))
      | false ↦ (false, val, table)
    ]

unfoldable pub levels_loop : List ℕ → ℕ → ℕ → ℕ → List ℕ → List ℕ → Bool × List ℕ
levels_loop [] i off val symbols table = (true, table)
levels_loop (len ∷ lengths) i off val symbols table =
    let r = words_loop len i off val symbols table in
    elim (r.0) [
      | true ↦ levels_loop lengths (i + 1) ((off + len) % 2 ^ 32) (r.1 * 2 % 2 ^ 32) symbols r.2
      | false ↦ (false, r.2)
    ]

unfoldable pub sum_lengths : List ℕ → ℕ
sum_lengths [] = 0
sum_lengths (len ∷ lengths) = (len + sum_lengths lengths) % 2 ^ 32

unfoldable pub huffman_table : Huffman → ℕ → ℤ × List ℕ
huffman_table h n =
    if sum_lengths (drop 1 h.lengths) * 2 % 2 ^ 32 == n
    then (let r = levels_loop (drop 1 h.lengths) 1 0 0 h.symbols (replicate n 0) in
        (if r.0 then pos 0 else negsuc 1, r.1))
    else (negsuc 0, replicate n 0)
