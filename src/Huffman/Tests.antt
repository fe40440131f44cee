-- ===== src/Huffman/Tests.antt =====
-- Runs of huffman.c, and its property at a code of four symbols.
use dancy.Base.{◌≡◌, refl, true, [], ◌∷◌, drop, some}
use dancy.Base.Int.{pos, negsuc}
use dancy.Bitarray.{Bitarray, bitarray_init, load, got, round}
use dancy.Bitarray.Stream.{stream}
use dancy.Huffman.{
  Huffman, count_lengths, check_lengths, offsets, place_loop, build_symbols, huffman_init,
  huffman_loop, huffman_fetch, reverse_loop, words_loop, levels_loop, sum_lengths, huffman_table,
}
use dancy.Huffman.Decode.{IsWord, Reads, huffman_fetch-Reads}

-- The symbols 0, 1, 3 and 4 with code words of 2, 1, 3 and 3 bits.
abbrev four_symbols : Huffman
four_symbols = record {
  lengths = 1 ∷ 1 ∷ 1 ∷ 2 ∷ 0 ∷ 0 ∷ 0 ∷ 0 ∷ 0 ∷ 0 ∷ 0 ∷ 0 ∷ 0 ∷ 0 ∷ 0 ∷ 0 ∷ [];
  symbols = 1 ∷ 0 ∷ 3 ∷ 4 ∷ 0 ∷ [];
  completed = true;
}

-- The input and the output that the comment in `huffman_init` gives.
four_symbols_run : huffman_init (2 ∷ 1 ∷ 0 ∷ 3 ∷ 3 ∷ []) ≡ (pos 0, four_symbols)
unfolding huffman_init count_lengths check_lengths offsets place_loop build_symbols
four_symbols_run = refl

too_many_run : (huffman_init (1 ∷ 1 ∷ 1 ∷ [])).0 ≡ negsuc 1
unfolding huffman_init count_lengths check_lengths
too_many_run = refl

too_long_run : (huffman_init (1 ∷ 16 ∷ [])).0 ≡ negsuc 0
unfolding huffman_init count_lengths check_lengths
too_long_run = refl

table_run :
    huffman_table (record four_symbols { symbols = 1 ∷ 0 ∷ 2 ∷ 3 ∷ [] }) 8
    ≡ (pos 0, 2 ∷ 1 ∷ 1 ∷ 0 ∷ 3 ∷ 3 ∷ 3 ∷ 7 ∷ [])
unfolding huffman_table sum_lengths levels_loop words_loop reverse_loop
table_run = refl

abbrev one_byte : Bitarray
one_byte = bitarray_init (0x1d ∷ []) []

four_symbols_fit : check_lengths (drop 1 four_symbols.lengths) 1 ≡ some 0
unfolding check_lengths
four_symbols_fit = refl

-- The words of the four places are 0, 10, 110 and 111.
last-IsWord : IsWord (drop 1 four_symbols.lengths) 3 (1 ∷ 1 ∷ 1 ∷ [])
last-IsWord = record { weight = 0x1000; weight_at = refl; long = refl; start = refl }

-- The first word of the byte is 10, that of the symbol 0.
fetch_run : (huffman_fetch four_symbols one_byte).0 ≡ got 0
unfolding huffman_fetch huffman_loop round bitarray_init load
fetch_run = refl

huffman_fetch-Reads_example :
    Reads four_symbols (stream one_byte) (huffman_fetch four_symbols one_byte)
huffman_fetch-Reads_example = huffman_fetch-Reads four_symbols 0 one_byte refl four_symbols_fit
