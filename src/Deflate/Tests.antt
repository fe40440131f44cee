-- ===== src/Deflate/Tests.antt =====
-- Runs of deflate.c, and its properties at a text of 15 bytes.
use dancy.Base.{ℕ, ◌≡◌, refl, ap, true, List, [], ◌∷◌, replicate, take, length, arith}
use dancy.Bitarray.{
  bitarray_init, shove_bit, bitarray_shove, bitarray_written, store_byte, make_room,
}
use dancy.Huffman.{
  count_lengths, check_lengths, offsets, place_loop, build_symbols, huffman_init, reverse_loop,
  words_loop, levels_loop, sum_lengths, huffman_table,
}
use dancy.Inflate.{inflate}
use dancy.Deflate.{
  make_table, code_table, dist_table, find_code, put_code, put_lendist, put_literal, match_loop,
  better_match, distance_loop, find_match, lz77_loop, lz77_compress, write_stream, finish_stream,
  deflate_compress,
}
use dancy.Deflate.Room.{Compresses}
use dancy.Deflate.Compress.{stream_bits, deflate_compress-Compresses}
use dancy.Deflate.RoundTrip.{Restores, inflate-deflate_compress}

abbrev sample : List ℕ
sample = 1 ∷ 1 ∷ 1 ∷ 1 ∷ 1 ∷ 1 ∷ 1 ∷ 1 ∷ 1 ∷ 2 ∷ 200 ∷ 1 ∷ 1 ∷ 1 ∷ 2 ∷ []

-- Eight bytes are left of fifteen, and the bytes of the text stay behind them.
compress_run :
    deflate_compress true sample
    ≡ (0, 99 ∷ 132 ∷ 1 ∷ 166 ∷ 19 ∷ 32 ∷ 2 ∷ 0 ∷ 1 ∷ 2 ∷ 200 ∷ 1 ∷ 1 ∷ 1 ∷ 2 ∷ [], 8)
unfolding make_table code_table dist_table find_code put_code put_lendist put_literal match_loop
    better_match distance_loop find_match lz77_loop lz77_compress write_stream finish_stream
    deflate_compress count_lengths check_lengths offsets place_loop build_symbols huffman_init
    reverse_loop words_loop levels_loop sum_lengths huffman_table shove_bit bitarray_shove
    bitarray_written store_byte make_room
compress_run = refl

success_run : (deflate_compress true sample).0 ≡ 0
success_run = ap (λ r. r.0) compress_run

deflate_compress-Compresses_example :
    Compresses
      (stream_bits (code_table).1 (dist_table).1 sample)
      sample
      (deflate_compress true sample)
deflate_compress-Compresses_example = deflate_compress-Compresses sample (omega arith)

inflate-deflate_compress_example :
    let r = deflate_compress true sample in
    Restores sample
      (replicate 20 7)
      (inflate (bitarray_init (take r.2 r.1) []) (replicate 20 7) (length sample))
inflate-deflate_compress_example =
    inflate-deflate_compress sample (replicate 20 7) (omega arith) (omega arith) (omega arith)
      (omega arith) success_run
