-- ===== src/Bitarray/Tests.antt =====
-- Runs of bitarray.c, and its properties at some bytes.
use dancy.Base.{ℕ, ◌≡◌, refl, true, List, [], ◌∷◌, map, arith}
use dancy.Bitarray.{
  Bitarray, bitarray_init, got, failed, bitarray_fetch, bitarray_aligned_fetch, fetch_loop, round,
  load, refill, bitarray_clear,
}
use dancy.Bitarray.Stream.{stream}
use dancy.Bitarray.Fetch.{Fetches, val_of, bitarray_fetch-Fetches}
use dancy.Bitarray.RoundTrip.{shove_all, fetch_all, new_writer, bitarray_fetch-bitarray_shove}

abbrev two_bytes : Bitarray
two_bytes = bitarray_init (0xa5 ∷ []) ((0x3c ∷ []) ∷ [])

-- Four bits are left, and eight more come from the callback.
aligned_run : (bitarray_aligned_fetch (bitarray_fetch two_bytes 4).1 8).0 ≡ got 0x3c
unfolding bitarray_aligned_fetch bitarray_fetch bitarray_init fetch_loop round load refill
    bitarray_clear
aligned_run = refl

short_run : (bitarray_fetch two_bytes 17).0 ≡ failed
unfolding bitarray_fetch bitarray_init fetch_loop round load refill bitarray_clear
short_run = refl

bitarray_fetch-Fetches_example : Fetches 12 val_of (stream two_bytes) (bitarray_fetch two_bytes 12)
bitarray_fetch-Fetches_example = bitarray_fetch-Fetches two_bytes 12 (omega arith)

abbrev three_items : List (ℕ × ℕ)
three_items = (3, 5) ∷ (11, 1030) ∷ (1, 1) ∷ []

bitarray_fetch-bitarray_shove_example :
    let r = shove_all (new_writer 2 []) three_items in
    (r.0 ≡ true)
    × (fetch_all (bitarray_init (r.1).bytes []) three_items
        ≡ map (λ item. got (item.1)) three_items)
bitarray_fetch-bitarray_shove_example =
    bitarray_fetch-bitarray_shove three_items 2 []
      (omega arith, omega arith, (omega arith, omega arith, (omega arith, omega arith, tt)))
      (omega arith)
