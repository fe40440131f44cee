-- ===== src/Bitarray.antt =====
-- kernel/lib/bitarray.c: bits read from bytes and bits written to bytes, lowest bit first. The callback is
-- a parameter by what it does in its calls: for an array that is read, the bytes that it provides in each
-- call, for one that is written, the room; when that list has ended, it fails, as `default_callback` does.
pub mod Stream
pub mod Fetch
pub mod Shove
pub mod RoundTrip
mod Tests
use dancy.Base.{
  ℕ, zero, suc, ◌+◌, ◌-◌, ◌*◌, ◌/◌, ◌%◌, ◌^◌, Bool, true, false, bit_and, bit_or, List, [], ◌∷◌,
  ◌++◌, length, ltb, ◌==◌, if◌then◌else◌,
}

-- `struct bitarray` as it is read: the `size` bytes at `data`, and `state`.
pub record Bitarray : Type 0 where
  pub bytes : List ℕ
  pub count : ℕ
  pub val : ℕ
  pub refills : List (List ℕ)

unfoldable pub bitarray_init : List ℕ → List (List ℕ) → Bitarray
bitarray_init bytes refills = record { bytes = bytes; count = 0; val = 0; refills = refills }

unfoldable pub bitarray_clear : Bitarray → Bitarray
bitarray_clear b = record b { bytes = []; count = 0; val = 0 }

-- One round of the loops that read bits: a bit is taken, a byte or a refill is taken in, or no more comes.
pub data Round : Type 0 where
  bit : ℕ → Bitarray → Round
  again : Bitarray → Round
  ended : Bitarray → Round

-- `b->callback(b) || !b->size` after `bitarray_clear`.
unfoldable pub refill : List (List ℕ) → Bitarray → Round
refill [] b = ended b
refill ([] ∷ refills) b = ended (record b { refills = refills })
refill ((c ∷ bytes) ∷ refills) b = again (record b { bytes = c ∷ bytes; refills = refills })

unfoldable pub load : List ℕ → Bitarray → Round
load (c ∷ bytes) b = again (record b { bytes = bytes; count = 8; val = c })
load [] b = refill b.refills (bitarray_clear b)

unfoldable pub round : Bitarray → Round
round b =
    if b.count == 0
    then load b.bytes b
    else bit (bit_and b.val 1) (record b { count = b.count - 1; val = b.val / 2 })

-- The results of the functions that read: -1 is `failed`, and -2 of `huffman_fetch` is `no_code`;
-- `out_of_fuel` is the model's own.
pub data Fetched : Type 0 where
  got : ℕ → Fetched
  failed no_code out_of_fuel : Fetched

-- The loop of `bitarray_fetch` with `n` bits to come. A bit takes three rounds at most.
unfoldable pub fetch_loop : ℕ → ℕ → ℕ → ℕ → Bitarray → Fetched × Bitarray
fetch_loop fuel zero index ret b = (got (bit_and ret 0x7fffffff), b)
fetch_loop zero (suc n) index ret b = (out_of_fuel, b)
fetch_loop (suc fuel) (suc n) index ret b = elim (round b) [
  | bit v b' ↦ fetch_loop fuel n (index + 1) (bit_or (v * 2 ^ index) ret) b'
  | again b' ↦ fetch_loop fuel (suc n) index ret b'
  | ended b' ↦ (failed, b')
]

unfoldable pub bitarray_fetch : Bitarray → ℕ → Fetched × Bitarray
bitarray_fetch b bits = fetch_loop (3 * bits) bits 0 0 b

-- The result, and what is stored at `data`: the bytes that are left.
unfoldable pub bitarray_aligned_fetch : Bitarray → ℕ → Fetched × List ℕ × Bitarray
bitarray_aligned_fetch b bits =
    let b' = if b.count == 0 then b else record b { count = 0; val = 0 } in
    let r = bitarray_fetch b' bits in (r.0, b'.bytes, r.1)

-- `struct bitarray` as it is written: the bytes that have been, and the room for more.
pub record Writer : Type 0 where
  pub bytes : List ℕ
  pub size : ℕ
  pub count : ℕ
  pub val : ℕ
  pub rooms : List ℕ

-- The end of a round of `bitarray_shove` in which a byte is full; `none` of the rooms left is a failure.
unfoldable pub store_byte : Writer → Bool × Writer
store_byte w = (
  true,
  record {
    bytes = w.bytes ++ ((w.val % 256) ∷ []);
    size = w.size - 1;
    count = 0;
    val = 0;
    rooms = w.rooms;
  },
)

unfoldable pub make_room : List ℕ → Writer → Bool × Writer
make_room [] w = (false, record w { size = 0; count = 0; val = 0 })
make_room (room ∷ rooms) w =
    if room == 0
    then (false, record w { size = 0; count = 0; val = 0; rooms = rooms })
    else store_byte (record w { size = room; rooms = rooms })

-- Whether a round goes on, and the state.
unfoldable pub shove_bit : ℕ → Writer → Bool × Writer
shove_bit val w =
    let w' = record w { val = bit_or (bit_and val 1 * 2 ^ w.count) w.val; count = w.count + 1 } in
    if ltb (w.count + 1) 8
    then (true, w')
    else if w.size == 0
    then make_room w.rooms w'
    else store_byte w'

-- `true` is a return of 0.
unfoldable pub bitarray_shove : Writer → ℕ → ℕ → Bool × Writer
bitarray_shove w zero val = (true, w)
bitarray_shove w (suc bits) val =
    let r = shove_bit val w in elim (r.0) [ true ↦ bitarray_shove r.1 bits (val / 2) | false ↦ r ]

-- The result, and the number of bytes that have been written.
unfoldable pub bitarray_written : Writer → Bool × ℕ × Writer
bitarray_written w =
    let bits = if w.count == 0 then 0 else 8 - w.count in
    let r = bitarray_shove w bits 0 in (r.0, length (r.1).bytes, r.1)
