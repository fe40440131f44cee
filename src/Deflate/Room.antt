-- ===== src/Deflate/Room.antt =====
-- `deflate_compress`, on whether there is room for the stream.
use dancy.Base.{
  ℕ, zero, suc, ◌+◌, ◌-◌, ◌*◌, ◌/◌, ◌%◌, ◌≤◌, ◌<◌, ◌≡◌, refl, ap, ◌∙◌, Bool, true, false, List, [],
  ◌∷◌, ◌++◌, append-nil, length, length-append, take, drop, take_all, length-take, length-drop, ltb,
  ◌==◌, if◌then◌else◌, some, arith, Bool-cases, inl, inr,
}
use dancy.Bitarray.{Writer, store_byte, make_room, shove_bit, bitarray_shove, bitarray_written}
use dancy.Bitarray.Stream.{bits_of, byte_bits, length-bits_of, length-byte_bits}
use dancy.Bitarray.Shove.{written, IsWriter, Appends, appended, no_room, bitarray_shove-Appends}
use dancy.Bitarray.RoundTrip.{Writes, filled_up}
use dancy.Deflate.{finish_stream}

-- No byte is lost.
pub record Grows (w : Writer) (r : Bool × Writer) : Type 0 where
  pub more : length w.bytes ≤ length (r.1).bytes

store_byte-Grows : (w w' : Writer) → w'.bytes ≡ w.bytes → Grows w (store_byte w')
unfolding store_byte
store_byte-Grows w w' e = record {
  more = rw e (omega (arith, length-append w.bytes ((w'.val % 256) ∷ [])));
}

make_room-Grows :
    (rooms : List ℕ) (w w' : Writer) → w'.bytes ≡ w.bytes → Grows w (make_room rooms w')
unfolding make_room
make_room-Grows [] w w' e = record { more = rw e (omega arith) }
make_room-Grows (room ∷ rooms) w w' e = elim (Bool-cases (room == 0)) [
  | inl z ↦ rw z (record { more = rw e (omega arith) })
  | inr nz ↦ rw nz (store_byte-Grows w _ e)
]

shove_bit-Grows : (v : ℕ) (w : Writer) → Grows w (shove_bit v w)
unfolding shove_bit
shove_bit-Grows v w = elim (Bool-cases (ltb (w.count + 1) 8)) [
  | inl t ↦ rw t (record { more = omega arith })
  | inr t ↦ elim (Bool-cases (w.size == 0)) [
    | inl z ↦ rw (t, z) (make_room-Grows w.rooms w _ refl)
    | inr nz ↦ rw (t, nz) (store_byte-Grows w _ refl)
  ]
]

pub bitarray_shove-Grows : (bits v : ℕ) (w : Writer) → Grows w (bitarray_shove w bits v)
bitarray_shove-Grows zero v w = unfold bitarray_shove in record { more = omega arith }
bitarray_shove-Grows (suc bits) v w =
    by_bit (shove_bit-Grows v w) (bitarray_shove-Grows bits (v / 2) (shove_bit v w).1)
  where
    by_bit :
        Grows w (shove_bit v w)
        → Grows (shove_bit v w).1 (bitarray_shove (shove_bit v w).1 bits (v / 2))
        → Grows w (bitarray_shove w (suc bits) v)
    by_bit one rest =
        unfold bitarray_shove in
        elim (Bool-cases (shove_bit v w).0) [
          | inl t ↦ rw (t, bitarray_shove) (record { more = omega (arith, one.more, rest.more) })
          | inr t ↦ rw (t, bitarray_shove) one
        ]

pub length-written : (w : Writer) → length (written w) ≡ 8 * length w.bytes + w.count
length-written w = omega (
  arith,
  length-append (byte_bits w.bytes) (bits_of w.count w.val),
  length-byte_bits w.bytes,
  length-bits_of w.count w.val,
)

-- What is returned: the bytes of the stream, which are fewer than the text's; or the text, as it was, since
-- the stream would not be shorter.
pub data Compresses (bits text : List ℕ) (r : ℕ × List ℕ × ℕ) : Type 0 where
  compressed :
      (pad : List ℕ)
      → r.0 ≡ 0
      → r.2 < length text
      → length r.1 ≡ length text
      → byte_bits (take r.2 r.1) ≡ bits ++ pad
      → length pad < 8
      → Compresses bits text r
  too_long :
      r ≡ (1, text, length text) → 8 * (length text - 1) < length bits → Compresses bits text r

-- The end of the stream: the last byte is filled up, or there is no room for it.
data Finishes (w : Writer) : Type 0 where
  filled : Writes w [] ((bitarray_written w).0, (bitarray_written w).2) → Finishes w
  full : (bitarray_written w).0 ≡ false → w.size ≡ 0 → 0 < w.count → Finishes w

bitarray_written-Finishes : (w : Writer) → IsWriter w → Finishes w
unfolding bitarray_written
bitarray_written-Finishes w ok =
    by_shove (ground arith) (ground (arith, ok.count_lt)) (ground (arith, ok.count_lt))
      (bitarray_shove-Appends w (if w.count == 0 then 0 else 8 - w.count) 0 ok)
  where
    by_shove :
        let n = if w.count == 0 then 0 else 8 - w.count in
        w.count + n ≤ 8
        → (w.count + n) % 8 ≡ 0
        → n < 8
        → Appends (bits_of n 0) w (bitarray_shove w n 0)
        → Finishes w
    by_shove h even small (appended t e ok' space) = filled (filled_up w _ _ even small t e ok')
    by_shove h even small (no_room t few) =
        let n : ℕ = if w.count == 0 then 0 else 8 - w.count in
        full t (omega (arith, length-bits_of n 0)) (omega (arith, length-bits_of n 0))

take_first : (xs ys : List ℕ) → take (length xs) (xs ++ ys) ≡ xs
take_first [] ys = refl
take_first (x ∷ xs) ys = ap (λ l. x ∷ l) (take_first xs ys)

finish_too_long :
    (text : List ℕ) (w : Writer)
    → (bitarray_written w).0 ≡ false
    → finish_stream text (some w) ≡ (1, text, length text)
unfolding finish_stream
finish_too_long text w e = rw (finish_stream, e) refl

pub finish_late :
    (text : List ℕ) (w : Writer)
    → length text - 1 < (bitarray_written w).1
    → finish_stream text (some w) ≡ (1, text, length text)
unfolding finish_stream
finish_late text w h = ground arith

finish_in_time :
    (text : List ℕ) (w : Writer)
    → (bitarray_written w).0 ≡ true
    → (bitarray_written w).1 ≤ length text - 1
    → finish_stream text (some w) ≡ (
      0,
      take (bitarray_written w).1 ((bitarray_written w).2).bytes
          ++ drop (bitarray_written w).1 text,
      (bitarray_written w).1,
    )
unfolding finish_stream
finish_in_time text w e h = ground arith

pub written-count : (w : Writer) → (bitarray_written w).1 ≡ length ((bitarray_written w).2).bytes
unfolding bitarray_written
written-count w = refl

pub written-le : (w : Writer) → length w.bytes ≤ (bitarray_written w).1
unfolding bitarray_written
written-le w = (bitarray_shove-Grows (if w.count == 0 then 0 else 8 - w.count) 0 w).more

leb_of_not_ltb : (a b : ℕ) → ltb a b ≡ false → b ≤ a
leb_of_not_ltb a b e = ground arith

-- The bytes of a writer with all the bits.
pub finish_stream-Compresses :
    (bits text : List ℕ) (w : Writer)
    → IsWriter w
    → 0 < length text
    → written w ≡ bits
    → 8 * length text + w.count ≤ 8 * w.size + length bits
    → Compresses bits text (finish_stream text (some w))
finish_stream-Compresses bits text w ok pos e space = by_end (bitarray_written-Finishes w ok)
  where
    n : ℕ
    n = (bitarray_written w).1

    bytes : List ℕ
    bytes = ((bitarray_written w).2).bytes

    total :
        Writes w [] ((bitarray_written w).0, (bitarray_written w).2)
        → (s : List ℕ) × (length s < 8)
          × (byte_bits bytes ≡ bits ++ s)
          × (8 * n ≡ length bits + length s)
    total s =
        let are : byte_bits bytes ≡ bits ++ s.pad =
          s.bytes_are ∙ ap (λ l. l ++ s.pad) (append-nil (written w) ∙ e) in
        (
          s.pad,
          s.pad_lt,
          are,
          omega (
            arith,
            written-count w,
            length-byte_bits bytes,
            ap (λ l. length l) are,
            length-append bits s.pad,
          ),
        )

    all_bytes : take n (take n bytes ++ drop n text) ≡ bytes
    all_bytes =
        let first : take n bytes ≡ bytes = take_all n bytes (omega (arith, written-count w)) in
        rw first (rw (written-count w) (take_first bytes _))

    by_end : Finishes w → Compresses bits text (finish_stream text (some w))
    by_end (full t z nz) = too_long (finish_too_long text w t) (omega arith)
    by_end (filled s) =
        let (pad, pad_lt, are, total_is) = total s in
        elim (Bool-cases (ltb (length text - 1) n)) [
          | inl t ↦ too_long (finish_late text w (ground arith)) (ground arith)
          | inr t ↦ rw (finish_in_time text w s.success (ground arith)) (
              compressed pad refl (ground arith)
                (omega (
                  arith,
                  length-append (take n bytes) (drop n text),
                  length-take n bytes,
                  length-drop n text,
                  written-count w,
                  leb_of_not_ltb (length text - 1) n t,
                ))
                (ap byte_bits all_bytes ∙ are) pad_lt)
        ]
