-- ===== src/Bitarray/RoundTrip.antt =====
-- Numbers that are written to bytes and read back.
use dancy.Base.{
  ℕ, zero, suc, ◌+◌, ◌-◌, ◌*◌, ◌/◌, ◌%◌, ◌^◌, ◌<◌, ◌≤◌, ◌≡◌, refl, ap, sym, ◌∙◌, Bool, true, false,
  List, [], ◌∷◌, ◌++◌, append_assoc, append-nil, map, length, length-append, ◌==◌, if◌then◌else◌,
  arith,
}
use native.Mathlib.Nat.{pow-suc}
use dancy.Bitarray.{
  Bitarray, bitarray_init, Writer, bitarray_shove, bitarray_written, Fetched, got, bitarray_fetch,
}
use dancy.Bitarray.Stream.{bits_of, byte_bits, stream, length-bits_of, length-byte_bits}
use dancy.Bitarray.Fetch.{Fetches, enough, short, val_of, bitarray_fetch-Fetches}
use dancy.Bitarray.Shove.{written, IsWriter, Appends, appended, no_room, bitarray_shove-Appends}

-- Items: a number of bits, up to 31, and a number of that many bits.
abbrev pub AllFit : List (ℕ × ℕ) → Type 0
AllFit [] = Unit
AllFit ((n, v) ∷ items) = (n ≤ 31) × (v < 2 ^ n) × AllFit items

-- All items are written, one after the other, and the last byte is filled up.
unfoldable pub shove_all : Writer → List (ℕ × ℕ) → Bool × Writer
shove_all w [] = ((bitarray_written w).0, (bitarray_written w).2)
shove_all w ((n, v) ∷ items) =
    let r = bitarray_shove w n v in elim (r.0) [ true ↦ shove_all r.1 items | false ↦ r ]

-- Numbers of these lengths are read, one after the other.
unfoldable pub fetch_all : Bitarray → List (ℕ × ℕ) → List Fetched
fetch_all b [] = []
fetch_all b ((n, v) ∷ items) = let r = bitarray_fetch b n in r.0 ∷ fetch_all r.1 items

abbrev pub item_bits : List (ℕ × ℕ) → List ℕ
item_bits [] = []
item_bits ((n, v) ∷ items) = bits_of n v ++ item_bits items

val_of-bits_of : (n v : ℕ) → v < 2 ^ n → val_of (bits_of n v) ≡ v
val_of-bits_of zero v h = omega arith
val_of-bits_of (suc n) v h = omega (arith, val_of-bits_of n (v / 2) (omega (arith, pow-suc 2 n)))

-- A list of bits that starts another one in two ways.
same_start :
    (n : ℕ) (a b c d : List ℕ) → length a ≡ n → length c ≡ n → a ++ b ≡ c ++ d → (a ≡ c) × (b ≡ d)
same_start n [] b [] d h h' e = (refl, e)
same_start n [] b (x ∷ c) d h h' e = absurd (omega arith)
same_start n (x ∷ a) b [] d h h' e = absurd (omega arith)
same_start n (x ∷ a) b (y ∷ c) d h h' e =
    let heads : x ≡ y = cc in
    let tails : a ++ b ≡ c ++ d = cc in
    let rest = same_start (n - 1) a b c d (omega arith) (omega arith) tails in
    (rw (heads, rest.0) refl, rest.1)

fetched :
    (n v : ℕ) (bits rest : List ℕ) (r : Fetched × Bitarray)
    → v < 2 ^ n
    → bits ≡ bits_of n v ++ rest
    → Fetches n val_of bits r
    → (r.0 ≡ got v) × (stream r.1 ≡ rest)
fetched n v bits rest r small e (enough bs left e' len value s) =
    let same = same_start n bs left (bits_of n v) rest len (length-bits_of n v) (sym e' ∙ e) in
    (value ∙ ap got (ap val_of same.0 ∙ val_of-bits_of n v small), s ∙ same.1)
fetched n v bits rest r small e (short h f) =
    absurd
      (omega (arith, ap (λ l. length l) e, length-append (bits_of n v) rest, length-bits_of n v))

-- Reading a number that stands at the start of the stream.
pub bitarray_fetch-bits_of :
    (b : Bitarray) (n v : ℕ) (rest : List ℕ)
    → n ≤ 31
    → v < 2 ^ n
    → stream b ≡ bits_of n v ++ rest
    → let r = bitarray_fetch b n in (r.0 ≡ got v) × (stream r.1 ≡ rest)
bitarray_fetch-bits_of b n v rest h small e =
    fetched n v (stream b) rest _ small e (bitarray_fetch-Fetches b n h)

fetch_all-cons :
    (b : Bitarray) (n v : ℕ) (items : List (ℕ × ℕ))
    → fetch_all b ((n, v) ∷ items)
      ≡ ((bitarray_fetch b n).0 ∷ fetch_all (bitarray_fetch b n).1 items)
unfolding fetch_all
fetch_all-cons b n v items = refl

fetch_all-got :
    (items : List (ℕ × ℕ)) (b : Bitarray) (rest : List ℕ)
    → AllFit items
    → stream b ≡ item_bits items ++ rest
    → fetch_all b items ≡ map (λ item. got (item.1)) items
fetch_all-got [] b rest fit e = unfold fetch_all in refl
fetch_all-got ((n, v) ∷ items) b rest fit e =
    let one =
      bitarray_fetch-bits_of b n v (item_bits items ++ rest) fit.0 fit.1
        (e ∙ append_assoc (bits_of n v) (item_bits items) rest) in
    fetch_all-cons b n v items
    ∙ rw one.0 (ap (λ l. got v ∷ l) (fetch_all-got items (bitarray_fetch b n).1 rest fit.2 one.1))

abbrev pub total : List (ℕ × ℕ) → ℕ
total [] = 0
total ((n, v) ∷ items) = n + total items

-- What writing all items has done: there is room, and the bytes start with their bits.
pub record Writes (w : Writer) (bits : List ℕ) (r : Bool × Writer) : Type 0 where
  pub success : r.0 ≡ true
  pub pad : List ℕ
  pub bytes_are : byte_bits (r.1).bytes ≡ (written w ++ bits) ++ pad
  pub pad_lt : length pad < 8

pub filled_up :
    (w : Writer) (n : ℕ) (r : Bool × Writer)
    → (w.count + n) % 8 ≡ 0
    → n < 8
    → r.0 ≡ true
    → written r.1 ≡ written w ++ bits_of n 0
    → IsWriter r.1
    → Writes w [] r
filled_up w n r even small t e ok' = record {
  pad_lt = omega (arith, length-bits_of n 0);
  success = t;
  pad = bits_of n 0;
  bytes_are =
      sym (append-nil _)
      ∙ ap (λ l. byte_bits (r.1).bytes ++ l) (sym no_bits)
      ∙ e
      ∙ ap (λ l. l ++ bits_of n 0) (sym (append-nil (written w)));
}
  where
    lengths : 8 * length (r.1).bytes + (r.1).count ≡ 8 * length w.bytes + w.count + n
    lengths = omega (
      arith,
      ap (λ l. length l) e,
      length-append (byte_bits (r.1).bytes) (bits_of (r.1).count (r.1).val),
      length-append (written w) (bits_of n 0),
      length-append (byte_bits w.bytes) (bits_of w.count w.val),
      length-byte_bits (r.1).bytes,
      length-byte_bits w.bytes,
      length-bits_of (r.1).count (r.1).val,
      length-bits_of w.count w.val,
      length-bits_of n 0,
    )

    no_bits : bits_of (r.1).count (r.1).val ≡ []
    no_bits = let z : (r.1).count ≡ 0 = omega (arith, lengths, ok'.count_lt) in rw z refl

fill_up :
    (w : Writer) (n : ℕ) (r : Bool × Writer)
    → w.count + n ≤ 8 * w.size
    → (w.count + n) % 8 ≡ 0
    → n < 8
    → IsWriter w
    → Appends (bits_of n 0) w r
    → Writes w [] r
fill_up w n r h even small ok (no_room f few) = absurd (omega (arith, length-bits_of n 0))
fill_up w n r h even small ok (appended t e ok' space) = filled_up w n r even small t e ok'

bitarray_written-Writes :
    (w : Writer)
    → IsWriter w
    → w.count ≤ 8 * w.size
    → Writes w [] ((bitarray_written w).0, (bitarray_written w).2)
unfolding bitarray_written
bitarray_written-Writes w ok h =
    let n : ℕ = if w.count == 0 then 0 else 8 - w.count in
    fill_up w n _ (ground arith) (ground (arith, ok.count_lt)) (ground (arith, ok.count_lt)) ok
      (bitarray_shove-Appends w n 0 ok)

more_written :
    (w : Writer) (bits bits' : List ℕ) (r r' : Bool × Writer)
    → written r.1 ≡ written w ++ bits
    → Writes r.1 bits' r'
    → Writes w (bits ++ bits') r'
more_written w bits bits' r r' e s = record {
  success = s.success;
  pad = s.pad;
  pad_lt = s.pad_lt;
  bytes_are = s.bytes_are ∙ ap (λ l. l ++ s.pad) (rw e (append_assoc (written w) bits bits'));
}

shove_all-next :
    (w : Writer) (n v : ℕ) (items : List (ℕ × ℕ))
    → (bitarray_shove w n v).0 ≡ true
    → shove_all w ((n, v) ∷ items) ≡ shove_all (bitarray_shove w n v).1 items
unfolding shove_all
shove_all-next w n v items t = rw (t, shove_all) refl

shoved :
    (w : Writer) (n v : ℕ) (items : List (ℕ × ℕ))
    → w.count + (n + total items) ≤ 8 * w.size
    → Appends (bits_of n v) w (bitarray_shove w n v)
    → ((w' : Writer)
        → IsWriter w'
        → w'.count + total items ≤ 8 * w'.size
        → Writes w' (item_bits items) (shove_all w' items))
    → Writes w (bits_of n v ++ item_bits items) (shove_all w ((n, v) ∷ items))
shoved w n v items h (no_room f few) rest = absurd (omega (arith, length-bits_of n v))
shoved w n v items h (appended t e ok space) rest = rw (shove_all-next w n v items t) (
    more_written w (bits_of n v) (item_bits items) (bitarray_shove w n v)
      (shove_all (bitarray_shove w n v).1 items) e
      (rest (bitarray_shove w n v).1 ok (omega (arith, length-bits_of n v))))

pub shove_all-Writes :
    (items : List (ℕ × ℕ)) (w : Writer)
    → IsWriter w
    → w.count + total items ≤ 8 * w.size
    → Writes w (item_bits items) (shove_all w items)
shove_all-Writes [] w ok h = unfold shove_all in bitarray_written-Writes w ok (omega arith)
shove_all-Writes ((n, v) ∷ items) w ok h =
    shoved w n v items h (bitarray_shove-Appends w n v ok) (shove_all-Writes items)

-- A bit array to be written, with this room.
abbrev pub new_writer : ℕ → List ℕ → Writer
new_writer size rooms = record { bytes = []; size = size; count = 0; val = 0; rooms = rooms }

back :
    (items : List (ℕ × ℕ)) (w : Writer) (r : Bool × Writer)
    → AllFit items
    → written w ≡ []
    → Writes w (item_bits items) r
    → (r.0 ≡ true)
      × (fetch_all (bitarray_init (r.1).bytes []) items ≡ map (λ item. got (item.1)) items)
back items w r fit e s =
    (s.success, fetch_all-got items _ s.pad fit (start ∙ s.bytes_are ∙ rw e refl))
  where
    start : stream (bitarray_init (r.1).bytes []) ≡ byte_bits (r.1).bytes
    start = unfold bitarray_init stream in append-nil _

-- Numbers of up to 31 bits each that are written with `bitarray_shove`, one after the other, to a new array with
-- room for all their bits, and then `bitarray_written`: all calls succeed, and `bitarray_fetch` of the same
-- numbers of bits, one after the other, from the bytes that were written gives the numbers back.
pub bitarray_fetch-bitarray_shove :
    (items : List (ℕ × ℕ)) (size : ℕ) (rooms : List ℕ)
    → AllFit items
    → total items ≤ 8 * size
    → let r = shove_all (new_writer size rooms) items in
      (r.0 ≡ true)
      × (fetch_all (bitarray_init (r.1).bytes []) items ≡ map (λ item. got (item.1)) items)
bitarray_fetch-bitarray_shove items size rooms fit h =
    back items (new_writer size rooms) _ fit refl (
      shove_all-Writes items (new_writer size rooms)
        (record { count_lt = omega arith; val_lt = omega arith }) (omega arith))
