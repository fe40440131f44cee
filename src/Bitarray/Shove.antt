-- ===== src/Bitarray/Shove.antt =====
-- `bitarray_shove` appends bits, and reading them back.
use dancy.Base.{
  ℕ, zero, suc, ◌+◌, ◌*◌, ◌/◌, ◌%◌, ◌^◌, ◌<◌, ◌≤◌, ◌≡◌, refl, ap, sym, ◌∙◌, Bool, true, false,
  bit_and, bit_or, List, [], ◌∷◌, ◌++◌, append_assoc, append-nil, length, arith, ℕ_discrete, dec_lt,
  Bool-cases, inl, inr, ◌≢◌,
}
use dancy.Base.Bits.{bit_and-ones, bit_or-add}
use native.Mathlib.Nat.{pow-suc}
use dancy.Bitarray.{Writer, store_byte, make_room, shove_bit, bitarray_shove}
use dancy.Bitarray.Stream.{bits_of, byte_bits}
use dancy.Bitarray.Fetch.{ret_lt}

-- The bits that have been written.
abbrev pub written : Writer → List ℕ
written w = byte_bits w.bytes ++ bits_of w.count w.val

-- Fewer than 8 bits wait, and there are no others in `state[1]`.
pub record IsWriter (w : Writer) : Type 0 where
  pub count_lt : w.count < 8
  pub val_lt : w.val < 2 ^ w.count

bits_of-snoc :
    (n v x : ℕ) → v < 2 → x < 2 ^ n → bits_of (suc n) (v * 2 ^ n + x) ≡ bits_of n x ++ (v ∷ [])
bits_of-snoc zero v x h h' = let e : (v * 1 + x) % 2 ≡ v = omega arith in rw e
bits_of-snoc (suc n) v x h h' =
    let twice : v * 2 ^ suc n ≡ 2 * (v * 2 ^ n) = rw pow-suc (grind arith) in
    let low : (v * 2 ^ suc n + x) % 2 ≡ x % 2 = omega arith in
    let high : (v * 2 ^ suc n + x) / 2 ≡ v * 2 ^ n + x / 2 = omega arith in
    rw (low, high) (ap (λ l. (x % 2) ∷ l) (bits_of-snoc n v (x / 2) h (omega (arith, pow-suc 2 n))))

byte_bits-snoc :
    (bytes : List ℕ) (c : ℕ) → byte_bits (bytes ++ (c ∷ [])) ≡ byte_bits bytes ++ bits_of 8 c
byte_bits-snoc [] c = refl
byte_bits-snoc (d ∷ bytes) c = rw (byte_bits-snoc bytes c) refl

-- What writing the bits has done: they are appended; or there was no room for a byte that was full.
pub data Appends (bits : List ℕ) (w : Writer) (r : Bool × Writer) : Type 0 where
  appended :
      r.0 ≡ true
      → written r.1 ≡ written w ++ bits
      → IsWriter r.1
      → 8 * w.size + (r.1).count ≤ 8 * (r.1).size + w.count + length bits
      → Appends bits w r
  no_room : r.0 ≡ false → 8 * w.size + 8 ≤ w.count + length bits → Appends bits w r

-- A byte that is full, before it is stored.
record IsFull (w w' : Writer) (v : ℕ) : Type 0 where
  val_is : w'.val ≡ v * 2 ^ 7 + w.val
  bytes_are : w'.bytes ≡ w.bytes
  size_is : w.size ≤ w'.size

store_Appends :
    (w w' : Writer) (v : ℕ)
    → IsWriter w
    → w.count ≡ 7
    → v < 2
    → IsFull w w' v
    → Appends (v ∷ []) w (store_byte w')
unfolding store_byte
store_Appends w w' v ok seven h full =
    appended refl bits (record { count_lt = omega arith; val_lt = omega arith })
      (omega (arith, full.size_is))
  where
    small : w.val < 2 ^ 7
    small = rw seven at ok.val_lt

    byte_is : (v * 2 ^ 7 + w.val) % 256 ≡ v * 2 ^ 7 + w.val
    byte_is = omega (arith, small, h)

    bits : byte_bits (w'.bytes ++ ((w'.val % 256) ∷ [])) ++ [] ≡ written w ++ (v ∷ [])
    bits =
        append-nil _
        ∙ byte_bits-snoc w'.bytes (w'.val % 256)
        ∙ rw (full.bytes_are, full.val_is, byte_is, bits_of-snoc 7 v w.val h small, seven)
            (sym (append_assoc (byte_bits w.bytes) (bits_of 7 w.val) (v ∷ [])))

room-none :
    (w : Writer) (room : ℕ) (rooms : List ℕ) → room ≡ 0 → (make_room (room ∷ rooms) w).0 ≡ false
unfolding make_room
room-none w room rooms z = ground arith

room-some :
    (w : Writer) (room : ℕ) (rooms : List ℕ)
    → room ≢ 0
    → make_room (room ∷ rooms) w ≡ store_byte (record w { size = room; rooms = rooms })
unfolding make_room
room-some w room rooms h = ground arith

room_Appends :
    (w w' : Writer) (v : ℕ) (rooms : List ℕ)
    → IsWriter w
    → w.count ≡ 7
    → w.size ≡ 0
    → v < 2
    → IsFull w w' v
    → Appends (v ∷ []) w (make_room rooms w')
room_Appends w w' v [] ok seven none h full = unfold make_room in no_room refl (omega arith)
room_Appends w w' v (room ∷ rooms) ok seven none h full = elim (ℕ_discrete room 0) [
  | yes z ↦ no_room (room-none w' room rooms z) (omega arith)
  | no some ↦ rw (room-some w' room rooms some) (
      store_Appends w (record w' { size = room; rooms = rooms }) v ok seven h
        (record { val_is = full.val_is; bytes_are = full.bytes_are; size_is = omega arith }))
]

module _ (w : Writer) (val : ℕ) (ok : IsWriter w) where
  or_is : bit_or (bit_and val 1 * 2 ^ w.count) w.val ≡ val % 2 * 2 ^ w.count + w.val
  or_is = rw (bit_and-ones 1 val) (bit_or-add w.count (val % 2) w.val ok.val_lt)

  grown : Writer
  grown = record w { val = val % 2 * 2 ^ w.count + w.val; count = w.count + 1 }

  shove-more : w.count < 7 → shove_bit val w ≡ (true, grown)
  unfolding shove_bit grown
  shove-more h = rw or_is (ground arith)

  shove-full : w.count ≡ 7 → w.size ≢ 0 → shove_bit val w ≡ store_byte grown
  unfolding shove_bit grown
  shove-full h h' = rw or_is (ground arith)

  shove-room : w.count ≡ 7 → w.size ≡ 0 → shove_bit val w ≡ make_room w.rooms grown
  unfolding shove_bit grown
  shove-room h h' = rw or_is (ground arith)

  grown-IsFull : w.count ≡ 7 → IsFull w grown (val % 2)
  unfolding grown
  grown-IsFull h = record { val_is = rw h refl; bytes_are = refl; size_is = omega arith }

  more_Appends : w.count < 7 → Appends ((val % 2) ∷ []) w (true, grown)
  unfolding grown
  more_Appends h =
      appended refl bits
        (record {
          count_lt = omega arith;
          val_lt = ret_lt (val % 2) w.count w.val (omega arith) ok.val_lt;
        })
        (omega arith)
    where
      next : w.count + 1 ≡ suc w.count
      next = omega arith

      bits :
          byte_bits w.bytes ++ bits_of (w.count + 1) (val % 2 * 2 ^ w.count + w.val)
          ≡ written w ++ ((val % 2) ∷ [])
      bits =
          rw (next, bits_of-snoc w.count (val % 2) w.val (omega arith) ok.val_lt)
            (sym (append_assoc (byte_bits w.bytes) (bits_of w.count w.val) ((val % 2) ∷ [])))

  shove_bit-Appends : Appends ((val % 2) ∷ []) w (shove_bit val w)
  shove_bit-Appends = elim (dec_lt w.count 7) [
    | yes more ↦ rw (shove-more more) (more_Appends more)
    | no full ↦
        let seven : w.count ≡ 7 = omega (arith, ok.count_lt) in
        elim (ℕ_discrete w.size 0) [
          | yes z ↦
              rw (shove-room seven z) (
                room_Appends w grown (val % 2) w.rooms ok seven z (omega arith)
                  (grown-IsFull seven))
          | no some ↦
              rw (shove-full seven some)
                (store_Appends w grown (val % 2) ok seven (omega arith) (grown-IsFull seven))
        ]
  ]

appended_more :
    (w : Writer) (v : ℕ) (bits : List ℕ) (r r' : Bool × Writer)
    → Appends (v ∷ []) w r
    → r.0 ≡ true
    → Appends bits r.1 r'
    → Appends (v ∷ bits) w r'
appended_more w v bits r r' (no_room f few) t a = absurd (clash (sym f ∙ t))
  where
    clash : ¬ (false ≡ true)
    clash e = cc
appended_more w v bits r r' (appended t' e ok space) t (appended f e' ok' space') =
    appended f (e' ∙ rw e (append_assoc (written w) (v ∷ []) bits)) ok' (omega arith)
appended_more w v bits r r' (appended t' e ok space) t (no_room f few) = no_room f (omega arith)

not_appended :
    (w : Writer) (v : ℕ) (bits : List ℕ) (r : Bool × Writer)
    → Appends (v ∷ []) w r
    → r.0 ≡ false
    → Appends (v ∷ bits) w r
not_appended w v bits r (appended t e ok space) f = absurd (clash (sym t ∙ f))
  where
    clash : ¬ (true ≡ false)
    clash e = cc
not_appended w v bits r (no_room f' few) f = no_room f (omega arith)

still_IsWriter :
    (w : Writer) (v : ℕ) (r : Bool × Writer) → Appends (v ∷ []) w r → r.0 ≡ true → IsWriter r.1
still_IsWriter w v r (appended t e ok space) t' = ok
still_IsWriter w v r (no_room f few) t = absurd (clash (sym f ∙ t))
  where
    clash : ¬ (false ≡ true)
    clash e = cc

module _ (w : Writer) (n val : ℕ) where
  shove-next :
      (shove_bit val w).0 ≡ true
      → bitarray_shove w (suc n) val ≡ bitarray_shove (shove_bit val w).1 n (val / 2)
  unfolding bitarray_shove
  shove-next e = rw (e, bitarray_shove) refl

  shove-stop : (shove_bit val w).0 ≡ false → bitarray_shove w (suc n) val ≡ shove_bit val w
  unfolding bitarray_shove
  shove-stop e = simp (e, bitarray_shove)

-- `bitarray_shove` appends the low bits of the number, the lowest first; or it fails as a byte that is full finds
-- no room.
pub bitarray_shove-Appends :
    (w : Writer) (n val : ℕ) → IsWriter w → Appends (bits_of n val) w (bitarray_shove w n val)
bitarray_shove-Appends w zero val ok =
    unfold bitarray_shove in appended refl (sym (append-nil _)) ok (omega arith)
bitarray_shove-Appends w (suc n) val ok =
    let one = shove_bit-Appends w val ok in
    elim (Bool-cases (shove_bit val w).0) [
      | inl t ↦ rw (shove-next w n val t) (
          appended_more w (val % 2) (bits_of n (val / 2)) _ _ one t (
            bitarray_shove-Appends (shove_bit val w).1 n (val / 2)
              (still_IsWriter w (val % 2) _ one t)))
      | inr f ↦ rw (shove-stop w n val f) (not_appended w (val % 2) (bits_of n (val / 2)) _ one f)
    ]
