-- ===== src/Utf8.antt =====
-- common/utf8.c: the byte-wise UTF-8 decoder and the encoder. An `unsigned char` is a number below
-- 256. `*state` starts at 0 and is written by `decode` alone, so it is never negative.
pub mod Bytes
pub mod Words
pub mod RoundTrip
pub mod Exact
pub mod State
mod Tests
use dancy.Base.{
  ℕ, ◌+◌, ◌-◌, ◌*◌, ◌/◌, ◌%◌, ◌^◌, not, ◌&&◌, ◌||◌, bit_and, bit_or, List, [], ◌∷◌, ltb, leb, ◌==◌,
  if◌then◌else◌, get_or,
}
use dancy.Base.Int.{ℤ, pos, negsuc, ltb_ℤ, eqb_ℤ}

-- What `utf8_decode` returns: a code point, or one of the three negative codes.
pub data Decoded : Type 0 where
  char : ℕ → Decoded
  waiting_next error_consume error_retry : Decoded

-- By the upper five bits: 0 is ASCII, 1 a continuation byte, n > 1 the first of n bytes.
abbrev pub utf8_table : List ℤ
utf8_table =
    pos 0
    ∷ pos 0
    ∷ pos 0
    ∷ pos 0
    ∷ pos 0
    ∷ pos 0
    ∷ pos 0
    ∷ pos 0
    ∷ pos 0
    ∷ pos 0
    ∷ pos 0
    ∷ pos 0
    ∷ pos 0
    ∷ pos 0
    ∷ pos 0
    ∷ pos 0
    ∷ pos 1
    ∷ pos 1
    ∷ pos 1
    ∷ pos 1
    ∷ pos 1
    ∷ pos 1
    ∷ pos 1
    ∷ pos 1
    ∷ pos 2
    ∷ pos 2
    ∷ pos 2
    ∷ pos 2
    ∷ pos 3
    ∷ pos 3
    ∷ pos 4
    ∷ negsuc 0
    ∷ []

abbrev pub utf8_mask_table : List ℕ
utf8_mask_table = 0x00 ∷ 0x1f ∷ 0x0f ∷ 0x07 ∷ []

abbrev pub utf8_overlong_table : List ℕ
utf8_overlong_table = 0x00 ∷ 0x80 ∷ 0x800 ∷ 0x10000 ∷ []

-- `utf8_table[c >> 3]`
unfoldable pub class : ℕ → ℤ
class c = get_or utf8_table (c / 2 ^ 3) (pos 0)

abbrev pos_of : ℤ → ℕ
pos_of (pos n) = n
pos_of (negsuc n) = 0

-- `utf8_decode` at `*state == 0`: the result, and the new state. `offset` is 2 to 4 where it is used.
unfoldable pub decode_first : ℕ → Decoded × ℕ
decode_first c =
    let offset = pos_of (class c) - 1 in
    let val = bit_and c (get_or utf8_mask_table offset 0) in
    if ltb c 0x80
    then (char c, 0)
    else if ltb_ℤ (class c) (pos 2)
    then (error_consume, 0)
    else (waiting_next, bit_or (bit_or (val * 2 ^ 4) (offset * 2 ^ 2)) offset)

-- The end of `utf8_decode`: the checks on a finished code point.
unfoldable pub check_char : ℕ → ℕ → Decoded
check_char offset val =
    if ltb val (get_or utf8_overlong_table (offset / 2 ^ 2) 0)
    then error_consume
    else if (leb 0xd800 val && leb val 0xdfff) || ltb 0x10ffff val
    then error_consume
    else char val

-- `utf8_decode` at `*state == s` for `s` other than 0.
unfoldable pub decode_next : ℕ → ℕ → Decoded × ℕ
decode_next s c =
    let offset = bit_and s 0x0f in
    let val = bit_or (bit_and s 0x7fff0 * 2 ^ 2) (bit_and c 0x3f) in
    if not (eqb_ℤ (class c) (pos 1))
    then (error_retry, 0)
    else if ltb 1 (bit_and offset 0x03)
    then (waiting_next, bit_or (val * 2 ^ 4) (offset - 1))
    else (check_char offset val, 0)

unfoldable pub decode : ℕ → ℕ → Decoded × ℕ
decode s c = if s == 0 then decode_first c else decode_next s c

-- The cast to `unsigned char`.
abbrev byte : ℕ → ℕ
byte n = n % 256

-- The bytes that `utf8_encode` writes; the return value is their number, 0 for no code point.
unfoldable pub encode : ℕ → List ℕ
encode u =
    if leb u 0x7f
    then byte u ∷ []
    else if leb u 0x07ff
    then byte (0xc0 + u / 2 ^ 6) ∷ byte (0x80 + bit_and u 0x3f) ∷ []
    else if leb 0xd800 u && leb u 0xdfff
    then []
    else if leb u 0xffff
    then byte (0xe0 + u / 2 ^ 12)
      ∷ byte (0x80 + bit_and (u / 2 ^ 6) 0x3f)
      ∷ byte (0x80 + bit_and u 0x3f)
      ∷ []
    else if leb u 0x10ffff
    then byte (0xf0 + u / 2 ^ 18)
      ∷ byte (0x80 + bit_and (u / 2 ^ 12) 0x3f)
      ∷ byte (0x80 + bit_and (u / 2 ^ 6) 0x3f)
      ∷ byte (0x80 + bit_and u 0x3f)
      ∷ []
    else []
