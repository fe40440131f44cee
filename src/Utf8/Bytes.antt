-- ===== src/Utf8/Bytes.antt =====
-- One byte of `utf8_decode`, with the tables and the bit operations read as arithmetic.
use dancy.Base.{
  ℕ, ◌+◌, ◌-◌, ◌*◌, ◌/◌, ◌%◌, ◌^◌, ◌<◌, ◌≡◌, refl, true, ◌&&◌, bit_and, bit_or, arith, ltb, leb,
  if◌then◌else◌, ap, ◌≡⟨◌⟩◌, ◌∎,
}
use dancy.Base.Bits.{bit_and_step, bit_and-ones, bit_or-add}
use dancy.Base.Int.{ℤ, pos, negsuc, eqb_ℤ, eqb_ℤ→eq}
use dancy.Base.Tables.{every_below, every_below_at}
use dancy.Utf8.{
  Decoded, char, waiting_next, error_consume, error_retry, class, decode_first, decode_next,
  check_char,
}

-- The state after the first of `o` + 1 bytes, or more: `v` is the value so far, `r` bytes are to come.
abbrev pub pack : ℕ → ℕ → ℕ → ℕ
pack v o r = v * 16 + o * 4 + r

-- The ranges that the table stands for.
abbrev pub class_by_range : ℕ → ℤ
class_by_range c =
    if ltb c 128
    then pos 0
    else if ltb c 192
    then pos 1
    else if ltb c 224
    then pos 2
    else if ltb c 240
    then pos 3
    else if ltb c 248
    then pos 4
    else negsuc 0

class_table : every_below 256 (λ c. eqb_ℤ (class c) (class_by_range c)) ≡ true
unfolding every_below class
class_table = refl

pub class_lem : (c : ℕ) → c < 256 → class c ≡ class_by_range c
class_lem c h = eqb_ℤ→eq _ _ (every_below_at 256 _ c class_table h)

bit_and_0x7fff0 : (s : ℕ) → bit_and s 0x7fff0 ≡ s / 16 % 2 ^ 15 * 16
bit_and_0x7fff0 s = omega (
  arith,
  bit_and_step s 0x7fff0,
  bit_and_step (s / 2) 0x3fff8,
  bit_and_step (s / 2 / 2) 0x1fffc,
  bit_and_step (s / 2 / 2 / 2) 0xfffe,
  bit_and-ones 15 (s / 2 / 2 / 2 / 2),
)

pack_parts :
    (v o r : ℕ)
    → v < 2 ^ 15
    → o < 4
    → r < 4
    → (bit_and (pack v o r) 0x0f ≡ o * 4 + r) × (bit_and (pack v o r) 0x7fff0 ≡ v * 16)
pack_parts v o r hv ho hr = omega (arith, bit_and-ones 4 (pack v o r), bit_and_0x7fff0 (pack v o r))

-- `val << 4 | offset << 2 | offset` is a packed state.
pack_first : (v o : ℕ) → o < 4 → bit_or (bit_or (v * 2 ^ 4) (o * 2 ^ 2)) o ≡ pack v o o
pack_first v o h =
    bit_or (bit_or (v * 2 ^ 4) (o * 2 ^ 2)) o
    ≡⟨ ap (λ x. bit_or x o) (bit_or-add 4 v (o * 2 ^ 2) (omega arith)) ⟩
      bit_or (v * 2 ^ 4 + o * 2 ^ 2) o
    ≡⟨ ap (λ x. bit_or x o) (omega arith) ⟩ bit_or ((v * 4 + o) * 2 ^ 2) o
    ≡⟨ bit_or-add 2 (v * 4 + o) o h ⟩ (v * 4 + o) * 2 ^ 2 + o
    ≡⟨ omega arith ⟩ pack v o o ∎

abbrev pub lead : ℕ → ℕ → ℕ → Decoded × ℕ
lead v o r = (waiting_next, pack v o r)

-- What `utf8_decode` does with a byte where no sequence is open.
abbrev pub first_by_range : ℕ → Decoded × ℕ
first_by_range c =
    if ltb c 128
    then (char c, 0)
    else if ltb c 192
    then (error_consume, 0)
    else if ltb c 224
    then lead (c - 192) 1 1
    else if ltb c 240
    then lead (c - 224) 2 2
    else if ltb c 248
    then lead (c - 240) 3 3
    else (error_consume, 0)

pub decode_first_lem : (c : ℕ) → c < 256 → decode_first c ≡ first_by_range c
unfolding decode_first
decode_first_lem c h = rw (class_lem c h) (
    ground (
      arith,
      pack_first (c - 192) 1,
      pack_first (c - 224) 2,
      pack_first (c - 240) 3,
      bit_and-ones 5 c,
      bit_and-ones 4 c,
      bit_and-ones 3 c,
    ))

-- The value after one more byte.
next_value :
    (v o r c : ℕ)
    → v < 2 ^ 15
    → o < 4
    → r < 4
    → bit_or (bit_and (pack v o r) 0x7fff0 * 2 ^ 2) (bit_and c 0x3f) ≡ v * 64 + c % 64
next_value v o r c hv ho hr =
    bit_or (bit_and (pack v o r) 0x7fff0 * 2 ^ 2) (bit_and c 0x3f)
    ≡⟨ ap (λ x. bit_or (x * 2 ^ 2) (bit_and c 0x3f)) (pack_parts v o r hv ho hr).1 ⟩
      bit_or (v * 16 * 2 ^ 2) (bit_and c 0x3f)
    ≡⟨ ap (λ x. bit_or x (bit_and c 0x3f)) (omega arith) ⟩ bit_or (v * 2 ^ 6) (bit_and c 0x3f)
    ≡⟨ ap (λ x. bit_or (v * 2 ^ 6) x) (bit_and-ones 6 c) ⟩ bit_or (v * 2 ^ 6) (c % 64)
    ≡⟨ bit_or-add 6 v (c % 64) (omega arith) ⟩ v * 64 + c % 64 ∎

-- What `utf8_decode` does with a byte inside a sequence.
abbrev pub next_by_range : ℕ → ℕ → ℕ → ℕ → Decoded × ℕ
next_by_range v o r c =
    if leb 128 c && ltb c 192
    then (if ltb 1 r
        then (waiting_next, pack (v * 64 + (c - 128)) o (r - 1))
        else (check_char (o * 4 + r) (v * 64 + (c - 128)), 0))
    else (error_retry, 0)

pub decode_next_lem :
    (v o r c : ℕ)
    → v < 2 ^ 15
    → o < 4
    → r < 4
    → c < 256
    → decode_next (pack v o r) c ≡ next_by_range v o r c
unfolding decode_next
decode_next_lem v o r c hv ho hr hc =
    rw (class_lem c hc, decode_next, next_value v o r c hv ho hr, (pack_parts v o r hv ho hr).0)
      (ground (arith, bit_and-ones 2 (o * 4 + r), bit_or-add 4 (v * 64 + c % 64) (o * 4 + r - 1)))
