-- ===== src/Utf8/Words.antt =====
-- `utf8_decode` over a sequence of bytes: one step of the sequence at a time.
use dancy.Base.{
  ℕ, ◌≢◌, ◌+◌, ◌-◌, ◌*◌, ◌/◌, ◌%◌, ◌^◌, ◌≤◌, ◌<◌, ◌≡◌, refl, ◌∙◌, ◌⊎◌, Option, none, some, List, [],
  ◌∷◌, arith, ltb, if◌then◌else◌,
}
use dancy.Base.Bits.{bit_and-ones}
use dancy.Utf8.{Decoded, char, waiting_next, error_consume, error_retry, check_char, decode, encode}
use dancy.Utf8.Bytes.{pack, lead, first_by_range, decode_first_lem, next_by_range, decode_next_lem}

-- The Unicode scalar values: all code points but the surrogates.
pub record IsScalar (u : ℕ) : Type 0 where
  pub below : u < 0x110000
  pub outside : (u < 0xd800) ⊎ (0xdfff < u)

abbrev pub AllBytes : List ℕ → Type 0
AllBytes [] = Unit
AllBytes (c ∷ cs) = (c < 256) × AllBytes cs

-- One code point read from a list of bytes, all of which it takes.
abbrev pub after : Decoded → List ℕ → Option ℕ → Option ℕ
after (char v) [] rest = some v
after waiting_next cs rest = rest
after _ _ rest = none

unfoldable pub decode_word : ℕ → List ℕ → Option ℕ
decode_word s [] = none
decode_word s (c ∷ cs) = let (d, s') = decode s c in after d cs (decode_word s' cs)

pub decode_zero : (c : ℕ) → c < 256 → decode 0 c ≡ first_by_range c
unfolding decode
decode_zero c h = decode_first_lem c h

pub decode-pack :
    (v o r c : ℕ)
    → v < 2 ^ 15
    → 0 < o
    → o < 4
    → r < 4
    → c < 256
    → decode (pack v o r) c ≡ next_by_range v o r c
unfolding decode
decode-pack v o r c hv ho ho' hr hc = ground (arith, decode_next_lem v o r c)

-- The code points that pass the checks after `o` continuation bytes.
pub check_char_lem :
    (o val : ℕ)
    → 0 < o
    → o < 4
    → IsScalar val
    → ((o ≡ 1) × (0x80 ≤ val)) ⊎ (((o ≡ 2) × (0x800 ≤ val)) ⊎ ((o ≡ 3) × (0x10000 ≤ val)))
    → check_char (o * 4 + 1) val ≡ char val
unfolding check_char
check_char_lem o val h h' s long = ground arith

pub check_char-eq-char :
    (o val u : ℕ)
    → 0 < o
    → o < 4
    → check_char (o * 4 + 1) val ≡ char u
    → (u ≡ val)
      × IsScalar u
      × (((o ≡ 1) × (0x80 ≤ val)) ⊎ (((o ≡ 2) × (0x800 ≤ val)) ⊎ ((o ≡ 3) × (0x10000 ≤ val))))
unfolding check_char
check_char-eq-char o val u h h' e = ground arith

-- The four lengths of a sequence, with the masks read as remainders.
abbrev pub encode_by_range : ℕ → List ℕ
encode_by_range u =
    if ltb u 0x80
    then u ∷ []
    else if ltb u 0x800
    then (192 + u / 64) ∷ (128 + u % 64) ∷ []
    else if ltb u 0x10000
    then (224 + u / 4096) ∷ (128 + u / 64 % 64) ∷ (128 + u % 64) ∷ []
    else (240 + u / 262144) ∷ (128 + u / 4096 % 64) ∷ (128 + u / 64 % 64) ∷ (128 + u % 64) ∷ []

pub encode-scalar : (u : ℕ) → IsScalar u → encode u ≡ encode_by_range u
unfolding encode
encode-scalar u s =
    ground (arith, bit_and-ones 6 u, bit_and-ones 6 (u / 64), bit_and-ones 6 (u / 4096))

-- A first byte of `o` + 1.
pub decode_word-lead :
    (c o : ℕ) (cs : List ℕ) (base : ℕ)
    → c < 256
    → first_by_range c ≡ lead (c - base) o o
    → decode_word 0 (c ∷ cs) ≡ decode_word (pack (c - base) o o) cs
unfolding decode_word
decode_word-lead c o cs base h e = rw (decode_zero c h, e)

-- A continuation byte before the last.
next_by_range_more :
    (v o r c : ℕ)
    → 1 < r
    → 128 ≤ c
    → c < 192
    → next_by_range v o r c ≡ (waiting_next, pack (v * 64 + (c - 128)) o (r - 1))
next_by_range_more v o r c hr hc hc' = ground arith

pub decode_word_more :
    (v o r c : ℕ) (cs : List ℕ)
    → v < 2 ^ 15
    → 0 < o
    → o < 4
    → 1 < r
    → r < 4
    → 128 ≤ c
    → c < 192
    → decode_word (pack v o r) (c ∷ cs) ≡ decode_word (pack (v * 64 + (c - 128)) o (r - 1)) cs
unfolding decode_word
decode_word_more v o r c cs hv ho ho' hr hr' hc hc' =
    let step = decode-pack v o r c hv ho ho' hr' (omega arith) in
    rw (step ∙ next_by_range_more v o r c hr hc hc')

pub decode_word_last :
    (v o c : ℕ)
    → v < 2 ^ 15
    → 0 < o
    → o < 4
    → 128 ≤ c
    → c < 192
    → IsScalar (v * 64 + (c - 128))
    → ((o ≡ 1) × (0x80 ≤ v * 64 + (c - 128)))
      ⊎ (((o ≡ 2) × (0x800 ≤ v * 64 + (c - 128))) ⊎ ((o ≡ 3) × (0x10000 ≤ v * 64 + (c - 128))))
    → decode_word (pack v o 1) (c ∷ []) ≡ some (v * 64 + (c - 128))
unfolding decode_word
decode_word_last v o c hv ho ho' hc hc' s long =
    rw (decode-pack v o 1 c hv ho ho' (omega arith) (omega arith))
      (ground (arith, check_char_lem o (v * 64 + (c - 128)) ho ho' s long))

after-next_by_range :
    (v o r c u : ℕ) (cs : List ℕ) (rest : Option ℕ)
    → after (next_by_range v o r c).0 cs rest ≡ some u
    → (128 ≤ c) × (c < 192)
after-next_by_range v o r c u cs rest e = ground arith

-- A word that ends with a code point goes on with continuation bytes.
pub decode_word_inside :
    (v o r u c : ℕ) (cs : List ℕ)
    → v < 2 ^ 15
    → 0 < o
    → o < 4
    → r < 4
    → c < 256
    → decode_word (pack v o r) (c ∷ cs) ≡ some u
    → (128 ≤ c) × (c < 192)
unfolding decode_word
decode_word_inside v o r u c cs hv ho ho' hr hc e =
    after-next_by_range v o r c u cs _ (rw (decode-pack v o r c hv ho ho' hr hc) at e)

-- The last byte: nothing follows, and the value passes the checks.
next_by_range_last :
    (v o c : ℕ)
    → 128 ≤ c
    → c < 192
    → next_by_range v o 1 c ≡ (check_char (o * 4 + 1) (v * 64 + (c - 128)), 0)
next_by_range_last v o c hc hc' = ground arith

pub check_char-not-waiting : (o val : ℕ) → check_char o val ≢ waiting_next
unfolding check_char
check_char-not-waiting o val e = ground arith

after-eq-some :
    (d : Decoded) (cs : List ℕ) (rest : Option ℕ) (u : ℕ)
    → d ≢ waiting_next
    → after d cs rest ≡ some u
    → (cs ≡ []) × (d ≡ char u)
after-eq-some (char v) [] rest u n e = (refl, cc)
after-eq-some (char v) (c ∷ cs) rest u n e = cc
after-eq-some waiting_next cs rest u n e = absurd (n refl)
after-eq-some error_consume cs rest u n e = cc
after-eq-some error_retry cs rest u n e = cc

pub decode_word_last_inv :
    (v o u c : ℕ) (cs : List ℕ)
    → v < 2 ^ 15
    → 0 < o
    → o < 4
    → c < 256
    → decode_word (pack v o 1) (c ∷ cs) ≡ some u
    → (cs ≡ []) × (check_char (o * 4 + 1) (v * 64 + (c - 128)) ≡ char u)
unfolding decode_word
decode_word_last_inv v o u c cs hv ho ho' hc e =
    let (lo, hi) = decode_word_inside v o 1 u c cs hv ho ho' (omega arith) hc e in
    let step = decode-pack v o 1 c hv ho ho' (omega arith) hc ∙ next_by_range_last v o c lo hi in
    after-eq-some _ cs _ u (check_char-not-waiting (o * 4 + 1) (v * 64 + (c - 128))) (rw step at e)
