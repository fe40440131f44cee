-- ===== src/Utf8/RoundTrip.antt =====
-- The bytes that `utf8_decode` accepts are those that `utf8_encode` writes.
use dancy.Base.{ℕ, ◌+◌, ◌-◌, ◌*◌, ◌/◌, ◌%◌, ◌≤◌, ◌<◌, ◌≡◌, ◌∙◌, ap, some, [], ◌∷◌, arith}
use dancy.Utf8.{encode}
use dancy.Utf8.Words.{
  IsScalar, decode_word, encode-scalar, decode_word-lead, decode_word_more, decode_word_last,
  decode_zero,
}

-- The four lengths, by the code point.
accepts_1 : (u : ℕ) → u < 0x80 → decode_word 0 (u ∷ []) ≡ some u
unfolding decode_word
accepts_1 u h = rw (decode_zero u (omega arith)) (ground arith)

accepts_2 :
    (u : ℕ)
    → IsScalar u
    → 0x80 ≤ u
    → u < 0x800
    → decode_word 0 ((192 + u / 64) ∷ (128 + u % 64) ∷ []) ≡ some u
accepts_2 u s lo hi =
    decode_word-lead (192 + u / 64) 1 _ 192 (omega arith) (ground arith)
    ∙ decode_word_last (192 + u / 64 - 192) 1 (128 + u % 64) (omega arith) (omega arith)
        (omega arith) (omega arith) (omega arith) (omega arith) (omega arith)
    ∙ ap some (omega arith)

accepts_3 :
    (u : ℕ)
    → IsScalar u
    → 0x800 ≤ u
    → u < 0x10000
    → decode_word 0 ((224 + u / 4096) ∷ (128 + u / 64 % 64) ∷ (128 + u % 64) ∷ []) ≡ some u
accepts_3 u s lo hi =
    decode_word-lead (224 + u / 4096) 2 _ 224 (omega arith) (ground arith)
    ∙ decode_word_more (224 + u / 4096 - 224) 2 2 (128 + u / 64 % 64) _ (omega arith) (omega arith)
        (omega arith) (omega arith) (omega arith) (omega arith) (omega arith)
    ∙ decode_word_last ((224 + u / 4096 - 224) * 64 + (128 + u / 64 % 64 - 128)) 2 (128 + u % 64)
        (omega arith) (omega arith) (omega arith) (omega arith) (omega arith) (omega arith)
        (omega arith)
    ∙ ap some (omega arith)

accepts_4 :
    (u : ℕ)
    → IsScalar u
    → 0x10000 ≤ u
    → decode_word 0
        ((240 + u / 262144) ∷ (128 + u / 4096 % 64) ∷ (128 + u / 64 % 64) ∷ (128 + u % 64) ∷ [])
      ≡ some u
accepts_4 u s lo =
    let v : ℕ = (240 + u / 262144 - 240) * 64 + (128 + u / 4096 % 64 - 128) in
    decode_word-lead (240 + u / 262144) 3 _ 240 (omega arith) (ground arith)
    ∙ decode_word_more (240 + u / 262144 - 240) 3 3 (128 + u / 4096 % 64) _ (omega arith)
        (omega arith) (omega arith) (omega arith) (omega arith) (omega arith) (omega arith)
    ∙ decode_word_more v 3 2 (128 + u / 64 % 64) _ (omega arith) (omega arith) (omega arith)
        (omega arith) (omega arith) (omega arith) (omega arith)
    ∙ decode_word_last (v * 64 + (128 + u / 64 % 64 - 128)) 3 (128 + u % 64) (omega arith)
        (omega arith) (omega arith) (omega arith) (omega arith) (omega arith) (omega arith)
    ∙ ap some (omega arith)

-- What `utf8_encode` writes for a scalar value, `utf8_decode` reads back as that value.
pub decode_word-encode : (u : ℕ) → IsScalar u → decode_word 0 (encode u) ≡ some u
decode_word-encode u s =
    rw (encode-scalar u s)
      (ground (arith, accepts_1 u, accepts_2 u s, accepts_3 u s, accepts_4 u s))
