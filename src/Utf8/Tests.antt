-- ===== src/Utf8/Tests.antt =====
-- The properties of common/utf8.c at concrete inputs, and runs.
use dancy.Base.{◌≡◌, refl, ◌↔◌, ◌≢◌, inr, some, [], ◌∷◌, arith}
use dancy.Utf8.{
  waiting_next, error_consume, error_retry, class, check_char, decode_first, decode_next, decode,
  encode,
}
use dancy.Utf8.Words.{IsScalar, decode_word}
use dancy.Utf8.RoundTrip.{decode_word-encode}
use dancy.Utf8.Exact.{decode_word-eq-encode}
use dancy.Utf8.State.{IsOpen, Promise, decode-Promise, decode-retry}

runs : Unit {0}
unfolding class check_char decode_first decode_next decode encode decode_word
runs = tt

-- The euro sign, U+20AC.
euro :
    (encode 0x20ac ≡ 0xe2 ∷ 0x82 ∷ 0xac ∷ [])
    × (decode_word 0 (0xe2 ∷ 0x82 ∷ 0xac ∷ []) ≡ some 0x20ac)
unfolding runs
euro = (refl, refl)

-- An overlong slash, a surrogate, and a sequence that is cut off.
refused :
    ((decode (decode 0 0xe0).1 0x80).0 ≡ waiting_next)
    × ((decode (decode (decode 0 0xe0).1 0x80).1 0xaf).0 ≡ error_consume)
    × ((decode (decode (decode 0 0xed).1 0xa0).1 0x80).0 ≡ error_consume)
    × (decode (decode 0 0xc3).1 0x41 ≡ (error_retry, 0))
unfolding runs
refused = (refl, refl, refl, refl)

decode_word-encode_example : decode_word 0 (encode 0x20ac) ≡ some 0x20ac
decode_word-encode_example = decode_word-encode 0x20ac (omega arith)

decode_word-eq-encode_example :
    (decode_word 0 (0xc3 ∷ 0xa4 ∷ []) ≡ some 0xe4)
    ↔ (IsScalar 0xe4 × (0xc3 ∷ 0xa4 ∷ [] ≡ encode 0xe4))
decode_word-eq-encode_example = decode_word-eq-encode 0xe4 (0xc3 ∷ 0xa4 ∷ []) (omega arith)

-- In state 0x35, after the byte 0xc3.
decode-Promise_example : Promise (decode 0x35 0xa4).0 (decode 0x35 0xa4).1
decode-Promise_example = decode-Promise 0x35 0xa4 (inr (omega arith)) (omega arith)

decode-retry_example :
    IsOpen 0x35 × ((decode 0x35 0x41).1 ≡ 0) × ((decode (decode 0x35 0x41).1 0x41).0 ≢ error_retry)
unfolding runs
decode-retry_example = decode-retry 0x35 0x41 (inr (omega arith)) (omega arith) refl
