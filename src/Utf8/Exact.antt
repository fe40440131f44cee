-- ===== src/Utf8/Exact.antt =====
-- `utf8_decode` accepts no other bytes than `utf8_encode` writes.
use dancy.Base.{
  ℕ, ◌+◌, ◌-◌, ◌*◌, ◌^◌, ◌≤◌, ◌<◌, ◌≡◌, ◌∙◌, ◌↔◌, ◌⊎◌, ap, sym, Option, some, List, [], ◌∷◌, arith,
}
use dancy.Utf8.{encode}
use dancy.Utf8.Bytes.{pack, first_by_range}
use dancy.Utf8.Words.{
  IsScalar, AllBytes, after, decode_word, encode-scalar, decode_word-lead, decode_word_more,
  decode_word_inside, decode_word_last_inv, check_char-eq-char, decode_zero,
}
use dancy.Utf8.RoundTrip.{decode_word-encode}

abbrev IsCont : ℕ → Type 0
IsCont c = (128 ≤ c) × (c < 192)

-- The value `val` passes the checks after `o` continuation bytes, as `u`.
abbrev Ends : ℕ → ℕ → ℕ → Type 0
Ends o val u =
    (u ≡ val)
    × IsScalar u
    × (((o ≡ 1) × (0x80 ≤ val)) ⊎ (((o ≡ 2) × (0x800 ≤ val)) ⊎ ((o ≡ 3) × (0x10000 ≤ val))))

module _ (o u : ℕ) (ho : 0 < o) (ho' : o < 4) where
  -- One, two and three bytes to come.
  word_1 :
      (v : ℕ) (cs : List ℕ)
      → v < 2 ^ 15
      → AllBytes cs
      → decode_word (pack v o 1) cs ≡ some u
      → (c : ℕ) × (cs ≡ c ∷ []) × IsCont c × Ends o (v * 64 + (c - 128)) u
  unfolding decode_word
  word_1 v [] hv b e = cc
  word_1 v (c ∷ cs) hv b e =
      let (empty, fits) = decode_word_last_inv v o u c cs hv ho ho' b.0 e in
      (
        c,
        ap (λ l. c ∷ l) empty,
        decode_word_inside v o 1 u c cs hv ho ho' (omega arith) b.0 e,
        check_char-eq-char o (v * 64 + (c - 128)) u ho ho' fits,
      )

  word_2 :
      (v : ℕ) (cs : List ℕ)
      → v < 2 ^ 9
      → AllBytes cs
      → decode_word (pack v o 2) cs ≡ some u
      → (c d : ℕ) × (cs ≡ c ∷ d ∷ [])
        × IsCont c
        × IsCont d
        × Ends o ((v * 64 + (c - 128)) * 64 + (d - 128)) u
  unfolding decode_word
  word_2 v [] hv b e = cc
  word_2 v (c ∷ cs) hv b e =
      let cont = decode_word_inside v o 2 u c cs (omega arith) ho ho' (omega arith) b.0 e in
      let step =
        decode_word_more v o 2 c cs (omega arith) ho ho' (omega arith) (omega arith) cont.0
          cont.1 in
      let (d, tail, cont_d, ends) =
        word_1 (v * 64 + (c - 128)) cs (omega arith) b.1 (sym step ∙ e) in
      (c, d, ap (λ l. c ∷ l) tail, cont, cont_d, ends)

  word_3 :
      (v : ℕ) (cs : List ℕ)
      → v < 2 ^ 3
      → AllBytes cs
      → decode_word (pack v o 3) cs ≡ some u
      → (c d e : ℕ) × (cs ≡ c ∷ d ∷ e ∷ [])
        × IsCont c
        × IsCont d
        × IsCont e
        × Ends o (((v * 64 + (c - 128)) * 64 + (d - 128)) * 64 + (e - 128)) u
  unfolding decode_word
  word_3 v [] hv b h = cc
  word_3 v (c ∷ cs) hv b h =
      let cont = decode_word_inside v o 3 u c cs (omega arith) ho ho' (omega arith) b.0 h in
      let step =
        decode_word_more v o 3 c cs (omega arith) ho ho' (omega arith) (omega arith) cont.0
          cont.1 in
      let (d, e, tail, cont_d, cont_e, ends) =
        word_2 (v * 64 + (c - 128)) cs (omega arith) b.1 (sym step ∙ h) in
      (c, d, e, ap (λ l. c ∷ l) tail, cont, cont_d, cont_e, ends)

single :
    (u c : ℕ) (cs : List ℕ) (rest : Option ℕ)
    → (c < 192) ⊎ (248 ≤ c)
    → after (first_by_range c).0 cs rest ≡ some u
    → (c < 128) × (cs ≡ []) × (u ≡ c)
single u c [] rest h e = ground arith
single u c (d ∷ cs) rest h e = ground arith

-- One byte cannot be both ASCII and the start of a longer word, and so on: the word by its first byte.
module _ (u c : ℕ) (cs : List ℕ) (hc : c < 256) (b : AllBytes cs)
    (e : decode_word 0 (c ∷ cs) ≡ some u) where
  exact_2 : 192 ≤ c → c < 224 → IsScalar u × (c ∷ cs ≡ encode u)
  exact_2 lo hi =
      let step = decode_word-lead c 1 cs 192 hc (ground arith) in
      let (d, tail, cont, ends) =
        word_1 1 u (omega arith) (omega arith) (c - 192) cs (omega arith) b (sym step ∙ e) in
      (ends.1, rw (encode-scalar u ends.1) (ground arith))

  exact_3 : 224 ≤ c → c < 240 → IsScalar u × (c ∷ cs ≡ encode u)
  exact_3 lo hi =
      let step = decode_word-lead c 2 cs 224 hc (ground arith) in
      let (d, d', tail, cont, cont', ends) =
        word_2 2 u (omega arith) (omega arith) (c - 224) cs (omega arith) b (sym step ∙ e) in
      (ends.1, rw (encode-scalar u ends.1) (ground arith))

  exact_4 : 240 ≤ c → c < 248 → IsScalar u × (c ∷ cs ≡ encode u)
  exact_4 lo hi =
      let step = decode_word-lead c 3 cs 240 hc (ground arith) in
      let (d, d', d'', tail, cont, cont', cont'', ends) =
        word_3 3 u (omega arith) (omega arith) (c - 240) cs (omega arith) b (sym step ∙ e) in
      (ends.1, rw (encode-scalar u ends.1) (ground arith))

  exact_1 : (c < 192) ⊎ (248 ≤ c) → IsScalar u × (c ∷ cs ≡ encode u)
  unfolding decode_word
  exact_1 h =
      let (small, tail, is_u) = single u c cs _ h (rw (decode_zero c hc) at e) in
      let s : IsScalar u = omega arith in (s, rw (encode-scalar u s) (ground arith))

exact :
    (u c : ℕ) (cs : List ℕ)
    → AllBytes (c ∷ cs)
    → decode_word 0 (c ∷ cs) ≡ some u
    → IsScalar u × (c ∷ cs ≡ encode u)
exact u c cs b e = ground (
  arith,
  exact_1 u c cs b.0 b.1 e,
  exact_2 u c cs b.0 b.1 e,
  exact_3 u c cs b.0 b.1 e,
  exact_4 u c cs b.0 b.1 e,
)

-- `utf8_decode`, started in state 0 and fed a word of bytes, accepts it as the code point `u` exactly
-- when `u` is a scalar value and the word is what `utf8_encode` writes for `u`.
pub decode_word-eq-encode :
    (u : ℕ) (cs : List ℕ)
    → AllBytes cs
    → (decode_word 0 cs ≡ some u) ↔ (IsScalar u × (cs ≡ encode u))
decode_word-eq-encode u cs b = (into cs b, λ h. rw h.1 (decode_word-encode u h.0))
  where
    into : (cs : List ℕ) → AllBytes cs → decode_word 0 cs ≡ some u → IsScalar u × (cs ≡ encode u)
    into [] b e = unfold decode_word in cc
    into (c ∷ cs) b e = exact u c cs b e
