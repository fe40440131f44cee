-- ===== src/Huffman/Prefix.antt =====
-- Code words at the start of a list of bits.
use dancy.Base.{
  ℕ, ◌+◌, ◌-◌, ◌*◌, ◌%◌, ◌^◌, ◌<◌, ◌≡◌, refl, ap, ◌∙◌, sym, bit_or, List, [], ◌∷◌, ◌++◌, length,
  drop, arith, Bool-cases, inl, inr, ltb, true, false,
}
use dancy.Huffman.{Huffman}
use dancy.Huffman.Fetch.{word, match_word, next_word}

module _ (len : ℕ) (lengths : List ℕ) (base off val v : ℕ) where
  pub match_word-word :
      (bits : List ℕ)
      → ltb (bit_or (val * 2 % 2 ^ 32) v) ((base + len) % 2 ^ 32) ≡ true
      → match_word (len ∷ lengths) base off val (v ∷ bits)
        ≡ word ((off + (bit_or (val * 2 % 2 ^ 32) v + 2 ^ 32 - base)) % 2 ^ 32) bits
  unfolding match_word
  match_word-word bits e = rw (e, match_word) refl

  pub match_word-next :
      (bits : List ℕ)
      → ltb (bit_or (val * 2 % 2 ^ 32) v) ((base + len) % 2 ^ 32) ≡ false
      → match_word (len ∷ lengths) base off val (v ∷ bits)
        ≡ match_word lengths
            ((base + len) * 2 % 2 ^ 32)
            ((off + len) % 2 ^ 32)
            (bit_or (val * 2 % 2 ^ 32) v)
            bits
  unfolding match_word
  match_word-next bits e = rw (e, match_word) refl

-- A code word has at least one bit.
match_word-lt :
    (lengths : List ℕ) (base off val place : ℕ) (bits rest : List ℕ)
    → match_word lengths base off val bits ≡ word place rest
    → length rest < length bits
match_word-lt [] base off val place bits rest e = unfold match_word in cc
match_word-lt (len ∷ lengths) base off val place [] rest e = unfold match_word in cc
match_word-lt (len ∷ lengths) base off val place (v ∷ bits) rest e =
    elim (Bool-cases (ltb (bit_or (val * 2 % 2 ^ 32) v) ((base + len) % 2 ^ 32))) [
      | inl t ↦
          let same : bits ≡ rest = cc (match_word-word len lengths base off val v bits t) in
          rw same (omega arith)
      | inr t ↦ omega (
        arith,
        match_word-lt lengths _ _ _ place bits rest
            (sym (match_word-next len lengths base off val v bits t) ∙ e),
      )
    ]

-- The code word does not depend on the bits after it.
match_word-append :
    (lengths : List ℕ) (base off val place : ℕ) (bits rest more : List ℕ)
    → match_word lengths base off val bits ≡ word place rest
    → match_word lengths base off val (bits ++ more) ≡ word place (rest ++ more)
match_word-append [] base off val place bits rest more e = unfold match_word in cc
match_word-append (len ∷ lengths) base off val place [] rest more e = unfold match_word in cc
match_word-append (len ∷ lengths) base off val place (v ∷ bits) rest more e =
    elim (Bool-cases (ltb (bit_or (val * 2 % 2 ^ 32) v) ((base + len) % 2 ^ 32))) [
      | inl t ↦
          let same : bits ≡ rest = cc (match_word-word len lengths base off val v bits t) in
          let place_is : (off + (bit_or (val * 2 % 2 ^ 32) v + 2 ^ 32 - base)) % 2 ^ 32 ≡ place =
            cc (match_word-word len lengths base off val v bits t) in
          match_word-word len lengths base off val v (bits ++ more) t
          ∙ ap (λ p. word p (bits ++ more)) place_is
          ∙ ap (λ l. word place (l ++ more)) same
      | inr t ↦
          match_word-next len lengths base off val v (bits ++ more) t
          ∙ match_word-append lengths _ _ _ place bits rest more
              (sym (match_word-next len lengths base off val v bits t) ∙ e)
    ]

pub next_word-lt :
    (h : Huffman) (place : ℕ) (bits rest : List ℕ)
    → next_word h bits ≡ word place rest
    → length rest < length bits
unfolding next_word
next_word-lt h place bits rest e = match_word-lt (drop 1 h.lengths) 0 0 0 place bits rest e

pub next_word-append :
    (h : Huffman) (place : ℕ) (bits rest more : List ℕ)
    → next_word h bits ≡ word place rest
    → next_word h (bits ++ more) ≡ word place (rest ++ more)
unfolding next_word
next_word-append h place bits rest more e =
    match_word-append (drop 1 h.lengths) 0 0 0 place bits rest more e
