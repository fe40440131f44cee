-- ===== src/Huffman/Canonical.antt =====
-- The code words of huffman.c by the places of their symbols, and the start of a list of bits.
use dancy.Base.{
  ℕ, ◌+◌, ◌-◌, ◌*◌, ◌%◌, ◌^◌, ◌<◌, ◌≤◌, ◌≡◌, ◌≢◌, ◌⊎◌, refl, ap, ◌∙◌, sym, bit_or, List, [], ◌∷◌,
  ◌++◌, length, arith, Bool-cases, inl, inr, ltb, true, false, none, some,
}
use dancy.Base.Bits.{bit_or-add}
use dancy.Huffman.{check_lengths}
use dancy.Huffman.Fetch.{Word, word, partial, invalid, match_word}
use dancy.Huffman.Prefix.{match_word-word, match_word-next}

abbrev pub AllBits : List ℕ → Type 0
AllBits [] = Unit
AllBits (v ∷ bits) = (v < 2) × AllBits bits

-- These bits complete the code word of a place: at each length, the words are numbers in a row from `first` on,
-- and `val` is the number of the bits before.
abbrev pub Completes : List ℕ → ℕ → ℕ → ℕ → List ℕ → Type 0
Completes [] first val place bits = ⊥
Completes (len ∷ lengths) first val place [] = ⊥
Completes (len ∷ lengths) first val place (v ∷ bits) =
    ((bits ≡ []) × (place < len) × (2 * val + v ≡ first + place))
    ⊎ ((j : ℕ) × (place ≡ len + j) × Completes lengths (2 * (first + len)) (2 * val + v) j bits)

-- No code word is at the start of the bits.
abbrev pub NoWord : List ℕ → ℕ → ℕ → List ℕ → Type 0
NoWord lengths first val bits =
    (place : ℕ) (w rest : List ℕ) → Completes lengths first val place w → bits ≢ w ++ rest

pub data Starts (lengths : List ℕ) (first off val : ℕ) (bits : List ℕ) (m : Word) : Type 0 where
  starts :
      (place : ℕ) (w rest : List ℕ)
      → m ≡ word (off + place) rest
      → bits ≡ w ++ rest
      → Completes lengths first val place w
      → Starts lengths first off val bits m
  ends_early :
      m ≡ partial
      → length bits < length lengths
      → NoWord lengths first val bits
      → Starts lengths first off val bits m
  no_start :
      (w rest : List ℕ)
      → m ≡ invalid rest
      → bits ≡ w ++ rest
      → length w ≡ length lengths
      → NoWord lengths first val bits
      → Starts lengths first off val bits m

val-next : (val v : ℕ) → val < 2 ^ 31 → v < 2 → bit_or (val * 2 % 2 ^ 32) v ≡ 2 * val + v
val-next val v h h' =
    let small : val * 2 % 2 ^ 32 ≡ val * 2 = omega arith in
    rw small (bit_or-add 1 val v h' ∙ omega arith)

head_is : (a b : ℕ) (xs ys : List ℕ) → a ∷ xs ≡ b ∷ ys → (a ≡ b) × (xs ≡ ys)
head_is a b xs ys e = (cc, cc)

-- A word of a length that does not start the bits, and none of a greater length either.
none_here :
    (len : ℕ) (lengths : List ℕ) (first val v : ℕ) (bits : List ℕ)
    → first + len ≤ 2 * val + v
    → NoWord lengths (2 * (first + len)) (2 * val + v) bits
    → NoWord (len ∷ lengths) first val (v ∷ bits)
none_here len lengths first val v bits h nothing place [] rest c e = absurd c
none_here len lengths first val v bits h nothing place (u ∷ w) rest (inl (w_is, lt, val_is)) e =
    absurd (omega (arith, (head_is v u bits (w ++ rest) e).0))
none_here len lengths first val v bits h nothing place (u ∷ w) rest (inr (j, place_is, c)) e =
    let (v_is, bits_is) = head_is v u bits (w ++ rest) e in nothing j w rest (rw v_is c) bits_is

-- A bit before the rest.
one_more :
    (len : ℕ) (lengths : List ℕ) (first off val v : ℕ) (bits : List ℕ) (m : Word)
    → first + len ≤ 2 * val + v
    → Starts lengths (2 * (first + len)) (off + len) (2 * val + v) bits m
    → Starts (len ∷ lengths) first off val (v ∷ bits) m
one_more len lengths first off val v bits m h (starts place w rest m_is bits_is c) =
    starts (len + place) (v ∷ w) rest (m_is ∙ ap (λ n. word n rest) (omega arith))
      (ap (λ l. v ∷ l) bits_is) (inr (place, refl, c))
one_more len lengths first off val v bits m h (ends_early m_is short nothing) =
    ends_early m_is (omega arith) (none_here len lengths first val v bits h nothing)
one_more len lengths first off val v bits m h (no_start w rest m_is bits_is long nothing) =
    no_start (v ∷ w) rest m_is (ap (λ l. v ∷ l) bits_is) (omega arith)
      (none_here len lengths first val v bits h nothing)

-- The test of the lengths, as a round of it.
check-more :
    (len : ℕ) (lengths : List ℕ) (t left : ℕ)
    → check_lengths (len ∷ lengths) t ≡ some left
    → (len ≤ t * 2) × (check_lengths lengths (t * 2 - len) ≡ some left)
unfolding check_lengths
check-more len lengths t left e = elim (Bool-cases (ltb (t * 2) len)) [
  | inl more ↦ absurd (clash (sym (rw more refl) ∙ e))
  | inr fits ↦ (ground arith, sym (rw fits refl) ∙ e)
]
  where
    clash : ¬ (none ≡ some left)
    clash e' = cc

-- There are 2 ^ 15 words at most of each length.
abbrev pub Room : List ℕ → ℕ → Type 0
Room [] room = room ≤ 2 ^ 15
Room (len ∷ lengths) room = (room ≤ 2 ^ 15) × Room lengths (2 * room)

-- The loop's state at a length: `room` is the number of words of the length before it, `t` of those that are not
-- used, `val` has been read.
pub record IsLevel (lengths : List ℕ) (first off val t room : ℕ) : Type 0 where
  pub words_are : first + 2 * t ≡ 2 * room
  pub val_lt : val < room
  pub val_ge : first ≤ 2 * val
  pub off_le : off ≤ first
  pub small : Room lengths room

pub match_word-Starts :
    (lengths : List ℕ) (first off val t room left : ℕ) (bits : List ℕ)
    → check_lengths lengths t ≡ some left
    → AllBits bits
    → IsLevel lengths first off val t room
    → Starts lengths first off val bits (match_word lengths first off val bits)
match_word-Starts [] first off val t room left bits ok all l =
    no_start [] bits (unfold match_word in refl) refl refl (λ place w rest c e. absurd c)
match_word-Starts (len ∷ lengths) first off val t room left [] ok all l =
    ends_early (unfold match_word in refl) (omega arith) nothing
  where
    nothing : NoWord (len ∷ lengths) first val []
    nothing place [] rest c e = absurd c
    nothing place (u ∷ w) rest c e = absurd (clash e)
      where
        clash : ¬ ([] ≡ u ∷ (w ++ rest))
        clash e' = cc
match_word-Starts (len ∷ lengths) first off val t room left (v ∷ bits) ok all l =
    elim (Bool-cases (ltb (bit_or (val * 2 % 2 ^ 32) v) ((first + len) % 2 ^ 32))) [
      | inl short ↦
          starts (2 * val + v - first) (v ∷ []) bits
            (match_word-word len lengths first off val v bits short
              ∙ ap (λ n. word n bits) (omega (arith, value, l.val_lt, l.val_ge, l.off_le, low)))
            refl (inl (refl, omega (arith, value, short_is short), omega (arith, l.val_ge)))
      | inr long ↦ after (long_is long) (match_word-next len lengths first off val v bits long) (
          match_word-Starts lengths (2 * (first + len)) (off + len) (2 * val + v) (t * 2 - len)
            (2 * room) left bits more.1 all.1
            (record {
              words_are = omega (arith, l.words_are, more.0);
              val_lt = omega (arith, l.val_lt, all.0);
              val_ge = omega (arith, long_is long);
              off_le = omega (arith, l.off_le);
              small = l.small.1;
            }))
    ]
  where
    more : (len ≤ t * 2) × (check_lengths lengths (t * 2 - len) ≡ some left)
    more = check-more len lengths t left ok

    low : room ≤ 2 ^ 15
    low = l.small.0

    value : bit_or (val * 2 % 2 ^ 32) v ≡ 2 * val + v
    value = val-next val v (omega (arith, l.val_lt, low)) all.0

    next_first : (first + len) % 2 ^ 32 ≡ first + len
    next_first = omega (arith, l.words_are, low, more.0)

    short_is :
        ltb (bit_or (val * 2 % 2 ^ 32) v) ((first + len) % 2 ^ 32) ≡ true
        → 2 * val + v < first + len
    short_is e = ground (arith, value, next_first)

    long_is :
        ltb (bit_or (val * 2 % 2 ^ 32) v) ((first + len) % 2 ^ 32) ≡ false
        → first + len ≤ 2 * val + v
    long_is e = ground (arith, value, next_first)

    after :
        first + len ≤ 2 * val + v
        → match_word (len ∷ lengths) first off val (v ∷ bits)
          ≡ match_word lengths
              ((first + len) * 2 % 2 ^ 32)
              ((off + len) % 2 ^ 32)
              (bit_or (val * 2 % 2 ^ 32) v)
              bits
        → Starts lengths
            (2 * (first + len))
            (off + len)
            (2 * val + v)
            bits
            (match_word lengths (2 * (first + len)) (off + len) (2 * val + v) bits)
        → Starts
            (len ∷ lengths)
            first
            off
            val
            (v ∷ bits)
            (match_word (len ∷ lengths) first off val (v ∷ bits))
    after h e s =
        let first_is : (first + len) * 2 % 2 ^ 32 ≡ 2 * (first + len) =
          omega (arith, l.words_are, low, more.0) in
        let off_is : (off + len) % 2 ^ 32 ≡ off + len =
          omega (arith, l.words_are, l.off_le, low, more.0) in
        rw (e, first_is, off_is, value) (one_more len lengths first off val v bits _ h s)
