-- ===== src/Fat/Values.antt =====
-- Entries of 12 and of 16 bits in a list of bytes.
use dancy.Base.{
  ℕ, zero, suc, ◌+◌, ◌*◌, ◌/◌, ◌%◌, ◌^◌, ◌<◌, ◌≡◌, ◌≢◌, bit_and, bit_or, refl, ap, sym, ◌∙◌, true,
  false, List, [], ◌∷◌, length, length-set, get_or, set, ltb, ◌==◌, if◌then◌else◌, arith,
  ℕ_discrete, Bool-cases, ◌⊎◌, inl, inr,
}
use dancy.Base.Bits.{bit_and-ones, bit_and-shift, bit_or-add}
use dancy.Fat.{le16, w_le16}

pub get_or-set_self :
    {A : Type 0} (xs : List A) (i : ℕ) (v d : A) → i < length xs → get_or (set xs i v) i d ≡ v
get_or-set_self [] i v d h = absurd (omega arith)
get_or-set_self (x ∷ xs) zero v d h = refl
get_or-set_self (x ∷ xs) (suc i) v d h = get_or-set_self xs i v d (omega arith)

pub get_or-set_ne :
    {A : Type 0} (xs : List A) (i j : ℕ) (v d : A) → i ≢ j → get_or (set xs i v) j d ≡ get_or xs j d
get_or-set_ne [] i j v d h = refl
get_or-set_ne (x ∷ xs) zero zero v d h = absurd (h refl)
get_or-set_ne (x ∷ xs) zero (suc j) v d h = refl
get_or-set_ne (x ∷ xs) (suc i) zero v d h = refl
get_or-set_ne (x ∷ xs) (suc i) (suc j) v d h = get_or-set_ne xs i j v d (λ e. h (ap suc e))

module _ (buf : List ℕ) (i d : ℕ) where
  w_le16_first : i + 1 < length buf → get_or (w_le16 buf i d) i 0 ≡ d % 256
  unfolding w_le16
  w_le16_first h =
      get_or-set_ne (set buf i (d % 256)) (i + 1) i (d / 256 % 256) 0 (omega arith)
      ∙ get_or-set_self buf i (d % 256) 0 (omega arith)

  pub w_le16_second : i + 1 < length buf → get_or (w_le16 buf i d) (i + 1) 0 ≡ d / 256 % 256
  unfolding w_le16
  w_le16_second h =
      get_or-set_self (set buf i (d % 256)) (i + 1) (d / 256 % 256) 0
        (omega (arith, length-set buf i (d % 256)))

  pub w_le16_other : (j : ℕ) → i ≢ j → i + 1 ≢ j → get_or (w_le16 buf i d) j 0 ≡ get_or buf j 0
  unfolding w_le16
  w_le16_other j ne ne' =
      get_or-set_ne (set buf i (d % 256)) (i + 1) j (d / 256 % 256) 0 ne'
      ∙ get_or-set_ne buf i j (d % 256) 0 ne

  pub length-w_le16 : length (w_le16 buf i d) ≡ length buf
  unfolding w_le16
  length-w_le16 =
      length-set (set buf i (d % 256)) (i + 1) (d / 256 % 256) ∙ length-set buf i (d % 256)

pub le16-lt : (buf : List ℕ) (i : ℕ) → le16 buf i < 2 ^ 16
unfolding le16
le16-lt buf i = omega arith

pub le16-w_le16 :
    (buf : List ℕ) (i d : ℕ) → i + 1 < length buf → le16 (w_le16 buf i d) i ≡ d % 2 ^ 16
unfolding le16
le16-w_le16 buf i d h = rw (w_le16_first buf i d h, w_le16_second buf i d h) (omega arith)

pub le16-w_le16_other :
    (buf : List ℕ) (i j d : ℕ) → (i + 1 < j) ⊎ (j + 1 < i) → le16 (w_le16 buf i d) j ≡ le16 buf j
unfolding le16
le16-w_le16_other buf i j d (inl h) =
    rw
      (
        w_le16_other buf i d j (omega arith) (omega arith),
        w_le16_other buf i d (j + 1) (omega arith) (omega arith),
      )
      refl
le16-w_le16_other buf i j d (inr h) =
    rw
      (
        w_le16_other buf i d j (omega arith) (omega arith),
        w_le16_other buf i d (j + 1) (omega arith) (omega arith),
      )
      refl

-- The entry of 12 bits.
abbrev pub entry_12 : List ℕ → ℕ → ℕ
entry_12 buf off =
    if off % 2 == 1 then le16 buf (off + off / 2) / 16 % 4096 else le16 buf (off + off / 2) % 4096

-- The word that is written for an entry of 12 bits.
abbrev pub word_12 : List ℕ → ℕ → ℕ → ℕ
word_12 buf off val =
    if off % 2 == 1
    then bit_or (bit_and (val * 16 % 2 ^ 32) 0xfff0) (bit_and (le16 buf (off + off / 2)) 0x000f)
    else bit_or (bit_and (le16 buf (off + off / 2)) 0xf000) (bit_and val 0x0fff)

odd_word :
    (val old : ℕ)
    → bit_or (bit_and (val * 16 % 2 ^ 32) 0xfff0) (bit_and old 0x000f) ≡ val % 4096 * 16 + old % 16
odd_word val old =
    let high : bit_and (val * 16 % 2 ^ 32) 0xfff0 ≡ val % 4096 * 2 ^ 4 =
      bit_and-shift 4 (val * 16 % 2 ^ 32) 0xfff
      ∙ ap (λ v. v * 2 ^ 4) (bit_and-ones 12 (val * 16 % 2 ^ 32 / 2 ^ 4) ∙ omega arith) in
    let low : bit_and old 0x000f ≡ old % 16 = bit_and-ones 4 old in
    rw (high, low) (bit_or-add 4 (val % 4096) (old % 16) (omega arith))

even_word :
    (val old : ℕ)
    → bit_or (bit_and old 0xf000) (bit_and val 0x0fff) ≡ old / 4096 % 16 * 4096 + val % 4096
even_word val old =
    let high : bit_and old 0xf000 ≡ old / 4096 % 16 * 2 ^ 12 =
      bit_and-shift 12 old 0xf ∙ ap (λ v. v * 2 ^ 12) (bit_and-ones 4 (old / 2 ^ 12)) in
    let low : bit_and val 0x0fff ≡ val % 4096 = bit_and-ones 12 val in
    rw (high, low) (bit_or-add 12 (old / 4096 % 16) (val % 4096) (omega arith))

module _ (buf : List ℕ) (off : ℕ) where
  entry_12_odd : (off % 2 == 1) ≡ true → entry_12 buf off ≡ le16 buf (off + off / 2) / 16 % 4096
  entry_12_odd e = rw e

  entry_12_even : (off % 2 == 1) ≡ false → entry_12 buf off ≡ le16 buf (off + off / 2) % 4096
  entry_12_even e = rw e

  word_12_odd :
      (val : ℕ)
      → (off % 2 == 1) ≡ true
      → word_12 buf off val ≡ val % 4096 * 16 + le16 buf (off + off / 2) % 16
  word_12_odd val e = rw e (odd_word val (le16 buf (off + off / 2)))

  word_12_even :
      (val : ℕ)
      → (off % 2 == 1) ≡ false
      → word_12 buf off val ≡ le16 buf (off + off / 2) / 4096 % 16 * 4096 + val % 4096
  word_12_even val e = rw e (even_word val (le16 buf (off + off / 2)))

pub entry_12_self :
    (buf : List ℕ) (off val : ℕ)
    → off + off / 2 + 1 < length buf
    → entry_12 (w_le16 buf (off + off / 2) (word_12 buf off val)) off ≡ val % 4096
entry_12_self buf off val h =
    let d : ℕ = word_12 buf off val in
    let read = le16-w_le16 buf (off + off / 2) d h in
    elim (Bool-cases (off % 2 == 1)) [
      | inl odd ↦
          entry_12_odd (w_le16 buf (off + off / 2) d) off odd
          ∙ omega (arith, read, word_12_odd buf off val odd, le16-lt buf (off + off / 2))
      | inr even ↦
          entry_12_even (w_le16 buf (off + off / 2) d) off even
          ∙ omega (arith, read, word_12_even buf off val even, le16-lt buf (off + off / 2))
    ]

-- The byte that an entry shares with the one after it, or before it.
share_high :
    (buf : List ℕ) (i d : ℕ)
    → i + 1 < length buf
    → d / 4096 % 16 ≡ le16 buf i / 4096 % 16
    → le16 (w_le16 buf i d) (i + 1) / 16 % 4096 ≡ le16 buf (i + 1) / 16 % 4096
unfolding le16
share_high buf i d h e =
    rw (w_le16_second buf i d h, w_le16_other buf i d (i + 1 + 1) (omega arith) (omega arith))
      (omega arith)

share_low :
    (buf : List ℕ) (i d : ℕ)
    → i + 2 < length buf
    → d % 16 ≡ le16 buf (i + 1) % 16
    → le16 (w_le16 buf (i + 1) d) i % 4096 ≡ le16 buf i % 4096
unfolding le16
share_low buf i d h e =
    rw
      (
        w_le16_first buf (i + 1) d (omega arith),
        w_le16_other buf (i + 1) d i (omega arith) (omega arith),
      )
      (omega arith)

pub entry_12_other :
    (buf : List ℕ) (off off' val : ℕ)
    → off + off / 2 + 1 < length buf
    → off ≢ off'
    → entry_12 (w_le16 buf (off + off / 2) (word_12 buf off val)) off' ≡ entry_12 buf off'
entry_12_other buf off off' val h ne = elim (ℕ_discrete (off + 1) off') [
  | yes after ↦ elim (Bool-cases (off % 2 == 1)) [
    | inr even ↦
        let odd' : (off' % 2 == 1) ≡ true = ground arith in
        let place : off' + off' / 2 ≡ off + off / 2 + 1 = ground arith in
        entry_12_odd (w_le16 buf (off + off / 2) d) off' odd'
        ∙ ap (λ k. le16 (w_le16 buf (off + off / 2) d) k / 16 % 4096) place
        ∙ share_high buf (off + off / 2) d h (omega (arith, word_12_even buf off val even))
        ∙ ap (λ k. le16 buf k / 16 % 4096) (sym place)
        ∙ sym (entry_12_odd buf off' odd')
    | inl odd ↦ apart (inl (ground arith))
  ]
  | no ne' ↦ elim (ℕ_discrete (off' + 1) off) [
    | yes before ↦ elim (Bool-cases (off % 2 == 1)) [
      | inl odd ↦
          let even' : (off' % 2 == 1) ≡ false = ground arith in
          let place : off' + off' / 2 + 1 ≡ off + off / 2 = ground arith in
          entry_12_even (w_le16 buf (off + off / 2) d) off' even'
          ∙ ap (λ k. le16 (w_le16 buf k d) (off' + off' / 2) % 4096) (sym place)
          ∙ share_low buf (off' + off' / 2) d (omega arith)
              (omega (arith, word_12_odd buf off val odd, ap (λ k. le16 buf k % 16) place))
          ∙ sym (entry_12_even buf off' even')
      | inr even ↦ apart (inr (ground arith))
    ]
    | no ne'' ↦ apart (far ne' ne'')
  ]
]
  where
    d : ℕ
    d = word_12 buf off val

    apart :
        (off + off / 2 + 1 < off' + off' / 2) ⊎ (off' + off' / 2 + 1 < off + off / 2)
        → entry_12 (w_le16 buf (off + off / 2) (word_12 buf off val)) off' ≡ entry_12 buf off'
    apart h' =
        ap (λ w. if off' % 2 == 1 then w / 16 % 4096 else w % 4096)
          (le16-w_le16_other buf (off + off / 2) (off' + off' / 2) (word_12 buf off val) h')

    far :
        off + 1 ≢ off'
        → off' + 1 ≢ off
        → (off + off / 2 + 1 < off' + off' / 2) ⊎ (off' + off' / 2 + 1 < off + off / 2)
    far ne' ne'' = elim (Bool-cases (ltb off off')) [
      | inl t ↦ inl (ground (arith, λ (e : off + 1 ≡ off'). ne' e))
      | inr t ↦ inr (ground (arith, λ (e : off' + 1 ≡ off). ne'' e, λ (e : off ≡ off'). ne e))
    ]
