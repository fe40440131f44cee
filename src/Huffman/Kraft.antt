-- ===== src/Huffman/Kraft.antt =====
-- The code words of huffman.c on the line of all words of 15 bits.
use dancy.Base.{
  ℕ, suc, ◌+◌, ◌-◌, ◌*◌, ◌/◌, ◌^◌, ◌<◌, ◌≤◌, ◌≡◌, ◌≢◌, refl, ap, ◌∙◌, sym, List, [], ◌∷◌, length,
  get_elem?, take, arith, inl, inr, none, some, dec_lt,
}
use native.Mathlib.Nat.{pow-suc, one-le-pow, mul-div_cancel}
use dancy.Huffman.Canonical.{Completes}
use dancy.Huffman.Weights.{weights, sum, number, row_at, row_past, sum_at, sum_past}

-- A place of the code and its word after `val`, when the words of the next length begin at `first`.
pub record IsRest (lengths : List ℕ) (first val place : ℕ) (w : List ℕ) (weight : ℕ) : Type 0 where
  pub weight_at : get_elem? (weights lengths) place ≡ some weight
  pub long : weight * 2 ^ length w ≡ 2 ^ length lengths
  pub start :
      2 * (number val w * weight)
      ≡ first * 2 ^ length lengths + 2 * sum (take place (weights lengths))

module _ (len : ℕ) (lengths : List ℕ) (first val : ℕ) where
  here_IsRest :
      (place v : ℕ)
      → place < len
      → 2 * val + v ≡ first + place
      → IsRest (len ∷ lengths) first val place (v ∷ []) (2 ^ length lengths)
  here_IsRest place v lt val_is = record {
    weight_at = row_at (2 ^ length lengths) (weights lengths) len place lt;
    long = sym (pow-suc 2 (length lengths));
    start =
        let before = sum_at (2 ^ length lengths) (weights lengths) len place (omega arith) in
        let double = pow-suc 2 (length lengths) in rw (before, double, val_is) (grind arith);
  }

  later_IsRest :
      (j v : ℕ) (w : List ℕ) (weight : ℕ)
      → IsRest lengths (2 * (first + len)) (2 * val + v) j w weight
      → IsRest (len ∷ lengths) first val (len + j) (v ∷ w) weight
  later_IsRest j v w weight r = record {
    weight_at =
        row_past (2 ^ length lengths) (weights lengths) len (len + j) (omega arith)
        ∙ ap (get_elem? (weights lengths)) past
        ∙ r.weight_at;
    long =
        let one_more = pow-suc 2 (length w) in
        let double = pow-suc 2 (length lengths) in
        let tail = r.long in rw (one_more, double) (grind arith);
    start =
        let before = sum_past (2 ^ length lengths) (weights lengths) len (len + j) (omega arith) in
        let double = pow-suc 2 (length lengths) in
        let tail = r.start in rw (before, double, past) (grind arith);
  }
    where
      past : len + j - len ≡ j
      past = omega arith

pub Completes-IsRest :
    (lengths : List ℕ) (first val place : ℕ) (w : List ℕ)
    → Completes lengths first val place w
    → (weight : ℕ) × IsRest lengths first val place w weight
Completes-IsRest [] first val place w c = absurd c
Completes-IsRest (len ∷ lengths) first val place [] c = absurd c
Completes-IsRest (len ∷ lengths) first val place (v ∷ w) (inl (w_is, lt, val_is)) =
    (2 ^ length lengths, rw w_is (here_IsRest len lengths first val place v lt val_is))
Completes-IsRest (len ∷ lengths) first val place (v ∷ w) (inr (j, place_is, c)) =
    let (weight, r) = Completes-IsRest lengths (2 * (first + len)) (2 * val + v) j w c in
    (weight, rw place_is (later_IsRest len lengths first val j v w weight r))

some_injective : (i j : ℕ) → some i ≡ some j → i ≡ j
some_injective i j e = cc

-- A code word has one bit or more.
weights_le :
    (lengths : List ℕ) (place weight : ℕ)
    → get_elem? (weights lengths) place ≡ some weight
    → 2 * weight ≤ 2 ^ length lengths
weights_le [] place weight e = cc
weights_le (len ∷ lengths) place weight e = elim (dec_lt place len) [
  | yes lt ↦
      let same : 2 ^ length lengths ≡ weight =
        some_injective _ _ (sym (row_at (2 ^ length lengths) (weights lengths) len place lt) ∙ e) in
      omega (arith, same, pow-suc 2 (length lengths))
  | no ge ↦
      let le : len ≤ place = omega (arith, ge) in
      let later =
        weights_le lengths (place - len) weight
          (sym (row_past (2 ^ length lengths) (weights lengths) len place le) ∙ e) in
      omega (arith, later, pow-suc 2 (length lengths))
]

positive : (n : ℕ) → 0 < 2 ^ n
positive n = one-le-pow n 2 (omega arith)

cancel_mul : (a b p : ℕ) → 0 < p → a * p ≡ b * p → a ≡ b
cancel_mul a b p pos e = sym (mul-div_cancel a pos) ∙ ap (λ n. n / p) e ∙ mul-div_cancel b pos

halves : (a b c : ℕ) → a * (b * 2) ≡ c * 2 → a * b ≡ c
halves a b c e = grind arith

row_products :
    (n first place p : ℕ)
    → 2 * (n * p) ≡ first * (p * 2) + 2 * (place * p)
    → n * p ≡ (first + place) * p
row_products n first place p e = grind arith

too_long : (p m : ℕ) → 0 < p → 0 < m → p * (m * 2 * 2) ≢ p * 2
too_long p m pos pos' e =
    let turned : m * 2 * 2 * p ≡ 2 * p = grind arith in
    omega (arith, cancel_mul (m * 2 * 2) 2 p pos turned)

module _ (len : ℕ) (lengths : List ℕ) (first val place v : ℕ) where
  first_row :
      (w : List ℕ) (weight : ℕ)
      → place < len
      → IsRest (len ∷ lengths) first val place (v ∷ w) weight
      → (w ≡ []) × (place < len) × (2 * val + v ≡ first + place)
  first_row w weight lt r = by_end w r.long r.start
    where
      weight_is : 2 ^ length lengths ≡ weight
      weight_is =
          some_injective _ _
            (sym (row_at (2 ^ length lengths) (weights lengths) len place lt) ∙ r.weight_at)

      by_end :
          (w' : List ℕ)
          → weight * 2 ^ suc (length w') ≡ 2 ^ suc (length lengths)
          → 2 * (number (2 * val + v) w' * weight)
            ≡ first * 2 ^ suc (length lengths) + 2 * sum (take place (weights (len ∷ lengths)))
          → (w' ≡ []) × (place < len) × (2 * val + v ≡ first + place)
      by_end [] e e' =
          let before = sum_at (2 ^ length lengths) (weights lengths) len place (omega arith) in
          let double = pow-suc 2 (length lengths) in
          let whole =
            ap (λ n. 2 * ((2 * val + v) * n)) weight_is
            ∙ e'
            ∙ ap (λ n. first * n + 2 * sum (take place (weights (len ∷ lengths)))) double
            ∙ ap (λ n. first * (2 ^ length lengths * 2) + 2 * n) before in
          (
            refl,
            lt,
            cancel_mul (2 * val + v) (first + place) (2 ^ length lengths)
                (positive (length lengths))
                (row_products (2 * val + v) first place (2 ^ length lengths) whole),
          )
      by_end (u ∷ w') e e' =
          let more = pow-suc 2 (suc (length w')) ∙ ap (λ n. n * 2) (pow-suc 2 (length w')) in
          let whole =
            sym (ap (λ n. 2 ^ length lengths * n) more)
            ∙ ap (λ n. n * 2 ^ suc (suc (length w'))) weight_is
            ∙ e
            ∙ pow-suc 2 (length lengths) in
          absurd (
            too_long (2 ^ length lengths) (2 ^ length w') (positive (length lengths))
              (positive (length w')) whole)

  later_row :
      (w : List ℕ) (weight : ℕ)
      → len ≤ place
      → IsRest (len ∷ lengths) first val place (v ∷ w) weight
      → IsRest lengths (2 * (first + len)) (2 * val + v) (place - len) w weight
  later_row w weight ge r = record {
    weight_at = sym (row_past (2 ^ length lengths) (weights lengths) len place ge) ∙ r.weight_at;
    long =
        halves weight (2 ^ length w) (2 ^ length lengths)
          (sym (ap (λ n. weight * n) (pow-suc 2 (length w))) ∙ r.long ∙ pow-suc 2 (length lengths));
    start =
        let before = sum_past (2 ^ length lengths) (weights lengths) len place ge in
        let double = pow-suc 2 (length lengths) in let whole = r.start in grind arith;
  }

pub IsRest-Completes :
    (lengths : List ℕ) (first val place : ℕ) (w : List ℕ) (weight : ℕ)
    → IsRest lengths first val place w weight
    → Completes lengths first val place w
IsRest-Completes [] first val place w weight r = absurd (clash r.weight_at)
  where
    clash : ¬ (none ≡ some weight)
    clash e = cc
IsRest-Completes (len ∷ lengths) first val place [] weight r = absurd (
    omega (
      arith,
      weights_le (len ∷ lengths) place weight r.weight_at,
      r.long,
      positive (length (len ∷ lengths)),
    ))
IsRest-Completes (len ∷ lengths) first val place (v ∷ w) weight r = elim (dec_lt place len) [
  | yes lt ↦ inl (first_row len lengths first val place v w weight lt r)
  | no ge ↦
      let le : len ≤ place = omega (arith, ge) in
      inr (
        place - len,
        omega arith,
        IsRest-Completes lengths (2 * (first + len)) (2 * val + v) (place - len) w weight
            (later_row len lengths first val place v w weight le r),
      )
]
