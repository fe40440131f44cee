-- ===== src/Huffman/Weights.antt =====
-- The weights of the places of a code of huffman.c.
use dancy.Base.{
  ℕ, zero, suc, ◌+◌, ◌-◌, ◌*◌, ◌^◌, ◌<◌, ◌≤◌, ◌≡◌, refl, ap, ◌∙◌, List, [], ◌∷◌, ◌++◌, length,
  get_elem?, take, replicate, arith, some,
}

-- How many words of the greatest length start with the code word of each place.
abbrev pub weights : List ℕ → List ℕ
weights [] = []
weights (len ∷ lengths) = replicate len (2 ^ length lengths) ++ weights lengths

abbrev pub sum : List ℕ → ℕ
sum [] = 0
sum (n ∷ ns) = n + sum ns

-- Bits as a number, the highest one first, after `val`.
abbrev pub number : ℕ → List ℕ → ℕ
number val [] = val
number val (v ∷ bits) = number (2 * val + v) bits

module _ (p : ℕ) (ns : List ℕ) where
  pub row_at : (len i : ℕ) → i < len → get_elem? (replicate len p ++ ns) i ≡ some p
  row_at zero i h = absurd (omega arith)
  row_at (suc len) zero h = refl
  row_at (suc len) (suc i) h = row_at len i (omega arith)

  pub row_past :
      (len i : ℕ) → len ≤ i → get_elem? (replicate len p ++ ns) i ≡ get_elem? ns (i - len)
  row_past zero i h = ap (get_elem? ns) (omega arith)
  row_past (suc len) zero h = absurd (omega arith)
  row_past (suc len) (suc i) h = row_past len i (omega arith) ∙ ap (get_elem? ns) (omega arith)

  pub sum_at : (len i : ℕ) → i ≤ len → sum (take i (replicate len p ++ ns)) ≡ i * p
  sum_at len zero h = omega arith
  sum_at zero (suc i) h = absurd (omega arith)
  sum_at (suc len) (suc i) h = let rest = sum_at len i (omega arith) in grind arith

  pub sum_past :
      (len i : ℕ)
      → len ≤ i
      → sum (take i (replicate len p ++ ns)) ≡ len * p + sum (take (i - len) ns)
  sum_past zero i h =
      let same : i - 0 ≡ i = omega arith in
      let none_before : 0 * p ≡ 0 = omega arith in rw (same, none_before) (omega arith)
  sum_past (suc len) zero h = absurd (omega arith)
  sum_past (suc len) (suc i) h =
      let rest = sum_past len i (omega arith) in
      let same : suc i - suc len ≡ i - len = omega arith in rw same (grind arith)
