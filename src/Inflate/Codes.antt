-- ===== src/Inflate/Codes.antt =====
-- The static codes of `inflate`, and its tables.
use dancy.Base.{
  ℕ, zero, suc, ◌+◌, ◌≤◌, ◌<◌, ◌≡◌, refl, Bool, true, false, List, [], ◌∷◌, ◌++◌, get_elem?,
  replicate, leb, leb→le, Option, none, some,
}
use dancy.Base.Tables.{every_below, every_below_at}
use dancy.Huffman.{
  Huffman, count_lengths, check_lengths, offsets, place_loop, build_symbols, huffman_init,
}
use dancy.Inflate.{length_codes, distance_codes, inflate_init}

abbrev pub upto : ℕ → ℕ → List ℕ
upto from zero = []
upto from (suc n) = from ∷ upto (from + 1) n

-- The symbols in the order of their code words.
unfoldable pub static_code : Huffman
static_code = record {
  lengths = replicate 7 0 ++ (24 ∷ 152 ∷ 112 ∷ replicate 6 0);
  symbols = upto 256 24 ++ (upto 0 144 ++ (upto 280 8 ++ upto 144 112));
  completed = true;
}

unfoldable pub static_dist : Huffman
static_dist = record {
  lengths = replicate 5 0 ++ (32 ∷ replicate 10 0);
  symbols = upto 0 32;
  completed = true;
}

pub inflate_init-static : inflate_init ≡ some (static_code, static_dist)
unfolding inflate_init huffman_init count_lengths check_lengths offsets place_loop build_symbols
    static_code static_dist
inflate_init-static = refl

-- There is an entry, and it has few extra bits.
abbrev few_extra : Option (ℕ × ℕ) → Bool
few_extra none = false
few_extra (some (extra, value)) = leb extra 13

few_extra-some :
    (o : Option (ℕ × ℕ))
    → few_extra o ≡ true
    → (extra value : ℕ) × (o ≡ some (extra, value)) × (extra ≤ 13)
few_extra-some none h = cc
few_extra-some (some (extra, value)) h = (extra, value, refl, leb→le extra 13 h)

length_codes_few : every_below 29 (λ i. few_extra (get_elem? length_codes i)) ≡ true
unfolding every_below
length_codes_few = refl

distance_codes_few : every_below 30 (λ i. few_extra (get_elem? distance_codes i)) ≡ true
unfolding every_below
distance_codes_few = refl

pub length_codes_at :
    (i : ℕ)
    → i < 29
    → (extra value : ℕ) × (get_elem? length_codes i ≡ some (extra, value)) × (extra ≤ 13)
length_codes_at i h = few_extra-some _ (every_below_at 29 _ i length_codes_few h)

pub distance_codes_at :
    (i : ℕ)
    → i < 30
    → (extra value : ℕ) × (get_elem? distance_codes i ≡ some (extra, value)) × (extra ≤ 13)
distance_codes_at i h = few_extra-some _ (every_below_at 30 _ i distance_codes_few h)
