-- ===== src/Deflate/Bits.antt =====
-- The two tables of `deflate_compress` hold the code words of the static codes.
use dancy.Base.{
  ℕ, ◌+◌, ◌*◌, ◌<◌, ◌≡◌, refl, Bool, true, false, List, [], ◌∷◌, ◌++◌, get_or, ◌==◌, ==_iff, some,
}
use dancy.Base.Tables.{every_below, every_below_at}
use dancy.Bitarray.Stream.{bits_of}
use dancy.Huffman.{
  Huffman, huffman_init, count_lengths, check_lengths, offsets, place_loop, build_symbols,
  reverse_loop, words_loop, levels_loop, sum_lengths, huffman_table,
}
use dancy.Huffman.Fetch.{Word, word, partial, invalid, match_word, next_word}
use dancy.Huffman.Prefix.{next_word-append}
use dancy.Inflate.Codes.{static_code, static_dist}
use dancy.Deflate.{make_table, code_table, dist_table}

-- The bits of a symbol in a table.
abbrev pub word_bits : List ℕ → ℕ → List ℕ
word_bits table c = bits_of (get_or table (c * 2) 0) (get_or table (c * 2 + 1) 0)

abbrev is_symbol : List ℕ → ℕ → Word → Bool
is_symbol symbols c (word place []) = get_or symbols place 0 == c
is_symbol symbols c (word place (v ∷ bits)) = false
is_symbol symbols c partial = false
is_symbol symbols c (invalid bits) = false

is_symbol-word :
    (symbols : List ℕ) (c : ℕ) (w : Word)
    → is_symbol symbols c w ≡ true
    → (place : ℕ) × (w ≡ word place []) × (get_or symbols place 0 ≡ c)
is_symbol-word symbols c (word place []) h = (place, refl, (==_iff (get_or symbols place 0) c).0 h)
is_symbol-word symbols c (word place (v ∷ bits)) h = cc
is_symbol-word symbols c partial h = cc
is_symbol-word symbols c (invalid bits) h = cc

every_word : Huffman → List ℕ → ℕ → Bool
every_word h table n = every_below n (λ c. is_symbol h.symbols c (next_word h (word_bits table c)))

code_words : every_word static_code (code_table).1 288 ≡ true
unfolding every_word every_below next_word match_word static_code code_table huffman_init
    count_lengths check_lengths offsets place_loop build_symbols reverse_loop words_loop levels_loop
    sum_lengths huffman_table
code_words = refl

dist_words : every_word static_dist (dist_table).1 32 ≡ true
unfolding every_word every_below next_word match_word static_dist dist_table huffman_init
    count_lengths check_lengths offsets place_loop build_symbols reverse_loop words_loop levels_loop
    sum_lengths huffman_table
dist_words = refl

pub make_table-code : make_table code_table ≡ some (code_table).1
unfolding make_table code_table huffman_init count_lengths check_lengths offsets place_loop
    build_symbols reverse_loop words_loop levels_loop sum_lengths huffman_table
make_table-code = refl

pub make_table-dist : make_table dist_table ≡ some (dist_table).1
unfolding make_table dist_table huffman_init count_lengths check_lengths offsets place_loop
    build_symbols reverse_loop words_loop levels_loop sum_lengths huffman_table
make_table-dist = refl

-- The table's bits of each of these symbols are the code word of the symbol.
abbrev pub HasWords : Huffman → List ℕ → ℕ → Type 0
HasWords h table n =
    (c : ℕ) (more : List ℕ)
    → c < n
    → (place : ℕ) × (next_word h (word_bits table c ++ more) ≡ word place more)
      × (get_or h.symbols place 0 ≡ c)

every_word-HasWords :
    (h : Huffman) (table : List ℕ) (n : ℕ) → every_word h table n ≡ true → HasWords h table n
unfolding every_word
every_word-HasWords h table n all c more less =
    let (place, e, symbol_is) = is_symbol-word h.symbols c _ (every_below_at n _ c all less) in
    (place, next_word-append h place (word_bits table c) [] more e, symbol_is)

pub code_table-HasWords : HasWords static_code (code_table).1 288
code_table-HasWords = every_word-HasWords static_code (code_table).1 288 code_words

pub dist_table-HasWords : HasWords static_dist (dist_table).1 32
dist_table-HasWords = every_word-HasWords static_dist (dist_table).1 32 dist_words

-- The last symbol of a block has 7 bits.
pub code_table-end : get_or (code_table).1 512 0 ≡ 7
unfolding code_table huffman_init count_lengths check_lengths offsets place_loop build_symbols
    reverse_loop words_loop levels_loop sum_lengths huffman_table
code_table-end = refl
