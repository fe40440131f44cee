-- ===== src/Deflate/Lz77.antt =====
-- `lz77_compress` writes the bits of an encoding of its text.
use dancy.Base.{
  ℕ, zero, suc, ◌+◌, ◌≤◌, ◌<◌, ◌≡◌, ◌≢◌, refl, sym, true, false, List, [], ◌++◌, length, get_or,
  ltb, leb, ◌==◌, ==_iff, lt→ltb, arith, Bool-cases, inl, inr, ℕ_discrete,
}
use dancy.Bitarray.{Writer}
use dancy.Bitarray.Shove.{written, IsWriter, Appends, appended}
use dancy.Base.{append-nil}
use dancy.Deflate.{put_lendist, put_literal, find_match, lz77_loop, lz77_compress}
use dancy.Deflate.Search.{IsMatch, find_match-IsMatch}
use dancy.Deflate.Encoding.{
  lendist_bits, literal_bits, Appends-bind, put_literal-Appends, put_lendist-Appends,
}

-- The bits for the bytes from `i` on.
unfoldable pub lz77_bits : ℕ → List ℕ → List ℕ → List ℕ → ℕ → List ℕ
lz77_bits zero codes dists text i = []
lz77_bits (suc fuel) codes dists text i = elim (ltb i (length text)) [
  | false ↦ []
  | true ↦ elim ((find_match text i).1 == 0) [
    | true ↦ literal_bits codes (get_or text i 0) ++ lz77_bits fuel codes dists text (i + 1)
    | false ↦
        lendist_bits codes dists (find_match text i).0 (find_match text i).1
        ++ lz77_bits fuel codes dists text (i + (find_match text i).0)
  ]
]

-- What a list of bits encodes: the bytes from `i` on, one by one or by what they repeat.
pub data Encodes (codes dists text : List ℕ) : ℕ → List ℕ → Type 0 where
  ends : (i : ℕ) (bits : List ℕ) → length text ≤ i → bits ≡ [] → Encodes codes dists text i bits
  literal :
      (i : ℕ) (bits more : List ℕ)
      → i < length text
      → Encodes codes dists text (i + 1) more
      → bits ≡ literal_bits codes (get_or text i 0) ++ more
      → Encodes codes dists text i bits
  repeated :
      (i len dist : ℕ) (bits more : List ℕ)
      → IsMatch text i len dist
      → Encodes codes dists text (i + len) more
      → bits ≡ lendist_bits codes dists len dist ++ more
      → Encodes codes dists text i bits

nothing_Appends : (w : Writer) → IsWriter w → Appends [] w (true, w)
nothing_Appends w ok = appended refl (sym (append-nil (written w))) ok (omega arith)

lz77_loop-at_end :
    (fuel : ℕ) (codes dists text : List ℕ) (i : ℕ)
    → length text ≤ i
    → (lz77_bits fuel codes dists text i ≡ [])
      × ((w : Writer) → lz77_loop fuel codes dists text i w ≡ (true, w))
unfolding lz77_loop lz77_bits
lz77_loop-at_end zero codes dists text i h =
    let t : leb (length text) i ≡ true = ground arith in (refl, λ w. rw t refl)
lz77_loop-at_end (suc fuel) codes dists text i h =
    let t : ltb i (length text) ≡ false = ground arith in
    (rw (t, lz77_bits) refl, λ w. rw (t, lz77_loop) refl)

module _ (fuel : ℕ) (codes dists text : List ℕ) (i : ℕ) (inside : i < length text) where
  lz77_loop-literal :
      (find_match text i).1 ≡ 0
      → (lz77_bits (suc fuel) codes dists text i
          ≡ literal_bits codes (get_or text i 0) ++ lz77_bits fuel codes dists text (i + 1))
        × ((w : Writer)
            → lz77_loop (suc fuel) codes dists text i w
              ≡ elim ((put_literal codes (get_or text i 0) w).0) [
                | false ↦ put_literal codes (get_or text i 0) w
                | true ↦
                    lz77_loop fuel codes dists text
                      (i + 1)
                      (put_literal codes (get_or text i 0) w).1
              ])
  unfolding lz77_loop lz77_bits
  lz77_loop-literal e =
      let t = lt→ltb i (length text) inside in
      let z = (==_iff (find_match text i).1 0).1 e in
      (rw (lz77_bits, t, z) refl, λ w. rw (lz77_loop, t, z) refl)

  lz77_loop-repeated :
      (find_match text i).1 ≢ 0
      → (lz77_bits (suc fuel) codes dists text i
          ≡ lendist_bits codes dists (find_match text i).0 (find_match text i).1
            ++ lz77_bits fuel codes dists text (i + (find_match text i).0))
        × ((w : Writer)
            → lz77_loop (suc fuel) codes dists text i w
              ≡ elim ((put_lendist codes dists (find_match text i).0 (find_match text i).1 w).0) [
                | false ↦ put_lendist codes dists (find_match text i).0 (find_match text i).1 w
                | true ↦
                    lz77_loop fuel codes dists text
                      (i + (find_match text i).0)
                      (put_lendist codes dists (find_match text i).0 (find_match text i).1 w).1
              ])
  unfolding lz77_loop lz77_bits
  lz77_loop-repeated ne =
      let t = lt→ltb i (length text) inside in
      let z : ((find_match text i).1 == 0) ≡ false =
        ground (arith, λ (e : (find_match text i).1 ≡ 0). ne e) in
      (rw (lz77_bits, t, z) refl, λ w. rw (lz77_loop, t, z) refl)

-- With fuel for the bytes that are left, the loop writes the bits of an encoding of them.
lz77_loop-Encodes :
    (fuel : ℕ) (codes dists text : List ℕ) (i : ℕ)
    → length text ≤ i + fuel
    → Encodes codes dists text i (lz77_bits fuel codes dists text i)
      × ((w : Writer)
          → IsWriter w
          → Appends (lz77_bits fuel codes dists text i) w (lz77_loop fuel codes dists text i w))
lz77_loop-Encodes zero codes dists text i h =
    let (e, e') = lz77_loop-at_end zero codes dists text i (omega arith) in
    (ends _ _ (omega arith) e, λ w ok. rw (e, e' w) (nothing_Appends w ok))
lz77_loop-Encodes (suc fuel) codes dists text i h = elim (Bool-cases (ltb i (length text))) [
  | inr t ↦
      let (e, e') = lz77_loop-at_end (suc fuel) codes dists text i (ground arith) in
      (ends _ _ (ground arith) e, λ w ok. rw (e, e' w) (nothing_Appends w ok))
  | inl t ↦
      let inside : i < length text = ground arith in
      elim (ℕ_discrete (find_match text i).1 0) [
        | yes z ↦
            let (e, e') = lz77_loop-literal fuel codes dists text i inside z in
            let (rest, loop) = lz77_loop-Encodes fuel codes dists text (i + 1) (omega arith) in
            (
              literal _ _ _ inside rest e,
              λ w ok.
                  rw (e, e' w)
                    (Appends-bind _ _ w _ (λ w'. lz77_loop fuel codes dists text (i + 1) w')
                      (put_literal-Appends codes _ w ok) loop),
            )
        | no ne ↦
            let (e, e') = lz77_loop-repeated fuel codes dists text i inside ne in
            let found = is_match i inside ne in
            let (rest, loop) =
              lz77_loop-Encodes fuel codes dists text (i + (find_match text i).0)
                (omega (arith, found.len_range)) in
            (
              repeated _ _ _ _ _ found rest e,
              λ w ok.
                  rw (e, e' w)
                    (Appends-bind _ _ w _
                      (λ w'. lz77_loop fuel codes dists text (i + (find_match text i).0) w')
                      (put_lendist-Appends codes dists _ _ w found.len_range found.dist_range ok)
                      loop),
            )
      ]
]
  where
    is_match :
        (i : ℕ)
        → i < length text
        → (find_match text i).1 ≢ 0
        → IsMatch text i (find_match text i).0 (find_match text i).1
    is_match i inside ne = elim (find_match-IsMatch text i inside) [
      | inl z ↦ absurd (ne z)
      | inr found ↦ found
    ]

abbrev pub text_bits : List ℕ → List ℕ → List ℕ → List ℕ
text_bits codes dists text =
    literal_bits codes (get_or text 0 0) ++ lz77_bits (length text) codes dists text 1

pub lz77_compress-Encodes :
    (codes dists text : List ℕ)
    → 0 < length text
    → Encodes codes dists text 0 (text_bits codes dists text)
      × ((w : Writer)
          → IsWriter w
          → Appends (text_bits codes dists text) w (lz77_compress codes dists text w))
unfolding lz77_compress
lz77_compress-Encodes codes dists text h =
    let (rest, loop) = lz77_loop-Encodes (length text) codes dists text 1 (omega arith) in
    let one : 0 + 1 ≡ 1 = omega arith in
    (
      literal _ _ _ h (rw one rest) refl,
      λ w ok.
          Appends-bind _ _ w _ (λ w'. lz77_loop (length text) codes dists text 1 w')
            (put_literal-Appends codes _ w ok) loop,
    )
