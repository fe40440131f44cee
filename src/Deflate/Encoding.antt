-- ===== src/Deflate/Encoding.antt =====
-- The bits that `lz77_compress` writes.
use dancy.Base.{
  ℕ, zero, suc, ◌+◌, ◌-◌, ◌^◌, ◌≤◌, ◌<◌, min, bit_and, ◌≡◌, refl, ap, sym, ◌∙◌, Bool, true, false,
  ◌&&◌, ◌||◌, List, [], ◌∷◌, ◌++◌, append_assoc, append-nil, length-append, get_elem?, ltb, leb,
  ◌==◌, if◌then◌else◌, Option, none, some, arith, Bool-cases, inl, inr,
}
use dancy.Bitarray.{Writer, bitarray_shove}
use dancy.Bitarray.Stream.{bits_of}
use dancy.Bitarray.Shove.{written, IsWriter, Appends, appended, no_room, bitarray_shove-Appends}
use dancy.Inflate.{length_codes, distance_codes}
use dancy.Deflate.{find_code, put_code, put_lendist, put_literal}
use dancy.Deflate.Bits.{word_bits}

-- Writing more bits after those that have been written.
pub Appends-bind :
    (bits bits' : List ℕ) (w : Writer) (r : Bool × Writer) (f : Writer → Bool × Writer)
    → Appends bits w r
    → ((w' : Writer) → IsWriter w' → Appends bits' w' (f w'))
    → Appends (bits ++ bits') w (elim (r.0) [ false ↦ r | true ↦ f r.1 ])
Appends-bind bits bits' w r f (appended t e ok space) more = rw t (by_more (more r.1 ok))
  where
    by_more : Appends bits' r.1 (f r.1) → Appends (bits ++ bits') w (f r.1)
    by_more (appended t' e' ok' space') =
        appended t' (e' ∙ ap (λ l. l ++ bits') e ∙ append_assoc (written w) bits bits') ok'
          (omega (arith, length-append bits bits'))
    by_more (no_room t' few) = no_room t' (omega (arith, length-append bits bits'))
Appends-bind bits bits' w r f (no_room t few) more =
    rw t (no_room t (omega (arith, length-append bits bits')))

-- A code for `n` in a table: its extra bits are enough to tell `n`.
pub record IsCode (codes : List (ℕ × ℕ)) (n j extra value : ℕ) : Type 0 where
  pub at_j : get_elem? codes j ≡ some (extra, value)
  pub low : value ≤ n
  pub high : n < value + 2 ^ extra

-- Each code reaches up to the next one, and the codes up to `limit`.
abbrev reaches : ℕ → List (ℕ × ℕ) → Bool
reaches limit [] = true
reaches limit ((extra, value) ∷ []) = leb limit value && ltb 0 (2 ^ extra)
reaches limit ((extra, value) ∷ (extra', value') ∷ codes) =
    (leb (min value' (limit + 1)) (value + 2 ^ extra) && ltb 0 (2 ^ extra))
    && reaches limit ((extra', value') ∷ codes)

find_code-IsCode :
    (limit : ℕ) (codes : List (ℕ × ℕ)) (extra value i n : ℕ)
    → reaches limit ((extra, value) ∷ codes) ≡ true
    → value ≤ n
    → n ≤ limit
    → (j extra' value' : ℕ) × (find_code ((extra, value) ∷ codes) i n
        ≡ some (i + j, extra', value'))
      × IsCode ((extra, value) ∷ codes) n j extra' value'
unfolding find_code
find_code-IsCode limit [] extra value i n ok h h' =
    (0, extra, value, ground arith, record { at_j = refl; low = h; high = ground arith })
find_code-IsCode limit ((extra', value') ∷ codes) extra value i n ok h h' =
    elim (Bool-cases (n == value || ltb n value')) [
      | inl t ↦ (
        0,
        extra,
        value,
        rw t (ap (λ k. some (k, extra, value)) (omega arith)),
        record { at_j = refl; low = h; high = ground arith },
      )
      | inr t ↦
          let (j, e, v, found, code) =
            find_code-IsCode limit codes extra' value' (i + 1) n (ground arith) (ground arith) h' in
          (
            suc j,
            e,
            v,
            rw t (found ∙ ap (λ k. some (k, e, v)) (omega arith)),
            record { at_j = code.at_j; low = code.low; high = code.high },
          )
    ]

pub length-IsCode :
    (n : ℕ)
    → 3 ≤ n
    → n ≤ 258
    → (j extra value : ℕ) × (find_code length_codes 0 n ≡ some (0 + j, extra, value))
      × IsCode length_codes n j extra value
length-IsCode n h h' = find_code-IsCode 258 _ 0 3 0 n refl h h'

pub distance-IsCode :
    (n : ℕ)
    → 0 < n
    → n ≤ 32768
    → (j extra value : ℕ) × (find_code distance_codes 0 n ≡ some (0 + j, extra, value))
      × IsCode distance_codes n j extra value
distance-IsCode n h h' = find_code-IsCode 32768 _ 0 1 0 n refl (omega arith) h'

-- A code word and its extra bits.
abbrev pub code_bits : List ℕ → ℕ → ℕ → Option (ℕ × ℕ × ℕ) → List ℕ
code_bits table base n none = []
code_bits table base n (some (i, extra, value)) =
    word_bits table (base + i) ++ bits_of extra (n - value)

abbrev pub lendist_bits : List ℕ → List ℕ → ℕ → ℕ → List ℕ
lendist_bits codes dists len dist =
    code_bits codes 257 len (find_code length_codes 0 len)
    ++ code_bits dists 0 dist (find_code distance_codes 0 dist)

abbrev pub literal_bits : List ℕ → ℕ → List ℕ
literal_bits codes c = word_bits codes (bit_and c 0xff)

pub put_literal-Appends :
    (codes : List ℕ) (c : ℕ) (w : Writer)
    → IsWriter w
    → Appends (literal_bits codes c) w (put_literal codes c w)
unfolding put_literal
put_literal-Appends codes c w ok = bitarray_shove-Appends w _ _ ok

extra_Appends :
    (extra v : ℕ) (w : Writer)
    → IsWriter w
    → Appends (bits_of extra v) w (if extra == 0 then (true, w) else bitarray_shove w extra v)
extra_Appends zero v w ok = appended refl (sym (append-nil (written w))) ok (omega arith)
extra_Appends (suc extra) v w ok =
    let differ : (suc extra == 0) ≡ false = ground arith in
    rw differ (bitarray_shove-Appends w (suc extra) v ok)

put_code-Appends :
    (table : List ℕ) (base n i extra value : ℕ) (o : Option (ℕ × ℕ × ℕ)) (w : Writer)
    → o ≡ some (i, extra, value)
    → IsWriter w
    → Appends (code_bits table base n o) w (put_code table base n o w)
unfolding put_code
put_code-Appends table base n i extra value o w e ok = rw e (
    Appends-bind (word_bits table (base + i)) (bits_of extra (n - value)) w _
      (λ w'. if extra == 0 then (true, w') else bitarray_shove w' extra (n - value))
      (bitarray_shove-Appends w _ _ ok) (λ w' ok'. extra_Appends extra (n - value) w' ok'))

put_lendist-in_range :
    (codes dists : List ℕ) (len dist : ℕ) (w : Writer)
    → (3 ≤ len) × (len ≤ 258)
    → (0 < dist) × (dist ≤ 32768)
    → put_lendist codes dists len dist w
      ≡ elim ((put_code codes 257 len (find_code length_codes 0 len) w).0) [
        | false ↦ put_code codes 257 len (find_code length_codes 0 len) w
        | true ↦
            put_code dists 0 dist
              (find_code distance_codes 0 dist)
              (put_code codes 257 len (find_code length_codes 0 len) w).1
      ]
unfolding put_lendist
put_lendist-in_range codes dists len dist w h h' =
    let test : (ltb len 3 || (ltb 258 len || (ltb dist 1 || ltb 32768 dist))) ≡ false =
      ground arith in
    rw (put_lendist, test) refl

pub put_lendist-Appends :
    (codes dists : List ℕ) (len dist : ℕ) (w : Writer)
    → (3 ≤ len) × (len ≤ 258)
    → (0 < dist) × (dist ≤ 32768)
    → IsWriter w
    → Appends (lendist_bits codes dists len dist) w (put_lendist codes dists len dist w)
put_lendist-Appends codes dists len dist w h h' ok =
    let (j, e, v, found, code) = length-IsCode len h.0 h.1 in
    let (j', e', v', found', code') = distance-IsCode dist h'.0 h'.1 in
    rw (put_lendist-in_range codes dists len dist w h h') (
      Appends-bind _ _ w _ (λ w'. put_code dists 0 dist (find_code distance_codes 0 dist) w')
        (put_code-Appends codes 257 len (0 + j) e v _ w found ok)
        (λ w' ok'. put_code-Appends dists 0 dist (0 + j') e' v' _ w' found' ok'))
