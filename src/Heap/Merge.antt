-- ===== src/Heap/Merge.antt =====
-- `merge_loop`: free sections side by side become one.
use dancy.Base.{
  ℕ, zero, suc, ◌+◌, ◌-◌, ◌<◌, ◌≤◌, ◌≡◌, ◌∙◌, ap, refl, Bool, true, false, ◌||◌, arith, List, [],
  ◌∷◌, ◌++◌, take, drop, length, Bool-cases, inl, inr, ℕ_discrete, dec_lt,
}
use dancy.Heap.{is_used, address, entry, merge_loop}
use dancy.Heap.Sections.{Ordered, owned, owned-cons, entry-Before}

-- The same of every address, in a map that is not longer.
pub record Agrees (map map' : List ℕ) : Type 0 where
  pub ordered : Ordered map'
  pub first : address (entry map' 0) ≡ address (entry map 0)
  pub owned_is : (x : ℕ) → owned map' x ≡ owned map x
  pub length_le : length map' ≤ length map
  pub two : 2 ≤ length map'

Agrees-trans : (m m' m'' : List ℕ) → Agrees m m' → Agrees m' m'' → Agrees m m''
Agrees-trans m m' m'' a b = record {
  ordered = b.ordered;
  first = b.first ∙ a.first;
  owned_is = λ x. b.owned_is x ∙ a.owned_is x;
  length_le = omega (arith, a.length_le, b.length_le);
  two = b.two;
}

abbrev without : ℕ → List ℕ → List ℕ
without i map = take i map ++ drop (i + 1) map

without-cons : (i a : ℕ) (map : List ℕ) → without (suc i) (a ∷ map) ≡ (a ∷ without i map)
without-cons i a map = let e : suc i + 1 ≡ suc (i + 1) = omega arith in rw e

without-Agrees :
    (map : List ℕ) (j : ℕ)
    → Ordered map
    → suc j < length map - 1
    → is_used (entry map j) ≡ false
    → is_used (entry map (suc j)) ≡ false
    → Agrees map (without (suc j) map)
without-Agrees [] j o h f f' = absurd (omega arith)
without-Agrees (a ∷ []) j o h f f' = absurd (omega arith)
without-Agrees (a ∷ (b ∷ [])) j o h f f' = absurd (omega arith)
without-Agrees (a ∷ (b ∷ (c ∷ map))) zero o h f f' = record {
  ordered = (o.0, omega (arith, o.1, (o.2).1), ((o.2).2));
  first = refl;
  owned_is = λ x.
      owned-cons a (c ∷ map) x
      ∙ ground (arith, owned-cons a (b ∷ (c ∷ map)) x, owned-cons b (c ∷ map) x, f, f');
  length_le = omega arith;
  two = omega arith;
}
without-Agrees (a ∷ (b ∷ (c ∷ map))) (suc j) o h f f' =
    let s = without-Agrees (b ∷ (c ∷ map)) j o.2 (omega arith) f f' in
    rw (without-cons (suc j) a (b ∷ (c ∷ map))) (record {
      ordered = (o.0, entry-Before a (without (suc j) (b ∷ (c ∷ map))) (rw s.first o.1), s.ordered);
      first = refl;
      owned_is = λ x.
          owned-cons a _ x ∙ ground (arith, owned-cons a (b ∷ (c ∷ map)) x, s.owned_is x, s.first);
      length_le = omega (arith, s.length_le);
      two = omega (arith, s.two);
    })

entry-without :
    (map : List ℕ) (i j : ℕ) → j < i → i < length map → entry (without i map) j ≡ entry map j
entry-without [] i j h h' = absurd (omega arith)
entry-without (a ∷ map) zero j h h' = absurd (omega arith)
entry-without (a ∷ map) (suc i) zero h h' = refl
entry-without (a ∷ map) (suc i) (suc j) h h' =
    ap (λ m. entry m (suc j)) (without-cons i a map)
    ∙ entry-without map i j (omega arith) (omega arith)

length-without : (map : List ℕ) (i : ℕ) → i < length map → length (without i map) + 1 ≡ length map
length-without [] i h = absurd (omega arith)
length-without (a ∷ map) zero h = omega arith
length-without (a ∷ map) (suc i) h =
    omega (arith, ap (λ m. length m) (without-cons i a map), length-without map i (omega arith))

-- No two free sections side by side, before entry `n`.
abbrev pub MergedBelow : List ℕ → ℕ → Type 0
MergedBelow map n =
    (j : ℕ) → suc j < n → (is_used (entry map j) || is_used (entry map (suc j))) ≡ true

merge-zero : (i : ℕ) (map : List ℕ) → merge_loop zero i map ≡ map
unfolding merge_loop
merge-zero i map = refl

merge-end : (fuel i : ℕ) (map : List ℕ) → length map - 1 ≤ i → merge_loop (suc fuel) i map ≡ map
unfolding merge_loop
merge-end fuel i map h = ground arith

merge-next :
    (fuel j : ℕ) (map : List ℕ)
    → suc j < length map - 1
    → (is_used (entry map j) || is_used (entry map (suc j))) ≡ true
    → merge_loop (suc fuel) (suc j) map ≡ merge_loop fuel (suc (suc j)) map
unfolding merge_loop
merge-next fuel j map h u =
    let e : suc j - 1 ≡ j = omega arith in
    let n : suc j + 1 ≡ suc (suc j) = omega arith in rw (e, n) (ground (arith, u))

merge-drop :
    (fuel j : ℕ) (map : List ℕ)
    → suc j < length map - 1
    → (is_used (entry map j) || is_used (entry map (suc j))) ≡ false
    → merge_loop (suc fuel) (suc j) map ≡ merge_loop fuel (suc j) (without (suc j) map)
unfolding merge_loop
merge-drop fuel j map h u = let e : suc j - 1 ≡ j = omega arith in rw e (ground (arith, u))

or_false : (a b : Bool) → (a || b) ≡ false → (a ≡ false) × (b ≡ false)
or_false a b h = ground arith

pub merge_loop-Agrees :
    (fuel j : ℕ) (map : List ℕ)
    → Ordered map
    → 2 ≤ length map
    → length map ≤ fuel + j
    → MergedBelow map (suc j)
    → let map' = merge_loop fuel (suc j) map in Agrees map map' × MergedBelow map' (length map' - 1)
merge_loop-Agrees zero j map o two h below = rw (merge-zero (suc j) map) (
  record { ordered = o; first = refl; owned_is = λ x. refl; length_le = omega arith; two = two },
  λ k lt. below k (omega arith),
)
merge_loop-Agrees (suc fuel) j map o two h below = elim (dec_lt (suc j) (length map - 1)) [
  | no past ↦ rw (merge-end fuel (suc j) map (omega arith)) (
    record { ordered = o; first = refl; owned_is = λ x. refl; length_le = omega arith; two = two },
    λ k lt. below k (omega arith),
  )
  | yes inner ↦ elim (Bool-cases (is_used (entry map j) || is_used (entry map (suc j)))) [
    | inl u ↦ rw (merge-next fuel j map inner u) (
        merge_loop-Agrees fuel (suc j) map o two (omega arith)
          (λ k lt. elim (ℕ_discrete k j) [ yes same ↦ rw same u | no ne ↦ below k (omega arith) ]))
    | inr u ↦
        let free = or_false (is_used (entry map j)) (is_used (entry map (suc j))) u in
        let s = without-Agrees map j o inner free.0 free.1 in
        let len = length-without map (suc j) (omega arith) in
        let r =
          merge_loop-Agrees fuel j (without (suc j) map) s.ordered s.two (omega (arith, len))
            (λ k lt.
              rw
                (
                  entry-without map (suc j) k (omega arith) (omega arith),
                  entry-without map (suc j) (suc k) (omega arith) (omega arith),
                )
                (below k lt)) in
        rw (merge-drop fuel j map inner u) (Agrees-trans map _ _ s r.0, r.1)
  ]
]
