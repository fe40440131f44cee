-- ===== src/Mtx/Array.antt =====
-- `mtx_init` on the array.
use dancy.Base.{
  ℕ, zero, suc, ◌≡◌, ◌≢◌, ◌<◌, refl, ap, ◌∙◌, true, false, List, [], ◌∷◌, set, length,
  if◌then◌else◌, ◌==◌, arith, Option, none, some, Bool-cases, inl, inr,
}
use dancy.Mtx.{BaseMtx, Thrd, success, error, element, next, init_loop, mtx_init}

pub element-set :
    (array : List BaseMtx) (i j : ℕ) (m : BaseMtx)
    → i < length array
    → element (set array i m) j ≡ (if i == j then m else element array j)
element-set [] i j m h = absurd (omega arith)
element-set (a ∷ array) zero zero m h = ground arith
element-set (a ∷ array) zero (suc j) m h = ground arith
element-set (a ∷ array) (suc i) zero m h = ground arith
element-set (a ∷ array) (suc i) (suc j) m h = element-set array i j m (omega arith) ∙ ground arith

pub element-set_ne :
    (array : List BaseMtx) (i j : ℕ) (m : BaseMtx)
    → i ≢ j
    → element (set array i m) j ≡ element array j
element-set_ne [] i j m h = refl
element-set_ne (a ∷ array) zero zero m h = absurd (h refl)
element-set_ne (a ∷ array) zero (suc j) m h = refl
element-set_ne (a ∷ array) (suc i) zero m h = refl
element-set_ne (a ∷ array) (suc i) (suc j) m h = element-set_ne array i j m (λ e. h (ap suc e))

-- A new mutex: the first element that was not in use is, with its lock free, and no other changes.
pub data Makes (mtx : Option ℕ) (array : List BaseMtx) (r : Thrd × Option ℕ × List BaseMtx)
    : Type 0 where
  no_element :
      r ≡ (error, mtx, array)
      → ((j : ℕ) → j < length array → (element array j).init ≡ true)
      → Makes mtx array r
  made :
      (i : ℕ)
      → r ≡ (success, some i, set array i (record { init = true; lock = false; yield = false }))
      → i < length array
      → (element array i).init ≡ false
      → ((j : ℕ) → j < i → (element array j).init ≡ true)
      → Makes mtx array r

init-free :
    (m : BaseMtx) (array : List BaseMtx)
    → m.init ≡ false
    → init_loop (m ∷ array) ≡ (some 0, record { init = true; lock = false; yield = false } ∷ array)
unfolding init_loop
init-free m array e = rw e

init-used :
    (m : BaseMtx) (array : List BaseMtx)
    → m.init ≡ true
    → init_loop (m ∷ array) ≡ (next (init_loop array).0, m ∷ (init_loop array).1)
unfolding init_loop
init-used m array e = rw e

-- What the loop finds.
data Finds (array : List BaseMtx) (r : Option ℕ × List BaseMtx) : Type 0 where
  all_used :
      r ≡ (none, array)
      → ((j : ℕ) → j < length array → (element array j).init ≡ true)
      → Finds array r
  free_one :
      (i : ℕ)
      → r ≡ (some i, set array i (record { init = true; lock = false; yield = false }))
      → i < length array
      → (element array i).init ≡ false
      → ((j : ℕ) → j < i → (element array j).init ≡ true)
      → Finds array r

below_suc :
    (m : BaseMtx) (array : List BaseMtx) (n : ℕ)
    → m.init ≡ true
    → ((j : ℕ) → j < n → (element array j).init ≡ true)
    → (j : ℕ) → j < suc n
    → (element (m ∷ array) j).init ≡ true
below_suc m array n u all zero h = u
below_suc m array n u all (suc j) h = all j (omega arith)

one_more :
    (m : BaseMtx) (array : List BaseMtx) (r : Option ℕ × List BaseMtx)
    → m.init ≡ true
    → Finds array r
    → Finds (m ∷ array) (next r.0, m ∷ r.1)
one_more m array r u (all_used e all) =
    rw e (all_used refl (below_suc m array (length array) u all))
one_more m array r u (free_one i e lt f all) =
    rw e (free_one (suc i) refl (omega arith) f (below_suc m array i u all))

init_loop-Finds : (array : List BaseMtx) → Finds array (init_loop array)
init_loop-Finds [] = unfold init_loop in all_used refl (λ j h. absurd (omega arith))
init_loop-Finds (m ∷ array) = elim (Bool-cases m.init) [
  | inl u ↦ rw (init-used m array u) (one_more m array _ u (init_loop-Finds array))
  | inr f ↦ rw (init-free m array f) (free_one 0 refl (omega arith) f (λ j h. absurd (omega arith)))
]

-- The end of `mtx_init`.
abbrev finish : Option ℕ → List BaseMtx → Option ℕ × List BaseMtx → Thrd × Option ℕ × List BaseMtx
finish mtx array r = elim (r.0) [ none ↦ (error, mtx, array) | some i ↦ (success, some i, r.1) ]

init-eq :
    (mtx : Option ℕ) (array : List BaseMtx)
    → mtx_init false true mtx array ≡ finish mtx array (init_loop array)
unfolding mtx_init
init-eq mtx array = refl

made_cases :
    (mtx : Option ℕ) (array : List BaseMtx)
    → Finds array (init_loop array)
    → Makes mtx array (mtx_init false true mtx array)
made_cases mtx array (all_used e all) = no_element (init-eq mtx array ∙ ap (finish mtx array) e) all
made_cases mtx array (free_one i e lt f all) =
    made i (init-eq mtx array ∙ ap (finish mtx array) e) lt f all

-- `mtx_init` for a plain mutex takes the first element of the array that is not in use, with its lock free, and
-- changes no other; it returns an error and changes nothing just when all elements are in use.
pub mtx_init-Makes :
    (mtx : Option ℕ) (array : List BaseMtx) → Makes mtx array (mtx_init false true mtx array)
mtx_init-Makes mtx array = made_cases mtx array (init_loop-Finds array)
