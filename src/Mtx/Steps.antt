-- ===== src/Mtx/Steps.antt =====
-- What many tasks do with the mutexes, step by step.
use dancy.Base.{
  ℕ, suc, ◌≡◌, ◌≢◌, Option, refl, ap, sym, ◌∙◌, Bool, true, false, List, set, length, length-set,
  some, Bool-cases, inl, inr,
}
use dancy.Mtx.{
  BaseMtx, Thrd, success, busy, element, mtx_init, mtx_destroy, lock_attempt, mtx_trylock,
  mtx_unlock,
}
use dancy.Mtx.Array.{element-set_ne, Makes, no_element, made, mtx_init-Makes}

-- What is done to other mutexes, or by `mtx_init` for a new one.
pub data Elsewhere (k : ℕ) : List BaseMtx → List BaseMtx → Type 0 where
  inits :
      (null plain : Bool) (mtx : Option ℕ) (array : List BaseMtx)
      → Elsewhere k array (mtx_init null plain mtx array).2
  destroys : (j : ℕ) (array : List BaseMtx) → j ≢ k → Elsewhere k array (mtx_destroy (some j) array)
  attempts : (j : ℕ) (array : List BaseMtx) → j ≢ k → Elsewhere k array (lock_attempt j array).1
  tries :
      (interrupts : Bool) (j : ℕ) (array : List BaseMtx)
      → j ≢ k
      → Elsewhere k array (mtx_trylock interrupts (some j) array).1
  unlocks : (j : ℕ) (array : List BaseMtx) → j ≢ k → Elsewhere k array (mtx_unlock (some j) array).2

-- What tasks do from the `mtx_init` that gave mutex `k` on, until it is destroyed, and how many of them hold it: a
-- task frees the mutex only if it holds it. An attempt is a round of the loop of `mtx_lock`.
pub data Trace (k : ℕ) : List BaseMtx → ℕ → Type 0 where
  begun :
      (mtx : Option ℕ) (before array : List BaseMtx)
      → mtx_init false true mtx before ≡ (success, some k, array)
      → Trace k array 0
  locked :
      (array array' : List BaseMtx) (n : ℕ)
      → Trace k array n
      → lock_attempt k array ≡ (true, array')
      → Trace k array' (suc n)
  waited :
      (array array' : List BaseMtx) (n : ℕ)
      → Trace k array n
      → lock_attempt k array ≡ (false, array')
      → Trace k array' n
  taken :
      (array array' : List BaseMtx) (n : ℕ)
      → Trace k array n
      → mtx_trylock true (some k) array ≡ (success, array')
      → Trace k array' (suc n)
  tried :
      (array array' : List BaseMtx) (n : ℕ)
      → Trace k array n
      → mtx_trylock true (some k) array ≡ (busy, array')
      → Trace k array' n
  freed :
      (array array' : List BaseMtx) (n : ℕ) (yield : Bool)
      → Trace k array (suc n)
      → mtx_unlock (some k) array ≡ (success, yield, array')
      → Trace k array' n
  other :
      (array array' : List BaseMtx) (n : ℕ)
      → Trace k array n
      → Elsewhere k array array'
      → Trace k array' n

-- Element `k`, where it is in use, is as it was.
pub record Same (k : ℕ) (array array' : List BaseMtx) : Type 0 where
  pub length_is : length array' ≡ length array
  pub element_is : element array' k ≡ element array k

set-Same : (k j : ℕ) (array : List BaseMtx) (m : BaseMtx) → j ≢ k → Same k array (set array j m)
set-Same k j array m ne = record {
  length_is = length-set array j m;
  element_is = element-set_ne array j k m ne;
}

Makes-Same :
    (k : ℕ) (mtx : Option ℕ) (array : List BaseMtx) (r : Thrd × Option ℕ × List BaseMtx)
    → (element array k).init ≡ true
    → Makes mtx array r
    → Same k array r.2
Makes-Same k mtx array r used (no_element e all) =
    rw e (record { length_is = refl; element_is = refl })
Makes-Same k mtx array r used (made i e lt f all) = rw e (set-Same k i array _ differ)
  where
    differ : i ≢ k
    differ same = absurd (clash (sym used ∙ ap (λ j. (element array j).init) (sym same) ∙ f))
      where
        clash : ¬ (true ≡ false)
        clash e' = cc

pub attempt_free :
    (k : ℕ) (array : List BaseMtx)
    → (element array k).lock ≡ false
    → lock_attempt k array ≡ (true, set array k (record (element array k) { lock = true }))
unfolding lock_attempt
attempt_free k array e = rw e

pub attempt_busy :
    (k : ℕ) (array : List BaseMtx)
    → (element array k).lock ≡ true
    → lock_attempt k array ≡ (false, set array k (record (element array k) { yield = true }))
unfolding lock_attempt
attempt_busy k array e = rw e

pub try_free :
    (k : ℕ) (array : List BaseMtx)
    → (element array k).lock ≡ false
    → mtx_trylock true (some k) array
      ≡ (success, set array k (record (element array k) { lock = true }))
unfolding mtx_trylock
try_free k array e = rw e

pub try_busy :
    (k : ℕ) (array : List BaseMtx)
    → (element array k).lock ≡ true
    → mtx_trylock true (some k) array ≡ (busy, array)
unfolding mtx_trylock
try_busy k array e = rw e

attempt-Same : (k j : ℕ) (array : List BaseMtx) → j ≢ k → Same k array (lock_attempt j array).1
attempt-Same k j array ne = elim (Bool-cases (element array j).lock) [
  | inl l ↦ rw (attempt_busy j array l) (set-Same k j array _ ne)
  | inr l ↦ rw (attempt_free j array l) (set-Same k j array _ ne)
]

try-Same :
    (k j : ℕ) (interrupts : Bool) (array : List BaseMtx)
    → j ≢ k
    → Same k array (mtx_trylock interrupts (some j) array).1
unfolding mtx_trylock
try-Same k j false array ne = record { length_is = refl; element_is = refl }
try-Same k j true array ne = elim (Bool-cases (element array j).lock) [
  | inl l ↦ rw (try_busy j array l) (record { length_is = refl; element_is = refl })
  | inr l ↦ rw (try_free j array l) (set-Same k j array _ ne)
]

pub Elsewhere-Same :
    (k : ℕ) (array array' : List BaseMtx)
    → (element array k).init ≡ true
    → Elsewhere k array array'
    → Same k array array'
unfolding mtx_init mtx_destroy mtx_unlock
Elsewhere-Same k array after used (inits false true mtx before) =
    Makes-Same k mtx array _ used (mtx_init-Makes mtx array)
Elsewhere-Same k array after used (inits false false mtx before) = record {
  length_is = refl;
  element_is = refl;
}
Elsewhere-Same k array after used (inits true plain mtx before) = record {
  length_is = refl;
  element_is = refl;
}
Elsewhere-Same k array after used (destroys j before ne) = set-Same k j array _ ne
Elsewhere-Same k array after used (attempts j before ne) = attempt-Same k j array ne
Elsewhere-Same k array after used (tries interrupts j before ne) = try-Same k j interrupts array ne
Elsewhere-Same k array after used (unlocks j before ne) = set-Same k j array _ ne
