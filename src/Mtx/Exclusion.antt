-- ===== src/Mtx/Exclusion.antt =====
-- A mutex under many tasks.
use dancy.Base.{
  ℕ, suc, ◌≡◌, Option, ◌<◌, ◌≤◌, refl, ap, sym, ◌∙◌, true, false, List, set, length, length-set,
  ◌==◌, arith, some, Bool-cases, inl, inr,
}
use dancy.Mtx.{BaseMtx, Thrd, success, busy, error, element, lock_attempt, mtx_trylock, mtx_unlock}
use dancy.Mtx.Array.{element-set, Makes, no_element, made, mtx_init-Makes}
use dancy.Mtx.Steps.{
  Trace, begun, locked, waited, taken, tried, freed, other, Elsewhere-Same, attempt_free,
  attempt_busy, try_free, try_busy,
}

-- The mutex is in use, and the lock is set just when one task holds it.
pub record IsHeld (k : ℕ) (array : List BaseMtx) (n : ℕ) : Type 0 where
  pub inside : k < length array
  pub in_use : (element array k).init ≡ true
  pub at_most_one : n ≤ 1
  pub lock_is : (element array k).lock ≡ (n == 1)

unlock-eq :
    (k : ℕ) (array : List BaseMtx)
    → mtx_unlock (some k) array ≡ (
      success,
      (element array k).yield,
      set array k (record (element array k) { lock = false; yield = false }),
    )
unfolding mtx_unlock
unlock-eq k array = refl

-- After element `k` is stored.
stored :
    (k : ℕ) (array : List BaseMtx) (n : ℕ) (m : BaseMtx)
    → k < length array
    → m.init ≡ true
    → n ≤ 1
    → m.lock ≡ (n == 1)
    → IsHeld k (set array k m) n
stored k array n m h u le e = record {
  inside = omega (arith, length-set array k m, h);
  in_use = ap (λ a. a.init) (element-set array k k m h) ∙ ground (arith, u);
  at_most_one = le;
  lock_is = ap (λ a. a.lock) (element-set array k k m h) ∙ ground (arith, e);
}

after_try :
    (k : ℕ) (array array' : List BaseMtx) (n : ℕ)
    → IsHeld k array n
    → mtx_trylock true (some k) array ≡ (success, array')
    → IsHeld k array' (suc n)
after_try k array array' n h e = elim (Bool-cases (element array k).lock) [
  | inl l ↦ absurd (clash (ap (λ r. r.0) (sym (try_busy k array l) ∙ e)))
  | inr l ↦
      let same = ap (λ r. r.1) (sym (try_free k array l) ∙ e) in
      let none_holds : n ≡ 0 = ground (arith, h.lock_is, h.at_most_one, l) in
      rw (← same, none_holds) (stored k array 1 _ h.inside h.in_use (omega arith) refl)
]
  where
    clash : ¬ (busy ≡ success)
    clash e = cc

after_busy :
    (k : ℕ) (array array' : List BaseMtx) (n : ℕ)
    → IsHeld k array n
    → mtx_trylock true (some k) array ≡ (busy, array')
    → IsHeld k array' n
after_busy k array array' n h e = elim (Bool-cases (element array k).lock) [
  | inl l ↦ let same = ap (λ r. r.1) (sym (try_busy k array l) ∙ e) in rw (← same) h
  | inr l ↦ absurd (clash (ap (λ r. r.0) (sym (try_free k array l) ∙ e)))
]
  where
    clash : ¬ (success ≡ busy)
    clash e = cc

after_lock :
    (k : ℕ) (array array' : List BaseMtx) (n : ℕ)
    → IsHeld k array n
    → lock_attempt k array ≡ (true, array')
    → IsHeld k array' (suc n)
after_lock k array array' n h e = elim (Bool-cases (element array k).lock) [
  | inl l ↦ absurd (clash (ap (λ r. r.0) (sym (attempt_busy k array l) ∙ e)))
  | inr l ↦
      let same = ap (λ r. r.1) (sym (attempt_free k array l) ∙ e) in
      let none_holds : n ≡ 0 = ground (arith, h.lock_is, h.at_most_one, l) in
      rw (← same, none_holds) (stored k array 1 _ h.inside h.in_use (omega arith) refl)
]
  where
    clash : ¬ (false ≡ true)
    clash e = cc

after_wait :
    (k : ℕ) (array array' : List BaseMtx) (n : ℕ)
    → IsHeld k array n
    → lock_attempt k array ≡ (false, array')
    → IsHeld k array' n
after_wait k array array' n h e = elim (Bool-cases (element array k).lock) [
  | inl l ↦
      let same = ap (λ r. r.1) (sym (attempt_busy k array l) ∙ e) in
      rw (← same) (stored k array n _ h.inside h.in_use h.at_most_one h.lock_is)
  | inr l ↦ absurd (clash (ap (λ r. r.0) (sym (attempt_free k array l) ∙ e)))
]
  where
    clash : ¬ (true ≡ false)
    clash e = cc

some_injective : (i j : ℕ) → some i ≡ some j → i ≡ j
some_injective i j e = cc

new_IsHeld :
    (k : ℕ) (mtx : Option ℕ) (before array : List BaseMtx) (r : Thrd × Option ℕ × List BaseMtx)
    → Makes mtx before r
    → r ≡ (success, some k, array)
    → IsHeld k array 0
new_IsHeld k mtx before array r (no_element e all) e' = absurd (clash (ap (λ t. t.0) (sym e ∙ e')))
  where
    clash : ¬ (error ≡ success)
    clash e'' = cc
new_IsHeld k mtx before array r (made i e lt f all) e' =
    let same : i ≡ k = some_injective i k (ap (λ t. t.1) (sym e ∙ e')) in
    let is = ap (λ t. t.2) (sym e ∙ e') in
    rw (← is, ← same) (stored i before 0 _ lt refl (omega arith) refl)

-- Whatever tasks do with mutex `k` from the `mtx_init` that gave it on, until it is destroyed, by the rounds of
-- `mtx_lock`, by `mtx_trylock` and by `mtx_unlock`, with interrupts enabled, and whatever they do with other
-- mutexes, new ones included, if only those free mutex `k` that hold it: at most one task holds it, and its lock
-- is set just then.
pub Trace-IsHeld : (k : ℕ) (array : List BaseMtx) (n : ℕ) → Trace k array n → IsHeld k array n
Trace-IsHeld k array n (begun mtx before start e) =
    new_IsHeld k mtx before start _ (mtx_init-Makes mtx before) e
Trace-IsHeld k array n (locked before after held t e) =
    after_lock k before after held (Trace-IsHeld k before held t) e
Trace-IsHeld k array n (waited before after held t e) =
    after_wait k before after held (Trace-IsHeld k before held t) e
Trace-IsHeld k array n (taken before after held t e) =
    after_try k before after held (Trace-IsHeld k before held t) e
Trace-IsHeld k array n (tried before after held t e) =
    after_busy k before after held (Trace-IsHeld k before held t) e
Trace-IsHeld k array n (other before after held t step) =
    let h = Trace-IsHeld k before held t in
    let same = Elsewhere-Same k before after h.in_use step in
    record {
      inside = omega (arith, same.length_is, h.inside);
      in_use = ap (λ m. m.init) same.element_is ∙ h.in_use;
      at_most_one = h.at_most_one;
      lock_is = ap (λ m. m.lock) same.element_is ∙ h.lock_is;
    }
Trace-IsHeld k array n (freed before after held yield t e) =
    let h = Trace-IsHeld k before (suc held) t in
    let same = ap (λ r. r.2) (sym (unlock-eq k before) ∙ e) in
    rw (← same) (
      stored k before held _ h.inside h.in_use (omega (arith, h.at_most_one))
        (ground (arith, h.at_most_one)))
