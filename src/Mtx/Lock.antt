-- ===== src/Mtx/Lock.antt =====
-- `mtx_lock` under many tasks.
use dancy.Base.{ℕ, zero, suc, ◌+◌, ◌<◌, ◌≡◌, true, List, Option, none, some}
use dancy.Mtx.{BaseMtx, Thrd, success, element, Others, lock_attempt}
use dancy.Mtx.Steps.{Trace}
use dancy.Mtx.Exclusion.{IsHeld}

-- The array before attempt `m`, counted from attempt `n`.
unfoldable pub seen : Others → ℕ → ℕ → List BaseMtx → ℕ → List BaseMtx
seen others n k array zero = array
seen others n k array (suc m) = seen others (n + 1) k (others n (lock_attempt k array).1) m

-- What other tasks do between two attempts goes on with a trace.
abbrev pub Respects : ℕ → Others → Type 0
Respects k others =
    (n : ℕ) (array : List BaseMtx) (held : ℕ)
    → Trace k array held
    → (held' : ℕ) × Trace k (others n array) held'

data LoopEnds (k fuel n : ℕ) (others : Others) (array : List BaseMtx) (r : Option (List BaseMtx))
    : Type 0 where
  taken_at_last :
      (array' : List BaseMtx)
      → r ≡ some array'
      → Trace k array' 1
      → LoopEnds k fuel n others array r
  always_locked :
      r ≡ none
      → ((m : ℕ) → m < fuel → (element (seen others n k array m) k).lock ≡ true)
      → LoopEnds k fuel n others array r

-- What `mtx_lock` has done: this task holds the mutex, and no other one; or, after all attempts, the lock has
-- been set at each of them.
pub data Locks (k fuel : ℕ) (others : Others) (array : List BaseMtx)
    (r : Option (Thrd × List BaseMtx)) : Type 0 where
  got_lock :
      (array' : List BaseMtx)
      → r ≡ some (success, array')
      → Trace k array' 1
      → IsHeld k array' 1
      → Locks k fuel others array r
  still_waits :
      r ≡ none
      → ((m : ℕ) → m < fuel → (element (seen others 0 k array m) k).lock ≡ true)
      → Locks k fuel others array r
