-- ===== src/Mtx.antt =====
-- kernel/base/mtx.c: the mutexes of the kernel in their array. A spin lock of another file is taken by
-- testing and setting its word at once, and freed by clearing it. A `mtx_t` is the number of its element of
-- the array, `none` is a null pointer, and `interrupts` is the interrupt flag of the processor.
-- `mtx_init` and `mtx_unlock` are one step each.
pub mod Array
pub mod Steps
pub mod Exclusion
pub mod Lock
mod Tests
use dancy.Base.{
  ℕ, zero, suc, ◌+◌, Bool, true, false, not, ◌||◌, List, [], ◌∷◌, get_or, set, if◌then◌else◌,
  Option, none, some,
}

-- `struct base_mtx`, with the words as Booleans.
pub record BaseMtx : Type 0 where
  pub init : Bool
  pub lock : Bool
  pub yield : Bool

pub data Thrd : Type 0 where
  success busy error : Thrd

abbrev pub element : List BaseMtx → ℕ → BaseMtx
element array i = get_or array i (record { init = false; lock = false; yield = false })

unfoldable pub mtx_destroy : Option ℕ → List BaseMtx → List BaseMtx
mtx_destroy none array = array
mtx_destroy (some i) array = set array i (record (element array i) { init = false })

abbrev pub next : Option ℕ → Option ℕ
next none = none
next (some i) = some (suc i)

-- The loop of `mtx_init`: the element that was free, and the array.
unfoldable pub init_loop : List BaseMtx → Option ℕ × List BaseMtx
init_loop [] = (none, [])
init_loop (m ∷ array) =
    let rest = init_loop array in
    if not m.init
    then (some 0, record { init = true; lock = false; yield = false } ∷ array)
    else (next rest.0, m ∷ rest.1)

-- The return value, `*mtx` and the array; `null` says that `mtx` is NULL, `plain` that the type is
-- `mtx_plain`, and `mtx` is `*mtx` before.
unfoldable pub mtx_init : Bool → Bool → Option ℕ → List BaseMtx → Thrd × Option ℕ × List BaseMtx
mtx_init null plain mtx array =
    let r = init_loop array in
    if null || not plain
    then (error, mtx, array)
    else elim (r.0) [ none ↦ (error, mtx, array) | some i ↦ (success, some i, r.1) ]

unfoldable pub mtx_trylock : Bool → Option ℕ → List BaseMtx → Thrd × List BaseMtx
mtx_trylock interrupts none array = (error, array)
mtx_trylock interrupts (some i) array =
    if not interrupts
    then (error, array)
    else if (element array i).lock
    then (busy, array)
    else (success, set array i (record (element array i) { lock = true }))

-- What happens from one attempt to the next, while the task waits for the lock to be free; the number of
-- the attempt is passed too.
abbrev pub Others : Type 0
Others = ℕ → List BaseMtx → List BaseMtx

-- A round of the loop of `mtx_lock` up to the wait: whether the lock is taken; where it is not, the word says
-- that a task waits.
unfoldable pub lock_attempt : ℕ → List BaseMtx → Bool × List BaseMtx
lock_attempt i array =
    if (element array i).lock
    then (false, set array i (record (element array i) { yield = true }))
    else (true, set array i (record (element array i) { lock = true }))

-- The loop from attempt `n` on; `none` if it still waits after `fuel` attempts.
unfoldable pub lock_loop : Others → ℕ → ℕ → ℕ → List BaseMtx → Option (List BaseMtx)
lock_loop others zero n i array = none
lock_loop others (suc fuel) n i array =
    let r = lock_attempt i array in
    elim (r.0) [ true ↦ some r.1 | false ↦ lock_loop others fuel (n + 1) i (others n r.1) ]

unfoldable pub mtx_lock : Others → ℕ → Bool → Option ℕ → List BaseMtx → Option (Thrd × List BaseMtx)
mtx_lock others fuel interrupts none array = some (error, array)
mtx_lock others fuel interrupts (some i) array =
    if not interrupts then some (error, array) else elim (lock_loop others fuel 0 i array) [
      | none ↦ none
      | some array' ↦ some (success, array')
    ]

-- The return value, whether `task_yield` is called, and the array.
unfoldable pub mtx_unlock : Option ℕ → List BaseMtx → Thrd × Bool × List BaseMtx
mtx_unlock none array = (error, false, array)
mtx_unlock (some i) array = (
  success,
  (element array i).yield,
  set array i (record (element array i) { lock = false; yield = false }),
)
