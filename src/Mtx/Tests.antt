-- ===== src/Mtx/Tests.antt =====
-- Runs of mtx.c, and its properties at an array.
use dancy.Base.{◌≡◌, refl, true, false, List, [], ◌∷◌, if◌then◌else◌, some, none}
use dancy.Mtx.{BaseMtx, success, element, Others, lock_attempt, lock_loop, mtx_lock, mtx_unlock}

abbrev two_elements : List BaseMtx
two_elements =
    record { init = true; lock = false; yield = false }
    ∷ record { init = false; lock = true; yield = false }
    ∷ []

abbrev new_mutex : List BaseMtx
new_mutex =
    record { init = true; lock = false; yield = false }
    ∷ record { init = true; lock = false; yield = false }
    ∷ []

abbrev held_mutex : List BaseMtx
held_mutex =
    record { init = true; lock = false; yield = false }
    ∷ record { init = true; lock = true; yield = false }
    ∷ []

-- The holder frees the mutex in the first wait.
abbrev others : Others
others n array = if (element array 1).lock then (mtx_unlock (some 1) array).2 else array

lock_run : mtx_lock others 2 true (some 1) held_mutex ≡ some (success, held_mutex)
unfolding mtx_lock lock_loop lock_attempt mtx_unlock
lock_run = refl

wait_run : mtx_lock (λ n array. array) 5 true (some 1) held_mutex ≡ none
unfolding mtx_lock lock_loop lock_attempt
wait_run = refl
