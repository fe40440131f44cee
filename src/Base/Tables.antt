-- ===== src/Base/Tables.antt =====
-- Checks of a finite range by evaluation.
use dancy.Base.{ℕ, zero, suc, ◌<◌, ◌≡◌, ◌↔◌, refl, Bool, true, ◌&&◌, arith, ℕ_discrete}

-- Whether the test holds at each number below the bound.
unfoldable pub every_below : ℕ → (ℕ → Bool) → Bool
every_below zero test = true
every_below (suc bound) test = every_below bound test && test bound

every_below-suc :
    (bound : ℕ) (test : ℕ → Bool)
    → (every_below (suc bound) test ≡ true)
      ↔ ((every_below bound test ≡ true) × (test bound ≡ true))
unfolding every_below
every_below-suc bound test = (λ e. ground arith, λ e. ground arith)

pub every_below_at :
    (bound : ℕ) (test : ℕ → Bool) (i : ℕ)
    → every_below bound test ≡ true
    → i < bound
    → test i ≡ true
every_below_at zero test i all h = absurd (omega arith)
every_below_at (suc bound) test i all h =
    let both = (every_below-suc bound test).0 all in
    elim (ℕ_discrete i bound) [
      | yes last ↦ rw last both.1
      | no ne ↦ every_below_at bound test i both.0 (omega arith)
    ]

pub every_below_of :
    (bound : ℕ) (test : ℕ → Bool)
    → ((i : ℕ) → i < bound → test i ≡ true)
    → every_below bound test ≡ true
every_below_of zero test at = unfold every_below in refl
every_below_of (suc bound) test at =
    (every_below-suc bound test).1
      (every_below_of bound test (λ i h. at i (omega arith)), at bound (omega arith))
