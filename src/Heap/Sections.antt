-- ===== src/Heap/Sections.antt =====
-- The map of heap.c as sections in order, and what it says of an address.
use dancy.Base.{
  ℕ, zero, suc, ◌<◌, ◌≡◌, ◌∙◌, refl, Bool, false, ◌&&◌, ◌||◌, leb, ltb, arith, List, [], ◌∷◌,
  length,
}
use dancy.Heap.{is_used, address, entry}
use dancy.Heap.Words.{IsEntry}

abbrev pub Before : ℕ → List ℕ → Type 0
Before a [] = Unit
Before a (b ∷ map) = address a < address b

abbrev pub Ordered : List ℕ → Type 0
Ordered [] = Unit
Ordered (a ∷ map) = IsEntry a × Before a map × Ordered map

abbrev pub inside : ℕ → ℕ → ℕ → Bool
inside lo hi x = leb lo x && ltb x hi

-- The address is in a section that is in use.
unfoldable pub owned : List ℕ → ℕ → Bool
owned [] x = false
owned (a ∷ map) x = (is_used a && inside (address a) (address (entry map 0)) x) || owned map x

pub owned-cons :
    (a : ℕ) (map : List ℕ) (x : ℕ)
    → owned (a ∷ map) x
      ≡ ((is_used a && inside (address a) (address (entry map 0)) x) || owned map x)
unfolding owned
owned-cons a map x = refl

pub Before-entry :
    (a : ℕ) (map : List ℕ) → 0 < length map → Before a map → address a < address (entry map 0)
Before-entry a [] h b = absurd (omega arith)
Before-entry a (c ∷ map) h b = b

pub entry-Before : (a : ℕ) (map : List ℕ) → address a < address (entry map 0) → Before a map
entry-Before a [] h = tt
entry-Before a (c ∷ map) h = h

pub entry-IsEntry : (map : List ℕ) (j : ℕ) → j < length map → Ordered map → IsEntry (entry map j)
entry-IsEntry [] j h o = absurd (omega arith)
entry-IsEntry (a ∷ map) zero h o = o.0
entry-IsEntry (a ∷ map) (suc j) h o = entry-IsEntry map j (omega arith) o.2

pub address_mono :
    (map : List ℕ) (i j : ℕ)
    → i < j
    → j < length map
    → Ordered map
    → address (entry map i) < address (entry map j)
address_mono [] i j lt h o = absurd (omega arith)
address_mono (a ∷ map) i zero lt h o = absurd (omega arith)
address_mono (a ∷ map) zero (suc zero) lt h o = Before-entry a map (omega arith) o.1
address_mono (a ∷ map) zero (suc (suc j)) lt h o = omega (
  arith,
  Before-entry a map (omega arith) o.1,
  address_mono map 0 (suc j) (omega arith) (omega arith) o.2,
)
address_mono (a ∷ map) (suc i) (suc j) lt h o = address_mono map i j (omega arith) (omega arith) o.2

-- Below the first section, nothing is owned.
pub owned_below :
    (map : List ℕ) (x : ℕ) → Ordered map → x < address (entry map 0) → owned map x ≡ false
owned_below [] x o h = unfold owned in refl
owned_below (a ∷ []) x o h = unfold owned in ground arith
owned_below (a ∷ (b ∷ map)) x o h =
    owned-cons a (b ∷ map) x ∙ ground (arith, owned_below (b ∷ map) x o.2 (omega (arith, o.1)))
