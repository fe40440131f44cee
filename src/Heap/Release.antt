-- ===== src/Heap/Release.antt =====
-- `release_loop`: a section in use becomes a free one.
use dancy.Base.{
  ℕ, zero, suc, ◌+◌, ◌<◌, ◌≤◌, ◌≡◌, ◌≢◌, ◌∙◌, ap, refl, not, ◌&&◌, arith, List, [], ◌∷◌, set,
  length, ℕ_discrete,
}
use dancy.Heap.{address, entry, release_loop}
use dancy.Heap.Words.{address-IsEntry, address-address, is_used-address}
use dancy.Heap.Sections.{
  Ordered, inside, owned, owned-cons, Before-entry, entry-Before, owned_below, address_mono,
}

-- Section `j` is free now, and nothing else changes.
pub record Clears (map : List ℕ) (j : ℕ) (map' : List ℕ) : Type 0 where
  pub ordered : Ordered map'
  pub first : address (entry map' 0) ≡ address (entry map 0)
  pub length_is : length map' ≡ length map
  pub owned_is :
      (x : ℕ)
      → owned map' x
        ≡ (owned map x && not (inside (address (entry map j)) (address (entry map (suc j))) x))

Clears-here :
    (a : ℕ) (map : List ℕ)
    → Ordered (a ∷ map)
    → 0 < length map
    → Clears (a ∷ map) 0 (address a ∷ map)
Clears-here a map o some = record {
  ordered = (
    address-IsEntry a o.0,
    entry-Before (address a) map (rw (address-address a o.0) (Before-entry a map some o.1)),
    o.2,
  );
  first = address-address a o.0;
  length_is = refl;
  owned_is = λ x.
      owned-cons (address a) map x
      ∙ ground (arith, owned-cons a map x, is_used-address a o.0, owned_below map x o.2);
}

Clears-cons :
    (a : ℕ) (map : List ℕ) (j : ℕ) (map' : List ℕ)
    → Ordered (a ∷ map)
    → 0 < length map
    → address (entry map 0) ≤ address (entry map j)
    → Clears map j map'
    → Clears (a ∷ map) (suc j) (a ∷ map')
Clears-cons a map j map' o some low c = record {
  ordered = (o.0, entry-Before a map' (rw c.first (Before-entry a map some o.1)), c.ordered);
  first = refl;
  length_is = ap suc c.length_is;
  owned_is =
      λ x. owned-cons a map' x ∙ ground (arith, owned-cons a map x, c.owned_is x, c.first, low);
}

low_entry :
    (map : List ℕ) (j : ℕ)
    → j < length map
    → Ordered map
    → address (entry map 0) ≤ address (entry map j)
low_entry map zero h o = omega arith
low_entry map (suc j) h o = omega (arith, address_mono map 0 (suc j) (omega arith) h o)

pub set-Clears :
    (map : List ℕ) (j : ℕ)
    → Ordered map
    → suc j < length map
    → Clears map j (set map j (address (entry map j)))
set-Clears [] j o h = absurd (omega arith)
set-Clears (a ∷ map) zero o h = Clears-here a map o (omega arith)
set-Clears (a ∷ map) (suc j) o h =
    Clears-cons a map j _ o (omega arith) (low_entry map j (omega arith) o.2)
      (set-Clears map j o.2 (omega arith))

-- The loop clears the first entry among those from `i` on that is `a`, if there is one.
pub data Releases (map : List ℕ) (n i a : ℕ) (map' : List ℕ) : Type 0 where
  none_there :
      map' ≡ map → ((j : ℕ) → i ≤ j → j < i + n → entry map j ≢ a) → Releases map n i a map'
  cleared :
      (j : ℕ)
      → map' ≡ set map j (address (entry map j))
      → i ≤ j
      → j < i + n
      → entry map j ≡ a
      → Releases map n i a map'

release-hit :
    (n i a : ℕ) (map : List ℕ)
    → entry map i ≡ a
    → release_loop (suc n) i a map ≡ set map i (address (entry map i))
unfolding release_loop
release-hit n i a map e = ground (arith, e)

release-miss :
    (n i a : ℕ) (map : List ℕ)
    → entry map i ≢ a
    → release_loop (suc n) i a map ≡ release_loop n (i + 1) a map
unfolding release_loop
release-miss n i a map ne = ground (arith, ne)

later :
    (map : List ℕ) (n i a : ℕ) (map' : List ℕ)
    → entry map i ≢ a
    → Releases map n (i + 1) a map'
    → Releases map (suc n) i a map'
later map n i a map' ne (none_there e all) = none_there e (λ j lo hi. elim (ℕ_discrete j i) [
  | yes same ↦ rw same ne
  | no other ↦ all j (omega arith) (omega arith)
])
later map n i a map' ne (cleared j e lo hi is_a) = cleared j e (omega arith) (omega arith) is_a

pub release_loop-Releases : (n i a : ℕ) (map : List ℕ) → Releases map n i a (release_loop n i a map)
release_loop-Releases zero i a map =
    unfold release_loop in none_there refl (λ j lo hi. absurd (omega arith))
release_loop-Releases (suc n) i a map = elim (ℕ_discrete (entry map i) a) [
  | yes e ↦ rw (release-hit n i a map e) (cleared i refl (omega arith) (omega arith) e)
  | no ne ↦
      rw (release-miss n i a map ne) (later map n i a _ ne (release_loop-Releases n (i + 1) a map))
]
