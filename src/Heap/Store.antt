-- ===== src/Heap/Store.antt =====
-- `store_entry`: a part of a free section becomes a section in use.
use dancy.Base.{
  ℕ, zero, suc, ◌-◌, ◌%◌, ◌^◌, ◌<◌, ◌≤◌, ◌≡◌, ◌∙◌, refl, Bool, true, false, not, ◌||◌, ◌==◌, arith,
  List, [], ◌∷◌, ◌++◌, take, drop, set, length,
}
use dancy.Heap.{is_used, address, entry, used_entry, store_entry}
use dancy.Heap.Words.{
  address_of_free, used_entry-IsEntry, address-used_entry, is_used-used_entry, address-lt,
}
use dancy.Heap.Sections.{
  Ordered, inside, owned, owned-cons, Before-entry, entry-Before, owned_below, entry-IsEntry,
}

-- The addresses from `addr` up to `e` were in no section in use, and are now one; nothing else changes.
pub record Stores (map : List ℕ) (addr e : ℕ) (map' : List ℕ) : Type 0 where
  pub ordered : Ordered map'
  pub first : address (entry map' 0) ≡ address (entry map 0)
  pub owned_is : (x : ℕ) → owned map' x ≡ (owned map x || inside addr e x)
  pub free_before : (x : ℕ) → inside addr e x ≡ true → owned map x ≡ false
  pub length_le : length map' ≤ suc (length map)
  pub place : ℕ
  pub place_lt : suc place < length map'
  pub entry_is : entry map' place ≡ used_entry addr
  pub start_is : address (entry map' place) ≡ addr
  pub end_is : address (entry map' (suc place)) ≡ e

store-insert :
    (i addr : ℕ) (map : List ℕ)
    → store_entry i addr true map ≡ take i map ++ (used_entry addr ∷ drop i map)
unfolding store_entry
store-insert i addr map = refl

store-set :
    (i addr : ℕ) (map : List ℕ) → store_entry (suc i) addr false map ≡ set map i (used_entry addr)
unfolding store_entry
store-set i addr map = let e : suc i - 1 ≡ i = omega arith in rw e

store-cons :
    (j addr : ℕ) (ins : Bool) (a : ℕ) (map : List ℕ)
    → store_entry (suc (suc j)) addr ins (a ∷ map) ≡ (a ∷ store_entry (suc j) addr ins map)
store-cons j addr true a map =
    rw (store-insert (suc (suc j)) addr (a ∷ map), store-insert (suc j) addr map)
store-cons j addr false a map = rw (store-set (suc j) addr (a ∷ map), store-set j addr map)

module _ (a b : ℕ) (m : List ℕ) (addr : ℕ) (o : Ordered (a ∷ (b ∷ m))) (free : is_used a ≡ false)
    (lo : address a ≤ addr) (hi : addr < address b) (al : addr % 16 ≡ 0) where
  small : addr < 2 ^ 32
  small = omega (arith, address-lt b (o.2).0)

  free_here : (x : ℕ) → inside addr (address b) x ≡ true → owned (a ∷ (b ∷ m)) x ≡ false
  free_here x h =
      owned-cons a (b ∷ m) x ∙ ground (arith, free, owned_below (b ∷ m) x o.2 (ground arith))

  insert_here :
      address a < addr → Stores (a ∷ (b ∷ m)) addr (address b) (a ∷ (used_entry addr ∷ (b ∷ m)))
  insert_here lt = record {
    ordered = (
      o.0,
      rw (address-used_entry addr small al) lt,
      (used_entry-IsEntry addr small al, rw (address-used_entry addr small al) hi, o.2),
    );
    first = refl;
    owned_is = λ x.
        owned-cons a _ x
        ∙ ground (
          arith,
          owned-cons a (b ∷ m) x,
          owned-cons (used_entry addr) (b ∷ m) x,
          free,
          address-used_entry addr small al,
          is_used-used_entry addr small al,
        );
    free_before = free_here;
    length_le = omega arith;
    place = 1;
    place_lt = omega arith;
    entry_is = refl;
    start_is = address-used_entry addr small al;
    end_is = refl;
  }

  set_here : addr ≡ address a → Stores (a ∷ (b ∷ m)) addr (address b) (used_entry addr ∷ (b ∷ m))
  set_here eq = record {
    ordered = (used_entry-IsEntry addr small al, rw (address-used_entry addr small al) hi, o.2);
    first = address-used_entry addr small al ∙ eq;
    owned_is = λ x.
        owned-cons (used_entry addr) _ x
        ∙ ground (
          arith,
          owned-cons a (b ∷ m) x,
          free,
          address-used_entry addr small al,
          is_used-used_entry addr small al,
        );
    free_before = free_here;
    length_le = omega arith;
    place = 0;
    place_lt = omega arith;
    entry_is = refl;
    start_is = address-used_entry addr small al;
    end_is = refl;
  }

-- One section before.
Stores-cons :
    (a : ℕ) (map : List ℕ) (addr e : ℕ) (map' : List ℕ)
    → Ordered (a ∷ map)
    → 0 < length map
    → address (entry map 0) ≤ addr
    → Stores map addr e map'
    → Stores (a ∷ map) addr e (a ∷ map')
Stores-cons a map addr e map' o some low s = record {
  ordered = (o.0, entry-Before a map' (rw s.first (Before-entry a map some o.1)), s.ordered);
  first = refl;
  owned_is = λ x. owned-cons a map' x ∙ ground (arith, owned-cons a map x, s.owned_is x, s.first);
  free_before = λ x h. owned-cons a map x ∙ ground (arith, s.free_before x h, h, low);
  length_le = omega (arith, s.length_le);
  place = suc s.place;
  place_lt = omega (arith, s.place_lt);
  entry_is = s.entry_is;
  start_is = s.start_is;
  end_is = s.end_is;
}

pub low_entry :
    (map : List ℕ) (j : ℕ)
    → j < length map
    → Ordered map
    → address (entry map 0) ≤ address (entry map j)
low_entry [] j h o = absurd (omega arith)
low_entry (a ∷ map) zero h o = omega arith
low_entry (a ∷ map) (suc j) h o =
    omega (arith, low_entry map j (omega arith) o.2, Before-entry a map (omega arith) o.1)

pub store_entry-Stores :
    (map : List ℕ) (j addr : ℕ) (ins : Bool)
    → Ordered map
    → suc j < length map
    → is_used (entry map j) ≡ false
    → entry map j ≤ addr
    → addr < address (entry map (suc j))
    → addr % 16 ≡ 0
    → ins ≡ not (addr == entry map j)
    → Stores map addr (address (entry map (suc j))) (store_entry (suc j) addr ins map)
store_entry-Stores [] j addr ins o h free lo hi al e = absurd (omega arith)
store_entry-Stores (a ∷ []) j addr ins o h free lo hi al e = absurd (omega arith)
store_entry-Stores (a ∷ (b ∷ m)) zero addr true o h free lo hi al e =
    let same = address_of_free a o.0 free in
    rw store-insert
      (insert_here a b m addr o free (omega (arith, same)) hi al (ground (arith, same)))
store_entry-Stores (a ∷ (b ∷ m)) zero addr false o h free lo hi al e =
    let same = address_of_free a o.0 free in
    rw store-set (set_here a b m addr o free (omega (arith, same)) hi al (ground (arith, same)))
store_entry-Stores (a ∷ (b ∷ m)) (suc j) addr ins o h free lo hi al e =
    let inner = entry-IsEntry (b ∷ m) j (omega arith) o.2 in
    let same = address_of_free (entry (b ∷ m) j) inner free in
    let low = low_entry (b ∷ m) j (omega arith) o.2 in
    rw store-cons (
      Stores-cons a (b ∷ m) addr _ _ o (omega arith) (omega (arith, low, same))
        (store_entry-Stores (b ∷ m) j addr ins o.2 (omega arith) free lo hi al e))
