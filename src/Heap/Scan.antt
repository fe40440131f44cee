-- ===== src/Heap/Scan.antt =====
-- `search_loop`: the highest free section with room.
use dancy.Base.{
  ℕ, zero, suc, ◌+◌, ◌-◌, ◌%◌, ◌<◌, ◌≤◌, ◌≡◌, refl, true, false, not, ◌==◌, arith, List, length,
  Bool-cases, inl, inr, dec_le, ℕ_discrete,
}
use dancy.Heap.{is_used, address, entry, Search, no_section, section, search_loop}
use dancy.Heap.Words.{address_of_free}
use dancy.Heap.Sections.{Ordered, entry-IsEntry, address_mono}

-- Where section `j` of the map ends.
abbrev pub section_end : List ℕ → ℕ → ℕ
section_end map j = address (entry map (suc j))

-- Section `j` is free, and has room for the size below the gap at its end that the alignment leaves.
abbrev pub Fits : List ℕ → ℕ → ℕ → ℕ → Type 0
Fits map al size j =
    (is_used (entry map j) ≡ false)
    × (entry map j + size + (section_end map j - size) % al ≤ section_end map j)

abbrev pub top_of : List ℕ → ℕ → ℕ → ℕ → ℕ
top_of map al size j = section_end map j - size - (section_end map j - size) % al

pub data Finds (map : List ℕ) (al size n : ℕ) (r : Search) : Type 0 where
  nothing : r ≡ no_section → ((j : ℕ) → j < n → ¬ Fits map al size j) → Finds map al size n r
  found :
      (j : ℕ)
      → r ≡ section (suc j) (top_of map al size j) (not (top_of map al size j == entry map j))
      → j < n
      → Fits map al size j
      → ((k : ℕ) → j < k → k < n → ¬ Fits map al size k)
      → Finds map al size n r

higher :
    (map : List ℕ) (al size n : ℕ) (r : Search)
    → ¬ Fits map al size n
    → Finds map al size n r
    → Finds map al size (suc n) r
higher map al size n r bad (nothing e all) =
    nothing e (λ j h. elim (ℕ_discrete j n) [ yes top ↦ rw top bad | no ne ↦ all j (omega arith) ])
higher map al size n r bad (found j e lt fit above) =
    found j e (omega arith) fit
      (λ k lo hi. elim (ℕ_discrete k n) [ yes top ↦ rw top bad | no ne ↦ above k lo (omega arith) ])

search-used :
    (map : List ℕ) (al size j : ℕ)
    → is_used (entry map j) ≡ true
    → search_loop map al size (suc j) ≡ search_loop map al size j
unfolding search_loop
search-used map al size j u = rw u

search-small :
    (map : List ℕ) (al size j : ℕ)
    → is_used (entry map j) ≡ false
    → entry map j < section_end map j
    → section_end map j < entry map j + size + (section_end map j - size) % al
    → search_loop map al size (suc j) ≡ search_loop map al size j
unfolding search_loop
search-small map al size j u lt small = ground (arith, u)

search-Fits :
    (map : List ℕ) (al size j : ℕ)
    → entry map j < section_end map j
    → Fits map al size j
    → search_loop map al size (suc j)
      ≡ section (suc j) (top_of map al size j) (not (top_of map al size j == entry map j))
unfolding search_loop
search-Fits map al size j lt fit = ground (arith, fit)

pub search_loop-Finds :
    (map : List ℕ) (al size n : ℕ)
    → Ordered map
    → n < length map
    → Finds map al size n (search_loop map al size n)
search_loop-Finds map al size zero o h =
    unfold search_loop in nothing refl (λ j lt. absurd (omega arith))
search_loop-Finds map al size (suc n) o h =
    let rest = search_loop-Finds map al size n o (omega arith) in
    elim (Bool-cases (is_used (entry map n))) [
      | inl u ↦ rw (search-used map al size n u) (higher map al size n _ (λ fit. cc) rest)
      | inr u ↦
          let same = address_of_free (entry map n) (entry-IsEntry map n (omega arith) o) u in
          let lt : entry map n < section_end map n =
            omega (arith, same, address_mono map n (suc n) (omega arith) h o) in
          elim (dec_le (entry map n + size + (section_end map n - size) % al) (section_end map n)) [
            | yes fits ↦
                rw (search-Fits map al size n lt (u, fits))
                  (found n refl (omega arith) (u, fits) (λ k lo hi. absurd (omega arith)))
            | no small ↦
                rw (search-small map al size n u lt (omega arith))
                  (higher map al size n _ (λ fit. small fit.1) rest)
          ]
    ]
