-- ===== src/Fat/Allocate.antt =====
-- Allocating a cluster with a table that is in memory.
use dancy.Base.{
  ℕ, zero, suc, ◌+◌, ◌-◌, ◌≤◌, ◌<◌, ◌≡◌, ◌≢◌, refl, ap, ◌∙◌, true, false, ltb, ◌==◌, if◌then◌else◌,
  Option, none, some, arith, ℕ_discrete, Bool-cases, inl, inr,
}
use dancy.Fat.{Io, Fat, free_loop, allocate_cluster}
use dancy.Fat.Entries.{InMemory, entry, get_table_value-entry}

-- What `free_loop` finds among `n` entries from `i` on.
data Scans {D : Type 0} (fat : Fat D) (n i : ℕ) (r : Option ℕ × Fat D) : Type 0 where
  found :
      (j : ℕ)
      → r ≡ (some j, record fat { last_allocated = j })
      → (i ≤ j) × (j < i + n)
      → entry fat.fat_type fat.table_buffer j ≡ 0
      → Scans fat n i r
  taken :
      r ≡ (none, fat)
      → ((j : ℕ) → i ≤ j → j < i + n → entry fat.fat_type fat.table_buffer j ≢ 0)
      → Scans fat n i r

module _ {D : Type 0} (io : Io D) (fat : Fat D) (fits : InMemory fat) where
  free_loop-hit :
      (n i : ℕ)
      → i < fat.fs_clusters + 2
      → entry fat.fat_type fat.table_buffer i ≡ 0
      → free_loop io (suc n) i fat ≡ (some i, record fat { last_allocated = i })
  unfolding free_loop
  free_loop-hit n i h e =
      let get = get_table_value-entry io fat i fits h in
      rw (free_loop, ap (λ (r : ℕ × Fat D). r.0) get, e)
        (ap (λ (r : ℕ × Fat D). (some i, record (r.1) { last_allocated = i })) get)

  free_loop-miss :
      (n i : ℕ)
      → i < fat.fs_clusters + 2
      → entry fat.fat_type fat.table_buffer i ≢ 0
      → free_loop io (suc n) i fat ≡ free_loop io n (i + 1) fat
  unfolding free_loop
  free_loop-miss n i h ne =
      let t : (entry fat.fat_type fat.table_buffer i == 0) ≡ false =
        ground (arith, λ (e : entry fat.fat_type fat.table_buffer i ≡ 0). ne e) in
      let get = get_table_value-entry io fat i fits h in
      rw (free_loop, ap (λ (r : ℕ × Fat D). r.0) get, t)
        (ap (λ (r : ℕ × Fat D). free_loop io n (i + 1) r.1) get)

  free_loop-Scans : (n i : ℕ) → i + n ≤ fat.fs_clusters + 2 → Scans fat n i (free_loop io n i fat)
  free_loop-Scans zero i h = taken (unfold free_loop in refl) (λ j low high. absurd (omega arith))
  free_loop-Scans (suc n) i h =
      by_value (ℕ_discrete (entry fat.fat_type fat.table_buffer i) 0)
        (free_loop-Scans n (i + 1) (omega arith))
    where
      by_value :
          Dec (entry fat.fat_type fat.table_buffer i ≡ 0)
          → Scans fat n (i + 1) (free_loop io n (i + 1) fat)
          → Scans fat (suc n) i (free_loop io (suc n) i fat)
      by_value (yes e) rest = found i (free_loop-hit n i (omega arith) e) (omega arith) e
      by_value (no ne) (found j e range free) =
          found j (free_loop-miss n i (omega arith) ne ∙ e) (omega arith) free
      by_value (no ne) (taken e all) =
          taken (free_loop-miss n i (omega arith) ne ∙ e) (λ j low high. elim (ℕ_discrete i j) [
            | yes same ↦ rw (← same) ne
            | no ne' ↦ all j (omega (arith, λ (e : i ≡ j). ne' e)) (omega arith)
          ])

-- What `allocate_cluster` returns.
pub data Allocates {D : Type 0} (fat : Fat D) (r : Option ℕ × Fat D) : Type 0 where
  allocated :
      (j : ℕ)
      → r ≡ (some j, record fat { last_allocated = j })
      → (2 ≤ j) × (j < fat.fs_clusters + 2)
      → entry fat.fat_type fat.table_buffer j ≡ 0
      → Allocates fat r
  no_space :
      r ≡ (none, fat)
      → ((j : ℕ) → 2 ≤ j → j < fat.fs_clusters + 2 → entry fat.fat_type fat.table_buffer j ≢ 0)
      → Allocates fat r

module _ {D : Type 0} (io : Io D) (fat : Fat D) (fits : InMemory fat) where
  from_start :
      Scans fat fat.fs_clusters 2 (free_loop io fat.fs_clusters 2 fat)
      → Allocates fat (free_loop io fat.fs_clusters 2 fat)
  from_start (found j e range free) = allocated j e (omega arith) free
  from_start (taken e all) = no_space e (λ j low high. all j low (omega arith))

  abbrev noted : Option ℕ × Fat D
  noted =
      if ltb 2 fat.last_allocated
      then free_loop io (fat.fs_clusters + 2 - fat.last_allocated) fat.last_allocated fat
      else (none, fat)

  allocate_cluster-none :
      noted ≡ (none, fat) → allocate_cluster io fat ≡ free_loop io fat.fs_clusters 2 fat
  unfolding allocate_cluster
  allocate_cluster-none e =
      rw (allocate_cluster, ap (λ (r : Option ℕ × Fat D). r.0) e)
        (ap (λ (r : Option ℕ × Fat D). free_loop io fat.fs_clusters 2 r.1) e)

  allocate_cluster-some :
      (j : ℕ) (fat' : Fat D) → noted ≡ (some j, fat') → allocate_cluster io fat ≡ (some j, fat')
  unfolding allocate_cluster
  allocate_cluster-some j fat' e = rw (allocate_cluster, ap (λ (r : Option ℕ × Fat D). r.0) e) e

  -- For a table in memory with entries of 12 or 16 bits: `allocate_cluster` gives a cluster from 2 on whose
  -- entry is 0, and changes nothing but that it notes the cluster; or it gives none and changes nothing, and no
  -- entry is 0.
  pub allocate_cluster-Allocates : Allocates fat (allocate_cluster io fat)
  allocate_cluster-Allocates = elim (Bool-cases (ltb 2 fat.last_allocated)) [
    | inr t ↦ rw (allocate_cluster-none (rw t)) start
    | inl t ↦ elim (Bool-cases (ltb fat.last_allocated (fat.fs_clusters + 2))) [
      | inl t' ↦
          by_scan t
            (free_loop-Scans io fat fits (fat.fs_clusters + 2 - fat.last_allocated)
              fat.last_allocated (ground arith))
            (ground arith)
      | inr t' ↦
          let none_left : fat.fs_clusters + 2 - fat.last_allocated ≡ 0 = ground arith in
          rw (allocate_cluster-none (rw (t, none_left) (unfold free_loop in refl))) start
    ]
  ]
    where
      start : Allocates fat (free_loop io fat.fs_clusters 2 fat)
      start = from_start (free_loop-Scans io fat fits fat.fs_clusters 2 (omega arith))

      by_scan :
          ltb 2 fat.last_allocated ≡ true
          → Scans fat
              (fat.fs_clusters + 2 - fat.last_allocated)
              fat.last_allocated
              (free_loop io (fat.fs_clusters + 2 - fat.last_allocated) fat.last_allocated fat)
          → fat.last_allocated < fat.fs_clusters + 2
          → Allocates fat (allocate_cluster io fat)
      by_scan t (found j e range free) inside =
          allocated j (allocate_cluster-some j _ (rw t e)) (ground arith) free
      by_scan t (taken e all) inside = rw (allocate_cluster-none (rw t e)) start
