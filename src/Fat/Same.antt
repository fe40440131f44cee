-- ===== src/Fat/Same.antt =====
-- What writes and wipes leave alone: the table in memory.
use dancy.Base.{
  ℕ, zero, suc, ◌+◌, ◌-◌, ◌*◌, ◌/◌, ◌%◌, ◌^◌, ◌≡◌, refl, ◌∙◌, Bool, true, false, not, ◌||◌, take,
  drop, get_or, leb, ltb, ◌==◌, Bool-cases, inl, inr,
}
use dancy.Fat.{
  Io, Fat, write_loop, write_table, read_cluster, write_cluster, wipe_cluster, zero_cluster,
  no_marks, marked_run,
}

-- What the table needs of the state.
pub record SameTable {D : Type 0} (fat fat' : Fat D) : Type 0 where
  pub type_is : fat'.fat_type ≡ fat.fat_type
  pub clusters_are : fat'.fs_clusters ≡ fat.fs_clusters
  pub buffer_is : fat'.table_buffer ≡ fat.table_buffer

SameTable-trans : {D : Type 0} (a b c : Fat D) → SameTable a b → SameTable b c → SameTable a c
SameTable-trans a b c s s' = record {
  type_is = s'.type_is ∙ s.type_is;
  clusters_are = s'.clusters_are ∙ s.clusters_are;
  buffer_is = s'.buffer_is ∙ s.buffer_is;
}

module _ {D : Type 0} (io : Io D) where
  read_cluster-SameTable :
      (fat : Fat D) (cluster : ℕ) → SameTable fat (read_cluster io fat cluster true).1
  unfolding read_cluster
  read_cluster-SameTable fat cluster =
      elim (Bool-cases (leb fat.fs_clusters ((cluster + 2 ^ 32 - 2) % 2 ^ 32))) [
        | inl t ↦ rw t (record { type_is = refl; clusters_are = refl; buffer_is = refl })
        | inr t ↦ rw t (record { type_is = refl; clusters_are = refl; buffer_is = refl })
      ]

  write_cluster-SameTable : (fat : Fat D) → SameTable fat (write_cluster io fat).1
  unfolding write_cluster
  write_cluster-SameTable fat =
      elim (Bool-cases (leb fat.cluster_sector fat.fs_last_table_sector)) [
        | inl t ↦ rw t (record { type_is = refl; clusters_are = refl; buffer_is = refl })
        | inr t ↦ rw t (record { type_is = refl; clusters_are = refl; buffer_is = refl })
      ]

  pub wipe_cluster-SameTable :
      (cluster : ℕ) (fat : Fat D) → SameTable fat (wipe_cluster io cluster fat)
  unfolding wipe_cluster
  wipe_cluster-SameTable cluster fat =
      elim (Bool-cases ((read_cluster io fat cluster true).0 == 0)) [
        | inl t ↦ rw t (
            SameTable-trans fat (zero_cluster io (read_cluster io fat cluster true).1) _
              (zeroed (read_cluster-SameTable fat cluster))
              (write_cluster-SameTable (zero_cluster io (read_cluster io fat cluster true).1)))
        | inr t ↦ rw t (read_cluster-SameTable fat cluster)
      ]
    where
      zeroed :
          SameTable fat (read_cluster io fat cluster true).1
          → SameTable fat (zero_cluster io (read_cluster io fat cluster true).1)
      zeroed s = record {
        type_is = s.type_is;
        clusters_are = s.clusters_are;
        buffer_is = s.buffer_is;
      }

  write_loop-SameTable :
      (fuel : ℕ) (primary : Bool) (start i : ℕ) (fat : Fat D)
      → SameTable fat (write_loop io fuel primary start i fat).1
  unfolding write_loop
  write_loop-SameTable zero primary start i fat = record {
    type_is = refl;
    clusters_are = refl;
    buffer_is = refl;
  }
  write_loop-SameTable (suc fuel) primary start i fat =
      elim (Bool-cases (ltb i fat.table_entries)) [
        | inr t ↦
            rw (write_loop, t) (record { type_is = refl; clusters_are = refl; buffer_is = refl })
        | inl t ↦ elim (Bool-cases (get_or fat.table_sectors i 0 == 0)) [
          | inl z ↦ rw (write_loop, t, z) (write_loop-SameTable fuel primary start (i + 1) fat)
          | inr nz ↦ elim (Bool-cases (written.0 || not primary)) [
            | inl ok ↦
                rw (write_loop, t, nz, ok)
                  (SameTable-trans fat (record fat { disk = written.1 }) _
                    (record { type_is = refl; clusters_are = refl; buffer_is = refl })
                    (write_loop-SameTable fuel primary start
                      (i + marked_run (drop i fat.table_sectors))
                      (record fat { disk = written.1 })))
            | inr failed ↦
                rw (write_loop, t, nz, failed)
                  (record { type_is = refl; clusters_are = refl; buffer_is = refl })
          ]
        ]
      ]
    where
      written : Bool × D
      written =
          io.fat_io_write fat.disk
            ((start + i + fat.table_offset / fat.fs_bytes_per_sector) * fat.io_mul)
            (take (marked_run (drop i fat.table_sectors) * fat.fs_bytes_per_sector)
              (drop (i * fat.fs_bytes_per_sector) fat.table_buffer))

  pub write_table-SameTable : (fat : Fat D) → SameTable fat (write_table io fat).1
  unfolding write_table
  write_table-SameTable fat =
      let one = write_loop-SameTable fat.table_entries true fat.fs_reserved_sectors 0 fat in
      elim (Bool-cases (write_loop io fat.table_entries true fat.fs_reserved_sectors 0 fat).0) [
        | inr t ↦ rw (write_table, t) one
        | inl t ↦ elim (Bool-cases (ltb fat.fs_tables 2)) [
          | inl t' ↦ rw (write_table, t, t') (unmarked fat _ one)
          | inr t' ↦
              rw (write_table, t, t')
                (unmarked fat _ (
                  SameTable-trans fat
                    (write_loop io fat.table_entries true fat.fs_reserved_sectors 0 fat).1 _ one
                    (write_loop-SameTable fat.table_entries false
                      (fat.fs_reserved_sectors + fat.fs_table_sectors) 0
                      (write_loop io fat.table_entries true fat.fs_reserved_sectors 0 fat).1)))
        ]
      ]
    where
      unmarked : (a b : Fat D) → SameTable a b → SameTable a (no_marks io b)
      unmarked a b s = record {
        type_is = s.type_is;
        clusters_are = s.clusters_are;
        buffer_is = s.buffer_is;
      }
