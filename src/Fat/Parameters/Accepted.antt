-- ===== src/Fat/Parameters/Accepted.antt =====
-- What holds of the parameters that `read_bios_parameter_block` takes.
use dancy.Base.{ℕ, ◌+◌, ◌*◌, ◌/◌, ◌^◌, ◌≤◌, ◌<◌, ◌≡◌, Bool, false, ◌||◌, List, [], ◌∷◌, ◌==◌}
use dancy.Fat.{FatType, type_12, type_16, type_32, le16, le32}
use dancy.Fat.Entries.{Fits}
use dancy.Fat.Marks.{SectorSize}
use dancy.Fat.Parameters.{Layout, Clusters, fat_type_of, refused, large_only}

abbrev NoneHolds : List Bool → Type 0
NoneHolds [] = Unit
NoneHolds (test ∷ tests) = (test ≡ false) × NoneHolds tests

-- The powers of two that a sector can have as its size.
abbrev is_sector_size : ℕ → Bool
is_sector_size n = n == 512 || (n == 1024 || (n == 2048 || n == 4096))

-- What holds of a layout.
record IsLayout (l : Layout) : Type 0 where
  sized : SectorSize l.fs_bytes_per_sector
  some_sectors : 0 < l.fs_cluster_sectors
  some_reserved : 0 < l.fs_reserved_sectors
  total_lt : l.fs_total_sectors < 2 ^ 32
  table_is : l.fs_table_size ≡ l.fs_table_sectors * l.fs_bytes_per_sector

-- What holds of the clusters of a layout.
record IsClusters (l : Layout) (c : Clusters) (buf : List ℕ) : Type 0 where
  some_clusters : 0 < c.fs_clusters
  type_is : c.fat_type ≡ fat_type_of c.fs_clusters
  accepted : refused c.fat_type l c.fs_clusters buf ≡ false
  root_is : c.fs_root_cluster ≡ large_only c.fat_type (le32 buf 44)
  info_is : c.fs_info_sector ≡ large_only c.fat_type (le16 buf 48)
  data_is :
      c.fs_data_sectors
        + (l.fs_reserved_sectors + l.fs_table_sectors * l.fs_tables + l.fs_directory_sectors)
      ≡ l.fs_total_sectors
  clusters_are : c.fs_clusters ≡ c.fs_data_sectors / l.fs_cluster_sectors
  last_is : c.fs_last_table_sector + 1 ≡ l.fs_reserved_sectors + l.fs_tables * l.fs_table_sectors

-- The table has all its entries: in memory, or on the device with entries of 32 bits.
abbrev pub HasEntries : FatType → ℕ → Layout → List ℕ → Type 0
HasEntries type_12 clusters l table = Fits type_12 clusters table
HasEntries type_16 clusters l table = Fits type_16 clusters table
HasEntries type_32 clusters l table = (clusters + 2) * 4 ≤ l.fs_table_size

-- The root directory of a table with entries of 32 bits is one of the clusters, and the sector with the
-- counters is a reserved one.
abbrev pub HasRoot : FatType → Layout → Clusters → Type 0
HasRoot type_12 l c = Unit
HasRoot type_16 l c = Unit
HasRoot type_32 l c =
    (2 ≤ c.fs_root_cluster)
    × (c.fs_root_cluster < c.fs_clusters + 2)
    × (0 < c.fs_info_sector)
    × (c.fs_info_sector < l.fs_reserved_sectors)

-- Parameters that fit together: the reserved sectors, the tables, the root directory and the clusters follow one
-- another within the sectors that there are.
pub record IsVolume (l : Layout) (c : Clusters) (table : List ℕ) : Type 0 where
  pub sized : SectorSize l.fs_bytes_per_sector
  pub some_clusters : 0 < c.fs_clusters
  pub entries : HasEntries c.fat_type c.fs_clusters l table
  pub root : HasRoot c.fat_type l c
  pub regions :
      c.fs_last_table_sector + 1 + l.fs_directory_sectors + c.fs_clusters * l.fs_cluster_sectors
      ≤ l.fs_total_sectors
