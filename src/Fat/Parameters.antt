-- ===== src/Fat/Parameters.antt =====
-- common/fat.c, `read_bios_parameter_block` and `read_full_table`: the parameters of a file system, from its
-- first sector, and the table. The parameters are `none` where the source returns 1, after which `fat_create`
-- gives the instance up.
pub mod Accepted
use dancy.Base.{
  ℕ, ◌+◌, ◌-◌, ◌*◌, ◌/◌, ◌%◌, ◌^◌, bit_and, Bool, true, false, not, ◌&&◌, ◌||◌, List, [], ◌∷◌, ◌++◌,
  length, get_or, drop, replicate, ltb, leb, ◌==◌, if◌then◌else◌, Option, none, some,
}
use dancy.Fat.{Io, FatType, type_12, type_16, type_32, Fat, le16, le32}

-- The fields that describe the sectors, and those that describe the clusters.
pub record Layout : Type 0 where
  pub fs_bytes_per_sector : ℕ
  pub io_mul : ℕ
  pub fs_cluster_sectors : ℕ
  pub fs_reserved_sectors : ℕ
  pub fs_tables : ℕ
  pub fs_directory_entries : ℕ
  pub fs_directory_sectors : ℕ
  pub fs_total_sectors : ℕ
  pub fs_table_sectors : ℕ
  pub fs_table_size : ℕ

pub record Clusters : Type 0 where
  pub fs_data_sectors : ℕ
  pub fs_clusters : ℕ
  pub fat_type : FatType
  pub fs_root_cluster : ℕ
  pub fs_info_sector : ℕ
  pub fs_last_table_sector : ℕ
  pub cluster_size : ℕ

-- The tests in their order; for the first that holds, the source returns 1.
unfoldable pub refuse_if : {A : Type 0} → List Bool → Option A → Option A
refuse_if [] rest = rest
refuse_if (test ∷ tests) rest = if test then none else refuse_if tests rest

abbrev pub not_power : ℕ → Bool
not_power val = not (bit_and val (val - 1) == 0)

unfoldable pub device_ok : ℕ → ℕ → Bool
device_ok block_size block_total = not (
    ltb block_size 1
    || (ltb 4096 block_size || (not_power block_size || ltb 0xffffffff block_total)))

unfoldable pub jump_ok : List ℕ → Bool
jump_ok buf =
    let first = get_or buf 0 0 in
    let near = get_or buf 1 0 in
    let far = le16 buf 1 in
    if first == 0xeb
    then not (ltb near 0x3c || (leb 0x80 near && not (near == 0xfe)))
    else if first == 0xe9
    then not (ltb far 0x3c || (leb 0x1fd far && not (far == 0xfffd)))
    else false

unfoldable pub read_layout : List ℕ → ℕ → ℕ → Option Layout
read_layout buf block_size block_total =
    let bytes = le16 buf 11 in
    let cluster = get_or buf 13 0 in
    let reserved = le16 buf 14 in
    let tables = get_or buf 16 0 in
    let entries = le16 buf 17 in
    let short_total = le16 buf 19 in
    let long_total = le32 buf 32 in
    let total = if short_total == 0 then long_total else short_total in
    let sectors = if le16 buf 22 == 0 then le32 buf 36 else le16 buf 22 in
    refuse_if
      (not (jump_ok buf)
        ∷ not (le16 buf 510 == 0xaa55)
        ∷ (ltb bytes 512 || (ltb 4096 bytes || not_power bytes))
        ∷ ltb bytes block_size
        ∷ (ltb cluster 1 || (ltb 128 cluster || not_power cluster))
        ∷ (reserved == 0)
        ∷ (not (tables == 1) && not (tables == 2))
        ∷ (not (entries == 0) && not (entries * 32 % bytes == 0))
        ∷ (not (short_total == 0) && (not (long_total == 0) && not (long_total == short_total)))
        ∷ ltb block_total (total / (bytes / block_size))
        ∷ ltb (0x40000000 / bytes) sectors
        ∷ [])
      (some (record {
        fs_bytes_per_sector = bytes;
        io_mul = bytes / block_size;
        fs_cluster_sectors = cluster;
        fs_reserved_sectors = reserved;
        fs_tables = tables;
        fs_directory_entries = entries;
        fs_directory_sectors = entries * 32 / bytes;
        fs_total_sectors = total;
        fs_table_sectors = sectors;
        fs_table_size = sectors * bytes;
      }))

abbrev pub fat_type_of : ℕ → FatType
fat_type_of clusters =
    if ltb clusters 4085 then type_12 else if ltb clusters 65525 then type_16 else type_32

-- The tests of a table with entries of 12 or of 16 bits: whether the source returns 1.
unfoldable pub small_refused : Layout → ℕ → Bool
small_refused l needed =
    l.fs_directory_entries == 0 || (ltb 0x20000 l.fs_table_size || ltb l.fs_table_size needed)

unfoldable pub large_refused : Layout → ℕ → List ℕ → Bool
large_refused l clusters buf =
    not (l.fs_directory_entries == 0)
    || (not (le16 buf 19 == 0)
        || (not (le16 buf 22 == 0)
            || (not (le16 buf 42 == 0)
                || (ltb (le32 buf 44) 2
                    || (leb clusters (le32 buf 44 - 2)
                        || (ltb 0x0ffffff8 ((clusters + 2) % 2 ^ 32)
                            || (ltb l.fs_table_size ((clusters + 2) * 4 % 2 ^ 32)
                                || (le16 buf 48 == 0
                                    || leb l.fs_reserved_sectors (le16 buf 48)))))))))

unfoldable pub refused : FatType → Layout → ℕ → List ℕ → Bool
refused type_12 l clusters buf = small_refused l (((clusters + 2) * 3 + 1) / 2)
refused type_16 l clusters buf = small_refused l ((clusters + 2) * 2)
refused type_32 l clusters buf = large_refused l clusters buf

abbrev pub large_only : FatType → ℕ → ℕ
large_only type_12 val = 0
large_only type_16 val = 0
large_only type_32 val = val

-- The rest, where `malloc` gives the buffer for a cluster.
unfoldable pub read_clusters : Layout → List ℕ → Option Clusters
read_clusters l buf =
    let before =
      l.fs_reserved_sectors + l.fs_table_sectors * l.fs_tables + l.fs_directory_sectors in
    let data_sectors = l.fs_total_sectors - before in
    let clusters = data_sectors / l.fs_cluster_sectors in
    refuse_if
      (ltb l.fs_total_sectors (before + l.fs_cluster_sectors)
        ∷ (clusters == 0)
        ∷ refused (fat_type_of clusters) l clusters buf
        ∷ [])
      (some (record {
        fs_data_sectors = data_sectors;
        fs_clusters = clusters;
        fat_type = fat_type_of clusters;
        fs_root_cluster = large_only (fat_type_of clusters) (le32 buf 44);
        fs_info_sector = large_only (fat_type_of clusters) (le16 buf 48);
        fs_last_table_sector = l.fs_reserved_sectors + l.fs_tables * l.fs_table_sectors - 1;
        cluster_size = l.fs_bytes_per_sector * l.fs_cluster_sectors;
      }))

-- The parts one after the other; the first part that fails ends it.
abbrev pub with_clusters : Layout → Option Clusters → Option (Layout × Clusters)
with_clusters l none = none
with_clusters l (some c) = some (l, c)

abbrev pub with_layout : List ℕ → Option Layout → Option (Layout × Clusters)
with_layout buf none = none
with_layout buf (some l) = with_clusters l (read_clusters l buf)

-- The first sector is that of `fat_io_read`.
unfoldable pub read_bios_parameter_block : List ℕ → ℕ → ℕ → Option (Layout × Clusters)
read_bios_parameter_block buf block_size block_total =
    if device_ok block_size block_total
    then with_layout buf (read_layout buf block_size block_total)
    else none

-- The table is read whole, where there is memory for it; `read` is what `fat_io_read` leaves in the buffer.
unfoldable pub read_full_table : Layout → List ℕ → List ℕ
read_full_table l read = read ++ drop (length read) (replicate l.fs_table_size 0)
