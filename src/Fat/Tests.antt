-- ===== src/Fat/Tests.antt =====
-- Runs of fat.c, and its properties at small tables.
use dancy.Base.{
  ℕ, ◌≡◌, ◌≢◌, ◌+◌, ◌/◌, ◌%◌, ◌==◌, refl, true, false, List, [], ◌∷◌, length, length-replicate,
  replicate, get_or, if◌then◌else◌, arith, inl, ◌*◌, ◌++◌,
}
use dancy.Fat.{
  Io, FatType, type_12, Fat, le16, le32, w_le16, table_value, get_table_value, mark_12, write_value,
  set_table_value, free_loop, allocate_cluster, write_loop, write_table, marked_run, append_cluster,
  link_cluster, delete_clusters,
}
use dancy.Fat.Values.{word_12}
use dancy.Fat.Entries.{InMemory, stored, entry, get_table_value-set_table_value}
use dancy.Fat.Allocate.{Allocates, allocate_cluster-Allocates}
use dancy.Fat.Chains.{Chain, chain_end, linked, Cleared, delete_clusters-Cleared}
use dancy.Fat.Parameters.{Layout, Clusters}
use dancy.Base.Int.{pos, negsuc}
use dancy.Fat.Descriptors.{
  FatFd, zero_fd, Descriptors, fat_close, fat_eof, fat_seek, check_fd, more_entries, with_more,
  seek_whence, seek_off, extra_loop, store_offset,
}
use dancy.Fat.Marks.{set_table_value-Marks, set_table_value-unmarked}

-- A device that notes the blocks and the lengths of what is written.
abbrev logging : Io (List (ℕ × ℕ))
logging = record {
  fat_io_read = λ log lba size. (true, replicate size 0, log);
  fat_io_write = λ log lba bytes. (true, (lba, length bytes) ∷ log);
  buffer_memory = true;
  sectors_memory = true;
}

abbrev table : FatType → ℕ → List ℕ → ℕ → Fat (List (ℕ × ℕ))
table fat_type clusters bytes sectors = record {
  disk = [];
  ready = true;
  fat_type = fat_type;
  allocated = true;
  table_buffer = bytes;
  table_sectors = replicate sectors 0;
  table_entries = sectors;
  table_offset = 0;
  fs_bytes_per_sector = 512;
  fs_cluster_sectors = 1;
  fs_reserved_sectors = 1;
  fs_tables = 1;
  fs_table_sectors = sectors;
  fs_table_size = 512 * sectors;
  fs_total_sectors = 100 + clusters;
  fs_data_sectors = clusters;
  fs_clusters = clusters;
  fs_last_table_sector = sectors;
  fs_info_free = 0xffffffff;
  fs_info_next = 0xffffffff;
  cluster_size = 4;
  cluster_sector = 0;
  cluster_buffer = 1 ∷ 1 ∷ 1 ∷ 1 ∷ [];
  cluster_buffer_lba = 0;
  block_buffer_lba = 0;
  io_mul = 1;
  last_allocated = 0;
}

-- Four clusters: 2 goes on with 4, which is the last one, and 3 and 5 are free.
abbrev four_clusters : Fat (List (ℕ × ℕ))
four_clusters =
    table type_12 4 (0xf8 ∷ 0xff ∷ 0xff ∷ 0x04 ∷ 0x00 ∷ 0x00 ∷ 0xff ∷ 0x0f ∷ 0x00 ∷ []) 1

four_clusters_run :
    (get_table_value logging four_clusters 2).0
      ∷ (get_table_value logging four_clusters 4).0
      ∷ (get_table_value logging four_clusters 5).0
      ∷ []
    ≡ (4 ∷ 0x0fffffff ∷ 0 ∷ [])
unfolding get_table_value table_value le16
four_clusters_run = refl

append_run :
    let fat = (append_cluster logging four_clusters 4 true).1 in
    (get_table_value logging fat 4).0 ∷ (get_table_value logging fat 3).0 ∷ []
    ≡ (3 ∷ 0x0fffffff ∷ [])
unfolding append_cluster link_cluster allocate_cluster free_loop set_table_value write_value
    get_table_value table_value le16 w_le16 mark_12
append_run = refl

-- The entry 682 has its bytes in the second and the third sector, of which just the second is written.
abbrev three_sectors : Fat (List (ℕ × ℕ))
three_sectors = table type_12 700 (replicate 1536 0) 3

unmarked_run :
    ((write_table logging (set_table_value logging three_sectors 682 0x0fffffff).1).1).disk
    ≡ ((2, 512) ∷ [])
unfolding write_table write_loop marked_run set_table_value write_value le16 w_le16 mark_12
unmarked_run = refl

get_table_value-set_table_value_example :
    ((set_table_value logging four_clusters 3 0x0fffffff).0 ≡ 0)
    × ((get_table_value logging (set_table_value logging four_clusters 3 0x0fffffff).1 2).0 ≡ (
        if 3 == 2 then stored type_12 0x0fffffff else (get_table_value logging four_clusters 2).0))
get_table_value-set_table_value_example =
    get_table_value-set_table_value logging four_clusters (omega arith, omega arith) 3 2 0x0fffffff
      (omega arith) (omega arith)

allocate_cluster-Allocates_example :
    Allocates four_clusters (allocate_cluster logging four_clusters)
allocate_cluster-Allocates_example =
    allocate_cluster-Allocates logging four_clusters (omega arith, omega arith)

two_linked : Chain (entry type_12 four_clusters.table_buffer) 4 2 (2 ∷ 4 ∷ [])
unfolding stored le16
two_linked =
    linked 2 (4 ∷ []) (omega arith) (omega arith) refl
      (linked 4 [] (omega arith) (omega arith) refl (chain_end 0x0fffffff refl))

delete_clusters-Cleared_example :
    Cleared type_12 4 four_clusters.table_buffer
      (2 ∷ 4 ∷ [])
      (delete_clusters logging four_clusters 2)
delete_clusters-Cleared_example =
    delete_clusters-Cleared logging four_clusters 2 (2 ∷ 4 ∷ []) (omega arith, omega arith)
      two_linked (omega arith)

changed :
    get_or ((set_table_value logging four_clusters 3 0x0fffffff).1).table_buffer 5 0
    ≢ get_or four_clusters.table_buffer 5 0
unfolding set_table_value write_value le16 w_le16
changed = λ e. absurd (omega arith)

set_table_value-Marks_example :
    get_or ((set_table_value logging four_clusters 3 0x0fffffff).1).table_sectors (5 / 512) 0 ≡ 1
set_table_value-Marks_example =
    set_table_value-Marks logging four_clusters (omega arith, omega arith) 3 0x0fffffff
      (omega arith) 5 (inl refl) (inl refl) (omega arith) changed

three_sectors-InMemory : InMemory three_sectors
three_sectors-InMemory = (omega arith, rw (length-replicate {A = ℕ} 1536 0) (omega arith))

set_table_value-unmarked_example :
    let s = (set_table_value logging three_sectors 682 0x0fffffff).1 in
    (get_or s.table_buffer (682 + 682 / 2 + 1) 0
      ≡ word_12 three_sectors.table_buffer 682 0x0fffffff / 256 % 256)
    × (get_or s.table_sectors ((682 + 682 / 2 + 1) / 512) 0
        ≡ get_or three_sectors.table_sectors ((682 + 682 / 2 + 1) / 512) 0)
set_table_value-unmarked_example =
    set_table_value-unmarked logging three_sectors three_sectors-InMemory 682 0x0fffffff
      (omega arith) refl refl (omega arith)

-- The first sector of a diskette with 2,880 sectors.
abbrev diskette : List ℕ
diskette =
    (0xeb ∷ 0x3c ∷ 0x90 ∷ replicate 8 0x20)
    ++ (0x00 ∷ 0x02 ∷ 1 ∷ 1 ∷ 0 ∷ 2 ∷ 224 ∷ 0 ∷ 0x40 ∷ 0x0b ∷ 0xf0 ∷ 9 ∷ 0 ∷ [])
    ++ replicate 486 0
    ++ (0x55 ∷ 0xaa ∷ [])

abbrev diskette_layout : Layout
diskette_layout = record {
  fs_bytes_per_sector = 512;
  io_mul = 1;
  fs_cluster_sectors = 1;
  fs_reserved_sectors = 1;
  fs_tables = 2;
  fs_directory_entries = 224;
  fs_directory_sectors = 14;
  fs_total_sectors = 2880;
  fs_table_sectors = 9;
  fs_table_size = 4608;
}

abbrev diskette_clusters : Clusters
diskette_clusters = record {
  fs_data_sectors = 2847;
  fs_clusters = 2847;
  fat_type = type_12;
  fs_root_cluster = 0;
  fs_info_sector = 0;
  fs_last_table_sector = 18;
  cluster_size = 512;
}

-- A file of 256 bytes, open at the position 200, as the descriptor 1.
abbrev open_file : FatFd
open_file = record zero_fd {
  opened = 1;
  file_record = replicate 29 0 ++ (1 ∷ 0 ∷ 0 ∷ []);
  eof = 1;
  offset = 200;
}

abbrev two_descriptors : Descriptors
two_descriptors = record {
  ready = true;
  fd_entries = 2;
  fd_special = 2;
  fd = zero_fd ∷ open_file ∷ zero_fd ∷ [];
  maximum_file_size = 0xffffffff;
}

-- 6 back from the end is 250; the end of the file is forgotten.
seek_run :
    let r = fat_seek true two_descriptors (pos 1) (negsuc 5) (pos 2) in
    r.0
      ∷ (get_or (r.1).fd 1 zero_fd).offset
      ∷ (fat_eof true r.1 (pos 1)).0
      ∷ (fat_eof true two_descriptors (pos 1)).0
      ∷ []
    ≡ (0 ∷ 250 ∷ 0 ∷ 1 ∷ [])
unfolding fat_seek fat_eof check_fd seek_whence seek_off extra_loop store_offset le32 le16
seek_run = refl

-- A descriptor beyond the array is given room, and can be closed.
close_run :
    let r = fat_close true two_descriptors (pos 20) in
    r.0 ∷ (r.1).fd_entries ∷ length (r.1).fd ∷ (fat_close false two_descriptors (pos 20)).0 ∷ []
    ≡ (0 ∷ 21 ∷ 22 ∷ 0x17 ∷ [])
unfolding fat_close check_fd more_entries with_more
close_run = refl
