-- ===== src/Fat.antt =====
-- common/fat.c, the allocation table and the chains of clusters. The blocks of the device are behind
-- `fat_io_read` and `fat_io_write`, which are arguments, as is whether `malloc` gives memory. A table that
-- has no memory yet is `allocated = false`. A byte beyond a buffer is read as 0, and is not written.
pub mod Values
pub mod Entries
pub mod Allocate
pub mod Same
pub mod Chains
pub mod Marks
pub mod Parameters
pub mod Descriptors
mod Tests
use dancy.Base.{
  ℕ, zero, suc, ◌+◌, ◌-◌, ◌*◌, ◌/◌, ◌%◌, ◌^◌, bit_and, bit_or, Bool, true, false, not, ◌&&◌, ◌||◌,
  List, [], ◌∷◌, ◌++◌, length, get_or, set, take, drop, replicate, ltb, leb, ◌==◌, if◌then◌else◌,
  Option, none, some,
}

-- What the code calls: a transfer succeeds (`true`) or not, and a read gives what it leaves in the buffer.
pub record Io (D : Type 0) : Type 0 where
  pub fat_io_read : D → ℕ → ℕ → Bool × List ℕ × D
  pub fat_io_write : D → ℕ → List ℕ → Bool × D
  pub buffer_memory : Bool
  pub sectors_memory : Bool

-- `type_12`, `type_16` and `type_32`, of which one is set.
pub data FatType : Type 0 where
  type_12 type_16 type_32 : FatType

-- The fields of `struct fat_instance` that the table and the clusters need, and the device.
pub record Fat (D : Type 0) : Type 0 where
  pub disk : D
  pub ready : Bool
  pub fat_type : FatType
  pub allocated : Bool
  pub table_buffer : List ℕ
  pub table_sectors : List ℕ
  pub table_entries : ℕ
  pub table_offset : ℕ
  pub fs_bytes_per_sector : ℕ
  pub fs_cluster_sectors : ℕ
  pub fs_reserved_sectors : ℕ
  pub fs_tables : ℕ
  pub fs_table_sectors : ℕ
  pub fs_table_size : ℕ
  pub fs_total_sectors : ℕ
  pub fs_data_sectors : ℕ
  pub fs_clusters : ℕ
  pub fs_last_table_sector : ℕ
  pub fs_info_free : ℕ
  pub fs_info_next : ℕ
  pub cluster_size : ℕ
  pub cluster_sector : ℕ
  pub cluster_buffer : List ℕ
  pub cluster_buffer_lba : ℕ
  pub block_buffer_lba : ℕ
  pub io_mul : ℕ
  pub last_allocated : ℕ

abbrev pub block_read_error : ℕ
block_read_error = 0x10

abbrev pub block_write_error : ℕ
block_write_error = 0x11

abbrev pub inconsistent_state : ℕ
inconsistent_state = 0x15

abbrev pub not_enough_space : ℕ
not_enough_space = 0x18

unfoldable pub le16 : List ℕ → ℕ → ℕ
le16 a at_a = get_or a at_a 0 % 256 + 256 * (get_or a (at_a + 1) 0 % 256)

unfoldable pub le32 : List ℕ → ℕ → ℕ
unfolding le16
le32 a at_a = le16 a at_a + 2 ^ 16 * le16 a (at_a + 2)

unfoldable pub w_le16 : List ℕ → ℕ → ℕ → List ℕ
w_le16 a at_a d = set (set a at_a (d % 256)) (at_a + 1) (d / 256 % 256)

unfoldable pub w_le32 : List ℕ → ℕ → ℕ → List ℕ
unfolding w_le16
w_le32 a at_a d = w_le16 (w_le16 a at_a d) (at_a + 2) (d / 2 ^ 16)

-- How many of the sectors from the first one on are marked.
unfoldable pub marked_run : List ℕ → ℕ
marked_run [] = 0
marked_run (mark ∷ marks) = if mark == 0 then 0 else suc (marked_run marks)

-- The mark of the sector with this byte of the table, and for an entry of 12 bits that of the next one.
unfoldable pub mark_sector : ℕ → ℕ → List ℕ → List ℕ
mark_sector add fs_bytes_per_sector table_sectors = set table_sectors (add / fs_bytes_per_sector) 1

unfoldable pub mark_12 : ℕ → ℕ → List ℕ → List ℕ
mark_12 add fs_bytes_per_sector table_sectors =
    set
      (if add == fs_bytes_per_sector - 1
        then set table_sectors (add / fs_bytes_per_sector + 1) 1
        else table_sectors)
      (add / fs_bytes_per_sector) 1

module _ {D : Type 0} (io : Io D) where
  open io use {fat_io_read, fat_io_write, buffer_memory, sectors_memory}

  -- The loop of `write_table` that writes the runs of marked sectors from `i` on, to the table that starts
  -- at this sector; for the secondary table errors are passed over. A round passes at least one sector.
  unfoldable pub write_loop : ℕ → Bool → ℕ → ℕ → Fat D → Bool × Fat D
  write_loop zero primary start i fat = (true, fat)
  write_loop (suc fuel) primary start i fat = elim (ltb i fat.table_entries) [
    | false ↦ (true, fat)
    | true ↦ elim (get_or fat.table_sectors i 0 == 0) [
      | true ↦ write_loop fuel primary start (i + 1) fat
      | false ↦
          let n = marked_run (drop i fat.table_sectors) in
          let lba = (start + i + fat.table_offset / fat.fs_bytes_per_sector) * fat.io_mul in
          let bytes =
            take (n * fat.fs_bytes_per_sector)
              (drop (i * fat.fs_bytes_per_sector) fat.table_buffer) in
          let r = fat_io_write fat.disk lba bytes in
          elim (r.0 || not primary) [
            | true ↦ write_loop fuel primary start (i + n) (record fat { disk = r.1 })
            | false ↦ (false, record fat { disk = r.1; ready = false })
          ]
    ]
  ]

  abbrev pub no_marks : Fat D → Fat D
  no_marks fat = record fat { table_sectors = replicate fat.table_entries 0 }

  unfoldable pub write_table : Fat D → ℕ × Fat D
  write_table fat =
      let r = write_loop fat.table_entries true fat.fs_reserved_sectors 0 fat in
      elim (r.0) [
        | false ↦ (block_write_error, r.1)
        | true ↦ if ltb fat.fs_tables 2 then (0, no_marks r.1) else (
          0,
          no_marks
              (write_loop fat.table_entries false (fat.fs_reserved_sectors + fat.fs_table_sectors) 0
                r.1).1,
        )
      ]

  -- The end of `read_table_buffer`: the part of the table from `table_offset` on is read.
  unfoldable pub fill_buffer : Fat D → ℕ × Fat D
  fill_buffer fat =
      let lba =
        (fat.fs_reserved_sectors + fat.table_offset / fat.fs_bytes_per_sector) * fat.io_mul in
      let past = fat.table_offset + 0x20000 - fat.fs_table_size in
      let fat' = if past == 0 then fat else record fat { table_buffer = replicate 0x20000 0 } in
      if ltb 0x20000 past
      then (inconsistent_state, record fat' { ready = false })
      else (let r = fat_io_read fat'.disk lba (0x20000 - past) in
          let read = record fat' {
            disk = r.2;
            table_buffer = r.1 ++ drop (length r.1) fat'.table_buffer;
          } in
          if r.0 then (0, read) else (block_read_error, record read { ready = false }))

  -- The status, and the offset in the buffer.
  unfoldable pub read_table_buffer : Fat D → ℕ → ℕ × ℕ × Fat D
  read_table_buffer fat offset =
      let off1 = offset % 0x20000 in
      let off2 = offset - off1 in
      let sectors = 0x20000 / fat.fs_bytes_per_sector in
      if fat.table_offset == off2
      then (0, off1, fat)
      else if not fat.allocated
      then (if buffer_memory && sectors_memory
          then (let r = fill_buffer (record fat {
            allocated = true;
            table_buffer = replicate 0x20000 0;
            table_sectors = replicate sectors 0;
            table_entries = sectors;
            table_offset = off2;
          }) in
              (r.0, off1, r.1))
          else (inconsistent_state, off1, fat))
      else (let w = write_table fat in
          if w.0 == 0
          then (let r = fill_buffer (record w.1 { table_offset = off2 }) in (r.0, off1, r.1))
          else (
            block_write_error,
            off1,
            record w.1 { table_buffer = replicate 0x20000 0; table_sectors = replicate sectors 0 },
          ))

  unfoldable pub table_value : FatType → ℕ → Fat D → ℕ × Fat D
  table_value type_12 off fat =
      let word = le16 fat.table_buffer (off + off / 2) in
      let val = bit_and (if off % 2 == 1 then word / 16 else word) 0x0fff in
      (if leb 0x0ff8 val then bit_or 0x0ffff000 val else val, fat)
  table_value type_16 off fat =
      let val = le16 fat.table_buffer (off * 2) in
      (if leb 0xfff8 val then bit_or 0x0fff0000 val else val, fat)
  table_value type_32 off fat =
      let r = read_table_buffer fat (off * 4 % 2 ^ 32) in
      if r.0 == 0 then (bit_and (le32 (r.2).table_buffer r.1) 0x0fffffff, r.2) else (1, r.2)

  unfoldable pub get_table_value : Fat D → ℕ → ℕ × Fat D
  get_table_value fat off =
      if leb (fat.fs_clusters + 2) off then (1, fat) else table_value fat.fat_type off fat

  -- The counters of free clusters, as an entry goes from one value to another.
  unfoldable pub count_free : ℕ → ℕ → ℕ → Fat D → Fat D
  count_free off old_val val fat =
      if fat.fs_info_free == 0xffffffff
      then fat
      else (let free =
            if bit_and old_val 0x0fffffff == 0
            then (if val == 0 then fat.fs_info_free else (fat.fs_info_free + 2 ^ 32 - 1) % 2 ^ 32)
            else (if val == 0 then (fat.fs_info_free + 1) % 2 ^ 32 else fat.fs_info_free) in
          record fat {
            fs_info_free = free;
            fs_info_next = if val == 0 then fat.fs_info_next else off;
          })

  unfoldable pub write_value : FatType → ℕ → ℕ → Fat D → ℕ × Fat D
  write_value type_12 off val fat =
      let add = off + off / 2 in
      let old_val = le16 fat.table_buffer add in
      let word =
        if off % 2 == 1
        then bit_or (bit_and (val * 16 % 2 ^ 32) 0xfff0) (bit_and old_val 0x000f)
        else bit_or (bit_and old_val 0xf000) (bit_and val 0x0fff) in
      (
        0,
        record fat {
          table_sectors = mark_12 add fat.fs_bytes_per_sector fat.table_sectors;
          table_buffer = w_le16 fat.table_buffer add word;
        },
      )
  write_value type_16 off val fat = (
    0,
    record fat {
      table_sectors = mark_sector (off * 2) fat.fs_bytes_per_sector fat.table_sectors;
      table_buffer = w_le16 fat.table_buffer (off * 2) val;
    },
  )
  write_value type_32 off val fat =
      let r = read_table_buffer fat (off * 4 % 2 ^ 32) in
      if r.0 == 0
      then (let fat' = r.2 in
          let old_val = le32 fat'.table_buffer r.1 in
          let word = bit_or (bit_and old_val 0xf0000000) (bit_and val 0x0fffffff) in
          (
            0,
            record (count_free off old_val val fat') {
              table_sectors = mark_sector r.1 fat'.fs_bytes_per_sector fat'.table_sectors;
              table_buffer = w_le32 fat'.table_buffer r.1 word;
            },
          ))
      else (r.0, r.2)

  unfoldable pub set_table_value : Fat D → ℕ → ℕ → ℕ × Fat D
  set_table_value fat off val =
      if leb (fat.fs_clusters + 2) off
      then (inconsistent_state, fat)
      else write_value fat.fat_type off val fat

  -- The first of `n` clusters from `i` on whose entry is 0.
  unfoldable pub free_loop : ℕ → ℕ → Fat D → Option ℕ × Fat D
  free_loop zero i fat = (none, fat)
  free_loop (suc n) i fat =
      let r = get_table_value fat i in
      elim (r.0 == 0) [
        | true ↦ (some i, record (r.1) { last_allocated = i })
        | false ↦ free_loop n (i + 1) r.1
      ]

  -- `none` is a return of FAT_NOT_ENOUGH_SPACE.
  unfoldable pub allocate_cluster : Fat D → Option ℕ × Fat D
  allocate_cluster fat =
      let clusters = fat.fs_clusters + 2 in
      let from =
        if ltb 2 fat.last_allocated
        then free_loop (clusters - fat.last_allocated) fat.last_allocated fat
        else (none, fat) in
      elim (from.0) [ some i ↦ from | none ↦ free_loop fat.fs_clusters 2 from.1 ]

  unfoldable pub read_cluster : Fat D → ℕ → Bool → ℕ × Fat D
  read_cluster fat cluster skip_io =
      if leb fat.fs_clusters ((cluster + 2 ^ 32 - 2) % 2 ^ 32)
      then (inconsistent_state, fat)
      else (let sector =
            fat.fs_total_sectors
            - fat.fs_data_sectors
            + (cluster - 2) * fat.fs_cluster_sectors % 2 ^ 32 in
          let fat' = record fat { cluster_sector = sector % 2 ^ 32 } in
          let lba = sector * fat.io_mul in
          if skip_io
          then (0, record fat' { cluster_buffer_lba = 0 })
          else if fat.cluster_buffer_lba == lba
          then (0, fat')
          else (let r = fat_io_read fat.disk lba fat.cluster_size in
              if r.0
              then (0, record fat' { disk = r.2; cluster_buffer = r.1; cluster_buffer_lba = lba })
              else (
                block_read_error,
                record fat' {
                  disk = r.2;
                  cluster_buffer = replicate fat.cluster_size 0;
                  cluster_buffer_lba = 0;
                },
              )))

  unfoldable pub write_cluster : Fat D → ℕ × Fat D
  write_cluster fat =
      if leb fat.cluster_sector fat.fs_last_table_sector
      then (inconsistent_state, fat)
      else (let r = fat_io_write fat.disk (fat.cluster_sector * fat.io_mul) fat.cluster_buffer in
          (if r.0 then 0 else block_write_error, record fat { disk = r.1; block_buffer_lba = 0 }))

  abbrev pub zero_cluster : Fat D → Fat D
  zero_cluster fat = record fat { cluster_buffer = replicate fat.cluster_size 0 }

  -- A step of `append_cluster`: the next one is made if this one has returned 0.
  abbrev pub and_then : ℕ × Fat D → (Fat D → ℕ × Fat D) → ℕ × Fat D
  and_then r next = if r.0 == 0 then next r.1 else r

  abbrev pub unless_fast : Bool → (Fat D → ℕ × Fat D) → Fat D → ℕ × Fat D
  unless_fast fast f fat = if fast then (0, fat) else f fat

  unfoldable pub link_cluster : ℕ → ℕ → Bool → Fat D → ℕ × Fat D
  link_cluster current_cluster cluster fast fat =
      and_then
        (unless_fast fast
          (λ fat.
            and_then (read_cluster fat cluster true) (λ fat. write_cluster (zero_cluster fat)))
          fat)
        (λ fat. and_then (set_table_value fat cluster 0x0fffffff) (λ fat.
          and_then (unless_fast fast write_table fat) (λ fat.
            and_then (set_table_value fat current_cluster cluster)
              (λ fat. unless_fast fast write_table fat))))

  unfoldable pub append_cluster : Fat D → ℕ → Bool → ℕ × Fat D
  append_cluster fat current_cluster fast =
      let r = get_table_value fat current_cluster in
      if ltb 2 r.0 && ltb r.0 0x0ffffff8
      then (inconsistent_state, r.1)
      else (let a = allocate_cluster r.1 in
          elim (a.0) [
            | none ↦ (not_enough_space, a.1)
            | some cluster ↦ link_cluster current_cluster cluster fast a.1
          ])

  -- The contents of the cluster are overwritten, whether this succeeds or not.
  unfoldable pub wipe_cluster : ℕ → Fat D → Fat D
  wipe_cluster cluster fat =
      let r = read_cluster fat cluster true in
      if r.0 == 0 then (write_cluster (zero_cluster r.1)).1 else r.1

  -- The loop of `delete_clusters`. Entries become 0, which ends a chain, so that there are no more rounds than entries.
  unfoldable pub delete_loop : ℕ → ℕ → Fat D → Fat D
  delete_loop zero cluster fat = fat
  delete_loop (suc fuel) cluster fat = elim (leb 2 cluster && ltb cluster 0x0ffffff8) [
    | false ↦ fat
    | true ↦
        let next = get_table_value (wipe_cluster cluster fat) cluster in
        delete_loop fuel next.0 (set_table_value next.1 cluster 0).1
  ]

  unfoldable pub delete_clusters : Fat D → ℕ → Fat D
  delete_clusters fat start_cluster =
      (write_table
        (record (delete_loop (fat.fs_clusters + 3) start_cluster fat) { last_allocated = 0 })).1
