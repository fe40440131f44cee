-- ===== src/Fat/Descriptors.antt =====
-- common/fat.c, the file descriptors: `check_fd`, `fat_close`, `fat_eof`, `fat_seek` and `fat_tell`. An `int` is
-- an integer; whether `malloc` gives a larger array of descriptors is an argument.
pub mod Seek
use dancy.Base.{
  ℕ, zero, suc, ◌+◌, ◌-◌, ◌%◌, ◌^◌, Bool, true, false, not, ◌&&◌, ◌||◌, List, [], ◌++◌, length,
  get_or, set, take, replicate, ltb, leb, ◌==◌, if◌then◌else◌, Option, none, some,
}
use dancy.Base.Int.{ℤ, pos, negsuc}
use dancy.Fat.{le32}

pub record FatFd : Type 0 where
  pub opened : ℕ
  pub mode : ℕ
  pub file_record : List ℕ
  pub record_offset : ℕ
  pub record_sector : ℕ
  pub eof : ℕ
  pub offset : ℕ
  pub cluster_idx : ℕ
  pub cluster_val : ℕ

-- What `memset` leaves.
abbrev pub zero_fd : FatFd
zero_fd = record {
  opened = 0;
  mode = 0;
  file_record = replicate 32 0;
  record_offset = 0;
  record_sector = 0;
  eof = 0;
  offset = 0;
  cluster_idx = 0;
  cluster_val = 0;
}

-- The fields of an instance that the functions use.
pub record Descriptors : Type 0 where
  pub ready : Bool
  pub fd_entries : ℕ
  pub fd_special : ℕ
  pub fd : List FatFd
  pub maximum_file_size : ℕ

abbrev pub invalid_parameters : ℕ
invalid_parameters = 0x17

abbrev pub not_ready : ℕ
not_ready = 0x19

abbrev pub seek_error : ℕ
seek_error = 0x1c

-- The number of entries after more are allocated.
unfoldable pub more_entries : ℕ → ℕ → ℕ
more_entries entries i =
    let wanted = if ltb (i + 2) (entries + 8) then entries + 8 else i + 2 in
    if ltb 65537 wanted then 65537 else wanted

unfoldable pub with_more : ℕ → Descriptors → Descriptors
with_more new_fd_entries t = record t {
  fd = take t.fd_entries t.fd ++ replicate (new_fd_entries - t.fd_entries) zero_fd;
  fd_entries = new_fd_entries - 1;
  fd_special = new_fd_entries - 1;
}

-- Whether an entry is open does not agree with `opened`.
abbrev pub differs : FatFd → Bool → ℕ
differs entry true = if entry.opened == 0 then 1 else 0
differs entry false = if entry.opened == 0 then 0 else 1

unfoldable pub check_fd : Bool → Descriptors → ℤ → Bool → ℕ × Descriptors
check_fd memory t (negsuc n) opened = (1, t)
check_fd memory t (pos i) opened =
    if leb 65536 i
    then (1, t)
    else if leb t.fd_entries i
    then (if memory
        then (let t' = with_more (more_entries t.fd_entries i) t in
            (differs (get_or t'.fd i zero_fd) opened, t'))
        else (1, t))
    else (differs (get_or t.fd i zero_fd) opened, t)

-- The index of a descriptor that `check_fd` takes.
abbrev pub index : ℤ → ℕ
index (pos i) = i
index (negsuc n) = 0

unfoldable pub fat_close : Bool → Descriptors → ℤ → ℕ × Descriptors
fat_close memory t fd =
    let opened = check_fd memory t fd true in
    let closed = if opened.0 == 0 then opened else check_fd memory opened.1 fd false in
    let t' = closed.1 in
    if not t.ready
    then (not_ready, t)
    else if not (closed.0 == 0)
    then (invalid_parameters, t')
    else (
      0,
      record t' {
        fd = set t'.fd (index fd) (record (get_or t'.fd (index fd) zero_fd) { opened = 0 });
      },
    )

unfoldable pub fat_eof : Bool → Descriptors → ℤ → ℕ × Descriptors
fat_eof memory t fd =
    let r = check_fd memory t fd true in
    if not t.ready
    then (0, t)
    else if not (r.0 == 0)
    then (0, r.1)
    else (if (get_or (r.1).fd (index fd) zero_fd).eof == 0 then 0 else 1, r.1)

-- `while (extra_sub--)`; `none` is a return of FAT_SEEK_ERROR, here and below.
unfoldable pub extra_loop : ℕ → ℕ → Option ℕ
extra_loop zero off = some off
extra_loop (suc extra_sub) off = elim (off == 0) [
  | true ↦ none
  | false ↦ extra_loop extra_sub (off - 1)
]

unfoldable pub seek_set : ℕ → ℤ → Option ℕ
seek_set maximum_offset (pos n) = if ltb maximum_offset n then none else some n
seek_set maximum_offset (negsuc n) = none

-- Below 0, the offset is limited to `INT_MAX` bytes back, and the loop takes the others.
unfoldable pub seek_off : ℕ → ℤ → ℕ → ℕ → Option ℕ
seek_off maximum_offset (pos val) eof off =
    if eof == 2
    then none
    else if ltb (0xffffffff - val) off
    then none
    else if ltb maximum_offset (off + val)
    then none
    else some (off + val)
seek_off maximum_offset (negsuc n) eof off =
    let val = if ltb 0x7fffffff (n + 1) then 0x7fffffff else n + 1 in
    if ltb off val then none else extra_loop (n + 1 - val) (off - val)

unfoldable pub seek_whence : ℤ → ℕ → ℤ → FatFd → Option ℕ
seek_whence (negsuc n) maximum_offset offset entry = none
seek_whence (pos zero) maximum_offset offset entry = seek_set maximum_offset offset
seek_whence (pos (suc zero)) maximum_offset offset entry =
    seek_off maximum_offset offset entry.eof entry.offset
seek_whence (pos (suc (suc zero))) maximum_offset offset entry =
    seek_off maximum_offset offset entry.eof (le32 entry.file_record 28)
seek_whence (pos (suc (suc (suc n)))) maximum_offset offset entry = none

-- The offset is stored and the end of the file forgotten.
unfoldable pub store_offset : ℕ → Descriptors → Option ℕ → ℕ × Descriptors
store_offset i t none = (seek_error, t)
store_offset i t (some off) =
    (0, record t { fd = set t.fd i (record (get_or t.fd i zero_fd) { offset = off; eof = 0 }) })

unfoldable pub fat_seek : Bool → Descriptors → ℤ → ℤ → ℤ → ℕ × Descriptors
fat_seek memory t fd offset whence =
    let r = check_fd memory t fd true in
    let maximum_offset = (t.maximum_file_size + 0xffffffff) % 2 ^ 32 in
    if not t.ready
    then (not_ready, t)
    else if not (r.0 == 0)
    then (invalid_parameters, r.1)
    else store_offset (index fd) r.1
        (seek_whence whence maximum_offset offset (get_or (r.1).fd (index fd) zero_fd))

-- What is stored at `offset`, with the code that is returned.
unfoldable pub fat_tell : Bool → Descriptors → ℤ → ℕ × Option ℕ × Descriptors
fat_tell memory t fd =
    let r = check_fd memory t fd true in
    if not t.ready
    then (not_ready, none, t)
    else if not (r.0 == 0)
    then (invalid_parameters, none, r.1)
    else (0, some (get_or (r.1).fd (index fd) zero_fd).offset, r.1)
