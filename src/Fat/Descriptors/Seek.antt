-- ===== src/Fat/Descriptors/Seek.antt =====
-- `fat_seek` and `fat_tell` of common/fat.c against sums of integers.
use dancy.Base.{
  ℕ, zero, suc, ◌^◌, ◌≤◌, ◌<◌, ◌≡◌, Bool, true, false, length, ◌≢◌, get_or, ltb, ◌==◌,
  if◌then◌else◌, Option, none, some,
}
use dancy.Base.Int.{ℤ, pos, negsuc, ◌+ℤ◌}
use dancy.Fat.{le32}
use dancy.Fat.Descriptors.{FatFd, zero_fd, Descriptors, seek_error, fat_tell}

-- The position, if it is from 0 to `limit`.
abbrev pub within : ℕ → ℤ → Option ℕ
within limit (pos n) = if ltb limit n then none else some n
within limit (negsuc n) = none

-- The place that the offset counts from: the start, the current position, the end.
abbrev pub base : ℤ → FatFd → Option ℕ
base (negsuc n) entry = none
base (pos zero) entry = some 0
base (pos (suc zero)) entry = some entry.offset
base (pos (suc (suc zero))) entry = some (le32 entry.file_record 28)
base (pos (suc (suc (suc n)))) entry = none

-- Where `eof` is 2, which no function of fat.c stores, there is just going back and a position from the start.
abbrev pub blocked : ℤ → ℤ → FatFd → Bool
blocked (pos zero) offset entry = false
blocked whence (negsuc n) entry = false
blocked whence (pos n) entry = entry.eof == 2

abbrev pub sum_within : ℕ → ℤ → Option ℕ → Option ℕ
sum_within limit offset none = none
sum_within limit offset (some from) = within limit (pos from +ℤ offset)

abbrev pub sought : ℕ → ℤ → ℤ → FatFd → Option ℕ
sought limit offset whence entry =
    if blocked whence offset entry then none else sum_within limit offset (base whence entry)

-- An open descriptor of an instance that is ready, whose positions the instance can have.
pub record IsOpen (t : Descriptors) (i : ℕ) : Type 0 where
  pub is_ready : t.ready ≡ true
  pub small : i < 65536
  pub has_entry : i < t.fd_entries
  pub has_place : i < length t.fd
  pub is_open : ((get_or t.fd i zero_fd).opened == 0) ≡ false

pub record InRange (t : Descriptors) (i : ℕ) : Type 0 where
  pub some_size : 0 < t.maximum_file_size
  pub size_lt : t.maximum_file_size < 2 ^ 32
  pub offset_le : (get_or t.fd i zero_fd).offset ≤ t.maximum_file_size
  pub end_le : le32 (get_or t.fd i zero_fd).file_record 28 ≤ t.maximum_file_size

-- What `fat_seek` has done, where `place` is the position that is sought.
pub record Seeks (memory : Bool) (t : Descriptors) (i : ℕ) (place : Option ℕ) (r : ℕ × Descriptors)
    : Type 0 where
  pub value_is : r.0 ≡ elim place [ none ↦ seek_error | some off ↦ 0 ]
  pub told :
      fat_tell memory r.1 (pos i)
      ≡ (0, some (elim place [ none ↦ (get_or t.fd i zero_fd).offset | some off ↦ off ]), r.1)
  pub others : (j : ℕ) → i ≢ j → get_or (r.1).fd j zero_fd ≡ get_or t.fd j zero_fd
