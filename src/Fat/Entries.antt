-- ===== src/Fat/Entries.antt =====
-- `get_table_value` and `set_table_value` where the whole table is in memory, with entries of 12 or 16 bits.
use dancy.Base.{
  ℕ, ◌+◌, ◌*◌, ◌/◌, ◌%◌, ◌^◌, ◌≤◌, ◌<◌, ◌≡◌, ◌≢◌, ◌⊎◌, bit_and, bit_or, refl, ap, sym, ◌∙◌, Bool,
  true, false, List, length, leb, ltb, ◌==◌, ==_iff, if◌then◌else◌, arith, ℕ_discrete, Bool-cases,
  inl, inr,
}
use dancy.Base.Bits.{bit_and-ones, bit_or-add}
use dancy.Fat.{
  Io, FatType, type_12, type_16, type_32, Fat, le16, w_le16, table_value, get_table_value, mark_12,
  mark_sector, write_value, set_table_value,
}
use dancy.Fat.Values.{
  le16-lt, le16-w_le16, le16-w_le16_other, length-w_le16, entry_12, word_12, entry_12_self,
  entry_12_other,
}

-- A table with its entries in the buffer.
abbrev pub Fits : FatType → ℕ → List ℕ → Type 0
Fits type_12 clusters buf = (clusters < 4085) × (((clusters + 2) * 3 + 1) / 2 ≤ length buf)
Fits type_16 clusters buf = (clusters < 65525) × ((clusters + 2) * 2 ≤ length buf)
Fits type_32 clusters buf = ⊥

abbrev pub InMemory : {D : Type 0} → Fat D → Type 0
InMemory fat = Fits fat.fat_type fat.fs_clusters fat.table_buffer

-- What is read back of a value: its low bits, with the marks of an end extended to 28 bits.
unfoldable pub stored : FatType → ℕ → ℕ
stored type_12 val = if leb 0x0ff8 (val % 2 ^ 12) then 0x0ffff000 + val % 2 ^ 12 else val % 2 ^ 12
stored type_16 val = if leb 0xfff8 (val % 2 ^ 16) then 0x0fff0000 + val % 2 ^ 16 else val % 2 ^ 16
stored type_32 val = val % 2 ^ 28

-- The entry in the bytes, and the bytes with an entry changed.
abbrev pub entry : FatType → List ℕ → ℕ → ℕ
entry type_12 buf off = stored type_12 (entry_12 buf off)
entry type_16 buf off = stored type_16 (le16 buf (off * 2))
entry type_32 buf off = 0

abbrev pub put : FatType → List ℕ → ℕ → ℕ → List ℕ
put type_12 buf off val = w_le16 buf (off + off / 2) (word_12 buf off val)
put type_16 buf off val = w_le16 buf (off * 2) val
put type_32 buf off val = buf

-- The marks of the sectors that are to be written.
abbrev pub marks : FatType → ℕ → ℕ → List ℕ → List ℕ
marks type_12 off size sectors = mark_12 (off + off / 2) size sectors
marks type_16 off size sectors = mark_sector (off * 2) size sectors
marks type_32 off size sectors = sectors

extend_12 :
    (x : ℕ)
    → (if leb 0x0ff8 (x % 4096) then bit_or 0x0ffff000 (x % 4096) else x % 4096)
      ≡ stored type_12 (x % 4096)
unfolding stored
extend_12 x =
    let wide : bit_or 0x0ffff000 (x % 4096) ≡ 0x0ffff000 + x % 4096 =
      bit_or-add 12 0xffff (x % 4096) (omega arith) in
    let twice : x % 4096 % 2 ^ 12 ≡ x % 4096 = omega arith in rw (wide, twice) refl

extend_16 :
    (x : ℕ) → x < 2 ^ 16 → (if leb 0xfff8 x then bit_or 0x0fff0000 x else x) ≡ stored type_16 x
unfolding stored
extend_16 x h =
    let wide : bit_or 0x0fff0000 x ≡ 0x0fff0000 + x = bit_or-add 16 0xfff x h in
    let small : x % 2 ^ 16 ≡ x = omega arith in rw (wide, small) refl

low_12 :
    (b : Bool) (word : ℕ)
    → bit_and (if b then word / 16 else word) 0x0fff ≡ (if b then word / 16 % 4096 else word % 4096)
low_12 true word = bit_and-ones 12 (word / 16)
low_12 false word = bit_and-ones 12 word

low_12_twice :
    (b : Bool) (word : ℕ)
    → (if b then word / 16 % 4096 else word % 4096)
      ≡ (if b then word / 16 % 4096 else word % 4096) % 4096
low_12_twice true word = omega arith
low_12_twice false word = omega arith

module _ {D : Type 0} (io : Io D) (fat : Fat D) where
  table_value-entry :
      (t : FatType) (off : ℕ)
      → Fits t fat.fs_clusters fat.table_buffer
      → table_value io t off fat ≡ (entry t fat.table_buffer off, fat)
  unfolding table_value
  table_value-entry type_12 off fits =
      ap (λ v. (v, fat))
        (rw
          (
            low_12 (off % 2 == 1) (le16 fat.table_buffer (off + off / 2)),
            low_12_twice (off % 2 == 1) (le16 fat.table_buffer (off + off / 2)),
          )
          (extend_12 (entry_12 fat.table_buffer off)))
  table_value-entry type_16 off fits =
      ap (λ v. (v, fat)) (extend_16 _ (le16-lt fat.table_buffer (off * 2)))
  table_value-entry type_32 off fits = absurd fits

  pub get_table_value-entry :
      (off : ℕ)
      → InMemory fat
      → off < fat.fs_clusters + 2
      → get_table_value io fat off ≡ (entry fat.fat_type fat.table_buffer off, fat)
  unfolding get_table_value
  get_table_value-entry off fits h =
      let t : leb (fat.fs_clusters + 2) off ≡ false = ground arith in
      rw (get_table_value, t) (table_value-entry fat.fat_type off fits)

  write_value-put :
      (t : FatType) (off val : ℕ)
      → Fits t fat.fs_clusters fat.table_buffer
      → write_value io t off val fat ≡ (
        0,
        record fat {
          table_sectors = marks t off fat.fs_bytes_per_sector fat.table_sectors;
          table_buffer = put t fat.table_buffer off val;
        },
      )
  unfolding write_value
  write_value-put type_12 off val fits = refl
  write_value-put type_16 off val fits = refl
  write_value-put type_32 off val fits = absurd fits

  pub set_table_value-put :
      (off val : ℕ)
      → InMemory fat
      → off < fat.fs_clusters + 2
      → set_table_value io fat off val ≡ (
        0,
        record fat {
          table_sectors = marks fat.fat_type off fat.fs_bytes_per_sector fat.table_sectors;
          table_buffer = put fat.fat_type fat.table_buffer off val;
        },
      )
  unfolding set_table_value
  set_table_value-put off val fits h =
      let t : leb (fat.fs_clusters + 2) off ≡ false = ground arith in
      rw (set_table_value, t) (write_value-put fat.fat_type off val fits)

stored-entry : (v : ℕ) → stored type_12 (v % 4096) ≡ stored type_12 v
unfolding stored
stored-entry v = let twice : v % 4096 % 2 ^ 12 ≡ v % 2 ^ 12 = omega arith in rw twice refl

stored-word : (v : ℕ) → stored type_16 (v % 2 ^ 16) ≡ stored type_16 v
unfolding stored
stored-word v = let twice : v % 2 ^ 16 % 2 ^ 16 ≡ v % 2 ^ 16 = omega arith in rw twice refl

pub entry-put_self :
    (t : FatType) (clusters : ℕ) (buf : List ℕ) (off val : ℕ)
    → Fits t clusters buf
    → off < clusters + 2
    → entry t (put t buf off val) off ≡ stored t val
entry-put_self type_12 clusters buf off val fits h =
    ap (λ v. stored type_12 v) (entry_12_self buf off val (omega arith)) ∙ stored-entry val
entry-put_self type_16 clusters buf off val fits h =
    ap (λ v. stored type_16 v) (le16-w_le16 buf (off * 2) val (omega arith)) ∙ stored-word val
entry-put_self type_32 clusters buf off val fits h = absurd fits

pub entry-put_other :
    (t : FatType) (clusters : ℕ) (buf : List ℕ) (off off' val : ℕ)
    → Fits t clusters buf
    → off < clusters + 2
    → off ≢ off'
    → entry t (put t buf off val) off' ≡ entry t buf off'
entry-put_other type_12 clusters buf off off' val fits h ne =
    ap (λ v. stored type_12 v) (entry_12_other buf off off' val (omega arith) ne)
entry-put_other type_16 clusters buf off off' val fits h ne =
    ap (λ v. stored type_16 v)
      (le16-w_le16_other buf (off * 2) (off' * 2) val (sides (Bool-cases (ltb off off'))))
  where
    sides :
        (ltb off off' ≡ true) ⊎ (ltb off off' ≡ false)
        → (off * 2 + 1 < off' * 2) ⊎ (off' * 2 + 1 < off * 2)
    sides (inl t) = inl (ground arith)
    sides (inr t) = inr (ground (arith, λ (e : off ≡ off'). ne e))
entry-put_other type_32 clusters buf off off' val fits h ne = absurd fits

pub put-Fits :
    (t : FatType) (clusters : ℕ) (buf : List ℕ) (off val : ℕ)
    → Fits t clusters buf
    → Fits t clusters (put t buf off val)
put-Fits type_12 clusters buf off val fits =
    (fits.0, rw (length-w_le16 buf (off + off / 2) (word_12 buf off val)) fits.1)
put-Fits type_16 clusters buf off val fits = (fits.0, rw (length-w_le16 buf (off * 2) val) fits.1)
put-Fits type_32 clusters buf off val fits = fits

module _ {D : Type 0} (io : Io D) (fat : Fat D) (fits : InMemory fat) where
  pub set_table_value-InMemory :
      (off val : ℕ) → off < fat.fs_clusters + 2 → InMemory (set_table_value io fat off val).1
  set_table_value-InMemory off val h =
      rw (set_table_value-put io fat off val fits h)
        (put-Fits fat.fat_type fat.fs_clusters fat.table_buffer off val fits)

  -- For a table in memory with entries of 12 or 16 bits, and two of its entries: `set_table_value` succeeds, and
  -- `get_table_value` then gives the low bits of the value, extended to 28 bits if it marks an end, for the entry
  -- that was set, and for any other one what it gave before.
  pub get_table_value-set_table_value :
      (off off' val : ℕ)
      → off < fat.fs_clusters + 2
      → off' < fat.fs_clusters + 2
      → ((set_table_value io fat off val).0 ≡ 0)
        × ((get_table_value io (set_table_value io fat off val).1 off').0
            ≡ (if off == off' then stored fat.fat_type val else (get_table_value io fat off').0))
  get_table_value-set_table_value off off' val h h' =
      rw (set_table_value-put io fat off val fits h) (
        refl,
        ap (λ r. r.0)
              (get_table_value-entry io
                (record fat {
                  table_sectors = marks fat.fat_type off fat.fs_bytes_per_sector fat.table_sectors;
                  table_buffer = put fat.fat_type fat.table_buffer off val;
                })
                off' (put-Fits fat.fat_type fat.fs_clusters fat.table_buffer off val fits) h')
            ∙ which (ℕ_discrete off off'),
      )
    where
      which :
          Dec (off ≡ off')
          → entry fat.fat_type (put fat.fat_type fat.table_buffer off val) off'
            ≡ (if off == off' then stored fat.fat_type val else (get_table_value io fat off').0)
      which (yes e) =
          let t : (off == off') ≡ true = (==_iff off off').1 e in
          rw t (
            ap (λ k. entry fat.fat_type (put fat.fat_type fat.table_buffer off val) k) (sym e)
            ∙ entry-put_self fat.fat_type fat.fs_clusters fat.table_buffer off val fits h)
      which (no ne) =
          let t : (off == off') ≡ false = ground (arith, λ (e : off ≡ off'). ne e) in
          rw t (
            entry-put_other fat.fat_type fat.fs_clusters fat.table_buffer off off' val fits h ne
            ∙ sym (ap (λ r. r.0) (get_table_value-entry io fat off' fits h')))
