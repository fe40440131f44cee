-- ===== src/Fat/Marks.antt =====
-- Which sectors of the table `set_table_value` marks, to be written by `write_table`.
use dancy.Base.{
  ℕ, ◌+◌, ◌-◌, ◌*◌, ◌/◌, ◌%◌, ◌<◌, ◌≡◌, ◌≢◌, ◌⊎◌, refl, ap, sym, ◌∙◌, true, false, List, length,
  length-set, get_or, set, ◌==◌, ==_iff, arith, ℕ_discrete, Bool-cases, inl, inr,
}
use dancy.Fat.{
  Io, FatType, type_12, type_16, type_32, Fat, w_le16, mark_12, mark_sector, set_table_value,
}
use dancy.Fat.Values.{get_or-set_self, get_or-set_ne, w_le16_other, w_le16_second, word_12}
use dancy.Fat.Entries.{Fits, InMemory, put, marks, set_table_value-put}

-- The sizes of a sector that a device can have.
abbrev pub SectorSize : ℕ → Type 0
SectorSize size = (size ≡ 512) ⊎ (size ≡ 1024) ⊎ (size ≡ 2048) ⊎ (size ≡ 4096)

-- The first byte of an entry.
abbrev pub place : FatType → ℕ → ℕ
place type_12 off = off + off / 2
place type_16 off = off * 2
place type_32 off = off * 4

changed_place :
    (buf : List ℕ) (i d j : ℕ)
    → get_or (w_le16 buf i d) j 0 ≢ get_or buf j 0
    → (i ≡ j) ⊎ (i + 1 ≡ j)
changed_place buf i d j ne = elim (ℕ_discrete i j) [
  | yes e ↦ inl e
  | no other ↦ elim (ℕ_discrete (i + 1) j) [
    | yes e ↦ inr e
    | no other' ↦ absurd (ne (w_le16_other buf i d j other other'))
  ]
]

-- An entry of 16 bits lies in one sector.
one_sector : (size off : ℕ) → SectorSize size → (off * 2 + 1) / size ≡ off * 2 / size
one_sector size off (inl e) = rw e (omega arith)
one_sector size off (inr (inl e)) = rw e (omega arith)
one_sector size off (inr (inr (inl e))) = rw e (omega arith)
one_sector size off (inr (inr (inr e))) = rw e (omega arith)

next_sector : (size : ℕ) → SectorSize size → (size - 1 + 1) / size ≡ (size - 1) / size + 1
next_sector size (inl e) = rw e refl
next_sector size (inr (inl e)) = rw e refl
next_sector size (inr (inr (inl e))) = rw e refl
next_sector size (inr (inr (inr e))) = rw e refl

module _ (add size : ℕ) (sectors : List ℕ) where
  mark_12_first : add / size < length sectors → get_or (mark_12 add size sectors) (add / size) 0 ≡ 1
  unfolding mark_12
  mark_12_first h = elim (Bool-cases (add == size - 1)) [
    | inl t ↦ rw t (
        get_or-set_self (set sectors (add / size + 1) 1) (add / size) 1 0
          (omega (arith, length-set sectors (add / size + 1) 1)))
    | inr t ↦ rw t (get_or-set_self sectors (add / size) 1 0 h)
  ]

  mark_12_second :
      add ≡ size - 1
      → add / size + 1 < length sectors
      → get_or (mark_12 add size sectors) (add / size + 1) 0 ≡ 1
  unfolding mark_12
  mark_12_second e h =
      let t : (add == size - 1) ≡ true = (==_iff add (size - 1)).1 e in
      rw t (
        get_or-set_ne (set sectors (add / size + 1) 1) (add / size) (add / size + 1) 1 0
          (omega arith)
        ∙ get_or-set_self sectors (add / size + 1) 1 0 h)

  mark_12_missed :
      add ≢ size - 1
      → get_or (mark_12 add size sectors) (add / size + 1) 0 ≡ get_or sectors (add / size + 1) 0
  unfolding mark_12
  mark_12_missed ne =
      let t : (add == size - 1) ≡ false = ground (arith, λ (e : add ≡ size - 1). ne e) in
      rw t (get_or-set_ne sectors (add / size) (add / size + 1) 1 0 (omega arith))

marks-changed :
    (t : FatType) (clusters off val size j : ℕ) (buf sectors : List ℕ)
    → Fits t clusters buf
    → SectorSize size
    → ((place t off + 1) / size ≡ place t off / size) ⊎ (place t off ≡ size - 1)
    → j / size < length sectors
    → get_or (put t buf off val) j 0 ≢ get_or buf j 0
    → get_or (marks t off size sectors) (j / size) 0 ≡ 1
marks-changed type_32 clusters off val size j buf sectors fits sized within h ne = absurd fits
marks-changed type_16 clusters off val size j buf sectors fits sized within h ne =
    unfold mark_sector in get_or_at (changed_place buf (off * 2) val j ne)
  where
    get_or_at :
        (off * 2 ≡ j) ⊎ (off * 2 + 1 ≡ j) → get_or (set sectors (off * 2 / size) 1) (j / size) 0 ≡ 1
    get_or_at (inl e) = rw (← e) (get_or-set_self sectors (off * 2 / size) 1 0 (rw e h))
    get_or_at (inr e) =
        let here : j / size ≡ off * 2 / size =
          ap (λ k. k / size) (sym e) ∙ one_sector size off sized in
        rw here (get_or-set_self sectors (off * 2 / size) 1 0 (omega (arith, here)))
marks-changed type_12 clusters off val size j buf sectors fits sized within h ne =
    at_place (changed_place buf (off + off / 2) (word_12 buf off val) j ne) within
  where
    at_place :
        (off + off / 2 ≡ j) ⊎ (off + off / 2 + 1 ≡ j)
        → ((off + off / 2 + 1) / size ≡ (off + off / 2) / size) ⊎ (off + off / 2 ≡ size - 1)
        → get_or (mark_12 (off + off / 2) size sectors) (j / size) 0 ≡ 1
    at_place (inl e) within =
        let here : j / size ≡ (off + off / 2) / size = ap (λ k. k / size) (sym e) in
        rw here (mark_12_first (off + off / 2) size sectors (omega (arith, here)))
    at_place (inr e) (inl same) =
        let here : j / size ≡ (off + off / 2) / size = ap (λ k. k / size) (sym e) ∙ same in
        rw here (mark_12_first (off + off / 2) size sectors (omega (arith, here)))
    at_place (inr e) (inr last) =
        let here : j / size ≡ (off + off / 2) / size + 1 =
          ap (λ k. k / size) (sym e)
          ∙ ap (λ k. (k + 1) / size) last
          ∙ next_sector size sized
          ∙ ap (λ k. k / size + 1) (sym last) in
        rw here (mark_12_second (off + off / 2) size sectors last (omega (arith, here)))

module _ {D : Type 0} (io : Io D) (fat : Fat D) (fits : InMemory fat) (off val : ℕ)
    (inside : off < fat.fs_clusters + 2) where
  -- For a table in memory with entries of 12 or 16 bits, and sectors of a size that a device can have: where
  -- `set_table_value` changes a byte of the table, the sector of the byte is marked afterwards, if the two bytes
  -- of the entry are in one sector, or in the first two sectors of the table.
  pub set_table_value-Marks :
      (j : ℕ)
      → SectorSize fat.fs_bytes_per_sector
      → ((place fat.fat_type off + 1) / fat.fs_bytes_per_sector
          ≡ place fat.fat_type off / fat.fs_bytes_per_sector)
        ⊎ (place fat.fat_type off ≡ fat.fs_bytes_per_sector - 1)
      → j / fat.fs_bytes_per_sector < length fat.table_sectors
      → get_or ((set_table_value io fat off val).1).table_buffer j 0 ≢ get_or fat.table_buffer j 0
      → get_or ((set_table_value io fat off val).1).table_sectors (j / fat.fs_bytes_per_sector) 0
        ≡ 1
  set_table_value-Marks j sized within h ne =
      let e = set_table_value-put io fat off val fits inside in
      ap (λ (r : ℕ × Fat D). get_or (r.1).table_sectors (j / fat.fs_bytes_per_sector) 0) e
      ∙ marks-changed fat.fat_type fat.fs_clusters off val fat.fs_bytes_per_sector j
          fat.table_buffer fat.table_sectors fits sized within h
          (λ e'. ne (ap (λ (r : ℕ × Fat D). get_or (r.1).table_buffer j 0) e ∙ e'))

  -- For a table in memory with entries of 12 bits, and an entry whose second byte is the first one of a sector
  -- after the second: `set_table_value` writes that byte, and does not mark the sector.
  pub set_table_value-unmarked :
      fat.fat_type ≡ type_12
      → (off + off / 2 + 1) / fat.fs_bytes_per_sector
        ≡ (off + off / 2) / fat.fs_bytes_per_sector + 1
      → off + off / 2 ≢ fat.fs_bytes_per_sector - 1
      → let s = (set_table_value io fat off val).1 in
        (get_or s.table_buffer (off + off / 2 + 1) 0 ≡ word_12 fat.table_buffer off val / 256 % 256)
        × (get_or s.table_sectors ((off + off / 2 + 1) / fat.fs_bytes_per_sector) 0
            ≡ get_or fat.table_sectors ((off + off / 2 + 1) / fat.fs_bytes_per_sector) 0)
  set_table_value-unmarked e next ne =
      let put_is = set_table_value-put io fat off val fits inside in
      let fits' : Fits type_12 fat.fs_clusters fat.table_buffer = rw e at fits in
      (
        ap (λ (r : ℕ × Fat D). get_or (r.1).table_buffer (off + off / 2 + 1) 0) put_is
            ∙ ap (λ (t : FatType). get_or (put t fat.table_buffer off val) (off + off / 2 + 1) 0) e
            ∙ w_le16_second fat.table_buffer (off + off / 2) (word_12 fat.table_buffer off val)
                (omega arith),
        ap
              (λ (r : ℕ × Fat D).
                get_or (r.1).table_sectors ((off + off / 2 + 1) / fat.fs_bytes_per_sector) 0)
              put_is
            ∙ ap
                (λ (t : FatType).
                  get_or (marks t off fat.fs_bytes_per_sector fat.table_sectors)
                    ((off + off / 2 + 1) / fat.fs_bytes_per_sector) 0)
                e
            ∙ ap
                (λ k.
                  get_or (mark_12 (off + off / 2) fat.fs_bytes_per_sector fat.table_sectors) k 0)
                next
            ∙ mark_12_missed (off + off / 2) fat.fs_bytes_per_sector fat.table_sectors ne
            ∙ ap (λ k. get_or fat.table_sectors k 0) (sym next),
      )
