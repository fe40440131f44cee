-- ===== src/Fat/Chains.antt =====
-- Deleting a chain of clusters in a table that is in memory.
use dancy.Base.{
  ℕ, zero, suc, ◌+◌, ◌≤◌, ◌<◌, ◌≡◌, ◌≢◌, refl, ap, sym, ◌∙◌, Bool, true, false, ◌&&◌, ◌||◌, List,
  [], ◌∷◌, length, leb, ltb, ◌==◌, ==_iff, if◌then◌else◌, arith, ℕ_discrete,
}
use dancy.Fat.{
  Io, FatType, type_12, type_16, type_32, Fat, get_table_value, set_table_value, wipe_cluster,
  delete_loop, delete_clusters,
}
use dancy.Fat.Entries.{
  Fits, InMemory, stored, entry, put, get_table_value-entry, set_table_value-put, entry-put_self,
  entry-put_other, put-Fits,
}
use dancy.Fat.Same.{SameTable, write_table-SameTable, wipe_cluster-SameTable}

abbrev pub member : ℕ → List ℕ → Bool
member j [] = false
member j (c ∷ cs) = c == j || member j cs

-- The clusters from a first one on, each at most once, up to an entry that is not a cluster's.
pub data Chain (next : ℕ → ℕ) (clusters : ℕ) : ℕ → List ℕ → Type 0 where
  chain_end : (c : ℕ) → (leb 2 c && ltb c 0x0ffffff8) ≡ false → Chain next clusters c []
  linked :
      (c : ℕ) (cs : List ℕ)
      → 2 ≤ c
      → c < clusters + 2
      → member c cs ≡ false
      → Chain next clusters (next c) cs
      → Chain next clusters c (c ∷ cs)

-- The chain does not depend on the entries of other clusters.
Chain-other :
    (next next' : ℕ → ℕ) (clusters i c : ℕ) (cs : List ℕ)
    → ((j : ℕ) → i ≢ j → j < clusters + 2 → next' j ≡ next j)
    → member i cs ≡ false
    → Chain next clusters c cs
    → Chain next' clusters c cs
Chain-other next next' clusters i _ _ same out (chain_end c e) = chain_end c e
Chain-other next next' clusters i _ _ same out (linked c cs low high once rest) =
    let ne : i ≢ c = λ e. ground (arith, (==_iff c i).1 (sym e)) in
    let out' : member i cs ≡ false = ground arith in
    let next_is : next' c ≡ next c = same c ne high in
    linked c cs low high once
      (rw next_is (Chain-other next next' clusters i (next c) cs same out' rest))

-- The table of the state.
pub record HasTable {D : Type 0} (t : FatType) (clusters : ℕ) (buf : List ℕ) (fat : Fat D)
    : Type 0 where
  pub type_is : fat.fat_type ≡ t
  pub clusters_are : fat.fs_clusters ≡ clusters
  pub buffer_is : fat.table_buffer ≡ buf

HasTable-same :
    {D : Type 0} (t : FatType) (clusters : ℕ) (buf : List ℕ) (fat fat' : Fat D)
    → HasTable t clusters buf fat
    → SameTable fat fat'
    → HasTable t clusters buf fat'
HasTable-same t clusters buf fat fat' has same = record {
  type_is = same.type_is ∙ has.type_is;
  clusters_are = same.clusters_are ∙ has.clusters_are;
  buffer_is = same.buffer_is ∙ has.buffer_is;
}

module _ {D : Type 0} (io : Io D) (t : FatType) (clusters : ℕ) (buf : List ℕ)
    (fits : Fits t clusters buf) where
  HasTable-InMemory : (fat : Fat D) → HasTable t clusters buf fat → InMemory fat
  HasTable-InMemory fat has = rw (has.type_is, has.clusters_are, has.buffer_is) fits

  get_HasTable :
      (fat : Fat D) (c : ℕ)
      → HasTable t clusters buf fat
      → c < clusters + 2
      → get_table_value io fat c ≡ (entry t buf c, fat)
  get_HasTable fat c has h =
      get_table_value-entry io fat c (HasTable-InMemory fat has) (omega (arith, has.clusters_are))
      ∙ ap (λ (t : FatType). (entry t fat.table_buffer c, fat)) has.type_is
      ∙ ap (λ (b : List ℕ). (entry t b c, fat)) has.buffer_is

  set_HasTable :
      (fat : Fat D) (c v : ℕ)
      → HasTable t clusters buf fat
      → c < clusters + 2
      → HasTable t clusters (put t buf c v) (set_table_value io fat c v).1
  set_HasTable fat c v has h =
      let e =
        set_table_value-put io fat c v (HasTable-InMemory fat has)
          (omega (arith, has.clusters_are)) in
      record {
        type_is = ap (λ (r : ℕ × Fat D). (r.1).fat_type) e ∙ has.type_is;
        clusters_are = ap (λ (r : ℕ × Fat D). (r.1).fs_clusters) e ∙ has.clusters_are;
        buffer_is =
            ap (λ (r : ℕ × Fat D). (r.1).table_buffer) e
            ∙ ap (λ (t : FatType). put t fat.table_buffer c v) has.type_is
            ∙ ap (λ (b : List ℕ). put t b c v) has.buffer_is;
      }

-- The entries of these clusters are 0, and the others are as they were.
pub record Cleared (t : FatType) (clusters : ℕ) (buf : List ℕ) (cs : List ℕ) {D : Type 0}
    (fat : Fat D) : Type 0 where
  pub buf' : List ℕ
  pub table : HasTable t clusters buf' fat
  pub entries :
      (j : ℕ) → j < clusters + 2 → entry t buf' j ≡ (if member j cs then 0 else entry t buf j)

Fits-small : (t : FatType) (clusters : ℕ) (buf : List ℕ) → Fits t clusters buf → clusters < 65525
Fits-small type_12 clusters buf fits = omega arith
Fits-small type_16 clusters buf fits = fits.0
Fits-small type_32 clusters buf fits = absurd fits

stored-zero : (t : FatType) → stored t 0 ≡ 0
unfolding stored
stored-zero type_12 = refl
stored-zero type_16 = refl
stored-zero type_32 = refl

module _ {D : Type 0} (io : Io D) where
  delete_loop-end :
      (fuel c : ℕ) (fat : Fat D)
      → (leb 2 c && ltb c 0x0ffffff8) ≡ false
      → delete_loop io fuel c fat ≡ fat
  unfolding delete_loop
  delete_loop-end zero c fat e = refl
  delete_loop-end (suc fuel) c fat e = rw (delete_loop, e) refl

  delete_loop-next :
      (fuel c v : ℕ) (fat : Fat D)
      → (leb 2 c && ltb c 0x0ffffff8) ≡ true
      → get_table_value io (wipe_cluster io c fat) c ≡ (v, wipe_cluster io c fat)
      → delete_loop io (suc fuel) c fat
        ≡ delete_loop io fuel v (set_table_value io (wipe_cluster io c fat) c 0).1
  unfolding delete_loop
  delete_loop-next fuel c v fat e e' =
      rw (delete_loop, e)
        (ap (λ (r : ℕ × Fat D). delete_loop io fuel r.0 (set_table_value io r.1 c 0).1) e')

  delete_loop-Cleared :
      (t : FatType) (clusters : ℕ) (buf : List ℕ) (c : ℕ) (cs : List ℕ) (fuel : ℕ) (fat : Fat D)
      → Fits t clusters buf
      → HasTable t clusters buf fat
      → Chain (entry t buf) clusters c cs
      → length cs < fuel
      → Cleared t clusters buf cs (delete_loop io fuel c fat)
  delete_loop-Cleared t clusters buf _ _ fuel fat fits has (chain_end c e) h =
      rw (delete_loop-end fuel c fat e) (record { buf' = buf; table = has; entries = λ j hj. refl })
  delete_loop-Cleared t clusters buf _ _ zero fat fits has (linked c cs low high once rest) h =
      absurd (omega arith)
  delete_loop-Cleared t clusters buf _ _ (suc fuel) fat fits has (linked c cs low high once rest)
        h =
      let fat1 : Fat D = wipe_cluster io c fat in
      let has1 = HasTable-same t clusters buf fat fat1 has (wipe_cluster-SameTable io c fat) in
      let has2 = set_HasTable io t clusters buf fits fat1 c 0 has1 high in
      let on : (leb 2 c && ltb c 0x0ffffff8) ≡ true =
        ground (arith, Fits-small t clusters buf fits) in
      let others = λ (j : ℕ) (ne : c ≢ j) (hj : j < clusters + 2).
        entry-put_other t clusters buf c j 0 fits high ne in
      let all =
        delete_loop-Cleared t clusters (put t buf c 0) (entry t buf c) cs fuel
          (set_table_value io fat1 c 0).1 (put-Fits t clusters buf c 0 fits) has2
          (Chain-other (entry t buf) (entry t (put t buf c 0)) clusters c (entry t buf c) cs others
            once rest)
          (omega arith) in
      rw
        (delete_loop-next fuel c (entry t buf c) fat on
          (get_HasTable io t clusters buf fits fat1 c has1 high))
        (record {
          buf' = all.buf';
          table = all.table;
          entries = λ j hj. all.entries j hj ∙ first j (ℕ_discrete c j);
        })
    where
      first :
          (j : ℕ)
          → Dec (c ≡ j)
          → (if member j cs then 0 else entry t (put t buf c 0) j)
            ≡ (if c == j || member j cs then 0 else entry t buf j)
      first j (yes e) =
          let same : (c == j) ≡ true = (==_iff c j).1 e in
          let zeroed : entry t (put t buf c 0) j ≡ 0 =
            ap (λ k. entry t (put t buf c 0) k) (sym e)
            ∙ entry-put_self t clusters buf c 0 fits high
            ∙ stored-zero t in
          rw (same, zeroed) (ground arith)
      first j (no ne) =
          let differ : (c == j) ≡ false = ground (arith, λ (e : c ≡ j). ne e) in
          rw (differ, entry-put_other t clusters buf c j 0 fits high ne) refl

Cleared-same :
    {D : Type 0} (t : FatType) (clusters : ℕ) (buf cs : List ℕ) (fat fat' : Fat D)
    → SameTable fat fat'
    → Cleared t clusters buf cs fat
    → Cleared t clusters buf cs fat'
Cleared-same t clusters buf cs fat fat' same all = record {
  buf' = all.buf';
  table = HasTable-same t clusters all.buf' fat fat' all.table same;
  entries = all.entries;
}

-- For a table in memory with entries of 12 or 16 bits, and a chain of clusters in it, each of them once and no
-- more than there are: after `delete_clusters` the entries of these clusters are 0 and all others are as they
-- were, whether or not the device takes what is written.
pub delete_clusters-Cleared :
    {D : Type 0} (io : Io D) (fat : Fat D) (c : ℕ) (cs : List ℕ)
    → InMemory fat
    → Chain (entry fat.fat_type fat.table_buffer) fat.fs_clusters c cs
    → length cs ≤ fat.fs_clusters
    → Cleared fat.fat_type fat.fs_clusters fat.table_buffer cs (delete_clusters io fat c)
unfolding delete_clusters
delete_clusters-Cleared io fat c cs fits chain h =
    let deleted = delete_loop io (fat.fs_clusters + 3) c fat in
    let all =
      delete_loop-Cleared io fat.fat_type fat.fs_clusters fat.table_buffer c cs
        (fat.fs_clusters + 3) fat fits
        (record { type_is = refl; clusters_are = refl; buffer_is = refl }) chain (omega arith) in
    Cleared-same fat.fat_type fat.fs_clusters fat.table_buffer cs
      (record deleted { last_allocated = 0 }) _
      (write_table-SameTable io (record deleted { last_allocated = 0 }))
      (Cleared-same fat.fat_type fat.fs_clusters fat.table_buffer cs deleted
        (record deleted { last_allocated = 0 })
        (record { type_is = refl; clusters_are = refl; buffer_is = refl }) all)
