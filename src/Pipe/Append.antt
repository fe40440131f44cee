-- ===== src/Pipe/Append.antt =====
-- What an undisturbed `n_write` adds to the pipe.
use dancy.Base.{
  ◌⊎◌, Bool-cases, inl, inr, dec_lt, ℕ, zero, suc, ◌+◌, ◌-◌, ◌≤◌, ◌<◌, ◌≡◌, refl, ◌≢◌, ap, ap₂, ◌∙◌,
  sym, arith, min, true, false, ◌&&◌, not, List, [], ◌∷◌, ◌++◌, ltb, leb, if◌then◌else◌, length,
  length-take, length-drop, take-le_split, take, drop, ℕ_discrete, append-nil, append_assoc,
}
use dancy.Pipe.{
  pipe_size, atomic_size, success, retry, pipe, Shared, Node, Writing, writer, both_open,
  wake_if_stored, write_bytes, write_sections, n_write,
}
use dancy.Pipe.Ring.{used, contents, IsValid}
use dancy.Pipe.Store.{write_bytes_lem}
use dancy.Pipe.Read.{nobody}
use dancy.Pipe.Write.{undone, used-write_bytes, section_lem}

-- The bytes that there is room for.
abbrev pub free : Shared → ℕ
free p = pipe_size - 1 - used p

take-take_le : (n m : ℕ) (xs : List ℕ) → n ≤ m → take n (take m xs) ≡ take n xs
take-take_le zero m xs h = refl
take-take_le (suc n) zero xs h = absurd (omega arith)
take-take_le (suc n) (suc m) [] h = refl
take-take_le (suc n) (suc m) (x ∷ xs) h = ap (λ l. x ∷ l) (take-take_le n m xs (omega arith))

-- What one section adds, `n` bytes, with the event signalled.
record Section (src : List ℕ) (p : Shared) (n : ℕ) (q : Shared) : Type 0 where
  size_is : n ≡ min (min atomic_size (length src)) (free p)
  contents_are : contents q ≡ contents p ++ take n src
  used_is : used q ≡ used p + n
  open_is : both_open q ≡ both_open p
  valid : IsValid q

write_bytes-Section :
    (src : List ℕ) (p : Shared)
    → IsValid p
    → let (n, q) = write_bytes (take atomic_size src) p in Section src p n (wake_if_stored n q)
write_bytes-Section src p v =
    let w = write_bytes_lem (take atomic_size src) p v in
    let n : ℕ = (write_bytes (take atomic_size src) p).0 in
    let len = length-take atomic_size src in
    let size : n ≡ min (min atomic_size (length src)) (free p) = omega (arith, w.size_is, len) in
    record {
      size_is = size;
      contents_are = ground (arith, w, take-take_le n atomic_size src);
      used_is = ground (arith, used-write_bytes (take atomic_size src) p v);
      open_is = ground (arith, w);
      valid = (section_lem src p v).2;
    }

record Stored (size : ℕ) (src : List ℕ) (p : Shared) (r : Writing) : Type 0 where
  status_is : r.status ≡ success
  size_is : r.size ≡ size + min (length src) (free p)
  contents_are : contents r.shared ≡ contents p ++ take (min (length src) (free p)) src

-- A section, and the rest of the loop after it.
step_Stored :
    (size : ℕ) (src : List ℕ) (p : Shared) (n : ℕ) (q : Shared) (r : Writing)
    → Section src p n q
    → Stored (size + n) (drop n src) q r
    → Stored size src p r
step_Stored size src p n q r s h = record {
  status_is = h.status_is;
  size_is = omega (arith, h.size_is, s.size_is, s.used_is, length-drop n src);
  contents_are =
      h.contents_are
      ∙ ap₂ (λ l m. l ++ take m (drop n src)) s.contents_are
          (omega (arith, s.size_is, s.used_is, length-drop n src))
      ∙ append_assoc (contents p) (take n src) _
      ∙ ap (λ l. contents p ++ l)
          (sym (take-le_split n (min (length src) (free p)) src (omega (arith, s.size_is))));
}

-- The last section of a loop.
last_Stored :
    (size : ℕ) (src : List ℕ) (p : Shared) (n : ℕ) (q : Shared)
    → Section src p n q
    → (n ≡ 0) ⊎ (n ≡ length src)
    → Stored size src p (record { status = success; size = size + n; shared = q })
last_Stored size src p n q s h = record {
  status_is = refl;
  size_is = omega (arith, all);
  contents_are = s.contents_are ∙ ap (λ m. contents p ++ take m src) all;
}
  where
    all : n ≡ min (length src) (free p)
    all = omega (arith, s.size_is)

module _ (requested : ℕ) (fuel i size : ℕ) (src : List ℕ) (p : Shared)
    (open_p : both_open p ≡ true) where
  abbrev wrote : ℕ × Shared
  wrote = write_bytes (take atomic_size src) p

  abbrev after : Shared
  after = wake_if_stored wrote.0 wrote.1

  large_last :
      atomic_size < requested
      → (wrote.0 ≡ 0) ⊎ (requested ≤ size + wrote.0)
      → write_sections nobody requested (suc fuel) i size src p
        ≡ record { status = success; size = size + wrote.0; shared = after }
  unfolding write_sections
  large_last many h = ground arith

  large_next :
      atomic_size < requested
      → wrote.0 ≢ 0
      → size + wrote.0 < requested
      → write_sections nobody requested (suc fuel) i size src p
        ≡ write_sections nobody requested fuel (i + 1) (size + wrote.0) (drop wrote.0 src) after
  unfolding write_sections
  large_next many h h' = ground arith

  small_all :
      requested ≤ atomic_size
      → requested ≡ wrote.0
      → size ≡ 0
      → write_sections nobody requested (suc fuel) i size src p
        ≡ record { status = success; size = wrote.0; shared = after }
  unfolding write_sections
  small_all few h z = ground arith

  small_some :
      requested ≤ atomic_size
      → requested ≢ wrote.0
      → write_sections nobody requested (suc fuel) i size src p
        ≡ record { status = retry; size = 0; shared = record wrote.1 { end = p.end } }
  unfolding write_sections
  small_some few h = ground arith

large_Stored :
    (requested : ℕ)
    → atomic_size < requested
    → (fuel i size : ℕ) (src : List ℕ) (p : Shared) → length src < fuel
    → size + length src ≡ requested
    → both_open p ≡ true
    → IsValid p
    → Stored size src p (write_sections nobody requested fuel i size src p)
large_Stored requested many zero i size src p h e open_p v = absurd (omega arith)
large_Stored requested many (suc fuel) i size src p h e open_p v =
    let (n, q) = wrote requested fuel i size src p open_p in
    let s = write_bytes-Section src p v in
    elim (dec_lt 0 n) [
      | no zero_stored ↦
          rw (large_last requested fuel i size src p open_p many (inl (omega arith)))
            (last_Stored size src p n _ s (inl (omega arith)))
      | yes some_stored ↦ elim (dec_lt (size + n) requested) [
        | no all ↦
            rw (large_last requested fuel i size src p open_p many (inr (omega arith)))
              (last_Stored size src p n _ s (inr (omega (arith, s.size_is))))
        | yes more ↦ rw (large_next requested fuel i size src p open_p many (omega arith) more) (
            step_Stored size src p n _ _ s (
              large_Stored requested many fuel (i + 1) (size + n) (drop n src) (wake_if_stored n q)
                (omega (arith, length-drop n src)) (omega (arith, s.size_is, length-drop n src))
                (s.open_is ∙ open_p) s.valid))
      ]
    ]

-- How many bytes of `src` the pipe takes: none if an end is closed, none of a short write that does not
-- fit as a whole, and else as many as there is room for.
abbrev pub accepted : List ℕ → Shared → ℕ
accepted src p =
    if not (both_open p)
    then 0
    else if leb (length src) atomic_size && ltb (free p) (length src)
    then 0
    else min (length src) (free p)

pub record Appends (src : List ℕ) (p : Shared) (r : Writing) : Type 0 where
  pub status_is : r.status ≡ (
      if not (both_open p)
      then pipe
      else if leb (length src) atomic_size && ltb (free p) (length src)
      then retry
      else success)
  pub size_is : r.size ≡ accepted src p
  pub contents_are : contents r.shared ≡ contents p ++ take (accepted src p) src

closed_Appends :
    (fuel : ℕ) (src : List ℕ) (p : Shared)
    → both_open p ≡ false
    → Appends src p (write_sections nobody (length src) (suc fuel) 0 0 src p)
unfolding write_sections
closed_Appends fuel src p c = ground (arith, append-nil (contents p))

small_Appends :
    (fuel : ℕ) (src : List ℕ) (p : Shared)
    → both_open p ≡ true
    → length src ≤ atomic_size
    → IsValid p
    → Appends src p (write_sections nobody (length src) (suc fuel) 0 0 src p)
small_Appends fuel src p o few v =
    let (n, q) = wrote (length src) fuel 0 0 src p o in
    let s = write_bytes-Section src p v in
    elim (ℕ_discrete (length src) n) [
      | yes all ↦ rw (small_all (length src) fuel 0 0 src p o few all refl) (ground (arith, s))
      | no some_left ↦
          rw (small_some (length src) fuel 0 0 src p o few some_left)
            (ground (arith, s.size_is, undone (take atomic_size src) p v, append-nil (contents p)))
    ]

large_Appends :
    (fuel : ℕ) (src : List ℕ) (p : Shared)
    → length src < fuel
    → both_open p ≡ true
    → atomic_size < length src
    → IsValid p
    → Appends src p (write_sections nobody (length src) fuel 0 0 src p)
large_Appends fuel src p h o many v =
    ground (arith, large_Stored (length src) many fuel 0 0 src p h (omega arith) o v)

-- Undisturbed, `n_write` through the writing end fails with DE_PIPE if an end is closed; it takes a
-- write of at most 512 bytes as a whole or, with DE_RETRY, not at all; and of a longer write it takes
-- as many bytes as there is room for. What it takes stands behind what the pipe held, in order.
pub n_write-Appends :
    (n : Node) (src : List ℕ) (p : Shared)
    → n.kind ≡ writer
    → IsValid p
    → Appends src p (n_write nobody n src p)
unfolding n_write
n_write-Appends n src p k v =
    let fuel : ℕ = length src in
    rw (k, n_write)
      (elim (Bool-cases (both_open p)) [
        | inr closed ↦ closed_Appends fuel src p closed
        | inl o ↦ elim (dec_lt atomic_size (length src)) [
          | yes many ↦ large_Appends (suc fuel) src p (omega arith) o many v
          | no few ↦ small_Appends fuel src p o (omega arith) v
        ]
      ])
