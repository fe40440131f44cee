-- ===== src/Pipe/Write.antt =====
-- `n_write`, whatever the other tasks do between its sections.
use dancy.Base.{
  ℕ, zero, suc, ◌+◌, ◌-◌, ◌%◌, ◌≤◌, ◌<◌, ◌≡◌, refl, ◌≢◌, ap, ◌≡⟨◌⟩◌, ◌∎, sym, arith, List, [], ◌∷◌,
  ◌++◌, get_or, length, length-append, length-take, length-drop, take, drop,
}
use dancy.Pipe.{
  pipe_size, atomic_size, out_of_fuel, Shared, Others, Node, Writing, wake_if_stored, write_bytes,
  write_sections, n_write,
}
use dancy.Pipe.Ring.{used, contents, window, length-window, IsValid}
use dancy.Pipe.Store.{write_bytes_lem}
use dancy.Pipe.Read.{Keeps}

take-window : (buf : List ℕ) (n m h : ℕ) → n ≤ m → take n (window buf h m) ≡ window buf h n
take-window buf zero m h le = refl
take-window buf (suc n) zero h le = absurd (omega arith)
take-window buf (suc n) (suc m) h le =
    ap (λ l. get_or buf h 0 ∷ l) (take-window buf n m ((h + 1) % pipe_size) (omega arith))

take-append_left : (xs ys : List ℕ) → take (length xs) (xs ++ ys) ≡ xs
take-append_left [] ys = refl
take-append_left (x ∷ xs) ys = ap (λ l. x ∷ l) (take-append_left xs ys)

pub used-write_bytes :
    (bs : List ℕ) (p : Shared)
    → IsValid p
    → used (write_bytes bs p).1 ≡ used p + (write_bytes bs p).0
used-write_bytes bs p v =
    let w = write_bytes_lem bs p v in
    let r = write_bytes bs p in
    omega (
      arith,
      ap length w.contents_are,
      length-window r.1.base r.1.start (used r.1),
      length-window p.base p.start (used p),
      length-append (contents p) (take r.0 bs),
      length-take r.0 bs,
      w.size_is,
    )

-- Putting the old end back takes all the stored bytes out again.
pub undone :
    (bs : List ℕ) (p : Shared)
    → IsValid p
    → contents (record (write_bytes bs p).1 { end = p.end }) ≡ contents p
undone bs p v =
    let w = write_bytes_lem bs p v in
    let q : Shared = (write_bytes bs p).1 in
    contents (record q { end = p.end })
    ≡⟨ ap (λ s. window q.base s ((p.end + pipe_size - s) % pipe_size)) w.start_is ⟩
      window q.base p.start (used p)
    ≡⟨ sym (take-window q.base (used p) (used q) p.start (omega (arith, used-write_bytes bs p v))) ⟩
      take (used p) (window q.base p.start (used q))
    ≡⟨ ap (λ s. take (used p) (window q.base s (used q))) (sym w.start_is) ⟩
      take (used p) (contents q)
    ≡⟨ ap (take (used p)) w.contents_are ⟩
      take (used p) (contents p ++ take (write_bytes bs p).0 bs)
    ≡⟨ ap (λ n. take n (contents p ++ take (write_bytes bs p).0 bs))
        (sym (length-window p.base p.start (used p))) ⟩
      take (length (contents p)) (contents p ++ take (write_bytes bs p).0 bs)
    ≡⟨ take-append_left (contents p) (take (write_bytes bs p).0 bs) ⟩ contents p ∎

-- The loop ends, keeps the ring in order, and stores no more than it was given.
pub record Ends (size : ℕ) (src : List ℕ) (r : Writing) : Type 0 where
  pub finished : r.status ≢ out_of_fuel
  pub valid : IsValid r.shared
  pub bounded : r.size ≤ size + length src

-- One section, by what comes next: it stores `n` bytes and leaves `q`.
pub section_lem :
    (src : List ℕ) (p : Shared)
    → IsValid p
    → let (n, q) = write_bytes (take atomic_size src) p in
      (n ≤ length src)
      × IsValid q
      × IsValid (wake_if_stored n q)
      × IsValid (record q { end = p.end })
section_lem src p v =
    let w = write_bytes_lem (take atomic_size src) p v in
    let stored : (write_bytes (take atomic_size src) p).0 ≤ length src =
      omega (arith, w.size_is, length-take atomic_size src) in
    (stored, w.valid, ground (arith, w.valid), ground (arith, w.valid))

module _ (others : Others) (keeps : Keeps others) (requested : ℕ) where
  write_sections-Ends :
      (fuel i size : ℕ) (src : List ℕ) (p : Shared)
      → length src < fuel
      → IsValid p
      → Ends size src (write_sections others requested fuel i size src p)
  unfolding write_sections
  write_sections-Ends zero i size src p h v = absurd (omega arith)
  write_sections-Ends (suc fuel) i size src p h v =
      let r = write_bytes (take atomic_size src) p in
      ground (
        arith,
        section_lem src p v,
        length-drop r.0 src,
        keeps i (wake_if_stored r.0 r.1),
        write_sections-Ends fuel (i + 1) (size + r.0) (drop r.0 src)
            (others i (wake_if_stored r.0 r.1)),
      )

-- Whatever the other tasks do to the pipe between the sections of `n_write`, as long as they keep the
-- ring in order: it ends, with the ring in order, and reports no more bytes than it was given.
pub n_write-Ends :
    (others : Others) (n : Node) (src : List ℕ) (p : Shared)
    → Keeps others
    → IsValid p
    → Ends 0 src (n_write others n src p)
unfolding n_write
n_write-Ends others n src p keeps v =
    ground (arith, write_sections-Ends others keeps (length src) (suc (length src)) 0 0 src p)
