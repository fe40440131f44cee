-- ===== src/Pipe/Read.antt =====
-- `n_read`, whatever the other tasks do between its sections.
use dancy.Base.{
  ℕ, zero, suc, ◌+◌, ◌-◌, ◌≤◌, ◌<◌, ◌≡◌, ◌≢◌, ap, ◌∙◌, arith, min, ◌&&◌, not, List, [], ◌++◌, ◌==◌,
  if◌then◌else◌, length, length-append, length-take, take-le_split, drop-le_split, take_all,
  drop_all, take, drop, append_assoc,
}
use dancy.Pipe.{
  atomic_size, success, empty, out_of_fuel, Shared, Others, Node, Reading, reader, both_open,
  wake_if_closed, read_bytes, read_sections, n_read,
}
use dancy.Pipe.Ring.{used, contents, length-window, IsValid, read_bytes_lem}

-- The other tasks keep the shared data in order.
abbrev pub Keeps : Others → Type 0
Keeps others = (i : ℕ) (q : Shared) → IsValid q → IsValid (others i q)

length-read_bytes : (k : ℕ) (p : Shared) → IsValid p → length (read_bytes k p).0 ≡ min k (used p)
length-read_bytes k p v =
    ap length (read_bytes_lem k p v).bytes_are
    ∙ length-take k (contents p)
    ∙ ap (min k) (length-window p.base p.start (used p))

-- The loop ends, keeps the ring in order, and copies `want` bytes at most.
pub record Ends (got : List ℕ) (want : ℕ) (r : Reading) : Type 0 where
  pub finished : r.status ≢ out_of_fuel
  pub valid : IsValid r.shared
  pub bounded : length r.bytes ≤ length got + want

module _ (others : Others) (keeps : Keeps others) where
  read_sections-Ends :
      (fuel i : ℕ) (got : List ℕ) (want : ℕ) (p : Shared)
      → want < fuel
      → IsValid p
      → Ends got want (read_sections others fuel i got want p)
  unfolding read_sections
  read_sections-Ends zero i got want p h v = absurd (omega arith)
  read_sections-Ends (suc fuel) i got want p h v =
      let k : ℕ = min want atomic_size in
      let bytes : List ℕ = (read_bytes k p).0 in
      let p' : Shared = (read_bytes k p).2 in
      ground (
        arith,
        read_bytes_lem k p v,
        length-read_bytes k p v,
        length-append got bytes,
        keeps i (wake_if_closed p'),
        read_sections-Ends fuel (i + 1) (got ++ bytes) (want - length bytes)
            (others i (wake_if_closed p')),
      )

-- No other task comes between.
abbrev pub nobody : Others
nobody i q = q

pub record Copies (got : List ℕ) (want : ℕ) (p : Shared) (r : Reading) : Type 0 where
  pub status_is : r.status ≡ (if not (both_open p) && (length r.bytes == 0) then empty else success)
  pub bytes_are : r.bytes ≡ got ++ take want (contents p)
  pub rest_are : contents r.shared ≡ drop want (contents p)

read_sections-Copies :
    (fuel i : ℕ) (got : List ℕ) (want : ℕ) (p : Shared)
    → want < fuel
    → IsValid p
    → Copies got want p (read_sections nobody fuel i got want p)
unfolding read_sections
read_sections-Copies zero i got want p h v = absurd (omega arith)
read_sections-Copies (suc fuel) i got want p h v =
    let k : ℕ = min want atomic_size in
    let bytes : List ℕ = (read_bytes k p).0 in
    let p' : Shared = (read_bytes k p).2 in
    ground (
      arith,
      read_bytes_lem k p v,
      length-read_bytes k p v,
      length-append got bytes,
      length-window p.base p.start (used p),
      take-le_split k want (contents p),
      drop-le_split k want (contents p),
      take_all k (contents p),
      take_all want (contents p),
      drop_all k (contents p),
      drop_all want (contents p),
      append_assoc got bytes (take (want - k) (drop k (contents p))),
      read_sections-Copies fuel (i + 1) (got ++ bytes) (want - length bytes) (wake_if_closed p'),
    )

-- Whatever the other tasks do to the pipe between the sections of `n_read`, as long as they keep the
-- ring in order: it ends, with the ring in order, and copies at most the bytes that it was asked for.
pub n_read-Ends :
    (others : Others) (n : Node) (want : ℕ) (p : Shared)
    → Keeps others
    → IsValid p
    → Ends [] want (n_read others n want p)
unfolding n_read
n_read-Ends others n want p keeps v =
    ground (arith, read_sections-Ends others keeps (suc want) 0 [] want p)

-- Undisturbed, `n_read` through the reading end takes the oldest bytes out of the pipe, as many as
-- it was asked for or as there are, and leaves the others in order. It fails, with DE_EMPTY, just when
-- it took nothing and an end is closed.
pub n_read-Copies :
    (n : Node) (want : ℕ) (p : Shared)
    → n.kind ≡ reader
    → IsValid p
    → Copies [] want p (n_read nobody n want p)
unfolding n_read
n_read-Copies n want p k v =
    ground (arith, read_sections-Copies (suc want) 0 [] want p (omega arith) v)
