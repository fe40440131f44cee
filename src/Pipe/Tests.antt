-- ===== src/Pipe/Tests.antt =====
-- The properties of kernel/vfs/pipe.c at concrete inputs, and runs.
use dancy.Base.{
  ◌<◌, ◌≡◌, refl, true, some, none, [], ◌∷◌, ◌++◌, take, length, ◌==◌, if◌then◌else◌, arith, set,
  replicate,
}
use dancy.Base.Int.{pos}
use dancy.Pipe.{
  pipe_size, Shared, Node, Others, reader, writer, success, pipe, empty, access, read_bytes,
  read_sections, n_read, write_bytes, write_sections, n_write,
}
use dancy.Pipe.Ring.{IsValid, contents}
use dancy.Pipe.Read.{nobody, Copies, n_read-Ends, n_read-Copies}
use dancy.Pipe.Read
use dancy.Pipe.Write
use dancy.Pipe.Write.{n_write-Ends}
use dancy.Pipe.Append.{Appends, n_write-Appends}
use dancy.Pipe.Nodes.{new_shared, alloc_node, n_poll, n_release}
use dancy.Pipe.Together.{
  HalfClosed, new_shared_lem, n_write-n_poll, n_read-n_poll, n_read-n_write, n_release-n_release,
}

abbrev read_end : Node
read_end = alloc_node reader

abbrev write_end : Node
write_end = alloc_node writer

new_IsValid : IsValid new_shared
new_IsValid = new_shared_lem.0

runs : Unit {0}
unfolding read_bytes read_sections n_read write_bytes write_sections n_write new_shared n_poll
runs = tt

-- A pipe that holds the two bytes 7 and 8, at the seam of the ring.
unfoldable two : Shared
two = record {
  signaled = true;
  count = pos 2;
  start = 4095;
  end = 1;
  base = set (set (replicate pipe_size 0) 4095 7) 0 8;
}

two-IsValid : IsValid two
unfolding two
two-IsValid = record { room = refl; start_in = omega arith; end_in = omega arith }

contents-two : contents two ≡ 7 ∷ 8 ∷ []
unfolding two
contents-two = refl

two_read : (n_read nobody read_end 5 two).bytes ≡ 7 ∷ 8 ∷ []
unfolding two runs
two_read = refl

wrong_end :
    ((n_read nobody write_end 5 two).status ≡ access)
    × ((n_write nobody read_end (1 ∷ []) two).status ≡ access)
unfolding runs
wrong_end = (refl, refl)

-- Another task writes a 9 between any two sections.
abbrev writes_nine : Others
writes_nine i q = (n_write nobody write_end (9 ∷ []) q).shared

n_read-Ends_example : Read.Ends [] 5 (n_read writes_nine read_end 5 two)
n_read-Ends_example =
    n_read-Ends writes_nine read_end 5 two
      (λ i q v. (n_write-Ends nobody write_end (9 ∷ []) q (λ j r h. h) v).valid) two-IsValid

n_read-Copies_example : Copies [] 1 two (n_read nobody read_end 1 two)
n_read-Copies_example = n_read-Copies read_end 1 two refl two-IsValid

n_write-Ends_example : Write.Ends 0 (1 ∷ 2 ∷ []) (n_write nobody write_end (1 ∷ 2 ∷ []) two)
n_write-Ends_example = n_write-Ends nobody write_end (1 ∷ 2 ∷ []) two (λ j r h. h) two-IsValid

n_write-Appends_example : Appends (1 ∷ 2 ∷ []) two (n_write nobody write_end (1 ∷ 2 ∷ []) two)
n_write-Appends_example = n_write-Appends write_end (1 ∷ 2 ∷ []) two refl two-IsValid

n_write-n_poll_example :
    let r = n_write nobody write_end (1 ∷ 2 ∷ []) two in
    (r.status ≡ success) × (r.size ≡ 2) × (contents r.shared ≡ contents two ++ (1 ∷ 2 ∷ []))
unfolding runs two
n_write-n_poll_example =
    n_write-n_poll write_end 4 (1 ∷ 2 ∷ []) two refl two-IsValid refl (omega arith) (omega arith)

n_read-n_poll_example :
    let r = n_read nobody read_end 5 two in (r.status ≡ success) × (0 < length r.bytes)
unfolding runs two
n_read-n_poll_example = n_read-n_poll read_end 1 5 two refl two-IsValid (omega arith) (omega arith)

n_read-n_write_example :
    (n_read nobody read_end 9 (n_write nobody write_end (1 ∷ 2 ∷ []) new_shared).shared).bytes
    ≡ 1 ∷ 2 ∷ []
n_read-n_write_example =
    n_read-n_write read_end write_end (1 ∷ 2 ∷ []) 9 new_shared refl refl new_IsValid
      new_shared_lem.2 new_shared_lem.1 (omega arith) (omega arith)

n_release-n_release_example :
    (q : Shared) × (n_release read_end two ≡ (none, some q))
    × HalfClosed two q
    × (write_end.kind ≡ writer
        → let r = n_write nobody write_end (1 ∷ []) q in
          (r.status ≡ pipe) × (r.size ≡ 0) × (contents r.shared ≡ contents two))
    × (write_end.kind ≡ reader
        → let r = n_read nobody write_end 3 q in
          (r.bytes ≡ take 3 (contents two))
          × (r.status ≡ (if length r.bytes == 0 then empty else success)))
    × (n_release write_end q ≡ (none, none))
unfolding two
n_release-n_release_example =
    n_release-n_release read_end write_end (1 ∷ []) 3 two refl refl refl two-IsValid
