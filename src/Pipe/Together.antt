-- ===== src/Pipe/Together.antt =====
-- The operations of a pipe together: what a poll promises, and what closing an end does.
use dancy.Base.{
  ◌⊎◌, ℕ, zero, ◌≤◌, ◌<◌, ◌≡◌, refl, ◌≢◌, ap, arith, Bool, true, false, ◌&&◌, List, [], ◌++◌, ◌==◌,
  if◌then◌else◌, length, length-take, take_all, take, append-nil, some, none, length-replicate,
}
use dancy.Base.Int.{pos, ◌-ℤ◌}
use dancy.Pipe.{
  pipe_size, atomic_size, success, memory, pipe, empty, Shared, Node, reader, writer, both_open,
  n_read, n_write,
}
use dancy.Pipe.Ring.{used, contents, length-window, IsValid}
use dancy.Pipe.Read.{nobody, n_read-Copies}
use dancy.Pipe.Write.{Ends, n_write-Ends}
use dancy.Pipe.Append.{n_write-Appends}
use dancy.Pipe.Nodes.{
  new_shared, alloc_node, vfs_pipe, n_poll, flag_if, poll_count, read_ok, write_ok,
  vfs_decrement_count, n_release,
}

poll_count-eq-used : (p : Shared) → IsValid p → poll_count p ≡ used p
poll_count-eq-used p v = ground arith

flag_if-false : (events flag r : ℕ) → flag_if false events flag r ≡ r
flag_if-false events flag r = refl

-- Where nothing is ready, `n_poll` reports nothing.
n_poll_idle :
    (n : Node) (events : ℕ) (p : Shared)
    → read_ok n p ≡ false
    → write_ok n p ≡ false
    → n_poll n events p ≡ 0
unfolding n_poll
n_poll_idle n events p r w = rw (r, w)

n_poll_writer :
    (n : Node) (events : ℕ) (p : Shared)
    → n.kind ≡ writer
    → n_poll n events p ≢ 0
    → poll_count p < 2048
n_poll_writer n events p k h = ground (arith, n_poll_idle n events p)

n_poll_reader :
    (n : Node) (events : ℕ) (p : Shared) → n.kind ≡ reader → n_poll n events p ≢ 0 → p.start ≢ p.end
n_poll_reader n events p k h e = ground (arith, n_poll_idle n events p)

-- When a poll of the writing end reports an event, a write of at most 512 bytes that no other task comes
-- before is taken as a whole, if the reading end is open.
pub n_write-n_poll :
    (n : Node) (events : ℕ) (src : List ℕ) (p : Shared)
    → n.kind ≡ writer
    → IsValid p
    → both_open p ≡ true
    → n_poll n events p ≢ 0
    → length src ≤ atomic_size
    → let r = n_write nobody n src p in
      (r.status ≡ success) × (r.size ≡ length src) × (contents r.shared ≡ contents p ++ src)
n_write-n_poll n events src p k v o h few = ground (
  arith,
  n_poll_writer n events p k h,
  poll_count-eq-used p v,
  n_write-Appends n src p k v,
  take_all (length src) src,
)

-- When a poll of the reading end reports an event, a read of at least one byte that no other task comes
-- before succeeds with at least one byte.
pub n_read-n_poll :
    (n : Node) (events want : ℕ) (p : Shared)
    → n.kind ≡ reader
    → IsValid p
    → n_poll n events p ≢ 0
    → 0 < want
    → let r = n_read nobody n want p in (r.status ≡ success) × (0 < length r.bytes)
n_read-n_poll n events want p k v h pos_want =
    let c = n_read-Copies n want p k v in
    let differ = n_poll_reader n events p k h in
    let len : 0 < length (n_read nobody n want p).bytes = omega (
      arith,
      ap length c.bytes_are,
      length-take want (contents p),
      length-window p.base p.start (used p),
    ) in
    (ground (arith, c.status_is), len)

-- Bytes that are written into an empty pipe and fit there come out of its other end as they went in.
pub n_read-n_write :
    (r w : Node) (src : List ℕ) (want : ℕ) (p : Shared)
    → r.kind ≡ reader
    → w.kind ≡ writer
    → IsValid p
    → both_open p ≡ true
    → contents p ≡ []
    → length src < pipe_size
    → length src ≤ want
    → (n_read nobody r want (n_write nobody w src p).shared).bytes ≡ src
n_read-n_write r w src want p kr kw v o e fits enough = ground (
  arith,
  ap length e,
  length-window p.base p.start (used p),
  n_write-Appends w src p kw v,
  n_read-Copies r want (n_write nobody w src p).shared kr written.valid,
  take_all (length src) src,
  take_all want src,
)
  where
    written : Ends 0 src (n_write nobody w src p)
    written = n_write-Ends nobody w src p (λ i q valid. valid) v

-- One end is given up by its last owner: the other end still works on the same bytes.
pub record HalfClosed (p q : Shared) : Type 0 where
  pub contents_are : contents q ≡ contents p
  pub valid : IsValid q
  pub woken : q.signaled ≡ true
  pub closed : both_open q ≡ false
  pub count_is : q.count ≡ pos 1

abbrev half_closed : Shared → Shared
half_closed p = record p { count = p.count -ℤ pos 1; signaled = true }

n_release_half :
    (n : Node) (p : Shared)
    → n.count ≡ pos 1
    → p.count ≡ pos 2
    → n_release n p ≡ (none, some (half_closed p))
unfolding n_release vfs_decrement_count ◌-ℤ◌
n_release_half n p c e = ground arith

half_closed_lem : (p : Shared) → IsValid p → p.count ≡ pos 2 → HalfClosed p (half_closed p)
unfolding ◌-ℤ◌
half_closed_lem p v e = ground arith

n_release_rest :
    (n : Node) (q : Shared) → n.count ≡ pos 1 → q.count ≡ pos 1 → n_release n q ≡ (none, none)
unfolding n_release vfs_decrement_count ◌-ℤ◌
n_release_rest n q c e = ground arith

-- When the last owner of one end of an open pipe gives it up, that node is freed and the shared data is
-- not: readers are woken, a later write fails with DE_PIPE and stores nothing, a later read takes out
-- what is left and fails with DE_EMPTY once that is nothing. When the other end is given up as well,
-- the shared data is freed too.
pub n_release-n_release :
    (n m : Node) (src : List ℕ) (want : ℕ) (p : Shared)
    → n.count ≡ pos 1
    → m.count ≡ pos 1
    → p.count ≡ pos 2
    → IsValid p
    → (q : Shared) × (n_release n p ≡ (none, some q))
      × HalfClosed p q
      × (m.kind ≡ writer
          → let r = n_write nobody m src q in
            (r.status ≡ pipe) × (r.size ≡ 0) × (contents r.shared ≡ contents p))
      × (m.kind ≡ reader
          → let r = n_read nobody m want q in
            (r.bytes ≡ take want (contents p))
            × (r.status ≡ (if length r.bytes == 0 then empty else success)))
      × (n_release m q ≡ (none, none))
n_release-n_release n m src want p c c' e v =
    let q : Shared = half_closed p in
    let h = half_closed_lem p v e in
    (
      q,
      n_release_half n p c e,
      h,
      (λ k. ground (arith, h, n_write-Appends m src q k h.valid, append-nil (contents q))),
      (λ k. ground (arith, h, n_read-Copies m want q k h.valid)),
      n_release_rest m q c' h.count_is,
    )

-- `vfs_pipe` makes an open, empty pipe with one owner at each end, or fails with DE_MEMORY: it fails just
-- when one of its allocations does.
pub vfs_pipe_lem :
    (a b c d : Bool)
    → let made = vfs_pipe a b c d in
      ((made.status ≡ success)
        × (made.nodes ≡ some (alloc_node reader, alloc_node writer, new_shared))
        × ((a && b && c && d) ≡ true))
      ⊎ ((made.status ≡ memory) × (made.nodes ≡ none) × ((a && b && c && d) ≡ false))
unfolding vfs_pipe
vfs_pipe_lem a b c d = ground arith

pub new_shared_lem : IsValid new_shared × (contents new_shared ≡ []) × (both_open new_shared ≡ true)
unfolding new_shared
new_shared_lem = (
  record { room = length-replicate pipe_size zero; start_in = omega arith; end_in = omega arith },
  refl,
  refl,
)
