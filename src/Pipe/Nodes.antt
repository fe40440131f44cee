-- ===== src/Pipe/Nodes.antt =====
-- kernel/vfs/pipe.c, the two nodes: creation, `n_poll` and `n_release`, with `vfs_decrement_count` of
-- kernel/vfs/vfs.c. A call of `malloc` or `event_create` enters as the Boolean whether it succeeds.
use dancy.Base.{
  ℕ, ◌+◌, ◌-◌, Bool, true, false, not, ◌&&◌, ◌||◌, bit_and, bit_or, Option, none, some, ltb, ◌==◌,
  if◌then◌else◌, replicate,
}
use dancy.Base.Int.{ℤ, pos, negsuc, ◌-ℤ◌, ◌+ℤ◌, ltb_ℤ, eqb_ℤ}
use dancy.Pipe.{pipe_size, Status, success, memory, PipeType, reader, writer, Shared, Node}

-- The shared data after `memset`, with `count` set.
unfoldable pub new_shared : Shared
new_shared = record {
  signaled = false;
  count = pos 2;
  start = 0;
  end = 0;
  base = replicate pipe_size 0;
}

-- `alloc_node`, where `malloc` succeeds.
abbrev pub alloc_node : PipeType → Node
alloc_node type = record { kind = type; count = pos 1 }

-- `nodes[0]`, `nodes[1]`, and the shared data that both point to; the rest is freed again.
pub record Made : Type 0 where
  pub status : Status
  pub nodes : Option (Node × Node × Shared)

-- The arguments say whether the shared data, the event and the two nodes can be allocated.
unfoldable pub vfs_pipe : Bool → Bool → Bool → Bool → Made
vfs_pipe shared_ok event_ok read_ok write_ok =
    if not shared_ok
    then record { status = memory; nodes = none }
    else if not event_ok || not read_ok || not write_ok
    then record { status = memory; nodes = none }
    else record {
      status = success;
      nodes = some (alloc_node reader, alloc_node writer, new_shared);
    }

abbrev pub pollin : ℕ
pollin = 0x0001

abbrev pub pollout : ℕ
pollout = 0x0004

abbrev pub pollrdnorm : ℕ
pollrdnorm = 0x0040

abbrev pub pollwrnorm : ℕ
pollwrnorm = 0x0100

-- `r |= flag`, if the condition holds and the flag is asked for.
abbrev pub flag_if : Bool → ℕ → ℕ → ℕ → ℕ
flag_if ok events flag r = if ok && not (bit_and events flag == 0) then bit_or r flag else r

-- `end - start` is an `int`, and made positive by `PIPE_SIZE`.
abbrev pub poll_count : Shared → ℕ
poll_count p = if ltb p.end p.start then pipe_size + p.end - p.start else p.end - p.start

abbrev pub read_ok : Node → Shared → Bool
read_ok n p = elim (n.kind) [ reader ↦ not (p.start == p.end) | writer ↦ false ]

abbrev pub write_ok : Node → Shared → Bool
write_ok n p = elim (n.kind) [ writer ↦ ltb (poll_count p) 2048 | reader ↦ false ]

-- The value of `*revents`.
unfoldable pub n_poll : Node → ℕ → Shared → ℕ
n_poll n events p = flag_if (write_ok n p) events pollwrnorm (
    flag_if (write_ok n p) events pollout
      (flag_if (read_ok n p) events pollrdnorm (flag_if (read_ok n p) events pollin 0)))

-- `vfs_decrement_count` on the count of references; it returns the new count.
unfoldable pub vfs_decrement_count : ℤ → ℤ
vfs_decrement_count c =
    let less = if ltb_ℤ c (pos 0) then c else c -ℤ pos 1 in
    if ltb_ℤ less (negsuc 0) then negsuc 0 else less

-- `INT_MAX`
abbrev pub int_max : ℤ
int_max = pos 2147483647

unfoldable pub vfs_increment_count : ℤ → ℤ
vfs_increment_count c = if not (ltb_ℤ c (pos 0)) && ltb_ℤ c int_max then c +ℤ pos 1 else c

-- The node and the shared data after `n_release`; `none` is what has been freed.
unfoldable pub n_release : Node → Shared → Option Node × Option Shared
n_release n p =
    let c = vfs_decrement_count n.count in
    let left = record p { count = p.count -ℤ pos 1; signaled = true } in
    if eqb_ℤ c (pos 0)
    then (none, (if ltb_ℤ (pos 0) left.count then some left else none))
    else (some (record n { count = c }), some p)
