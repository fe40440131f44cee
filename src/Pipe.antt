-- ===== src/Pipe.antt =====
-- kernel/vfs/pipe.c: the pipe between two nodes, a ring of 4096 bytes of which one stays free. Each
-- section between `spin_enter` and `spin_leave` is one function on the shared data; `n_read` and
-- `n_write` run such sections in a loop, and take what the other tasks do between two sections as an
-- argument. A function that writes `*size` and the buffer returns what it wrote.
pub mod Ring
pub mod Store
pub mod Read
pub mod Write
pub mod Append
pub mod Nodes
pub mod Together
mod Tests
use dancy.Base.{
  ℕ, zero, suc, ◌+◌, ◌-◌, ◌%◌, min, Bool, true, false, not, ◌&&◌, ◌||◌, bit_and, bit_or, Option,
  none, some, List, [], ◌∷◌, ◌++◌, ltb, leb, ◌==◌, if◌then◌else◌, get_or, set, length, take, drop,
  replicate,
}
use dancy.Base.Int.{ℤ, pos, negsuc, ◌-ℤ◌, ltb_ℤ, eqb_ℤ}

abbrev pub pipe_size : ℕ
pipe_size = 4096

-- The bytes that a section moves at most.
abbrev pub atomic_size : ℕ
atomic_size = 512

-- The results, 0 and the codes DE_*; `out_of_fuel` is the model's own.
pub data Status : Type 0 where
  success access empty pipe retry memory out_of_fuel : Status

-- `struct pipe_shared_data` without the lock; `signaled` is that of the event.
pub record Shared : Type 0 where
  pub signaled : Bool
  pub count : ℤ
  pub start : ℕ
  pub end : ℕ
  pub base : List ℕ

pub data PipeType : Type 0 where
  reader writer : PipeType

-- `struct pipe_internal_data` (the shared data is passed beside it) and the reference count.
pub record Node : Type 0 where
  pub kind : PipeType
  pub count : ℤ

-- Both ends are open.
abbrev pub both_open : Shared → Bool
both_open p = eqb_ℤ p.count (pos 2)

-- The inner loop of `n_read`, with `k` rounds to go before `*size == requested_size` or 512 bytes:
-- the bytes it copies, whether it left with `b < 0`, and the shared data.
unfoldable pub read_bytes : ℕ → Shared → List ℕ × Bool × Shared
read_bytes zero p = ([], false, p)
read_bytes (suc k) p =
    let taken = record p { base = set p.base p.start 0; start = (p.start + 1) % pipe_size } in
    let rest = read_bytes k taken in
    if p.start == p.end
    then ([], true, (if both_open p then record p { signaled = false } else p))
    else (get_or p.base p.start 0 ∷ rest.0, rest.1, rest.2)

-- `event_signal` at the end of a section of `n_read`.
abbrev pub wake_if_closed : Shared → Shared
wake_if_closed p = if both_open p then p else record p { signaled = true }

-- `event_signal` at the end of a section of `n_write` that stored `n` bytes.
abbrev pub wake_if_stored : ℕ → Shared → Shared
wake_if_stored n p = if n == 0 then p else record p { signaled = true }

-- What happens between two sections; the number of the section is passed too.
abbrev pub Others : Type 0
Others = ℕ → Shared → Shared

-- The result of `n_read`: the status, and the bytes of the buffer, `*size` of them.
pub record Reading : Type 0 where
  pub status : Status
  pub bytes : List ℕ
  pub shared : Shared

-- The loop of `n_read` from section `i` on, with `got` read so far and `want` bytes to come.
unfoldable pub read_sections : Others → ℕ → ℕ → List ℕ → ℕ → Shared → Reading
read_sections others zero i got want p = record { status = out_of_fuel; bytes = got; shared = p }
read_sections others (suc fuel) i got want p =
    let (bytes, ran_dry, p') = read_bytes (min want atomic_size) p in
    let all = got ++ bytes in
    let left = want - length bytes in
    let p'' = wake_if_closed p' in
    let rest = read_sections others fuel (i + 1) all left (others i p'') in
    if not (both_open p') && (length all == 0)
    then record { status = empty; bytes = all; shared = p'' }
    else if not ran_dry && ltb 0 left
    then rest
    else record { status = success; bytes = all; shared = p'' }

unfoldable pub n_read : Others → Node → ℕ → Shared → Reading
n_read others n want p = elim (n.kind) [
  | reader ↦ read_sections others (suc want) 0 [] want p
  | writer ↦ record { status = access; bytes = []; shared = p }
]

-- The inner loop of `n_write` over the bytes of one section: how many it stores.
unfoldable pub write_bytes : List ℕ → Shared → ℕ × Shared
write_bytes [] p = (0, p)
write_bytes (b ∷ bs) p =
    let new_end = (p.end + 1) % pipe_size in
    let rest = write_bytes bs (record p { base = set p.base p.end b; end = new_end }) in
    if p.start == new_end then (0, p) else (rest.0 + 1, rest.1)

pub record Writing : Type 0 where
  pub status : Status
  pub size : ℕ
  pub shared : Shared

-- The loop of `n_write` from section `i` on: `size` bytes are stored, `src` is to come.
unfoldable pub write_sections : Others → ℕ → ℕ → ℕ → ℕ → List ℕ → Shared → Writing
write_sections others requested zero i size src p = record {
  status = out_of_fuel;
  size = size;
  shared = p;
}
write_sections others requested (suc fuel) i size src p =
    let (atomicity, p') = write_bytes (take atomic_size src) p in
    let p'' = wake_if_stored atomicity p' in
    let rest =
      write_sections others requested fuel (i + 1) (size + atomicity) (drop atomicity src)
        (others i p'') in
    if not (both_open p)
    then record { status = pipe; size = size; shared = p }
    else if leb requested atomic_size && not (requested == atomicity)
    then record { status = retry; size = 0; shared = record p' { end = p.end } }
    else if (atomicity == 0) || leb requested (size + atomicity)
    then record { status = success; size = size + atomicity; shared = p'' }
    else rest

unfoldable pub n_write : Others → Node → List ℕ → Shared → Writing
n_write others n src p = elim (n.kind) [
  | writer ↦ write_sections others (length src) (suc (length src)) 0 0 src p
  | reader ↦ record { status = access; size = 0; shared = p }
]
