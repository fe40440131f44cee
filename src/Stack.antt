-- ===== src/Stack.antt =====
-- common/stack.c: a stack of copies of data. `malloc` of another file is a parameter by its outcome: a Boolean
-- argument says whether it gives a block. The blocks that it has given and that are not freed are counted.
pub mod Lifo
mod Tests
use dancy.Base.{
  ℕ, zero, suc, ◌+◌, ◌-◌, Bool, true, false, not, List, [], ◌∷◌, length, ltb, ◌==◌, if◌then◌else◌,
  Option, none, some,
}

-- The instance, as the data of its nodes from `head` on, and the number of blocks.
pub record Stack : Type 0 where
  pub nodes : List (List ℕ)
  pub blocks : ℕ

-- `none` is a return of 1.
unfoldable pub stack_create : Bool → ℕ → Option Stack
stack_create ok blocks = if ok then some (record { nodes = []; blocks = blocks + 1 }) else none

-- The block of the data of a node, none for no data.
abbrev pub data_blocks : List ℕ → ℕ
data_blocks bytes = if length bytes == 0 then 0 else 1

-- The blocks that are left when the loop of `stack_delete` has freed the nodes.
unfoldable pub delete_nodes : List (List ℕ) → ℕ → ℕ
delete_nodes [] blocks = blocks
delete_nodes (bytes ∷ nodes) blocks = delete_nodes nodes (blocks - data_blocks bytes - 1)

-- The return value, and the blocks that are left; `none` is a null pointer.
unfoldable pub stack_delete : Option Stack → ℕ → ℕ × ℕ
stack_delete none blocks = (1, blocks)
stack_delete (some s) blocks = (0, delete_nodes s.nodes s.blocks - 1)

-- The return value, and the stack; the arguments say whether the two calls of `malloc` succeed.
unfoldable pub stack_push : Bool → Bool → List ℕ → Stack → ℕ × Stack
stack_push node_ok data_ok bytes s =
    if not node_ok
    then (1, s)
    else if length bytes == 0
    then (0, record { nodes = bytes ∷ s.nodes; blocks = s.blocks + 1 })
    else if not data_ok
    then (1, record { nodes = s.nodes; blocks = s.blocks + 1 - 1 })
    else (0, record { nodes = bytes ∷ s.nodes; blocks = s.blocks + 1 + 1 })

-- `memcpy` of `size` bytes from a block: reading past the end of the block is a fault, `none`.
unfoldable pub memcpy : ℕ → List ℕ → Option (List ℕ)
memcpy zero bytes = some []
memcpy (suc size) [] = none
memcpy (suc size) (c ∷ bytes) = elim (memcpy size bytes) [
  | none ↦ none
  | some copied ↦ some (c ∷ copied)
]

-- The return value, the bytes that are copied, and the stack.
unfoldable pub pop_nodes : ℕ → List (List ℕ) → ℕ → Option (ℕ × List ℕ × Stack)
pop_nodes size [] blocks = some (1, [], record { nodes = []; blocks = blocks })
pop_nodes size (bytes ∷ nodes) blocks =
    let size' = if ltb (length bytes) size then length bytes else size in
    let left : Stack = record { nodes = nodes; blocks = blocks - data_blocks bytes - 1 } in
    elim (memcpy size' bytes) [ none ↦ none | some copied ↦ some (0, copied, left) ]

unfoldable pub stack_pop : ℕ → Stack → Option (ℕ × List ℕ × Stack)
stack_pop size s = pop_nodes size s.nodes s.blocks
