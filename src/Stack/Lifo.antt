-- ===== src/Stack/Lifo.antt =====
-- The stack of stack.c as a list, and its blocks.
use dancy.Base.{
  ℕ, ◌+◌, ◌-◌, ◌≡◌, inl, inr, ap, sym, ◌∙◌, ◌≤◌, refl, Bool, ◌&&◌, ◌||◌, List, [], ◌∷◌, ◌++◌, drop,
  take, take_all, length, ltb, ◌==◌, if◌then◌else◌, zero, suc, Option, none, arith, some,
  Bool-cases,
}
use dancy.Stack.{
  Stack, memcpy, stack_delete, delete_nodes, stack_push, stack_pop, pop_nodes, data_blocks,
}

-- The blocks of the nodes.
abbrev pub node_blocks : List (List ℕ) → ℕ
node_blocks [] = 0
node_blocks (bytes ∷ nodes) = 1 + data_blocks bytes + node_blocks nodes

-- The blocks are those of the instance, of its nodes, and `others` elsewhere.
abbrev pub Accounts : ℕ → Stack → Type 0
Accounts others s = s.blocks ≡ others + 1 + node_blocks s.nodes

-- What `stack_push` has done.
record Pushes (others : ℕ) (ok : Bool) (bytes : List ℕ) (s : Stack) (r : ℕ × Stack) : Type 0 where
  value_is : r.0 ≡ (if ok then 0 else 1)
  nodes_are : (r.1).nodes ≡ (if ok then bytes ∷ s.nodes else s.nodes)
  accounts : Accounts others r.1

-- `stack_push` on a stack whose blocks are accounted for: if the calls of `malloc` that it makes succeed, it
-- returns 0 and the data is on top, else it returns 1 and the stack is as it was; no block is lost.
stack_push-Pushes :
    (others : ℕ) (node_ok data_ok : Bool) (bytes : List ℕ) (s : Stack)
    → Accounts others s
    → Pushes others
        (node_ok && (data_ok || (length bytes == 0)))
        bytes
        s
        (stack_push node_ok data_ok bytes s)
unfolding stack_push
stack_push-Pushes others node_ok data_ok bytes s h = record {
  value_is = ground arith;
  nodes_are = ground arith;
  accounts = ground (arith, h);
}

delete_nodes_lem :
    (nodes : List (List ℕ)) (left : ℕ) → delete_nodes nodes (left + node_blocks nodes) ≡ left
unfolding delete_nodes
delete_nodes_lem [] left = omega arith
delete_nodes_lem (bytes ∷ nodes) left =
    let count : left + (1 + data_blocks bytes + node_blocks nodes) - data_blocks bytes - 1
        ≡ left + node_blocks nodes =
      omega arith in
    rw count (delete_nodes_lem nodes left)

-- `stack_delete` of a stack whose blocks are accounted for returns 0 and frees all of them and no other.
stack_delete-Accounts :
    (others : ℕ) (s : Stack) → Accounts others s → stack_delete (some s) s.blocks ≡ (0, others)
unfolding stack_delete
stack_delete-Accounts others s h =
    ap (λ left. (0, left))
      (rw h (ap (λ left. left - 1) (delete_nodes_lem s.nodes (others + 1)) ∙ omega arith))

-- A copy of no more bytes than there are.
memcpy-take :
    (size : ℕ) (bytes : List ℕ) → size ≤ length bytes → memcpy size bytes ≡ some (take size bytes)
unfolding memcpy
memcpy-take zero bytes h = refl
memcpy-take (suc size) [] h = absurd (omega arith)
memcpy-take (suc size) (c ∷ bytes) h = rw (memcpy-take size bytes (omega arith)) refl

clipped-memcpy :
    (size : ℕ) (bytes : List ℕ)
    → memcpy (if ltb (length bytes) size then length bytes else size) bytes ≡ some (take size bytes)
clipped-memcpy size bytes = elim (Bool-cases (ltb (length bytes) size)) [
  | inl lt ↦
      rw (lt, memcpy-take (length bytes) bytes (omega arith))
        (ap some
          (take_all (length bytes) bytes (omega arith) ∙ sym (take_all size bytes (ground arith))))
  | inr ge ↦ rw ge (memcpy-take size bytes (ground arith))
]

pop_nodes-some :
    (size : ℕ) (bytes : List ℕ) (nodes : List (List ℕ)) (blocks : ℕ)
    → pop_nodes size (bytes ∷ nodes) blocks
      ≡ some (0, take size bytes, record { nodes = nodes; blocks = blocks - data_blocks bytes - 1 })
unfolding pop_nodes
pop_nodes-some size bytes nodes blocks = rw (pop_nodes, clipped-memcpy size bytes) refl

-- Calls of `stack_push`, the last one first: whether the two calls of `malloc` succeed, and the data.
abbrev pub Pushed : Type 0
Pushed = Bool × Bool × List ℕ

unfoldable pub push_all : List Pushed → Stack → Stack
push_all [] s = s
push_all ((node_ok, data_ok, bytes) ∷ pushes) s =
    (stack_push node_ok data_ok bytes (push_all pushes s)).1

-- The data of those that had the memory, the last one first.
unfoldable pub kept : List Pushed → List (List ℕ)
kept [] = []
kept ((node_ok, data_ok, bytes) ∷ pushes) =
    if node_ok && (data_ok || (length bytes == 0)) then bytes ∷ kept pushes else kept pushes

-- Calls of `stack_pop` with these sizes, and what each of them returns and copies; `none` is a fault.
unfoldable pub pop_all : List ℕ → Stack → Option (List (ℕ × List ℕ) × Stack)
pop_all [] s = some ([], s)
pop_all (size ∷ sizes) s = elim (stack_pop size s) [
  | none ↦ none
  | some (value, bytes, s') ↦ elim (pop_all sizes s') [
    | none ↦ none
    | some (results, left) ↦ some ((value, bytes) ∷ results, left)
  ]
]

-- What the pops give of these data: each up to the size that is asked for, and 1 when there are no more.
abbrev pub clipped : List ℕ → List (List ℕ) → List (ℕ × List ℕ)
clipped [] datas = []
clipped (size ∷ sizes) [] = (1, []) ∷ clipped sizes []
clipped (size ∷ sizes) (bytes ∷ datas) = (0, take size bytes) ∷ clipped sizes datas

kept-some :
    (node_ok data_ok : Bool) (bytes : List ℕ) (pushes : List Pushed) (rest : List (List ℕ))
    → kept ((node_ok, data_ok, bytes) ∷ pushes) ++ rest ≡ (
        if node_ok && (data_ok || (length bytes == 0))
        then bytes ∷ (kept pushes ++ rest)
        else kept pushes ++ rest)
unfolding kept
kept-some node_ok data_ok bytes pushes rest =
    elim (Bool-cases (node_ok && (data_ok || (length bytes == 0)))) [
      | inl e ↦ rw e refl
      | inr e ↦ rw e refl
    ]

push_all-Keeps :
    (others : ℕ) (pushes : List Pushed) (s : Stack)
    → Accounts others s
    → ((push_all pushes s).nodes ≡ kept pushes ++ s.nodes) × Accounts others (push_all pushes s)
unfolding push_all kept
push_all-Keeps others [] s h = (refl, h)
push_all-Keeps others ((node_ok, data_ok, bytes) ∷ pushes) s h =
    let (nodes, accounts) = push_all-Keeps others pushes s h in
    let r = stack_push-Pushes others node_ok data_ok bytes (push_all pushes s) accounts in
    (
      r.nodes_are
          ∙ ap (λ n. if node_ok && (data_ok || (length bytes == 0)) then bytes ∷ n else n) nodes
          ∙ sym (kept-some node_ok data_ok bytes pushes s.nodes),
      r.accounts,
    )

-- What pops have done with the stack, which is left in order.
pub record Pops (others : ℕ) (sizes : List ℕ) (datas : List (List ℕ))
    (r : Option (List (ℕ × List ℕ) × Stack)) : Type 0 where
  pub left : Stack
  pub result_is : r ≡ some (clipped sizes datas, left)
  pub nodes_left : left.nodes ≡ drop (length sizes) datas
  pub freed : stack_delete (some left) left.blocks ≡ (0, others)

after_pop :
    (size value : ℕ) (bytes : List ℕ) (sizes : List ℕ) (s s' left : Stack)
    (results : List (ℕ × List ℕ))
    → stack_pop size s ≡ some (value, bytes, s')
    → pop_all sizes s' ≡ some (results, left)
    → pop_all (size ∷ sizes) s ≡ some ((value, bytes) ∷ results, left)
unfolding pop_all
after_pop size value bytes sizes s s' left results e e' = rw (pop_all, e, e') refl

drop-nil : (n : ℕ) → drop {A = List ℕ} n [] ≡ []
drop-nil zero = refl
drop-nil (suc n) = refl

pop_all-Pops :
    (others : ℕ) (sizes : List ℕ) (nodes : List (List ℕ)) (blocks : ℕ)
    → let s : Stack = record { nodes = nodes; blocks = blocks } in
      Accounts others s → Pops others sizes nodes (pop_all sizes s)
unfolding pop_all stack_pop pop_nodes
pop_all-Pops others [] nodes blocks h = record {
  left = record { nodes = nodes; blocks = blocks };
  result_is = refl;
  nodes_left = refl;
  freed = stack_delete-Accounts others _ h;
}
pop_all-Pops others (size ∷ sizes) [] blocks h =
    let next = pop_all-Pops others sizes [] blocks h in
    record {
      left = next.left;
      result_is =
          after_pop size 1 [] sizes (record { nodes = []; blocks = blocks }) _ next.left _ refl
            next.result_is;
      nodes_left = next.nodes_left ∙ drop-nil (length sizes);
      freed = next.freed;
    }
pop_all-Pops others (size ∷ sizes) (bytes ∷ nodes) blocks h =
    let next =
      pop_all-Pops others sizes nodes (blocks - data_blocks bytes - 1) (omega (arith, h)) in
    record {
      left = next.left;
      result_is =
          after_pop size 0 (take size bytes) sizes
            (record { nodes = bytes ∷ nodes; blocks = blocks }) _ next.left _
            (pop_nodes-some size bytes nodes blocks) next.result_is;
      nodes_left = next.nodes_left;
      freed = next.freed;
    }

-- For a stack whose blocks are accounted for, any calls of `stack_push`, whether or not they are given memory, and
-- any calls of `stack_pop` after them: the pops read no byte past the end of a block; they return 0 and copy, up
-- to the size that is asked for, the data of the pushes that had memory, the last one first, then the data that
-- was there before, and return 1 when there is no more; the other data is left, and `stack_delete` then frees all
-- blocks of the stack and no other.
pub pop_all-push_all :
    (others : ℕ) (pushes : List Pushed) (sizes : List ℕ) (s : Stack)
    → Accounts others s
    → Pops others sizes (kept pushes ++ s.nodes) (pop_all sizes (push_all pushes s))
pop_all-push_all others pushes sizes s h =
    let (nodes, accounts) = push_all-Keeps others pushes s h in
    rw (← nodes)
      (pop_all-Pops others sizes (push_all pushes s).nodes (push_all pushes s).blocks accounts)
