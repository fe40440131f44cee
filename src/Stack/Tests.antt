-- ===== src/Stack/Tests.antt =====
-- Runs of stack.c, and its properties at a stack.
use dancy.Base.{◌≡◌, refl, true, false, List, [], ◌∷◌, ◌++◌, some}
use dancy.Stack.{Stack, stack_create, stack_push, stack_pop, pop_nodes, memcpy}
use dancy.Stack.Lifo.{Pushed, push_all, kept, pop_all, Pops, pop_all-push_all}

abbrev two_nodes : Stack
two_nodes = record { nodes = (1 ∷ 2 ∷ []) ∷ ([] ∷ []); blocks = 11 }

two_nodes_run : stack_create true 7 ≡ some (record { nodes = []; blocks = 8 })
unfolding stack_create
two_nodes_run = refl

-- The pop of more bytes than there are takes those that there are, and the third push had no memory.
abbrev three_pushes : List Pushed
three_pushes = (true, false, 9 ∷ []) ∷ (true, true, 5 ∷ 6 ∷ []) ∷ (true, false, []) ∷ []

pops_run :
    pop_all (7 ∷ 7 ∷ 1 ∷ []) (push_all three_pushes two_nodes)
    ≡ some ((0, 5 ∷ 6 ∷ []) ∷ (0, []) ∷ (0, 1 ∷ []) ∷ [], record { nodes = [] ∷ []; blocks = 9 })
unfolding pop_all push_all stack_pop pop_nodes memcpy stack_push
pops_run = refl

pop_all-push_all_example :
    Pops 7
      (7 ∷ 7 ∷ 1 ∷ [])
      (kept three_pushes ++ two_nodes.nodes)
      (pop_all (7 ∷ 7 ∷ 1 ∷ []) (push_all three_pushes two_nodes))
pop_all-push_all_example = pop_all-push_all 7 three_pushes (7 ∷ 7 ∷ 1 ∷ []) two_nodes refl
