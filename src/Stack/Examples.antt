-- ===== src/Stack/Examples.antt =====
-- Tests of the array stack, and its theorem at a run that grows the array.
use cil.Base.{ℕ, zero, suc, ◌≡◌, refl, true, List, [], ◌∷◌, ◌++◌, none, some, replicate}
use cil.Base.Int.{pos, negsuc, ◌+ℤ◌, ◌-ℤ◌}
use cil.Stack.{Item, init, clear, is_empty, grow, write_top, push, pop, peek_at}
use cil.Stack.Refine.{Op, push_op, pop_op, clear_op, peek_op, run, run_list, run-init-run_list}

abbrev pushes : ℕ → List (Op ℕ)
pushes zero = []
pushes (suc n) = push_op 3 n ∷ pushes n

-- 17 pushes pass the first 16 slots, so the array doubles.
abbrev calls : List (Op ℕ)
calls =
    pushes 17
    ++ (pop_op ∷ peek_op (pos 15) ∷ peek_op (pos 16) ∷ peek_op (negsuc 0) ∷ clear_op ∷ pop_op ∷ [])

abbrev item : ℕ → Item ℕ
item n = record { flavor = 3; datum = n }

run_answers : run init calls ≡ some (item 0) ∷ some (item 16) ∷ none ∷ none ∷ none ∷ []
unfolding run init clear grow write_top push pop peek_at replicate ◌+ℤ◌ ◌-ℤ◌
run_answers = refl

init-is_empty : is_empty (init {A = ℕ}) ≡ true
unfolding init is_empty
init-is_empty = refl

run-init-run_list_example : run init calls ≡ run_list [] calls
run-init-run_list_example = run-init-run_list calls
