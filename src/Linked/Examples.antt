-- ===== src/Linked/Examples.antt =====
-- Tests, and the theorems at a concrete list.
use cil.Base.{◌≡◌, refl, List, [], ◌∷◌, none, some, arith}
use cil.Linked.{Store, Linked, empty_list, new_item, store_cell, append, remove}
use cil.Linked.Joining.{IsChain}
use cil.Linked.Chains.{Entry, Models}
use cil.Linked.Adding.{Gives, entry}
use cil.Linked.Removing.{drop_first, remove-Models}

abbrev empty_store : Store
empty_store = record { cell_at = λ a. none; fresh = 5 }

-- One item at the address 5, with the flavor 1 and the data 30.
abbrev one_store : Store
one_store = new_item empty_store none 1 30

abbrev one_list : Linked
one_list = record { head = some 5; tail = some 5 }

abbrev one_entry : List Entry
one_entry = entry 5 1 30 ∷ []

append_first : append empty_store empty_list 1 30 ≡ some (one_store, one_list)
unfolding append
append_first = refl

Models-one : Models one_store one_list one_entry
Models-one = record {
  heads = refl;
  tails = refl;
  chain = (refl, tt, tt);
  bounded = (omega arith, tt);
}

remove-Models_example : Gives (remove 1 one_store one_list 1 30) (drop_first 1 30 one_entry)
remove-Models_example = remove-Models one_store one_list one_entry 1 30 1 Models-one (omega arith)

-- A second item, at the address 9, that is in no list.
abbrev two_store : Store
two_store =
    store_cell (record one_store { fresh = 10 }) 9 (record { next = none; flavor = 2; datum = 40 })

Models-two : Models two_store one_list one_entry
Models-two = record {
  heads = refl;
  tails = refl;
  chain = (refl, tt, tt);
  bounded = (omega arith, tt);
}

IsChain-nine : IsChain two_store one_entry (entry 9 2 40) []
IsChain-nine = record {
  chain = (refl, tt, tt);
  behind = ((λ q. absurd (omega arith), tt), tt);
  before = ((λ q. absurd (omega arith), tt), tt);
  bounded = (omega arith, tt);
}
