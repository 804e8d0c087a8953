-- ===== src/Ordering/Examples.antt =====
-- Tests, and the theorems at concrete lists.
use cil.Base.{
  ℕ, ◌≡◌, refl, List, [], ◌∷◌, some, none, Status, sepol_ok, sepol_err, sepol_enoent, is_ok, true,
  arith, length, ◌==◌, if◌then◌else◌,
}
use cil.Ordering.{has, Merged, merge, merge_all, merge_all_from, fresh}
use cil.Flavor.{Flavor, cil_cat, cil_catalias}
use cil.Ordering.Statements.{resolve_catorder, resolve_sidorder, set_cat_values}
use cil.Text.{Text, codes}
use cil.Ordering.Sub.{Sub}
use cil.Ordering.Merge.{merge-Sub}
use cil.Ordering.Marks.{count, IsMarked, merge-IsMarked}
use cil.Ordering.MergeAll.{AllSub, merge_all-AllSub, merge_all-fuel}

abbrev out_of_fuel : Merged
out_of_fuel = record { status = sepol_err; old = []; marks = [] }

abbrev other_end : Merged
other_end = record { status = sepol_ok; old = 7 ∷ []; marks = [] }

-- A gap in the old list, and items in front and behind.
merge_gap :
    merge out_of_fuel (2 ∷ 4 ∷ []) (1 ∷ 2 ∷ 3 ∷ 4 ∷ 5 ∷ []) (4 ∷ 2 ∷ [])
    ≡ record { status = sepol_ok; old = 1 ∷ 2 ∷ 3 ∷ 4 ∷ 5 ∷ []; marks = 5 ∷ 3 ∷ 1 ∷ 4 ∷ 2 ∷ [] }
unfolding merge
merge_gap = refl

-- Contrary orders are refused.
merge_conflict :
    merge out_of_fuel (1 ∷ 2 ∷ []) (2 ∷ 1 ∷ []) (2 ∷ 1 ∷ [])
    ≡ record { status = sepol_err; old = 1 ∷ 2 ∷ []; marks = 2 ∷ 1 ∷ [] }
unfolding merge
merge_conflict = refl

-- The second list can be merged only behind the third.
abbrev three_lists : List (List ℕ)
three_lists = (1 ∷ 2 ∷ []) ∷ (3 ∷ 4 ∷ []) ∷ (2 ∷ 3 ∷ []) ∷ []

merge_three : merge_all out_of_fuel [] three_lists ≡ some (1 ∷ 2 ∷ 3 ∷ 4 ∷ [])
unfolding merge_all
merge_three = refl

merge_apart : merge_all out_of_fuel [] ((1 ∷ []) ∷ (2 ∷ []) ∷ []) ≡ none
unfolding merge_all
merge_apart = refl

merge-Sub_example :
    Sub (2 ∷ 4 ∷ []) (merge out_of_fuel (2 ∷ 4 ∷ []) (1 ∷ 2 ∷ 3 ∷ []) []).old
    × (is_ok (merge out_of_fuel (2 ∷ 4 ∷ []) (1 ∷ 2 ∷ 3 ∷ []) []).status ≡ true
        → Sub (1 ∷ 2 ∷ 3 ∷ []) (merge out_of_fuel (2 ∷ 4 ∷ []) (1 ∷ 2 ∷ 3 ∷ []) []).old)
merge-Sub_example = merge-Sub out_of_fuel (2 ∷ 4 ∷ []) (1 ∷ 2 ∷ 3 ∷ []) []

IsMarked-two : IsMarked (2 ∷ 4 ∷ []) (4 ∷ 2 ∷ [])
unfolding count has
IsMarked-two x = ground arith

merge-IsMarked_example :
    IsMarked
      (merge out_of_fuel (2 ∷ 4 ∷ []) (1 ∷ 2 ∷ 3 ∷ []) (4 ∷ 2 ∷ [])).old
      (merge out_of_fuel (2 ∷ 4 ∷ []) (1 ∷ 2 ∷ 3 ∷ []) (4 ∷ 2 ∷ [])).marks
merge-IsMarked_example =
    merge-IsMarked out_of_fuel (2 ∷ 4 ∷ []) (1 ∷ 2 ∷ 3 ∷ []) (4 ∷ 2 ∷ []) IsMarked-two

merge_all-AllSub_example : AllSub (1 ∷ 2 ∷ 3 ∷ 4 ∷ []) three_lists
merge_all-AllSub_example =
    merge_all-AllSub out_of_fuel [] three_lists (1 ∷ 2 ∷ 3 ∷ 4 ∷ []) merge_three

merge_all-fuel_example :
    merge_all out_of_fuel [] three_lists
    ≡ merge_all_from other_end 9 [] []
        (fresh (1 ∷ 2 ∷ []) ∷ fresh (3 ∷ 4 ∷ []) ∷ fresh (2 ∷ 3 ∷ []) ∷ [])
merge_all-fuel_example = merge_all-fuel out_of_fuel other_end 9 [] three_lists (omega arith)

-- Names by their length: the name of one letter is not found, that of four is an alias.
abbrev by_length : Text → Status × ℕ
by_length t = if length t == 1 then (sepol_enoent, 0) else (sepol_ok, length t)

abbrev flavor_by_length : ℕ → Flavor
flavor_by_length a = if a == 4 then cil_catalias else cil_cat

two_categories :
    resolve_catorder by_length flavor_by_length (codes "c10" ∷ codes "c0" ∷ []) []
    ≡ record { status = sepol_ok; lists = fresh (3 ∷ 2 ∷ []) ∷ [] }
unfolding resolve_catorder
two_categories = refl

alias_in_order :
    resolve_catorder by_length flavor_by_length (codes "c0" ∷ codes "c100" ∷ []) []
    ≡ record { status = sepol_err; lists = [] }
unfolding resolve_catorder
alias_in_order = refl

missing_in_order :
    resolve_sidorder by_length (codes "c0" ∷ codes "c" ∷ []) []
    ≡ record { status = sepol_enoent; lists = [] }
unfolding resolve_sidorder
missing_in_order = refl

valued : (set_cat_values (3 ∷ 2 ∷ []) 0 (λ _. 9)).0 2 ≡ 1
unfolding set_cat_values
valued = refl
