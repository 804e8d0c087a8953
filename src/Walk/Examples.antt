-- ===== src/Walk/Examples.antt =====
-- Tests, and the theorems at a concrete tree.
use cil.Base.{
  ℕ, ◌≡◌, ◌↔◌, refl, List, [], ◌∷◌, ◌++◌, ◌==◌, if◌then◌else◌, some, none, true, false, Status,
  sepol_ok, sepol_err,
}
use cil.Flavor.{cil_sid, cil_class}
use cil.Walk.{Ast, ast, no_ast, one_ast, walk, Declared, verify_ordered}
use cil.Walk.Visits.{process, visits, run, children_of, walk-visits}
use cil.Walk.Ordered.{Everywhere, verify_ordered-Everywhere}

-- 0 with the children 1 and 4; 1 has the children 2 and 3.
abbrev five_nodes : Ast ℕ
five_nodes = ast 0 (
    one_ast (ast 1 (one_ast (ast 2 no_ast) (one_ast (ast 3 no_ast) no_ast)))
      (one_ast (ast 4 no_ast) no_ast))

abbrev content : Ast ℕ → ℕ
content (ast c children) = c

-- Notes the content of each node.
abbrev note : Ast ℕ → List ℕ → Status × List ℕ
note a s = (sepol_ok, s ++ content a ∷ [])

-- SKIP_NEXT at the node 2.
abbrev skip_two : Ast ℕ → ℕ
skip_two a = if content a == 2 then 1 else 0

-- SKIP_HEAD at the node 1.
abbrev skip_below : Ast ℕ → ℕ
skip_below a = if content a == 1 then 2 else 0

walk_next : walk (some (process skip_two note)) none none five_nodes [] ≡ (sepol_ok, 1 ∷ 2 ∷ 4 ∷ [])
unfolding walk
walk_next = refl

walk_head : walk (some (process skip_below note)) none none five_nodes [] ≡ (sepol_ok, 1 ∷ 4 ∷ [])
unfolding walk
walk_head = refl

walk-visits_example :
    walk (some (process skip_two note)) none none five_nodes []
    ≡ run skip_two note (visits skip_two note (children_of five_nodes)) []
walk-visits_example = walk-visits skip_two note five_nodes []

abbrev two_sids : Ast Declared
two_sids =
    ast (record { flavor = cil_class; ordered = false })
      (one_ast (ast (record { flavor = cil_sid; ordered = true }) no_ast)
        (one_ast (ast (record { flavor = cil_class; ordered = false }) no_ast) no_ast))

verify_sids : verify_ordered two_sids cil_sid ≡ sepol_ok
unfolding verify_ordered
verify_sids = refl

verify_classes : verify_ordered two_sids cil_class ≡ sepol_err
unfolding verify_ordered
verify_classes = refl

verify_ordered-Everywhere_example :
    (verify_ordered two_sids cil_sid ≡ sepol_ok) ↔ Everywhere cil_sid (children_of two_sids)
verify_ordered-Everywhere_example = verify_ordered-Everywhere two_sids cil_sid
