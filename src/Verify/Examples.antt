-- ===== src/Verify/Examples.antt =====
-- Theorems on the syntax checks at concrete statements.
use cil.Base.{◌≡◌, ◌↔◌, refl, [], ◌∷◌, some, none, sepol_ok, arith}
use cil.Flavor.{cil_eq, cil_cons_u1, cil_cons_u2, cil_constrain}
use cil.Text.{codes}
use cil.Tree.{Node, Nodes, node, nil, cons}
use cil.Verify.{
  string_syntax, list_syntax, n_strings_syntax, end_syntax, verify_syntax, takes, repeats,
  verify_syntax_from,
}
use cil.Verify.Patterns.{Pointwise, ThenMany, verify_syntax-Pointwise, verify_syntax-ThenMany}
use cil.Verify.Expressions.{
  LeafRule, verify_constraint_leaf_expr_syntax, verify_constraint_leaf_expr_syntax-LeafRule,
}
use cil.Verify.Names.{verify_name, IsName, verify_name-IsName}

abbrev word : Node
word = node 1 (some (codes "a")) nil

-- (a (a) a)
abbrev statement : Nodes
statement = cons word (cons (node 1 none (cons word nil)) (cons word nil))

verify_syntax-Pointwise_example :
    (verify_syntax statement (string_syntax ∷ list_syntax ∷ string_syntax ∷ end_syntax ∷ [])
      ≡ sepol_ok)
    ↔ Pointwise (string_syntax ∷ list_syntax ∷ string_syntax ∷ []) statement
verify_syntax-Pointwise_example =
    verify_syntax-Pointwise (string_syntax ∷ list_syntax ∷ string_syntax ∷ []) statement
      (ground arith)

verify_syntax-ThenMany_example :
    (verify_syntax statement (string_syntax ∷ list_syntax ∷ n_strings_syntax ∷ end_syntax ∷ [])
      ≡ sepol_ok)
    ↔ ThenMany (string_syntax ∷ list_syntax ∷ []) n_strings_syntax statement
verify_syntax-ThenMany_example =
    verify_syntax-ThenMany (string_syntax ∷ list_syntax ∷ []) n_strings_syntax statement
      (ground arith) (ground arith)

statement_accepted :
    verify_syntax statement (string_syntax ∷ list_syntax ∷ n_strings_syntax ∷ end_syntax ∷ [])
    ≡ sepol_ok
unfolding verify_syntax verify_syntax_from takes repeats
statement_accepted = refl

verify_constraint_leaf_expr_syntax-LeafRule_example :
    (verify_constraint_leaf_expr_syntax cil_cons_u1 cil_cons_u2 cil_eq cil_constrain ≡ sepol_ok)
    ↔ LeafRule cil_cons_u1 cil_cons_u2 cil_eq cil_constrain
verify_constraint_leaf_expr_syntax-LeafRule_example =
    verify_constraint_leaf_expr_syntax-LeafRule cil_cons_u1 cil_cons_u2 cil_eq cil_constrain

verify_name-IsName_example : (verify_name (codes "user_t-1") ≡ sepol_ok) ↔ IsName (codes "user_t-1")
verify_name-IsName_example = verify_name-IsName (codes "user_t-1")
