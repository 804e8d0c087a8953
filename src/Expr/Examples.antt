-- ===== src/Expr/Examples.antt =====
-- Tests of the expression functions, and their theorems at concrete conditions.
use cil.Base.{
  ℕ, ◌≡◌, refl, Option, none, some, Bool, false, inl, inr, leb, length, Status, sepol_ok, sepol_err,
  ◌==◌, if◌then◌else◌,
}
use mathlib.Core.Bool.{xor}
use cil.Flavor.{cil_bool, cil_tunable, cil_constrain}
use cil.Base.Int.{pos, negsuc, lt_ℤ}
use cil.Flavor.Index.{cil_sym_tunables}
use cil.Text.{Text, codes}
use cil.Tree.{Node, node, nil, cons}
use cil.Expr.{◌>>=◌, fill_expr, gen_expr, get_expr_operator_flavor}
use cil.Expr.Conditions.{
  Condition, name, negate, join, conj, exclusive, quote, meaning, word, top_items, gen_expr-built,
  built, operators,
}
use cil.Expr.Evaluate.{resolve_expr, evaluate_resolved}
use cil.Expr.Evaluate.Meaning.{gen_expr-meaning}
use cil.Expr.Constraint.{gen_constraint_expr}
use cil.Expr.Constraint.Depth.{gen_constraint_expr_unlimited}

-- (and a (not (xor bb a)))
abbrev condition : Condition
condition =
    join conj (name (codes "a")) (negate (join exclusive (name (codes "bb")) (name (codes "a"))))

-- Names of tunables resolve to their lengths, and a tunable of length 1 is on.
abbrev resolve_name : ℕ → Option Text → Status × ℕ
resolve_name i none = (sepol_err, 0)
resolve_name i (some t) = if i == cil_sym_tunables then (sepol_ok, length t) else (sepol_err, 0)

abbrev value : ℕ → Bool
value n = leb n 1

condition_holds_not : meaning (λ t. value (length t)) condition ≡ false
unfolding meaning xor
condition_holds_not = refl

gen_expr-meaning_example :
    (gen_expr 0 cil_tunable (quote condition) >>= λ is.
    evaluate_resolved value (resolve_expr resolve_name cil_tunable is))
    ≡ some (meaning (λ t. value (length t)) condition)
unfolding get_expr_operator_flavor
gen_expr-meaning_example =
    gen_expr-meaning resolve_name length value 0 cil_tunable condition (inr refl)
      (refl, (refl, refl)) (refl, (refl, refl))

-- A limit of 0 does not stop three nested operators, here with the counter at -2 before them.
gen_expr-built_example :
    (gen_expr 0 cil_bool (quote condition) ≡ some (top_items cil_bool condition))
    × (fill_expr 0 cil_bool (quote condition) (negsuc 1)
        ≡ some (built cil_bool condition, negsuc 4))
    × (lt_ℤ (pos 0) (negsuc 4) ≡ false)
unfolding get_expr_operator_flavor operators
gen_expr-built_example = gen_expr-built 0 cil_bool (inl refl) condition 2 (refl, (refl, refl))

-- ((not ((eq u1 u2))))
abbrev constraint : Node
constraint = node 1 none (
    cons (word (codes "not")) (
      cons
        (node 1 none
          (cons (word (codes "eq")) (cons (word (codes "u1")) (cons (word (codes "u2")) nil))))
        nil))

gen_constraint_expr_unlimited_example :
    gen_constraint_expr 3 cil_constrain constraint ≡ gen_constraint_expr 0 cil_constrain constraint
gen_constraint_expr_unlimited_example = gen_constraint_expr_unlimited 3 0 cil_constrain constraint
