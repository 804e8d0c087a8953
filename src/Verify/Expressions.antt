-- ===== src/Verify/Expressions.antt =====
-- The shapes of expressions: the syntax of Boolean, set and category expressions, that of constraint
-- expressions, and the pairs of operands that a constraint's leaf may have.
use cil.Base.{
  ℕ, suc, ◌≡◌, ◌∙◌, ◌↔◌, ==_ne, Bool-cases, ◌⊎◌, ◌≢◌, inl, inr, refl, List, [], ◌∷◌, Option, none,
  some, Bool, true, false, ◌&&◌, ◌||◌, not, ◌==◌, if◌then◌else◌, Status, sepol_ok, sepol_err,
  length, arith, ◌++◌,
}
use cil.Flavor.{
  Flavor, cil_all, cil_and, cil_bool, cil_cat, cil_cons_dom, cil_cons_domby, cil_cons_h1,
  cil_cons_h2, cil_cons_incomp, cil_cons_l1, cil_cons_l2, cil_cons_r1, cil_cons_r2, cil_cons_r3,
  cil_cons_t1, cil_cons_t2, cil_cons_t3, cil_cons_u1, cil_cons_u2, cil_cons_u3, cil_eq, cil_list,
  cil_mlsvalidatetrans, cil_neq, cil_none, cil_not, cil_or, cil_range, cil_string, cil_tunable,
  cil_xor,
}
use cil.Tree.{Node, Nodes, nil, cons, is_string}
use cil.Verify.{
  Syntax, string_syntax, list_syntax, n_lists_syntax, n_strings_syntax, end_syntax, operand_syntax,
  either, takes, verify_syntax,
}
use cil.Verify.Patterns.{IsSingle, AllSingle, Pointwise, takes-Takes, verify_syntax-Pointwise}

-- The syntax array that the switch over the operator leaves, or `none` for its error exits.
unfoldable pub expr_syntax : Flavor → Flavor → Option (List Syntax)
expr_syntax op expr_flavor =
    let unary : List Syntax = string_syntax ∷ operand_syntax ∷ end_syntax ∷ [] in
    let binary : List Syntax = string_syntax ∷ operand_syntax ∷ operand_syntax ∷ end_syntax ∷ [] in
    if op == cil_not
    then some unary
    else if op == cil_and || (op == cil_or || op == cil_xor)
    then some binary
    else if op == cil_eq || op == cil_neq
    then (if not (expr_flavor == cil_bool) && not (expr_flavor == cil_tunable)
        then none
        else some binary)
    else if op == cil_all
    then (if expr_flavor == cil_bool || expr_flavor == cil_tunable
        then none
        else some (string_syntax ∷ end_syntax ∷ []))
    else if op == cil_range
    then (if not (expr_flavor == cil_cat)
        then none
        else some (string_syntax ∷ string_syntax ∷ string_syntax ∷ end_syntax ∷ []))
    else if op == cil_none
    then some (either n_strings_syntax n_lists_syntax ∷ end_syntax ∷ [])
    else none

-- The check of `current` against a syntax array, where there is one.
unfoldable pub verify_against : Nodes → Option (List Syntax) → Status
verify_against current none = sepol_err
verify_against current (some syntax) = verify_syntax current syntax

unfoldable pub verify_expr_syntax : Nodes → Flavor → Flavor → Status
verify_expr_syntax current op expr_flavor = verify_against current (expr_syntax op expr_flavor)

-- The syntax array of a constraint expression, or `none` for an operator that has none.
pub constraint_syntax : Flavor → Option (List Syntax)
constraint_syntax op =
    if op == cil_not
    then some (string_syntax ∷ list_syntax ∷ end_syntax ∷ [])
    else if op == cil_and || op == cil_or
    then some (string_syntax ∷ list_syntax ∷ list_syntax ∷ end_syntax ∷ [])
    else if op == cil_eq || op == cil_neq
    then some (string_syntax ∷ string_syntax ∷ operand_syntax ∷ end_syntax ∷ [])
    else if op == cil_cons_dom || (op == cil_cons_domby || op == cil_cons_incomp)
    then some (string_syntax ∷ string_syntax ∷ string_syntax ∷ end_syntax ∷ [])
    else none

pub verify_constraint_expr_syntax : Nodes → Flavor → Status
verify_constraint_expr_syntax current op = verify_against current (constraint_syntax op)

-- The pairs of operands of a constraint's leaf.
pub verify_constraint_leaf_expr_syntax : Flavor → Flavor → Flavor → Flavor → Status
verify_constraint_leaf_expr_syntax l r op expr_flavor =
    let eq_or_neq = op == cil_eq || op == cil_neq in
    let need = λ (b : Bool). if b then sepol_ok else sepol_err in
    if r == cil_string || r == cil_list
    then (if l == cil_cons_l1 || (l == cil_cons_l2 || (l == cil_cons_h1 || l == cil_cons_h2))
        then sepol_err
        else if l == cil_cons_u3 || (l == cil_cons_r3 || l == cil_cons_t3)
        then need (expr_flavor == cil_mlsvalidatetrans)
        else sepol_ok)
    else if r == cil_cons_u2
    then need (eq_or_neq && l == cil_cons_u1)
    else if r == cil_cons_r2
    then need (l == cil_cons_r1)
    else if r == cil_cons_t2
    then need (eq_or_neq && l == cil_cons_t1)
    else if r == cil_cons_l2
    then need (l == cil_cons_l1 || l == cil_cons_h1)
    else if r == cil_cons_h2
    then need (l == cil_cons_l1 || (l == cil_cons_l2 || l == cil_cons_h1))
    else if r == cil_cons_h1
    then need (l == cil_cons_l1)
    else sepol_ok

-- Every operator of an accepted expression stands before the number of operands that it has.
unfoldable pub arity : Flavor → ℕ
arity op = if op == cil_not then 1 else if op == cil_all then 0 else 2

unfoldable pub count : Nodes → ℕ
count nil = 0
count (cons n ns) = suc (count ns)

Pointwise-count : (ss : List Syntax) (ns : Nodes) → Pointwise ss ns → count ns ≡ length ss
unfolding count
Pointwise-count [] nil h = refl
Pointwise-count [] (cons n ns) h = absurd h
Pointwise-count (s ∷ ss) nil h = absurd h
Pointwise-count (s ∷ ss) (cons n ns) h = omega (arith, Pointwise-count ss ns h.1)

shape :
    (ss : List Syntax) (ns : Nodes)
    → AllSingle ss
    → verify_against ns (some (ss ++ end_syntax ∷ [])) ≡ sepol_ok
    → count ns ≡ length ss
unfolding verify_against
shape ss ns single h = Pointwise-count ss ns ((verify_syntax-Pointwise ss ns single).0 h)

string_syntax-IsSingle : IsSingle string_syntax
string_syntax-IsSingle = record { no_lists = refl; no_strings = refl; no_end = refl }

operand_syntax-IsSingle : IsSingle operand_syntax
operand_syntax-IsSingle = record { no_lists = refl; no_strings = refl; no_end = refl }

abbrev pub IsConditional : Flavor → Type 0
IsConditional f = (f ≡ cil_bool) ⊎ (f ≡ cil_tunable)

-- What the operator asks of the kind of expression that it stands in.
abbrev pub OperatorRule : Flavor → Flavor → Type 0
OperatorRule op f =
    (op ≡ cil_eq ⊎ op ≡ cil_neq → IsConditional f)
    × (op ≡ cil_all → ¬ IsConditional f)
    × (op ≡ cil_range → f ≡ cil_cat)

all_false : (op : Flavor) → op ≢ cil_all → (op == cil_all) ≡ false
all_false op ne = ground arith

-- A branch of the switch whose array is `ss` and the end.
abbrev Counted : Nodes → Flavor → Flavor → Option (List Syntax) → ℕ → Type 0
Counted ns op f syntax n =
    verify_against ns syntax ≡ sepol_ok → (count ns ≡ suc n) × OperatorRule op f

refused : (ns : Nodes) (op f : Flavor) (n : ℕ) → Counted ns op f none n
unfolding verify_against
refused ns op f n h = cc

shaped :
    (ss : List Syntax) (ns : Nodes) (op f : Flavor) (n : ℕ)
    → AllSingle ss
    → length ss ≡ suc n
    → OperatorRule op f
    → Counted ns op f (some (ss ++ end_syntax ∷ [])) n
shaped ss ns op f n single e rule h = (shape ss ns single h ∙ e, rule)

expr_syntax-Counted :
    (ns : Nodes) (op f : Flavor) → op ≢ cil_none → Counted ns op f (expr_syntax op f) (arity op)
unfolding expr_syntax arity
expr_syntax-Counted ns op f ne =
    let s = string_syntax-IsSingle in
    let o = operand_syntax-IsSingle in
    elim (Bool-cases (op == cil_not)) [
      | inl e ↦
          rw e (
            shaped (string_syntax ∷ operand_syntax ∷ []) ns op f 1 (s, (o, tt)) refl (ground arith))
      | inr n1 ↦ elim (Bool-cases (op == cil_and || (op == cil_or || op == cil_xor))) [
        | inl e ↦
            rw (n1, e, all_false op (ground arith))
              (shaped (string_syntax ∷ operand_syntax ∷ operand_syntax ∷ []) ns op f 2
                (s, (o, (o, tt))) refl (ground arith))
        | inr n2 ↦ elim (Bool-cases (op == cil_eq || op == cil_neq)) [
          | inl e ↦ elim (Bool-cases (not (f == cil_bool) && not (f == cil_tunable))) [
            | inl bad ↦ rw (n1, n2, e, bad, all_false op (ground arith)) (refused ns op f 2)
            | inr good ↦
                rw (n1, n2, e, good, all_false op (ground arith))
                  (shaped (string_syntax ∷ operand_syntax ∷ operand_syntax ∷ []) ns op f 2
                    (s, (o, (o, tt))) refl (ground arith))
          ]
          | inr n3 ↦ elim (Bool-cases (op == cil_all)) [
            | inl e ↦ elim (Bool-cases (f == cil_bool || f == cil_tunable)) [
              | inl bad ↦ rw (n1, n2, n3, e, bad) (refused ns op f 0)
              | inr good ↦
                  rw (n1, n2, n3, e, good)
                    (shaped (string_syntax ∷ []) ns op f 0 (s, tt) refl (ground arith))
            ]
            | inr n4 ↦ elim (Bool-cases (op == cil_range)) [
              | inl e ↦ elim (Bool-cases (not (f == cil_cat))) [
                | inl bad ↦ rw (n1, n2, n3, n4, e, bad) (refused ns op f 2)
                | inr good ↦
                    rw (n1, n2, n3, n4, e, good)
                      (shaped (string_syntax ∷ string_syntax ∷ string_syntax ∷ []) ns op f 2
                        (s, (s, (s, tt))) refl (ground arith))
              ]
              | inr n5 ↦ rw (n1, n2, n3, n4, n5, ==_ne op cil_none ne) (refused ns op f 2)
            ]
          ]
        ]
      ]
    ]

-- An accepted expression that starts with an operator has exactly that operator's number of
-- operands: one for `not`, none for `all`, two for the others. It uses `eq` and `neq` only in a
-- Boolean or tunable expression, `all` never in one, and `range` only in a category expression.
pub verify_expr_syntax-count :
    (ns : Nodes) (op f : Flavor)
    → op ≢ cil_none
    → verify_expr_syntax ns op f ≡ sepol_ok
    → (count ns ≡ suc (arity op)) × OperatorRule op f
unfolding verify_expr_syntax
verify_expr_syntax-count ns op f ne h = expr_syntax-Counted ns op f ne h

abbrev pub IsEquality : Flavor → Type 0
IsEquality op = (op ≡ cil_eq) ⊎ (op ≡ cil_neq)

abbrev pub LeafRule : Flavor → Flavor → Flavor → Flavor → Type 0
LeafRule l r op f =
    ((r ≡ cil_string) ⊎ (r ≡ cil_list)
      → (l ≢ cil_cons_l1)
        × (l ≢ cil_cons_l2)
        × (l ≢ cil_cons_h1)
        × (l ≢ cil_cons_h2)
        × ((l ≡ cil_cons_u3) ⊎ (l ≡ cil_cons_r3) ⊎ (l ≡ cil_cons_t3) → f ≡ cil_mlsvalidatetrans))
    × (r ≡ cil_cons_u2 → (l ≡ cil_cons_u1) × IsEquality op)
    × (r ≡ cil_cons_t2 → (l ≡ cil_cons_t1) × IsEquality op)
    × (r ≡ cil_cons_r2 → l ≡ cil_cons_r1)
    × (r ≡ cil_cons_l2 → (l ≡ cil_cons_l1) ⊎ (l ≡ cil_cons_h1))
    × (r ≡ cil_cons_h2 → (l ≡ cil_cons_l1) ⊎ (l ≡ cil_cons_l2) ⊎ (l ≡ cil_cons_h1))
    × (r ≡ cil_cons_h1 → l ≡ cil_cons_l1)

-- A leaf is accepted exactly by these rules. With a string or a list on the right, the left is none
-- of l1, l2, h1 and h2, and is u3, r3 or t3 only in an mlsvalidatetrans rule. On the right, u2
-- stands with u1 and t2 with t1, under eq or neq; r2 with r1; l2 with l1 or h1; h2 with l1, l2 or
-- h1; h1 with l1. Nothing is asked where the right operand is any other.
pub verify_constraint_leaf_expr_syntax-LeafRule :
    (l r op f : Flavor)
    → (verify_constraint_leaf_expr_syntax l r op f ≡ sepol_ok) ↔ LeafRule l r op f
unfolding verify_constraint_leaf_expr_syntax
verify_constraint_leaf_expr_syntax-LeafRule l r op f = (λ h. ground arith, λ h. ground arith)

-- Expressions that are accepted: one operand behind `not`, and two behind a binary operator that the
-- kind of expression allows.
pub verify_expr_syntax-not :
    (head operand : Node) (f : Flavor)
    → is_string head ≡ true
    → takes operand_syntax operand ≡ true
    → verify_expr_syntax (cons head (cons operand nil)) cil_not f ≡ sepol_ok
unfolding verify_expr_syntax expr_syntax verify_against
verify_expr_syntax-not head operand f h o =
    let s = string_syntax-IsSingle in
    let ss = operand_syntax-IsSingle in
    (verify_syntax-Pointwise (string_syntax ∷ operand_syntax ∷ []) _ (s, (ss, tt))).1 (
      (takes-Takes string_syntax head).0 (unfold takes in rw h refl),
      ((takes-Takes operand_syntax operand).0 o, tt),
    )

abbrev pub IsBinary : Flavor → Type 0
IsBinary op = (op ≡ cil_and) ⊎ (op ≡ cil_or) ⊎ (op ≡ cil_xor) ⊎ (op ≡ cil_eq) ⊎ (op ≡ cil_neq)

pub expr_syntax-binary :
    (op f : Flavor)
    → IsBinary op
    → (f ≡ cil_bool) ⊎ (f ≡ cil_tunable)
    → expr_syntax op f ≡ some (string_syntax ∷ operand_syntax ∷ operand_syntax ∷ end_syntax ∷ [])
unfolding expr_syntax
expr_syntax-binary op f b c = ground arith

pub verify_expr_syntax-binary :
    (head left right : Node) (op f : Flavor)
    → IsBinary op
    → (f ≡ cil_bool) ⊎ (f ≡ cil_tunable)
    → is_string head ≡ true
    → takes operand_syntax left ≡ true
    → takes operand_syntax right ≡ true
    → verify_expr_syntax (cons head (cons left (cons right nil))) op f ≡ sepol_ok
unfolding verify_expr_syntax verify_against
verify_expr_syntax-binary head left right op f b c h l r =
    let s = string_syntax-IsSingle in
    let o = operand_syntax-IsSingle in
    rw (expr_syntax-binary op f b c) (
      (verify_syntax-Pointwise (string_syntax ∷ operand_syntax ∷ operand_syntax ∷ []) _
          (s, (o, (o, tt)))).1
        (
          (takes-Takes string_syntax head).0 (unfold takes in rw h refl),
          ((takes-Takes operand_syntax left).0 l, ((takes-Takes operand_syntax right).0 r, tt)),
        ))
