-- ===== src/Expr/Constraint/Depth.antt =====
-- The depth limit of constraint expressions.
use cil.Base.{ℕ, ◌≡◌, refl, sym, ◌∙◌, Option, none, some, false, ◌==◌, arith, Bool-cases, inl, inr}
use cil.Base.Int.{ℤ, pos, negsuc, ◌+ℤ◌, ◌-ℤ◌, lt_ℤ}
use cil.Flavor.{Flavor, cil_not}
use cil.Text.{Text}
use cil.Tree.{Node, Nodes, node, nil, cons}
use cil.Expr.Constraint.{
  Constraint, unary, binary, Fill, filled, refused, fault, then_fill, leaf_fill, is_leaf_operator,
  get_constraint_operator_flavor, fill_constraint_leaf_expr, constraint_guard, fill_constraint_expr,
  gen_constraint_expr,
}

-- The counter stands at zero or below.
abbrev pub IsLow : ℤ → Type 0
IsLow d = lt_ℤ (pos 0) d ≡ false

-- Where a fill succeeds, its counter is low.
abbrev pub EndsLow : Fill → Type 0
EndsLow (filled c d) = IsLow d
EndsLow refused = Unit
EndsLow fault = Unit

IsLow-pred : (d : ℤ) → IsLow d → IsLow (d -ℤ pos 1)
unfolding ◌-ℤ◌
IsLow-pred (pos n) h = ground arith
IsLow-pred (negsuc n) h = ground arith

IsLow-up_down : (d : ℤ) → IsLow d → IsLow (d +ℤ pos 1 -ℤ pos 1)
unfolding ◌-ℤ◌ ◌+ℤ◌
IsLow-up_down (pos n) h = ground arith
IsLow-up_down (negsuc n) h = ground arith

guard_low :
    (max flavor : ℕ) (nodes : Nodes) (t : Text) (d : ℤ)
    → IsLow d
    → constraint_guard max flavor nodes t d ≡ constraint_guard 0 flavor nodes t d
unfolding constraint_guard
guard_low max flavor nodes t (pos n) h = ground arith
guard_low max flavor nodes t (negsuc n) h = refl

-- A run of a fill from a low counter: the limit does not matter, and the counter stays low.
abbrev Unlimited : Fill → Fill → Type 0
Unlimited a b = (a ≡ b) × EndsLow b

then_fill-Unlimited :
    (a b : Fill) (k j : Constraint → ℤ → Fill)
    → Unlimited a b
    → ((c : Constraint) (d : ℤ) → IsLow d → Unlimited (k c d) (j c d))
    → Unlimited (then_fill a k) (then_fill b j)
then_fill-Unlimited a (filled c d) k j (e, low) h = rw e (h c d low)
then_fill-Unlimited a refused k j (e, low) h = rw e (refl, tt)
then_fill-Unlimited a fault k j (e, low) h = rw e (refl, tt)

leaf_fill-Unlimited :
    (c : Option Constraint) (d : ℤ) → IsLow d → Unlimited (leaf_fill c d) (leaf_fill c d)
leaf_fill-Unlimited none d h = (refl, tt)
leaf_fill-Unlimited (some c) d h = (refl, h)

module _ (max : ℕ) (flavor : Flavor) where
  unary_step :
      (o : Flavor) (cs : Nodes) (d : ℤ)
      → Unlimited (fill_constraint_expr max flavor cs d) (fill_constraint_expr 0 flavor cs d)
      → Unlimited
          (then_fill (fill_constraint_expr max flavor cs d) λ c e. filled (unary o c) (e -ℤ pos 1))
          (then_fill (fill_constraint_expr 0 flavor cs d) λ c e. filled (unary o c) (e -ℤ pos 1))
  unary_step o cs d u =
      then_fill-Unlimited (fill_constraint_expr max flavor cs d)
        (fill_constraint_expr 0 flavor cs d) (λ c e. filled (unary o c) (e -ℤ pos 1))
        (λ c e. filled (unary o c) (e -ℤ pos 1)) u (λ c e low. (refl, IsLow-pred e low))

  -- Both operands of a binary operator, under a limit.
  both : ℕ → Flavor → Nodes → Nodes → ℤ → Fill
  both limit o cs cs' d = then_fill (fill_constraint_expr limit flavor cs d) λ c e.
      then_fill (fill_constraint_expr limit flavor cs' e)
        λ c' e'. filled (binary o c c') (e' -ℤ pos 1)

  binary_step :
      (o : Flavor) (cs cs' : Nodes) (d : ℤ)
      → Unlimited (fill_constraint_expr max flavor cs d) (fill_constraint_expr 0 flavor cs d)
      → ((e : ℤ)
          → IsLow e
          → Unlimited (fill_constraint_expr max flavor cs' e) (fill_constraint_expr 0 flavor cs' e))
      → Unlimited (both max o cs cs' d) (both 0 o cs cs' d)
  unfolding both
  binary_step o cs cs' d u v =
      then_fill-Unlimited (fill_constraint_expr max flavor cs d)
        (fill_constraint_expr 0 flavor cs d)
        (λ c e.
          then_fill (fill_constraint_expr max flavor cs' e)
            λ c' e'. filled (binary o c c') (e' -ℤ pos 1))
        (λ c e.
          then_fill (fill_constraint_expr 0 flavor cs' e)
            λ c' e'. filled (binary o c c') (e' -ℤ pos 1))
        u
        (λ c e low.
          then_fill-Unlimited (fill_constraint_expr max flavor cs' e)
            (fill_constraint_expr 0 flavor cs' e) (λ c' e'. filled (binary o c c') (e' -ℤ pos 1))
            (λ c' e'. filled (binary o c c') (e' -ℤ pos 1)) (v e low)
            (λ c' e' low'. (refl, IsLow-pred e' low')))

  fill-Unlimited :
      (nodes : Nodes) (d : ℤ)
      → IsLow d
      → Unlimited (fill_constraint_expr max flavor nodes d) (fill_constraint_expr 0 flavor nodes d)
  unfolding fill_constraint_expr both
  fill-Unlimited (cons (node l (some t) nil) (cons (node k u cs) (cons (node k' u' cs') r))) d h =
      let o = get_constraint_operator_flavor t in
      let nodes = cons (node l (some t) nil) (cons (node k u cs) (cons (node k' u' cs') r)) in
      rw (guard_low max flavor nodes t d h)
        (elim (Bool-cases (constraint_guard 0 flavor nodes t d)) [
          | inr closed ↦ rw closed (refl, tt)
          | inl open' ↦ rw open' (elim (Bool-cases (is_leaf_operator o)) [
            | inl is ↦ rw is (
                leaf_fill-Unlimited (fill_constraint_leaf_expr flavor o u u') _ (IsLow-up_down d h))
            | inr other ↦ rw other (elim (Bool-cases (o == cil_not)) [
              | inl is ↦ rw is (unary_step o cs d (fill-Unlimited cs d h))
              | inr two ↦ rw two (
                  binary_step o cs cs' d (fill-Unlimited cs d h)
                    (λ e low. fill-Unlimited cs' e low))
            ])
          ])
        ])
  fill-Unlimited (cons (node l (some t) nil) (cons (node k u cs) nil)) d h =
      let o = get_constraint_operator_flavor t in
      let nodes = cons (node l (some t) nil) (cons (node k u cs) nil) in
      rw (guard_low max flavor nodes t d h)
        (elim (Bool-cases (constraint_guard 0 flavor nodes t d)) [
          | inr closed ↦ rw closed (refl, tt)
          | inl open' ↦ rw open' (elim (Bool-cases (o == cil_not)) [
            | inl is ↦ rw is (unary_step o cs d (fill-Unlimited cs d h))
            | inr other ↦ rw other (refl, tt)
          ])
        ])
  fill-Unlimited (cons (node l (some t) nil) nil) d h =
      let nodes = cons (node l (some t) nil) nil in
      rw (guard_low max flavor nodes t d h)
        (elim (Bool-cases (constraint_guard 0 flavor nodes t d)) [
          | inr closed ↦ rw closed (refl, tt)
          | inl open' ↦ rw open' (refl, tt)
        ])
  fill-Unlimited (cons (node l (some t) (cons c cs)) ns) d h = (refl, tt)
  fill-Unlimited (cons (node l none cs) ns) d h = (refl, tt)
  fill-Unlimited nil d h = (refl, tt)

-- The depth limit has no effect: a constraint expression is built, or refused, as it would be
-- with any other limit, however deep it is.
pub gen_constraint_expr_unlimited :
    (max other flavor : ℕ) (n : Node)
    → gen_constraint_expr max flavor n ≡ gen_constraint_expr other flavor n
unfolding gen_constraint_expr
gen_constraint_expr_unlimited max other flavor (node l t nil) = refl
gen_constraint_expr_unlimited max other flavor (node l t (cons c cs)) =
    (fill-Unlimited max flavor (cons c cs) (pos 0) refl).0
    ∙ sym ((fill-Unlimited other flavor (cons c cs) (pos 0) refl).0)
