-- ===== src/Expr/Conditions.antt =====
-- Written conditions over Booleans or tunables, and what building makes of them.
use cil.Base.{
  ℕ, zero, suc, ◌+◌, ◌≡◌, ◌≢◌, ◌⊎◌, refl, ap, none, some, Bool, true, false, ◌&&◌, ◌||◌, not, arith,
  ==_ne, sepol_ok,
}
use cil.Base.Int.{ℤ, pos, negsuc, ◌-ℤ◌, lt_ℤ}
use mathlib.Core.Bool.{xor}
use cil.Flavor.{
  Flavor, cil_none, cil_bool, cil_tunable, cil_all, cil_and, cil_or, cil_xor, cil_not, cil_eq,
  cil_neq,
}
use cil.Text.{Text, cil_key_and, cil_key_or, cil_key_not, cil_key_eq, cil_key_neq, cil_key_xor}
use cil.Tree.{Node, Nodes, node, nil, cons}
use cil.Verify.{takes, operand_syntax}
use cil.Verify.Expressions.{
  verify_expr_syntax, IsBinary, verify_expr_syntax-not, verify_expr_syntax-binary,
}
use cil.Expr.{
  Item, Items, op, string, list, end, item, ◌>>=◌, get_expr_operator_flavor, Fill, fill_expr_helper,
  fill_expr, gen_expr,
}

pub data Connective : Type 0 where
  conj disj exclusive equal differ : Connective

-- What a policy writes: `name`, `(not c)`, `(and c d)` and so on.
pub data Condition : Type 0 where
  name : Text → Condition
  negate : Condition → Condition
  join : Connective → Condition → Condition → Condition

abbrev pub keyword : Connective → Text
keyword conj = cil_key_and
keyword disj = cil_key_or
keyword exclusive = cil_key_xor
keyword equal = cil_key_eq
keyword differ = cil_key_neq

abbrev pub flavor_of : Connective → Flavor
flavor_of conj = cil_and
flavor_of disj = cil_or
flavor_of exclusive = cil_xor
flavor_of equal = cil_eq
flavor_of differ = cil_neq

abbrev pub word : Text → Node
word t = node 0 (some t) nil

-- The parse tree of a condition.
unfoldable pub quote : Condition → Node
quote (name t) = word t
quote (negate c) = node 0 none (cons (word cil_key_not) (cons (quote c) nil))
quote (join b c d) = node 0 none (cons (word (keyword b)) (cons (quote c) (cons (quote d) nil)))

abbrev pub combine : Connective → Bool → Bool → Bool
combine conj a b = a && b
combine disj a b = a || b
combine exclusive a b = xor a b
combine equal a b = not (xor a b)
combine differ a b = xor a b

unfoldable pub meaning : (Text → Bool) → Condition → Bool
meaning env (name t) = env t
meaning env (negate c) = not (meaning env c)
meaning env (join b c d) = combine b (meaning env c) (meaning env d)

-- Every name of the condition has the property.
abbrev pub Names : (Text → Type 0) → Condition → Type 0
Names P (name t) = P t
Names P (negate c) = Names P c
Names P (join b c d) = Names P c × Names P d

abbrev pub IsPlain : Text → Type 0
IsPlain t = get_expr_operator_flavor (some t) ≡ cil_none

-- The number of operators.
unfoldable pub operators : Condition → ℕ
operators (name t) = 0
operators (negate c) = suc (operators c)
operators (join b c d) = suc (operators c + operators d)

-- The item that building makes.
unfoldable pub built : Flavor → Condition → Item ⊥
built f (name t) = string (some t)
built f (negate c) = list f (item (op cil_not) (item (built f c) end))
built f (join b c d) = list f (item (op (flavor_of b)) (item (built f c) (item (built f d) end)))

-- The list that a whole condition is built into.
unfoldable pub top_items : Flavor → Condition → Items ⊥
top_items f (name t) = item (string (some t)) end
top_items f (negate c) = item (op cil_not) (item (built f c) end)
top_items f (join b c d) = item (op (flavor_of b)) (item (built f c) (item (built f d) end))

-- The number -n, which the depth counter has reached after n operators.
abbrev pub down : ℕ → ℤ
down zero = pos 0
down (suc n) = negsuc n

down-suc : (n : ℕ) → down n -ℤ pos 1 ≡ down (suc n)
unfolding ◌-ℤ◌
down-suc zero = refl
down-suc (suc n) = ground arith

down-low : (max n : ℕ) → lt_ℤ (pos max) (down n) ≡ false
down-low max zero = ground arith
down-low max (suc n) = refl

and_false : (b : Bool) → (b && false) ≡ false
and_false b = ground arith

quote-takes : (c : Condition) → takes operand_syntax (quote c) ≡ true
unfolding takes quote
quote-takes (name t) = refl
quote-takes (negate c) = refl
quote-takes (join b c d) = refl

flavor_of-IsBinary : (b : Connective) → IsBinary (flavor_of b)
flavor_of-IsBinary conj = ground arith
flavor_of-IsBinary disj = ground arith
flavor_of-IsBinary exclusive = ground arith
flavor_of-IsBinary equal = ground arith
flavor_of-IsBinary differ = ground arith

keyword-flavor_of : (b : Connective) → get_expr_operator_flavor (some (keyword b)) ≡ flavor_of b
unfolding get_expr_operator_flavor
keyword-flavor_of conj = refl
keyword-flavor_of disj = refl
keyword-flavor_of exclusive = refl
keyword-flavor_of equal = refl
keyword-flavor_of differ = refl

flavor_of-ne : (b : Connective) → (flavor_of b ≢ cil_none) × (flavor_of b ≢ cil_all)
flavor_of-ne conj = omega arith
flavor_of-ne disj = omega arith
flavor_of-ne exclusive = omega arith
flavor_of-ne equal = omega arith
flavor_of-ne differ = omega arith

-- The step of the helper at an operator that has its operands behind it.
operator_step :
    (max : ℕ) (f o : Flavor) (nodes : Nodes) (t : Text) (all rest : Fill ⊥) (n : ℕ)
    → get_expr_operator_flavor (some t) ≡ o
    → o ≢ cil_none
    → o ≢ cil_all
    → verify_expr_syntax nodes o f ≡ sepol_ok
    → fill_expr_helper max f nodes (some t) all rest (down n)
      ≡ (rest (down n) >>= λ (is, d). some (item (op o) is, d -ℤ pos 1))
unfolding fill_expr_helper
operator_step max f o nodes t all rest n e ne_none ne_all v =
    rw (e, ==_ne o cil_none ne_none, ==_ne o cil_all ne_all, down-low max n, and_false, v)

module _ (max : ℕ) (f : Flavor) (cond : (f ≡ cil_bool) ⊎ (f ≡ cil_tunable)) where
  -- Building succeeds at every depth that operators can reach, and the counter falls by one for
  -- each operator.
  fill_expr-built :
      (c : Condition) (n : ℕ)
      → Names IsPlain c
      → fill_expr max f (quote c) (down n) ≡ some (built f c, down (operators c + n))
  unfolding fill_expr quote built operators
  fill_expr-built (name t) n plain =
      rw plain (ap (λ (k : ℕ). some (string (some t), down k)) (omega arith))
  fill_expr-built (negate c) n plain =
      let e : suc (operators c) + n ≡ suc (operators c + n) = omega arith in
      rw (
        e,
        operator_step max f cil_not _ cil_key_not _ _ n (unfold get_expr_operator_flavor in refl)
            (omega arith) (omega arith)
            (verify_expr_syntax-not (word cil_key_not) (quote c) f refl (quote-takes c)),
        fill_expr-built c n plain,
        down-suc (operators c + n),
      )
  fill_expr-built (join b c d) n plain =
      let e : suc (operators c + operators d) + n ≡ suc (operators d + (operators c + n)) =
        omega arith in
      rw (
        e,
        operator_step max f (flavor_of b) _ (keyword b) _ _ n (keyword-flavor_of b)
            (flavor_of-ne b).0 (flavor_of-ne b).1
            (verify_expr_syntax-binary (word (keyword b)) (quote c) (quote d) (flavor_of b) f
              (flavor_of-IsBinary b) cond refl (quote-takes c) (quote-takes d)),
        fill_expr-built c n plain.0,
        fill_expr-built d (operators c + n) plain.1,
        down-suc (operators d + (operators c + n)),
      )

  pub gen_expr-top_items :
      (c : Condition) → Names IsPlain c → gen_expr max f (quote c) ≡ some (top_items f c)
  unfolding gen_expr quote top_items fill_expr
  gen_expr-top_items (name t) plain = rw plain
  gen_expr-top_items (negate c) plain = rw (
    operator_step max f cil_not _ cil_key_not _ _ 0 (unfold get_expr_operator_flavor in refl)
        (omega arith) (omega arith)
        (verify_expr_syntax-not (word cil_key_not) (quote c) f refl (quote-takes c)),
    fill_expr-built c 0 plain,
  )
  gen_expr-top_items (join b c d) plain = rw (
    operator_step max f (flavor_of b) _ (keyword b) _ _ 0 (keyword-flavor_of b) (flavor_of-ne b).0
        (flavor_of-ne b).1
        (verify_expr_syntax-binary (word (keyword b)) (quote c) (quote d) (flavor_of b) f
          (flavor_of-IsBinary b) cond refl (quote-takes c) (quote-takes d)),
    fill_expr-built c 0 plain.0,
    fill_expr-built d (operators c + 0) plain.1,
  )

  -- A condition that a policy may write, with no operator for a name, is built whatever its size: at
  -- the top into the list of its items, and inside of an expression, where the counter stands at minus
  -- n, into the item of that list, with the counter at minus n less the number of the condition's
  -- operators, below every limit.
  pub gen_expr-built :
      (c : Condition) (n : ℕ)
      → Names IsPlain c
      → (gen_expr max f (quote c) ≡ some (top_items f c))
        × (fill_expr max f (quote c) (down n) ≡ some (built f c, down (operators c + n)))
        × (lt_ℤ (pos max) (down (operators c + n)) ≡ false)
  gen_expr-built c n plain =
      (gen_expr-top_items c plain, fill_expr-built c n plain, down-low max (operators c + n))
