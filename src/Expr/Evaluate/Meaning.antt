-- ===== src/Expr/Evaluate/Meaning.antt =====
-- A written condition over tunables keeps its meaning through building, resolving and evaluating.
use cil.Base.{
  inl, inr, Status, sepol_ok, ℕ, ◌≡◌, ◌⊎◌, refl, Option, some, Bool, not, ◌==◌, if◌then◌else◌,
  arith,
}
use cil.Flavor.{Flavor, cil_bool, cil_tunable, cil_not}
use cil.Flavor.Index.{cil_sym_bools, cil_sym_tunables}
use mathlib.Core.Path.{sym, subst}
use cil.Text.{Text}
use cil.Expr.{Item, op, datum, list, end, item, ◌>>=◌, gen_expr}
use cil.Expr.Conditions.{
  Condition, name, negate, join, Connective, conj, disj, exclusive, equal, differ, flavor_of, quote,
  combine, meaning, Names, IsPlain, built, top_items, gen_expr-top_items,
}
use cil.Expr.Evaluate.{
  resolve_item, resolve_expr, evaluate_op, evaluate_item, evaluate_expr, evaluate_any,
  evaluate_resolved, sym_index_of,
}

sym_index_of-cond :
    (f : Flavor)
    → (f ≡ cil_bool) ⊎ (f ≡ cil_tunable)
    → sym_index_of f ≡ (if f == cil_bool then cil_sym_bools else cil_sym_tunables)
unfolding sym_index_of
sym_index_of-cond f (inl e) = rw e refl
sym_index_of-cond f (inr e) = rw e refl

module _ {D : Type 0} (resolve_name : ℕ → Option Text → Status × D) (look : Text → D) where
  -- The item after its names are resolved.
  resolved : Flavor → Condition → Item D
  resolved f (name t) = datum (look t)
  resolved f (negate c) = list f (item (op cil_not) (item (resolved f c) end))
  resolved f (join b c d) =
      list f (item (op (flavor_of b)) (item (resolved f c) (item (resolved f d) end)))

  resolve_item-resolved :
      (f : Flavor) (c : Condition)
      → Names (λ t. resolve_name (sym_index_of f) (some t) ≡ (sepol_ok, look t)) c
      → resolve_item resolve_name (sym_index_of f) (built f c) ≡ (sepol_ok, resolved f c)
  unfolding resolve_item built resolved resolve_expr
  resolve_item-resolved f (name t) h = rw h refl
  resolve_item-resolved f (negate c) h = rw (resolve_item-resolved f c h) refl
  resolve_item-resolved f (join b c d) h =
      rw (resolve_item-resolved f c h.0, resolve_item-resolved f d h.1) refl

  module _ (value : D → Bool) where
    evaluate_op-combine :
        (b : Connective) (v w : Bool)
        → (if flavor_of b == cil_not then some (not v) else some (evaluate_op (flavor_of b) v w))
          ≡ some (combine b v w)
    unfolding evaluate_op
    evaluate_op-combine conj v w = refl
    evaluate_op-combine disj v w = refl
    evaluate_op-combine exclusive v w = refl
    evaluate_op-combine equal v w = refl
    evaluate_op-combine differ v w = refl

    evaluate_item-meaning :
        (f : Flavor) (c : Condition)
        → evaluate_item value (resolved f c) ≡ some (meaning (λ t. value (look t)) c)
    unfolding evaluate_item resolved meaning
    evaluate_item-meaning f (name t) = refl
    evaluate_item-meaning f (negate c) = rw (evaluate_item-meaning f c)
    evaluate_item-meaning f (join b c d) =
        rw (evaluate_item-meaning f c, evaluate_item-meaning f d) (evaluate_op-combine b _ _)

    top_items-meaning :
        (f : Flavor) (c : Condition)
        → Names (λ t. resolve_name (sym_index_of f) (some t) ≡ (sepol_ok, look t)) c
        → evaluate_resolved value (resolve_expr resolve_name f (top_items f c))
          ≡ some (meaning (λ t. value (look t)) c)
    unfolding top_items evaluate_resolved resolve_expr resolve_item evaluate_expr evaluate_any
        evaluate_item meaning
    top_items-meaning f (name t) h = rw h (ground arith)
    top_items-meaning f (negate c) h = rw (resolve_item-resolved f c h, evaluate_item-meaning f c)
    top_items-meaning f (join b c d) h =
        rw
          (
            resolve_item-resolved f c h.0,
            resolve_item-resolved f d h.1,
            evaluate_item-meaning f c,
            evaluate_item-meaning f d,
          )
          (evaluate_op-combine b _ _)

    -- For a condition whose names are no operators and all resolve in the table of Booleans or of
    -- tunables, as the expression is of the one or the other, building its parse tree,
    -- resolving the names and evaluating the result gives the condition's truth value, for every
    -- depth limit and in Boolean and tunable expressions alike.
    pub gen_expr-meaning :
        (max : ℕ) (f : Flavor) (c : Condition)
        → (f ≡ cil_bool) ⊎ (f ≡ cil_tunable)
        → Names IsPlain c
        → Names
            (λ t.
              resolve_name (if f == cil_bool then cil_sym_bools else cil_sym_tunables) (some t)
              ≡ (sepol_ok, look t))
            c
        → (gen_expr max f (quote c) >>= λ is.
            evaluate_resolved value (resolve_expr resolve_name f is))
          ≡ some (meaning (λ t. value (look t)) c)
    gen_expr-meaning max f c cond plain known = rw (gen_expr-top_items max f cond c plain) (
        top_items-meaning f c (
          subst (λ i. Names (λ t. resolve_name i (some t) ≡ (sepol_ok, look t)) c)
            (sym (sym_index_of-cond f cond)) known))
