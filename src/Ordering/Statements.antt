-- ===== src/Ordering/Statements.antt =====
-- The ordering statements, from their names to the lists that are merged, and the values of the
-- categories by their order, of src/cil_resolve_ast.c. `resolve` is cil_resolve_name for the
-- statement's kind of names, with the address of the datum that it finds.
use cil.Base.{
  ℕ, ◌+◌, List, [], ◌∷◌, ◌++◌, Bool, true, not, ◌==◌, if◌then◌else◌, Status, sepol_ok, sepol_err,
  is_ok,
}
use cil.Flavor.{Flavor, cil_cat}
use cil.Ordering.{Ordered, fresh}
use cil.Text.{Text}

-- The status, and the lists of a kind of ordering statement.
pub record OrderLists : Type 0 where
  pub status : Status
  pub lists : List Ordered

module _ (resolve : Text → Status × ℕ) where
  -- The loop over the names; the data in their order, up to the first name that is not found or not
  -- allowed.
  unfoldable pub resolve_each : (ℕ → Bool) → List Text → Status × List ℕ
  resolve_each allowed [] = (sepol_ok, [])
  resolve_each allowed (t ∷ ts) =
      let r = resolve t in
      let rest = resolve_each allowed ts in
      if not (is_ok r.0)
      then (r.0, [])
      else if not (allowed r.1)
      then (sepol_err, [])
      else (rest.0, r.1 ∷ rest.1)

  unfoldable pub add_order : List Ordered → Status × List ℕ → OrderLists
  add_order lists r =
      if is_ok r.0
      then record { status = sepol_ok; lists = lists ++ (fresh r.1 ∷ []) }
      else record { status = r.0; lists = lists }

  abbrev any_datum : ℕ → Bool
  any_datum d = true

  unfoldable pub resolve_classorder : List Text → List Ordered → OrderLists
  unfolding add_order resolve_each
  resolve_classorder names classorder_lists =
      add_order classorder_lists (resolve_each any_datum names)

  unfoldable pub resolve_sidorder : List Text → List Ordered → OrderLists
  unfolding add_order resolve_each
  resolve_sidorder names sidorder_lists = add_order sidorder_lists (resolve_each any_datum names)

  unfoldable pub resolve_sensitivityorder : List Text → List Ordered → OrderLists
  unfolding add_order resolve_each
  resolve_sensitivityorder names sensitivityorder_lists =
      add_order sensitivityorder_lists (resolve_each any_datum names)

  -- By the flavors of the data; an alias of a category is not allowed.
  unfoldable pub resolve_catorder : (ℕ → Flavor) → List Text → List Ordered → OrderLists
  unfolding add_order resolve_each
  resolve_catorder flavor names catorder_lists =
      add_order catorder_lists (resolve_each (λ d. flavor d == cil_cat) names)

-- The values of the categories, from v on, and `num_cats`.
unfoldable pub set_cat_values : List ℕ → ℕ → (ℕ → ℕ) → (ℕ → ℕ) × ℕ
set_cat_values [] v values = (values, v)
set_cat_values (cat ∷ cats) v values =
    set_cat_values cats (v + 1) (λ c. if c == cat then v else values c)
