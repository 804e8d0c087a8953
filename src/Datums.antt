-- ===== src/Datums.antt =====
-- Checks of lists of data, of src/cil_verify.c: that a declaration does not name itself, that ranges
-- have two ends, and that initial sids have contexts. A declaration is its address.
pub mod Checks
pub mod Examples
use cil.Base.{
  ℕ, List, [], ◌∷◌, Option, none, some, Bool, true, false, ◌==◌, if◌then◌else◌, Status, sepol_ok,
  sepol_err, is_ok,
}
use cil.Expr.{Item, Items, op, operand, string, datum, list, end, item}

mutual
  pub verify_no_self_reference : ℕ → Items ℕ → Status
  verify_no_self_reference d end = sepol_ok
  verify_no_self_reference d (item i is) =
      let here = refers_to d i in
      let rest = verify_no_self_reference d is in if is_ok here then rest else sepol_err

  -- One turn of the loop.
  pub refers_to : ℕ → Item ℕ → Status
  refers_to d (datum e) = if e == d then sepol_err else sepol_ok
  refers_to d (list f is) = verify_no_self_reference d is
  refers_to d (op o) = sepol_ok
  refers_to d (operand o) = sepol_ok
  refers_to d (string t) = sepol_ok

-- `range == NULL || range->next == NULL || range->next->next != NULL`, the other way round.
abbrev pub has_two : Items ℕ → Bool
has_two (item a (item b end)) = true
has_two _ = false

-- The loop over the list.
pub ranges_from : Items ℕ → Status
ranges_from end = sepol_ok
ranges_from (item (list f range) is) =
    let rest = ranges_from is in if has_two range then rest else sepol_err
ranges_from (item _ is) = ranges_from is

-- A NULL list is `none`.
pub verify_ranges : Option (Items ℕ) → Status
unfolding ranges_from
verify_ranges none = sepol_err
verify_ranges (some end) = sepol_err
verify_ranges (some (item i is)) = ranges_from (item i is)

-- `sid->context != NULL`, for each of the sids; the loop goes on behind an error.
pub initsids_from : Status → List Bool → Status
initsids_from rc [] = rc
initsids_from rc (has_context ∷ sids) =
    let fine = initsids_from rc sids in
    let bad = initsids_from sepol_err sids in if has_context then fine else bad

pub verify_initsids : List Bool → Status
unfolding initsids_from
verify_initsids [] = sepol_err
verify_initsids (has_context ∷ sids) = initsids_from sepol_ok (has_context ∷ sids)
