-- ===== src/Datums/Examples.antt =====
-- Tests, and the theorems at concrete lists.
use cil.Base.{ℕ, ◌≡◌, ◌↔◌, refl, sepol_ok, sepol_err}
use cil.Flavor.{cil_type}
use cil.Expr.{Item, datum, list, end, item}
use cil.Datums.{verify_no_self_reference}
use cil.Datums.Checks.{Nowhere, verify_no_self_reference-Nowhere}

abbrev pair_list : Item ℕ
pair_list = list cil_type (item (datum 1) (item (datum 2) end))

self_test : verify_no_self_reference 2 (item (datum 3) (item pair_list end)) ≡ sepol_err
unfolding verify_no_self_reference
self_test = refl

verify_no_self_reference-Nowhere_example :
    (verify_no_self_reference 4 (item pair_list end) ≡ sepol_ok) ↔ Nowhere 4 (item pair_list end)
verify_no_self_reference-Nowhere_example = verify_no_self_reference-Nowhere 4 (item pair_list end)
