-- ===== src/Levels.antt =====
-- The checks of levels and ranges of levels, of src/cil_verify.c. A category is its address; a set
-- of categories is the list that its expression has been evaluated to. A sensitivity has its
-- address, and the sets of categories that may be used with it. NULL is `none`.
pub mod Dominance
pub mod Examples
use cil.Base.{
  ℕ, List, [], ◌∷◌, Option, none, some, Bool, true, false, ◌&&◌, ◌||◌, ◌==◌, if◌then◌else◌, Status,
  sepol_ok, sepol_err, is_ok,
}

abbrev pub Cats : Type 0
Cats = List ℕ

-- Of `struct cil_sens`.
pub record Sens : Type 0 where
  pub addr : ℕ
  pub cats_list : Option (List Cats)

-- `struct cil_level`
pub record Level : Type 0 where
  pub sens : Sens
  pub cats : Option Cats

-- `struct cil_levelrange`
pub record LevelRange : Type 0 where
  pub low : Level
  pub high : Level

pub is_cat_in_cats : ℕ → Cats → Bool
is_cat_in_cats cat [] = false
is_cat_in_cats cat (c ∷ cs) = let rest = is_cat_in_cats cat cs in if c == cat then true else rest

pub verify_cat_in_cats : ℕ → Cats → Status
unfolding is_cat_in_cats
verify_cat_in_cats cat cats = if is_cat_in_cats cat cats then sepol_ok else sepol_err

-- The inner loop: some set of the list has the category.
pub in_some_cats : ℕ → List Cats → Bool
unfolding is_cat_in_cats
in_some_cats cat [] = false
in_some_cats cat (cs ∷ css) =
    let rest = in_some_cats cat css in if is_cat_in_cats cat cs then true else rest

-- The outer loop, which goes on behind an error.
pub all_associated : Status → Cats → List Cats → Status
unfolding in_some_cats
all_associated rc [] css = rc
all_associated rc (c ∷ cs) css =
    let fine = all_associated rc cs css in
    let bad = all_associated sepol_err cs css in if in_some_cats c css then fine else bad

pub verify_cats_associated_with_sens : Sens → Option Cats → Status
unfolding all_associated
verify_cats_associated_with_sens sens none = sepol_ok
verify_cats_associated_with_sens sens (some cats) = elim sens.cats_list [
  | none ↦ sepol_err
  | some css ↦ all_associated sepol_ok cats css
]

-- The loop over the order: whether it stops at `high`, with `low` found.
pub dominates_from : Bool → List ℕ → ℕ → ℕ → Bool
dominates_from found [] low high = false
dominates_from found (x ∷ xs) low high =
    let now = if x == low then true else found in
    let rest = dominates_from now xs low high in if now && x == high then true else rest

pub verify_levelrange_sensitivity : List ℕ → Sens → Sens → Status
unfolding dominates_from
verify_levelrange_sensitivity sensitivityorder low high =
    if dominates_from false sensitivityorder low.addr high.addr then sepol_ok else sepol_err

pub all_in_cats : Cats → Cats → Status
unfolding verify_cat_in_cats
all_in_cats [] high = sepol_ok
all_in_cats (c ∷ cs) high =
    let rest = all_in_cats cs high in
    if is_ok (verify_cat_in_cats c high) then rest else verify_cat_in_cats c high

pub verify_levelrange_cats : Option Cats → Option Cats → Status
unfolding all_in_cats
verify_levelrange_cats none high = sepol_ok
verify_levelrange_cats (some low) none = sepol_err
verify_levelrange_cats (some low) (some high) = all_in_cats low high

-- The next check, where the one before has returned SEPOL_OK.
abbrev pub then_check : Status → Status → Status
then_check rc next = if is_ok rc then next else rc

pub verify_levelrange : List ℕ → LevelRange → Status
unfolding verify_levelrange_sensitivity verify_levelrange_cats verify_cats_associated_with_sens
verify_levelrange sensitivityorder lr =
    then_check (verify_levelrange_sensitivity sensitivityorder lr.low.sens lr.high.sens) (
      then_check (verify_levelrange_cats lr.low.cats lr.high.cats) (
        then_check (verify_cats_associated_with_sens lr.low.sens lr.low.cats)
          (verify_cats_associated_with_sens lr.high.sens lr.high.cats)))
