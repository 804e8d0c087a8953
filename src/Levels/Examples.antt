-- ===== src/Levels/Examples.antt =====
-- Tests, and the theorem at a concrete range.
use cil.Base.{ℕ, ◌≡◌, ◌↔◌, refl, [], ◌∷◌, some, sepol_ok, sepol_err}
use cil.Levels.{Sens, LevelRange, verify_levelrange}
use cil.Levels.Dominance.{Dominates, IsSubset, IsAssociated, verify_levelrange-Dominates}

-- The sensitivity `s`, with which the categories 7 and 8 may be used.
abbrev with_cats : ℕ → Sens
with_cats s = record { addr = s; cats_list = some ((7 ∷ []) ∷ (8 ∷ []) ∷ []) }

abbrev two_levels : LevelRange
two_levels = record {
  low = record { sens = with_cats 1; cats = some (8 ∷ []) };
  high = record { sens = with_cats 2; cats = some (7 ∷ 8 ∷ []) };
}

levels_test : verify_levelrange (1 ∷ 2 ∷ []) two_levels ≡ sepol_ok
unfolding verify_levelrange
levels_test = refl

-- In the contrary order the high sensitivity does not dominate the low one.
levels_contrary_test : verify_levelrange (2 ∷ 1 ∷ []) two_levels ≡ sepol_err
unfolding verify_levelrange
levels_contrary_test = refl

verify_levelrange-Dominates_example : (verify_levelrange (1 ∷ 2 ∷ []) two_levels ≡ sepol_ok) ↔ (
    Dominates (1 ∷ 2 ∷ []) 1 2
    × IsSubset (some (8 ∷ [])) (some (7 ∷ 8 ∷ []))
    × IsAssociated (with_cats 1) (some (8 ∷ []))
    × IsAssociated (with_cats 2) (some (7 ∷ 8 ∷ [])))
verify_levelrange-Dominates_example = verify_levelrange-Dominates (1 ∷ 2 ∷ []) two_levels
