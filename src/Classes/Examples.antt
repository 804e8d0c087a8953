-- ===== src/Classes/Examples.antt =====
-- The class file with two permissions and the common base with three.
use cil.Base.{
  ◌≡◌, ◌≢◌, refl, inl, List, [], ◌∷◌, ℕ, none, some, false, sepol_eexist, arith, ◌<◌, ◌==◌,
  if◌then◌else◌,
}
use cil.Build.{Parent, top_level, ast_node, Tables}
use cil.Classes.{Class, gen_class}
use cil.Classes.Again.{Joined, resolve_classcommon-Joined, reset_class-again}
use cil.Classes.Common.{Classes, resolve_classcommon, reset_class}
use cil.Classes.Numbers.{NumberedFrom, IsNumbered, IsBuiltOf, siblings, classes-IsBuiltOf}
use cil.Flavor.{cil_root}
use cil.Hashtab.Assoc.{Entries, entries_hashtab}
use cil.Text.{Text, codes}
use cil.Tree.{Nodes, node, nil, cons}

abbrev words : List Text → Nodes
words [] = nil
words (t ∷ ts) = cons (node 1 (some t) nil) (words ts)

abbrev statement : Text → Text → List Text → Nodes
statement keyword name perms =
    cons (node 1 (some keyword) nil)
      (cons (node 1 (some name) nil) (cons (node 1 none (words perms)) nil))

abbrev root : Parent
root = ast_node cil_root 0 [] top_level

abbrev no_entries : Tables Entries
no_entries p = []

abbrev file : Class
file = record {
  perms =
      record { name = codes "read"; value = 0 } ∷ record { name = codes "write"; value = 1 } ∷ [];
  num_perms = 2;
  common = none;
  ordered = false;
}

abbrev base : Class
base = record {
  perms =
      record { name = codes "open"; value = 0 }
      ∷ record { name = codes "map"; value = 1 }
      ∷ record { name = codes "lock"; value = 2 }
      ∷ [];
  num_perms = 3;
  common = none;
  ordered = false;
}

abbrev class_file : Nodes
class_file = statement (codes "class") (codes "file") (codes "read" ∷ codes "write" ∷ [])

built_file : (gen_class entries_hashtab class_file root no_entries 10).class ≡ some file
unfolding gen_class entries_hashtab
built_file = refl

-- A permission that is there twice is refused, and the class is not declared.
twice :
    (gen_class entries_hashtab
      (statement (codes "class") (codes "file") (codes "read" ∷ codes "read" ∷ []))
      root
      no_entries
      10).status
    ≡ sepol_eexist
unfolding gen_class entries_hashtab
twice = refl

few : siblings (words (codes "read" ∷ codes "write" ∷ [])) < 4294967296
unfolding siblings
few = omega arith

classes-IsBuiltOf_example : IsBuiltOf (words (codes "read" ∷ codes "write" ∷ [])) file
classes-IsBuiltOf_example =
    classes-IsBuiltOf entries_hashtab class_file root no_entries 10 file few (inl built_file)

file_numbers : IsNumbered file
file_numbers = record { values = (refl, (refl, tt)); number = refl }

abbrev two : Classes
two a = if a == 0 then file else base

zero_one : ◌≢◌ {A = ℕ} 0 1
zero_one p = absurd (omega (arith, p))

resolve_classcommon-Joined_example :
    (after : Classes) × (resolve_classcommon two 0 1 ≡ some after) × Joined two after 0 1
resolve_classcommon-Joined_example =
    resolve_classcommon-Joined two 0 1 zero_one refl file_numbers (omega arith)

reset_class-again_example :
    (first second : Classes) × (resolve_classcommon two 0 1 ≡ some first)
    × (resolve_classcommon (reset_class first 0) 0 1 ≡ some second)
    × NumberedFrom 6 (second 0).perms
    × ((second 0).num_perms ≡ 5)
reset_class-again_example = reset_class-again two 0 1 zero_one refl file_numbers (omega arith)
