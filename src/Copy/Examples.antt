-- ===== src/Copy/Examples.antt =====
-- Copies of statements, under the block b of a policy that declares the type t as 7.
use cil.Base.{◌≡◌, refl, [], ◌∷◌, some, true, sepol_err}
use cil.Build.{Parent, top_level, ast_node, Tables}
use cil.Build.Fill.{classperms}
use cil.Build.Statement.{Statement, cil_type_data, cil_bool_data, cil_avrule_data}
use cil.Copy.Declared.{copy_node}
use cil.Copy.Declared.Entries.{CopyEffect, copy_node-CopyEffect}
use cil.Copy.Faithful.{copy_statement-same}
use cil.Copy.Statements.{copy_statement}
use cil.Expr.{end, item, string, op}
use cil.Flavor.{cil_root, cil_block, cil_type, cil_bool, cil_all}
use cil.Hashtab.Assoc.{Entries, entries_hashtab, entries_hashtab-IsLawful}
use cil.Text.{codes}

abbrev rule : Statement
rule =
    cil_avrule_data 1 (codes "a") (codes "b")
      (classperms (codes "file") (item (op cil_all) (item (string (some (codes "read"))) end)) ∷ [])

copy_statement-same_example : copy_statement rule ≡ some rule
copy_statement-same_example = copy_statement-same rule tt

abbrev with_t : Tables Entries
with_t p = (codes "t", 7) ∷ []

abbrev in_b : Parent
in_b = ast_node cil_block 1 [] (ast_node cil_root 0 [] top_level)

reused_t :
    (copy_node entries_hashtab in_b with_t cil_type (codes "t") (cil_type_data 3) 9).copy ≡ some 7
unfolding copy_node entries_hashtab
reused_t = refl

refused_t :
    (copy_node entries_hashtab in_b with_t cil_bool (codes "t") (cil_bool_data 3 true) 9).status
    ≡ sepol_err
unfolding copy_node entries_hashtab
refused_t = refl

copy_node-CopyEffect_example :
    CopyEffect entries_hashtab with_t
      (codes "u")
      9
      (copy_node entries_hashtab in_b with_t cil_type (codes "u") (cil_type_data 3) 9)
copy_node-CopyEffect_example =
    copy_node-CopyEffect entries_hashtab entries_hashtab-IsLawful with_t in_b cil_type (codes "u")
      (cil_type_data 3) 9
