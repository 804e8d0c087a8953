-- ===== src/Build/Examples.antt =====
-- Statements built in the block b of a macro-free policy, with lists for the tables of symbols.
use cil.Base.{◌≡◌, refl, List, [], ◌∷◌, none, some, false, sepol_err, sepol_eexist}
use cil.Build.{Parent, top_level, ast_node, Tables}
use cil.Build.Atomic.{Effect}
use cil.Build.Atomic.Statements.{build_statement-Effect}
use cil.Build.Declare.{Built, gen_type}
use cil.Build.Dispatch.{BuildArgs, build_statement}
use cil.Build.Rules.{gen_aliasactual, gen_typetransition}
use cil.Build.Settings.{gen_default}
use cil.Build.Levelled.{gen_userlevel}
use cil.Build.Statement.{
  cil_aliasactual_data, cil_nametypetransition_data, cil_default_data, default_source,
  cil_userlevel_data,
}
use cil.Build.Fill.{anonymous}
use cil.Expr.{fill_expr, get_expr_operator_flavor, end, item, string}
use cil.Flavor.{
  cil_root, cil_block, cil_macro, cil_type, cil_typealiasactual, cil_nametypetransition,
  cil_defaultuser, cil_userlevel,
}
use cil.Flavor.Index.{cil_sym_types}
use cil.Hashtab.Assoc.{Entries, entries_hashtab, entries_hashtab-IsLawful, search_entries}
use cil.Resolve.{symtab_in}
use cil.Text.{Text, codes}
use cil.Tree.{Nodes, node, nil, cons}

abbrev words : List Text → Nodes
words [] = nil
words (t ∷ ts) = cons (node 1 (some t) nil) (words ts)

abbrev in_b : Parent
in_b = ast_node cil_block 1 [] (ast_node cil_root 0 [] top_level)

abbrev in_macro : Parent
in_macro =
    ast_node cil_macro 1 (record { str = codes "x"; param_flavor = cil_type } ∷ [])
      (ast_node cil_root 0 [] top_level)

abbrev empty : Tables Entries
empty p = []

abbrev type_t : Nodes
type_t = words (codes "type" ∷ codes "t" ∷ [])

abbrev args_in_b : BuildArgs
args_in_b = record { ast = in_b; macro = false; boolif = false; tunif = false; in_block = false }

abbrev declared_t : Built Entries
declared_t = gen_type entries_hashtab type_t in_b empty 7

declared : search_entries (declared_t.symtabs (symtab_in 1 cil_sym_types)) (codes "t") ≡ some 7
unfolding gen_type entries_hashtab
declared = refl

declared_twice : (gen_type entries_hashtab type_t in_b declared_t.symtabs 8).status ≡ sepol_eexist
unfolding gen_type entries_hashtab
declared_twice = refl

shadowing :
    (gen_type entries_hashtab (words (codes "type" ∷ codes "x" ∷ [])) in_macro empty 7).status
    ≡ sepol_err
unfolding gen_type entries_hashtab
shadowing = refl

named :
    gen_typetransition (
      words
        (codes "typetransition" ∷ codes "a" ∷ codes "b" ∷ codes "c" ∷ codes "f" ∷ codes "d" ∷ []))
    ≡ some (
      cil_nametypetransition,
      cil_nametypetransition_data (codes "a") (codes "b") (codes "c") (codes "f") (codes "d"),
    )
unfolding gen_typetransition
named = refl

-- The reserved name is refused for CIL_TYPEALIAS, but the keyword gives CIL_TYPEALIASACTUAL.
self_alias :
    gen_aliasactual cil_typealiasactual
      (words (codes "typealiasactual" ∷ codes "self" ∷ codes "t" ∷ []))
    ≡ some (cil_typealiasactual, cil_aliasactual_data (codes "self") (codes "t"))
unfolding gen_aliasactual
self_alias = refl

-- A list of classes that is no list of names is lost.
bad_classes :
    gen_default cil_defaultuser (
      cons (node 1 (some (codes "defaultuser")) nil) (
        cons
          (node 1 none (cons (node 1 none (words (codes "c" ∷ []))) nil))
          (words (codes "source" ∷ []))))
    ≡ some (cil_defaultuser, cil_default_data cil_defaultuser none default_source)
unfolding gen_default
bad_classes = refl

levelled :
    gen_userlevel 4 (
      cons (node 1 (some (codes "userlevel")) nil) (
        cons
          (node 1 (some (codes "u")) nil)
          (cons (node 1 none (words (codes "s0" ∷ codes "c0" ∷ []))) nil)))
    ≡ some (
      cil_userlevel,
      cil_userlevel_data (codes "u") (
          anonymous (record {
            sens_str = codes "s0";
            cats = some (item (string (some (codes "c0"))) end);
          })),
    )
unfolding gen_userlevel fill_expr get_expr_operator_flavor
levelled = refl

build_statement-Effect_example : Effect entries_hashtab empty declared_t
unfolding build_statement entries_hashtab
build_statement-Effect_example =
    build_statement-Effect entries_hashtab entries_hashtab-IsLawful empty false 4 args_in_b
      (codes "type") type_t 7 declared_t refl
