-- ===== src/Build/Settings.antt =====
-- The statements that set a default, of src/cil_build_ast.c. `none` is SEPOL_ERR.
use cil.Base.{List, [], ◌∷◌, Option, none, some, Bool, true, false, if◌then◌else◌}
use cil.Build.Fill.{data_of, next, checked, fill_list}
use cil.Build.Rules.{Rule}
use cil.Build.Statement.{
  DefaultObject, DefaultRange, HandleUnknown, default_source, default_target, source_low,
  source_high, source_low_high, target_low, target_high, target_low_high, allow_unknown,
  deny_unknown, reject_unknown, cil_default_data, cil_defaultrange_data, cil_handleunknown_data,
  cil_mls_data,
}
use cil.Expr.{◌>>=◌}
use cil.Flavor.{Flavor, cil_mls, cil_handleunknown, cil_defaultrange}
use cil.Text.{
  Text, text_eq, cil_key_condtrue, cil_key_condfalse, cil_key_source, cil_key_target, cil_key_low,
  cil_key_high, cil_key_low_high, cil_key_handleunknown_allow, cil_key_handleunknown_deny,
  cil_key_handleunknown_reject,
}
use cil.Tree.{Nodes, node, nil, cons}
use cil.Verify.{verify_syntax, string_syntax, end_syntax, operand_syntax}

-- The classes, a name or a list of names. The status of cil_fill_list is dropped, so a bad list
-- leaves them missing.
unfoldable pub class_strs : Nodes → Option (List Text)
unfolding fill_list
class_strs nil = none
class_strs (cons (node l t nil) ns) = t >>= λ s. some (s ∷ [])
class_strs (cons (node l t (cons c cs)) ns) = fill_list (cons c cs)

abbrev default_object : Text → Option DefaultObject
default_object object =
    if text_eq object cil_key_source
    then some default_source
    else if text_eq object cil_key_target
    then some default_target
    else none

unfoldable pub gen_default : Flavor → Nodes → Rule
unfolding class_strs verify_syntax
gen_default flavor pc =
    checked pc (string_syntax ∷ operand_syntax ∷ string_syntax ∷ end_syntax ∷ []) (do
      object ← data_of (next (next pc))
      o ← default_object object
      some (flavor, cil_default_data flavor (class_strs (next pc)) o))

abbrev range_of : Text → DefaultRange → DefaultRange → DefaultRange → Option DefaultRange
range_of range low high low_high =
    if text_eq range cil_key_low
    then some low
    else if text_eq range cil_key_high
    then some high
    else if text_eq range cil_key_low_high
    then some low_high
    else none

abbrev default_range : Text → Text → Option DefaultRange
default_range object range =
    if text_eq object cil_key_source
    then range_of range source_low source_high source_low_high
    else if text_eq object cil_key_target
    then range_of range target_low target_high target_low_high
    else none

unfoldable pub gen_defaultrange : Nodes → Rule
unfolding class_strs verify_syntax
gen_defaultrange pc =
    checked pc (string_syntax ∷ operand_syntax ∷ string_syntax ∷ string_syntax ∷ end_syntax ∷ [])
      (do
        object ← data_of (next (next pc))
        range ← data_of (next (next (next pc)))
        o ← default_range object range
        some (cil_defaultrange, cil_defaultrange_data (class_strs (next pc)) o))

abbrev handle_unknown : Text → Option HandleUnknown
handle_unknown key =
    if text_eq key cil_key_handleunknown_allow
    then some allow_unknown
    else if text_eq key cil_key_handleunknown_deny
    then some deny_unknown
    else if text_eq key cil_key_handleunknown_reject
    then some reject_unknown
    else none

unfoldable pub gen_handleunknown : Nodes → Rule
unfolding verify_syntax
gen_handleunknown pc = checked pc (string_syntax ∷ string_syntax ∷ end_syntax ∷ []) (do
  unknown_key ← data_of (next pc)
  u ← handle_unknown unknown_key
  some (cil_handleunknown, cil_handleunknown_data u))

-- CIL_TRUE or CIL_FALSE, from its keyword.
abbrev pub truth : Text → Option Bool
truth t =
    if text_eq t cil_key_condtrue
    then some true
    else if text_eq t cil_key_condfalse
    then some false
    else none

unfoldable pub gen_mls : Nodes → Rule
unfolding verify_syntax
gen_mls pc =
    checked pc (string_syntax ∷ string_syntax ∷ end_syntax ∷ [])
      (do t ← data_of (next pc); value ← truth t; some (cil_mls, cil_mls_data value))
