-- ===== src/Build/Labels.antt =====
-- The statements that label objects, of src/cil_build_ast.c, but for nodecon. `none` is SEPOL_ERR.
pub mod Examples
use cil.Base.{ℕ, [], ◌∷◌, Option, none, some, true, if◌then◌else◌}
use cil.Build.Fill.{
  Ref, named, anonymous, ContextStr, data_of, next, checked, fill_ref, fill_context,
}
use cil.Build.Integers.{fill_integer, fill_range}
use cil.Build.Rules.{Rule}
use cil.Build.Statement.{
  FileconType, Protocol, FsuseType, filecon_file, filecon_dir, filecon_char, filecon_block,
  filecon_socket, filecon_pipe, filecon_symlink, filecon_any, protocol_udp, protocol_tcp,
  fsuse_xattr, fsuse_task, fsuse_trans, cil_filecon_data, cil_portcon_data, cil_genfscon_data,
  cil_netifcon_data, cil_pirqcon_data, cil_iomemcon_data, cil_ioportcon_data, cil_pcidevicecon_data,
  cil_fsuse_data,
}
use cil.Expr.{◌>>=◌}
use cil.Flavor.{
  cil_filecon, cil_portcon, cil_genfscon, cil_netifcon, cil_pirqcon, cil_iomemcon, cil_ioportcon,
  cil_pcidevicecon, cil_fsuse,
}
use cil.Text.{Text, codes, text_eq}
use cil.Tree.{Nodes, node, nil, cons}
use cil.Verify.{Syntax, verify_syntax, no_syntax, string_syntax, end_syntax, operand_syntax, either}

abbrev pub filecon_type : Text → Option FileconType
filecon_type type_str =
    if text_eq type_str (codes "file")
    then some filecon_file
    else if text_eq type_str (codes "dir")
    then some filecon_dir
    else if text_eq type_str (codes "char")
    then some filecon_char
    else if text_eq type_str (codes "block")
    then some filecon_block
    else if text_eq type_str (codes "socket")
    then some filecon_socket
    else if text_eq type_str (codes "pipe")
    then some filecon_pipe
    else if text_eq type_str (codes "symlink")
    then some filecon_symlink
    else if text_eq type_str (codes "any")
    then some filecon_any
    else none

abbrev pub protocol : Text → Option Protocol
protocol proto =
    if text_eq proto (codes "udp")
    then some protocol_udp
    else if text_eq proto (codes "tcp")
    then some protocol_tcp
    else none

abbrev pub fsuse_type : Text → Option FsuseType
fsuse_type type_str =
    if text_eq type_str (codes "xattr")
    then some fsuse_xattr
    else if text_eq type_str (codes "task")
    then some fsuse_task
    else if text_eq type_str (codes "trans")
    then some fsuse_trans
    else none

abbrev pub context_or_empty_syntax : Syntax
context_or_empty_syntax = either operand_syntax (record no_syntax { empty_list = true })

module _ (max_depth : ℕ) where
  -- A name, a context in full, or none: that is what `()` gives, and a list of one element, whatever
  -- the element is.
  unfoldable pub filecon_context : Nodes → Option (Option (Ref ContextStr))
  unfolding fill_context
  filecon_context nil = none
  filecon_context (cons (node l none nil) ns) = some none
  filecon_context (cons (node l (some t) nil) ns) = some (some (named t))
  filecon_context (cons (node l t (cons c nil)) ns) = some none
  filecon_context (cons (node l t (cons c (cons d ds))) ns) =
      fill_context max_depth (cons c (cons d ds)) >>= λ x. some (some (anonymous x))

  unfoldable pub gen_filecon : Nodes → Rule
  unfolding filecon_context verify_syntax
  gen_filecon pc =
      checked pc
        (string_syntax ∷ string_syntax ∷ string_syntax ∷ context_or_empty_syntax ∷ end_syntax ∷ [])
        (do
          type_str ← data_of (next (next pc))
          path_str ← data_of (next pc)
          t ← filecon_type type_str
          context ← filecon_context (next (next (next pc)))
          some (cil_filecon, cil_filecon_data path_str t context))

  unfoldable pub gen_portcon : Nodes → Rule
  unfolding fill_ref fill_context fill_range verify_syntax
  gen_portcon pc =
      checked pc (string_syntax ∷ string_syntax ∷ operand_syntax ∷ operand_syntax ∷ end_syntax ∷ [])
        (do
          proto ← data_of (next pc)
          p ← protocol proto
          range ← fill_range (next (next pc))
          context ← fill_ref (fill_context max_depth) (next (next (next pc)))
          some (cil_portcon, cil_portcon_data p range.0 range.1 context))

  unfoldable pub gen_genfscon : Nodes → Rule
  unfolding fill_ref fill_context verify_syntax
  gen_genfscon pc =
      checked pc (string_syntax ∷ string_syntax ∷ string_syntax ∷ operand_syntax ∷ end_syntax ∷ [])
        (do
          fs_str ← data_of (next pc)
          path_str ← data_of (next (next pc))
          context ← fill_ref (fill_context max_depth) (next (next (next pc)))
          some (cil_genfscon, cil_genfscon_data fs_str path_str context))

  unfoldable pub gen_netifcon : Nodes → Rule
  unfolding fill_ref fill_context verify_syntax
  gen_netifcon pc =
      checked pc (string_syntax ∷ string_syntax ∷ operand_syntax ∷ operand_syntax ∷ end_syntax ∷ [])
        (do
          interface_str ← data_of (next pc)
          if_context ← fill_ref (fill_context max_depth) (next (next pc))
          packet_context ← fill_ref (fill_context max_depth) (next (next (next pc)))
          some (cil_netifcon, cil_netifcon_data interface_str if_context packet_context))

  unfoldable pub gen_pirqcon : Nodes → Rule
  unfolding fill_ref fill_context fill_integer verify_syntax
  gen_pirqcon pc = checked pc (string_syntax ∷ string_syntax ∷ operand_syntax ∷ end_syntax ∷ []) (do
    pirq ← fill_integer (next pc)
    context ← fill_ref (fill_context max_depth) (next (next pc))
    some (cil_pirqcon, cil_pirqcon_data pirq context))

  unfoldable pub gen_iomemcon : Nodes → Rule
  unfolding fill_ref fill_context fill_range verify_syntax
  gen_iomemcon pc =
      checked pc (string_syntax ∷ operand_syntax ∷ operand_syntax ∷ end_syntax ∷ []) (do
        range ← fill_range (next pc)
        context ← fill_ref (fill_context max_depth) (next (next pc))
        some (cil_iomemcon, cil_iomemcon_data range.0 range.1 context))

  unfoldable pub gen_ioportcon : Nodes → Rule
  unfolding fill_ref fill_context fill_range verify_syntax
  gen_ioportcon pc =
      checked pc (string_syntax ∷ operand_syntax ∷ operand_syntax ∷ end_syntax ∷ []) (do
        range ← fill_range (next pc)
        context ← fill_ref (fill_context max_depth) (next (next pc))
        some (cil_ioportcon, cil_ioportcon_data range.0 range.1 context))

  unfoldable pub gen_pcidevicecon : Nodes → Rule
  unfolding fill_ref fill_context fill_integer verify_syntax
  gen_pcidevicecon pc =
      checked pc (string_syntax ∷ string_syntax ∷ operand_syntax ∷ end_syntax ∷ []) (do
        dev ← fill_integer (next pc)
        context ← fill_ref (fill_context max_depth) (next (next pc))
        some (cil_pcidevicecon, cil_pcidevicecon_data dev context))

  unfoldable pub gen_fsuse : Nodes → Rule
  unfolding fill_ref fill_context verify_syntax
  gen_fsuse pc =
      checked pc (string_syntax ∷ string_syntax ∷ string_syntax ∷ operand_syntax ∷ end_syntax ∷ [])
        (do
          type_str ← data_of (next pc)
          t ← fsuse_type type_str
          fs_str ← data_of (next (next pc))
          context ← fill_ref (fill_context max_depth) (next (next (next pc)))
          some (cil_fsuse, cil_fsuse_data t fs_str context))
