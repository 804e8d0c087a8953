-- ===== src/Copy/Labels.antt =====
-- The copies of the statements that label objects, of src/cil_copy_ast.c.
use cil.Base.{ℕ, Option, none, some}
use cil.Build.Fill.{Ref, ContextStr}
use cil.Build.Statement.{
  Statement, FileconType, Protocol, FsuseType, cil_filecon_data, cil_portcon_data,
  cil_genfscon_data, cil_netifcon_data, cil_pirqcon_data, cil_iomemcon_data, cil_ioportcon_data,
  cil_pcidevicecon_data, cil_fsuse_data,
}
use cil.Copy.{copy_ref, copy_fill_context}
use cil.Text.{Text}

abbrev pub copy_filecon_context : Option (Ref ContextStr) → Option (Ref ContextStr)
copy_filecon_context none = none
copy_filecon_context (some r) = some (copy_ref copy_fill_context r)

unfoldable pub copy_filecon : Text → FileconType → Option (Ref ContextStr) → Statement
unfolding copy_fill_context
copy_filecon path_str t context = cil_filecon_data path_str t (copy_filecon_context context)

unfoldable pub copy_portcon : Protocol → ℕ → ℕ → Ref ContextStr → Statement
unfolding copy_fill_context
copy_portcon p port_low port_high context =
    cil_portcon_data p port_low port_high (copy_ref copy_fill_context context)

unfoldable pub copy_genfscon : Text → Text → Ref ContextStr → Statement
unfolding copy_fill_context
copy_genfscon fs_str path_str context =
    cil_genfscon_data fs_str path_str (copy_ref copy_fill_context context)

unfoldable pub copy_netifcon : Text → Ref ContextStr → Ref ContextStr → Statement
unfolding copy_fill_context
copy_netifcon interface_str if_context packet_context =
    cil_netifcon_data interface_str (copy_ref copy_fill_context if_context)
      (copy_ref copy_fill_context packet_context)

unfoldable pub copy_pirqcon : ℕ → Ref ContextStr → Statement
unfolding copy_fill_context
copy_pirqcon pirq context = cil_pirqcon_data pirq (copy_ref copy_fill_context context)

unfoldable pub copy_iomemcon : ℕ → ℕ → Ref ContextStr → Statement
unfolding copy_fill_context
copy_iomemcon iomem_low iomem_high context =
    cil_iomemcon_data iomem_low iomem_high (copy_ref copy_fill_context context)

unfoldable pub copy_ioportcon : ℕ → ℕ → Ref ContextStr → Statement
unfolding copy_fill_context
copy_ioportcon ioport_low ioport_high context =
    cil_ioportcon_data ioport_low ioport_high (copy_ref copy_fill_context context)

unfoldable pub copy_pcidevicecon : ℕ → Ref ContextStr → Statement
unfolding copy_fill_context
copy_pcidevicecon dev context = cil_pcidevicecon_data dev (copy_ref copy_fill_context context)

unfoldable pub copy_fsuse : FsuseType → Text → Ref ContextStr → Statement
unfolding copy_fill_context
copy_fsuse t fs_str context = cil_fsuse_data t fs_str (copy_ref copy_fill_context context)
