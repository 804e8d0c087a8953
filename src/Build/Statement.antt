-- ===== src/Build/Statement.antt =====
-- What a statement of the AST holds: the structures of src/cil_internal.h, by their names, with the
-- fields that building the AST sets. A structure that declares a name has its address first.
use cil.Base.{ℕ, List, Option, Bool}
use cil.Build.Fill.{Expression, Ref, LevelStr, LevelRangeStr, ContextStr, ClassPerms}
use cil.Flavor.{Flavor}
use cil.Text.{Text}

-- `enum cil_default_object` and `enum cil_default_object_range`
pub data DefaultObject : Type 0 where
  default_source default_target : DefaultObject

pub data DefaultRange : Type 0 where
  source_low source_high source_low_high target_low target_high target_low_high : DefaultRange

-- SEPOL_ALLOW_UNKNOWN, SEPOL_DENY_UNKNOWN and SEPOL_REJECT_UNKNOWN.
pub data HandleUnknown : Type 0 where
  allow_unknown deny_unknown reject_unknown : HandleUnknown

-- `enum cil_filecon_types`, `enum cil_protocol` and `enum cil_fsuse_types`
pub data FileconType : Type 0 where
  filecon_file filecon_dir filecon_char filecon_block : FileconType
  filecon_socket filecon_pipe filecon_symlink filecon_any : FileconType

pub data Protocol : Type 0 where
  protocol_udp protocol_tcp : Protocol

pub data FsuseType : Type 0 where
  fsuse_xattr fsuse_task fsuse_trans : FsuseType

pub data Statement : Type 0 where
  -- Declarations.
  cil_block_data : ℕ → Bool → Statement
  cil_user_data cil_role_data cil_roleattribute_data cil_type_data : ℕ → Statement
  cil_typeattribute_data cil_sid_data cil_sens_data cil_cat_data : ℕ → Statement
  cil_alias_data cil_optional_data cil_policycap_data cil_classpermission_data : ℕ → Statement
  cil_bool_data cil_tunable_data : ℕ → Bool → Statement
  cil_catset_data : ℕ → Expression → Statement
  cil_level_data : ℕ → LevelStr → Statement
  cil_levelrange_data : ℕ → LevelRangeStr → Statement
  cil_context_data : ℕ → ContextStr → Statement
  -- Statements made of names.
  cil_blockinherit_data cil_blockabstract_data cil_in_data : Text → Statement
  cil_typepermissive_data : Text → Statement
  cil_classcommon_data cil_userprefix_data cil_userrole_data cil_roletype_data :
      Text → Text → Statement
  cil_roleallow_data cil_aliasactual_data cil_bounds_data : Text → Text → Statement
  cil_roletransition_data : Text → Text → Text → Text → Statement
  cil_type_rule_data : ℕ → Text → Text → Text → Text → Statement
  cil_nametypetransition_data : Text → Text → Text → Text → Text → Statement
  cil_condblock_data : Flavor → Statement
  -- Lists of names.
  cil_classorder_data cil_sidorder_data cil_catorder_data cil_sensorder_data : List Text → Statement
  -- Levels, contexts and expressions.
  cil_userlevel_data : Text → Ref LevelStr → Statement
  cil_userrange_data : Text → Ref LevelRangeStr → Statement
  cil_selinuxuser_data : Text → Text → Ref LevelRangeStr → Statement
  cil_rangetransition_data : Text → Text → Text → Ref LevelRangeStr → Statement
  cil_sidcontext_data : Option Text → Ref ContextStr → Statement
  cil_senscat_data : Text → Expression → Statement
  cil_typeattributeset_data cil_roleattributeset_data : Text → Expression → Statement
  -- Permissions.
  cil_avrule_data : ℕ → Text → Text → List ClassPerms → Statement
  cil_classpermissionset_data : Text → List ClassPerms → Statement
  cil_classmapping_data : Text → Text → List ClassPerms → Statement
  -- Settings; a list of classes may be missing.
  cil_default_data : Flavor → Option (List Text) → DefaultObject → Statement
  cil_defaultrange_data : Option (List Text) → DefaultRange → Statement
  cil_handleunknown_data : HandleUnknown → Statement
  cil_mls_data : Bool → Statement
  -- Labels; a file may have no context.
  cil_filecon_data : Text → FileconType → Option (Ref ContextStr) → Statement
  cil_portcon_data : Protocol → ℕ → ℕ → Ref ContextStr → Statement
  cil_genfscon_data : Text → Text → Ref ContextStr → Statement
  cil_netifcon_data : Text → Ref ContextStr → Ref ContextStr → Statement
  cil_pirqcon_data cil_pcidevicecon_data : ℕ → Ref ContextStr → Statement
  cil_iomemcon_data cil_ioportcon_data : ℕ → ℕ → Ref ContextStr → Statement
  cil_fsuse_data : FsuseType → Text → Ref ContextStr → Statement
