-- ===== src/Build/Dispatch.antt =====
-- From a statement's keyword to its builder: the part of __cil_build_ast_node_helper of
-- src/cil_build_ast.c that refuses statements by what they stand in, and the choice by the keyword.
use cil.Base.{
  ℕ, List, [], ◌∷◌, Option, none, some, Bool, false, ◌&&◌, ◌||◌, not, if◌then◌else◌, sepol_ok,
  sepol_err,
}
use cil.Build.{Parent, Tables, flavor_of}
use cil.Build.Declare.{
  Built, failed, gen_alias, gen_block, gen_bool, gen_category, gen_catset, gen_classpermission,
  gen_context, gen_level, gen_levelrange, gen_optional, gen_policycap, gen_role, gen_roleattribute,
  gen_sensitivity, gen_sid, gen_tunable, gen_type, gen_typeattribute, gen_user,
}
use cil.Build.Labels.{
  gen_filecon, gen_portcon, gen_genfscon, gen_netifcon, gen_pirqcon, gen_iomemcon, gen_ioportcon,
  gen_pcidevicecon, gen_fsuse,
}
use cil.Build.Levelled.{
  gen_avrule, gen_classmapping, gen_classpermissionset, gen_rangetransition, gen_roleattributeset,
  gen_selinuxuser, gen_selinuxuserdefault, gen_senscat, gen_sidcontext, gen_typeattributeset,
  gen_userlevel, gen_userrange,
}
use cil.Build.Rules.{
  Rule, gen_aliasactual, gen_blockabstract, gen_blockinherit, gen_bounds, gen_catorder,
  gen_classcommon, gen_classorder, gen_condblock, gen_in, gen_roleallow, gen_roletransition,
  gen_roletype, gen_sensitivityorder, gen_sidorder, gen_type_rule, gen_typepermissive,
  gen_typetransition, gen_userprefix, gen_userrole,
}
use cil.Build.Settings.{gen_default, gen_defaultrange, gen_handleunknown, gen_mls}
use cil.Flavor.{
  Flavor, cil_catalias, cil_cataliasactual, cil_condfalse, cil_condtrue, cil_defaultrole,
  cil_defaulttype, cil_defaultuser, cil_role, cil_sensalias, cil_sensaliasactual, cil_type,
  cil_typealias, cil_typealiasactual, cil_user,
}
use cil.Hashtab.{Hashtab}
use cil.Text.{Text, codes, text_eq}
use cil.Tree.{Nodes}

-- Of `struct cil_args_build`: the parent of the new node, and whether the statement stands in a
-- macro, a booleanif, a tunableif or an in.
pub record BuildArgs : Type 0 where
  pub ast : Parent
  pub macro : Bool
  pub boolif : Bool
  pub tunif : Bool
  pub in_block : Bool

abbrev pub key_among : Text → List Text → Bool
key_among key [] = false
key_among key (k ∷ ks) = text_eq key k || key_among key ks

abbrev in_booleanif : List Text
in_booleanif =
    codes "true"
    ∷ codes "false"
    ∷ codes "auditallow"
    ∷ codes "tunableif"
    ∷ codes "allow"
    ∷ codes "dontaudit"
    ∷ codes "typetransition"
    ∷ codes "typechange"
    ∷ codes "call"
    ∷ []

-- A statement that may not stand where it does.
unfoldable pub is_misplaced : BuildArgs → Text → Bool
is_misplaced args key =
    (args.macro && key_among key (codes "macro" ∷ codes "tunable" ∷ codes "in" ∷ []))
    || ((args.boolif && not (key_among key in_booleanif))
        || ((args.tunif && text_eq key (codes "tunable"))
            || (args.in_block && text_eq key (codes "in"))))

-- The first entry with the keyword.
unfoldable pub find_key_entry {ℓ} : {A : Type ℓ} → Text → List (Text × A) → Option A
find_key_entry key [] = none
find_key_entry key ((k, a) ∷ kas) =
    let rest = find_key_entry key kas in if text_eq key k then some a else rest

-- A node with what a rule gives, and no new entry.
abbrev pub of_rule : {T : Type 0} → Tables T → Rule → Built T
of_rule tables none = failed sepol_err tables
of_rule tables (some (f, x)) = record {
  status = sepol_ok;
  symtabs = tables;
  node_flavor = f;
  node_data = some x;
}

-- The rules by their keywords; the kinds of the rules are CIL_AVRULE_ALLOWED, CIL_AVRULE_AUDITALLOW,
-- CIL_AVRULE_DONTAUDIT, CIL_AVRULE_NEVERALLOW, CIL_TYPE_CHANGE and CIL_TYPE_MEMBER.
unfoldable pub rules : ℕ → Nodes → Flavor → List (Text × Rule)
unfolding gen_filecon gen_portcon gen_genfscon gen_netifcon gen_pirqcon gen_iomemcon gen_ioportcon
    gen_pcidevicecon gen_fsuse gen_aliasactual gen_avrule gen_blockabstract gen_blockinherit
    gen_bounds gen_catorder gen_classcommon gen_classmapping gen_classorder gen_classpermissionset
    gen_condblock gen_default gen_defaultrange gen_handleunknown gen_in gen_mls gen_rangetransition
    gen_roleallow gen_roleattributeset gen_roletransition gen_roletype gen_selinuxuser
    gen_selinuxuserdefault gen_senscat gen_sensitivityorder gen_sidcontext gen_sidorder
    gen_type_rule gen_typeattributeset gen_typepermissive gen_typetransition gen_userlevel
    gen_userprefix gen_userrange gen_userrole
rules max_depth pc parent_flavor =
    (codes "blockinherit", gen_blockinherit pc)
    ∷ (codes "blockabstract", gen_blockabstract pc)
    ∷ (codes "in", gen_in pc)
    ∷ (codes "classorder", gen_classorder pc)
    ∷ (codes "classmapping", gen_classmapping max_depth pc)
    ∷ (codes "classpermissionset", gen_classpermissionset max_depth pc)
    ∷ (codes "classcommon", gen_classcommon pc)
    ∷ (codes "sidcontext", gen_sidcontext max_depth pc)
    ∷ (codes "sidorder", gen_sidorder pc)
    ∷ (codes "userlevel", gen_userlevel max_depth pc)
    ∷ (codes "userrange", gen_userrange max_depth pc)
    ∷ (codes "userbounds", gen_bounds cil_user pc)
    ∷ (codes "userprefix", gen_userprefix pc)
    ∷ (codes "selinuxuser", gen_selinuxuser max_depth pc)
    ∷ (codes "selinuxuserdefault", gen_selinuxuserdefault max_depth pc)
    ∷ (codes "typeattributeset", gen_typeattributeset max_depth pc)
    ∷ (codes "typealiasactual", gen_aliasactual cil_typealiasactual pc)
    ∷ (codes "typebounds", gen_bounds cil_type pc)
    ∷ (codes "typepermissive", gen_typepermissive pc)
    ∷ (codes "rangetransition", gen_rangetransition max_depth pc)
    ∷ (codes "userrole", gen_userrole pc)
    ∷ (codes "roletype", gen_roletype pc)
    ∷ (codes "roletransition", gen_roletransition pc)
    ∷ (codes "roleallow", gen_roleallow pc)
    ∷ (codes "roleattributeset", gen_roleattributeset max_depth pc)
    ∷ (codes "rolebounds", gen_bounds cil_role pc)
    ∷ (codes "true", gen_condblock cil_condtrue parent_flavor pc)
    ∷ (codes "false", gen_condblock cil_condfalse parent_flavor pc)
    ∷ (codes "allow", gen_avrule max_depth 1 pc)
    ∷ (codes "auditallow", gen_avrule max_depth 2 pc)
    ∷ (codes "dontaudit", gen_avrule max_depth 8 pc)
    ∷ (codes "neverallow", gen_avrule max_depth 128 pc)
    ∷ (codes "typetransition", gen_typetransition pc)
    ∷ (codes "typechange", gen_type_rule 64 pc)
    ∷ (codes "typemember", gen_type_rule 32 pc)
    ∷ (codes "sensitivityaliasactual", gen_aliasactual cil_sensaliasactual pc)
    ∷ (codes "categoryaliasactual", gen_aliasactual cil_cataliasactual pc)
    ∷ (codes "categoryorder", gen_catorder pc)
    ∷ (codes "sensitivityorder", gen_sensitivityorder pc)
    ∷ (codes "sensitivitycategory", gen_senscat max_depth pc)
    ∷ (codes "filecon", gen_filecon max_depth pc)
    ∷ (codes "portcon", gen_portcon max_depth pc)
    ∷ (codes "genfscon", gen_genfscon max_depth pc)
    ∷ (codes "netifcon", gen_netifcon max_depth pc)
    ∷ (codes "pirqcon", gen_pirqcon max_depth pc)
    ∷ (codes "iomemcon", gen_iomemcon max_depth pc)
    ∷ (codes "ioportcon", gen_ioportcon max_depth pc)
    ∷ (codes "pcidevicecon", gen_pcidevicecon max_depth pc)
    ∷ (codes "fsuse", gen_fsuse max_depth pc)
    ∷ (codes "defaultuser", gen_default cil_defaultuser pc)
    ∷ (codes "defaultrole", gen_default cil_defaultrole pc)
    ∷ (codes "defaulttype", gen_default cil_defaulttype pc)
    ∷ (codes "defaultrange", gen_defaultrange pc)
    ∷ (codes "handleunknown", gen_handleunknown pc)
    ∷ (codes "mls", gen_mls pc)
    ∷ []

module _ {T : Type 0} (h : Hashtab T) where
  unfoldable pub declarations : Bool → ℕ → Nodes → Parent → Tables T → ℕ → List (Text × Built T)
  unfolding gen_alias gen_block gen_bool gen_category gen_catset gen_classpermission gen_context
      gen_level gen_levelrange gen_optional gen_policycap gen_role gen_roleattribute gen_sensitivity
      gen_sid gen_tunable gen_type gen_typeattribute gen_user
  declarations preserve_tunables max_depth pc parent tables d =
      (codes "block", gen_block h pc parent tables d false)
      ∷ (codes "classpermission", gen_classpermission h pc parent tables d)
      ∷ (codes "sid", gen_sid h pc parent tables d)
      ∷ (codes "user", gen_user h pc parent tables d)
      ∷ (codes "type", gen_type h pc parent tables d)
      ∷ (codes "typeattribute", gen_typeattribute h pc parent tables d)
      ∷ (codes "typealias", gen_alias h cil_typealias pc parent tables d)
      ∷ (codes "role", gen_role h pc parent tables d)
      ∷ (codes "roleattribute", gen_roleattribute h pc parent tables d)
      ∷ (codes "boolean", gen_bool h pc parent tables d)
      ∷ (
        codes "tunable",
        if preserve_tunables
            then gen_bool h pc parent tables d
            else gen_tunable h pc parent tables d,
      )
      ∷ (codes "sensitivity", gen_sensitivity h pc parent tables d)
      ∷ (codes "sensitivityalias", gen_alias h cil_sensalias pc parent tables d)
      ∷ (codes "category", gen_category h pc parent tables d)
      ∷ (codes "categoryalias", gen_alias h cil_catalias pc parent tables d)
      ∷ (codes "categoryset", gen_catset h max_depth pc parent tables d)
      ∷ (codes "level", gen_level h max_depth pc parent tables d)
      ∷ (codes "levelrange", gen_levelrange h max_depth pc parent tables d)
      ∷ (codes "context", gen_context h max_depth pc parent tables d)
      ∷ (codes "policycap", gen_policycap h pc parent tables d)
      ∷ (codes "optional", gen_optional h pc parent tables d)
      ∷ []

  abbrev pub or_rule : Tables T → Option (Built T) → Option Rule → Option (Built T)
  or_rule tables (some b) r = some b
  or_rule tables none none = none
  or_rule tables none (some r) = some (of_rule tables r)

  -- `none` for a statement that is not modelled, and for an unknown keyword, which is an error.
  unfoldable pub build_statement :
      Bool → ℕ → BuildArgs → Text → Nodes → Tables T → ℕ → Option (Built T)
  unfolding is_misplaced find_key_entry declarations rules
  build_statement preserve_tunables max_depth args key pc tables d =
      if is_misplaced args key
      then some (failed sepol_err tables)
      else or_rule tables
          (find_key_entry key (declarations preserve_tunables max_depth pc args.ast tables d))
          (find_key_entry key (rules max_depth pc (flavor_of args.ast)))
