-- ===== src/Fqn.antt =====
-- Fully qualified names, of src/cil_fqn.c. A symbol table is the list of its declarations, in the
-- order in which cil_symtab_map visits them, and a block has a list of tables with their indices.
-- Where the name of a block is too long, the message in the code reads a node that is not set yet;
-- the model returns SEPOL_ERR there.
pub mod Paths
pub mod Qualified
pub mod Unambiguous
pub mod Examples
use cil.Base.{
  ℕ, ◌+◌, List, [], ◌∷◌, ◌++◌, Option, none, some, Bool, true, false, not, ◌||◌, ◌==◌, leb,
  if◌then◌else◌, length, Status, sepol_ok, sepol_err, is_ok,
}
use cil.Text.{Text}
use cil.Verify.Names.{cil_max_name_length}

-- Of `struct cil_symtab_datum`.
pub record Datum : Type 0 where
  pub name : Text
  pub fqn : Option Text

-- An entry of symtab[i] of a block, with i.
pub record Symtab : Type 0 where
  pub index : ℕ
  pub data_list : List Datum

-- An entry of a table of blocks: whether its node's flavor is CIL_BLOCK, its name, its tables but
-- the one of the blocks, and its blocks.
mutual
  pub data Block : Type 0 where
    block : Bool → Text → List Symtab → Blocks → Block

  pub data Blocks : Type 0 where
    no_blocks : Blocks
    one_block : Block → Blocks → Blocks

-- `struct cil_fqn_args`, less the node.
pub record FqnArgs : Type 0 where
  pub prefix : Text
  pub len : ℕ

abbrev pub dot : ℕ
dot = 46

-- CIL_SYM_CLASSPERMSETS, CIL_SYM_CONTEXTS, CIL_SYM_LEVELRANGES, CIL_SYM_POLICYCAPS,
-- CIL_SYM_IPADDRS and CIL_SYM_NAMES.
abbrev pub is_skipped : ℕ → Bool
is_skipped i = i == 6 || i == 12 || i == 14 || i == 15 || i == 16 || i == 17

pub qualify_decl : FqnArgs → Datum → Status × Datum
qualify_decl args d =
    if args.len == 0
    then (sepol_ok, d)
    else if leb cil_max_name_length (args.len + length d.name)
    then (sepol_err, d)
    else (sepol_ok, record d { fqn = some (args.prefix ++ d.name) })

-- `cil_symtab_map`: up to the first entry whose visit fails.
pub symtab_map {ℓ} : {A : Type ℓ} → (A → Status × A) → List A → Status × List A
symtab_map f [] = (sepol_ok, [])
symtab_map f (x ∷ xs) =
    let r = f x in
    let rest = symtab_map f xs in if is_ok r.0 then (rest.0, r.1 ∷ rest.1) else (r.0, r.1 ∷ xs)

pub qualify_table : FqnArgs → Symtab → Status × Symtab
unfolding qualify_decl symtab_map
qualify_table args t =
    let r = symtab_map (qualify_decl args) t.data_list in
    if is_skipped t.index then (sepol_ok, t) else (r.0, record t { data_list = r.1 })

abbrev pub child_args : FqnArgs → Text → FqnArgs
child_args args name = record {
  prefix = (args.prefix ++ name) ++ dot ∷ [];
  len = args.len + length name + 1;
}

mutual
  unfolding qualify_table symtab_map

  pub qualify_block : FqnArgs → Block → Status × Block
  qualify_block args (block is_block name tables children) =
      let child = child_args args name in
      let r = symtab_map (qualify_table child) tables in
      let below = qualify_blocks child children in
      if not is_block
      then (sepol_ok, block is_block name tables children)
      else if leb cil_max_name_length child.len
      then (sepol_err, block is_block name tables children)
      else if is_ok r.0
      then (below.0, block is_block name r.1 below.1)
      else (r.0, block is_block name r.1 children)

  pub qualify_blocks : FqnArgs → Blocks → Status × Blocks
  qualify_blocks args no_blocks = (sepol_ok, no_blocks)
  qualify_blocks args (one_block b bs) =
      let r = qualify_block args b in
      let rest = qualify_blocks args bs in
      if is_ok r.0 then (rest.0, one_block r.1 rest.1) else (r.0, one_block r.1 bs)

pub fqn_qualify : Blocks → Status × Blocks
unfolding qualify_blocks
fqn_qualify blocks = qualify_blocks (record { prefix = []; len = 0 }) blocks
