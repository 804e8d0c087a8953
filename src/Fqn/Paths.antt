-- ===== src/Fqn/Paths.antt =====
-- The names that declarations should get, from the path of blocks that they stand in.
use cil.Base.{
  List, [], ◌∷◌, ◌++◌, some, Bool, true, not, ◌&&◌, ◌||◌, ltb, if◌then◌else◌, length, map,
}
use cil.Text.{Text}
use cil.Fqn.{Datum, Symtab, Block, Blocks, block, no_blocks, one_block, dot, is_skipped}
use cil.Verify.Names.{cil_max_name_length}

-- `a.b.` for the path a, b.
unfoldable pub dotted : List Text → Text
dotted [] = []
dotted (p ∷ ps) = p ++ dot ∷ dotted ps

-- `a.b.name`
unfoldable pub full_name : List Text → Text → Text
unfolding dotted
full_name path name = dotted path ++ name

unfoldable pub all {ℓ} : {A : Type ℓ} → (A → Bool) → List A → Bool
all f [] = true
all f (x ∷ xs) = f x && all f xs

abbrev pub named : List Text → Datum → Datum
named path d = record d { fqn = some (full_name path d.name) }

abbrev pub named_table : List Text → Symtab → Symtab
named_table path t =
    if is_skipped t.index then t else record t { data_list = map (named path) t.data_list }

-- Every declaration in a block has its full name, but those of the skipped tables and those of
-- entries that are no blocks.
unfoldable mutual
  unfolding full_name

  pub named_block : List Text → Block → Block
  named_block path (block is_block name tables children) =
      let inner = path ++ name ∷ [] in
      let below = named_blocks inner children in
      if is_block
      then block is_block name (map (named_table inner) tables) below
      else block is_block name tables children

  pub named_blocks : List Text → Blocks → Blocks
  named_blocks path no_blocks = no_blocks
  named_blocks path (one_block b bs) = one_block (named_block path b) (named_blocks path bs)

-- Every full name is shorter than CIL_MAX_NAME_LENGTH, and so is the prefix of every block.
abbrev pub fits_name : List Text → Datum → Bool
fits_name path d = ltb (length (full_name path d.name)) cil_max_name_length

abbrev pub fits_table : List Text → Symtab → Bool
fits_table path t = is_skipped t.index || all (fits_name path) t.data_list

unfoldable mutual
  unfolding full_name all

  pub fits_block : List Text → Block → Bool
  fits_block path (block is_block name tables children) =
      let inner = path ++ name ∷ [] in
      let below = fits_blocks inner children in
      not is_block
      || (ltb (length (dotted inner)) cil_max_name_length
          && (all (fits_table inner) tables && below))

  pub fits_blocks : List Text → Blocks → Bool
  fits_blocks path no_blocks = true
  fits_blocks path (one_block b bs) = fits_block path b && fits_blocks path bs
