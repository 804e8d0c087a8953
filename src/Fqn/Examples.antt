-- ===== src/Fqn/Examples.antt =====
-- Tests, and the theorems at concrete blocks.
use cil.Base.{◌≡◌, refl, [], ◌∷◌, some, none, true, sepol_ok, is_ok}
use cil.Text.{Text, codes}
use cil.Verify.Names.{verify_name}
use cil.Fqn.{Datum, Block, Blocks, block, no_blocks, one_block, FqnArgs, qualify_decl, fqn_qualify}
use cil.Fqn.Paths.{dotted, named_blocks, fits_blocks}
use cil.Fqn.Qualified.{args_of, fqn_qualify-named}
use cil.Fqn.Unambiguous.{AreNames, qualify_decl-verify_name}

abbrev unnamed : Text → Datum
unnamed t = record { name = t; fqn = none }

abbrev inner_block : (Text → Datum) → Block
inner_block f =
    block true (codes "b") (record { index = 3; data_list = f (codes "t") ∷ [] } ∷ []) no_blocks

-- A type t in a block b in a block a.
abbrev two_blocks : (Text → Datum) → Blocks
two_blocks f = one_block (block true (codes "a") [] (one_block (inner_block f) no_blocks)) no_blocks

qualify_two :
    fqn_qualify (two_blocks unnamed)
    ≡ (sepol_ok, two_blocks (λ t. record { name = t; fqn = some (codes "a.b.t") }))
unfolding fqn_qualify
qualify_two = refl

fqn_qualify-named_example :
    (is_ok (fqn_qualify (two_blocks unnamed)).0 ≡ fits_blocks [] (two_blocks unnamed))
    × (fits_blocks [] (two_blocks unnamed) ≡ true
        → (fqn_qualify (two_blocks unnamed)).1 ≡ named_blocks [] (two_blocks unnamed))
fqn_qualify-named_example = fqn_qualify-named (two_blocks unnamed)

abbrev t_datum : Datum
t_datum = unnamed (codes "t")

AreNames-ab : AreNames (codes "a" ∷ codes "t" ∷ codes "b" ∷ [])
unfolding verify_name
AreNames-ab = (refl, (refl, (refl, tt)))

abbrev args_ab : FqnArgs
args_ab = args_of (codes "a" ∷ codes "b" ∷ [])

qualify_t : is_ok (qualify_decl args_ab t_datum).0 ≡ true
unfolding qualify_decl dotted
qualify_t = refl

qualify_decl-verify_name_example :
    (codes "a" ∷ codes "b" ∷ [] ≡ codes "a" ∷ codes "b" ∷ []) × (codes "t" ≡ codes "t")
qualify_decl-verify_name_example =
    qualify_decl-verify_name (codes "a") (codes "a") (codes "b" ∷ []) (codes "b" ∷ []) t_datum
      t_datum AreNames-ab AreNames-ab qualify_t qualify_t refl
