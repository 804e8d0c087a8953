-- ===== src/Build/Labels/Examples.antt =====
-- Statements with labels and numbers.
use cil.Base.{◌≡◌, refl, List, [], ◌∷◌, none, some}
use cil.Build.Fill.{named}
use cil.Build.Integers.{fill_integer}
use cil.Build.Labels.{gen_filecon, gen_pirqcon, gen_portcon}
use cil.Build.Statement.{
  cil_filecon_data, cil_pirqcon_data, cil_portcon_data, filecon_any, protocol_tcp,
}
use cil.Flavor.{cil_filecon, cil_pirqcon, cil_portcon}
use cil.Text.{Text, codes}
use cil.Tree.{Node, Nodes, node, nil, cons}

abbrev word : Text → Node
word t = node 1 (some t) nil

abbrev nodes : List Node → Nodes
nodes [] = nil
nodes (n ∷ ns) = cons n (nodes ns)

abbrev listed : List Node → Node
listed ns = node 1 none (nodes ns)

minus_one : fill_integer (nodes (word (codes " -1") ∷ [])) ≡ some 4294967295
unfolding fill_integer
minus_one = refl

wrapped : fill_integer (nodes (word (codes "4294967297") ∷ [])) ≡ some 1
unfolding fill_integer
wrapped = refl

too_long : fill_integer (nodes (word (codes "9223372036854775808") ∷ [])) ≡ none
unfolding fill_integer
too_long = refl

no_number : fill_integer (nodes (word (codes "8o") ∷ [])) ≡ none
unfolding fill_integer
no_number = refl

ports :
    gen_portcon 10 (
      nodes (
        word (codes "portcon")
        ∷ word (codes "tcp")
        ∷ listed (word (codes "80") ∷ word (codes "+90") ∷ [])
        ∷ word (codes "c")
        ∷ []))
    ≡ some (cil_portcon, cil_portcon_data protocol_tcp 80 90 (named (codes "c")))
unfolding gen_portcon
ports = refl

interrupt :
    gen_pirqcon 10 (nodes (word (codes "pirqcon") ∷ word (codes "33") ∷ word (codes "c") ∷ []))
    ≡ some (cil_pirqcon, cil_pirqcon_data 33 (named (codes "c")))
unfolding gen_pirqcon
interrupt = refl

-- A list of one element is taken for the empty context.
no_context :
    gen_filecon 10 (
      nodes (
        word (codes "filecon")
        ∷ word (codes "/a")
        ∷ word (codes "any")
        ∷ listed (word (codes "u") ∷ [])
        ∷ []))
    ≡ some (cil_filecon, cil_filecon_data (codes "/a") filecon_any none)
unfolding gen_filecon
no_context = refl
