-- ===== src/Parser/Examples.antt =====
-- Tests, and the theorem at concrete tokens.
use cil.Base.{ℕ, ◌≡◌, ◌↔◌, refl, List, [], ◌∷◌, some, none, false, sepol_ok, sepol_err}
use cil.Text.{codes}
use cil.Tree.{Nodes, node, nil, cons, ◌+++◌}
use cil.Parser.{Token, oparen, cparen, symbol, qstring, parser}
use cil.Parser.Writes.{Writes, token}
use cil.Parser.Sound.{parser-Writes}

abbrev open_paren : ℕ → Token
open_paren l = token oparen (codes "(") l

abbrev close_paren : ℕ → Token
close_paren l = token cparen (codes ")") l

-- (type a) on one line, and () on the next.
abbrev two_lists : List Token
two_lists =
    open_paren 1
    ∷ token symbol (codes "type") 1
    ∷ token qstring (codes "\"a\"") 1
    ∷ close_paren 1
    ∷ open_paren 2
    ∷ close_paren 2
    ∷ []

abbrev two_nodes : Nodes
two_nodes =
    cons
      (node 1 none
        (cons (node 1 (some (codes "type")) nil) (cons (node 1 (some (codes "a")) nil) nil)))
      (cons (node 2 none nil) nil)

parse_two : parser nil two_lists ≡ record { status = sepol_ok; root = two_nodes }
unfolding parser
parse_two = refl

-- A parenthesis that is not closed, one that is not open, and a string outside.
parse_unclosed :
    parser nil (open_paren 1 ∷ [])
    ≡ record { status = sepol_err; root = cons (node 1 none nil) nil }
unfolding parser
parse_unclosed = refl

parse_unopened : parser nil (close_paren 1 ∷ []) ≡ record { status = sepol_err; root = nil }
unfolding parser
parse_unopened = refl

parse_outside :
    parser nil (token symbol (codes "a") 1 ∷ []) ≡ record { status = sepol_err; root = nil }
unfolding parser
parse_outside = refl

parser-Writes_example :
    (parser nil two_lists ≡ record { status = sepol_ok; root = two_nodes })
    ↔ ((ns : Nodes) × Writes false two_lists ns × (two_nodes ≡ nil +++ ns))
parser-Writes_example = parser-Writes nil two_lists two_nodes
