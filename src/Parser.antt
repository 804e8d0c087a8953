-- ===== src/Parser.antt =====
-- The parser, of src/cil_parser.c: from the lexer's tokens to the parse tree. The tokens before the
-- end of the file are a list; the lexer itself is generated. The tree under construction is the
-- children of `current`, and for each of its ancestors the children that it had when the next one
-- was opened. `paren_count` is the number of these ancestors.
pub mod Writes
pub mod Sound
pub mod Examples
use cil.Base.{
  ℕ, ◌+◌, List, [], ◌∷◌, Option, none, some, ◌==◌, if◌then◌else◌, length, Status, sepol_ok,
  sepol_err,
}
use cil.Text.{Text}
use cil.Tree.{Node, Nodes, node, nil, cons, ◌+++◌}

pub data TokenType : Type 0 where
  oparen cparen symbol qstring comment unknown : TokenType

pub record Token : Type 0 where
  pub kind : TokenType
  pub value : Text
  pub line : ℕ

-- An open parenthesis: its line, and the nodes before it.
pub record Open : Type 0 where
  pub open_line : ℕ
  pub before : Nodes

pub record Parsing : Type 0 where
  pub children : Nodes
  pub parents : List Open

-- The status, and the children of the root.
pub record Parsed : Type 0 where
  pub status : Status
  pub root : Nodes

abbrev pub paren_count : Parsing → ℕ
paren_count p = length p.parents

abbrev pub but_last : Text → Text
but_last [] = []
but_last (c ∷ []) = []
but_last (c ∷ d ∷ cs) = c ∷ but_last (d ∷ cs)

-- The value of a QSTRING, without its first and last characters.
abbrev pub unquote : Text → Text
unquote [] = []
unquote (c ∷ cs) = but_last cs

abbrev pub add_child : Node → Parsing → Parsing
add_child n p = record p { children = p.children +++ cons n nil }

abbrev pub open_node : ℕ → Parsing → Parsing
open_node l p = record {
  children = nil;
  parents = record { open_line = l; before = p.children } ∷ p.parents;
}

-- `current` is linked into its parent already, so closing only goes back to the parent.
abbrev pub close_node : Nodes → Open → List Open → Parsing
close_node ns o os = record {
  children = o.before +++ cons (node o.open_line none ns) nil;
  parents = os;
}

-- The children of the root, when `current` has these.
pub whole : Nodes → List Open → Nodes
whole ns [] = ns
whole ns (o ∷ os) = whole (o.before +++ cons (node o.open_line none ns) nil) os

abbrev pub failed : Parsing → Parsed
failed p = record { status = sepol_err; root = whole p.children p.parents }

-- The loop over the tokens, up to the end of the file.
pub parse_from : Parsing → List Token → Parsed
unfolding whole
parse_from p [] =
    if paren_count p == 0
    then record { status = sepol_ok; root = whole p.children p.parents }
    else failed p
parse_from p (t ∷ ts) = elim t.kind [
  | oparen ↦ parse_from (open_node t.line p) ts
  | cparen ↦ elim p.parents [ [] ↦ failed p | o ∷ os ↦ parse_from (close_node p.children o os) ts ]
  | symbol ↦
      let rest = parse_from (add_child (node t.line (some t.value) nil) p) ts in
      if paren_count p == 0 then failed p else rest
  | qstring ↦
      let rest = parse_from (add_child (node t.line (some (unquote t.value)) nil) p) ts in
      if paren_count p == 0 then failed p else rest
  | comment ↦ parse_from p ts
  | unknown ↦ failed p
]

-- `cil_parser`, for a tree whose root has these children already.
pub parser : Nodes → List Token → Parsed
unfolding parse_from
parser root ts = parse_from (record { children = root; parents = [] }) ts
