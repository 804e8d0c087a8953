-- ===== src/Tree.antt =====
-- Parse tree nodes (src/cil_tree.h): a node and the list of its children, in order. In the C code
-- `cl_head` is the first child and `next` the next sibling, so a pointer to a node stands for that
-- node and all that follow it in its list; NULL is the empty list. Of a node's fields the model
-- keeps `data`, which is a string or NULL in a parse tree, and `line`.
use cil.Base.{ℕ, Option, none, some, Bool, true, false}
use cil.Text.{Text}

mutual
  pub data Node : Type 0 where
    node : ℕ → Option Text → Nodes → Node

  pub data Nodes : Type 0 where
    nil : Nodes
    cons : Node → Nodes → Nodes

infixr 65 ◌+++◌
abbrev pub ◌+++◌ : Nodes → Nodes → Nodes
nil +++ ms = ms
cons n ns +++ ms = cons n (ns +++ ms)

-- `data != NULL && cl_head == NULL`
abbrev pub is_string : Node → Bool
is_string (node l (some t) nil) = true
is_string _ = false

-- `data == NULL && cl_head != NULL`
abbrev pub is_list : Node → Bool
is_list (node l none (cons c cs)) = true
is_list _ = false

-- `data == NULL && cl_head == NULL`
abbrev pub is_empty_list : Node → Bool
is_empty_list (node l none nil) = true
is_empty_list _ = false
