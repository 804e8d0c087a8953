-- ===== src/Verify.antt =====
-- Checks on parsed statements, of src/cil_verify.c.
pub mod Patterns
pub mod Expressions
pub mod Names
pub mod Examples
use cil.Base.{
  ℕ, zero, suc, ◌+◌, ◌-◌, List, [], ◌∷◌, Option, none, some, Bool, true, false, ◌&&◌, ◌||◌, not,
  ltb, leb, ◌==◌, if◌then◌else◌, Status, sepol_ok, sepol_err, length,
}
use cil.Text.{Text}
use cil.Tree.{Node, Nodes, nil, cons, is_string, is_list, is_empty_list}

-- `enum cil_syntax`: which of the bits are set.
pub record Syntax : Type 0 where
  pub string : Bool
  pub list : Bool
  pub empty_list : Bool
  pub n_lists : Bool
  pub n_strings : Bool
  pub end : Bool

-- A node that the element takes any number of.
unfoldable pub repeats : Syntax → Node → Bool
repeats s n = (s.n_lists && is_list n) || (s.n_strings && is_string n)

-- A node that the element takes once.
unfoldable pub takes : Syntax → Node → Bool
takes s n =
    (s.string && is_string n) || ((s.list && is_list n) || (s.empty_list && is_empty_list n))

-- The loop over the syntax `s[i..len)` and the siblings from `c` on.
unfoldable pub verify_syntax_from : List Syntax → Nodes → ℕ → Status
unfolding repeats takes
verify_syntax_from [] c num_extras = sepol_ok
verify_syntax_from (s ∷ ss) nil num_extras =
    let rest = verify_syntax_from ss nil num_extras in
    if s.end
    then sepol_ok
    else (if (s.n_lists || s.n_strings) && ltb 0 num_extras then rest else sepol_err)
verify_syntax_from (s ∷ ss) (cons n ns) num_extras =
    let more = verify_syntax_from (s ∷ ss) ns (num_extras + 1) in
    let next = verify_syntax_from ss ns num_extras in
    if repeats s n then more else (if takes s n then next else sepol_err)

unfoldable pub verify_syntax : Nodes → List Syntax → Status
unfolding verify_syntax_from
verify_syntax parse_current s = verify_syntax_from s parse_current 0

-- The bits one by one, and their union.
abbrev pub no_syntax : Syntax
no_syntax = record {
  string = false;
  list = false;
  empty_list = false;
  n_lists = false;
  n_strings = false;
  end = false;
}

abbrev pub string_syntax : Syntax
string_syntax = record no_syntax { string = true }

abbrev pub list_syntax : Syntax
list_syntax = record no_syntax { list = true }

abbrev pub n_lists_syntax : Syntax
n_lists_syntax = record no_syntax { n_lists = true }

abbrev pub n_strings_syntax : Syntax
n_strings_syntax = record no_syntax { n_strings = true }

abbrev pub end_syntax : Syntax
end_syntax = record no_syntax { end = true }

abbrev pub either : Syntax → Syntax → Syntax
either a b = record {
  string = a.string || b.string;
  list = a.list || b.list;
  empty_list = a.empty_list || b.empty_list;
  n_lists = a.n_lists || b.n_lists;
  n_strings = a.n_strings || b.n_strings;
  end = a.end || b.end;
}

abbrev pub operand_syntax : Syntax
operand_syntax = either string_syntax list_syntax
