-- ===== src/Lib.antt =====
-- A model of CIL, the compiler of the SELinux Common Intermediate Language, and the theorems that
-- make its parts correct. Paths are from the repository's root.
--
-- The compiler lexes and parses the source into a tree of strings and lists, builds an AST out of
-- it, resolves the names, verifies the AST, and writes a policy. The parts that are modelled:
--
-- - Stack: src/cil_stack.c, the growing array of flavor and data pairs. Stack/Refine relates it to
--   a list.
-- - ComplexSymtab: the hash table with keys of four numbers, of src/cil_symtab.c
--   (cil_complex_symtab_*). A chain is a list, a bucket a position in a list of chains. Keys are
--   pointers read as intptr_t: here nonnegative numbers, whose sum does not overflow.
-- - Tree, Text: a node of the parse tree has a line, a string or none, and its children. A text is
--   the list of its character codes.
-- - Verify: the syntax arrays (__cil_verify_syntax), the syntax of expressions, constraint
--   expressions and their leaves, and names, of src/cil_verify.c.
-- - Expr: expressions, from the parse tree to their value: cil_gen_expr of src/cil_build_ast.c, then
--   cil_resolve_expr and __cil_evaluate_tunable_expr of src/cil_resolve_ast.c. The lookup of a name
--   in a table is a parameter. Expr/Constraint is cil_gen_constraint_expr.
-- - Ordering: the merge of the ordering statements, of src/cil_resolve_ast.c
--   (__cil_ordered_lists_merge_all). Ordering/Statements makes the lists (cil_resolve_*order).
-- - Post: the comparisons that sort the labeling statements and the scan of a file context's path
--   (cil_post_*_compare, cil_post_fc_fill_data), of src/cil_post.c. An int that a comparison returns
--   is its sign; strcmp and memcmp compare bytes.
-- - Parser: cil_parser of src/cil_parser.c, on the lexer's tokens. Parser/Writes is the grammar.
-- - Fqn: cil_fqn_qualify of src/cil_fqn.c, on blocks with their symbol tables. Fqn/Paths says what
--   names there should be.
-- - Linked: the linked lists of src/cil_list.c, on a store that says which item is at an address.
--   Elsewhere in the model such a list is a plain list.
-- - Walk: cil_tree_walk of src/cil_tree.c, on an AST whose nodes have any content, and
--   __cil_verify_ordered of src/cil_verify.c, which walks it.
-- - Levels: __cil_verify_levelrange of src/cil_verify.c, on sensitivities and categories that are
--   their addresses.
-- - Datums: the checks of src/cil_verify.c for self references, ranges and initial sids.
-- - Hashtab: what libsepol's hash tables of symbols promise; Resolve, Build and Copy take their
--   operations as a parameter. Hashtab/Assoc shows that lists keep the promises.
-- - Resolve: cil_resolve_name of src/cil_resolve_ast.c. A node is given with those to which the lookup
--   goes on (its parent, the block of a blockinherit, what is around a call's macro), so the lookup
--   is structural; the AST has no cycle of such steps. Resolve/Scopes is the order of the search.
-- - Build: cil_gen_node and the builders of src/cil_build_ast.c, cil_get_symtab of src/cil.c and
--   cil_symtab_insert of src/cil_symtab.c. Build/Statement holds the structures of the AST, Build/Fill
--   the parts that statements share, Build/Rules, Build/Levelled, Build/Settings, Build/Labels and
--   Build/Declare the builders, Build/Integers the numbers as strtol reads them (a `long` has 64
--   bits), Build/Dispatch the choice of the builder.
-- - Copy: the copying of these statements, of src/cil_copy_ast.c.
-- - Parts: Parser makes the tree that Build reads, with Verify and Expr; Build and Copy fill the tables
--   of symbols that Resolve searches and that Fqn names.
-- - Passes: cil_resolve_ast of src/cil_resolve_ast.c and the helpers that it hands to cil_tree_walk.
--   The resolution of a statement, which may change the database, is a parameter; a node is given with
--   the children that it has after the expansion of blocks and calls. Passes/Loop is the loop.
-- - Classes: classes and their permissions, with cil_resolve_classcommon and cil_reset_class. A table
--   of permissions is a list in the order of the declarations; values are unsigned ints of 32 bits.
-- - Aliases: cil_resolve_aliasactual, cil_resolve_alias_to_actual and cil_reset_alias. The loop along
--   a chain runs on a fuel that is an argument.
-- - Named: the resolution of statements that are made of names only, in src/cil_resolve_ast.c.
--
-- Flavor numbers the values of enum cil_flavor, Base holds what all parts share.
--
-- Bounds and fuel: recursion is structural, but for loops that run on fuel: the overlapping part of
-- a merge and the passes over the lists in Ordering, and the searches of an item to remove and of a
-- chain's last item in Linked. They take as much as the new list has items, one more than there are
-- lists, and as much as the list or the chain has items. The loop over the passes takes seven passes
-- for each optional with children, and fifteen. The loop along a chain of aliases gets its fuel as an
-- argument. Theorems of these parts say what fuel is enough.
-- The depth counters are C ints, here integers without bounds: they count nodes of a tree in memory.
-- Memory that runs out ends the program (src/cil_mem.c), so no operation fails for want of it;
-- the failures that end it in src/cil_symtab.c are results here.
--
-- Not modelled: the driver (src/cil.c, secilc.c), the generated lexer, the building and copying of
-- nodecon and ipaddr, constraints, conditionals, macros and calls, the walks that hang nodes
-- into the AST, most of the resetting of the AST, the resolution of statements with expressions,
-- levels or contexts, the writing of the binary policy (into libsepol, which is not in the repository), policy.conf output,
-- logging and memory.
pub mod Base
pub mod Flavor
pub mod Text
pub mod Tree
pub mod Stack
pub mod ComplexSymtab
pub mod Verify
pub mod Expr
pub mod Ordering
pub mod Post
pub mod Parser
pub mod Fqn
pub mod Linked
pub mod Walk
pub mod Levels
pub mod Datums
pub mod Hashtab
pub mod Resolve
pub mod Build
pub mod Copy
pub mod Passes
pub mod Classes
pub mod Aliases
pub mod Named
