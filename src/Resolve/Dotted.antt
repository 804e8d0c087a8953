-- ===== src/Resolve/Dotted.antt =====
-- Names with dots.
use cil.Base.{
  ℕ, List, [], ◌∷◌, Option, none, some, false, ◌≡◌, refl, inl, inr, ◌==◌, if◌then◌else◌, sepol_ok,
  Bool-cases, Option-cases, arith,
}
use mathlib.Core.Path.{subst}
use cil.Flavor.{Flavor, cil_block, cil_in}
use cil.Flavor.Index.{cil_sym_blocks}
use cil.Text.{Text}
use cil.Resolve.{
  Store, Scope, symtab_in, get_datum, dot, resolve_parts, resolve_dotted, resolve_parts_in,
  resolve_name_helper, resolve_name,
}
use cil.Resolve.Scopes.{
  Outcome, Answers, some_datum, first_hit, places, get_datum-Answers, helper-Answers,
  finish-Outcome,
}
use cil.Resolve.Tokens.{
  dotted_name, IsPart, AllParts, tokens-dotted_name, has_dot-dotted_name,
  starts_with_dot-dotted_name,
}

-- What a path of names declares in an array of tables: every name but the last is that of a block
-- in the array of the block before, and the last is a declaration of the kind `i`.
unfoldable pub declared_at : Store → ℕ → ℕ → Text → List Text → Option ℕ
declared_at st i a part [] = st.search (symtab_in a i) part
declared_at st i a part (next ∷ parts) = elim (st.search (symtab_in a cil_sym_blocks) part) [
  | none ↦ none
  | some d ↦
      if st.flavor_of d == cil_block then declared_at st i (st.array_of d) next parts else none
]

resolve_parts-Answers :
    (st : Store) (i a : ℕ) (part : Text) (parts : List Text)
    → Answers
        (some_datum (declared_at st i a part parts))
        (resolve_parts st false i (symtab_in a cil_sym_blocks) part parts)
unfolding declared_at resolve_parts
resolve_parts-Answers st i a part [] =
    subst
      (λ j.
        Answers (some_datum (st.search (symtab_in a i) part)) (get_datum st (symtab_in a j) part))
      (omega arith) (get_datum-Answers st part i a)
resolve_parts-Answers st i a part (next ∷ parts) =
    elim (Option-cases (st.search (symtab_in a cil_sym_blocks) part)) [
      | inl missing ↦ rw (declared_at, resolve_parts, missing) refl
      | inr (d, there) ↦ elim (Bool-cases (st.flavor_of d == cil_block)) [
        | inl block ↦
            rw (declared_at, resolve_parts, there, block)
              (resolve_parts-Answers st i (st.array_of d) next parts)
        | inr other ↦ rw (declared_at, resolve_parts, there, other) refl
      ]
    ]

-- The statement is not an `in`, and the parts of the name have characters but no dot. A name that
-- starts with a dot stands for what the path of its parts declares, from the root on and nowhere
-- else: the lookup returns it, with an alias followed, and where the path declares nothing it
-- fails and leaves no datum.
pub resolve_name-absolute :
    (st : Store) (flavor : Flavor) (parent : Scope) (part : Text) (parts : List Text) (i : ℕ)
    → (flavor == cil_in) ≡ false
    → IsPart part
    → AllParts parts
    → Outcome st
        (some_datum (declared_at st i st.root part parts))
        (resolve_name st flavor parent (dot ∷ dotted_name part parts) i)
unfolding resolve_name resolve_dotted
resolve_name-absolute st flavor parent part parts i not_in h k =
    rw (tokens-dotted_name part parts h k, not_in)
      (finish-Outcome st (some_datum (declared_at st i st.root part parts))
        (resolve_parts st false i (symtab_in st.root cil_sym_blocks) part parts)
        (resolve_parts-Answers st i st.root part parts))

helper-found :
    (st : Store) (parent : Scope) (part : Text) (d : ℕ)
    → first_hit st part cil_sym_blocks (places st part cil_sym_blocks parent) ≡ some (some d)
    → resolve_name_helper st parent part cil_sym_blocks none ≡ (sepol_ok, some d)
helper-found st parent part d h =
    subst (λ o. Answers o (resolve_name_helper st parent part cil_sym_blocks none)) h
      (helper-Answers st part cil_sym_blocks parent none)

-- The statement is not an `in`, and the parts of the name have characters but no dot. A name of
-- two or more parts with no dot before them stands for what the path of its parts declares from
-- the array on in which the first block of its first part is found, of the scopes around the
-- statement, innermost first: the lookup does not go on to an outer block of the same name, but
-- fails and leaves no datum where the path declares nothing.
pub resolve_name-relative :
    (st : Store) (flavor : Flavor) (parent : Scope) (part next : Text) (parts : List Text)
    (i d a : ℕ)
    → (flavor == cil_in) ≡ false
    → IsPart part
    → IsPart next
    → AllParts parts
    → first_hit st part cil_sym_blocks (places st part cil_sym_blocks parent) ≡ some (some d)
    → st.symtab_of d ≡ symtab_in a cil_sym_blocks
    → Outcome st
        (some_datum (declared_at st i a part (next ∷ parts)))
        (resolve_name st flavor parent (dotted_name part (next ∷ parts)) i)
unfolding resolve_name resolve_dotted resolve_parts_in
resolve_name-relative st flavor parent part next parts i d a not_in h g k first home =
    rw
      (
        has_dot-dotted_name part next parts,
        tokens-dotted_name part (next ∷ parts) h (g, k),
        starts_with_dot-dotted_name part next parts h,
        helper-found st parent part d first,
        home,
        not_in,
      )
      (finish-Outcome st (some_datum (declared_at st i a part (next ∷ parts)))
        (resolve_parts st false i (symtab_in a cil_sym_blocks) part (next ∷ parts))
        (resolve_parts-Answers st i a part (next ∷ parts)))
