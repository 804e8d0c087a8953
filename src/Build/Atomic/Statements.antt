-- ===== src/Build/Atomic/Statements.antt =====
-- Every statement that is built makes one entry in the tables of symbols, or none.
use cil.Base.{
  ℕ, ◌≡◌, refl, List, [], ◌∷◌, Option, none, some, Bool, false, ◌&&◌, ◌==◌, if◌then◌else◌, inl, inr,
  sepol_err, is_ok, Bool-cases,
}
use mathlib.Core.Path.{subst}
use cil.Build.{Parent, Tables}
use cil.Build.Atomic.{Effect, states}
use cil.Build.Atomic.Builders.{
  refused-Effect, declare-Effect, with_key-Effect, if-Effect, name-Effect, reserved-Effect,
  truth-Effect,
}
use cil.Build.Declare.{
  Built, failed, declare, name_syntax, name_list_syntax, scope_syntax, value_syntax, gen_alias,
}
use cil.Build.Dispatch.{
  BuildArgs, is_misplaced, find_key_entry, of_rule, declarations, or_rule, build_statement,
}
use cil.Build.Rules.{Rule}
use cil.Build.Fill.{data_of, next, cl_head, fill_cats, fill_context, fill_level, fill_levelrange}
use cil.Build.Settings.{truth}
use cil.Expr.{◌>>=◌}
use cil.Build.Statement.{
  cil_alias_data, cil_block_data, cil_bool_data, cil_cat_data, cil_catset_data,
  cil_classpermission_data, cil_context_data, cil_level_data, cil_levelrange_data,
  cil_optional_data, cil_policycap_data, cil_role_data, cil_roleattribute_data, cil_sens_data,
  cil_sid_data, cil_tunable_data, cil_type_data, cil_typeattribute_data, cil_user_data,
}
use cil.Flavor.{
  Flavor, cil_block, cil_bool, cil_cat, cil_catset, cil_classpermission, cil_context, cil_level,
  cil_levelrange, cil_optional, cil_policycap, cil_role, cil_roleattribute, cil_sens, cil_sid,
  cil_tunable, cil_type, cil_typeattribute, cil_user, cil_typealias, cil_sensalias, cil_catalias,
}
use cil.Flavor.Index.{
  cil_sym_blocks, cil_sym_bools, cil_sym_cats, cil_sym_classpermsets, cil_sym_contexts,
  cil_sym_levelranges, cil_sym_levels, cil_sym_policycaps, cil_sym_roles, cil_sym_sens,
  cil_sym_sids, cil_sym_tunables, cil_sym_types, cil_sym_users, flavor_to_symtab_index,
  cil_sym_unknown,
}
use cil.Hashtab.{Hashtab, IsLawful}
use cil.Text.{Text, text_eq, cil_key_self}
use cil.Tree.{Nodes}

module _ {T : Type 0} (h : Hashtab T) (law : IsLawful h) (tables : Tables T) where
  -- Every entry of a list of statements.
  abbrev All : List (Text × Built T) → Type 0
  All [] = Unit
  All ((k, b) ∷ kbs) = Effect h tables b × All kbs

  abbrev Each : Option (Built T) → Type 0
  Each none = Unit
  Each (some b) = Effect h tables b

  find_key_entry-Each :
      (key : Text) (kbs : List (Text × Built T)) → All kbs → Each (find_key_entry key kbs)
  unfolding find_key_entry
  find_key_entry-Each key [] all = tt
  find_key_entry-Each key ((k, b) ∷ kbs) all = elim (Bool-cases (text_eq key k)) [
    | inl here ↦ rw here all.0
    | inr further ↦ rw further (find_key_entry-Each key kbs all.1)
  ]

  of_rule-Effect : (r : Rule) → Effect h tables (of_rule tables r)
  of_rule-Effect none = refused-Effect h law tables sepol_err refl
  of_rule-Effect (some (f, x)) = states x refl (λ q k. refl) refl

  gen_alias-Effect :
      (flavor : Flavor) (pc : Nodes) (parent : Parent) (d : ℕ)
      → Effect h tables (gen_alias h flavor pc parent tables d)
  unfolding gen_alias
  gen_alias-Effect flavor pc parent d =
      let r = flavor_to_symtab_index flavor cil_sym_unknown in
      let chosen = λ (key : Text).
        if is_ok r.0
        then declare h parent tables d key r.1 flavor (some (cil_alias_data d))
        else failed r.0 tables in
      with_key-Effect h law tables pc name_syntax
        (λ key.
          if flavor == cil_typealias && text_eq key cil_key_self
          then failed sepol_err tables
          else chosen key)
        λ key.
          if-Effect h law tables (flavor == cil_typealias && text_eq key cil_key_self)
            (failed sepol_err tables) (chosen key) (refused-Effect h law tables sepol_err refl)
            (elim (Bool-cases (is_ok r.0)) [
              | inl known ↦
                  rw known
                    (declare-Effect h law tables parent d key r.1 flavor (some (cil_alias_data d)))
              | inr unknown ↦ rw unknown (refused-Effect h law tables r.0 unknown)
            ])

  declarations-All :
      (preserve_tunables : Bool) (max_depth : ℕ) (pc : Nodes) (parent : Parent) (d : ℕ)
      → All (declarations h preserve_tunables max_depth pc parent tables d)
  unfolding declarations
  declarations-All preserve_tunables max_depth pc parent d = (
    name-Effect h law tables pc scope_syntax parent d cil_sym_blocks cil_block
        λ _. some (cil_block_data d false),
    (
      name-Effect h law tables pc name_syntax parent d cil_sym_classpermsets cil_classpermission
          λ _. some (cil_classpermission_data d),
      (
        name-Effect h law tables pc name_syntax parent d cil_sym_sids cil_sid
            λ _. some (cil_sid_data d),
        (
          name-Effect h law tables pc name_syntax parent d cil_sym_users cil_user
              λ _. some (cil_user_data d),
          (
            reserved-Effect h law tables pc name_syntax parent d cil_sym_types cil_type
                (cil_type_data d) (λ key. text_eq key cil_key_self),
            (
              reserved-Effect h law tables pc name_syntax parent d cil_sym_types cil_typeattribute
                  (cil_typeattribute_data d) (λ key. text_eq key cil_key_self),
              (
                gen_alias-Effect cil_typealias pc parent d,
                (
                  name-Effect h law tables pc name_syntax parent d cil_sym_roles cil_role
                      λ _. some (cil_role_data d),
                  (
                    reserved-Effect h law tables pc name_syntax parent d cil_sym_roles
                        cil_roleattribute (cil_roleattribute_data d)
                        (λ key. text_eq key cil_key_self),
                    (
                      truth-Effect h law tables pc value_syntax parent d cil_sym_bools cil_bool
                          (cil_bool_data d) (data_of (next (next pc)) >>= truth),
                      (
                        if-Effect h law tables preserve_tunables _ _
                            (truth-Effect h law tables pc value_syntax parent d cil_sym_bools
                              cil_bool (cil_bool_data d) (data_of (next (next pc)) >>= truth))
                            (truth-Effect h law tables pc value_syntax parent d cil_sym_tunables
                              cil_tunable (cil_tunable_data d)
                              (data_of (next (next pc)) >>= truth)),
                        (
                          name-Effect h law tables pc name_syntax parent d cil_sym_sens cil_sens
                              λ _. some (cil_sens_data d),
                          (
                            gen_alias-Effect cil_sensalias pc parent d,
                            (
                              name-Effect h law tables pc name_syntax parent d cil_sym_cats cil_cat
                                  λ _. some (cil_cat_data d),
                              (
                                gen_alias-Effect cil_catalias pc parent d,
                                (
                                  name-Effect h law tables pc name_list_syntax parent d cil_sym_cats
                                      cil_catset
                                      λ _. fill_cats max_depth (next (next pc)) >>= λ x.
                                        some (cil_catset_data d x),
                                  (
                                    name-Effect h law tables pc name_list_syntax parent d
                                        cil_sym_levels cil_level
                                        λ _.
                                          fill_level max_depth (cl_head (next (next pc))) >>= λ x.
                                          some (cil_level_data d x),
                                    (
                                      name-Effect h law tables pc name_list_syntax parent d
                                          cil_sym_levelranges cil_levelrange
                                          λ _.
                                            fill_levelrange max_depth (cl_head (next (next pc)))
                                            >>= λ x. some (cil_levelrange_data d x),
                                      (
                                        name-Effect h law tables pc name_list_syntax parent d
                                            cil_sym_contexts cil_context
                                            λ _.
                                              fill_context max_depth (cl_head (next (next pc)))
                                              >>= λ x. some (cil_context_data d x),
                                        (
                                          name-Effect h law tables pc name_syntax parent d
                                              cil_sym_policycaps cil_policycap
                                              λ _. some (cil_policycap_data d),
                                          (
                                            name-Effect h law tables pc scope_syntax parent d
                                                cil_sym_blocks cil_optional
                                                λ _. some (cil_optional_data d),
                                            tt,
                                          ),
                                        ),
                                      ),
                                    ),
                                  ),
                                ),
                              ),
                            ),
                          ),
                        ),
                      ),
                    ),
                  ),
                ),
              ),
            ),
          ),
        ),
      ),
    ),
  )

  or_rule-Each : (o : Option (Built T)) (r : Option Rule) → Each o → Each (or_rule h tables o r)
  or_rule-Each (some b) r e = e
  or_rule-Each none none e = tt
  or_rule-Each none (some r) e = of_rule-Effect r

  build_statement-Each :
      (preserve_tunables : Bool) (max_depth : ℕ) (args : BuildArgs) (key : Text) (pc : Nodes)
      (d : ℕ)
      → Each (build_statement h preserve_tunables max_depth args key pc tables d)
  unfolding build_statement
  build_statement-Each preserve_tunables max_depth args key pc d =
      elim (Bool-cases (is_misplaced args key)) [
        | inl misplaced ↦ rw misplaced (refused-Effect h law tables sepol_err refl)
        | inr fine ↦ rw fine (
            or_rule-Each _ _ (
              find_key_entry-Each key
                (declarations h preserve_tunables max_depth pc args.ast tables d)
                (declarations-All preserve_tunables max_depth pc args.ast d)))
      ]

-- The hash tables keep their promises. Building a statement of a kind that is modelled, of whatever
-- keyword and wherever it stands, has one of three effects: it declares a valid name that the table
-- did not have, and the tables get that one entry and no other change; it succeeds with no change of
-- an entry; or it fails, with no change of an entry and the node as empty as before.
pub build_statement-Effect :
    {T : Type 0} (h : Hashtab T)
    → IsLawful h
    → (tables : Tables T) (preserve_tunables : Bool) (max_depth : ℕ) (args : BuildArgs) (key : Text)
      (pc : Nodes) (d : ℕ) (b : Built T)
    → build_statement h preserve_tunables max_depth args key pc tables d ≡ some b
    → Effect h tables b
build_statement-Effect h law tables preserve_tunables max_depth args key pc d b p =
    subst (Each h law tables) p
      (build_statement-Each h law tables preserve_tunables max_depth args key pc d)
