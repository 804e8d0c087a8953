-- ===== src/Copy/Declared/Entries.antt =====
-- The entries of the tables of symbols once a declaration has been copied.
use cil.Base.{
  ℕ, ◌≡◌, refl, Option, none, some, ◌&&◌, not, ◌==◌, if◌then◌else◌, inl, inr, sepol_ok, sepol_err,
  is_ok, Bool-cases, Option-cases,
}
use cil.Build.{Parent, Tables, get_symtab, shadows, remove_datum}
use cil.Build.Atomic.{search-inserted, search-restored, search-rewritten, same_ptr}
use cil.Build.Statement.{
  Statement, cil_block_data, cil_alias_data, cil_bool_data, cil_tunable_data, cil_catset_data,
  cil_level_data, cil_levelrange_data, cil_context_data, cil_user_data, cil_role_data,
  cil_roleattribute_data, cil_type_data, cil_typeattribute_data, cil_sid_data, cil_sens_data,
  cil_cat_data, cil_optional_data, cil_policycap_data,
}
use cil.Copy.Declared.{
  Copied, reused, created, refused, or_reuse, or_refuse, copy_declaration, params_around,
  CopiedNode, insert_copy, copy_node,
}
use cil.Flavor.{Flavor, cil_block}
use cil.Flavor.Index.{flavor_to_symtab_index, cil_sym_unknown}
use cil.Hashtab.{Hashtab, IsLawful}
use cil.Resolve.{SymtabPtr}
use cil.Text.{Text, text_eq}

-- The copy takes the datum that the table has under the name, with every entry as it was; or the
-- table had none, and gets one entry for the new datum; or the copy fails, with every entry as it
-- was.
pub data CopyEffect {T : Type 0} (h : Hashtab T) (before : Tables T) (key : Text) (d : ℕ)
    (n : CopiedNode T) : Type 0 where
  reuses :
      (p : SymtabPtr) (e : ℕ)
      → n.status ≡ sepol_ok
      → h.search (before p) key ≡ some e
      → n.copy ≡ some e
      → ((q : SymtabPtr) (k : Text) → h.search (n.symtabs q) k ≡ h.search (before q) k)
      → CopyEffect h before key d n
  creates :
      (p : SymtabPtr)
      → n.status ≡ sepol_ok
      → h.search (before p) key ≡ none
      → n.copy ≡ some d
      → ((q : SymtabPtr) (k : Text)
          → h.search (n.symtabs q) k
            ≡ (if same_ptr q p && text_eq key k then some d else h.search (before q) k))
      → CopyEffect h before key d n
  fails :
      n.status ≡ sepol_err
      → ((q : SymtabPtr) (k : Text) → h.search (n.symtabs q) k ≡ h.search (before q) k)
      → CopyEffect h before key d n

-- What a copy function says of what the search has found.
abbrev Tells : Option ℕ → Copied → Type 0
Tells found refused = Unit
Tells found (reused e) = found ≡ some e
Tells found (created x) = found ≡ none

or_reuse-Tells : (found : Option ℕ) (x : Statement) → Tells found (or_reuse found x)
or_reuse-Tells none x = refl
or_reuse-Tells (some e) x = refl

or_refuse-Tells : (found : Option ℕ) (x : Statement) → Tells found (or_refuse found x)
or_refuse-Tells none x = refl
or_refuse-Tells (some e) x = tt

copy_declaration-Tells :
    (found : Option ℕ) (d : ℕ) (x : Statement) → Tells found (copy_declaration found d x)
unfolding copy_declaration
copy_declaration-Tells found d (cil_block_data a b) = or_reuse-Tells found _
copy_declaration-Tells found d (cil_user_data a) = or_reuse-Tells found _
copy_declaration-Tells found d (cil_role_data a) = or_reuse-Tells found _
copy_declaration-Tells found d (cil_roleattribute_data a) = or_reuse-Tells found _
copy_declaration-Tells found d (cil_type_data a) = or_reuse-Tells found _
copy_declaration-Tells found d (cil_typeattribute_data a) = or_reuse-Tells found _
copy_declaration-Tells found d (cil_sid_data a) = or_reuse-Tells found _
copy_declaration-Tells found d (cil_sens_data a) = or_reuse-Tells found _
copy_declaration-Tells found d (cil_cat_data a) = or_reuse-Tells found _
copy_declaration-Tells found d (cil_optional_data a) = or_reuse-Tells found _
copy_declaration-Tells found d (cil_policycap_data a) = or_reuse-Tells found _
copy_declaration-Tells found d (cil_alias_data a) = or_refuse-Tells found _
copy_declaration-Tells found d (cil_bool_data a b) = or_refuse-Tells found _
copy_declaration-Tells found d (cil_tunable_data a b) = or_refuse-Tells found _
copy_declaration-Tells found d (cil_catset_data a b) = or_refuse-Tells found _
copy_declaration-Tells found d (cil_level_data a b) = or_refuse-Tells found _
copy_declaration-Tells found d (cil_levelrange_data a b) = or_refuse-Tells found _
copy_declaration-Tells found d (cil_context_data a b) = or_refuse-Tells found _
copy_declaration-Tells found d _ = tt

module _ {T : Type 0} (h : Hashtab T) (law : IsLawful h) (tables : Tables T) where
  insert_copy-CopyEffect :
      (parent : Parent) (p : SymtabPtr) (flavor : Flavor) (key : Text) (d : ℕ) (c : Copied)
      → Tells (h.search (tables p) key) c
      → CopyEffect h tables key d (insert_copy h parent tables p flavor key d c)
  unfolding insert_copy remove_datum
  insert_copy-CopyEffect parent p flavor key d refused there = fails refl (λ q k. refl)
  insert_copy-CopyEffect parent p flavor key d (reused e) there =
      elim (Bool-cases (not (flavor == cil_block) && shadows (params_around parent) flavor key)) [
        | inl shadowing ↦
            rw (law.insert_old (tables p) key e e there, shadowing)
              (fails refl (search-rewritten h law tables p))
        | inr fine ↦
            rw (law.insert_old (tables p) key e e there, fine)
              (reuses p e refl there refl (search-rewritten h law tables p))
      ]
  insert_copy-CopyEffect parent p flavor key d (created x) fresh =
      elim (Bool-cases (not (flavor == cil_block) && shadows (params_around parent) flavor key)) [
        | inl shadowing ↦ rw shadowing (fails refl (search-restored h law tables p key d fresh))
        | inr fine ↦
            rw fine (creates p refl fresh refl (search-inserted h law tables p key d fresh))
      ]

-- The hash tables keep their promises. The copy of a declaration, whatever the node it is copied
-- under, either takes the datum that a table has under the name already, and changes no entry; or
-- no such datum is there, and the one change is an entry for the new datum; or it fails and changes
-- no entry: it never puts a datum in the place of another.
pub copy_node-CopyEffect :
    {T : Type 0} (h : Hashtab T)
    → IsLawful h
    → (tables : Tables T) (parent : Parent) (flavor : Flavor) (key : Text) (x : Statement) (d : ℕ)
    → CopyEffect h tables key d (copy_node h parent tables flavor key x d)
unfolding copy_node
copy_node-CopyEffect h law tables parent flavor key x d =
    let r = flavor_to_symtab_index flavor cil_sym_unknown in
    elim (Bool-cases (is_ok r.0)) [
      | inr unknown ↦ rw unknown (fails refl (λ q k. refl))
      | inl known ↦ elim (Option-cases (get_symtab parent r.1)) [
        | inl missing ↦ rw (known, missing) (fails refl (λ q k. refl))
        | inr (p, there) ↦
            rw (known, there)
              (insert_copy-CopyEffect h law tables parent p flavor key d
                (copy_declaration (h.search (tables p) key) d x)
                (copy_declaration-Tells (h.search (tables p) key) d x))
      ]
    ]
