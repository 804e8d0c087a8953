-- ===== src/Build/Atomic/Builders.antt =====
-- Every builder of a declaration makes one entry, or none.
use cil.Base.{
  ℕ, ◌≡◌, refl, List, Option, none, some, Bool, true, false, ◌&&◌, leb, if◌then◌else◌, inl, inr,
  Status, sepol_ok, sepol_err, sepol_eexist, is_ok, Bool-cases, Option-cases, Status-cases,
}
use cil.Build.{
  Parent, Tables, write, get_symtab, insert_datum, gen_node, remove_datum, shadows_param,
}
use cil.Build.Atomic.{Effect, declares, refuses, search-inserted, search-restored, search-rewritten}
use cil.Build.Fill.{next, data_of}
use cil.Build.Declare.{Built, failed, declare_truth, with_key, finish_node, declare}
use cil.Build.Statement.{Statement}
use cil.Flavor.{Flavor}
use cil.Flavor.Index.{cil_min_declarative}
use cil.Hashtab.{Hashtab, IsLawful}
use cil.Resolve.{SymtabPtr}
use cil.Text.{Text}
use cil.Tree.{Nodes}
use cil.Verify.{Syntax, verify_syntax}
use cil.Verify.Names.{verify_name}

module _ {T : Type 0} (h : Hashtab T) (law : IsLawful h) (tables : Tables T) where
  -- A failure with tables that have the same entries.
  failed-Effect :
      (rc : Status) (after : Tables T)
      → is_ok rc ≡ false
      → ((q : SymtabPtr) (k : Text) → h.search (after q) k ≡ h.search (tables q) k)
      → Effect h tables (failed rc after)
  failed-Effect rc after bad same = refuses bad same refl refl

  finish-refused :
      (rc : Status) (after : Tables T) (home : Option SymtabPtr) (key : Text) (f : Flavor)
      (o : Option Statement)
      → is_ok rc ≡ false
      → ((q : SymtabPtr) (k : Text)
          → h.search (remove_datum h after home key q) k ≡ h.search (tables q) k)
      → Effect h tables (finish_node h (record { rc = rc; tables = after; home = home }) key f o)
  unfolding finish_node
  finish-refused rc after home key f none bad same =
      rw bad (failed-Effect rc (remove_datum h after home key) bad same)
  finish-refused rc after home key f (some x) bad same =
      rw bad (failed-Effect rc (remove_datum h after home key) bad same)

  inserted-Effect :
      (p : SymtabPtr) (key : Text) (d : ℕ) (f : Flavor) (o : Option Statement)
      → verify_name key ≡ sepol_ok
      → (fresh : h.search (tables p) key ≡ none)
      → Effect h tables (
          finish_node h
            (record {
              rc = sepol_ok;
              tables = write tables p (h.insert (tables p) key d).1;
              home = some p;
            })
            key
            f
            o)
  unfolding finish_node remove_datum
  inserted-Effect p key d f none valid fresh =
      failed-Effect sepol_err _ refl (search-restored h law tables p key d fresh)
  inserted-Effect p key d f (some x) valid fresh =
      declares p key d x refl valid fresh (search-inserted h law tables p key d fresh) refl

  insert_datum-Effect :
      (parent : Parent) (p : SymtabPtr) (key : Text) (d : ℕ) (f : Flavor) (o : Option Statement)
      → verify_name key ≡ sepol_ok
      → Effect h tables (finish_node h (insert_datum h parent tables p key d f) key f o)
  unfolding insert_datum remove_datum
  insert_datum-Effect parent p key d f o valid = elim (Option-cases (h.search (tables p) key)) [
    | inr (e, old) ↦ rw (law.insert_old (tables p) key d e old) (
        finish-refused sepol_eexist (write tables p (tables p)) none key f o refl
          (search-rewritten h law tables p))
    | inl fresh ↦ elim (Bool-cases (leb cil_min_declarative f && shadows_param parent f key)) [
      | inl shadowing ↦
          rw (law.insert_new (tables p) key d fresh, shadowing)
            (finish-refused sepol_err (write tables p (h.insert (tables p) key d).1) (some p) key f
              o refl (search-restored h law tables p key d fresh))
      | inr fine ↦
          rw (law.insert_new (tables p) key d fresh, fine) (inserted-Effect p key d f o valid fresh)
    ]
  ]

  pub refused-Effect : (rc : Status) → is_ok rc ≡ false → Effect h tables (failed rc tables)
  refused-Effect rc bad = failed-Effect rc tables bad (λ q k. refl)

  pub declare-Effect :
      (parent : Parent) (d : ℕ) (key : Text) (sflavor : ℕ) (f : Flavor) (o : Option Statement)
      → Effect h tables (declare h parent tables d key sflavor f o)
  unfolding declare gen_node remove_datum
  declare-Effect parent d key sflavor f o = elim (Status-cases (verify_name key)) [
    | inr (bad, _) ↦ rw bad (finish-refused sepol_err tables none key f o refl (λ q k. refl))
    | inl valid ↦ elim (Option-cases (get_symtab parent sflavor)) [
      | inl missing ↦
          rw (valid, missing) (finish-refused sepol_err tables none key f o refl (λ q k. refl))
      | inr (p, there) ↦ rw (valid, there) (insert_datum-Effect parent p key d f o valid)
    ]
  ]

  pub with_key-Effect :
      (pc : Nodes) (syntax : List Syntax) (k : Text → Built T)
      → ((key : Text) → Effect h tables (k key))
      → Effect h tables (with_key tables pc syntax k)
  with_key-Effect pc syntax k each = elim (Bool-cases (is_ok (verify_syntax pc syntax))) [
    | inr bad ↦ rw bad (refused-Effect sepol_err refl)
    | inl good ↦ elim (Option-cases (data_of (next pc))) [
      | inl missing ↦ rw (good, missing) (refused-Effect sepol_err refl)
      | inr (key, there) ↦ rw (good, there) (each key)
    ]
  ]

  pub if-Effect :
      (c : Bool) (b b' : Built T)
      → Effect h tables b
      → Effect h tables b'
      → Effect h tables (if c then b else b')
  if-Effect true b b' e e' = e
  if-Effect false b b' e e' = e'

  -- `(keyword name)`, and with more behind the name.
  pub name-Effect :
      (pc : Nodes) (syntax : List Syntax) (parent : Parent) (d sflavor : ℕ) (f : Flavor)
      (o : Text → Option Statement)
      → Effect h tables
          (with_key tables pc syntax λ key. declare h parent tables d key sflavor f (o key))
  name-Effect pc syntax parent d sflavor f o =
      with_key-Effect pc syntax (λ key. declare h parent tables d key sflavor f (o key))
        λ key. declare-Effect parent d key sflavor f (o key)

  pub reserved-Effect :
      (pc : Nodes) (syntax : List Syntax) (parent : Parent) (d sflavor : ℕ) (f : Flavor)
      (x : Statement) (reserved : Text → Bool)
      → Effect h tables (
          with_key tables pc syntax λ key.
            if reserved key
            then failed sepol_err tables
            else declare h parent tables d key sflavor f (some x))
  reserved-Effect pc syntax parent d sflavor f x reserved = with_key-Effect pc syntax _ λ key.
      if-Effect (reserved key) _ _ (refused-Effect sepol_err refl)
        (declare-Effect parent d key sflavor f (some x))

  pub truth-Effect :
      (pc : Nodes) (syntax : List Syntax) (parent : Parent) (d sflavor : ℕ) (f : Flavor)
      (c : Bool → Statement) (v : Option Bool)
      → Effect h tables
          (with_key tables pc syntax λ key. declare_truth h parent tables d key sflavor f c v)
  truth-Effect pc syntax parent d sflavor f c none =
      with_key-Effect pc syntax _ λ key. refused-Effect sepol_err refl
  truth-Effect pc syntax parent d sflavor f c (some v) =
      with_key-Effect pc syntax _ λ key. declare-Effect parent d key sflavor f (some (c v))
