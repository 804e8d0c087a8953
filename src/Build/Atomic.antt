-- ===== src/Build/Atomic.antt =====
-- What a declaration does to the tables of symbols.
pub mod Builders
pub mod Statements
use cil.Base.{
  ℕ, ◌≡◌, ◌≢◌, refl, sym, ◌∙◌, ap, List, [], ◌∷◌, Option, none, some, Bool, true, false, ◌&&◌, ◌==◌,
  leb, if◌then◌else◌, inl, inr, Status, sepol_ok, sepol_err, sepol_eexist, is_ok, Bool-cases,
  Option-cases, clash, ==_iff, ==_self, and-eq-true,
}
use mathlib.Core.Path.{subst}
use cil.Build.{
  Parent, Tables, Inserted, write, get_symtab, insert_datum, gen_node, remove_datum, shadows_param,
}
use cil.Build.Declare.{Built, failed, finish_node, declare}
use cil.Build.Statement.{Statement}
use cil.Flavor.{Flavor, cil_none}
use cil.Flavor.Index.{cil_min_declarative}
use cil.Hashtab.{Hashtab, IsLawful}
use cil.Resolve.{SymtabPtr}
use cil.Text.{Text, text_eq, text_eq_self, eq_of_text_eq}
use cil.Verify.Names.{verify_name}

abbrev pub same_ptr : SymtabPtr → SymtabPtr → Bool
same_ptr q p = q.array == p.array && q.index == p.index

-- One new entry, for a valid name that the table did not have; no entry; or a failure that leaves
-- every table with the entries that it had, and the node as it was at first.
pub data Effect {T : Type 0} (h : Hashtab T) (before : Tables T) (b : Built T) : Type 0 where
  declares :
      (p : SymtabPtr) (key : Text) (d : ℕ) (x : Statement)
      → b.status ≡ sepol_ok
      → verify_name key ≡ sepol_ok
      → h.search (before p) key ≡ none
      → ((q : SymtabPtr) (k : Text)
          → h.search (b.symtabs q) k
            ≡ (if same_ptr q p && text_eq key k then some d else h.search (before q) k))
      → b.node_data ≡ some x
      → Effect h before b
  states :
      (x : Statement)
      → b.status ≡ sepol_ok
      → ((q : SymtabPtr) (k : Text) → h.search (b.symtabs q) k ≡ h.search (before q) k)
      → b.node_data ≡ some x
      → Effect h before b
  refuses :
      is_ok b.status ≡ false
      → ((q : SymtabPtr) (k : Text) → h.search (b.symtabs q) k ≡ h.search (before q) k)
      → b.node_flavor ≡ cil_none
      → b.node_data ≡ none
      → Effect h before b

same_ptr-eq : (q p : SymtabPtr) → same_ptr q p ≡ true → q ≡ p
same_ptr-eq q p h =
    let both = and-eq-true (q.array == p.array) (q.index == p.index) h in
    let a = (==_iff q.array p.array).0 both.0 in let i = (==_iff q.index p.index).0 both.1 in cc

same_ptr_self : (p : SymtabPtr) → same_ptr p p ≡ true
same_ptr_self p = rw (==_self p.array, ==_self p.index) refl

module _ {T : Type 0} (tables : Tables T) (p : SymtabPtr) (t : T) where
  write_self : write tables p t p ≡ t
  unfolding write
  write_self = rw (same_ptr_self p) refl

  write-other : (q : SymtabPtr) → same_ptr q p ≡ false → write tables p t q ≡ tables q
  unfolding write
  write-other q h = rw h refl

text_eq-false : (s t : Text) → text_eq s t ≡ false → t ≢ s
text_eq-false s t h p = clash (text_eq s s) (text_eq_self s) (subst (λ u. text_eq s u ≡ false) p h)

-- What holds at `p` holds at a pointer with the same fields.
at_same : (P : SymtabPtr → Type 0) (q p : SymtabPtr) → same_ptr q p ≡ true → P p → P q
at_same P q p same x = subst P (sym (same_ptr-eq q p same)) x

module _ {T : Type 0} (h : Hashtab T) (law : IsLawful h) (tables : Tables T) where
  module _ (p : SymtabPtr) (key : Text) (d : ℕ) (fresh : h.search (tables p) key ≡ none) where
    abbrev pub t : T
    t = (h.insert (tables p) key d).1

    inserted_here :
        (k : Text)
        → h.search (write tables p t p) k
          ≡ (if same_ptr p p && text_eq key k then some d else h.search (tables p) k)
    inserted_here k = elim (Bool-cases (text_eq key k)) [
      | inl here ↦
          rw (same_ptr_self p, here, write_self tables p t)
            (subst (λ j. h.search t j ≡ some d) (eq_of_text_eq key k here)
              (law.search-insert_self (tables p) key d fresh))
      | inr other ↦
          rw (same_ptr_self p, other, write_self tables p t)
            (law.search-insert_other (tables p) key d k fresh (text_eq-false key k other))
    ]

    pub search-inserted :
        (q : SymtabPtr) (k : Text)
        → h.search (write tables p t q) k
          ≡ (if same_ptr q p && text_eq key k then some d else h.search (tables q) k)
    search-inserted q k = elim (Bool-cases (same_ptr q p)) [
      | inr apart ↦ rw (apart, write-other tables p t q apart) refl
      | inl same ↦
          at_same
            (λ q.
              h.search (write tables p t q) k
              ≡ (if same_ptr q p && text_eq key k then some d else h.search (tables q) k))
            q p same (inserted_here k)
    ]

    -- The tables once the datum is out of `p` again.
    abbrev pub restored : Tables T
    restored = write (write tables p t) p (h.remove (write tables p t p) key)

    restored_here : (k : Text) → h.search (restored p) k ≡ h.search (tables p) k
    restored_here k = elim (Bool-cases (text_eq key k)) [
      | inl here ↦ rw (write_self (write tables p t) p (h.remove (write tables p t p) key)) (
          subst (λ j. h.search (h.remove (write tables p t p) key) j ≡ h.search (tables p) j)
            (eq_of_text_eq key k here)
            (law.search-remove_self (write tables p t p) key ∙ sym fresh))
      | inr other ↦
          let apart = text_eq-false key k other in
          rw
            (
              write_self (write tables p t) p (h.remove (write tables p t p) key),
              law.search-remove_other (write tables p t p) key k apart,
              write_self tables p t,
            )
            (law.search-insert_other (tables p) key d k fresh apart)
    ]

    pub search-restored :
        (q : SymtabPtr) (k : Text) → h.search (restored q) k ≡ h.search (tables q) k
    search-restored q k = elim (Bool-cases (same_ptr q p)) [
      | inr apart ↦
          rw
            (
              write-other (write tables p t) p (h.remove (write tables p t p) key) q apart,
              write-other tables p t q apart,
            )
            refl
      | inl same ↦
          at_same (λ q. h.search (restored q) k ≡ h.search (tables q) k) q p same (restored_here k)
    ]

  -- Writing back what a table was.
  pub search-rewritten :
      (p q : SymtabPtr) (k : Text)
      → h.search (write tables p (tables p) q) k ≡ h.search (tables q) k
  search-rewritten p q k = elim (Bool-cases (same_ptr q p)) [
    | inr apart ↦ rw (write-other tables p (tables p) q apart) refl
    | inl same ↦
        at_same (λ q. h.search (write tables p (tables p) q) k ≡ h.search (tables q) k) q p same
          (rw (write_self tables p (tables p)) refl)
  ]
