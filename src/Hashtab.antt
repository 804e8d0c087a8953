-- ===== src/Hashtab.antt =====
-- The hash tables of libsepol that hold the symbols (src/cil_symtab.c calls them): their operations
-- and what their documentation promises. A datum is its address.
pub mod Assoc
use cil.Base.{ℕ, ◌≡◌, ◌≢◌, Option, none, some, Status, sepol_ok, sepol_eexist}
use cil.Text.{Text}

pub record Hashtab (T : Type 0) : Type 0 where
  pub search : T → Text → Option ℕ
  pub insert : T → Text → ℕ → Status × T
  pub remove : T → Text → T

pub record IsLawful {T : Type 0} (h : Hashtab T) : Type 0 where
  -- An insertion under a key that the table has is refused, and changes nothing.
  pub insert_old :
      (t : T) (key : Text) (d e : ℕ)
      → h.search t key ≡ some e
      → h.insert t key d ≡ (sepol_eexist, t)
  pub insert_new :
      (t : T) (key : Text) (d : ℕ) → h.search t key ≡ none → (h.insert t key d).0 ≡ sepol_ok
  pub search-insert_self :
      (t : T) (key : Text) (d : ℕ)
      → h.search t key ≡ none
      → h.search (h.insert t key d).1 key ≡ some d
  pub search-insert_other :
      (t : T) (key : Text) (d : ℕ) (k : Text)
      → h.search t key ≡ none
      → k ≢ key
      → h.search (h.insert t key d).1 k ≡ h.search t k
  pub search-remove_self : (t : T) (key : Text) → h.search (h.remove t key) key ≡ none
  pub search-remove_other :
      (t : T) (key k : Text) → k ≢ key → h.search (h.remove t key) k ≡ h.search t k
