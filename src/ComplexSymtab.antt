-- ===== src/ComplexSymtab.antt =====
-- The chained hash table over four-part keys of src/cil_symtab.c: struct cil_complex_symtab and its
-- functions. A key's parts are intptr_t values; their sum does not overflow for the pointers and
-- enumerators that callers put there, and they are not negative. A chain is the list of its nodes'
-- keys and data; the table keeps a pointer to the caller's key, which callers leave unchanged.
-- `none` is a read outside `htable`. Allocation never fails.
mod Bits
pub mod Order
pub mod Lookup
pub mod Examples
use cil.Base.{
  ℕ, ◌+◌, ◌-◌, ◌/◌, ◌%◌, ◌^◌, List, [], ◌∷◌, Option, none, some, Bool, ◌&&◌, ◌||◌, ltb, ◌==◌,
  if◌then◌else◌, bit_and, length, get_elem?, set, replicate, Status, sepol_ok, sepol_eexist,
}
use mathlib.Core.Option

pub record Key : Type 0 where
  pub key1 : ℕ
  pub key2 : ℕ
  pub key3 : ℕ
  pub key4 : ℕ

-- The test for a duplicate.
pub same_key : Key → Key → Bool
same_key k e = k.key1 == e.key1 && (k.key2 == e.key2 && (k.key3 == e.key3 && k.key4 == e.key4))

-- The three tests that end the walk along a chain.
pub stops_before : Key → Key → Bool
stops_before k e =
    (k.key1 == e.key1 && ltb k.key2 e.key2)
    || ((k.key1 == e.key1 && (k.key2 == e.key2 && ltb k.key3 e.key3))
        || (k.key1 == e.key1 && (k.key2 == e.key2 && (k.key3 == e.key3 && ltb k.key4 e.key4))))

abbrev pub Chain {ℓ} : Type ℓ → Type ℓ
Chain A = List (Key × A)

pub record Table {ℓ} (A : Type ℓ) : Type ℓ where
  pub htable : List (Chain A)
  pub nelems : ℕ
  pub nslots : ℕ
  pub mask : ℕ

pub hash : Key → ℕ → ℕ
hash k mask = bit_and ((k.key1 + k.key2 + k.key3 + k.key4) / 4) mask

module _ {ℓ} {A : Type ℓ} where
  -- `mask` is a uint32_t.
  pub init : ℕ → Table A
  init size = record {
    htable = replicate size [];
    nelems = 0;
    nslots = size;
    mask = (size + 2 ^ 32 - 1) % 2 ^ 32;
  }

  -- The loop of the insertion and the link of the new node. `none` is SEPOL_EEXIST.
  pub insert_chain : Key → A → Chain A → Option (Chain A)
  insert_chain k d [] = some ((k, d) ∷ [])
  insert_chain k d (e ∷ c) =
      if same_key k e.0
      then none
      else (if stops_before k e.0
          then some ((k, d) ∷ e ∷ c)
          else Option.map (λ r. e ∷ r) (insert_chain k d c))

  pub search_chain : Key → Chain A → Option A
  search_chain k [] = none
  search_chain k (e ∷ c) =
      if same_key k e.0 then some e.1 else (if stops_before k e.0 then none else search_chain k c)

  -- The status of an insertion, and the table with the new chain in its slot.
  pub place : Table A → ℕ → Option (Chain A) → Status × Table A
  place t slot none = (sepol_eexist, t)
  place t slot (some c) =
      (sepol_ok, record t { htable = set t.htable slot c; nelems = (t.nelems + 1) % 2 ^ 32 })

  pub insert : Table A → Key → A → Option (Status × Table A)
  insert t k d =
      let slot = hash k t.mask in
      Option.map (λ c. place t slot (insert_chain k d c)) (get_elem? t.htable slot)

  pub search : Table A → Key → Option (Option A)
  search t k = Option.map (search_chain k) (get_elem? t.htable (hash k t.mask))

  -- Every slot is emptied, then the array is dropped.
  pub destroy : Table A → Table A
  destroy t = record { htable = []; nelems = 0; nslots = 0; mask = 0 }
