-- ===== src/ComplexSymtab/Examples.antt =====
-- Tests of the table, and its theorems at a table of four slots.
use cil.Base.{ℕ, ◌≡◌, ◌≢◌, ◌⊎◌, refl, List, [], ◌∷◌, none, some, arith, sepol_ok, sepol_eexist}
use cil.ComplexSymtab.{
  Key, same_key, stops_before, Table, hash, insert_chain, place, insert, search,
}
use cil.ComplexSymtab.Lookup.{IsValid, entries, view, Added, insert-view, search-insert}

abbrev key : ℕ → ℕ → ℕ → ℕ → Key
key a b c d = record { key1 = a; key2 = b; key3 = c; key4 = d }

abbrev with_chain : List (Key × ℕ) → Table ℕ
with_chain c = record { htable = [] ∷ c ∷ [] ∷ [] ∷ []; nelems = 2; nslots = 4; mask = 3 }

-- Two keys of slot 1 with the same first part, in order.
abbrev table : Table ℕ
table = with_chain ((key 1 1 1 1, 10) ∷ (key 1 2 0 1, 20) ∷ [])

table-IsValid : IsValid table
unfolding entries stops_before
table-IsValid = record { width = refl; masked = refl; ordered = ground arith; counted = refl }

-- The new entry goes between the two.
insert_between :
    insert table (key 1 1 3 0) 30
    ≡ some (
      sepol_ok,
      record (with_chain ((key 1 1 1 1, 10) ∷ (key 1 1 3 0, 30) ∷ (key 1 2 0 1, 20) ∷ [])) {
        nelems = 3;
      },
    )
unfolding insert hash insert_chain place same_key stops_before
insert_between = refl

insert_again : insert table (key 1 2 0 1) 99 ≡ some (sepol_eexist, table)
unfolding insert hash insert_chain place same_key stops_before
insert_again = refl

insert-view_example :
    (view table (key 1 1 3 0) ≡ none)
      × ((r : Table ℕ) × (insert table (key 1 1 3 0) 30 ≡ some (sepol_ok, r))
          × Added table (key 1 1 3 0) 30 r)
    ⊎ (view table (key 1 1 3 0) ≢ none)
      × (insert table (key 1 1 3 0) 30 ≡ some (sepol_eexist, table))
insert-view_example = insert-view table (key 1 1 3 0) 30 table-IsValid

abbrev one_more : Table ℕ
one_more = record (with_chain ((key 1 1 1 1, 10) ∷ (key 1 1 3 0, 30) ∷ (key 1 2 0 1, 20) ∷ [])) {
  nelems = 3;
}

abbrev two_more : Table ℕ
two_more =
    record (with_chain
      ((key 1 1 1 1, 10) ∷ (key 1 1 2 1, 40) ∷ (key 1 1 3 0, 30) ∷ (key 1 2 0 1, 20) ∷ [])) {
        nelems = 4;
      }

search-insert_example : search two_more (key 1 1 3 0) ≡ some (some 30)
unfolding insert hash insert_chain place same_key stops_before
search-insert_example =
    search-insert table one_more two_more (key 1 1 2 1) (key 1 1 3 0) 30 40 table-IsValid refl refl
