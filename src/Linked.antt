-- ===== src/Linked.antt =====
-- Linked lists, of src/cil_list.c, on a store of list items. A store says for each address which
-- item is there; malloc takes the address `fresh`. `none` is a read or a write through a pointer to
-- no item. The list that an operation is about is passed explicitly; NULL for it ends the program,
-- so it is no case here. Destroying the data of an item is not modelled.
pub mod Chains
pub mod Adding
pub mod Inserting
pub mod Removing
pub mod Joining
pub mod Examples
use cil.Base.{
  ℕ, zero, suc, ◌+◌, List, [], ◌∷◌, Option, none, some, Bool, true, false, ◌&&◌, ◌==◌,
  if◌then◌else◌,
}
use cil.Flavor.{Flavor}

abbrev pub Pointer : Type 0
Pointer = Option ℕ

-- `struct cil_list_item`; `datum` is the field data, an address.
pub record Cell : Type 0 where
  pub next : Pointer
  pub flavor : Flavor
  pub datum : ℕ

pub record Store : Type 0 where
  pub cell_at : ℕ → Option Cell
  pub fresh : ℕ

-- `struct cil_list`, less its flavor.
pub record Linked : Type 0 where
  pub head : Pointer
  pub tail : Pointer

abbrev pub write_cell : (ℕ → Option Cell) → ℕ → Option Cell → ℕ → Option Cell
write_cell h a c b = if b == a then c else h b

abbrev pub store_cell : Store → ℕ → Cell → Store
store_cell s a c = record s { cell_at = write_cell s.cell_at a (some c) }

-- `cil_list_item_init`, with the fields that its callers set; the item's address is `s.fresh`.
abbrev pub new_item : Store → Pointer → Flavor → ℕ → Store
new_item s next flavor datum = record {
  cell_at =
      write_cell s.cell_at s.fresh (some (record { next = next; flavor = flavor; datum = datum }));
  fresh = s.fresh + 1;
}

-- `a->next = p`
pub set_next : Store → ℕ → Pointer → Option Store
set_next s a p = elim (s.cell_at a) [
  | none ↦ none
  | some c ↦ some (store_cell s a (record c { next = p }))
]

abbrev pub empty_list : Linked
empty_list = record { head = none; tail = none }

abbrev pub with_list : Option Store → Linked → Option (Store × Linked)
with_list none l = none
with_list (some s) l = some (s, l)

pub append : Store → Linked → Flavor → ℕ → Option (Store × Linked)
unfolding set_next
append s l flavor datum =
    let s1 = new_item s none flavor datum in
    elim l.tail [
      | none ↦ some (s1, record { head = some s.fresh; tail = some s.fresh })
      | some t ↦ with_list (set_next s1 t (some s.fresh)) (record l { tail = some s.fresh })
    ]

pub prepend : Store → Linked → Flavor → ℕ → Store × Linked
prepend s l flavor datum = elim l.tail [
  | none ↦ (new_item s none flavor datum, record { head = some s.fresh; tail = some s.fresh })
  | some t ↦ (new_item s l.head flavor datum, record l { head = some s.fresh })
]

abbrev pub points_to : Pointer → ℕ → Bool
points_to none a = false
points_to (some b) a = b == a

-- The new item goes between `curr` and the one behind it.
abbrev pub insert_between : Store → Linked → ℕ → Flavor → ℕ → Option (Store × Linked)
insert_between s l curr flavor datum = elim (s.cell_at curr) [
  | none ↦ none
  | some c ↦ with_list (set_next (new_item s c.next flavor datum) curr (some s.fresh)) l
]

-- The item that `cil_list_insert` returns is at `s.fresh` on every path.
pub list_insert : Store → Linked → Pointer → Flavor → ℕ → Option (Store × Linked)
unfolding append prepend set_next
list_insert s l none flavor datum = some (prepend s l flavor datum)
list_insert s l (some curr) flavor datum =
    if points_to l.tail curr then append s l flavor datum else insert_between s l curr flavor datum

abbrev pub new_tail : Pointer → Pointer → Linked → Linked
new_tail none previous l = record l { tail = previous }
new_tail (some n) previous l = l

abbrev pub free_cell : Store → ℕ → Store
free_cell s a = record s { cell_at = write_cell s.cell_at a none }

-- The item at `a`, which holds `c`, is unlinked from `previous`, and freed.
pub unlink : Store → Linked → Pointer → ℕ → Cell → Option (Store × Linked)
unfolding set_next
unlink s l none a c = some (free_cell s a, new_tail c.next none (record l { head = c.next }))
unlink s l (some p) a c = elim (set_next s p c.next) [
  | none ↦ none
  | some t ↦ some (free_cell t a, new_tail c.next (some p) l)
]

-- The loop of `cil_list_remove`, from `previous` and `item` on. As much fuel as items that are
-- left is enough.
pub remove_from : ℕ → Store → Linked → Pointer → Pointer → Flavor → ℕ → Option (Store × Linked)
unfolding unlink
remove_from fuel s l previous none flavor datum = some (s, l)
remove_from zero s l previous (some a) flavor datum = none
remove_from (suc fuel) s l previous (some a) flavor datum = elim (s.cell_at a) [
  | none ↦ none
  | some c ↦
      let found = unlink s l previous a c in
      let rest = remove_from fuel s l (some a) c.next flavor datum in
      if c.datum == datum && c.flavor == flavor then found else rest
]

pub remove : ℕ → Store → Linked → Flavor → ℕ → Option (Store × Linked)
unfolding remove_from
remove fuel s l flavor datum = remove_from fuel s l none l.head flavor datum

-- The loop to the last item, from the one at `a` on; as much fuel as items is enough.
pub last_item : ℕ → Store → ℕ → Option ℕ
last_item zero s a = none
last_item (suc fuel) s a = elim (s.cell_at a) [
  | none ↦ none
  | some c ↦ elim c.next [ none ↦ some a | some b ↦ last_item fuel s b ]
]

-- `item` is at `a`; NULL for it ends the program.
pub append_item : ℕ → Store → Linked → ℕ → Option (Store × Linked)
unfolding last_item set_next
append_item fuel s l a = elim (last_item fuel s a) [
  | none ↦ none
  | some last ↦ elim l.tail [
    | none ↦ some (s, record { head = some a; tail = some last })
    | some t ↦ with_list (set_next s t (some a)) (record l { tail = some last })
  ]
]

pub prepend_item : ℕ → Store → Linked → ℕ → Option (Store × Linked)
unfolding last_item set_next
prepend_item fuel s l a = elim (last_item fuel s a) [
  | none ↦ none
  | some last ↦ elim l.tail [
    | none ↦ some (s, record { head = some a; tail = some last })
    | some t ↦ with_list (set_next s last l.head) (record l { head = some a })
  ]
]
