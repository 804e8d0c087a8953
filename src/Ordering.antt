-- ===== src/Ordering.antt =====
-- Merging the ordering statements (sidorder, classorder, categoryorder, sensitivityorder) into one
-- list, of src/cil_resolve_ast.c. An item's data, the declaration that it names, is a number, its
-- address. The `ordered` marks of the declarations are the list of those that have it set. All items
-- are of the four flavors that carry the mark. A position in `old` is a split of the list.
pub mod Sub
pub mod Merge
pub mod Fuel
pub mod Marks
pub mod Passes
pub mod MergeAll
pub mod Statements
pub mod Examples
use cil.Base.{
  ℕ, zero, suc, ◌+◌, List, [], ◌∷◌, ◌++◌, Option, none, some, Bool, true, false, not, ◌&&◌, ◌||◌,
  ◌==◌, ltb, if◌then◌else◌, length, Status, sepol_ok, sepol_err, is_ok, map,
}

pub has : ℕ → List ℕ → Bool
has x [] = false
has x (y ∷ ys) = x == y || has x ys

-- The list behind `old` and the marks, while a merge goes on. `front` is the part of the list up to
-- the place where items go in.
pub record Progress : Type 0 where
  pub status : Status
  pub front : List ℕ
  pub marks : List ℕ

-- `__cil_ordered_list_insert` with `__cil_ordered_item_insert`: the items `[nstart, nstop)` go in
-- one after the other, until one that is already marked.
pub insert_items : List ℕ → List ℕ → List ℕ → Progress
unfolding has
insert_items front [] marks = record { status = sepol_ok; front = front; marks = marks }
insert_items front (x ∷ xs) marks =
    let rest = insert_items (front ++ x ∷ []) xs (x ∷ marks) in
    if has x marks then record { status = sepol_err; front = front; marks = marks } else rest

-- `__cil_ordered_find_match`: the items before the first match, and those behind it.
pub find_match : ℕ → List ℕ → Option (List ℕ × List ℕ)
find_match t [] = none
find_match t (i ∷ is) =
    if i == t
    then some ([], is)
    else elim (find_match t is) [ none ↦ none | some (pre, post) ↦ some (i ∷ pre, post) ]

-- The outcome of a merge: the status, the whole of `old`, and the marks.
pub record Merged : Type 0 where
  pub status : Status
  pub old : List ℕ
  pub marks : List ℕ

-- `rest` is what follows the insertion in `old`.
abbrev pub close : Progress → List ℕ → Merged
close p rest = record { status = p.status; old = p.front ++ rest; marks = p.marks }

abbrev pub refuse : List ℕ → List ℕ → List ℕ → Merged
refuse front rest marks = record { status = sepol_err; old = front ++ rest; marks = marks }

-- The loop over the overlapping part, and the items of the new list that are left. `front` ends
-- with `oprev`; `os` is the old list from `ocurr` on and `ns` the new one from `ncurr` on. Each
-- round takes at least one item of `ns`, so a fuel of their number is enough; `fuel_out` stands for
-- a run that has no fuel left.
pub overlap : (fuel_out : Merged) → ℕ → List ℕ → List ℕ → List ℕ → List ℕ → Merged
unfolding insert_items find_match
overlap fuel_out fuel front os [] marks = record {
  status = sepol_ok;
  old = front ++ os;
  marks = marks;
}
overlap fuel_out fuel front [] (n ∷ ns) marks = close (insert_items front (n ∷ ns) marks) []
overlap fuel_out zero front (o ∷ os) (n ∷ ns) marks = fuel_out
overlap fuel_out (suc fuel) front (o ∷ os) (n ∷ ns) marks =
    let same = overlap fuel_out fuel (front ++ o ∷ []) os ns marks in
    let behind_old = λ (pre post : List ℕ).
      let p = insert_items front (n ∷ pre) marks in
      let next = overlap fuel_out fuel (p.front ++ o ∷ []) os post p.marks in
      if is_ok p.status then next else close p (o ∷ os) in
    let behind_new =
      λ (pre post : List ℕ). overlap fuel_out fuel (front ++ (o ∷ pre) ++ n ∷ []) post ns marks in
    if n == o then same else elim (find_match o ns) [
      | some (pre, post) ↦ behind_old pre post
      | none ↦ elim (find_match n os) [
        | some (pre, post) ↦ behind_new pre post
        | none ↦ refuse front (o ∷ os) marks
      ]
    ]

-- The first item of the new list that the old one holds: what stands before it and behind it in
-- the new list, and in the old one.
pub record Match : Type 0 where
  pub data_of : ℕ
  pub before_new : List ℕ
  pub after_new : List ℕ
  pub before_old : List ℕ
  pub after_old : List ℕ

pub first_match : List ℕ → List ℕ → Option Match
unfolding find_match
first_match old [] = none
first_match old (n ∷ ns) = elim (find_match n old) [
  | some (pre, post) ↦
      some (record {
        data_of = n;
        before_new = [];
        after_new = ns;
        before_old = pre;
        after_old = post;
      })
  | none ↦ elim (first_match old ns) [
    | none ↦ none
    | some m ↦ some (record m { before_new = n ∷ m.before_new })
  ]
]

abbrev pub is_nil : List ℕ → Bool
is_nil [] = true
is_nil (x ∷ xs) = false

-- From the first match on.
pub merge_from : Merged → List ℕ → Match → List ℕ → Merged
unfolding insert_items overlap
merge_from fuel_out old m marks =
    let p = insert_items [] m.before_new marks in
    let go =
      overlap fuel_out (length m.after_new) (p.front ++ m.before_old ++ m.data_of ∷ []) m.after_old
        m.after_new p.marks in
    if not (is_nil m.before_new) && not (is_nil m.before_old)
    then refuse [] old marks
    else (if is_ok p.status then go else close p old)

pub merge : Merged → List ℕ → List ℕ → List ℕ → Merged
unfolding insert_items first_match merge_from
merge fuel_out old [] marks = record { status = sepol_ok; old = old; marks = marks }
merge fuel_out [] (n ∷ ns) marks = close (insert_items [] (n ∷ ns) marks) []
merge fuel_out (o ∷ os) (n ∷ ns) marks = elim (first_match (o ∷ os) (n ∷ ns)) [
  | none ↦ refuse [] (o ∷ os) marks
  | some m ↦ merge_from fuel_out (o ∷ os) m marks
]

-- `struct cil_ordered_list`, less the node.
pub record Ordered : Type 0 where
  pub merged : Bool
  pub items : List ℕ

-- The composite list, the marks, `changed` and `waiting`, after a pass over the lists.
pub record Pass : Type 0 where
  pub composite : List ℕ
  pub marked : List ℕ
  pub lists : List Ordered
  pub changed : Bool
  pub waiting : ℕ

-- One turn of the loop's body, for one list.
pub merge_one : Merged → List ℕ → List ℕ → Ordered → Merged
unfolding merge
merge_one fuel_out composite marks l =
    if l.merged
    then record { status = sepol_ok; old = composite; marks = marks }
    else merge fuel_out composite l.items marks

-- `cil_list_for_each(curr, *ordered_lists)` in the loop.
pub pass : Merged → List ℕ → List ℕ → List Ordered → Pass
unfolding merge_one
pass fuel_out composite marks [] = record {
  composite = composite;
  marked = marks;
  lists = [];
  changed = false;
  waiting = 0;
}
pass fuel_out composite marks (l ∷ ls) =
    let m = merge_one fuel_out composite marks l in
    let rest = pass fuel_out m.old m.marks ls in
    let fine = is_ok m.status in
    record rest {
      lists = record l { merged = fine } ∷ rest.lists;
      changed = (fine && not l.merged) || rest.changed;
      waiting = (if fine then 0 else 1) + rest.waiting;
    }

-- `__cil_ordered_lists_merge_all`: `none` where some lists cannot be merged. A pass that is not the
-- last merges a list, so a fuel of one more than their number is enough.
pub merge_all_from : Merged → (fuel : ℕ) → List ℕ → List ℕ → List Ordered → Option (List ℕ)
unfolding pass
merge_all_from fuel_out zero composite marks ls = some fuel_out.old
merge_all_from fuel_out (suc fuel) composite marks ls =
    let p = pass fuel_out composite marks ls in
    let next = merge_all_from fuel_out fuel p.composite p.marked p.lists in
    if p.waiting == 0 then some p.composite else (if p.changed then next else none)

abbrev pub fresh : List ℕ → Ordered
fresh l = record { merged = false; items = l }

pub merge_all : Merged → List ℕ → List (List ℕ) → Option (List ℕ)
unfolding merge_all_from
merge_all fuel_out marks ls = merge_all_from fuel_out (suc (length ls)) [] marks (map fresh ls)
