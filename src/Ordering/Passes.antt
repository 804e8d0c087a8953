-- ===== src/Ordering/Passes.antt =====
-- One pass over the lists of one kind of statement.
use cil.Base.{
  ℕ, suc, ◌+◌, ◌≤◌, ◌≡◌, inl, inr, refl, ap, List, [], ◌∷◌, true, not, ◌&&◌, ◌||◌, arith,
  Bool-cases, if◌then◌else◌, is_ok, map,
}
use cil.Ordering.{Merged, merge, Ordered, Pass, merge_one, pass}
use cil.Ordering.Sub.{Sub, Sub-refl, Sub-trans}
use cil.Ordering.Merge.{merge-Sub}
use cil.Ordering.Fuel.{merge-fuel}
use cil.Ordering.Marks.{IsMarked, merge-IsMarked}

-- Each list that is marked as merged stands in the composite list, in its order.
abbrev pub Contains : List ℕ → List Ordered → Type 0
Contains r [] = Unit
Contains r (l ∷ ls) = (l.merged ≡ true → Sub l.items r) × Contains r ls

-- The same lists, whatever their marks.
abbrev pub items_of : List Ordered → List (List ℕ)
items_of ls = map (λ l. l.items) ls

unfoldable pub unmerged : List Ordered → ℕ
unmerged [] = 0
unmerged (l ∷ ls) = (if l.merged then 0 else 1) + unmerged ls

pub Contains-trans : (r s : List ℕ) (ls : List Ordered) → Sub r s → Contains r ls → Contains s ls
Contains-trans r s [] t c = tt
Contains-trans r s (l ∷ ls) t (h, c) = (λ e. Sub-trans (h e) t, Contains-trans r s ls t c)

merge_one-Sub :
    (fuel_out : Merged) (composite marks : List ℕ) (l : Ordered)
    → (l.merged ≡ true → Sub l.items composite)
    → Sub composite (merge_one fuel_out composite marks l).old
      × (is_ok (merge_one fuel_out composite marks l).status ≡ true
          → Sub l.items (merge_one fuel_out composite marks l).old)
unfolding merge_one
merge_one-Sub fuel_out composite marks l h = elim (Bool-cases l.merged) [
  | inl e ↦ rw e (Sub-refl composite, λ _. h e)
  | inr e ↦ rw e (merge-Sub fuel_out composite l.items marks)
]

pub pass-Sub :
    (fuel_out : Merged) (composite marks : List ℕ) (ls : List Ordered)
    → Contains composite ls
    → Sub composite (pass fuel_out composite marks ls).composite
      × Contains
          (pass fuel_out composite marks ls).composite
          (pass fuel_out composite marks ls).lists
unfolding pass
pass-Sub fuel_out composite marks [] c = (Sub-refl composite, tt)
pass-Sub fuel_out composite marks (l ∷ ls) (h, c) =
    let m = merge_one fuel_out composite marks l in
    let one = merge_one-Sub fuel_out composite marks l h in
    let rest = pass-Sub fuel_out m.old m.marks ls (Contains-trans composite m.old ls one.0 c) in
    (Sub-trans one.0 rest.0, (λ e. Sub-trans (one.1 e) rest.0, rest.1))

pub pass-items :
    (fuel_out : Merged) (composite marks : List ℕ) (ls : List Ordered)
    → items_of (pass fuel_out composite marks ls).lists ≡ items_of ls
unfolding pass
pass-items fuel_out composite marks [] = refl
pass-items fuel_out composite marks (l ∷ ls) =
    let m = merge_one fuel_out composite marks l in
    ap (λ x. l.items ∷ x) (pass-items fuel_out m.old m.marks ls)

-- `waiting` is the number of lists that are not merged.
pub pass-waiting :
    (fuel_out : Merged) (composite marks : List ℕ) (ls : List Ordered)
    → (pass fuel_out composite marks ls).waiting ≡ unmerged (pass fuel_out composite marks ls).lists
unfolding pass unmerged
pass-waiting fuel_out composite marks [] = refl
pass-waiting fuel_out composite marks (l ∷ ls) =
    let m = merge_one fuel_out composite marks l in
    ap (λ x. (if is_ok m.status then 0 else 1) + x) (pass-waiting fuel_out m.old m.marks ls)

-- A pass that changes something leaves fewer lists to merge.
pub pass-unmerged :
    (fuel_out : Merged) (composite marks : List ℕ) (ls : List Ordered)
    → (unmerged (pass fuel_out composite marks ls).lists ≤ unmerged ls)
      × ((pass fuel_out composite marks ls).changed ≡ true
          → suc (unmerged (pass fuel_out composite marks ls).lists) ≤ unmerged ls)
unfolding pass unmerged
pass-unmerged fuel_out composite marks [] = (omega arith, λ h. cc)
pass-unmerged fuel_out composite marks (l ∷ ls) =
    let m = merge fuel_out composite l.items marks in
    let rest = pass-unmerged fuel_out m.old m.marks ls in
    elim (Bool-cases l.merged) [
      | inl e ↦
          let same = pass-unmerged fuel_out composite marks ls in
          rw e (omega (arith, same.0), λ h. omega (arith, same.1 h))
      | inr e ↦ elim (Bool-cases (is_ok (merge fuel_out composite l.items marks).status)) [
        | inl f ↦ rw (e, f) (omega (arith, rest.0), λ h. omega (arith, rest.0))
        | inr f ↦ rw (e, f) (omega (arith, rest.0), λ h. omega (arith, rest.1 h))
      ]
    ]

pub pass-fuel :
    (fuel_out other : Merged) (composite marks : List ℕ) (ls : List Ordered)
    → pass fuel_out composite marks ls ≡ pass other composite marks ls
unfolding pass merge_one
pass-fuel fuel_out other composite marks [] = refl
pass-fuel fuel_out other composite marks (l ∷ ls) =
    let m = merge_one other composite marks l in
    rw (merge-fuel fuel_out other composite l.items marks) (
      ap
        (λ (rest : Pass). record rest {
          lists = record l { merged = is_ok m.status } ∷ rest.lists;
          changed = (is_ok m.status && not l.merged) || rest.changed;
          waiting = (if is_ok m.status then 0 else 1) + rest.waiting;
        })
        (pass-fuel fuel_out other m.old m.marks ls))

merge_one-IsMarked :
    (fuel_out : Merged) (composite marks : List ℕ) (l : Ordered)
    → IsMarked composite marks
    → IsMarked
        (merge_one fuel_out composite marks l).old
        (merge_one fuel_out composite marks l).marks
unfolding merge_one
merge_one-IsMarked fuel_out composite marks l h = elim (Bool-cases l.merged) [
  | inl e ↦ rw e h
  | inr e ↦ rw e (merge-IsMarked fuel_out composite l.items marks h)
]

pub pass-IsMarked :
    (fuel_out : Merged) (composite marks : List ℕ) (ls : List Ordered)
    → IsMarked composite marks
    → IsMarked
        (pass fuel_out composite marks ls).composite
        (pass fuel_out composite marks ls).marked
unfolding pass
pass-IsMarked fuel_out composite marks [] h = h
pass-IsMarked fuel_out composite marks (l ∷ ls) h =
    let m = merge_one fuel_out composite marks l in
    pass-IsMarked fuel_out m.old m.marks ls (merge_one-IsMarked fuel_out composite marks l h)
