-- ===== src/Ordering/MergeAll.antt =====
-- All the lists of one kind of statement.
use cil.Base.{
  ℕ, zero, suc, ◌≤◌, ◌<◌, ◌≡◌, inl, inr, refl, sym, ap, List, [], ◌∷◌, some, none, Bool, true,
  false, ◌==◌, ==_iff, arith, Bool-cases, if◌then◌else◌, length, map,
}
use cil.Ordering.{has, Merged, Ordered, pass, merge_all_from, fresh, merge_all}
use cil.Ordering.Sub.{Sub}
use cil.Ordering.Passes.{
  Contains, items_of, unmerged, pass-Sub, pass-items, pass-waiting, pass-unmerged, pass-fuel,
  pass-IsMarked,
}
use cil.Ordering.Marks.{bit, count, IsMarked}

-- Each of the lists stands in `r`, in its order.
abbrev pub AllSub : List ℕ → List (List ℕ) → Type 0
AllSub r [] = Unit
AllSub r (l ∷ ls) = Sub l r × AllSub r ls

Contains-AllSub :
    (r : List ℕ) (ls : List Ordered) → Contains r ls → unmerged ls ≡ 0 → AllSub r (items_of ls)
unfolding unmerged
Contains-AllSub r [] c = λ h. tt
Contains-AllSub r (l ∷ ls) (s, c) = elim (Bool-cases l.merged) [
  | inl e ↦ rw e (λ h. (s e, Contains-AllSub r ls c (omega arith)))
  | inr e ↦ rw e (λ h. absurd (omega arith))
]

some_same : (a b : List ℕ) → some a ≡ some b → a ≡ b
some_same a b h = cc

AllSub-of :
    (r q : List ℕ) (ls : List Ordered)
    → q ≡ r
    → Contains q ls
    → unmerged ls ≡ 0
    → AllSub r (items_of ls)
AllSub-of r q ls e c h = rw (← e) (Contains-AllSub q ls c h)

merge_all_from-AllSub :
    (fuel_out : Merged) (fuel : ℕ) (composite marks : List ℕ) (ls : List Ordered) (r : List ℕ)
    → suc (unmerged ls) ≤ fuel
    → Contains composite ls
    → merge_all_from fuel_out fuel composite marks ls ≡ some r
    → AllSub r (items_of ls)
unfolding merge_all_from
merge_all_from-AllSub fuel_out zero composite marks ls r k c = absurd (omega arith)
merge_all_from-AllSub fuel_out (suc fuel) composite marks ls r k c =
    let p = pass fuel_out composite marks ls in
    let sub = pass-Sub fuel_out composite marks ls c in
    elim (Bool-cases (p.waiting == 0)) [
      | inl e ↦
          rw (e, sym (pass-items fuel_out composite marks ls))
            (λ h.
              AllSub-of r p.composite p.lists (some_same p.composite r h) sub.1
                (omega (arith, pass-waiting fuel_out composite marks ls, (==_iff p.waiting 0).0 e)))
      | inr e ↦ elim (Bool-cases p.changed) [
        | inl f ↦
            rw (e, f, sym (pass-items fuel_out composite marks ls))
              (merge_all_from-AllSub fuel_out fuel p.composite p.marked p.lists r
                (omega (arith, (pass-unmerged fuel_out composite marks ls).1 f)) sub.1)
        | inr f ↦ rw (e, f) (λ h. cc)
      ]
    ]

unmerged-fresh : (ls : List (List ℕ)) → unmerged (map fresh ls) ≡ length ls
unfolding unmerged
unmerged-fresh [] = refl
unmerged-fresh (l ∷ ls) = omega (arith, unmerged-fresh ls)

Contains-fresh : (r : List ℕ) (ls : List (List ℕ)) → Contains r (map fresh ls)
Contains-fresh r [] = tt
Contains-fresh r (l ∷ ls) = (λ h. cc, Contains-fresh r ls)

items_of-fresh : (ls : List (List ℕ)) → items_of (map fresh ls) ≡ ls
items_of-fresh [] = refl
items_of-fresh (l ∷ ls) = ap (λ x. l ∷ x) (items_of-fresh ls)

-- Where the merge of all lists succeeds, each of them stands in the result, in its own order.
pub merge_all-AllSub :
    (fuel_out : Merged) (marks : List ℕ) (ls : List (List ℕ)) (r : List ℕ)
    → merge_all fuel_out marks ls ≡ some r
    → AllSub r ls
unfolding merge_all
merge_all-AllSub fuel_out marks ls r h = rw (← items_of-fresh ls) (
    merge_all_from-AllSub fuel_out (suc (length ls)) [] marks (map fresh ls) r
      (omega (arith, unmerged-fresh ls)) (Contains-fresh [] ls) h)

merge_all_from-fuel :
    (fuel_out other : Merged) (fuel more : ℕ) (composite marks : List ℕ) (ls : List Ordered)
    → suc (unmerged ls) ≤ fuel
    → suc (unmerged ls) ≤ more
    → merge_all_from fuel_out fuel composite marks ls ≡ merge_all_from other more composite marks ls
unfolding merge_all_from
merge_all_from-fuel fuel_out other zero more composite marks ls h k = absurd (omega arith)
merge_all_from-fuel fuel_out other (suc fuel) zero composite marks ls h k = absurd (omega arith)
merge_all_from-fuel fuel_out other (suc fuel) (suc more) composite marks ls h k =
    let p = pass other composite marks ls in
    let fewer = (pass-unmerged other composite marks ls).1 in
    rw (pass-fuel fuel_out other composite marks ls) (elim (Bool-cases p.changed) [
      | inl f ↦
          ap (λ x. if p.waiting == 0 then some p.composite else (if p.changed then x else none))
            (merge_all_from-fuel fuel_out other fuel more p.composite p.marked p.lists
              (omega (arith, fewer f)) (omega (arith, fewer f)))
      | inr f ↦ rw f
    ])

-- The passes over the lists end: with a fuel of one more than the lists are, neither the passes nor
-- a merge in them runs out of it.
pub merge_all-fuel :
    (fuel_out other : Merged) (fuel : ℕ) (marks : List ℕ) (ls : List (List ℕ))
    → length ls < fuel
    → merge_all fuel_out marks ls ≡ merge_all_from other fuel [] marks (map fresh ls)
unfolding merge_all
merge_all-fuel fuel_out other fuel marks ls h =
    merge_all_from-fuel fuel_out other (suc (length ls)) fuel [] marks (map fresh ls)
      (omega (arith, unmerged-fresh ls)) (omega (arith, unmerged-fresh ls))

bit-le : (b : Bool) → bit b ≤ 1
bit-le true = omega arith
bit-le false = omega arith

count_nil : (x : ℕ) → count x [] ≡ bit (has x [])
unfolding count has
count_nil x = refl

merge_all_from-once :
    (fuel_out : Merged) (fuel : ℕ) (composite marks : List ℕ) (ls : List Ordered) (r : List ℕ)
    → suc (unmerged ls) ≤ fuel
    → IsMarked composite marks
    → merge_all_from fuel_out fuel composite marks ls ≡ some r
    → (x : ℕ) → count x r ≤ 1
unfolding merge_all_from
merge_all_from-once fuel_out zero composite marks ls r k c = absurd (omega arith)
merge_all_from-once fuel_out (suc fuel) composite marks ls r k c =
    let p = pass fuel_out composite marks ls in
    let next = pass-IsMarked fuel_out composite marks ls c in
    elim (Bool-cases (p.waiting == 0)) [
      | inl e ↦ rw e (λ h x. rw (← some_same p.composite r h, next x) (bit-le (has x p.marked)))
      | inr e ↦ elim (Bool-cases p.changed) [
        | inl f ↦
            rw (e, f)
              (merge_all_from-once fuel_out fuel p.composite p.marked p.lists r
                (omega (arith, (pass-unmerged fuel_out composite marks ls).1 f)) next)
        | inr f ↦ rw (e, f) (λ h. cc)
      ]
    ]

-- Where no declaration is marked at first, the result holds no item twice.
pub merge_all-once :
    (fuel_out : Merged) (ls : List (List ℕ)) (r : List ℕ) (x : ℕ)
    → merge_all fuel_out [] ls ≡ some r
    → count x r ≤ 1
unfolding merge_all
merge_all-once fuel_out ls r x h =
    merge_all_from-once fuel_out (suc (length ls)) [] [] (map fresh ls) r
      (omega (arith, unmerged-fresh ls)) (λ x. count_nil x) h x
