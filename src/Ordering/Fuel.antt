-- ===== src/Ordering/Fuel.antt =====
-- One merge: its fuel.
use cil.Base.{
  ℕ, zero, suc, ◌≤◌, ◌≡◌, inl, inr, refl, ap, List, [], ◌∷◌, ◌++◌, not, ◌&&◌, ◌==◌, arith,
  Bool-cases, if◌then◌else◌, length, is_ok,
}
use cil.Ordering.{insert_items, Merged, close, refuse, overlap, is_nil, merge_from, merge}
use cil.Ordering.Merge.{find_match-cases, post_shorter, first_match-cases}

overlap-fuel :
    (fuel_out other : Merged) (fuel more : ℕ) (front os ns marks : List ℕ)
    → length ns ≤ fuel
    → length ns ≤ more
    → overlap fuel_out fuel front os ns marks ≡ overlap other more front os ns marks
unfolding overlap
overlap-fuel fuel_out other zero zero front os [] marks h k = refl
overlap-fuel fuel_out other zero (suc more) front os [] marks h k = refl
overlap-fuel fuel_out other (suc fuel) zero front os [] marks h k = refl
overlap-fuel fuel_out other (suc fuel) (suc more) front os [] marks h k = refl
overlap-fuel fuel_out other zero more front os (n ∷ ns) marks h k = absurd (omega arith)
overlap-fuel fuel_out other (suc fuel) zero front os (n ∷ ns) marks h k = absurd (omega arith)
overlap-fuel fuel_out other (suc fuel) (suc more) front [] (n ∷ ns) marks h k = refl
overlap-fuel fuel_out other (suc fuel) (suc more) front (o ∷ os) (n ∷ ns) marks h k =
    elim (Bool-cases (n == o)) [
      | inl e ↦ rw e (
          overlap-fuel fuel_out other fuel more (front ++ o ∷ []) os ns marks (omega arith)
            (omega arith))
      | inr e ↦ elim (find_match-cases o ns) [
        | inr (pre, post, q, s) ↦
            let p = insert_items front (n ∷ pre) marks in
            rw (e, q)
              (ap (λ x. if is_ok p.status then x else close p (o ∷ os))
                (overlap-fuel fuel_out other fuel more (p.front ++ o ∷ []) os post p.marks
                  (post_shorter n o ns pre post fuel s h) (post_shorter n o ns pre post more s k)))
        | inl q ↦ elim (find_match-cases n os) [
          | inr (pre, post, f, s) ↦
              rw (e, q, f)
                (overlap-fuel fuel_out other fuel more (front ++ (o ∷ pre) ++ n ∷ []) post ns marks
                  (omega arith) (omega arith))
          | inl f ↦ rw (e, q, f)
        ]
      ]
    ]

-- The fuel is enough: a merge never runs out of it.
pub merge-fuel :
    (fuel_out other : Merged) (old new marks : List ℕ)
    → merge fuel_out old new marks ≡ merge other old new marks
unfolding merge merge_from
merge-fuel fuel_out other old [] marks = refl
merge-fuel fuel_out other [] (n ∷ ns) marks = refl
merge-fuel fuel_out other (o ∷ os) (n ∷ ns) marks = elim (first_match-cases (o ∷ os) (n ∷ ns)) [
  | inl q ↦ rw (q, merge)
  | inr (m, q, s) ↦
      let p = insert_items [] m.before_new marks in
      rw (q, merge)
        (ap
          (λ x.
            if not (is_nil m.before_new) && not (is_nil m.before_old)
            then refuse [] (o ∷ os) marks
            else (if is_ok p.status then x else close p (o ∷ os)))
          (overlap-fuel fuel_out other (length m.after_new) (length m.after_new)
            (p.front ++ m.before_old ++ m.data_of ∷ []) m.after_old m.after_new p.marks
            (omega arith) (omega arith)))
]
