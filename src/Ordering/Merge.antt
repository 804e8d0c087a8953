-- ===== src/Ordering/Merge.antt =====
-- One merge: what it does to the order of the two lists.
use cil.Base.{
  append_assoc, append_nil, ℕ, zero, suc, ◌≤◌, ◌≡◌, ◌⊎◌, inl, inr, refl, sym, ap, ◌∙◌, List, [],
  ◌∷◌, ◌++◌, none, some, true, false, ◌==◌, ==_iff, arith, Bool-cases, if◌then◌else◌, length,
  length-append, is_ok,
}
use cil.Ordering.{
  has, Progress, insert_items, find_match, Merged, close, overlap, Match, first_match, merge_from,
  merge,
}
use cil.Ordering.Sub.{Sub, done, keep, Sub-nil, Sub-refl, Sub-append, Sub-behind, Sub-before}

-- The insertion adds items behind `front`, and all of them where it returns SEPOL_OK.
abbrev pub Extends : List ℕ → List ℕ → Progress → Type 0
Extends front xs p = (ys : List ℕ) × (p.front ≡ front ++ ys) × (is_ok p.status ≡ true → ys ≡ xs)

pub insert_items-Extends :
    (xs front marks : List ℕ) → Extends front xs (insert_items front xs marks)
unfolding insert_items
insert_items-Extends [] front marks = ([], sym (append_nil front), λ _. refl)
insert_items-Extends (x ∷ xs) front marks = elim (Bool-cases (has x marks)) [
  | inl e ↦ rw e ([], sym (append_nil front), λ h. cc)
  | inr e ↦
      let (ys, q, all) = insert_items-Extends xs (front ++ x ∷ []) (x ∷ marks) in
      rw e (x ∷ ys, q ∙ append_assoc front (x ∷ []) ys, λ h. ap (λ l. x ∷ l) (all h))
]

pub find_match-cases :
    (t : ℕ) (is : List ℕ)
    → (find_match t is ≡ none)
      ⊎ ((pre post : List ℕ) × (find_match t is ≡ some (pre, post)) × (is ≡ pre ++ t ∷ post))
unfolding find_match
find_match-cases t [] = inl refl
find_match-cases t (i ∷ is) = elim (Bool-cases (i == t)) [
  | inl e ↦ rw e (inr ([], is, refl, ap (λ x. x ∷ is) ((==_iff i t).0 e)))
  | inr e ↦ elim (find_match-cases t is) [
    | inl q ↦ rw (e, q) (inl refl)
    | inr (pre, post, q, s) ↦ rw (e, q) (inr (i ∷ pre, post, refl, ap (λ l. i ∷ l) s))
  ]
]

-- Behind `front` the old list is kept in order, whatever the outcome, and the new one is too
-- where the merge succeeds.
abbrev pub Keeps : List ℕ → List ℕ → List ℕ → Merged → Type 0
Keeps front os ns m =
    (r : List ℕ) × (m.old ≡ front ++ r) × Sub os r × (is_ok m.status ≡ true → Sub ns r)

-- The insertion is the last step.
Keeps-close :
    (front os ns : List ℕ) (p : Progress) → Extends front ns p → Keeps front os ns (close p os)
Keeps-close front os ns p (ys, q, all) = (
  ys ++ os,
  rw q (append_assoc front ys os),
  Sub-behind ys os,
  λ h. rw (all h) (Sub-before ns os),
)

Keeps-fail :
    (front os ns ms : List ℕ) (p : Progress)
    → Extends front ns p
    → is_ok p.status ≡ false
    → Keeps front os ms (close p os)
Keeps-fail front os ns ms p (ys, q, all) bad =
    (ys ++ os, rw q (append_assoc front ys os), Sub-behind ys os, λ h. cc)

-- The merge goes on behind an item `x` that both lists hold.
Keeps-step :
    (front gap pre_old pre_new os ns : List ℕ) (x : ℕ) (m : Merged)
    → Sub pre_old gap
    → Sub pre_new gap
    → Keeps (front ++ gap ++ x ∷ []) os ns m
    → Keeps front (pre_old ++ x ∷ os) (pre_new ++ x ∷ ns) m
Keeps-step front gap pre_old pre_new os ns x m s t (r, q, u, v) = (
  gap ++ x ∷ r,
  q ∙ append_assoc (front ++ gap) (x ∷ []) r ∙ append_assoc front gap (x ∷ r),
  Sub-append s (keep u),
  λ h. Sub-append t (keep (v h)),
)

-- The merge inserts what stands before the item that both lists hold, and goes on behind it.
Keeps-insert :
    (front xs os ns : List ℕ) (x : ℕ) (p : Progress) (next : Merged)
    → Extends front xs p
    → Keeps (p.front ++ x ∷ []) os ns next
    → Keeps front (x ∷ os) (xs ++ x ∷ ns) (if is_ok p.status then next else close p (x ∷ os))
Keeps-insert front xs os ns x p next (ys, q, all) k = elim (Bool-cases (is_ok p.status)) [
  | inl fine ↦ rw fine (
      Keeps-step front xs [] xs os ns x next (Sub-nil xs) (Sub-refl xs)
        (rw (sym (q ∙ ap (λ l. front ++ l) (all fine))) k))
  | inr bad ↦ rw bad (Keeps-fail front (x ∷ os) xs (xs ++ x ∷ ns) p (ys, q, all) bad)
]

pub post_shorter :
    (n o : ℕ) (ns pre post : List ℕ) (fuel : ℕ)
    → ns ≡ pre ++ o ∷ post
    → length (n ∷ ns) ≤ suc fuel
    → length post ≤ fuel
post_shorter n o ns pre post fuel s h = omega (arith, ap length s, length-append pre (o ∷ post))

overlap-Keeps :
    (fuel_out : Merged) (fuel : ℕ) (front os ns marks : List ℕ)
    → length ns ≤ fuel
    → Keeps front os ns (overlap fuel_out fuel front os ns marks)
unfolding overlap
overlap-Keeps fuel_out zero front os [] marks h = (os, refl, Sub-refl os, λ _. Sub-nil os)
overlap-Keeps fuel_out (suc fuel) front os [] marks h = (os, refl, Sub-refl os, λ _. Sub-nil os)
overlap-Keeps fuel_out zero front [] (n ∷ ns) marks h = absurd (omega arith)
overlap-Keeps fuel_out zero front (o ∷ os) (n ∷ ns) marks h = absurd (omega arith)
overlap-Keeps fuel_out (suc fuel) front [] (n ∷ ns) marks h =
    Keeps-close front [] (n ∷ ns) (insert_items front (n ∷ ns) marks)
      (insert_items-Extends (n ∷ ns) front marks)
overlap-Keeps fuel_out (suc fuel) front (o ∷ os) (n ∷ ns) marks h = elim (Bool-cases (n == o)) [
  | inl e ↦ rw e (
      rw ((==_iff n o).0 e) (
        Keeps-step front [] [] [] os ns o (overlap fuel_out fuel (front ++ o ∷ []) os ns marks) done
          done
          (rw (append_nil front)
            (overlap-Keeps fuel_out fuel (front ++ o ∷ []) os ns marks (omega arith)))))
  | inr e ↦ elim (find_match-cases o ns) [
    | inr (pre, post, q, s) ↦
        rw (e, q, s)
          (Keeps-insert front (n ∷ pre) os post o (insert_items front (n ∷ pre) marks)
            (overlap fuel_out fuel ((insert_items front (n ∷ pre) marks).front ++ o ∷ []) os post
              (insert_items front (n ∷ pre) marks).marks)
            (insert_items-Extends (n ∷ pre) front marks)
            (overlap-Keeps fuel_out fuel ((insert_items front (n ∷ pre) marks).front ++ o ∷ []) os
              post (insert_items front (n ∷ pre) marks).marks
              (post_shorter n o ns pre post fuel s h)))
    | inl q ↦ elim (find_match-cases n os) [
      | inr (pre, post, f, s) ↦
          rw (e, q, f, s)
            (Keeps-step front (o ∷ pre) (o ∷ pre) [] post ns n
              (overlap fuel_out fuel (front ++ (o ∷ pre) ++ n ∷ []) post ns marks)
              (Sub-refl (o ∷ pre)) (Sub-nil (o ∷ pre))
              (overlap-Keeps fuel_out fuel (front ++ (o ∷ pre) ++ n ∷ []) post ns marks
                (omega arith)))
      | inl f ↦ rw (e, q, f) (o ∷ os, refl, Sub-refl (o ∷ os), λ h. cc)
    ]
  ]
]

-- The first item of the new list that the old one holds splits both.
abbrev pub Splits : List ℕ → List ℕ → Match → Type 0
Splits old ns m =
    (old ≡ m.before_old ++ m.data_of ∷ m.after_old) × (ns ≡ m.before_new ++ m.data_of ∷ m.after_new)

pub first_match-cases :
    (old ns : List ℕ)
    → (first_match old ns ≡ none) ⊎ ((m : Match) × (first_match old ns ≡ some m) × Splits old ns m)
unfolding first_match
first_match-cases old [] = inl refl
first_match-cases old (n ∷ ns) = elim (find_match-cases n old) [
  | inr (pre, post, q, s) ↦
      rw (q, first_match)
        (inr (
          record {
            data_of = n;
            before_new = [];
            after_new = ns;
            before_old = pre;
            after_old = post;
          },
          refl,
          (s, refl),
        ))
  | inl q ↦ elim (first_match-cases old ns) [
    | inl none_left ↦ rw (q, none_left, first_match) (inl refl)
    | inr (m, e, (s, t)) ↦
        rw (q, e, first_match)
          (inr (record m { before_new = n ∷ m.before_new }, refl, (s, ap (λ l. n ∷ l) t)))
  ]
]

merge_from-Keeps :
    (fuel_out : Merged) (old ns marks : List ℕ) (d : ℕ) (bn an bo ao : List ℕ)
    → old ≡ bo ++ d ∷ ao
    → ns ≡ bn ++ d ∷ an
    → Keeps [] old ns (
        merge_from fuel_out old
          (record { data_of = d; before_new = bn; after_new = an; before_old = bo; after_old = ao })
          marks)
unfolding merge_from
merge_from-Keeps fuel_out old ns marks d [] an bo ao s t =
    rw (s, t)
      (Keeps-step [] bo bo [] ao an d (overlap fuel_out (length an) (bo ++ d ∷ []) ao an marks)
        (Sub-refl bo) (Sub-nil bo)
        (overlap-Keeps fuel_out (length an) (bo ++ d ∷ []) ao an marks (omega arith)))
merge_from-Keeps fuel_out old ns marks d (b ∷ bs) an [] ao s t =
    let p = insert_items [] (b ∷ bs) marks in
    rw (s, t)
      (Keeps-insert [] (b ∷ bs) ao an d p
        (overlap fuel_out (length an) (p.front ++ [] ++ d ∷ []) ao an p.marks)
        (insert_items-Extends (b ∷ bs) [] marks)
        (rw (append_nil p.front)
          (overlap-Keeps fuel_out (length an) (p.front ++ d ∷ []) ao an p.marks (omega arith))))
merge_from-Keeps fuel_out old ns marks d (b ∷ bs) an (c ∷ cs) ao s t =
    (old, refl, Sub-refl old, λ h. cc)

Keeps-Sub :
    (old ns : List ℕ) (m : Merged)
    → Keeps [] old ns m
    → Sub old m.old × (is_ok m.status ≡ true → Sub ns m.old)
Keeps-Sub old ns m (r, q, s, t) = rw q (s, t)

-- Whatever the outcome, the items of the old list stay in it in their order; where the merge
-- succeeds, the items of the new list are in it too, in their order.
pub merge-Sub :
    (fuel_out : Merged) (old new marks : List ℕ)
    → Sub old (merge fuel_out old new marks).old
      × (is_ok (merge fuel_out old new marks).status ≡ true
          → Sub new (merge fuel_out old new marks).old)
unfolding merge
merge-Sub fuel_out old [] marks = (Sub-refl old, λ _. Sub-nil old)
merge-Sub fuel_out [] (n ∷ ns) marks =
    Keeps-Sub [] (n ∷ ns) (close (insert_items [] (n ∷ ns) marks) []) (
      Keeps-close [] [] (n ∷ ns) (insert_items [] (n ∷ ns) marks)
        (insert_items-Extends (n ∷ ns) [] marks))
merge-Sub fuel_out (o ∷ os) (n ∷ ns) marks = elim (first_match-cases (o ∷ os) (n ∷ ns)) [
  | inl q ↦ rw (q, merge) (Sub-refl (o ∷ os), λ h. cc)
  | inr (m, q, s) ↦
      rw (q, merge)
        (Keeps-Sub (o ∷ os) (n ∷ ns) (merge_from fuel_out (o ∷ os) m marks) (
          merge_from-Keeps fuel_out (o ∷ os) (n ∷ ns) marks m.data_of m.before_new m.after_new
            m.before_old m.after_old s.0 s.1))
]
