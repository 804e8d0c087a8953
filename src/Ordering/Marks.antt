-- ===== src/Ordering/Marks.antt =====
-- One merge: the marks of the declarations, and how often an item stands in the list.
use cil.Base.{
  append_assoc, append_nil, ℕ, zero, suc, ◌+◌, ◌≤◌, ◌≡◌, inl, inr, refl, sym, ap, List, [], ◌∷◌,
  ◌++◌, Bool, true, false, ◌==◌, ==_iff, arith, Bool-cases, if◌then◌else◌, length, is_ok,
}
use cil.Ordering.{has, insert_items, Merged, close, overlap, merge_from, merge}
use cil.Ordering.Merge.{find_match-cases, post_shorter, first_match-cases}

abbrev pub bit : Bool → ℕ
bit true = 1
bit false = 0

-- How often an item stands in a list.
unfoldable pub count : ℕ → List ℕ → ℕ
count x [] = 0
count x (y ∷ ys) = bit (x == y) + count x ys

-- No item stands in the list twice, and those in it are the ones that are marked.
abbrev pub IsMarked : List ℕ → List ℕ → Type 0
IsMarked old marks = (x : ℕ) → count x old ≡ bit (has x marks)

count-append : (x : ℕ) (xs ys : List ℕ) → count x (xs ++ ys) ≡ count x xs + count x ys
unfolding count
count-append x [] ys = omega arith
count-append x (y ∷ xs) ys = omega (arith, count-append x xs ys)

count-snoc : (x : ℕ) (xs : List ℕ) (y : ℕ) → count x (xs ++ y ∷ []) ≡ count x xs + bit (x == y)
unfolding count
count-snoc x xs y = omega (arith, count-append x xs (y ∷ []))

mark_one :
    (x y : ℕ) (marks : List ℕ)
    → has y marks ≡ false
    → bit (has x (y ∷ marks)) ≡ bit (x == y) + bit (has x marks)
unfolding has
mark_one x y marks e = elim (Bool-cases (x == y)) [
  | inl q ↦ rw (q, (==_iff x y).0 q, e)
  | inr q ↦ rw q (omega arith)
]

-- An item gains a place exactly where it gains the mark.
insert_items-count :
    (x : ℕ) (xs front marks : List ℕ)
    → count x (insert_items front xs marks).front + bit (has x marks)
      ≡ count x front + bit (has x (insert_items front xs marks).marks)
unfolding insert_items
insert_items-count x [] front marks = refl
insert_items-count x (y ∷ xs) front marks = elim (Bool-cases (has y marks)) [
  | inl e ↦ rw e refl
  | inr e ↦ rw e (
      omega (
        arith,
        insert_items-count x xs (front ++ y ∷ []) (y ∷ marks),
        count-snoc x front y,
        mark_one x y marks e,
      ))
]

-- What the list `old` gains in places, it gains in marks.
abbrev pub Balanced : List ℕ → List ℕ → Merged → Type 0
Balanced old marks m =
    (x : ℕ) → count x m.old + bit (has x marks) ≡ count x old + bit (has x m.marks)

close-Balanced :
    (front xs rest marks : List ℕ)
    → Balanced (front ++ rest) marks (close (insert_items front xs marks) rest)
close-Balanced front xs rest marks x = omega (
  arith,
  insert_items-count x xs front marks,
  count-append x front rest,
  count-append x (insert_items front xs marks).front rest,
)

insert-Balanced :
    (front xs os marks : List ℕ) (x : ℕ) (next : Merged)
    → Balanced
        (((insert_items front xs marks).front ++ x ∷ []) ++ os)
        (insert_items front xs marks).marks
        next
    → Balanced (front ++ x ∷ os) marks (
        if is_ok (insert_items front xs marks).status
        then next
        else close (insert_items front xs marks) (x ∷ os))
insert-Balanced front xs os marks x next h =
    elim (Bool-cases (is_ok (insert_items front xs marks).status)) [
      | inl fine ↦ rw fine (λ y. omega (
        arith,
        h y,
        insert_items-count y xs front marks,
        count-append y (insert_items front xs marks).front (x ∷ os),
        count-append y front (x ∷ os),
        ap (count y) (append_assoc (insert_items front xs marks).front (x ∷ []) os),
      ))
      | inr bad ↦ rw bad (close-Balanced front xs (x ∷ os) marks)
    ]

overlap-Balanced :
    (fuel_out : Merged) (fuel : ℕ) (front os ns marks : List ℕ)
    → length ns ≤ fuel
    → Balanced (front ++ os) marks (overlap fuel_out fuel front os ns marks)
unfolding overlap
overlap-Balanced fuel_out zero front os [] marks h = λ x. refl
overlap-Balanced fuel_out (suc fuel) front os [] marks h = λ x. refl
overlap-Balanced fuel_out zero front os (n ∷ ns) marks h = absurd (omega arith)
overlap-Balanced fuel_out (suc fuel) front [] (n ∷ ns) marks h =
    close-Balanced front (n ∷ ns) [] marks
overlap-Balanced fuel_out (suc fuel) front (o ∷ os) (n ∷ ns) marks h = elim (Bool-cases (n == o)) [
  | inl e ↦
      rw (e, sym (append_assoc front (o ∷ []) os))
        (overlap-Balanced fuel_out fuel (front ++ o ∷ []) os ns marks (omega arith))
  | inr e ↦ elim (find_match-cases o ns) [
    | inr (pre, post, q, s) ↦
        let p = insert_items front (n ∷ pre) marks in
        rw (e, q)
          (insert-Balanced front (n ∷ pre) os marks o
            (overlap fuel_out fuel (p.front ++ o ∷ []) os post p.marks)
            (overlap-Balanced fuel_out fuel (p.front ++ o ∷ []) os post p.marks
              (post_shorter n o ns pre post fuel s h)))
    | inl q ↦ elim (find_match-cases n os) [
      | inr (pre, post, f, s) ↦
          rw
            (
              e,
              q,
              f,
              s,
              sym (append_assoc front (o ∷ pre) (n ∷ post)),
              sym (append_assoc (front ++ (o ∷ pre)) (n ∷ []) post),
            )
            (overlap-Balanced fuel_out fuel (front ++ (o ∷ pre) ++ n ∷ []) post ns marks
              (omega arith))
      | inl f ↦ rw (e, q, f) (λ x. refl)
    ]
  ]
]

merge_from-Balanced :
    (fuel_out : Merged) (old marks : List ℕ) (d : ℕ) (bn an bo ao : List ℕ)
    → old ≡ bo ++ d ∷ ao
    → Balanced old marks (
        merge_from fuel_out old
          (record { data_of = d; before_new = bn; after_new = an; before_old = bo; after_old = ao })
          marks)
unfolding merge_from
merge_from-Balanced fuel_out old marks d [] an bo ao s =
    rw (s, sym (append_assoc bo (d ∷ []) ao))
      (overlap-Balanced fuel_out (length an) (bo ++ d ∷ []) ao an marks (omega arith))
merge_from-Balanced fuel_out old marks d (b ∷ bs) an [] ao s =
    let p = insert_items [] (b ∷ bs) marks in
    rw s (
      insert-Balanced [] (b ∷ bs) ao marks d
        (overlap fuel_out (length an) (p.front ++ [] ++ d ∷ []) ao an p.marks)
        (rw (append_nil p.front)
          (overlap-Balanced fuel_out (length an) (p.front ++ d ∷ []) ao an p.marks (omega arith))))
merge_from-Balanced fuel_out old marks d (b ∷ bs) an (c ∷ cs) ao s = λ x. refl

merge-Balanced :
    (fuel_out : Merged) (old new marks : List ℕ) → Balanced old marks (merge fuel_out old new marks)
unfolding merge
merge-Balanced fuel_out old [] marks = λ x. refl
merge-Balanced fuel_out [] (n ∷ ns) marks = close-Balanced [] (n ∷ ns) [] marks
merge-Balanced fuel_out (o ∷ os) (n ∷ ns) marks = elim (first_match-cases (o ∷ os) (n ∷ ns)) [
  | inl q ↦ rw (q, merge) (λ x. refl)
  | inr (m, q, s) ↦
      rw (q, merge)
        (merge_from-Balanced fuel_out (o ∷ os) marks m.data_of m.before_new m.after_new m.before_old
          m.after_old s.0)
]

-- A merge keeps, on every outcome, that no item stands in the list twice and that the items in it
-- are exactly those that are marked as ordered.
pub merge-IsMarked :
    (fuel_out : Merged) (old new marks : List ℕ)
    → IsMarked old marks
    → IsMarked (merge fuel_out old new marks).old (merge fuel_out old new marks).marks
merge-IsMarked fuel_out old new marks h x =
    omega (arith, merge-Balanced fuel_out old new marks x, h x)
