-- ===== src/Levels/Dominance.antt =====
-- What makes a range of levels a good one.
use cil.Base.{
  clash, ℕ, ◌≡◌, ◌⊎◌, ◌↔◌, inl, inr, refl, sym, List, [], ◌∷◌, Option, none, some, Bool, true,
  false, ◌==◌, ==_iff, if◌then◌else◌, Bool-cases, Status, sepol_ok, sepol_err, sepol_enoent,
  sepol_eexist,
}
use mathlib.Core.Path.{subst}
use cil.Levels.{
  Cats, Sens, LevelRange, is_cat_in_cats, verify_cat_in_cats, in_some_cats, all_associated,
  verify_cats_associated_with_sens, dominates_from, verify_levelrange_sensitivity, all_in_cats,
  verify_levelrange_cats, then_check, verify_levelrange,
}

abbrev pub In : ℕ → List ℕ → Type 0
In x [] = ⊥
In x (y ∷ ys) = (y ≡ x) ⊎ In x ys

abbrev pub InSome : ℕ → List Cats → Type 0
InSome x [] = ⊥
InSome x (ys ∷ yss) = In x ys ⊎ InSome x yss

abbrev pub AllIn : Cats → Cats → Type 0
AllIn [] high = Unit
AllIn (c ∷ cs) high = In c high × AllIn cs high

abbrev pub AllInSome : Cats → List Cats → Type 0
AllInSome [] css = Unit
AllInSome (c ∷ cs) css = InSome c css × AllInSome cs css

-- `low` stands in the order, and `high` is there or behind it.
abbrev pub Dominates : List ℕ → ℕ → ℕ → Type 0
Dominates [] low high = ⊥
Dominates (x ∷ xs) low high = ((x ≡ low) × In high (x ∷ xs)) ⊎ Dominates xs low high

abbrev pub IsSubset : Option Cats → Option Cats → Type 0
IsSubset none high = Unit
IsSubset (some low) none = ⊥
IsSubset (some low) (some high) = AllIn low high

abbrev pub IsAssociated : Sens → Option Cats → Type 0
IsAssociated sens none = Unit
IsAssociated sens (some cats) = (css : List Cats) × (sens.cats_list ≡ some css) × AllInSome cats css

either_true : (b : Bool) → (if b then true else true) ≡ true
either_true true = refl
either_true false = refl

is_cat-In : (x : ℕ) (ys : Cats) → (is_cat_in_cats x ys ≡ true) ↔ In x ys
unfolding is_cat_in_cats
is_cat-In x [] = (λ h. cc, λ h. absurd h)
is_cat-In x (y ∷ ys) =
    let (a, b) = is_cat-In x ys in
    elim (Bool-cases (y == x)) [
      | inl e ↦ rw e (λ h. inl ((==_iff y x).0 e), λ h. refl)
      | inr e ↦ rw e (
        λ h. inr (a h),
        λ h. elim h [ inl q ↦ absurd (clash (y == x) ((==_iff y x).1 q) e) | inr k ↦ b k ],
      )
    ]

in_some_cats-InSome : (x : ℕ) (yss : List Cats) → (in_some_cats x yss ≡ true) ↔ InSome x yss
unfolding in_some_cats
in_some_cats-InSome x [] = (λ h. cc, λ h. absurd h)
in_some_cats-InSome x (ys ∷ yss) =
    let (a, b) = in_some_cats-InSome x yss in
    let (f, g) = is_cat-In x ys in
    elim (Bool-cases (is_cat_in_cats x ys)) [
      | inl e ↦ rw e (λ h. inl (f e), λ h. refl)
      | inr e ↦ rw e (
        λ h. inr (a h),
        λ h. elim h [ inl q ↦ absurd (clash (is_cat_in_cats x ys) (g q) e) | inr k ↦ b k ],
      )
    ]

dominates_from-In :
    (xs : List ℕ) (low high : ℕ) → (dominates_from true xs low high ≡ true) ↔ In high xs
unfolding dominates_from
dominates_from-In [] low high = (λ h. cc, λ h. absurd h)
dominates_from-In (x ∷ xs) low high =
    let (a, b) = dominates_from-In xs low high in
    elim (Bool-cases (x == high)) [
      | inl e ↦ rw (either_true (x == low), e) (λ h. inl ((==_iff x high).0 e), λ h. refl)
      | inr e ↦
          rw (either_true (x == low), e)
            (
              λ h. inr (a h),
              λ h. elim h [
                | inl q ↦ absurd (clash (x == high) ((==_iff x high).1 q) e)
                | inr k ↦ b k
              ],
            )
    ]

Dominates-In : (xs : List ℕ) (low high : ℕ) → Dominates xs low high → In high xs
Dominates-In [] low high h = absurd h
Dominates-In (x ∷ xs) low high (inl h) = h.1
Dominates-In (x ∷ xs) low high (inr h) = inr (Dominates-In xs low high h)

dominates_from-Dominates :
    (xs : List ℕ) (low high : ℕ) → (dominates_from false xs low high ≡ true) ↔ Dominates xs low high
unfolding dominates_from
dominates_from-Dominates [] low high = (λ h. cc, λ h. absurd h)
dominates_from-Dominates (x ∷ xs) low high =
    let (a, b) = dominates_from-Dominates xs low high in
    let (f, g) = dominates_from-In xs low high in
    elim (Bool-cases (x == low)) [
      | inr e ↦ rw e (
        λ h. inr (a h),
        λ h. elim h [ inl q ↦ absurd (clash (x == low) ((==_iff x low).1 q.0) e) | inr k ↦ b k ],
      )
      | inl e ↦ elim (Bool-cases (x == high)) [
        | inl i ↦ rw (e, i) (λ h. inl ((==_iff x low).0 e, inl ((==_iff x high).0 i)), λ h. refl)
        | inr i ↦
            rw (e, i)
              (
                λ h. inl ((==_iff x low).0 e, inr (f h)),
                λ h. elim h [
                  | inl q ↦ elim q.1 [
                    | inl r ↦ absurd (clash (x == high) ((==_iff x high).1 r) i)
                    | inr r ↦ g r
                  ]
                  | inr k ↦ g (Dominates-In xs low high k)
                ],
              )
      ]
    ]

all_in_cats-AllIn : (low high : Cats) → (all_in_cats low high ≡ sepol_ok) ↔ AllIn low high
unfolding all_in_cats verify_cat_in_cats
all_in_cats-AllIn [] high = (λ h. tt, λ h. refl)
all_in_cats-AllIn (c ∷ cs) high =
    let (a, b) = all_in_cats-AllIn cs high in
    let (f, g) = is_cat-In c high in
    elim (Bool-cases (is_cat_in_cats c high)) [
      | inl e ↦ rw e (λ h. (f e, a h), λ h. b h.1)
      | inr e ↦ rw e (λ h. cc, λ h. absurd (clash (is_cat_in_cats c high) (g h.0) e))
    ]

associated_err : (cs : Cats) (css : List Cats) → all_associated sepol_err cs css ≡ sepol_err
unfolding all_associated
associated_err [] css = refl
associated_err (c ∷ cs) css = elim (Bool-cases (in_some_cats c css)) [
  | inl e ↦ rw e (associated_err cs css)
  | inr e ↦ rw e (associated_err cs css)
]

associated-AllInSome :
    (cs : Cats) (css : List Cats) → (all_associated sepol_ok cs css ≡ sepol_ok) ↔ AllInSome cs css
unfolding all_associated
associated-AllInSome [] css = (λ h. tt, λ h. refl)
associated-AllInSome (c ∷ cs) css =
    let (a, b) = associated-AllInSome cs css in
    let (f, g) = in_some_cats-InSome c css in
    elim (Bool-cases (in_some_cats c css)) [
      | inl e ↦ rw e (λ h. (f e, a h), λ h. b h.1)
      | inr e ↦
          rw (e, associated_err cs css)
            (λ h. cc, λ h. absurd (clash (in_some_cats c css) (g h.0) e))
    ]

some_same : (a b : List Cats) → some a ≡ some b → a ≡ b
some_same a b h = cc

list-AllInSome :
    (o : Option (List Cats)) (cats : Cats)
    → (elim o as (λ _. Status) [ none ↦ sepol_err | some css ↦ all_associated sepol_ok cats css ]
        ≡ sepol_ok)
      ↔ ((css : List Cats) × (o ≡ some css) × AllInSome cats css)
list-AllInSome none cats = (λ h. cc, λ (css, q, h). cc)
list-AllInSome (some css) cats =
    let (a, b) = associated-AllInSome cats css in
    (λ h. (css, refl, a h), λ (ds, q, h). b (subst (AllInSome cats) (sym (some_same css ds q)) h))

sens-IsAssociated :
    (sens : Sens) (cats : Option Cats)
    → (verify_cats_associated_with_sens sens cats ≡ sepol_ok) ↔ IsAssociated sens cats
unfolding verify_cats_associated_with_sens
sens-IsAssociated sens none = (λ h. tt, λ h. refl)
sens-IsAssociated sens (some cats) = list-AllInSome sens.cats_list cats

cats-IsSubset :
    (low high : Option Cats) → (verify_levelrange_cats low high ≡ sepol_ok) ↔ IsSubset low high
unfolding verify_levelrange_cats
cats-IsSubset none high = (λ h. tt, λ h. refl)
cats-IsSubset (some low) none = (λ h. cc, λ h. absurd h)
cats-IsSubset (some low) (some high) = all_in_cats-AllIn low high

sensitivity-Dominates :
    (order : List ℕ) (low high : Sens)
    → (verify_levelrange_sensitivity order low high ≡ sepol_ok) ↔ Dominates order low.addr high.addr
unfolding verify_levelrange_sensitivity
sensitivity-Dominates order low high =
    let (a, b) = dominates_from-Dominates order low.addr high.addr in
    elim (Bool-cases (dominates_from false order low.addr high.addr)) [
      | inl e ↦ rw e (λ h. a e, λ h. refl)
      | inr e ↦
          rw e
            (λ h. cc, λ h. absurd (clash (dominates_from false order low.addr high.addr) (b h) e))
    ]

then_check-ok : (r s : Status) → (then_check r s ≡ sepol_ok) ↔ ((r ≡ sepol_ok) × (s ≡ sepol_ok))
then_check-ok sepol_ok s = (λ h. (refl, h), λ h. h.1)
then_check-ok sepol_err s = (λ h. cc, λ h. cc)
then_check-ok sepol_enoent s = (λ h. cc, λ h. cc)
then_check-ok sepol_eexist s = (λ h. cc, λ h. cc)

four_checks :
    (r s t u : Status)
    → (then_check r (then_check s (then_check t u)) ≡ sepol_ok)
      ↔ ((r ≡ sepol_ok) × (s ≡ sepol_ok) × (t ≡ sepol_ok) × (u ≡ sepol_ok))
four_checks r s t u =
    let (a, b) = then_check-ok r (then_check s (then_check t u)) in
    let (c, d) = then_check-ok s (then_check t u) in
    let (e, f) = then_check-ok t u in
    (
      λ h. let (p, q) = a h in let (v, w) = c q in let (x, y) = e w in (p, v, x, y),
      λ (p, v, x, y). b (p, d (v, f (x, y))),
    )

-- A range of levels is accepted exactly where the high sensitivity is the low one or behind it in
-- the order, the low categories are a subset of the high ones, and the categories of each level may
-- be used with its sensitivity.
pub verify_levelrange-Dominates :
    (order : List ℕ) (lr : LevelRange)
    → (verify_levelrange order lr ≡ sepol_ok) ↔ (
        Dominates order lr.low.sens.addr lr.high.sens.addr
        × IsSubset lr.low.cats lr.high.cats
        × IsAssociated lr.low.sens lr.low.cats
        × IsAssociated lr.high.sens lr.high.cats)
unfolding verify_levelrange
verify_levelrange-Dominates order lr =
    let (a, b) = sensitivity-Dominates order lr.low.sens lr.high.sens in
    let (c, d) = cats-IsSubset lr.low.cats lr.high.cats in
    let (e, f) = sens-IsAssociated lr.low.sens lr.low.cats in
    let (g, h) = sens-IsAssociated lr.high.sens lr.high.cats in
    let (i, j) =
      four_checks (verify_levelrange_sensitivity order lr.low.sens lr.high.sens)
        (verify_levelrange_cats lr.low.cats lr.high.cats)
        (verify_cats_associated_with_sens lr.low.sens lr.low.cats)
        (verify_cats_associated_with_sens lr.high.sens lr.high.cats) in
    (λ k. let (p, v, x, y) = i k in (a p, c v, e x, g y), λ (p, v, x, y). j (b p, d v, f x, h y))
