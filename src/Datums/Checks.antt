-- ===== src/Datums/Checks.antt =====
-- What the checks accept.
use cil.Base.{
  clash, ℕ, ◌≡◌, ◌≢◌, ◌↔◌, inl, inr, refl, List, [], ◌∷◌, none, some, Bool, true, false, ◌==◌,
  ==_iff, Bool-cases, Status-cases, sepol_ok, sepol_err,
}
use cil.Expr.{Item, Items, op, operand, string, datum, list, end, item}
use cil.Datums.{
  verify_no_self_reference, refers_to, has_two, ranges_from, verify_ranges, initsids_from,
  verify_initsids,
}

-- The declaration stands nowhere in the list, nor in a list in it.
abbrev mutual
  pub Nowhere : ℕ → Items ℕ → Type 0
  Nowhere d end = Unit
  Nowhere d (item i is) = NotIn d i × Nowhere d is

  pub NotIn : ℕ → Item ℕ → Type 0
  NotIn d (datum e) = e ≢ d
  NotIn d (list f is) = Nowhere d is
  NotIn d (op o) = Unit
  NotIn d (operand o) = Unit
  NotIn d (string t) = Unit

abbrev pub OnlyPairs : Items ℕ → Type 0
OnlyPairs end = Unit
OnlyPairs (item (list f range) is) = (has_two range ≡ true) × OnlyPairs is
OnlyPairs (item _ is) = OnlyPairs is

-- There is a sid, and each has a context.
abbrev pub AllTrue : List Bool → Type 0
AllTrue [] = Unit
AllTrue (b ∷ bs) = (b ≡ true) × AllTrue bs

mutual
  unfolding verify_no_self_reference

  list-Nowhere : (d : ℕ) (is : Items ℕ) → (verify_no_self_reference d is ≡ sepol_ok) ↔ Nowhere d is
  list-Nowhere d end = (λ h. tt, λ h. refl)
  list-Nowhere d (item i is) =
      let (a, b) = list-Nowhere d is in
      let (f, g) = item-NotIn d i in
      elim (Status-cases (refers_to d i)) [
        | inl fine ↦ rw fine (λ h. (f fine, a h), λ h. b h.1)
        | inr (bad, ne) ↦ rw bad (λ h. cc, λ h. absurd (ne (g h.0)))
      ]

  item-NotIn : (d : ℕ) (i : Item ℕ) → (refers_to d i ≡ sepol_ok) ↔ NotIn d i
  item-NotIn d (datum e) = elim (Bool-cases (e == d)) [
    | inl same_one ↦ rw same_one (λ h. cc, λ h. absurd (h ((==_iff e d).0 same_one)))
    | inr other ↦ rw other (λ h q. clash (e == d) ((==_iff e d).1 q) other, λ h. refl)
  ]
  item-NotIn d (list f is) = list-Nowhere d is
  item-NotIn d (op o) = (λ h. tt, λ h. refl)
  item-NotIn d (operand o) = (λ h. tt, λ h. refl)
  item-NotIn d (string t) = (λ h. tt, λ h. refl)

-- A list of data passes exactly where the declaration stands nowhere in it, at any depth.
pub verify_no_self_reference-Nowhere :
    (d : ℕ) (is : Items ℕ) → (verify_no_self_reference d is ≡ sepol_ok) ↔ Nowhere d is
verify_no_self_reference-Nowhere d is = list-Nowhere d is

ranges_from-OnlyPairs : (is : Items ℕ) → (ranges_from is ≡ sepol_ok) ↔ OnlyPairs is
unfolding ranges_from
ranges_from-OnlyPairs end = (λ h. tt, λ h. refl)
ranges_from-OnlyPairs (item (list f range) is) =
    let (a, b) = ranges_from-OnlyPairs is in
    elim (Bool-cases (has_two range)) [
      | inl e ↦ rw e (λ h. (refl, a h), λ h. b h.1)
      | inr e ↦ rw e (λ h. cc, λ h. cc)
    ]
ranges_from-OnlyPairs (item (datum e) is) = ranges_from-OnlyPairs is
ranges_from-OnlyPairs (item (op e) is) = ranges_from-OnlyPairs is
ranges_from-OnlyPairs (item (operand e) is) = ranges_from-OnlyPairs is
ranges_from-OnlyPairs (item (string e) is) = ranges_from-OnlyPairs is

initsids_err : (bs : List Bool) → initsids_from sepol_err bs ≡ sepol_err
unfolding initsids_from
initsids_err [] = refl
initsids_err (b ∷ bs) = elim (Bool-cases b) [
  | inl e ↦ rw e (initsids_err bs)
  | inr e ↦ rw e (initsids_err bs)
]

initsids_from-AllTrue : (bs : List Bool) → (initsids_from sepol_ok bs ≡ sepol_ok) ↔ AllTrue bs
unfolding initsids_from
initsids_from-AllTrue [] = (λ h. tt, λ h. refl)
initsids_from-AllTrue (true ∷ bs) =
    let (a, b) = initsids_from-AllTrue bs in (λ h. (refl, a h), λ h. b h.1)
initsids_from-AllTrue (false ∷ bs) = rw (initsids_err bs) (λ h. cc, λ h. cc)

-- A list of ranges passes exactly where it is there, is not empty, and has in each of its lists
-- two items; a list of initial sids exactly where it is not empty and each sid has a context.
pub verify_ranges-OnlyPairs :
    (i : Item ℕ) (is : Items ℕ) (sids : List Bool)
    → ((verify_ranges (some (item i is)) ≡ sepol_ok) ↔ OnlyPairs (item i is))
      × (verify_ranges (some end) ≡ sepol_err)
      × (verify_ranges none ≡ sepol_err)
      × ((verify_initsids sids ≡ sepol_ok) ↔ ((sids ≢ []) × AllTrue sids))
unfolding verify_ranges verify_initsids
verify_ranges-OnlyPairs i is [] =
    (ranges_from-OnlyPairs (item i is), refl, refl, (λ h. cc, λ h. absurd (h.0 refl)))
verify_ranges-OnlyPairs i is (b ∷ sids) =
    let (f, g) = initsids_from-AllTrue (b ∷ sids) in
    (ranges_from-OnlyPairs (item i is), refl, refl, (λ h. (λ q. cc, f h), λ h. g h.1))
