-- ===== src/Aliases/Chains.antt =====
-- Where a chain of aliases leads.
use cil.Base.{
  ℕ, zero, suc, ◌+◌, ◌*◌, ◌-◌, ◌≤◌, ◌<◌, ◌≡◌, ◌≢◌, refl, sym, ◌∙◌, ap, inl, inr, some, Bool, true,
  false, ◌==◌, if◌then◌else◌, Bool-cases, arith, ==_iff, ltb, clash,
}
use mathlib.Core.Path.{subst}
use cil.Aliases.{Actuals, reached, circular, follow, bound, alias_error, resolve_alias_to_actual}

plus_zero : (a : ℕ) → a + 0 ≡ a
plus_zero a = omega arith

plus_suc : (a i : ℕ) → a + suc i ≡ a + i + 1
plus_suc a i = omega arith

plus_next : (a i : ℕ) → a + (i + 1) ≡ a + i + 1
plus_next a i = omega arith

some_value : {a b : ℕ} → some a ≡ some b → a ≡ b
some_value p = cc

lt_of_ltb : (a b : ℕ) → ltb a b ≡ true → a < b
lt_of_ltb a b h = ground arith

le_of_ltb : (a b : ℕ) → ltb a b ≡ false → b ≤ a
le_of_ltb a b h = ground arith

omega_eq : (a n : ℕ) → a ≤ n → n ≤ a → a ≡ n
omega_eq a n p q = omega (arith, p, q)

apart_eq : (a b : ℕ) → a ≢ b → (a == b) ≡ false
apart_eq a b apart = ground (arith, apart)

sum_to : (s steps lam : ℕ) → steps + 1 ≡ lam → s + steps + 1 ≡ s + lam
sum_to s steps lam e = omega (arith, e)

next_room : (steps limit : ℕ) → steps < limit → (steps + 1 == limit) ≡ false → steps + 1 < limit
next_room steps limit less room = ground (arith, less)

-- `f` numbers the data of the chain. First a chain that comes to an end at n.
module _ (is_actual : ℕ → Bool) (actual : Actuals) (f : ℕ → ℕ) where
  module _ (n : ℕ) (steps_on : (i : ℕ) → i < n → actual (f i) ≡ some (f (i + 1)))
      (before : (i : ℕ) → i < n → is_actual (f i) ≡ false) (at_end : is_actual (f n) ≡ true) where
    same_next : (a b : ℕ) → a < n → b < n → f a ≡ f b → f (a + 1) ≡ f (b + 1)
    same_next a b small small' same =
        some_value (sym (steps_on a small) ∙ ap actual same ∙ steps_on b small')

    same_on : (a b i : ℕ) → a < b → f a ≡ f b → b + i ≤ n → f (a + i) ≡ f (b + i)
    same_on a b zero less same enough = ap f (plus_zero a) ∙ same ∙ sym (ap f (plus_zero b))
    same_on a b (suc i) less same enough =
        ap f (plus_suc a i)
        ∙ same_next (a + i) (b + i) (omega (arith, less, enough)) (omega (arith, enough))
            (same_on a b i less same (omega (arith, enough)))
        ∙ sym (ap f (plus_suc b i))

    up_to : (b : ℕ) → b ≤ n → b + (n - b) ≡ n
    up_to b enough = omega (arith, enough)

    -- No datum stands in the chain twice.
    no_repeat : (a b : ℕ) → a < b → b ≤ n → f b ≢ f a
    no_repeat a b less enough same =
        let i = n - b in
        let again = same_on a b i less (sym same) (omega (arith, enough)) in
        clash (is_actual (f (a + i))) (ap is_actual (again ∙ ap f (up_to b enough)) ∙ at_end)
          (before (a + i) (omega (arith, less, enough)))

    reaches :
        (fuel s steps limit : ℕ)
        → s + steps ≤ n
        → n < fuel + (s + steps)
        → follow is_actual actual fuel (f (s + steps)) (f s) steps limit ≡ some (reached (f n))
    unfolding follow
    reaches zero s steps limit within enough = absurd (omega (arith, within, enough))
    reaches (suc fuel) s steps limit within enough =
        let at = s + steps in
        elim (Bool-cases (ltb at n)) [
          | inr over ↦
              let same = ap f (omega_eq at n within (le_of_ltb at n over)) in
              rw (ap is_actual same ∙ at_end) (ap (λ b. some (reached b)) same)
          | inl more ↦
              let small = lt_of_ltb at n more in
              let fresh =
                apart_eq (f (at + 1)) (f s)
                  (no_repeat s (at + 1) (omega arith) (omega (arith, small))) in
              elim (Bool-cases (steps + 1 == limit)) [
                | inl full ↦
                    rw (before at small, steps_on at small, fresh, full)
                      (subst
                        (λ b.
                          follow is_actual actual fuel b (f (at + 1)) 0 (limit * 2)
                          ≡ some (reached (f n)))
                        (ap f (plus_zero (at + 1)))
                        (reaches fuel (at + 1) 0 (limit * 2) (omega (arith, small))
                          (omega (arith, enough))))
                | inr room ↦
                    rw (before at small, steps_on at small, fresh, room)
                      (subst
                        (λ b.
                          follow is_actual actual fuel b (f s) (steps + 1) limit
                          ≡ some (reached (f n)))
                        (ap f (plus_next s steps))
                        (reaches fuel s (steps + 1) limit (omega (arith, small))
                          (omega (arith, enough))))
              ]
        ]

  -- Now a chain that goes round: from mu on, every lam steps.
  module _ (mu lam : ℕ) (some_lam : 0 < lam) (round : (i : ℕ) → mu ≤ i → f (i + lam) ≡ f i)
      (on : (i : ℕ) → actual (f i) ≡ some (f (i + 1)))
      (never : (i : ℕ) → is_actual (f i) ≡ false) where
    abbrev enough_limit : ℕ
    enough_limit = mu + lam + 2

    -- Behind mu, and with a limit of lam at least, the counter does not get to lam.
    below_lam :
        (s steps limit : ℕ)
        → s + 2 ≡ limit
        → (f (s + steps + 1) == f s) ≡ false
        → enough_limit ≤ limit
        → steps < lam
        → steps + 1 < lam
    below_lam s steps limit e unseen large less = elim (Bool-cases (steps + 1 == lam)) [
      | inr apart ↦ ground (arith, less)
      | inl full ↦
          let same = (==_iff (steps + 1) lam).0 full in
          let again = ap f (sum_to s steps lam same) ∙ round s (omega (arith, large, e)) in
          absurd
            (clash (f (s + steps + 1) == f s) ((==_iff (f (s + steps + 1)) (f s)).1 again) unseen)
    ]

    doubled :
        (steps limit : ℕ)
        → steps + 1 ≡ limit
        → (enough_limit ≤ limit → steps < lam)
        → limit * 2 < enough_limit * 2
    doubled steps limit last late = elim (Bool-cases (ltb limit enough_limit)) [
      | inl less ↦ omega (arith, lt_of_ltb limit enough_limit less)
      | inr more ↦ absurd (
          omega (
            arith,
            late (le_of_ltb limit enough_limit more),
            last,
            le_of_ltb limit enough_limit more,
          ))
    ]

    goes_round :
        (fuel s steps limit : ℕ)
        → s + 2 ≡ limit
        → limit < enough_limit * 2
        → steps < limit
        → (enough_limit ≤ limit → steps < lam)
        → enough_limit * 4 ≤ fuel + (s + steps)
        → follow is_actual actual fuel (f (s + steps)) (f s) steps limit ≡ some circular
    unfolding follow
    goes_round zero s steps limit e small less late enough =
        absurd (omega (arith, e, small, less, enough))
    goes_round (suc fuel) s steps limit e small less late enough =
        let at = s + steps in
        elim (Bool-cases (f (at + 1) == f s)) [
          | inl seen ↦ rw (never at, on at, seen) refl
          | inr unseen ↦ elim (Bool-cases (steps + 1 == limit)) [
            | inl full ↦
                let last = (==_iff (steps + 1) limit).0 full in
                rw (never at, on at, unseen, full)
                  (subst
                    (λ b. follow is_actual actual fuel b (f (at + 1)) 0 (limit * 2) ≡ some circular)
                    (ap f (plus_zero (at + 1)))
                    (goes_round fuel (at + 1) 0 (limit * 2) (omega (arith, e, last))
                      (doubled steps limit last late) (omega (arith, less)) (λ _. some_lam)
                      (omega (arith, enough))))
            | inr room ↦
                rw (never at, on at, unseen, room)
                  (subst
                    (λ b. follow is_actual actual fuel b (f s) (steps + 1) limit ≡ some circular)
                    (ap f (plus_next s steps))
                    (goes_round fuel s (steps + 1) limit e small (next_room steps limit less room)
                      (λ large. below_lam s steps limit e unseen large (late large))
                      (omega (arith, enough))))
          ]
        ]

-- An alias whose chain f 0, f 1, … of aliases gets at step n, and not before, to a datum of the flavor
-- is bound to that datum, and no other alias changes; a fuel of more than n is enough.
pub resolve_alias_to_actual-reached :
    (is_actual : ℕ → Bool) (actual : Actuals) (f : ℕ → ℕ) (n fuel : ℕ)
    → ((i : ℕ) → i < n → actual (f i) ≡ some (f (i + 1)))
    → ((i : ℕ) → i < n → is_actual (f i) ≡ false)
    → is_actual (f n) ≡ true
    → 0 < n
    → n < fuel
    → resolve_alias_to_actual fuel is_actual actual (f 0)
      ≡ some (bound (λ c. if c == f 0 then some (f n) else actual c))
unfolding resolve_alias_to_actual
resolve_alias_to_actual-reached is_actual actual f n fuel steps_on before at_end used enough =
    rw
      (
        steps_on 0 used,
        reaches is_actual actual f n steps_on before at_end fuel 0 0 2 (omega arith)
            (omega (arith, enough)),
      )
      refl

-- An alias whose chain f 0, f 1, … never gets to a datum of the flavor, and goes round with a length of
-- lam from its element mu on, is refused: a fuel of four times mu + lam + 2 is enough for the loop to
-- find the cycle.
pub resolve_alias_to_actual-circular :
    (is_actual : ℕ → Bool) (actual : Actuals) (f : ℕ → ℕ) (mu lam fuel : ℕ)
    → 0 < lam
    → ((i : ℕ) → mu ≤ i → f (i + lam) ≡ f i)
    → ((i : ℕ) → actual (f i) ≡ some (f (i + 1)))
    → ((i : ℕ) → is_actual (f i) ≡ false)
    → (mu + lam + 2) * 4 ≤ fuel
    → resolve_alias_to_actual fuel is_actual actual (f 0) ≡ some alias_error
unfolding resolve_alias_to_actual
resolve_alias_to_actual-circular is_actual actual f mu lam fuel some_lam round on never enough =
    rw
      (
        on 0,
        goes_round is_actual actual f mu lam some_lam round on never fuel 0 0 2 refl
            (omega (arith, some_lam)) (omega arith) (λ _. some_lam) (omega (arith, enough)),
      )
      refl
