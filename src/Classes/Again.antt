-- ===== src/Classes/Again.antt =====
-- The numbers of a class with a common: after the classcommon, and after a reset and the classcommon
-- again.
use cil.Base.{
  ℕ, suc, ◌+◌, ◌-◌, ◌<◌, ◌≡◌, ◌≢◌, refl, sym, ◌∙◌, ap, List, [], ◌∷◌, none, some, false, ◌==◌,
  arith, ==_self, length,
}
use mathlib.Core.Path.{subst}
use cil.Classes.{Perm, Class, wrap}
use cil.Classes.Common.{
  Classes, reset_common, set_class, map_values, update_value, reset_value, resolve_classcommon,
  reset_class,
}
use cil.Classes.Numbers.{NumberedFrom, IsNumbered}

sum_small : (k n l : ℕ) → k + n + suc l < 4294967296 → wrap (n + k) ≡ k + n
sum_small k n l small = omega (arith, small)

sum_next : (k n : ℕ) → k + (n + 1) ≡ k + n + 1
sum_next k n = omega arith

update_value-NumberedFrom :
    (k n : ℕ) (ps : List Perm)
    → k + n + length ps < 4294967296
    → NumberedFrom n ps
    → NumberedFrom (k + n) (map_values (update_value k) ps)
unfolding map_values
update_value-NumberedFrom k n [] small numbers = tt
update_value-NumberedFrom k n (p ∷ ps) small numbers = (
  ap (λ v. wrap (v + k)) numbers.0 ∙ sum_small k n (length ps) small,
  subst (λ m. NumberedFrom m (map_values (update_value k) ps)) (sum_next k n)
      (update_value-NumberedFrom k (n + 1) ps (omega (arith, small)) numbers.1),
)

length-map_values : (f : ℕ → ℕ) (ps : List Perm) → length (map_values f ps) ≡ length ps
unfolding map_values
length-map_values f [] = refl
length-map_values f (p ∷ ps) = rw (length-map_values f ps) refl

-- What a classcommon makes of a class whose permissions have the numbers from j on.
pub record AfterJoin (before after : Classes) (class common j : ℕ) : Type 0 where
  pub values : NumberedFrom ((before common).num_perms + j) (after class).perms
  pub number : (after class).num_perms ≡ wrap ((before class).num_perms + (before common).num_perms)
  pub as_many : length (after class).perms ≡ length (before class).perms
  pub of_common : (after class).common ≡ some common
  pub others : after common ≡ before common

not_same : (class common : ℕ) → class ≢ common → (common == class) ≡ false
not_same class common apart = ground (arith, apart)

set_class_self : (s : Classes) (a : ℕ) (c : Class) → set_class s a c a ≡ c
unfolding set_class
set_class_self s a c = rw (==_self a) refl

set_class-other : (s : Classes) (a b : ℕ) (c : Class) → a ≢ b → set_class s a c b ≡ s b
unfolding set_class
set_class-other s a b c apart = rw (not_same a b apart) refl

joins :
    (classes : Classes) (class common j : ℕ)
    → class ≢ common
    → (classes class).common ≡ none
    → NumberedFrom j (classes class).perms
    → (classes common).num_perms + j + length (classes class).perms < 4294967296
    → (after : Classes) × (resolve_classcommon classes class common ≡ some after)
      × AfterJoin classes after class common j
unfolding resolve_classcommon
joins classes class common j apart fresh own small =
    let k = (classes common).num_perms in
    let c = record (classes class) {
      common = some common;
      perms = map_values (update_value k) (classes class).perms;
      num_perms = wrap ((classes class).num_perms + k);
    } in
    let here = set_class_self classes class c in
    (
      set_class classes class c,
      rw fresh refl,
      record {
        values =
            subst (λ (d : Class). NumberedFrom (k + j) d.perms) (sym here)
              (update_value-NumberedFrom k j (classes class).perms small own);
        number = ap (λ (d : Class). d.num_perms) here;
        as_many =
            ap (λ (d : Class). length d.perms) here
            ∙ length-map_values (update_value k) (classes class).perms;
        of_common = ap (λ (d : Class). d.common) here;
        others = set_class-other classes class common c apart;
      },
    )

-- What a reset makes of a class with a common.
pub record AfterReset (before after : Classes) (class common : ℕ) : Type 0 where
  pub kept : (after class).perms ≡ (before class).perms
  pub number :
      (after class).num_perms
      ≡ wrap ((before class).num_perms + (4294967296 - wrap (before common).num_perms))
  pub no_common : (after class).common ≡ none
  pub of_common : (after common).num_perms ≡ (before common).num_perms

apart_sym : {a b : ℕ} → a ≢ b → b ≢ a
apart_sym apart p = apart (sym p)

reset_common-AfterReset :
    (s : Classes) (class common : ℕ)
    → class ≢ common
    → AfterReset s (reset_common s class (some common)) class common
unfolding reset_common
reset_common-AfterReset s class common apart =
    let m = s common in
    let reset = record m { perms = map_values (reset_value m.num_perms) m.perms } in
    let changed = set_class s common reset in
    let d = changed class in
    let same = set_class-other s common class reset (apart_sym apart) in
    let final = record d {
      num_perms = wrap (d.num_perms + (4294967296 - wrap m.num_perms));
      common = none;
    } in
    let here = set_class_self changed class final in
    let there = set_class-other changed class common final apart in
    record {
      kept = ap (λ (c : Class). c.perms) here ∙ ap (λ (c : Class). c.perms) same;
      number =
          ap (λ (c : Class). c.num_perms) here
          ∙ ap (λ (c : Class). wrap (c.num_perms + (4294967296 - wrap m.num_perms))) same;
      no_common = ap (λ (c : Class). c.common) here;
      of_common =
          ap (λ (c : Class). c.num_perms) there
          ∙ ap (λ (c : Class). c.num_perms) (set_class_self s common reset);
    }

unordered-AfterReset :
    (s t : Classes) (class common : ℕ)
    → class ≢ common
    → AfterReset s t class common
    → AfterReset s (set_class t class (record (t class) { ordered = false })) class common
unordered-AfterReset s t class common apart r =
    let final = record (t class) { ordered = false } in
    let here = set_class_self t class final in
    record {
      kept = ap (λ (c : Class). c.perms) here ∙ r.kept;
      number = ap (λ (c : Class). c.num_perms) here ∙ r.number;
      no_common = ap (λ (c : Class). c.common) here ∙ r.no_common;
      of_common =
          ap (λ (c : Class). c.num_perms) (set_class-other t class common final apart)
          ∙ r.of_common;
    }

resets :
    (s : Classes) (class common : ℕ)
    → class ≢ common
    → (s class).common ≡ some common
    → AfterReset s (reset_class s class) class common
unfolding reset_class
resets s class common apart joined = rw joined (
    unordered-AfterReset s (reset_common s class (some common)) class common apart
      (reset_common-AfterReset s class common apart))

plus_zero : (k : ℕ) → k + 0 ≡ k
plus_zero k = omega arith

swapped_small : (n k : ℕ) → k + n < 4294967296 → wrap (n + k) ≡ k + n
swapped_small n k small = omega (arith, small)

-- The permissions of a class and of its common, once more behind one another.
pub record Joined (before after : Classes) (class common : ℕ) : Type 0 where
  pub values : NumberedFrom (before common).num_perms (after class).perms
  pub number : (after class).num_perms ≡ (before common).num_perms + (before class).num_perms
  pub others : after common ≡ before common

-- Of a class without a common, and a common, that number their permissions from 0 on, fewer than 2^32
-- together: the classcommon succeeds. The common stays as it is, the class's permissions have the
-- numbers behind those of the common, and `num_perms` counts both.
pub resolve_classcommon-Joined :
    (classes : Classes) (class common : ℕ)
    → class ≢ common
    → (classes class).common ≡ none
    → IsNumbered (classes class)
    → (classes common).num_perms + (classes class).num_perms < 4294967296
    → (after : Classes) × (resolve_classcommon classes class common ≡ some after)
      × Joined classes after class common
resolve_classcommon-Joined classes class common apart fresh own small =
    let k = (classes common).num_perms in
    let r =
      joins classes class common 0 apart fresh own.values (omega (arith, small, own.number)) in
    (
      r.0,
      r.1,
      record {
        values = subst (λ m. NumberedFrom m (r.0 class).perms) (plus_zero k) r.2.values;
        number = r.2.number ∙ swapped_small (classes class).num_perms k small;
        others = r.2.others;
      },
    )

num_again :
    (n k a b c : ℕ)
    → k + n < 4294967296
    → a ≡ wrap (n + k)
    → b ≡ wrap (a + (4294967296 - wrap k))
    → c ≡ wrap (b + k)
    → c ≡ k + n
num_again n k a b c small p q r = omega (arith, small, p, q, r)

-- Of a class without a common, and a common, numbered as above: when the classcommon is resolved, the
-- class is reset, and the classcommon is resolved again, both resolutions succeed and `num_perms` is
-- again the number of both; but the class's own permissions now have the numbers from twice the number
-- of the common on, since the reset does not take back what the first resolution added to them.
pub reset_class-again :
    (classes : Classes) (class common : ℕ)
    → class ≢ common
    → (classes class).common ≡ none
    → IsNumbered (classes class)
    → (classes common).num_perms + (classes common).num_perms + (classes class).num_perms
      < 4294967296
    → (first second : Classes) × (resolve_classcommon classes class common ≡ some first)
      × (resolve_classcommon (reset_class first class) class common ≡ some second)
      × NumberedFrom ((classes common).num_perms + (classes common).num_perms) (second class).perms
      × ((second class).num_perms ≡ (classes common).num_perms + (classes class).num_perms)
reset_class-again classes class common apart fresh own small =
    let k = (classes common).num_perms in
    let n = (classes class).num_perms in
    let r =
      joins classes class common 0 apart fresh own.values (omega (arith, small, own.number)) in
    let s = reset_class r.0 class in
    let reset = resets r.0 class common apart r.2.of_common in
    let same_k = ap (λ (c : Class). c.num_perms) r.2.others in
    let still_k = reset.of_common ∙ same_k in
    let as_many = ap (λ (ps : List Perm). length ps) reset.kept ∙ r.2.as_many in
    let values =
      subst (λ ps. NumberedFrom k ps) (sym reset.kept)
        (subst (λ m. NumberedFrom m (r.0 class).perms) (plus_zero k) r.2.values) in
    let t =
      joins s class common k apart reset.no_common values
        (omega (arith, small, still_k, as_many, own.number)) in
    (
      r.0,
      t.0,
      r.1,
      t.1,
      subst (λ m. NumberedFrom (m + k) (t.0 class).perms) still_k t.2.values,
      num_again n k (r.0 class).num_perms (s class).num_perms (t.0 class).num_perms
          (omega (arith, small)) r.2.number
          (reset.number ∙ ap (λ m. wrap ((r.0 class).num_perms + (4294967296 - wrap m))) same_k)
          (t.2.number ∙ ap (λ m. wrap ((s class).num_perms + m)) still_k),
    )
