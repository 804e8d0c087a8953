-- ===== src/Aliases/Examples.antt =====
-- Aliases 1 and 2 of the type 3, and aliases 4, 5 and 6, of which 5 and 6 stand for each other.
use cil.Base.{◌≡◌, refl, ℕ, ◌+◌, ◌%◌, ◌<◌, ◌≤◌, none, some, Bool, false, ◌==◌, if◌then◌else◌, arith}
use mathlib.Core.Option
use cil.Aliases.{
  Actuals, bound, alias_error, alias_fault, resolve_alias_to_actual, resolve_aliasactual,
  reset_alias,
}
use cil.Aliases.Chains.{resolve_alias_to_actual-reached, resolve_alias_to_actual-circular}

abbrev is_type : ℕ → Bool
is_type a = a == 3

abbrev line : ℕ → ℕ
line i = i + 1

abbrev in_line : Actuals
in_line a = if a == 0 then none else if a == 3 then none else some (a + 1)

line_on : (i : ℕ) → i < 2 → in_line (line i) ≡ some (line (i + 1))
line_on i small = ground (arith, small)

line_aliases : (i : ℕ) → i < 2 → is_type (line i) ≡ false
line_aliases i small = ground (arith, small)

resolve_alias_to_actual-reached_example :
    resolve_alias_to_actual 3 is_type in_line 1
    ≡ some (bound (λ c. if c == 1 then some 3 else in_line c))
resolve_alias_to_actual-reached_example =
    resolve_alias_to_actual-reached is_type in_line line 2 3 line_on line_aliases refl (omega arith)
      (omega arith)

-- 4, 5, 6, 5, 6, …
abbrev ring : ℕ → ℕ
ring i = if i == 0 then 4 else if i % 2 == 1 then 5 else 6

abbrev in_ring : Actuals
in_ring a = if a == 5 then some 6 else some 5

ring_round : (i : ℕ) → 1 ≤ i → ring (i + 2) ≡ ring i
ring_round i later = ground (arith, later)

ring_on : (i : ℕ) → in_ring (ring i) ≡ some (ring (i + 1))
ring_on i = ground arith

ring_aliases : (i : ℕ) → is_type (ring i) ≡ false
ring_aliases i = ground arith

resolve_alias_to_actual-circular_example :
    resolve_alias_to_actual 20 is_type in_ring 4 ≡ some alias_error
resolve_alias_to_actual-circular_example =
    resolve_alias_to_actual-circular is_type in_ring ring 1 2 20 (omega arith) ring_round ring_on
      ring_aliases (omega arith)

-- Alias 2 has no actual: from alias 1 the code reads through NULL.
abbrev half : Actuals
half a = if a == 1 then some 2 else none

half_fault : resolve_alias_to_actual 9 is_type half 1 ≡ some alias_fault
unfolding resolve_alias_to_actual
half_fault = refl

-- A second actual is refused, until the alias has been reset.
abbrev one_of_two : Actuals
one_of_two a = if a == 1 then some 2 else none

second_actual : resolve_aliasactual one_of_two 1 3 ≡ none
unfolding resolve_aliasactual
second_actual = refl

actual_after_reset :
    Option.map (λ r. r 1) (resolve_aliasactual (reset_alias one_of_two 1) 1 3) ≡ some (some 3)
unfolding resolve_aliasactual reset_alias
actual_after_reset = refl
