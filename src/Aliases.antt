-- ===== src/Aliases.antt =====
-- From an alias to what it stands for, of src/cil_resolve_ast.c: cil_resolve_alias_to_actual, which
-- follows the chain of aliases and finds cycles as Brent's algorithm does. Aliases and declarations
-- are their addresses, `actual` is the field of an alias, and `is_actual` tells whether a datum has
-- the flavor that is looked for. The counters are C ints, here numbers without bounds: they count
-- data in memory. The names of a cycle, which are only logged, are left out.
pub mod Chains
pub mod Examples
use cil.Base.{ℕ, zero, suc, ◌+◌, ◌*◌, Option, none, some, Bool, true, false, ◌==◌, if◌then◌else◌}

abbrev pub Actuals : Type 0
Actuals = ℕ → Option ℕ

-- Where the loop ends: at a datum of the flavor, at an alias that it has seen, or by a read through
-- NULL, at an alias with no actual.
pub data Followed : Type 0 where
  reached : ℕ → Followed
  circular : Followed
  null_read : Followed

abbrev pub step_to : (ℕ → Option Followed) → Option ℕ → Option Followed
step_to k none = some null_read
step_to k (some a) = k a

-- The loop, with fuel; `none` where it is used up.
unfoldable pub follow : (ℕ → Bool) → Actuals → ℕ → ℕ → ℕ → ℕ → ℕ → Option Followed
follow is_actual actual zero a1 a2 steps limit = none
follow is_actual actual (suc fuel) a1 a2 steps limit =
    let next = λ (b : ℕ).
      let saved = follow is_actual actual fuel b b 0 (limit * 2) in
      let on = follow is_actual actual fuel b a2 (steps + 1) limit in
      if b == a2 then some circular else if steps + 1 == limit then saved else on in
    if is_actual a1 then some (reached a1) else step_to next (actual a1)

-- SEPOL_OK with the new field, SEPOL_ERR, or a read through NULL.
pub data AliasResult : Type 0 where
  bound : Actuals → AliasResult
  alias_error : AliasResult
  alias_fault : AliasResult

abbrev pub bind_alias : Actuals → ℕ → Followed → AliasResult
bind_alias actual a (reached b) = bound (λ c. if c == a then some b else actual c)
bind_alias actual a circular = alias_error
bind_alias actual a null_read = alias_fault

abbrev pub if_used : Option ℕ → Option AliasResult → Option AliasResult
if_used none r = some alias_error
if_used (some b) r = r

abbrev pub bind_followed : Actuals → ℕ → Option Followed → Option AliasResult
bind_followed actual a none = none
bind_followed actual a (some f) = some (bind_alias actual a f)

unfoldable pub resolve_alias_to_actual : ℕ → (ℕ → Bool) → Actuals → ℕ → Option AliasResult
unfolding follow
resolve_alias_to_actual fuel is_actual actual alias =
    if_used (actual alias)
      (bind_followed actual alias (follow is_actual actual fuel alias alias 0 2))

-- `cil_resolve_aliasactual` once both names have been found; `none` is SEPOL_ERR.
unfoldable pub resolve_aliasactual : Actuals → ℕ → ℕ → Option Actuals
resolve_aliasactual actual alias datum = elim (actual alias) [
  | some b ↦ none
  | none ↦ some (λ c. if c == alias then some datum else actual c)
]

-- `cil_reset_alias`
unfoldable pub reset_alias : Actuals → ℕ → Actuals
reset_alias actual alias c = if c == alias then none else actual c
