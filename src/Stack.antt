-- ===== src/Stack.antt =====
-- The growable array stack of src/cil_stack.c. `size` and `pos` are C ints, `pos` is -1 on an empty
-- stack. Signed overflow of `size * 2` needs 2 ^ 30 items and is not modelled; allocation never
-- fails (cil_malloc exits). A pointer to a slot of the array is the slot's index.
pub mod Models
pub mod Refine
pub mod Examples
use cil.Base.{
  ℕ, zero, suc, ◌+◌, ◌-◌, ◌*◌, List, ◌++◌, Option, none, some, Bool, ◌||◌, length, get_elem?, set,
  replicate, if◌then◌else◌,
}
use cil.Base.Int.{ℤ, pos, negsuc, ◌+ℤ◌, ◌-ℤ◌, lt_ℤ, eq_ℤ, pos_part}
use cil.Flavor.{Flavor}

pub record Item {ℓ} (A : Type ℓ) : Type ℓ where
  pub flavor : Flavor
  pub datum : A

-- A slot that was never written is `none`.
pub record Stack {ℓ} (A : Type ℓ) : Type ℓ where
  pub slots : List (Option (Item A))
  pub size : ℕ
  pub top : ℤ

abbrev pub stack_init_size : ℕ
stack_init_size = 16

abbrev pub minus_one : ℤ
minus_one = negsuc 0

module _ {ℓ} {A : Type ℓ} where
  pub init : Stack A
  unfolding replicate
  init = record { slots = replicate stack_init_size none; size = stack_init_size; top = minus_one }

  pub clear : Stack A → Stack A
  clear s = record s { top = minus_one }

  pub is_empty : Stack A → Bool
  is_empty s = eq_ℤ s.top minus_one

  -- `size *= 2` and the realloc: the old slots are kept, the new ones hold nothing.
  grow : Stack A → Stack A
  unfolding replicate
  grow s = record s { slots = s.slots ++ replicate s.size none; size = s.size * 2 }

  -- The write to `stack->stack[stack->pos]`.
  write_top : Stack A → Item A → Stack A
  write_top s item = record s { slots = set s.slots (pos_part s.top) (some item) }

  pub push : Stack A → Flavor → A → Stack A
  push s flavor datum =
      let moved : Stack A = record s { top = s.top +ℤ pos 1 } in
      write_top (if eq_ℤ moved.top (pos moved.size) then grow moved else moved)
        (record { flavor = flavor; datum = datum })

  -- The slot that the new `pos` has just left, or NULL.
  pub pop : Stack A → Stack A × Option ℕ
  pop s =
      if eq_ℤ s.top minus_one
      then (s, none)
      else (let moved : Stack A = record s { top = s.top -ℤ pos 1 } in
          (moved, some (pos_part (moved.top +ℤ pos 1))))

  pub peek : Stack A → Option ℕ
  peek s = if lt_ℤ s.top (pos 0) then none else some (pos_part s.top)

  -- The position of the C code is an int, whose difference with `top` may overflow; ℤ is unbounded.
  pub peek_at : Stack A → ℤ → Option ℕ
  peek_at s p =
      let peekpos = s.top -ℤ p in
      if lt_ℤ peekpos (pos 0) || lt_ℤ s.top peekpos then none else some (pos_part peekpos)

  -- What a reader finds at the slot that a call returned.
  abbrev pub slot_value : Stack A → Option ℕ → Option (Item A)
  slot_value s none = none
  slot_value s (some i) = elim (get_elem? s.slots i) [ some (some x) ↦ some x | _ ↦ none ]
