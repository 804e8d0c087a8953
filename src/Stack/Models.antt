-- ===== src/Stack/Models.antt =====
-- An array stack stands for a list of items, the top first: how each operation acts on that list.
use cil.Base.{
  ℕ, zero, suc, ◌≤◌, ◌<◌, ◌≡◌, ◌∙◌, refl, List, [], ◌∷◌, ◌++◌, Option, none, some, arith, length,
  get_elem?, set, length-append, length-set, length-replicate, get_elem?-set_self, Bool-cases, inl,
  inr, ◌==◌,
}
use cil.Base.Int.{ℤ, pos, pos_part, ◌+ℤ◌, ◌-ℤ◌, +ℤ-one}
use mathlib.Core.Path.{subst, sym}
use cil.Stack.{
  Item, Stack, minus_one, stack_init_size, init, clear, grow, write_top, push, pop, peek,
  slot_value,
}
use cil.Flavor.{Flavor}

-- The C index of the last of `n` items.
abbrev pub top_of : ℕ → ℤ
top_of zero = minus_one
top_of (suc n) = pos n

top_of-up : (n : ℕ) → top_of n +ℤ pos 1 ≡ pos n
unfolding ◌+ℤ◌
top_of-up zero = refl
top_of-up (suc n) = +ℤ-one n

pub top_of-down : (n : ℕ) → pos n -ℤ pos 1 ≡ top_of n
unfolding ◌-ℤ◌
top_of-down zero = refl
top_of-down (suc n) = ground arith

module _ {ℓ} {A : Type ℓ} where
  -- The items `xs`, top first, stand in the slots from `length xs - 1` down.
  abbrev pub Holds : List (Option (Item A)) → List (Item A) → Type ℓ
  Holds slots [] = Unit
  Holds slots (x ∷ xs) = (get_elem? slots (length xs) ≡ some (some x)) × Holds slots xs

  pub record Models (s : Stack A) (xs : List (Item A)) : Type ℓ where
    pub grown : 0 < s.size
    pub width : length s.slots ≡ s.size
    pub fits : length xs ≤ s.size
    pub top : s.top ≡ top_of (length xs)
    pub holds : Holds s.slots xs

  get_elem?-set_other :
      (xs : List (Option (Item A))) (i j : ℕ) (v : Option (Item A))
      → j < i
      → get_elem? (set xs i v) j ≡ get_elem? xs j
  get_elem?-set_other [] i j v h = refl
  get_elem?-set_other (x ∷ xs) zero j v h = absurd (omega arith)
  get_elem?-set_other (x ∷ xs) (suc i) zero v h = refl
  get_elem?-set_other (x ∷ xs) (suc i) (suc j) v h = get_elem?-set_other xs i j v (omega arith)

  get_elem?-append :
      (xs ys : List (Option (Item A))) (i : ℕ)
      → i < length xs
      → get_elem? (xs ++ ys) i ≡ get_elem? xs i
  get_elem?-append [] ys i h = absurd (omega arith)
  get_elem?-append (x ∷ xs) ys zero h = refl
  get_elem?-append (x ∷ xs) ys (suc i) h = get_elem?-append xs ys i (omega arith)

  Holds-set :
      (slots : List (Option (Item A))) (i : ℕ) (v : Option (Item A)) (xs : List (Item A))
      → length xs ≤ i
      → Holds slots xs
      → Holds (set slots i v) xs
  Holds-set slots i v [] le h = tt
  Holds-set slots i v (x ∷ xs) le (e, h) = (
    get_elem?-set_other slots i (length xs) v (omega arith) ∙ e,
    Holds-set slots i v xs (omega arith) h,
  )

  Holds-append :
      (slots more : List (Option (Item A))) (xs : List (Item A))
      → length xs ≤ length slots
      → Holds slots xs
      → Holds (slots ++ more) xs
  Holds-append slots more [] le h = tt
  Holds-append slots more (x ∷ xs) le (e, h) = (
    get_elem?-append slots more (length xs) (omega arith) ∙ e,
    Holds-append slots more xs (omega arith) h,
  )

  pub init-Models : Models (init {A = A}) []
  unfolding init
  init-Models = record {
    grown = omega arith;
    width = length-replicate {A = Option (Item A)} stack_init_size none;
    fits = omega arith;
    top = refl;
    holds = tt;
  }

  pub clear-Models : {s : Stack A} {xs : List (Item A)} → Models s xs → Models (clear s) []
  unfolding clear
  clear-Models m = record {
    grown = m.grown;
    width = m.width;
    fits = omega arith;
    top = refl;
    holds = tt;
  }

  -- Writing the slot above the items, where there is room.
  write_top-Models :
      (s : Stack A) (x : Item A) (xs : List (Item A))
      → length s.slots ≡ s.size
      → length xs < s.size
      → s.top ≡ pos (length xs)
      → Holds s.slots xs
      → Models (write_top s x) (x ∷ xs)
  unfolding write_top
  write_top-Models s x xs width room top holds = record {
    grown = omega arith;
    width = length-set s.slots _ _ ∙ width;
    fits = omega arith;
    top = ground arith;
    holds =
        subst (λ (t : ℤ). Holds (set s.slots (pos_part t) (some x)) (x ∷ xs)) (sym top)
          (
            get_elem?-set_self s.slots (length xs) (some x) (omega arith),
            Holds-set s.slots (length xs) (some x) xs (omega arith) holds,
          );
  }

  -- Room is made first: the slots double exactly when the new position is the size.
  pub push-Models :
      (s : Stack A) (xs : List (Item A)) (f : Flavor) (d : A)
      → Models s xs
      → Models (push s f d) (record { flavor = f; datum = d } ∷ xs)
  unfolding push grow
  push-Models s xs f d m =
      rw (m.top, top_of-up (length xs))
        (elim (Bool-cases (length xs == s.size)) [
          | inl full ↦ rw full (
              write_top-Models _ _ xs
                (rw (length-append, length-replicate) (omega (arith, m.width)))
                (ground (arith, m.grown)) refl
                (Holds-append s.slots _ xs (omega (arith, m.width, m.fits)) m.holds))
          | inr room ↦
              rw room (write_top-Models _ _ xs m.width (ground (arith, m.fits)) refl m.holds)
        ])

  pub pop-Models :
      (s : Stack A) (x : Item A) (xs : List (Item A))
      → Models s (x ∷ xs)
      → Models (pop s).0 xs × (slot_value (pop s).0 (pop s).1 ≡ some x)
  unfolding pop
  pop-Models s x xs m =
      rw (m.top, top_of-down (length xs), top_of-up (length xs), m.holds.0)
        (
          record {
            grown = m.grown;
            width = m.width;
            fits = omega (arith, m.fits);
            top = refl;
            holds = m.holds.1;
          },
          refl,
        )

  pub pop-nil : (s : Stack A) → Models s [] → pop s ≡ (s, none)
  unfolding pop
  pop-nil s m = ground (arith, m.top)

  pub peek-head :
      (s : Stack A) (x : Item A) (xs : List (Item A))
      → Models s (x ∷ xs)
      → slot_value s (peek s) ≡ some x
  unfolding peek
  peek-head s x xs m = rw m.top (ground (arith, m.holds.0))
