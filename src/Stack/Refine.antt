-- ===== src/Stack/Refine.antt =====
-- A sequence of calls on the array stack answers as the same calls on a list would.
use cil.Base.{
  ℕ, zero, suc, ◌-◌, ◌<◌, ◌≡◌, ◌↔◌, refl, ap, ◌∙◌, List, [], ◌∷◌, Option, none, some, true, false,
  Bool-cases, inl, inr, arith, length, get_elem?, leb, ltb,
}
use cil.Base.Int.{ℤ, pos, negsuc, ◌-ℤ◌, -ℤ-pos, -ℤ-above}
use cil.Stack.{Item, Stack, init, clear, is_empty, push, pop, peek_at, slot_value}
use cil.Stack.Models.{Holds, Models, init-Models, clear-Models, push-Models, pop-Models, pop-nil}
use cil.Flavor.{Flavor}

ltb-zero : (n : ℕ) → ltb n 0 ≡ false
ltb-zero n = ground arith

ltb-sub : (m n : ℕ) → ltb m (m - n) ≡ false
ltb-sub m n = ground arith

module _ {ℓ} {A : Type ℓ} where
  Holds-get :
      (slots : List (Option (Item A))) (xs : List (Item A)) (n : ℕ)
      → Holds slots xs
      → n < length xs
      → (x : Item A) × (get_elem? xs n ≡ some x)
        × (get_elem? slots (length xs - suc n) ≡ some (some x))
  Holds-get slots [] n h lt = absurd (omega arith)
  Holds-get slots (x ∷ xs) zero (e, h) lt = (x, refl, ap (get_elem? slots) (omega arith) ∙ e)
  Holds-get slots (x ∷ xs) (suc n) (e, h) lt =
      let (y, at, there) = Holds-get slots xs n h (omega arith) in
      (y, at, ap (get_elem? slots) (omega arith) ∙ there)

  get_elem?-past : (xs : List (Item A)) (n : ℕ) → length xs < suc n → get_elem? xs n ≡ none
  get_elem?-past [] n h = refl
  get_elem?-past (x ∷ xs) zero h = absurd (omega arith)
  get_elem?-past (x ∷ xs) (suc n) h = get_elem?-past xs n (omega arith)

  -- `peek_at s n` is the item `n` places below the top, for n >= 0, and NULL past the bottom.
  pub peek_at-get :
      (s : Stack A) (xs : List (Item A)) (n : ℕ)
      → Models s xs
      → slot_value s (peek_at s (pos n)) ≡ get_elem? xs n
  unfolding peek_at
  peek_at-get s [] n m = rw m.top (unfold ◌-ℤ◌ in ground arith)
  peek_at-get s (x ∷ xs) n m = elim (Bool-cases (leb n (length xs))) [
    | inl le ↦
        let (y, at, there) = Holds-get s.slots (x ∷ xs) n m.holds (ground arith) in
        let found = ap (get_elem? s.slots) {x = length xs - n} (omega arith) ∙ there in
        rw (
          m.top,
          -ℤ-pos (length xs) n (ground arith),
          at,
          ltb-zero,
          ltb-sub (length xs) n,
          slot_value,
          found,
        )
    | inr gt ↦
        rw (m.top, -ℤ-above (length xs) n (ground arith), get_elem?-past (x ∷ xs) n (ground arith))
  ]

  pub peek_at_negative :
      (s : Stack A) (xs : List (Item A)) (n : ℕ) → Models s xs → peek_at s (negsuc n) ≡ none
  unfolding peek_at ◌-ℤ◌
  peek_at_negative s [] n m = rw m.top (ground arith)
  peek_at_negative s (x ∷ xs) n m = rw m.top (ground arith)

  is_empty_iff : (s : Stack A) (xs : List (Item A)) → Models s xs → (is_empty s ≡ true) ↔ (xs ≡ [])
  unfolding is_empty
  is_empty_iff s [] m = rw m.top (ground arith)
  is_empty_iff s (x ∷ xs) m = rw m.top (ground arith)

-- A client's call.
pub data Op {ℓ} (A : Type ℓ) : Type ℓ where
  push_op : Flavor → A → Op A
  pop_op : Op A
  clear_op : Op A
  peek_op : ℤ → Op A

module _ {ℓ} {A : Type ℓ} where
  -- What the calls return on the array stack.
  unfoldable pub run : Stack A → List (Op A) → List (Option (Item A))
  run s [] = []
  run s (push_op f d ∷ ops) = run (push s f d) ops
  run s (clear_op ∷ ops) = run (clear s) ops
  run s (pop_op ∷ ops) = slot_value (pop s).0 (pop s).1 ∷ run (pop s).0 ops
  run s (peek_op p ∷ ops) = slot_value s (peek_at s p) ∷ run s ops

  -- What the same calls return on a list, the top first.
  unfoldable pub run_list : List (Item A) → List (Op A) → List (Option (Item A))
  run_list xs [] = []
  run_list xs (push_op f d ∷ ops) = run_list (record { flavor = f; datum = d } ∷ xs) ops
  run_list xs (clear_op ∷ ops) = run_list [] ops
  run_list [] (pop_op ∷ ops) = none ∷ run_list [] ops
  run_list (x ∷ xs) (pop_op ∷ ops) = some x ∷ run_list xs ops
  run_list xs (peek_op (pos n) ∷ ops) = get_elem? xs n ∷ run_list xs ops
  run_list xs (peek_op (negsuc n) ∷ ops) = none ∷ run_list xs ops

  pub run-run_list :
      (s : Stack A) (xs : List (Item A)) (ops : List (Op A))
      → Models s xs
      → run s ops ≡ run_list xs ops
  unfolding run run_list
  run-run_list s xs [] m = refl
  run-run_list s xs (push_op f d ∷ ops) m =
      run-run_list (push s f d) (record { flavor = f; datum = d } ∷ xs) ops (push-Models s xs f d m)
  run-run_list s xs (clear_op ∷ ops) m = run-run_list (clear s) [] ops (clear-Models m)
  run-run_list s [] (pop_op ∷ ops) m =
      rw (pop-nil s m) (ap (λ r. none ∷ r) (run-run_list s [] ops m))
  run-run_list s (x ∷ xs) (pop_op ∷ ops) m =
      let (kept, got) = pop-Models s x xs m in
      rw got (ap (λ r. some x ∷ r) (run-run_list (pop s).0 xs ops kept))
  run-run_list s xs (peek_op (pos n) ∷ ops) m =
      rw (peek_at-get s xs n m) (ap (λ r. get_elem? xs n ∷ r) (run-run_list s xs ops m))
  run-run_list s xs (peek_op (negsuc n) ∷ ops) m =
      rw (peek_at_negative s xs n m) (ap (λ r. none ∷ r) (run-run_list s xs ops m))

  -- Whatever calls a client makes on a new stack, push, pop, empty and peek_at return what they
  -- would return on a list of the pushed items.
  pub run-init-run_list : (ops : List (Op A)) → run init ops ≡ run_list [] ops
  run-init-run_list ops = run-run_list init [] ops init-Models
