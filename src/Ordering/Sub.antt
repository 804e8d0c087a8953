-- ===== src/Ordering/Sub.antt =====
-- Subsequences: the order that one list keeps within another.
use cil.Base.{List, [], ◌∷◌, ◌++◌, ℕ}

pub data Sub : List ℕ → List ℕ → Type 0 where
  done : Sub [] []
  skip : {xs ys : List ℕ} {y : ℕ} → Sub xs ys → Sub xs (y ∷ ys)
  keep : {xs ys : List ℕ} {x : ℕ} → Sub xs ys → Sub (x ∷ xs) (x ∷ ys)

pub Sub-nil : (ys : List ℕ) → Sub [] ys
Sub-nil [] = done
Sub-nil (y ∷ ys) = skip (Sub-nil ys)

pub Sub-refl : (xs : List ℕ) → Sub xs xs
Sub-refl [] = done
Sub-refl (x ∷ xs) = keep (Sub-refl xs)

pub Sub-trans : {xs ys zs : List ℕ} → Sub xs ys → Sub ys zs → Sub xs zs
Sub-trans s done = s
Sub-trans s (skip t) = skip (Sub-trans s t)
Sub-trans (skip s) (keep t) = skip (Sub-trans s t)
Sub-trans (keep s) (keep t) = keep (Sub-trans s t)

pub Sub-append : {xs ys us vs : List ℕ} → Sub xs ys → Sub us vs → Sub (xs ++ us) (ys ++ vs)
Sub-append done t = t
Sub-append (skip s) t = skip (Sub-append s t)
Sub-append (keep s) t = keep (Sub-append s t)

-- In front of a list.
pub Sub-behind : (xs ys : List ℕ) → Sub ys (xs ++ ys)
Sub-behind [] ys = Sub-refl ys
Sub-behind (x ∷ xs) ys = skip (Sub-behind xs ys)

pub Sub-before : (xs ys : List ℕ) → Sub xs (xs ++ ys)
Sub-before [] ys = Sub-nil ys
Sub-before (x ∷ xs) ys = keep (Sub-before xs ys)
