-- ===== src/ComplexSymtab/Bits.antt =====
-- A masked value is at most the mask, for every mask.
use Prim.Native.Nat.{min, digits, bit_and-bitwise}
use cil.Base.{ℕ, zero, suc, ◌/◌, ◌≤◌, bit_and, arith}

digits-le : (fuel a b : ℕ) → digits (λ _. zero) min fuel a b ≤ b
digits-le zero a b = omega arith
digits-le (suc n) zero b = omega arith
digits-le (suc n) (suc a) b = omega (arith, digits-le n (suc a / 2) (b / 2))

pub bit_and-le : (a b : ℕ) → bit_and a b ≤ b
bit_and-le a b = rw bit_and-bitwise (digits-le a a b)
