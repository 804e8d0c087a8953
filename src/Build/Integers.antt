-- ===== src/Build/Integers.antt =====
-- The numbers in statements, of src/cil_build_ast.c: cil_fill_integer, with strtol of the C library
-- for base ten and a `long` of 64 bits. `none` is SEPOL_ERR.
use cil.Base.{
  ℕ, ◌+◌, ◌*◌, ◌-◌, ◌%◌, [], ◌∷◌, Option, none, some, Bool, true, false, ◌&&◌, ◌||◌, ltb, leb, ◌==◌,
  if◌then◌else◌,
}
use cil.Build.Fill.{data_of}
use cil.Expr.{◌>>=◌}
use cil.Text.{Text}
use cil.Tree.{Nodes, node, nil, cons}

abbrev pub is_space : ℕ → Bool
is_space c = c == 32 || (leb 9 c && leb c 13)

abbrev pub is_digit : ℕ → Bool
is_digit c = leb 48 c && leb c 57

-- The digits up to the end of the string; `none` where something else follows.
unfoldable pub digits_from : ℕ → Text → Option ℕ
digits_from v [] = some v
digits_from v (c ∷ cs) =
    let rest = digits_from (v * 10 + (c - 48)) cs in if is_digit c then rest else none

-- A `long` assigned to an `int` and then to a `uint32_t`; `none` where strtol sets errno.
abbrev pub to_uint32 : Bool → ℕ → Option ℕ
to_uint32 negative v =
    if negative
    then (if leb v 9223372036854775808
        then some ((4294967296 - v % 4294967296) % 4294967296)
        else none)
    else (if ltb v 9223372036854775808 then some (v % 4294967296) else none)

unfoldable pub unsigned : Bool → Text → Option ℕ
unfolding digits_from
unsigned negative [] = none
unsigned negative (c ∷ cs) = digits_from 0 (c ∷ cs) >>= to_uint32 negative

unfoldable pub signed : Text → Option ℕ
unfolding unsigned
signed [] = none
signed (c ∷ cs) =
    if c == 45
    then unsigned true cs
    else if c == 43
    then unsigned false cs
    else unsigned false (c ∷ cs)

unfoldable pub strtol : Text → Option ℕ
unfolding signed
strtol [] = none
strtol (c ∷ cs) = let rest = strtol cs in if is_space c then rest else signed (c ∷ cs)

-- A node without a string, of which the code would hand NULL to strtol, gives `none` too.
unfoldable pub fill_integer : Nodes → Option ℕ
unfolding strtol
fill_integer int_node = data_of int_node >>= strtol

-- A number for both ends, or a list of the low and the high end.
unfoldable pub fill_range : Nodes → Option (ℕ × ℕ)
unfolding fill_integer
fill_range nil = none
fill_range (cons (node l t nil) ns) =
    fill_integer (cons (node l t nil) ns) >>= λ low. some (low, low)
fill_range (cons (node l t (cons a (cons b nil))) ns) = do
  low ← fill_integer (cons a (cons b nil))
  high ← fill_integer (cons b nil)
  some (low, high)
fill_range (cons (node l t (cons a nil)) ns) = none
fill_range (cons (node l t (cons a (cons b (cons c cs)))) ns) = none
