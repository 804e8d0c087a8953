-- ===== src/Text.antt =====
-- Strings as their bytes, and the keywords that src/cil.c puts into the string pool
-- (src/cil_strpool.c). The pool gives equal strings one address, so `==` on pooled strings is
-- equality of the bytes.
use Prim.Native.Char.{code}
use Prim.Native.String.{String}
use cil.Base.{ℕ, ◌≡◌, refl, List, [], ◌∷◌, Bool, true, false, ◌&&◌, ◌==◌, arith, ==_self}

abbrev pub Text : Type 0
Text = List ℕ

abbrev pub codes : String → Text
codes String.[] = []
codes (String.◌∷◌ c s) = code c ∷ codes s

abbrev pub text_eq : Text → Text → Bool
text_eq [] [] = true
text_eq [] (y ∷ ys) = false
text_eq (x ∷ xs) [] = false
text_eq (x ∷ xs) (y ∷ ys) = x == y && text_eq xs ys

pub text_eq_self : (xs : Text) → text_eq xs xs ≡ true
text_eq_self [] = refl
text_eq_self (x ∷ xs) = rw (==_self x) (text_eq_self xs)

pub eq_of_text_eq : (xs ys : Text) → text_eq xs ys ≡ true → xs ≡ ys
eq_of_text_eq [] [] h = refl
eq_of_text_eq [] (y ∷ ys) h = cc
eq_of_text_eq (x ∷ xs) [] h = cc
eq_of_text_eq (x ∷ xs) (y ∷ ys) h = ground (arith, eq_of_text_eq xs ys)

abbrev pub cil_key_and : Text
cil_key_and = codes "and"

abbrev pub cil_key_or : Text
cil_key_or = codes "or"

abbrev pub cil_key_not : Text
cil_key_not = codes "not"

abbrev pub cil_key_eq : Text
cil_key_eq = codes "eq"

abbrev pub cil_key_neq : Text
cil_key_neq = codes "neq"

abbrev pub cil_key_xor : Text
cil_key_xor = codes "xor"

abbrev pub cil_key_all : Text
cil_key_all = codes "all"

abbrev pub cil_key_range : Text
cil_key_range = codes "range"

abbrev pub cil_key_cons_dom : Text
cil_key_cons_dom = codes "dom"

abbrev pub cil_key_cons_domby : Text
cil_key_cons_domby = codes "domby"

abbrev pub cil_key_cons_incomp : Text
cil_key_cons_incomp = codes "incomp"

abbrev pub cil_key_cons_t1 : Text
cil_key_cons_t1 = codes "t1"

abbrev pub cil_key_cons_t2 : Text
cil_key_cons_t2 = codes "t2"

abbrev pub cil_key_cons_t3 : Text
cil_key_cons_t3 = codes "t3"

abbrev pub cil_key_cons_r1 : Text
cil_key_cons_r1 = codes "r1"

abbrev pub cil_key_cons_r2 : Text
cil_key_cons_r2 = codes "r2"

abbrev pub cil_key_cons_r3 : Text
cil_key_cons_r3 = codes "r3"

abbrev pub cil_key_cons_u1 : Text
cil_key_cons_u1 = codes "u1"

abbrev pub cil_key_cons_u2 : Text
cil_key_cons_u2 = codes "u2"

abbrev pub cil_key_cons_u3 : Text
cil_key_cons_u3 = codes "u3"

abbrev pub cil_key_cons_l1 : Text
cil_key_cons_l1 = codes "l1"

abbrev pub cil_key_cons_l2 : Text
cil_key_cons_l2 = codes "l2"

abbrev pub cil_key_cons_h1 : Text
cil_key_cons_h1 = codes "h1"

abbrev pub cil_key_cons_h2 : Text
cil_key_cons_h2 = codes "h2"

abbrev pub cil_key_self : Text
cil_key_self = codes "self"

abbrev pub cil_key_condtrue : Text
cil_key_condtrue = codes "true"

abbrev pub cil_key_condfalse : Text
cil_key_condfalse = codes "false"

abbrev pub cil_key_star : Text
cil_key_star = codes "*"

abbrev pub cil_key_source : Text
cil_key_source = codes "source"

abbrev pub cil_key_target : Text
cil_key_target = codes "target"

abbrev pub cil_key_low : Text
cil_key_low = codes "low"

abbrev pub cil_key_high : Text
cil_key_high = codes "high"

abbrev pub cil_key_low_high : Text
cil_key_low_high = codes "low-high"

abbrev pub cil_key_handleunknown_allow : Text
cil_key_handleunknown_allow = codes "allow"

abbrev pub cil_key_handleunknown_deny : Text
cil_key_handleunknown_deny = codes "deny"

abbrev pub cil_key_handleunknown_reject : Text
cil_key_handleunknown_reject = codes "reject"
