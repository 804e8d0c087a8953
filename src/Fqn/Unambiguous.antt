-- ===== src/Fqn/Unambiguous.antt =====
-- Full names of names that the verifier accepts: they tell the path of blocks and the name.
use cil.Base.{
  ◌≡◌, ◌≢◌, refl, sym, ap, ◌∙◌, ◌==◌, true, false, some, is_ok, length, length-append, List, [],
  ◌∷◌, ◌++◌, append_assoc, sepol_ok, arith,
}
use cil.Text.{Text}
use cil.Fqn.{dot, Datum, qualify_decl}
use cil.Fqn.Paths.{dotted, full_name}
use cil.Fqn.Qualified.{args_of, qualify_decl-Agrees}
use cil.Verify.Names.{verify_name, IsName, AllNameChars, verify_name-IsName}

abbrev pub HasNoDot : Text → Type 0
HasNoDot [] = Unit
HasNoDot (c ∷ cs) = (c ≢ dot) × HasNoDot cs

abbrev pub AreNames : List Text → Type 0
AreNames [] = Unit
AreNames (p ∷ ps) = (verify_name p ≡ sepol_ok) × AreNames ps

AllNameChars-HasNoDot : (cs : Text) → AllNameChars cs → HasNoDot cs
AllNameChars-HasNoDot [] h = tt
AllNameChars-HasNoDot (c ∷ cs) (h, k) = (λ e. ground arith, AllNameChars-HasNoDot cs k)

IsName-HasNoDot : (t : Text) → IsName t → HasNoDot t
IsName-HasNoDot [] h = tt
IsName-HasNoDot (c ∷ cs) h = (λ e. ground arith, AllNameChars-HasNoDot cs h.1)

verify_name-HasNoDot : (t : Text) → verify_name t ≡ sepol_ok → HasNoDot t
verify_name-HasNoDot t h = IsName-HasNoDot t ((verify_name-IsName t).0 h)

-- The first dot splits a text in one way.
dot_splits :
    (p q xs ys : Text)
    → HasNoDot p
    → HasNoDot q
    → p ++ dot ∷ xs ≡ q ++ dot ∷ ys
    → (p ≡ q) × (xs ≡ ys)
dot_splits [] [] xs ys h k e = (refl, cc)
dot_splits [] (d ∷ q) xs ys h (k, l) e = absurd (k (cc))
dot_splits (c ∷ p) [] xs ys (h, l) k e = absurd (h (cc))
dot_splits (c ∷ p) (d ∷ q) xs ys (h, i) (k, l) e =
    let same = dot_splits p q xs ys i l (cc) in (cc, same.1)

dot_absent : (p xs n : Text) → HasNoDot n → n ≡ p ++ dot ∷ xs → ⊥
dot_absent [] xs [] k e = cc
dot_absent [] xs (d ∷ n) (k, l) e = k (cc)
dot_absent (c ∷ p) xs [] k e = cc
dot_absent (c ∷ p) xs (d ∷ n) (k, l) e = dot_absent p xs n l (cc)

full_name-cons :
    (p : Text) (ps : List Text) (n : Text) → full_name (p ∷ ps) n ≡ p ++ dot ∷ full_name ps n
unfolding full_name dotted
full_name-cons p ps n = append_assoc p (dot ∷ dotted ps) n

full_name-verify_name :
    (ps qs : List Text) (m n : Text)
    → AreNames ps
    → AreNames qs
    → verify_name m ≡ sepol_ok
    → verify_name n ≡ sepol_ok
    → full_name ps m ≡ full_name qs n
    → (ps ≡ qs) × (m ≡ n)
unfolding full_name dotted
full_name-verify_name [] [] m n a b h k e = (refl, e)
full_name-verify_name [] (q ∷ qs) m n a b h k e =
    absurd (dot_absent q (full_name qs n) m (verify_name-HasNoDot m h) (e ∙ full_name-cons q qs n))
full_name-verify_name (p ∷ ps) [] m n a b h k e =
    absurd
      (dot_absent p (full_name ps m) n (verify_name-HasNoDot n k) (sym e ∙ full_name-cons p ps m))
full_name-verify_name (p ∷ ps) (q ∷ qs) m n (a, c) (b, d) h k e =
    let (same, rest) =
      dot_splits p q (full_name ps m) (full_name qs n) (verify_name-HasNoDot p a)
        (verify_name-HasNoDot q b) (sym (full_name-cons p ps m) ∙ e ∙ full_name-cons q qs n) in
    let (path, name) = full_name-verify_name ps qs m n c d h k rest in (cc, name)

dotted_ne : (p : Text) (ps : List Text) → (length (dotted (p ∷ ps)) == 0) ≡ false
unfolding dotted
dotted_ne p ps = ground (arith, length-append p (dot ∷ dotted ps))

qualify_decl-fqn :
    (p : Text) (ps : List Text) (d : Datum)
    → is_ok (qualify_decl (args_of (p ∷ ps)) d).0 ≡ true
    → (qualify_decl (args_of (p ∷ ps)) d).1.fqn ≡ some (full_name (p ∷ ps) d.name)
qualify_decl-fqn p ps d h =
    let (a, b) = qualify_decl-Agrees (p ∷ ps) d (dotted_ne p ps) in ap (λ x. x.fqn) (b (sym a ∙ h))

some_same : (a b : Text) → some a ≡ some b → a ≡ b
some_same a b h = cc

-- Two declarations in blocks that get the same fully qualified name have the same name, and the
-- blocks that they stand in have the same names, where the verifier accepts all of these names.
pub qualify_decl-verify_name :
    (p q : Text) (ps qs : List Text) (d e : Datum)
    → AreNames (p ∷ d.name ∷ ps)
    → AreNames (q ∷ e.name ∷ qs)
    → is_ok (qualify_decl (args_of (p ∷ ps)) d).0 ≡ true
    → is_ok (qualify_decl (args_of (q ∷ qs)) e).0 ≡ true
    → (qualify_decl (args_of (p ∷ ps)) d).1.fqn ≡ (qualify_decl (args_of (q ∷ qs)) e).1.fqn
    → (p ∷ ps ≡ q ∷ qs) × (d.name ≡ e.name)
qualify_decl-verify_name p q ps qs d e (a, (b, c)) (f, (g, h)) i j k =
    full_name-verify_name (p ∷ ps) (q ∷ qs) d.name e.name (a, c) (f, h) b g
      (some_same (full_name (p ∷ ps) d.name) (full_name (q ∷ qs) e.name)
        (sym (qualify_decl-fqn p ps d i) ∙ k ∙ qualify_decl-fqn q qs e j))
