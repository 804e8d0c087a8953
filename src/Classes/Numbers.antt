-- ===== src/Classes/Numbers.antt =====
-- The numbers of a class's permissions when it has been built: from 0 on, in order.
use cil.Base.{
  ℕ, ◌+◌, ◌<◌, ◌≡◌, refl, ◌⊎◌, inl, inr, List, [], ◌∷◌, none, some, true, is_ok, Bool-cases,
  Option-cases, arith, length,
}
use mathlib.Core.Path.{subst}
use cil.Build.{Parent, ast_node, Tables, gen_node}
use cil.Build.Fill.{next, data_of, cl_head}
use cil.Classes.{
  Perm, Class, wrap, ClassBuilt, gen_perm_nodes, declare_class, named_class, class_syntax,
  perms_syntax, gen_class, gen_map_class, gen_common,
}
use cil.Flavor.{Flavor, cil_class, cil_map_class, cil_common, cil_perm, cil_map_perm}
use cil.Flavor.Index.{cil_sym_classes, cil_sym_commons, cil_sym_perms}
use cil.Hashtab.{Hashtab}
use cil.Text.{Text}
use cil.Tree.{Nodes, node, nil, cons}
use cil.Verify.{Syntax, verify_syntax}

abbrev pub NumberedFrom : ℕ → List Perm → Type 0
NumberedFrom n [] = Unit
NumberedFrom n (p ∷ ps) = (p.value ≡ n) × NumberedFrom (n + 1) ps

-- The permissions have the names that the nodes hold, in their order.
abbrev pub Declares : Nodes → List Perm → Type 0
Declares nil [] = Unit
Declares nil (p ∷ ps) = ⊥
Declares (cons n ns) [] = ⊥
Declares (cons (node l t cs) ns) (p ∷ ps) = (t ≡ some p.name) × (cs ≡ nil) × Declares ns ps

-- The permissions have the numbers below `num_perms`, each once.
pub record IsNumbered (c : Class) : Type 0 where
  pub values : NumberedFrom 0 c.perms
  pub number : c.num_perms ≡ length c.perms

-- A class without a common, with the permissions of the nodes.
pub record IsBuiltOf (ns : Nodes) (c : Class) : Type 0 where
  pub numbered : IsNumbered c
  pub declares : Declares ns c.perms
  pub unjoined : c.common ≡ none

unfoldable pub siblings : Nodes → ℕ
siblings nil = 0
siblings (cons n ns) = siblings ns + 1

pub wrap-small : (n : ℕ) → n < 4294967296 → wrap n ≡ n
wrap-small n h = omega (arith, h)

some-eq : {a b : Class} → some a ≡ some b → a ≡ b
some-eq p = cc

module _ {T : Type 0} (h : Hashtab T) where
  gen_perm_nodes-NumberedFrom :
      (flavor : Flavor) (parent : Parent) (ns : Nodes) (tables : Tables T) (d n : ℕ)
      → n + siblings ns < 4294967296
      → is_ok (gen_perm_nodes h flavor parent ns tables d n).status ≡ true
      → NumberedFrom n (gen_perm_nodes h flavor parent ns tables d n).perms
        × ((gen_perm_nodes h flavor parent ns tables d n).num_perms
            ≡ n + length (gen_perm_nodes h flavor parent ns tables d n).perms)
  unfolding gen_perm_nodes siblings
  gen_perm_nodes-NumberedFrom flavor parent nil tables d n small = λ _. (tt, omega arith)
  gen_perm_nodes-NumberedFrom flavor parent (cons (node l t (cons c cs)) ns) tables d n small =
      λ bad. absurd (cc)
  gen_perm_nodes-NumberedFrom flavor parent (cons (node l none nil) ns) tables d n small =
      λ bad. absurd (cc)
  gen_perm_nodes-NumberedFrom flavor parent (cons (node l (some key) nil) ns) tables d n small =
      let r = gen_node h parent tables d key cil_sym_perms flavor in
      let ih =
        gen_perm_nodes-NumberedFrom flavor parent ns r.tables (d + 1) (n + 1)
          (omega (arith, small)) in
      elim (Bool-cases (is_ok r.rc)) [
        | inr bad ↦ rw bad (λ no. absurd (cc))
        | inl good ↦
            rw (good, wrap-small (n + 1) (omega (arith, small)))
              (λ fine. let rest = ih fine in ((refl, rest.0), omega (arith, rest.1)))
      ]

  gen_perm_nodes-Declares :
      (flavor : Flavor) (parent : Parent) (ns : Nodes) (tables : Tables T) (d n : ℕ)
      → is_ok (gen_perm_nodes h flavor parent ns tables d n).status ≡ true
      → Declares ns (gen_perm_nodes h flavor parent ns tables d n).perms
  unfolding gen_perm_nodes
  gen_perm_nodes-Declares flavor parent nil tables d n = λ _. tt
  gen_perm_nodes-Declares flavor parent (cons (node l t (cons c cs)) ns) tables d n =
      λ bad. absurd (cc)
  gen_perm_nodes-Declares flavor parent (cons (node l none nil) ns) tables d n = λ bad. absurd (cc)
  gen_perm_nodes-Declares flavor parent (cons (node l (some key) nil) ns) tables d n =
      let r = gen_node h parent tables d key cil_sym_perms flavor in
      let ih = gen_perm_nodes-Declares flavor parent ns r.tables (d + 1) (wrap (n + 1)) in
      elim (Bool-cases (is_ok r.rc)) [
        | inr bad ↦ rw bad (λ no. absurd (cc))
        | inl good ↦ rw good (λ fine. (refl, refl, ih fine))
      ]

  declare_class-IsBuiltOf :
      (sflavor : ℕ) (nflavor perm_flavor : Flavor) (key : Text) (perms : Nodes) (parent : Parent)
      (tables : Tables T) (d : ℕ) (c : Class)
      → siblings perms < 4294967296
      → (declare_class h sflavor nflavor perm_flavor key perms parent tables d).class ≡ some c
      → IsBuiltOf perms c
  unfolding declare_class
  declare_class-IsBuiltOf sflavor nflavor perm_flavor key perms parent tables d c small =
      let r = gen_node h parent tables d key sflavor nflavor in
      let ps =
        gen_perm_nodes h perm_flavor (ast_node nflavor d [] parent) perms r.tables (d + 1) 0 in
      let numbers =
        gen_perm_nodes-NumberedFrom perm_flavor (ast_node nflavor d [] parent) perms r.tables
          (d + 1) 0 (omega (arith, small)) in
      elim (Bool-cases (is_ok r.rc)) [
        | inr bad ↦ rw bad (λ no. absurd (cc))
        | inl good ↦ elim (Bool-cases (is_ok ps.status)) [
          | inr worse ↦ rw (good, worse) (λ no. absurd (cc))
          | inl fine ↦
              rw (good, fine)
                (λ made. subst (IsBuiltOf perms) (some-eq made) (record {
                  numbered = record {
                    values = (numbers fine).0;
                    number = omega (arith, (numbers fine).1);
                  };
                  declares =
                      gen_perm_nodes-Declares perm_flavor (ast_node nflavor d [] parent) perms
                        r.tables (d + 1) 0 fine;
                  unjoined = refl;
                }))
        ]
      ]

  named_class-IsBuiltOf :
      (pc : Nodes) (syntax : List Syntax) (tables : Tables T) (k : Text → ClassBuilt T) (c : Class)
      → ((key : Text) → (k key).class ≡ some c → IsBuiltOf (cl_head (next (next pc))) c)
      → (named_class h pc syntax tables k).class ≡ some c
      → IsBuiltOf (cl_head (next (next pc))) c
  named_class-IsBuiltOf pc syntax tables k c each =
      elim (Bool-cases (is_ok (verify_syntax pc syntax))) [
        | inr bad ↦ rw bad (λ no. absurd (cc))
        | inl good ↦ elim (Option-cases (data_of (next pc))) [
          | inl missing ↦ rw (good, missing) (λ no. absurd (cc))
          | inr (key, there) ↦ rw (good, there) (each key)
        ]
      ]

-- A class, a map class or a common that has been built of a list of fewer than 2^32 permissions has
-- exactly the permissions that the list names, in its order and numbered from 0 on; `num_perms` is how
-- many there are, and there is no common yet.
pub classes-IsBuiltOf :
    {T : Type 0} (h : Hashtab T) (pc : Nodes) (parent : Parent) (tables : Tables T) (d : ℕ)
    (c : Class)
    → siblings (cl_head (next (next pc))) < 4294967296
    → ((gen_class h pc parent tables d).class ≡ some c)
      ⊎ (((gen_map_class h pc parent tables d).class ≡ some c)
          ⊎ ((gen_common h pc parent tables d).class ≡ some c))
    → IsBuiltOf (cl_head (next (next pc))) c
unfolding gen_class gen_map_class gen_common
classes-IsBuiltOf h pc parent tables d c small (inl made) =
    named_class-IsBuiltOf h pc (class_syntax h) tables _ c
      (λ key.
        declare_class-IsBuiltOf h cil_sym_classes cil_class cil_perm key (cl_head (next (next pc)))
          parent tables d c small)
      made
classes-IsBuiltOf h pc parent tables d c small (inr (inl made)) =
    named_class-IsBuiltOf h pc (perms_syntax h) tables _ c
      (λ key.
        declare_class-IsBuiltOf h cil_sym_classes cil_map_class cil_map_perm key
          (cl_head (next (next pc))) parent tables d c small)
      made
classes-IsBuiltOf h pc parent tables d c small (inr (inr made)) =
    named_class-IsBuiltOf h pc (perms_syntax h) tables _ c
      (λ key.
        declare_class-IsBuiltOf h cil_sym_commons cil_common cil_perm key (cl_head (next (next pc)))
          parent tables d c small)
      made
