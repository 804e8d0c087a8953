-- ===== src/Passes/Found.antt =====
-- Within an optional no pass returns SEPOL_ENOENT.
use cil.Base.{
  ℕ, ◌≡◌, refl, inl, inr, List, [], ◌∷◌, Bool, true, false, Status, is_ok, Bool-cases, arith, ◌==◌,
  ◌||◌,
}
use cil.Flavor.{cil_optional}
use cil.Passes.{
  NodeData, ResolveArgs, Tree, Trees, Walked, disable_optional, first_child_helper, after_children,
  node_helper, node_data, walk_siblings, walk_children, is_enoent, in_optional, Verdict, refused,
  skipped, resolved, verdict, after_verdict,
}
use cil.Passes.Stacks.{SameStacks, walk_children-SameStacks, node_helper-SameStacks}
use cil.Walk.{ast, no_ast, one_ast}

disable_optional-found :
    {D : Type 0} (rc : Status) (args : ResolveArgs D) (os : List ℕ)
    → in_optional os ≡ true
    → is_enoent (disable_optional rc args os).status ≡ false
unfolding disable_optional
disable_optional-found rc args [] h = absurd (cc)
disable_optional-found rc args (o ∷ os) h = elim (Bool-cases (is_enoent rc)) [
  | inl yep ↦ rw yep refl
  | inr nope ↦ rw nope nope
]

after_verdict-found :
    {D : Type 0} (v : Verdict) (r : Status × D) (args : ResolveArgs D)
    → in_optional args.optstack ≡ true
    → is_enoent (after_verdict v r args).status ≡ false
unfolding after_verdict
after_verdict-found refused r args h = refl
after_verdict-found skipped r args h = refl
after_verdict-found resolved r args h =
    disable_optional-found r.0 (record args { db = r.1 }) args.optstack h

pub still_in_optional :
    {D : Type 0} {before after : ResolveArgs D}
    → SameStacks before after
    → in_optional before.optstack ≡ true
    → in_optional after.optstack ≡ true
still_in_optional s h = rw s.optstack h

first_child_helper-found :
    {D : Type 0} (i : NodeData) (args : ResolveArgs D)
    → is_enoent (first_child_helper i args).0 ≡ false
unfolding first_child_helper
first_child_helper-found i args = ground arith

pub first_child_helper-in_optional :
    {D : Type 0} (i : NodeData) (args : ResolveArgs D)
    → (i.flavor == cil_optional || in_optional args.optstack) ≡ true
    → is_ok (first_child_helper i args).0 ≡ true
    → in_optional (first_child_helper i args).1.optstack ≡ true
unfolding first_child_helper
first_child_helper-in_optional i args h fine = ground arith

after_children-found :
    {D : Type 0} (i : NodeData) (w : Walked D Trees)
    → is_enoent w.status ≡ false
    → is_enoent (after_children i w).status ≡ false
unfolding after_children
after_children-found i w h = elim (Bool-cases (is_ok w.status)) [
  | inr bad ↦ rw bad h
  | inl good ↦ rw good refl
]

pub inside : (b : Bool) (o : Bool) → o ≡ true → (b || o) ≡ true
inside b o h = ground arith

module _ {D : Type 0} (resolve : ℕ → NodeData → ResolveArgs D → Status × D) (pass : ℕ) where
  node_helper-found :
      (i : NodeData) (args : ResolveArgs D)
      → in_optional args.optstack ≡ true
      → is_enoent (node_helper resolve pass i args).status ≡ false
  unfolding node_helper
  node_helper-found i args h =
      after_verdict-found (verdict pass i args) (resolve pass i args) args h

  mutual
    unfolding walk_siblings

    siblings-found :
        (ns : Trees) (args : ResolveArgs D)
        → in_optional args.optstack ≡ true
        → is_enoent (walk_siblings resolve pass ns args).status ≡ false
    siblings-found no_ast args h = refl
    siblings-found (one_ast n ns) args h =
        let p = node_helper resolve pass (node_data n) args in
        let start = still_in_optional (node_helper-SameStacks resolve pass (node_data n) args) h in
        let w = walk_children resolve pass n p.args in
        elim (Bool-cases (is_ok p.status)) [
          | inr bad ↦ rw bad (node_helper-found (node_data n) args h)
          | inl fine ↦ elim (Bool-cases p.skip_head) [
            | inl skip ↦ rw (fine, skip) (siblings-found ns p.args start)
            | inr enter ↦ elim (Bool-cases (is_ok w.status)) [
              | inl good ↦
                  rw (fine, enter, good)
                    (siblings-found ns w.args (
                      still_in_optional (walk_children-SameStacks resolve pass n p.args good)
                        start))
              | inr worse ↦
                  rw (fine, enter, worse)
                    (children-found n p.args
                      (inside ((node_data n).flavor == cil_optional) _ start))
            ]
          ]
        ]

    pub children-found :
        (tree : Tree) (args : ResolveArgs D)
        → ((node_data tree).flavor == cil_optional || in_optional args.optstack) ≡ true
        → is_enoent (walk_children resolve pass tree args).status ≡ false
    children-found (ast i no_ast) args h = refl
    children-found (ast i (one_ast n ns)) args h =
        let first = first_child_helper i args in
        let w = walk_siblings resolve pass (one_ast n ns) first.1 in
        elim (Bool-cases (is_ok first.0)) [
          | inr bad ↦ rw bad (first_child_helper-found i args)
          | inl fine ↦ rw fine (
              after_children-found i w (
                siblings-found (one_ast n ns) first.1
                  (first_child_helper-in_optional i args h fine)))
        ]
