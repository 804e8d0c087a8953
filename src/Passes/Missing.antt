-- ===== src/Passes/Missing.antt =====
-- What ends a pass within an optional, where a statement that is not found does not.
use cil.Base.{
  ℕ, ◌≡◌, refl, inl, inr, List, [], ◌∷◌, true, false, Status, is_ok, Bool-cases, arith, ◌==◌, ◌||◌,
  ◌⊎◌, sepol_err,
}
use mathlib.Core.Path.{subst}
use cil.Flavor.{cil_optional, cil_call}
use cil.Passes.{
  NodeData, ResolveArgs, Tree, Trees, Walked, disable_optional, first_child_helper, after_children,
  node_helper, node_data, walk_siblings, walk_children, is_enoent, in_optional, Verdict, refused,
  skipped, resolved, verdict, after_verdict,
}
use cil.Passes.Stacks.{walk_children-SameStacks, node_helper-SameStacks}
use cil.Walk.{ast, no_ast, one_ast}
use cil.Passes.Found.{still_in_optional, first_child_helper-in_optional, inside}

-- What ends a pass at a node: the statement may not stand there, or its resolution fails with a
-- status other than SEPOL_ENOENT.
pub data StopsAt {D : Type 0} (resolve : ℕ → NodeData → ResolveArgs D → Status × D) (pass : ℕ)
    (rc : Status) (i : NodeData) : Type 0 where
  refuses :
      (args : ResolveArgs D)
      → verdict pass i args ≡ refused
      → rc ≡ sepol_err
      → StopsAt resolve pass rc i
  fails :
      (args : ResolveArgs D)
      → verdict pass i args ≡ resolved
      → (resolve pass i args).0 ≡ rc
      → is_ok rc ≡ false
      → is_enoent rc ≡ false
      → StopsAt resolve pass rc i

-- What ends a pass below a node: something at one of the nodes there, or a call that is refused as
-- recursive.
mutual
  pub data Stops {D : Type 0} (resolve : ℕ → NodeData → ResolveArgs D → Status × D) (pass : ℕ)
      (rc : Status) : Tree → Type 0 where
    recursive_call :
        (i : NodeData) (ns : Trees) (args : ResolveArgs D)
        → i.flavor ≡ cil_call
        → (first_child_helper i args).0 ≡ rc
        → is_ok rc ≡ false
        → Stops resolve pass rc (ast i ns)
    below :
        (i : NodeData) (ns : Trees)
        → StopsAmong resolve pass rc ns
        → Stops resolve pass rc (ast i ns)

  pub data StopsAmong {D : Type 0} (resolve : ℕ → NodeData → ResolveArgs D → Status × D) (pass : ℕ)
      (rc : Status) : Trees → Type 0 where
    at_node :
        (n : Tree) (ns : Trees)
        → StopsAt resolve pass rc (node_data n)
        → StopsAmong resolve pass rc (one_ast n ns)
    below_node :
        (n : Tree) (ns : Trees)
        → Stops resolve pass rc n
        → StopsAmong resolve pass rc (one_ast n ns)
    later :
        (n : Tree) (ns : Trees)
        → StopsAmong resolve pass rc ns
        → StopsAmong resolve pass rc (one_ast n ns)

disable_optional-kept :
    {D : Type 0} (rc : Status) (args : ResolveArgs D) (os : List ℕ)
    → in_optional os ≡ true
    → is_ok (disable_optional rc args os).status ≡ false
    → (rc ≡ (disable_optional rc args os).status) × (is_enoent rc ≡ false)
unfolding disable_optional
disable_optional-kept rc args [] h = λ _. absurd (cc)
disable_optional-kept rc args (o ∷ os) h = elim (Bool-cases (is_enoent rc)) [
  | inl yep ↦ rw yep (λ bad. absurd (cc))
  | inr nope ↦ rw nope (λ _. (refl, refl))
]

not_call-first_child_helper :
    {D : Type 0} (i : NodeData) (args : ResolveArgs D)
    → is_ok (first_child_helper i args).0 ≡ false
    → i.flavor ≡ cil_call
unfolding first_child_helper
not_call-first_child_helper i args bad = ground (arith, bad)

module _ {D : Type 0} (resolve : ℕ → NodeData → ResolveArgs D → Status × D) (pass : ℕ) where
  after_verdict-StopsAt :
      (i : NodeData) (args : ResolveArgs D) (v : Verdict)
      → verdict pass i args ≡ v
      → in_optional args.optstack ≡ true
      → is_ok (after_verdict v (resolve pass i args) args).status ≡ false
      → StopsAt resolve pass (after_verdict v (resolve pass i args) args).status i
  unfolding after_verdict
  after_verdict-StopsAt i args refused e h bad = refuses args e refl
  after_verdict-StopsAt i args skipped e h bad = absurd (cc)
  after_verdict-StopsAt i args resolved e h bad =
      let r = resolve pass i args in
      let kept = disable_optional-kept r.0 (record args { db = r.1 }) args.optstack h bad in
      fails args e kept.0 bad (subst (λ rc. is_enoent rc ≡ false) kept.0 kept.1)

  node_helper-StopsAt :
      (i : NodeData) (args : ResolveArgs D)
      → in_optional args.optstack ≡ true
      → is_ok (node_helper resolve pass i args).status ≡ false
      → StopsAt resolve pass (node_helper resolve pass i args).status i
  unfolding node_helper
  node_helper-StopsAt i args h bad = after_verdict-StopsAt i args (verdict pass i args) refl h bad

  after_children-Stops :
      (i : NodeData) (ns : Trees) (w : Walked D Trees)
      → (is_ok w.status ≡ true) ⊎ StopsAmong resolve pass w.status ns
      → (is_ok (after_children i w).status ≡ true)
        ⊎ Stops resolve pass (after_children i w).status (ast i ns)
  unfolding after_children
  after_children-Stops i ns w (inl good) = rw good (inl refl)
  after_children-Stops i ns w (inr s) = elim (Bool-cases (is_ok w.status)) [
    | inl good ↦ rw good (inl refl)
    | inr bad ↦ rw bad (inr (below i ns s))
  ]

  among :
      (n : Tree) (ns : Trees) (rc : Status)
      → (is_ok rc ≡ true) ⊎ StopsAmong resolve pass rc ns
      → (is_ok rc ≡ true) ⊎ StopsAmong resolve pass rc (one_ast n ns)
  among n ns rc (inl good) = inl good
  among n ns rc (inr s) = inr (later n ns s)

  under :
      (n : Tree) (ns : Trees) (rc : Status)
      → (is_ok rc ≡ true) ⊎ Stops resolve pass rc n
      → (is_ok rc ≡ true) ⊎ StopsAmong resolve pass rc (one_ast n ns)
  under n ns rc (inl good) = inl good
  under n ns rc (inr s) = inr (below_node n ns s)

  mutual
    unfolding walk_siblings

    siblings-StopsAmong :
        (ns : Trees) (args : ResolveArgs D)
        → in_optional args.optstack ≡ true
        → (is_ok (walk_siblings resolve pass ns args).status ≡ true)
          ⊎ StopsAmong resolve pass (walk_siblings resolve pass ns args).status ns
    siblings-StopsAmong no_ast args h = inl refl
    siblings-StopsAmong (one_ast n ns) args h =
        let p = node_helper resolve pass (node_data n) args in
        let start = still_in_optional (node_helper-SameStacks resolve pass (node_data n) args) h in
        let w = walk_children resolve pass n p.args in
        elim (Bool-cases (is_ok p.status)) [
          | inr bad ↦ rw bad (inr (at_node n ns (node_helper-StopsAt (node_data n) args h bad)))
          | inl fine ↦ elim (Bool-cases p.skip_head) [
            | inl skip ↦ rw (fine, skip) (among n ns _ (siblings-StopsAmong ns p.args start))
            | inr enter ↦ elim (Bool-cases (is_ok w.status)) [
              | inl good ↦
                  rw (fine, enter, good)
                    (among n ns _ (
                      siblings-StopsAmong ns w.args (
                        still_in_optional (walk_children-SameStacks resolve pass n p.args good)
                          start)))
              | inr worse ↦
                  rw (fine, enter, worse)
                    (under n ns w.status (
                      children-Stops n p.args
                        (inside ((node_data n).flavor == cil_optional) _ start)))
            ]
          ]
        ]

    children-Stops :
        (tree : Tree) (args : ResolveArgs D)
        → ((node_data tree).flavor == cil_optional || in_optional args.optstack) ≡ true
        → (is_ok (walk_children resolve pass tree args).status ≡ true)
          ⊎ Stops resolve pass (walk_children resolve pass tree args).status tree
    children-Stops (ast i no_ast) args h = inl refl
    children-Stops (ast i (one_ast n ns)) args h =
        let first = first_child_helper i args in
        let w = walk_siblings resolve pass (one_ast n ns) first.1 in
        elim (Bool-cases (is_ok first.0)) [
          | inr bad ↦ rw bad (
              inr (
                recursive_call i (one_ast n ns) args (not_call-first_child_helper i args bad) refl
                  bad))
          | inl fine ↦ rw fine (
              after_children-Stops i (one_ast n ns) w (
                siblings-StopsAmong (one_ast n ns) first.1
                  (first_child_helper-in_optional i args h fine)))
        ]
