-- ===== src/Passes/Stacks.antt =====
-- The stacks of calls and of optionals over a walk of a pass: what the first child pushes the last
-- child pops.
use cil.Base.{ℕ, ◌≡◌, refl, inl, inr, List, [], ◌∷◌, true, Status, is_ok, Bool-cases, arith, ◌∙◌}
use cil.Passes.{
  NodeData, ResolveArgs, Tree, Trees, Walked, disable_optional, first_child_helper,
  last_child_helper, after_children, node_helper, node_data, walk_siblings, walk_children,
  is_enoent, Verdict, refused, skipped, resolved, verdict, after_verdict,
}
use cil.Walk.{ast, no_ast, one_ast}

pub record SameStacks {D : Type 0} (before after : ResolveArgs D) : Type 0 where
  pub callstack : after.callstack ≡ before.callstack
  pub optstack : after.optstack ≡ before.optstack

same : {D : Type 0} (a : ResolveArgs D) → SameStacks a a
same a = record { callstack = refl; optstack = refl }

SameStacks-after :
    {D : Type 0} {a b c : ResolveArgs D} → SameStacks a b → SameStacks b c → SameStacks a c
SameStacks-after s t = record {
  callstack = t.callstack ∙ s.callstack;
  optstack = t.optstack ∙ s.optstack;
}

disable_optional-SameStacks :
    {D : Type 0} (rc : Status) (args : ResolveArgs D) (os : List ℕ)
    → SameStacks args (disable_optional rc args os).args
unfolding disable_optional
disable_optional-SameStacks rc args [] = same args
disable_optional-SameStacks rc args (o ∷ os) = elim (Bool-cases (is_enoent rc)) [
  | inl yep ↦ rw yep (record { callstack = refl; optstack = refl })
  | inr nope ↦ rw nope (same args)
]

changed_db :
    {D : Type 0} {a b : ResolveArgs D} {d : D} → SameStacks (record a { db = d }) b → SameStacks a b
changed_db s = record { callstack = s.callstack; optstack = s.optstack }

after_verdict-SameStacks :
    {D : Type 0} (v : Verdict) (r : Status × D) (args : ResolveArgs D)
    → SameStacks args (after_verdict v r args).args
unfolding after_verdict
after_verdict-SameStacks refused r args = same args
after_verdict-SameStacks skipped r args = same args
after_verdict-SameStacks resolved r args =
    changed_db (disable_optional-SameStacks r.0 (record args { db = r.1 }) args.optstack)

pushed-popped-callstack :
    {D : Type 0} (i : NodeData) (args after : ResolveArgs D)
    → is_ok (first_child_helper i args).0 ≡ true
    → SameStacks (first_child_helper i args).1 after
    → (last_child_helper i after).callstack ≡ args.callstack
unfolding first_child_helper last_child_helper
pushed-popped-callstack i args after fine s = ground (arith, s.callstack)

pushed-popped-optstack :
    {D : Type 0} (i : NodeData) (args after : ResolveArgs D)
    → is_ok (first_child_helper i args).0 ≡ true
    → SameStacks (first_child_helper i args).1 after
    → (last_child_helper i after).optstack ≡ args.optstack
unfolding first_child_helper last_child_helper
pushed-popped-optstack i args after fine s = ground (arith, s.optstack)

after_children-SameStacks :
    {D : Type 0} (i : NodeData) (args : ResolveArgs D) (w : Walked D Trees)
    → is_ok (first_child_helper i args).0 ≡ true
    → (is_ok w.status ≡ true → SameStacks (first_child_helper i args).1 w.args)
    → is_ok (after_children i w).status ≡ true
    → SameStacks args (after_children i w).args
unfolding after_children
after_children-SameStacks i args w fine s = elim (Bool-cases (is_ok w.status)) [
  | inr bad ↦ rw bad (λ h. absurd (cc))
  | inl good ↦ rw good (λ _. record {
    callstack = pushed-popped-callstack i args w.args fine (s good);
    optstack = pushed-popped-optstack i args w.args fine (s good);
  })
]

module _ {D : Type 0} (resolve : ℕ → NodeData → ResolveArgs D → Status × D) (pass : ℕ) where
  pub node_helper-SameStacks :
      (i : NodeData) (args : ResolveArgs D) → SameStacks args (node_helper resolve pass i args).args
  unfolding node_helper
  node_helper-SameStacks i args =
      after_verdict-SameStacks (verdict pass i args) (resolve pass i args) args

  mutual
    unfolding walk_siblings

    siblings-SameStacks :
        (ns : Trees) (args : ResolveArgs D)
        → is_ok (walk_siblings resolve pass ns args).status ≡ true
        → SameStacks args (walk_siblings resolve pass ns args).args
    siblings-SameStacks no_ast args = λ _. same args
    siblings-SameStacks (one_ast n ns) args =
        let p = node_helper resolve pass (node_data n) args in
        let start = node_helper-SameStacks (node_data n) args in
        let w = walk_children resolve pass n p.args in
        elim (Bool-cases (is_ok p.status)) [
          | inr bad ↦ rw bad (λ h. absurd (cc))
          | inl fine ↦ elim (Bool-cases p.skip_head) [
            | inl skip ↦
                rw (fine, skip) (λ h. SameStacks-after start (siblings-SameStacks ns p.args h))
            | inr enter ↦ elim (Bool-cases (is_ok w.status)) [
              | inl good ↦
                  rw (fine, enter, good)
                    (λ h. SameStacks-after start (
                      SameStacks-after (children-SameStacks n p.args good)
                        (siblings-SameStacks ns w.args h)))
              | inr worse ↦ rw (fine, enter, worse) (λ h. absurd (cc))
            ]
          ]
        ]

    children-SameStacks :
        (tree : Tree) (args : ResolveArgs D)
        → is_ok (walk_children resolve pass tree args).status ≡ true
        → SameStacks args (walk_children resolve pass tree args).args
    children-SameStacks (ast i no_ast) args = λ _. same args
    children-SameStacks (ast i (one_ast n ns)) args =
        let first = first_child_helper i args in
        let w = walk_siblings resolve pass (one_ast n ns) first.1 in
        elim (Bool-cases (is_ok first.0)) [
          | inr bad ↦ rw bad (λ h. absurd (cc))
          | inl fine ↦
              rw fine (
                after_children-SameStacks i args w fine
                  (siblings-SameStacks (one_ast n ns) first.1))
        ]

  -- A pass over a node that returns SEPOL_OK leaves the stacks of calls and of optionals as they
  -- were, whatever it resolves and destroys.
  pub walk_children-SameStacks :
      (tree : Tree) (args : ResolveArgs D)
      → is_ok (walk_children resolve pass tree args).status ≡ true
      → SameStacks args (walk_children resolve pass tree args).args
  walk_children-SameStacks = children-SameStacks
