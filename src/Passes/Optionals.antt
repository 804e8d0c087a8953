-- ===== src/Passes/Optionals.antt =====
-- A pass that says that something has changed has destroyed the children of an optional.
use cil.Base.{
  ℕ, ◌+◌, ◌≤◌, ◌<◌, ◌≡◌, refl, ◌⊎◌, inl, inr, List, [], ◌∷◌, Bool, true, false, ◌==◌, if◌then◌else◌,
  Status, is_ok, Bool-cases, arith, sym, ◌∙◌, and-eq-true,
}
use cil.Flavor.{cil_optional}
use cil.Passes.{
  NodeData, ResolveArgs, Tree, Trees, Walked, disable_optional, first_child_helper, destroys,
  last_child_helper, after_children, node_helper, node_data, walk_siblings, walk_children,
  is_enoent, is_among, Verdict, refused, skipped, resolved, verdict, after_verdict,
}
use cil.Passes.Loop.{optionals, optionals_among}
use cil.Walk.{ast, no_ast, one_ast}

-- From a number of optionals and a flag to others.
pub record Shrinks (n n' : ℕ) (c c' : Bool) : Type 0 where
  pub no_more : n' ≤ n
  pub fewer : c' ≡ true → (c ≡ true) ⊎ (n' < n)

same-Shrinks : (n : ℕ) (c : Bool) → Shrinks n n c c
same-Shrinks n c = record { no_more = omega arith; fewer = λ h. inl h }

-- One part after another, with a part that stays.
Shrinks-both :
    {a a' b b' : ℕ} {c c' c'' : Bool}
    → Shrinks a a' c c'
    → Shrinks b b' c' c''
    → Shrinks (a + b) (a' + b') c c''
Shrinks-both s t = record {
  no_more = ground (arith, s.no_more, t.no_more);
  fewer = λ h. elim (t.fewer h) [
    | inr less ↦ inr (ground (arith, s.no_more))
    | inl earlier ↦ elim (s.fewer earlier) [
      | inl at_first ↦ inl at_first
      | inr less ↦ inr (ground (arith, t.no_more))
    ]
  ];
}

disable_optional-changed :
    {D : Type 0} (rc : Status) (args : ResolveArgs D) (os : List ℕ)
    → (disable_optional rc args os).args.changed ≡ args.changed
unfolding disable_optional
disable_optional-changed rc args [] = refl
disable_optional-changed rc args (o ∷ os) = elim (Bool-cases (is_enoent rc)) [
  | inl yep ↦ rw yep refl
  | inr nope ↦ rw nope refl
]

first_child_helper-changed :
    {D : Type 0} (i : NodeData) (args : ResolveArgs D)
    → (first_child_helper i args).1.changed ≡ args.changed
unfolding first_child_helper
first_child_helper-changed i args = ground arith

Shrinks-from : {n n' : ℕ} {c d e : Bool} → c ≡ d → Shrinks n n' c e → Shrinks n n' d e
Shrinks-from p s = record {
  no_more = s.no_more;
  fewer = λ h. elim (s.fewer h) [ inl q ↦ inl (sym p ∙ q) | inr less ↦ inr less ];
}

Shrinks-to : {n n' : ℕ} {c d e : Bool} → e ≡ d → Shrinks n n' c d → Shrinks n n' c e
Shrinks-to p s = record { no_more = s.no_more; fewer = λ h. s.fewer (sym p ∙ h) }

last_child_helper-changed :
    {D : Type 0} (i : NodeData) (args : ResolveArgs D)
    → destroys i args ≡ false
    → (last_child_helper i args).changed ≡ args.changed
unfolding last_child_helper
last_child_helper-changed i args h = ground arith

-- The children of a node, and what is left of them.
top-Shrinks :
    (i : NodeData) (n : Tree) (ns ns' : Trees) {c c' : Bool}
    → Shrinks (optionals_among (one_ast n ns)) (optionals_among ns') c c'
    → Shrinks (optionals (ast i (one_ast n ns))) (optionals (ast i ns')) c c'
unfolding optionals
top-Shrinks i n ns no_ast s = record {
  no_more = omega arith;
  fewer = λ h. elim (s.fewer h) [ inl q ↦ inl q | inr less ↦ inr (omega (arith, less)) ];
}
top-Shrinks i n ns (one_ast m ms) s = record {
  no_more = omega (arith, s.no_more);
  fewer = λ h. elim (s.fewer h) [ inl q ↦ inl q | inr less ↦ inr (omega (arith, less)) ];
}

destroyed-Shrinks :
    {D : Type 0} (i : NodeData) (n : Tree) (ns : Trees) (args : ResolveArgs D) (c c' : Bool)
    → destroys i args ≡ true
    → Shrinks (optionals (ast i (one_ast n ns))) (optionals (ast i no_ast)) c c'
unfolding optionals
destroyed-Shrinks i n ns args c c' h =
    let is_optional = and-eq-true (i.flavor == cil_optional) (is_among i.addr args.disabled) h in
    rw is_optional.0 (record { no_more = omega arith; fewer = λ _. inr (omega arith) })

kept_nodes : (b : Bool) (ns : Trees) → b ≡ false → (if b then no_ast else ns) ≡ ns
kept_nodes b ns h = rw h refl

after_children-Shrinks :
    {D : Type 0} (i : NodeData) (n : Tree) (ns : Trees) (w : Walked D Trees) (c : Bool)
    → Shrinks (optionals_among (one_ast n ns)) (optionals_among w.nodes) c w.args.changed
    → Shrinks
        (optionals (ast i (one_ast n ns)))
        (optionals (after_children i w).nodes)
        c
        (after_children i w).args.changed
unfolding after_children
after_children-Shrinks i n ns w c s = elim (Bool-cases (is_ok w.status)) [
  | inr worse ↦ rw worse (top-Shrinks i n ns w.nodes s)
  | inl good ↦ elim (Bool-cases (destroys i w.args)) [
    | inl gone ↦ rw (good, gone) (destroyed-Shrinks i n ns w.args c _ gone)
    | inr kept ↦
        rw (good, kept_nodes _ w.nodes kept)
          (Shrinks-to (last_child_helper-changed i w.args kept) (top-Shrinks i n ns w.nodes s))
  ]
]

after_verdict-changed :
    {D : Type 0} (v : Verdict) (r : Status × D) (args : ResolveArgs D)
    → (after_verdict v r args).args.changed ≡ args.changed
unfolding after_verdict
after_verdict-changed refused r args = refl
after_verdict-changed skipped r args = refl
after_verdict-changed resolved r args =
    disable_optional-changed r.0 (record args { db = r.1 }) args.optstack

module _ {D : Type 0} (resolve : ℕ → NodeData → ResolveArgs D → Status × D) (pass : ℕ) where
  node_helper-changed :
      (i : NodeData) (args : ResolveArgs D)
      → (node_helper resolve pass i args).args.changed ≡ args.changed
  unfolding node_helper
  node_helper-changed i args =
      after_verdict-changed (verdict pass i args) (resolve pass i args) args

  mutual
    unfolding walk_siblings optionals

    pub walk_siblings-Shrinks :
        (ns : Trees) (args : ResolveArgs D)
        → Shrinks
            (optionals_among ns)
            (optionals_among (walk_siblings resolve pass ns args).nodes)
            args.changed
            (walk_siblings resolve pass ns args).args.changed
    walk_siblings-Shrinks no_ast args = same-Shrinks 0 args.changed
    walk_siblings-Shrinks (one_ast n ns) args =
        let p = node_helper resolve pass (node_data n) args in
        let start = node_helper-changed (node_data n) args in
        let below = walk_children-Shrinks n p.args in
        let w = walk_children resolve pass n p.args in
        elim (Bool-cases (is_ok p.status)) [
          | inr bad ↦ rw bad (Shrinks-from start (same-Shrinks _ p.args.changed))
          | inl fine ↦ elim (Bool-cases p.skip_head) [
            | inl skip ↦
                rw (fine, skip)
                  (Shrinks-from start (
                    Shrinks-both (same-Shrinks (optionals n) p.args.changed)
                      (walk_siblings-Shrinks ns p.args)))
            | inr enter ↦ elim (Bool-cases (is_ok w.status)) [
              | inl good ↦
                  rw (fine, enter, good)
                    (Shrinks-from start (Shrinks-both below (walk_siblings-Shrinks ns w.args)))
              | inr worse ↦
                  rw (fine, enter, worse)
                    (Shrinks-from start
                      (Shrinks-both below (same-Shrinks (optionals_among ns) w.args.changed)))
            ]
          ]
        ]

    pub walk_children-Shrinks :
        (n : Tree) (args : ResolveArgs D)
        → Shrinks
            (optionals n)
            (optionals (walk_children resolve pass n args).nodes)
            args.changed
            (walk_children resolve pass n args).args.changed
    walk_children-Shrinks (ast i no_ast) args = same-Shrinks 0 args.changed
    walk_children-Shrinks (ast i (one_ast n ns)) args =
        let first = first_child_helper i args in
        let start = first_child_helper-changed i args in
        let w = walk_siblings resolve pass (one_ast n ns) first.1 in
        let s = Shrinks-from start (walk_siblings-Shrinks (one_ast n ns) first.1) in
        elim (Bool-cases (is_ok first.0)) [
          | inr bad ↦ rw bad (Shrinks-from start (same-Shrinks _ first.1.changed))
          | inl fine ↦ rw fine (after_children-Shrinks i n ns w args.changed s)
        ]
