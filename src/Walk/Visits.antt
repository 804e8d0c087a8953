-- ===== src/Walk/Visits.antt =====
-- A walk as a run over the list of the nodes that it visits.
use cil.Base.{
  ℕ, ◌≡◌, refl, ap, ◌∙◌, inl, inr, List, [], ◌∷◌, ◌++◌, none, some, if◌then◌else◌, Status, sepol_ok,
  sepol_err, sepol_enoent, sepol_eexist, is_ok, Bool-cases,
}
use cil.Walk.{
  Ast, Asts, ast, no_ast, one_ast, Processed, skips_next, skips_head, walk_core, walk, and_then,
}

abbrev pub children_of : {A : Type 0} → Ast A → Asts A
children_of (ast c children) = children

module _ {A S : Type 0} (finished_for : Ast A → ℕ) (visit : Ast A → S → Status × S) where
  -- A `process_node` whose `*finished` depends on the node alone.
  abbrev pub process : Ast A → S → Processed S
  process a s = let r = visit a s in record { status = r.0; finished = finished_for a; state = r.1 }

  -- The nodes in the order of the walk: a node, the nodes below it, and its siblings. SKIP_HEAD
  -- leaves out those below, and SKIP_NEXT those and the siblings behind.
  unfoldable pub visits : Asts A → List (Ast A)
  visits no_ast = []
  visits (one_ast (ast c children) as1) =
      let a = ast c children in
      let below = visits children in
      let rest = visits as1 in
      if skips_next (finished_for a)
      then a ∷ []
      else if skips_head (finished_for a)
      then a ∷ rest
      else a ∷ below ++ rest

  -- One visit after another, until one fails.
  unfoldable pub run : List (Ast A) → S → Status × S
  run [] s = (sepol_ok, s)
  run (a ∷ as1) s = let rest = run as1 in let r = visit a s in if is_ok r.0 then rest r.1 else r

  run-append :
      (xs ys : List (Ast A)) (s : S)
      → run (xs ++ ys) s ≡ (if is_ok (run xs s).0 then run ys (run xs s).1 else run xs s)
  unfolding run
  run-append [] ys s = refl
  run-append (x ∷ xs) ys s = elim (Bool-cases (is_ok (visit x s).0)) [
    | inl e ↦ rw e (run-append xs ys (visit x s).1)
    | inr e ↦ rw (e, e)
  ]

  then-ok : (r : Status × S) → and_then r (λ u. (sepol_ok, u)) ≡ r
  then-ok (sepol_ok, s) = refl
  then-ok (sepol_err, s) = refl
  then-ok (sepol_enoent, s) = refl
  then-ok (sepol_eexist, s) = refl

  below_rest :
      (c : A) (children as1 : Asts A)
      → ((s : S) → walk (some process) none none (ast c children) s ≡ run (visits children) s)
      → ((s : S) → walk_core (some process) none none as1 s ≡ run (visits as1) s)
      → (t : S)
      → and_then
          (walk (some process) none none (ast c children) t)
          (λ u. walk_core (some process) none none as1 u)
        ≡ run (visits children ++ visits as1) t
  below_rest c children as1 below rest t =
      rw (below t, run-append (visits children) (visits as1) t)
        (ap (λ x. if is_ok (run (visits children) t).0 then x else run (visits children) t)
          (rest (run (visits children) t).1))

  -- A node and what follows, from what holds below it and of its siblings.
  node-run :
      (c : A) (children as1 : Asts A)
      → ((s : S) → walk (some process) none none (ast c children) s ≡ run (visits children) s)
      → ((s : S) → walk_core (some process) none none as1 s ≡ run (visits as1) s)
      → (s : S)
      → walk_core (some process) none none (one_ast (ast c children) as1) s
        ≡ run (visits (one_ast (ast c children) as1)) s
  unfolding walk_core visits run
  node-run c children as1 below rest s =
      let a = ast c children in
      let t = (visit a s).1 in
      elim (Bool-cases (skips_next (finished_for a))) [
        | inl e ↦ elim (Bool-cases (is_ok (visit a s).0)) [
          | inl fine ↦ rw (e, fine)
          | inr bad ↦ rw (e, bad)
        ]
        | inr e ↦ elim (Bool-cases (skips_head (finished_for a))) [
          | inl f ↦ elim (Bool-cases (is_ok (visit a s).0)) [
            | inl fine ↦ rw (e, f, fine) (rest t)
            | inr bad ↦ rw (e, f, bad)
          ]
          | inr f ↦ elim (Bool-cases (is_ok (visit a s).0)) [
            | inl fine ↦ rw (e, f, fine) (below_rest c children as1 below rest t)
            | inr bad ↦ rw (e, f, bad)
          ]
        ]
      ]

  mutual
    unfolding walk_core visits run

    core-run :
        (as1 : Asts A) (s : S) → walk_core (some process) none none as1 s ≡ run (visits as1) s
    core-run no_ast s = refl
    core-run (one_ast (ast c children) as1) s =
        node-run c children as1 (walk-run (ast c children)) (core-run as1) s

    walk-run :
        (a : Ast A) (s : S) → walk (some process) none none a s ≡ run (visits (children_of a)) s
    walk-run (ast c no_ast) s = refl
    walk-run (ast c (one_ast b bs)) s =
        then-ok (walk_core (some process) none none (one_ast b bs) s) ∙ core-run (one_ast b bs) s

  -- A walk whose process_node decides by the node alone what to skip, with no other callbacks, is a
  -- run over the nodes below the root in depth-first order, less the skipped ones, up to the first
  -- failure.
  pub walk-visits :
      (a : Ast A) (s : S) → walk (some process) none none a s ≡ run (visits (children_of a)) s
  walk-visits a s = walk-run a s

  pub visits-node :
      (c : A) (children as1 : Asts A)
      → finished_for (ast c children) ≡ 0
      → visits (one_ast (ast c children) as1) ≡ ast c children ∷ visits children ++ visits as1
  unfolding visits
  visits-node c children as1 h = rw h refl
