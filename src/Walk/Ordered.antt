-- ===== src/Walk/Ordered.antt =====
-- The check that every declaration stands in an ordering statement.
use mathlib.Core.Path.{fun_ext}
use cil.Base.{
  ◌⊎◌, Status-cases, ℕ, ◌≡◌, ◌↔◌, refl, sym, ap, ◌∙◌, inl, inr, List, [], ◌∷◌, ◌++◌, some, none,
  true, not, ◌&&◌, ◌==◌, if◌then◌else◌, Status, sepol_ok, sepol_err, arith,
}
use cil.Flavor.{Flavor, cil_sid, cil_class, cil_cat, cil_sens}
use cil.Walk.{
  Ast, Asts, ast, no_ast, one_ast, walk, Declared, has_order, verify_ordered_node_helper,
  verify_ordered,
}
use cil.Walk.Visits.{process, visits, run, children_of, walk-visits}

-- A node of this flavor, if it is a sid, class, category or sensitivity, is marked.
abbrev pub IsFine : Flavor → Declared → Type 0
IsFine flavor d =
    d.flavor ≡ flavor
    → (flavor ≡ cil_sid) ⊎ ((flavor ≡ cil_class) ⊎ ((flavor ≡ cil_cat) ⊎ (flavor ≡ cil_sens)))
    → d.ordered ≡ true

abbrev pub Everywhere : Flavor → Asts Declared → Type 0
Everywhere flavor no_ast = Unit
Everywhere flavor (one_ast (ast d children) as1) =
    IsFine flavor d × Everywhere flavor children × Everywhere flavor as1

abbrev visit_status : Flavor → Declared → Status
visit_status flavor d =
    if d.flavor == flavor
    then (if has_order d.flavor && not d.ordered then sepol_err else sepol_ok)
    else sepol_ok

visit_status-IsFine :
    (flavor : Flavor) (d : Declared) → (visit_status flavor d ≡ sepol_ok) ↔ IsFine flavor d
visit_status-IsFine flavor d = (λ h e o. ground (arith, h), λ f. ground (arith, f))

abbrev visit : Flavor → Ast Declared → Unit {0} → Status × Unit {0}
visit flavor (ast d children) u = (visit_status flavor d, u)

abbrev zero_flags : Ast Declared → ℕ
zero_flags a = 0

node_same :
    (flavor : Flavor) (a : Ast Declared) (u : Unit {0})
    → process zero_flags (visit flavor) a u ≡ verify_ordered_node_helper flavor a u
unfolding verify_ordered_node_helper
node_same flavor (ast d children) u = refl

same_process :
    (flavor : Flavor) → process zero_flags (visit flavor) ≡ verify_ordered_node_helper flavor
same_process flavor = fun_ext (λ a. fun_ext (λ u. node_same flavor a u))

abbrev AllFine : Flavor → List (Ast Declared) → Type 0
AllFine flavor [] = Unit
AllFine flavor (ast d children ∷ as1) = IsFine flavor d × AllFine flavor as1

run-AllFine :
    (flavor : Flavor) (as1 : List (Ast Declared))
    → ((run zero_flags (visit flavor) as1 tt).0 ≡ sepol_ok) ↔ AllFine flavor as1
unfolding run
run-AllFine flavor [] = (λ h. tt, λ h. refl)
run-AllFine flavor (ast d children ∷ as1) =
    let (a, b) = run-AllFine flavor as1 in
    let (f, g) = visit_status-IsFine flavor d in
    elim (Status-cases (visit_status flavor d)) [
      | inl fine ↦ rw fine (λ h. (f fine, a h), λ h. b h.1)
      | inr (bad, ne) ↦ rw bad (λ h. absurd (ne h), λ h. absurd (ne (g h.0)))
    ]

AllFine-append :
    (flavor : Flavor) (xs ys : List (Ast Declared))
    → AllFine flavor (xs ++ ys) ↔ (AllFine flavor xs × AllFine flavor ys)
AllFine-append flavor [] ys = (λ h. (tt, h), λ h. h.1)
AllFine-append flavor (ast d children ∷ xs) ys =
    let (a, b) = AllFine-append flavor xs ys in
    (λ h. ((h.0, (a h.1).0), (a h.1).1), λ h. (h.0.0, b (h.0.1, h.1)))

visits-Everywhere :
    (flavor : Flavor) (as1 : Asts Declared)
    → AllFine flavor (visits zero_flags (visit flavor) as1) ↔ Everywhere flavor as1
unfolding visits
visits-Everywhere flavor no_ast = (λ h. tt, λ h. tt)
visits-Everywhere flavor (one_ast (ast d children) as1) =
    let below = visits-Everywhere flavor children in
    let rest = visits-Everywhere flavor as1 in
    let both =
      AllFine-append flavor (visits zero_flags (visit flavor) children)
        (visits zero_flags (visit flavor) as1) in
    (
      λ h. (h.0, below.0 ((both.0 h.1).0), rest.0 ((both.0 h.1).1)),
      λ h. (h.0, both.1 (below.1 h.1, rest.1 h.2)),
    )

verify_ordered-run :
    (current : Ast Declared) (flavor : Flavor)
    → verify_ordered current flavor
      ≡ (run zero_flags
          (visit flavor)
          (visits zero_flags (visit flavor) (children_of current))
          tt).0
unfolding verify_ordered
verify_ordered-run current flavor =
    ap (λ p. (walk (some p) none none current tt).0) (sym (same_process flavor))
    ∙ ap (λ r. r.0) (walk-visits zero_flags (visit flavor) current tt)

-- The check succeeds exactly where every node below the root that has the flavor, and is a
-- sid, class, category or sensitivity, is marked as ordered.
pub verify_ordered-Everywhere :
    (current : Ast Declared) (flavor : Flavor)
    → (verify_ordered current flavor ≡ sepol_ok) ↔ Everywhere flavor (children_of current)
verify_ordered-Everywhere current flavor =
    let below = children_of current in
    let (a, b) = run-AllFine flavor (visits zero_flags (visit flavor) below) in
    let (f, g) = visits-Everywhere flavor below in
    rw (verify_ordered-run current flavor) (λ h. f (a h), λ h. b (g h))
