-- ===== src/Verify/Patterns.antt =====
-- What a syntax array means as a pattern: single elements, then perhaps a repeated one, then the
-- end.
use cil.Base.{
  Bool, ◌&&◌, some, none, ℕ, ◌+◌, ◌<◌, ◌≡◌, ◌↔◌, ◌⊎◌, inl, inr, refl, List, [], ◌∷◌, ◌++◌, true,
  false, ◌||◌, arith, Bool-cases, if◌then◌else◌, sepol_ok, sepol_err,
}
use cil.Text.{Text}
use cil.Tree.{Node, Nodes, node, nil, cons, is_string, is_list, is_empty_list}
use cil.Verify.{Syntax, end_syntax, repeats, takes, verify_syntax_from, verify_syntax}

-- An element for one node: none of CIL_SYN_END, CIL_SYN_N_LISTS and CIL_SYN_N_STRINGS.
pub record IsSingle (s : Syntax) : Type 0 where
  pub no_lists : s.n_lists ≡ false
  pub no_strings : s.n_strings ≡ false
  pub no_end : s.end ≡ false

-- An element for any number of nodes; with CIL_SYN_END there may be none.
pub record IsRepeated (s : Syntax) : Type 0 where
  pub many : (s.n_lists || s.n_strings) ≡ true
  pub no_string : s.string ≡ false
  pub no_list : s.list ≡ false
  pub no_empty_list : s.empty_list ≡ false

abbrev pub AllSingle : List Syntax → Type 0
AllSingle [] = Unit
AllSingle (s ∷ ss) = IsSingle s × AllSingle ss

-- Strings, lists with at least one element, and empty lists, as nodes.
abbrev pub IsString : Node → Type 0
IsString n = (l : ℕ) × (t : Text) × (n ≡ node l (some t) nil)

abbrev pub IsList : Node → Type 0
IsList n = (l : ℕ) × (c : Node) × (cs : Nodes) × (n ≡ node l none (cons c cs))

abbrev pub IsEmptyList : Node → Type 0
IsEmptyList n = (l : ℕ) × (n ≡ node l none nil)

-- The element has the bit of the node's kind: CIL_SYN_STRING, CIL_SYN_LIST or CIL_SYN_EMPTY_LIST.
abbrev pub Takes : Syntax → Node → Type 0
Takes s n =
    ((s.string ≡ true) × IsString n)
    ⊎ (((s.list ≡ true) × IsList n) ⊎ ((s.empty_list ≡ true) × IsEmptyList n))

-- It has the bit for any number of such nodes, CIL_SYN_N_LISTS or CIL_SYN_N_STRINGS.
abbrev pub Repeats : Syntax → Node → Type 0
Repeats s n = ((s.n_lists ≡ true) × IsList n) ⊎ ((s.n_strings ≡ true) × IsString n)

is_string-IsString : (n : Node) → (is_string n ≡ true) ↔ IsString n
is_string-IsString (node l (some t) nil) = (λ _. (l, t, refl), λ _. refl)
is_string-IsString (node l (some t) (cons c cs)) = (λ h. absurd (cc), λ (m, u, e). absurd (cc))
is_string-IsString (node l none ns) = (λ h. absurd (cc), λ (m, u, e). absurd (cc))

is_list-IsList : (n : Node) → (is_list n ≡ true) ↔ IsList n
is_list-IsList (node l none (cons c cs)) = (λ _. (l, c, cs, refl), λ _. refl)
is_list-IsList (node l none nil) = (λ h. absurd (cc), λ (m, c, cs, e). absurd (cc))
is_list-IsList (node l (some t) ns) = (λ h. absurd (cc), λ (m, c, cs, e). absurd (cc))

is_empty_list-IsEmptyList : (n : Node) → (is_empty_list n ≡ true) ↔ IsEmptyList n
is_empty_list-IsEmptyList (node l none nil) = (λ _. (l, refl), λ _. refl)
is_empty_list-IsEmptyList (node l none (cons c cs)) = (λ h. absurd (cc), λ (m, e). absurd (cc))
is_empty_list-IsEmptyList (node l (some t) ns) = (λ h. absurd (cc), λ (m, e). absurd (cc))

both-bits : {P : Type 0} (a b : Bool) → (b ≡ true) ↔ P → ((a && b) ≡ true) ↔ ((a ≡ true) × P)
both-bits true b h = (λ e. (refl, h.0 e), λ q. h.1 q.1)
both-bits false b h = (λ e. absurd (cc), λ q. absurd (cc (q.0)))

either-bit :
    {P Q : Type 0} (a b : Bool) → (a ≡ true) ↔ P → (b ≡ true) ↔ Q → ((a || b) ≡ true) ↔ (P ⊎ Q)
either-bit true b h k = (λ e. inl (h.0 refl), λ q. refl)
either-bit false b h k =
    (λ e. inr (k.0 e), λ q. elim q [ inl p ↦ absurd (cc (h.1 p)) | inr r ↦ k.1 r ])

pub takes-Takes : (s : Syntax) (n : Node) → (takes s n ≡ true) ↔ Takes s n
unfolding takes
takes-Takes s n = either-bit _ _ (both-bits s.string _ (is_string-IsString n)) (
    either-bit _ _ (both-bits s.list _ (is_list-IsList n))
      (both-bits s.empty_list _ (is_empty_list-IsEmptyList n)))

repeats-Repeats : (s : Syntax) (n : Node) → (repeats s n ≡ true) ↔ Repeats s n
unfolding repeats
repeats-Repeats s n =
    either-bit _ _ (both-bits s.n_lists _ (is_list-IsList n))
      (both-bits s.n_strings _ (is_string-IsString n))

-- The nodes are as many as the elements, and each is taken by its element.
abbrev pub Pointwise : List Syntax → Nodes → Type 0
Pointwise [] nil = Unit
Pointwise [] (cons n ns) = ⊥
Pointwise (s ∷ ss) nil = ⊥
Pointwise (s ∷ ss) (cons n ns) = Takes s n × Pointwise ss ns

abbrev pub AllRepeat : Syntax → Nodes → Type 0
AllRepeat m nil = Unit
AllRepeat m (cons n ns) = Repeats m n × AllRepeat m ns

abbrev pub MayStop : Syntax → Nodes → Type 0
MayStop m nil = m.end ≡ true
MayStop m (cons n ns) = Unit

-- The first nodes are taken one by one, and all the others by `m`; there is at least one of
-- those, unless `m` has CIL_SYN_END.
abbrev pub ThenMany : List Syntax → Syntax → Nodes → Type 0
ThenMany [] m ns = AllRepeat m ns × MayStop m ns
ThenMany (s ∷ ss) m nil = ⊥
ThenMany (s ∷ ss) m (cons n ns) = Takes s n × ThenMany ss m ns

single_step :
    (s : Syntax) (ss : List Syntax) (n : Node) (ns : Nodes) (e : ℕ)
    → IsSingle s
    → verify_syntax_from (s ∷ ss) (cons n ns) e
      ≡ (if takes s n then verify_syntax_from ss ns e else sepol_err)
unfolding verify_syntax_from repeats
single_step s ss n ns e h = rw (h.no_lists, h.no_strings)

single_nil :
    (s : Syntax) (ss : List Syntax) (e : ℕ)
    → IsSingle s
    → verify_syntax_from (s ∷ ss) nil e ≡ sepol_err
unfolding verify_syntax_from
single_nil s ss e h = rw (h.no_lists, h.no_strings, h.no_end)

fixed_from :
    (ss : List Syntax) (ns : Nodes) (e : ℕ)
    → AllSingle ss
    → (verify_syntax_from (ss ++ end_syntax ∷ []) ns e ≡ sepol_ok) ↔ Pointwise ss ns
fixed_from [] nil e h = unfold verify_syntax_from in (λ _. tt, λ _. refl)
fixed_from [] (cons n ns) e h = unfold verify_syntax_from repeats takes in ground arith
fixed_from (s ∷ ss) nil e (h, hs) =
    rw (single_nil s (ss ++ end_syntax ∷ []) e h) (λ p. cc, λ p. absurd p)
fixed_from (s ∷ ss) (cons n ns) e (h, hs) =
    rw (single_step s (ss ++ end_syntax ∷ []) n ns e h) (elim (Bool-cases (takes s n)) [
      | inl taken ↦
          let ih = fixed_from ss ns e hs in
          rw taken (λ p. ((takes-Takes s n).0 taken, ih.0 p), λ p. ih.1 p.1)
      | inr other ↦ let no = (takes-Takes s n).1 in rw other (λ p. cc, λ p. cc (other, no p.0))
    ])

-- A pattern of single elements and CIL_SYN_END accepts a list of nodes exactly when there are as
-- many nodes as elements and each element takes its node.
pub verify_syntax-Pointwise :
    (ss : List Syntax) (ns : Nodes)
    → AllSingle ss
    → (verify_syntax ns (ss ++ end_syntax ∷ []) ≡ sepol_ok) ↔ Pointwise ss ns
unfolding verify_syntax
verify_syntax-Pointwise ss ns h = fixed_from ss ns 0 h

repeated-takes : (m : Syntax) (n : Node) → IsRepeated m → takes m n ≡ false
unfolding takes
repeated-takes m n h = rw (h.no_string, h.no_list, h.no_empty_list)

many_from :
    (m : Syntax) (ns : Nodes) (e : ℕ)
    → IsRepeated m
    → (verify_syntax_from (m ∷ end_syntax ∷ []) ns e ≡ sepol_ok)
      ↔ AllRepeat m ns × ((0 < e) ⊎ MayStop m ns)
unfolding verify_syntax_from
many_from m nil e h = rw (h.many) (ground arith)
many_from m (cons n ns) e h = elim (Bool-cases (repeats m n)) [
  | inl again ↦
      let ih = many_from m ns (e + 1) h in
      rw again (
        λ p. (((repeats-Repeats m n).0 again, (ih.0 p).0), inr tt),
        λ q. ih.1 (q.0.1, inl (omega arith)),
      )
  | inr other ↦
      let no = (repeats-Repeats m n).1 in
      rw (other, repeated-takes m n h) (λ p. cc, λ q. cc (other, no q.0.0))
]

ThenMany-from :
    (ss : List Syntax) (m : Syntax) (ns : Nodes)
    → AllSingle ss
    → IsRepeated m
    → (verify_syntax_from (ss ++ m ∷ end_syntax ∷ []) ns 0 ≡ sepol_ok) ↔ ThenMany ss m ns
ThenMany-from [] m ns h r =
    let loop = many_from m ns 0 r in
    (
      λ p. ((loop.0 p).0, elim ((loop.0 p).1) [ inl pos ↦ absurd (omega arith) | inr stop ↦ stop ]),
      λ q. loop.1 (q.0, inr q.1),
    )
ThenMany-from (s ∷ ss) m nil (h, hs) r =
    rw (single_nil s (ss ++ m ∷ end_syntax ∷ []) 0 h) (λ p. cc, λ p. absurd p)
ThenMany-from (s ∷ ss) m (cons n ns) (h, hs) r =
    rw (single_step s (ss ++ m ∷ end_syntax ∷ []) n ns 0 h) (elim (Bool-cases (takes s n)) [
      | inl taken ↦
          let ih = ThenMany-from ss m ns hs r in
          rw taken (λ p. ((takes-Takes s n).0 taken, ih.0 p), λ p. ih.1 p.1)
      | inr other ↦ let no = (takes-Takes s n).1 in rw other (λ p. cc, λ p. cc (other, no p.0))
    ])

-- A pattern of single elements, one repeated element and CIL_SYN_END accepts a list of nodes
-- exactly when the single elements take the first nodes and the repeated element takes all the
-- others, of which there is at least one unless the repeated element carries CIL_SYN_END.
pub verify_syntax-ThenMany :
    (ss : List Syntax) (m : Syntax) (ns : Nodes)
    → AllSingle ss
    → IsRepeated m
    → (verify_syntax ns (ss ++ m ∷ end_syntax ∷ []) ≡ sepol_ok) ↔ ThenMany ss m ns
unfolding verify_syntax
verify_syntax-ThenMany ss m ns h r = ThenMany-from ss m ns h r
