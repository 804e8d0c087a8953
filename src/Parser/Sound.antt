-- ===== src/Parser/Sound.antt =====
-- What the parser accepts.
use cil.Base.{
  append_assoc, append_nil, ℕ, ◌≡◌, ◌↔◌, refl, sym, ap, ◌∙◌, List, [], ◌∷◌, ◌++◌, none, some, true,
  false, ◌==◌, length, sepol_ok, arith, if◌then◌else◌,
}
use cil.Text.{Text}
use cil.Tree.{Node, Nodes, node, nil, cons, ◌+++◌}
use cil.Parser.{
  TokenType, oparen, cparen, symbol, qstring, comment, unknown, Token, Open, Parsed, unquote, whole,
  failed, parse_from, parser,
}
use cil.Parser.Writes.{
  Writes, nothing, a_comment, a_symbol, a_qstring, a_list, token, nodes_nil, nodes_assoc, at,
  parse_from-Writes,
}

-- The tokens write more nodes for `current`, close it, go on in the same way for each of its
-- ancestors, and end at the top; `r` is then what the root has.
abbrev pub Finishes : Nodes → List Open → List Token → Nodes → Type 0
Finishes cs [] ts r = (ns : Nodes) × Writes false ts ns × (r ≡ cs +++ ns)
Finishes cs (o ∷ os) ts r =
    (us : List Token) × (vs : List Token) × (w : Text) × (k : ℕ) × (ns : Nodes) × (ts
      ≡ us ++ token cparen w k ∷ vs)
    × Writes true us ns
    × Finishes (o.before +++ cons (node o.open_line none (cs +++ ns)) nil) os vs r

Finishes-comment :
    (cs : Nodes) (os : List Open) (v : Text) (l : ℕ) (ts : List Token) (r : Nodes)
    → Finishes cs os ts r
    → Finishes cs os (token comment v l ∷ ts) r
Finishes-comment cs [] v l ts r (ns, s, e) = (ns, a_comment v l s, e)
Finishes-comment cs (o ∷ os) v l ts r (us, vs, w, k, ns, e, s, f) =
    (token comment v l ∷ us, vs, w, k, ns, ap (λ x. token comment v l ∷ x) e, a_comment v l s, f)

-- A string, of either kind.
Finishes-string :
    (cs : Nodes) (o : Open) (os : List Open) (t : Token) (n : Node) (ts : List Token) (r : Nodes)
    → ((us : List Token) (ns : Nodes) → Writes true us ns → Writes true (t ∷ us) (cons n ns))
    → Finishes (cs +++ cons n nil) (o ∷ os) ts r
    → Finishes cs (o ∷ os) (t ∷ ts) r
Finishes-string cs o os t n ts r add (us, vs, w, k, ns, e, s, f) = (
  t ∷ us,
  vs,
  w,
  k,
  cons n ns,
  ap (λ x. t ∷ x) e,
  add us ns s,
  rw (← nodes_assoc cs (cons n nil) ns) f,
)

Finishes-open :
    (cs : Nodes) (os : List Open) (v : Text) (l : ℕ) (ts : List Token) (r : Nodes)
    → Finishes nil (record { open_line = l; before = cs } ∷ os) ts r
    → Finishes cs os (token oparen v l ∷ ts) r
Finishes-open cs [] v l ts r (us, vs, w, k, ms, e, s, (ns, t, q)) = (
  cons (node l none ms) ns,
  rw e (a_list v w l k s t),
  q ∙ nodes_assoc cs (cons (node l none ms) nil) ns,
)
Finishes-open cs (o ∷ os) v l ts r (us, vs, w, k, ms, e, s, (us2, vs2, w2, k2, ns, e2, t, f)) = (
  token oparen v l ∷ us ++ token cparen w k ∷ us2,
  vs2,
  w2,
  k2,
  cons (node l none ms) ns,
  ap (λ x. token oparen v l ∷ x)
      (e
        ∙ ap (λ x. us ++ token cparen w k ∷ x) e2
        ∙ sym (append_assoc us (token cparen w k ∷ us2) (token cparen w2 k2 ∷ vs2))),
  a_list v w l k s t,
  rw (← nodes_assoc cs (cons (node l none ms) nil) ns) f,
)

Finishes-close :
    (cs : Nodes) (o : Open) (os : List Open) (v : Text) (l : ℕ) (ts : List Token) (r : Nodes)
    → Finishes (o.before +++ cons (node o.open_line none cs) nil) os ts r
    → Finishes cs (o ∷ os) (token cparen v l ∷ ts) r
Finishes-close cs o os v l ts r f = ([], ts, v, l, nil, refl, nothing, rw (nodes_nil cs) f)

open_ne : (o : Open) (os : List Open) → (length (o ∷ os) == 0) ≡ false
open_ne o os = ground arith

inside_of :
    (o : Open) (os : List Open) (p q : Parsed) (r : Parsed)
    → (if length (o ∷ os) == 0 then p else q) ≡ r
    → q ≡ r
inside_of o os p q r = rw (open_ne o os) (λ h. h)

abbrev pub parsed : Nodes → Parsed
parsed r = record { status = sepol_ok; root = r }

-- What the rest of the tokens says, for every state that the parser may be in.
abbrev pub AllFinish : List Token → Type 0
AllFinish ts =
    (cs : Nodes) (os : List Open) (r : Nodes)
    → parse_from (at cs os) ts ≡ parsed r
    → Finishes cs os ts r

step-Finishes :
    (k : TokenType) (v : Text) (l : ℕ) (ts : List Token)
    → AllFinish ts
    → AllFinish (token k v l ∷ ts)
unfolding parse_from
step-Finishes oparen v l ts rest cs os r h =
    Finishes-open cs os v l ts r (rest nil (record { open_line = l; before = cs } ∷ os) r h)
step-Finishes cparen v l ts rest cs [] r h = cc
step-Finishes cparen v l ts rest cs (o ∷ os) r h =
    Finishes-close cs o os v l ts r (rest (o.before +++ cons (node o.open_line none cs) nil) os r h)
step-Finishes symbol v l ts rest cs [] r h = cc
step-Finishes symbol v l ts rest cs (o ∷ os) r h =
    let n = node l (some v) nil in
    Finishes-string cs o os (token symbol v l) n ts r (λ us ns s. a_symbol v l s)
      (rest (cs +++ cons n nil) (o ∷ os) r (
        inside_of o os (failed (at cs (o ∷ os))) (parse_from (at (cs +++ cons n nil) (o ∷ os)) ts)
          (parsed r) h))
step-Finishes qstring v l ts rest cs [] r h = cc
step-Finishes qstring v l ts rest cs (o ∷ os) r h =
    let n = node l (some (unquote v)) nil in
    Finishes-string cs o os (token qstring v l) n ts r (λ us ns s. a_qstring v l s)
      (rest (cs +++ cons n nil) (o ∷ os) r (
        inside_of o os (failed (at cs (o ∷ os))) (parse_from (at (cs +++ cons n nil) (o ∷ os)) ts)
          (parsed r) h))
step-Finishes comment v l ts rest cs os r h = Finishes-comment cs os v l ts r (rest cs os r h)
step-Finishes unknown v l ts rest cs os r h = cc

parse_from-Finishes : (ts : List Token) → AllFinish ts
unfolding parse_from whole
parse_from-Finishes [] cs [] r h = (nil, nothing, ap (λ p. p.root) (sym h) ∙ sym (nodes_nil cs))
parse_from-Finishes [] cs (o ∷ os) r h =
    let bad = inside_of o os (parsed (whole cs (o ∷ os))) (failed (at cs (o ∷ os))) (parsed r) h in
    cc
parse_from-Finishes (t ∷ ts) cs os r h =
    step-Finishes t.kind t.value t.line ts (parse_from-Finishes ts) cs os r h

-- The parser accepts exactly the tokens that follow the grammar: parentheses that match, with no
-- string outside of them. It then adds to the root the nodes that the tokens write, in their order.
pub parser-Writes :
    (root : Nodes) (ts : List Token) (r : Nodes)
    → (parser root ts ≡ record { status = sepol_ok; root = r })
      ↔ ((ns : Nodes) × Writes false ts ns × (r ≡ root +++ ns))
unfolding parser parse_from whole
parser-Writes root ts r = (
  parse_from-Finishes ts root [] r,
  λ (ns, s, e).
      ap (parse_from (at root [])) (sym (append_nil ts))
      ∙ parse_from-Writes root [] [] s (λ h. cc)
      ∙ ap parsed (sym e),
)
