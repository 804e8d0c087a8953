-- ===== src/Parser/Writes.antt =====
-- The grammar of the tokens, and the parser on tokens that follow it.
use cil.Base.{
  append_assoc, ℕ, ◌≡◌, refl, ap, ◌∙◌, List, [], ◌∷◌, ◌++◌, none, some, Bool, true, false, ◌==◌,
  length, arith,
}
use cil.Text.{Text}
use cil.Tree.{Nodes, node, nil, cons, ◌+++◌}
use cil.Parser.{
  TokenType, oparen, cparen, symbol, qstring, comment, Token, Open, Parsing, unquote, parse_from,
}

abbrev pub token : TokenType → Text → ℕ → Token
token k v l = record { kind = k; value = v; line = l }

-- `Writes inside ts ns`: the tokens write these nodes, inside of parentheses or at the top, where
-- no strings may stand. Parentheses match, and comments may stand anywhere.
pub data Writes : Bool → List Token → Nodes → Type 0 where
  nothing : {inside : Bool} → Writes inside [] nil
  a_comment :
      {inside : Bool} {ts : List Token} {ns : Nodes} (v : Text) (l : ℕ)
      → Writes inside ts ns
      → Writes inside (token comment v l ∷ ts) ns
  a_symbol :
      {ts : List Token} {ns : Nodes} (v : Text) (l : ℕ)
      → Writes true ts ns
      → Writes true (token symbol v l ∷ ts) (cons (node l (some v) nil) ns)
  a_qstring :
      {ts : List Token} {ns : Nodes} (v : Text) (l : ℕ)
      → Writes true ts ns
      → Writes true (token qstring v l ∷ ts) (cons (node l (some (unquote v)) nil) ns)
  a_list :
      {inside : Bool} {ts us : List Token} {ms ns : Nodes} (v w : Text) (l k : ℕ)
      → Writes true ts ms
      → Writes inside us ns
      → Writes inside (token oparen v l ∷ ts ++ token cparen w k ∷ us) (cons (node l none ms) ns)

pub nodes_nil : (ns : Nodes) → ns +++ nil ≡ ns
nodes_nil nil = refl
nodes_nil (cons n ns) = ap (cons n) (nodes_nil ns)

pub nodes_assoc : (ls ms ns : Nodes) → (ls +++ ms) +++ ns ≡ ls +++ (ms +++ ns)
nodes_assoc nil ms ns = refl
nodes_assoc (cons l ls) ms ns = ap (cons l) (nodes_assoc ls ms ns)

abbrev pub at : Nodes → List Open → Parsing
at ns os = record { children = ns; parents = os }

abbrev pub IsInside : Bool → List Open → Type 0
IsInside inside os = inside ≡ true → (length os == 0) ≡ false

-- The parser adds the nodes that the tokens write to `current`, and goes on behind them.
pub parse_from-Writes :
    {inside : Bool} {ts : List Token} {ns : Nodes} (cs : Nodes) (os : List Open) (rest : List Token)
    → Writes inside ts ns
    → IsInside inside os
    → parse_from (at cs os) (ts ++ rest) ≡ parse_from (at (cs +++ ns) os) rest
unfolding parse_from
parse_from-Writes cs os rest nothing h = rw (nodes_nil cs)
parse_from-Writes cs os rest (a_comment v l s) h = parse_from-Writes cs os rest s h
parse_from-Writes cs os rest (a_symbol {ns = ns} v l s) h =
    let n = node l (some v) nil in
    rw (h refl) (
      parse_from-Writes (cs +++ cons n nil) os rest s h
      ∙ ap (λ x. parse_from (at x os) rest) (nodes_assoc cs (cons n nil) ns))
parse_from-Writes cs os rest (a_qstring {ns = ns} v l s) h =
    let n = node l (some (unquote v)) nil in
    rw (h refl) (
      parse_from-Writes (cs +++ cons n nil) os rest s h
      ∙ ap (λ x. parse_from (at x os) rest) (nodes_assoc cs (cons n nil) ns))
parse_from-Writes cs os rest (a_list {ts = ts} {us = us} {ms = ms} {ns = ns} v w l k s t) h =
    let o : Open = record { open_line = l; before = cs } in
    rw (append_assoc ts (token cparen w k ∷ us) rest) (
      parse_from-Writes nil (o ∷ os) (token cparen w k ∷ us ++ rest) s (λ _. ground arith)
      ∙ parse_from-Writes (cs +++ cons (node l none ms) nil) os rest t h
      ∙ ap (λ x. parse_from (at x os) rest) (nodes_assoc cs (cons (node l none ms) nil) ns))
