-- ===== src/Resolve/Tokens.antt =====
-- Names made of parts, as `strtok_r` takes them apart.
use cil.Base.{
  ℕ, List, [], ◌∷◌, ◌++◌, true, false, ◌≡◌, refl, ap, inl, inr, ◌==◌, Bool-cases, append_nil,
  append_assoc,
}
use cil.Text.{Text}
use cil.Resolve.{dot, has_dot, starts_with_dot, emit, tokens}

-- The parts joined by dots.
unfoldable pub dotted_name : Text → List Text → Text
dotted_name part [] = part
dotted_name part (next ∷ parts) = part ++ dot ∷ dotted_name next parts

-- A part has a character, and none is a dot.
abbrev pub IsPart : Text → Type 0
IsPart [] = ⊥
IsPart (c ∷ cs) = has_dot (c ∷ cs) ≡ false

abbrev pub AllParts : List Text → Type 0
AllParts [] = Unit
AllParts (part ∷ parts) = IsPart part × AllParts parts

emit-IsPart : (part : Text) (ts : List Text) → IsPart part → emit part ts ≡ part ∷ ts
emit-IsPart [] ts h = absurd h
emit-IsPart (c ∷ cs) ts h = refl

IsPart-has_dot : (part : Text) → IsPart part → has_dot part ≡ false
IsPart-has_dot [] h = absurd h
IsPart-has_dot (c ∷ cs) h = h

has_dot-head : (c : ℕ) (cs : Text) → has_dot (c ∷ cs) ≡ false → (c == dot) ≡ false
unfolding has_dot
has_dot-head c cs h = elim (Bool-cases (c == dot)) [ inl yep ↦ cc | inr nope ↦ nope ]

has_dot-tail : (c : ℕ) (cs : Text) → has_dot (c ∷ cs) ≡ false → has_dot cs ≡ false
unfolding has_dot
has_dot-tail c cs h = elim (Bool-cases (c == dot)) [ inl yep ↦ cc | inr nope ↦ cc ]

tokens-end : (w part : Text) → has_dot part ≡ false → tokens w part ≡ emit (w ++ part) []
unfolding tokens
tokens-end w [] h = rw (append_nil w) refl
tokens-end w (c ∷ cs) h =
    rw (has_dot-head c cs h, tokens-end (w ++ c ∷ []) cs (has_dot-tail c cs h))
      (ap (λ t. emit t []) (append_assoc w (c ∷ []) cs))

tokens-part :
    (w part rest : Text)
    → has_dot part ≡ false
    → tokens w (part ++ dot ∷ rest) ≡ emit (w ++ part) (tokens [] rest)
unfolding tokens
tokens-part w [] rest h = rw (append_nil w) refl
tokens-part w (c ∷ cs) rest h =
    rw (has_dot-head c cs h, tokens-part (w ++ c ∷ []) cs rest (has_dot-tail c cs h))
      (ap (λ t. emit t (tokens [] rest)) (append_assoc w (c ∷ []) cs))

-- Joining and taking apart gives the parts back.
pub tokens-dotted_name :
    (part : Text) (parts : List Text)
    → IsPart part
    → AllParts parts
    → tokens [] (dotted_name part parts) ≡ part ∷ parts
unfolding dotted_name
tokens-dotted_name part [] h k =
    rw (tokens-end [] part (IsPart-has_dot part h)) (emit-IsPart part [] h)
tokens-dotted_name part (next ∷ parts) h k =
    rw
      (
        tokens-part [] part (dotted_name next parts) (IsPart-has_dot part h),
        tokens-dotted_name next parts k.0 k.1,
      )
      (emit-IsPart part (next ∷ parts) h)

has_dot-append : (t rest : Text) → has_dot (t ++ dot ∷ rest) ≡ true
unfolding has_dot
has_dot-append [] rest = refl
has_dot-append (c ∷ cs) rest = elim (Bool-cases (c == dot)) [
  | inl yep ↦ rw yep refl
  | inr nope ↦ rw nope (has_dot-append cs rest)
]

-- A name of two parts has a dot.
pub has_dot-dotted_name :
    (part next : Text) (parts : List Text) → has_dot (dotted_name part (next ∷ parts)) ≡ true
unfolding dotted_name
has_dot-dotted_name part next parts = has_dot-append part (dotted_name next parts)

pub starts_with_dot-dotted_name :
    (part next : Text) (parts : List Text)
    → IsPart part
    → starts_with_dot (dotted_name part (next ∷ parts)) ≡ false
unfolding dotted_name
starts_with_dot-dotted_name [] next parts h = absurd h
starts_with_dot-dotted_name (c ∷ cs) next parts h = has_dot-head c cs h
