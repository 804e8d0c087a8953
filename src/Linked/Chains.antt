-- ===== src/Linked/Chains.antt =====
-- What a linked list in a store holds: the items in their order, with their addresses.
use cil.Base.{
  ℕ, ◌+◌, ◌<◌, ◌≡◌, ◌≢◌, refl, sym, ◌∙◌, List, [], ◌∷◌, ◌++◌, Option, none, some, ==_ne, arith,
}
use cil.Flavor.{Flavor}
use cil.Linked.{Pointer, Cell, Store, Linked, write_cell}

pub record Entry : Type 0 where
  pub addr : ℕ
  pub kind : Flavor
  pub datum : ℕ

-- The address of the first entry, `p` for none.
abbrev pub first_or : Pointer → List Entry → Pointer
first_or p [] = p
first_or p (e ∷ es) = some e.addr

-- The address of the last entry, `p` for none.
abbrev pub last_from : Pointer → List Entry → Pointer
last_from p [] = p
last_from p (e ∷ es) = last_from (some e.addr) es

abbrev pub cell_of : Entry → Pointer → Cell
cell_of e p = record { next = p; flavor = e.kind; datum = e.datum }

abbrev pub Absent : ℕ → List Entry → Type 0
Absent a [] = Unit
Absent a (e ∷ es) = (a ≢ e.addr) × Absent a es

-- The entries stand in the store one behind the other, up to the pointer `p`; no address twice.
abbrev pub Segment : (ℕ → Option Cell) → List Entry → Pointer → Type 0
Segment h [] p = Unit
Segment h (e ∷ es) p =
    (h e.addr ≡ some (cell_of e (first_or p es))) × Absent e.addr es × Segment h es p

abbrev pub AllBelow : ℕ → List Entry → Type 0
AllBelow n [] = Unit
AllBelow n (e ∷ es) = (e.addr < n) × AllBelow n es

pub record Models (s : Store) (l : Linked) (es : List Entry) : Type 0 where
  pub heads : l.head ≡ first_or none es
  pub tails : l.tail ≡ last_from none es
  pub chain : Segment s.cell_at es none
  pub bounded : AllBelow s.fresh es

pub AllBelow-Absent : (n : ℕ) (es : List Entry) → AllBelow n es → Absent n es
AllBelow-Absent n [] h = tt
AllBelow-Absent n (e ∷ es) (h, k) = (λ q. omega (arith, q), AllBelow-Absent n es k)

pub AllBelow-suc : (n : ℕ) (es : List Entry) → AllBelow n es → AllBelow (n + 1) es
AllBelow-suc n [] h = tt
AllBelow-suc n (e ∷ es) (h, k) = (omega arith, AllBelow-suc n es k)

-- A write elsewhere does not change the entries.
pub Segment-frame :
    (h : ℕ → Option Cell) (es : List Entry) (p : Pointer) (a : ℕ) (c : Option Cell)
    → Absent a es
    → Segment h es p
    → Segment (write_cell h a c) es p
Segment-frame h [] p a c k s = tt
Segment-frame h (e ∷ es) p a c (k, l) (s, t, u) =
    (rw (==_ne e.addr a (λ q. k (sym q))) s, t, Segment-frame h es p a c l u)

pub some_same : (a b : ℕ) → some a ≡ some b → a ≡ b
some_same a b h = cc

pub Absent-last :
    (a : ℕ) (e : Entry) (es : List Entry) (t : ℕ)
    → Absent a (e ∷ es)
    → last_from (some e.addr) es ≡ some t
    → a ≢ t
Absent-last a e [] t (h, k) q r = h (r ∙ sym (some_same e.addr t q))
Absent-last a e (f ∷ es) t (h, k) q r = Absent-last a f es t k q r

pub Absent-append :
    (a : ℕ) (e : Entry) (es : List Entry) → a ≢ e.addr → Absent a es → Absent a (es ++ e ∷ [])
Absent-append a e [] h k = (h, tt)
Absent-append a e (f ∷ es) h (k, l) = (k, Absent-append a e es h l)

pub AllBelow-append :
    (n : ℕ) (e : Entry) (es : List Entry) → e.addr < n → AllBelow n es → AllBelow n (es ++ e ∷ [])
AllBelow-append n e [] h k = (h, tt)
AllBelow-append n e (f ∷ es) h (k, l) = (k, AllBelow-append n e es h l)

pub last_from-append :
    (p : Pointer) (e : Entry) (es : List Entry) → last_from p (es ++ e ∷ []) ≡ some e.addr
last_from-append p e [] = refl
last_from-append p e (f ∷ es) = last_from-append (some f.addr) e es
