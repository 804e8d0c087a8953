-- ===== src/Linked/Adding.antt =====
-- Adding items.
use cil.Base.{
  ℕ, ◌+◌, ◌≡◌, refl, sym, ap, ◌∙◌, List, [], ◌∷◌, ◌++◌, Option, none, some, ==_ne, ==_self, arith,
}
use cil.Flavor.{Flavor}
use cil.Linked.{
  Pointer, Cell, Store, Linked, write_cell, store_cell, new_item, set_next, append, prepend,
}
use cil.Linked.Chains.{
  Entry, last_from, cell_of, Absent, Segment, Models, AllBelow-Absent, AllBelow-suc, Segment-frame,
  some_same, Absent-last, Absent-append, AllBelow-append, last_from-append,
}

abbrev pub entry : ℕ → Flavor → ℕ → Entry
entry a f d = record { addr = a; kind = f; datum = d }

-- The last entry's item is there, and pointing it to a new item behind makes a longer segment.
pub Segment-snoc :
    (h : ℕ → Option Cell) (e : Entry) (es : List Entry) (t : ℕ) (n : Entry)
    → Segment h (e ∷ es) none
    → last_from (some e.addr) es ≡ some t
    → Absent n.addr (e ∷ es)
    → h n.addr ≡ some (cell_of n none)
    → (c : Cell) × (h t ≡ some c)
      × Segment (write_cell h t (some (record c { next = some n.addr }))) (e ∷ es ++ n ∷ []) none
Segment-snoc h e [] t n (s, k, u) q (a, _) r = (
  cell_of e none,
  rw (← some_same e.addr t q) s,
  rw (← some_same e.addr t q)
      (rw (==_self e.addr), (λ x. a (sym x), tt), (rw (==_ne n.addr e.addr a) r, tt, tt)),
)
Segment-snoc h e (f ∷ es) t n (s, k, u) q (a, b) r =
    let (c, there, v) = Segment-snoc h f es t n u q b r in
    (
      c,
      there,
      (
        rw (==_ne e.addr t (Absent-last e.addr f es t k q)) s,
        Absent-append e.addr n (f ∷ es) (λ x. a (sym x)) k,
        v,
      ),
    )

pub last_some : (a : ℕ) (es : List Entry) → (t : ℕ) × (last_from (some a) es ≡ some t)
last_some a [] = (a, refl)
last_some a (e ∷ es) = last_some e.addr es

pub new_cell :
    (s : Store) (p : Pointer) (f : Flavor) (d : ℕ)
    → (new_item s p f d).cell_at s.fresh ≡ some (cell_of (entry s.fresh f d) p)
new_cell s p f d = rw (==_self s.fresh)

pub new_item-Segment :
    (s : Store) (l : Linked) (es : List Entry) (p : Pointer) (f : Flavor) (d : ℕ)
    → Models s l es
    → Segment (new_item s p f d).cell_at es none
new_item-Segment s l es p f d m =
    Segment-frame s.cell_at es none s.fresh (some (record { next = p; flavor = f; datum = d }))
      (AllBelow-Absent s.fresh es m.bounded) m.chain

-- An operation gives a list that holds `es`.
abbrev pub Gives : Option (Store × Linked) → List Entry → Type 0
Gives r es = (s : Store) × (l : Linked) × (r ≡ some (s, l)) × Models s l es

append_at :
    (s : Store) (l : Linked) (t : ℕ) (c : Cell) (f : Flavor) (d : ℕ)
    → l.tail ≡ some t
    → (new_item s none f d).cell_at t ≡ some c
    → append s l f d
      ≡ some (
        store_cell (new_item s none f d) t (record c { next = some s.fresh }),
        record l { tail = some s.fresh },
      )
unfolding append set_next
append_at s l t c f d q there = rw (q, append, set_next, there)

prepend_at :
    (s : Store) (l : Linked) (t : ℕ) (f : Flavor) (d : ℕ)
    → l.tail ≡ some t
    → prepend s l f d ≡ (new_item s l.head f d, record l { head = some s.fresh })
unfolding prepend
prepend_at s l t f d q =
    let with_tail : Pointer → Store × Linked =
      λ x. (new_item s l.head f d, record { head = some s.fresh; tail = x }) in
    rw (q, prepend) (ap with_tail q)

-- Appending puts the new item behind all others.
pub append-Models :
    (s : Store) (l : Linked) (es : List Entry) (f : Flavor) (d : ℕ)
    → Models s l es
    → Gives (append s l f d) (es ++ entry s.fresh f d ∷ [])
unfolding append
append-Models s l [] f d m =
    let s1 = new_item s none f d in
    (
      s1,
      record { head = some s.fresh; tail = some s.fresh },
      rw m.tails,
      record {
        heads = refl;
        tails = refl;
        chain = (new_cell s none f d, tt, tt);
        bounded = (omega arith, tt);
      },
    )
append-Models s l (e ∷ es) f d m =
    let s1 = new_item s none f d in
    let n = entry s.fresh f d in
    let (t, q) = last_some e.addr es in
    let (c, there, seg) =
      Segment-snoc s1.cell_at e es t n (new_item-Segment s l (e ∷ es) none f d m) q
        (AllBelow-Absent s.fresh (e ∷ es) m.bounded) (new_cell s none f d) in
    (
      store_cell s1 t (record c { next = some s.fresh }),
      record l { tail = some s.fresh },
      append_at s l t c f d (m.tails ∙ q) there,
      record {
        heads = m.heads;
        tails = sym (last_from-append none n (e ∷ es));
        chain = seg;
        bounded =
            AllBelow-append (s.fresh + 1) n (e ∷ es) (omega arith)
              (AllBelow-suc s.fresh (e ∷ es) m.bounded);
      },
    )

-- Prepending puts the new item in front of all others.
pub prepend-Models :
    (s : Store) (l : Linked) (es : List Entry) (f : Flavor) (d : ℕ)
    → Models s l es
    → Models (prepend s l f d).0 (prepend s l f d).1 (entry s.fresh f d ∷ es)
unfolding prepend
prepend-Models s l [] f d m = rw m.tails (record {
  heads = refl;
  tails = refl;
  chain = (new_cell s none f d, tt, tt);
  bounded = (omega arith, tt);
})
prepend-Models s l (e ∷ es) f d m =
    let (t, q) = last_some e.addr es in
    rw (prepend_at s l t f d (m.tails ∙ q)) (record {
      heads = refl;
      tails = m.tails;
      chain = (
        new_cell s l.head f d ∙ ap (λ p. some (cell_of (entry s.fresh f d) p)) m.heads,
        AllBelow-Absent s.fresh (e ∷ es) m.bounded,
        new_item-Segment s l (e ∷ es) l.head f d m,
      );
      bounded = (omega arith, AllBelow-suc s.fresh (e ∷ es) m.bounded);
    })
