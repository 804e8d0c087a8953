-- ===== src/Linked/Joining.antt =====
-- Adding a chain of items.
use cil.Base.{
  append_nil, ℕ, zero, suc, ◌≤◌, ◌≡◌, refl, sym, ◌∙◌, List, [], ◌∷◌, ◌++◌, Option, none, some,
  ==_ne, ==_self, arith, length,
}
use mathlib.Core.Path.{subst}
use cil.Linked.{
  Pointer, Cell, Store, Linked, write_cell, store_cell, set_next, last_item, append_item,
  prepend_item,
}
use cil.Linked.Chains.{
  Entry, first_or, last_from, cell_of, Absent, Segment, AllBelow, Models, Segment-frame, some_same,
  Absent-last,
}
use cil.Linked.Adding.{Gives, last_some}
use cil.Linked.Inserting.{last_from-mid}

-- No address stands in both lists.
abbrev pub Disjoint : List Entry → List Entry → Type 0
Disjoint [] zs = Unit
Disjoint (e ∷ es) zs = Absent e.addr zs × Disjoint es zs

Absent-join : (a : ℕ) (es zs : List Entry) → Absent a es → Absent a zs → Absent a (es ++ zs)
Absent-join a [] zs h k = k
Absent-join a (e ∷ es) zs (h, i) k = (h, Absent-join a es zs i k)

AllBelow-join : (n : ℕ) (es zs : List Entry) → AllBelow n es → AllBelow n zs → AllBelow n (es ++ zs)
AllBelow-join n [] zs h k = k
AllBelow-join n (e ∷ es) zs (h, i) k = (h, AllBelow-join n es zs i k)

-- What the pointer of the last of `e ∷ es` to the first of `zs` makes.
abbrev pub Joined : (ℕ → Option Cell) → ℕ → List Entry → List Entry → Type 0
Joined h t es zs =
    (c : Cell) × (h t ≡ some c)
    × Segment (write_cell h t (some (record c { next = first_or none zs }))) (es ++ zs) none

Segment-join_one :
    (h : ℕ → Option Cell) (e : Entry) (zs : List Entry)
    → Segment h (e ∷ []) none
    → Segment h zs none
    → Absent e.addr zs
    → Joined h e.addr (e ∷ []) zs
Segment-join_one h e zs (s, k, u) v a = (
  cell_of e none,
  s,
  (
    rw (==_self e.addr),
    a,
    Segment-frame h zs none e.addr (some (cell_of e (first_or none zs))) a v,
  ),
)

Segment-join :
    (h : ℕ → Option Cell) (e : Entry) (es zs : List Entry) (t : ℕ)
    → Segment h (e ∷ es) none
    → last_from (some e.addr) es ≡ some t
    → Segment h zs none
    → Disjoint (e ∷ es) zs
    → Joined h t (e ∷ es) zs
Segment-join h e [] zs t s q v (a, d) =
    subst (λ x. Joined h x (e ∷ []) zs) (some_same e.addr t q) (Segment-join_one h e zs s v a)
Segment-join h e (f ∷ es) zs t (s, k, u) q v (a, d) =
    let (c, there, w) = Segment-join h f es zs t u q v d in
    (
      c,
      there,
      (
        rw (==_ne e.addr t (Absent-last e.addr f es t k q)) s,
        Absent-join e.addr (f ∷ es) zs k a,
        w,
      ),
    )

last_item-last :
    (fuel : ℕ) (s : Store) (z : Entry) (zs : List Entry)
    → Segment s.cell_at (z ∷ zs) none
    → length (z ∷ zs) ≤ fuel
    → last_item fuel s z.addr ≡ last_from (some z.addr) zs
unfolding last_item
last_item-last zero s z zs g h = absurd (omega arith)
last_item-last (suc fuel) s z [] (r, k, u) h = rw (last_item, r)
last_item-last (suc fuel) s z (y ∷ zs) (r, k, u) h =
    rw (last_item, r) (last_item-last fuel s y zs u (omega arith))

-- The items that are added: a chain, with no address that the list has.
pub record IsChain (s : Store) (es : List Entry) (z : Entry) (zs : List Entry) : Type 0 where
  pub chain : Segment s.cell_at (z ∷ zs) none
  pub behind : Disjoint es (z ∷ zs)
  pub before : Disjoint (z ∷ zs) es
  pub bounded : AllBelow s.fresh (z ∷ zs)

item_empty :
    (fuel : ℕ) (s : Store) (l : Linked) (a b : ℕ)
    → last_item fuel s a ≡ some b
    → l.tail ≡ none
    → (append_item fuel s l a ≡ some (s, record { head = some a; tail = some b }))
      × (prepend_item fuel s l a ≡ some (s, record { head = some a; tail = some b }))
unfolding append_item prepend_item
item_empty fuel s l a b e q = (rw (append_item, e, q), rw (prepend_item, e, q))

chain_alone :
    (s : Store) (z : Entry) (zs : List Entry) (b : ℕ)
    → last_from (some z.addr) zs ≡ some b
    → Segment s.cell_at (z ∷ zs) none
    → AllBelow s.fresh (z ∷ zs)
    → Models s (record { head = some z.addr; tail = some b }) (z ∷ zs)
chain_alone s z zs b r g n = record { heads = refl; tails = sym r; chain = g; bounded = n }

append_item_at :
    (fuel : ℕ) (s : Store) (l : Linked) (a b t : ℕ) (c : Cell)
    → last_item fuel s a ≡ some b
    → l.tail ≡ some t
    → s.cell_at t ≡ some c
    → append_item fuel s l a
      ≡ some (store_cell s t (record c { next = some a }), record l { tail = some b })
unfolding append_item set_next
append_item_at fuel s l a b t c e q there = rw (e, q, append_item, set_next, there)

append_item-Models :
    (s : Store) (l : Linked) (es : List Entry) (z : Entry) (zs : List Entry) (fuel : ℕ)
    → Models s l es
    → IsChain s es z zs
    → length (z ∷ zs) ≤ fuel
    → Gives (append_item fuel s l z.addr) (es ++ z ∷ zs)
append_item-Models s l [] z zs fuel m i h =
    let (b, r) = last_some z.addr zs in
    let e = last_item-last fuel s z zs i.chain h ∙ r in
    (
      s,
      record { head = some z.addr; tail = some b },
      (item_empty fuel s l z.addr b e m.tails).0,
      chain_alone s z zs b r i.chain i.bounded,
    )
append_item-Models s l (e ∷ es) z zs fuel m i h =
    let (t, q) = last_some e.addr es in
    let (b, r) = last_some z.addr zs in
    let (c, there, w) = Segment-join s.cell_at e es (z ∷ zs) t m.chain q i.chain i.behind in
    (
      store_cell s t (record c { next = some z.addr }),
      record l { tail = some b },
      append_item_at fuel s l z.addr b t c (last_item-last fuel s z zs i.chain h ∙ r) (m.tails ∙ q)
          there,
      record {
        heads = m.heads;
        tails = sym (last_from-mid none (e ∷ es) z zs ∙ r);
        chain = w;
        bounded = AllBelow-join s.fresh (e ∷ es) (z ∷ zs) m.bounded i.bounded;
      },
    )

prepend_item_at :
    (fuel : ℕ) (s : Store) (l : Linked) (a b t : ℕ) (p : Pointer) (c : Cell)
    → last_item fuel s a ≡ some b
    → l.tail ≡ some t
    → l.head ≡ p
    → s.cell_at b ≡ some c
    → prepend_item fuel s l a
      ≡ some (store_cell s b (record c { next = p }), record { head = some a; tail = some t })
unfolding prepend_item set_next
prepend_item_at fuel s l a b t p c e q r there = rw (prepend_item, e, q, set_next, there, r, q)

prepend_item-Models :
    (s : Store) (l : Linked) (es : List Entry) (z : Entry) (zs : List Entry) (fuel : ℕ)
    → Models s l es
    → IsChain s es z zs
    → length (z ∷ zs) ≤ fuel
    → Gives (prepend_item fuel s l z.addr) (z ∷ zs ++ es)
prepend_item-Models s l [] z zs fuel m i h =
    let (b, r) = last_some z.addr zs in
    let e = last_item-last fuel s z zs i.chain h ∙ r in
    (
      s,
      record { head = some z.addr; tail = some b },
      (item_empty fuel s l z.addr b e m.tails).1,
      rw (append_nil zs) (chain_alone s z zs b r i.chain i.bounded),
    )
prepend_item-Models s l (e ∷ es) z zs fuel m i h =
    let (t, q) = last_some e.addr es in
    let (b, r) = last_some z.addr zs in
    let (c, there, w) = Segment-join s.cell_at z zs (e ∷ es) b i.chain r m.chain i.before in
    (
      store_cell s b (record c { next = some e.addr }),
      record { head = some z.addr; tail = some t },
      prepend_item_at fuel s l z.addr b t (some e.addr) c (last_item-last fuel s z zs i.chain h ∙ r)
          (m.tails ∙ q) m.heads there,
      record {
        heads = refl;
        tails = sym (last_from-mid none (z ∷ zs) e es ∙ q);
        chain = w;
        bounded = AllBelow-join s.fresh (z ∷ zs) (e ∷ es) i.bounded m.bounded;
      },
    )

-- Adding a chain of items at the end or at the front puts it behind or before the items of the
-- list, where no address stands in both; a fuel of the number of items in the chain is enough for
-- the search of its last one.
pub items-Models :
    (s : Store) (l : Linked) (es : List Entry) (z : Entry) (zs : List Entry) (fuel : ℕ)
    → Models s l es
    → IsChain s es z zs
    → length (z ∷ zs) ≤ fuel
    → Gives (append_item fuel s l z.addr) (es ++ z ∷ zs)
      × Gives (prepend_item fuel s l z.addr) (z ∷ zs ++ es)
items-Models s l es z zs fuel m i h =
    (append_item-Models s l es z zs fuel m i h, prepend_item-Models s l es z zs fuel m i h)
