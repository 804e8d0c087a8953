-- ===== src/Linked/Inserting.antt =====
-- Inserting behind an item.
use cil.Base.{
  ℕ, append_assoc, ◌+◌, ◌<◌, ◌≡◌, ◌≢◌, refl, sym, ap, ◌∙◌, List, [], ◌∷◌, ◌++◌, Option, none, some,
  ==_ne, ==_self, arith,
}
use cil.Flavor.{Flavor}
use cil.Linked.{
  Pointer, Cell, Store, Linked, write_cell, store_cell, new_item, set_next, append, prepend,
  points_to, insert_between, list_insert,
}
use cil.Linked.Chains.{
  Entry, first_or, last_from, cell_of, Absent, Segment, AllBelow, Models, AllBelow-Absent,
  AllBelow-suc, Segment-frame, Absent-last,
}
use cil.Linked.Adding.{entry, last_some, Gives, append-Models, prepend-Models}

pub Absent-mid :
    (a : ℕ) (xs : List Entry) (e : Entry) (ys : List Entry) → Absent a (xs ++ e ∷ ys) → a ≢ e.addr
Absent-mid a [] e ys (h, k) = h
Absent-mid a (x ∷ xs) e ys (h, k) = Absent-mid a xs e ys k

Absent-insert :
    (a : ℕ) (xs : List Entry) (e n : Entry) (ys : List Entry)
    → a ≢ n.addr
    → Absent a (xs ++ e ∷ ys)
    → Absent a (xs ++ e ∷ n ∷ ys)
Absent-insert a [] e n ys q (h, k) = (h, (q, k))
Absent-insert a (x ∷ xs) e n ys q (h, k) = (h, Absent-insert a xs e n ys q k)

first_or-insert :
    (xs : List Entry) (e n : Entry) (ys : List Entry)
    → first_or none (xs ++ e ∷ n ∷ ys) ≡ first_or none (xs ++ e ∷ ys)
first_or-insert [] e n ys = refl
first_or-insert (x ∷ xs) e n ys = refl

AllBelow-insert :
    (m : ℕ) (xs : List Entry) (e n : Entry) (ys : List Entry)
    → n.addr < m
    → AllBelow m (xs ++ e ∷ ys)
    → AllBelow m (xs ++ e ∷ n ∷ ys)
AllBelow-insert m [] e n ys q (h, k) = (h, (q, k))
AllBelow-insert m (x ∷ xs) e n ys q (h, k) = (h, AllBelow-insert m xs e n ys q k)

pub last_from-mid :
    (p : Pointer) (xs : List Entry) (e : Entry) (ys : List Entry)
    → last_from p (xs ++ e ∷ ys) ≡ last_from (some e.addr) ys
last_from-mid p [] e ys = refl
last_from-mid p (x ∷ xs) e ys = last_from-mid (some x.addr) xs e ys

pub Segment-mid :
    (h : ℕ → Option Cell) (xs : List Entry) (e : Entry) (ys : List Entry)
    → Segment h (xs ++ e ∷ ys) none
    → Absent e.addr ys
Segment-mid h [] e ys (s, k, u) = k
Segment-mid h (x ∷ xs) e ys (s, k, u) = Segment-mid h xs e ys u

-- The new item `n` is written between `e` and the one behind it.
Segment-between :
    (h : ℕ → Option Cell) (xs : List Entry) (e n : Entry) (ys : List Entry)
    → Segment h (xs ++ e ∷ ys) none
    → Absent n.addr (xs ++ e ∷ ys)
    → (h e.addr ≡ some (cell_of e (first_or none ys)))
      × Segment
          (write_cell
            (write_cell h n.addr (some (cell_of n (first_or none ys))))
            e.addr
            (some (cell_of e (some n.addr))))
          (xs ++ e ∷ n ∷ ys)
          none
Segment-between h [] e n ys (s, k, u) (a, b) = (
  s,
  (
    rw (==_self e.addr),
    ((λ q. a (sym q)), k),
    (
      rw (==_ne n.addr e.addr a, ==_self n.addr),
      b,
      Segment-frame (write_cell h n.addr (some (cell_of n (first_or none ys)))) ys none e.addr
          (some (cell_of e (some n.addr))) k
          (Segment-frame h ys none n.addr (some (cell_of n (first_or none ys))) b u),
    ),
  ),
)
Segment-between h (x ∷ xs) e n ys (s, k, u) (a, b) =
    let (there, v) = Segment-between h xs e n ys u b in
    (
      there,
      (
        rw
            (
              ==_ne x.addr e.addr (Absent-mid x.addr xs e ys k),
              ==_ne x.addr n.addr (λ q. a (sym q)),
              first_or-insert xs e n ys,
            )
            s,
        Absent-insert x.addr xs e n ys (λ q. a (sym q)) k,
        v,
      ),
    )

list_insert_end :
    (s : Store) (l : Linked) (a : ℕ) (f : Flavor) (d : ℕ)
    → l.tail ≡ some a
    → list_insert s l (some a) f d ≡ append s l f d
unfolding list_insert
list_insert_end s l a f d q = rw (ap (λ p. points_to p a) q ∙ ==_self a)

list_insert_mid :
    (s : Store) (l : Linked) (a t : ℕ) (c : Cell) (f : Flavor) (d : ℕ)
    → l.tail ≡ some t
    → a ≢ t
    → s.cell_at a ≡ some c
    → a ≢ s.fresh
    → list_insert s l (some a) f d
      ≡ some (store_cell (new_item s c.next f d) a (record c { next = some s.fresh }), l)
unfolding list_insert set_next
list_insert_mid s l a t c f d q ne there new = rw (
  ap (λ p. points_to p a) q ∙ ==_ne t a (λ r. ne (sym r)),
  insert_between,
  there,
  set_next,
  ==_ne a s.fresh new,
  there,
)

list_insert-behind :
    (s : Store) (l : Linked) (xs : List Entry) (e : Entry) (ys : List Entry) (f : Flavor) (d : ℕ)
    → Models s l (xs ++ e ∷ ys)
    → Gives (list_insert s l (some e.addr) f d) (xs ++ e ∷ entry s.fresh f d ∷ ys)
list_insert-behind s l xs e [] f d m =
    rw
      (
        list_insert_end s l e.addr f d (m.tails ∙ last_from-mid none xs e []),
        ← append_assoc xs (e ∷ []) (entry s.fresh f d ∷ []),
      )
      (append-Models s l (xs ++ e ∷ []) f d m)
list_insert-behind s l xs e (y ∷ ys) f d m =
    let n = entry s.fresh f d in
    let (t, q) = last_some y.addr ys in
    let off = AllBelow-Absent s.fresh (xs ++ e ∷ y ∷ ys) m.bounded in
    let (there, seg) = Segment-between s.cell_at xs e n (y ∷ ys) m.chain off in
    (
      store_cell (new_item s (some y.addr) f d) e.addr (cell_of e (some s.fresh)),
      l,
      list_insert_mid s l e.addr t (cell_of e (some y.addr)) f d
          (m.tails ∙ last_from-mid none xs e (y ∷ ys) ∙ q)
          (Absent-last e.addr y ys t (Segment-mid s.cell_at xs e (y ∷ ys) m.chain) q) there
          (λ r. Absent-mid s.fresh xs e (y ∷ ys) off (sym r)),
      record {
        heads = m.heads ∙ sym (first_or-insert xs e n (y ∷ ys));
        tails =
            m.tails ∙ last_from-mid none xs e (y ∷ ys) ∙ sym (last_from-mid none xs e (n ∷ y ∷ ys));
        chain = seg;
        bounded =
            AllBelow-insert (s.fresh + 1) xs e n (y ∷ ys) (omega arith)
              (AllBelow-suc s.fresh (xs ++ e ∷ y ∷ ys) m.bounded);
      },
    )

-- Inserting behind an item puts the new item between it and the one that followed it, and NULL
-- stands for the front of the list.
pub list_insert-Models :
    (s : Store) (l : Linked) (xs : List Entry) (e : Entry) (ys : List Entry) (f : Flavor) (d : ℕ)
    → Models s l (xs ++ e ∷ ys)
    → Gives (list_insert s l (some e.addr) f d) (xs ++ e ∷ entry s.fresh f d ∷ ys)
      × Gives (list_insert s l none f d) (entry s.fresh f d ∷ xs ++ e ∷ ys)
unfolding list_insert
list_insert-Models s l xs e ys f d m = (
  list_insert-behind s l xs e ys f d m,
  ((prepend s l f d).0, (prepend s l f d).1, refl, prepend-Models s l (xs ++ e ∷ ys) f d m),
)
