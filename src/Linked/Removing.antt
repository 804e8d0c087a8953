-- ===== src/Linked/Removing.antt =====
-- Removing an item.
use cil.Base.{
  ℕ, append_assoc, append_nil, zero, suc, ◌≤◌, ◌≡◌, inl, inr, refl, sym, ap, ◌∙◌, List, [], ◌∷◌,
  ◌++◌, Option, none, some, ◌==◌, ◌&&◌, ==_ne, ==_self, arith, if◌then◌else◌, Bool-cases, length,
}
use mathlib.Core.Path.{subst}
use cil.Flavor.{Flavor}
use cil.Linked.{
  Cell, Store, Linked, write_cell, store_cell, set_next, empty_list, new_tail, free_cell, unlink,
  remove_from, remove,
}
use cil.Linked.Chains.{
  Entry, first_or, last_from, cell_of, Absent, Segment, AllBelow, Models, Segment-frame, some_same,
  Absent-last,
}
use cil.Linked.Adding.{Gives, last_some}
use cil.Linked.Inserting.{Absent-mid, last_from-mid}

-- The entries without the first one with this flavor and data.
unfoldable pub drop_first : Flavor → ℕ → List Entry → List Entry
drop_first f d [] = []
drop_first f d (e ∷ es) =
    let rest = drop_first f d es in if e.datum == d && e.kind == f then es else e ∷ rest

Absent-prefix : (a : ℕ) (xs zs : List Entry) → Absent a (xs ++ zs) → Absent a xs
Absent-prefix a [] zs h = tt
Absent-prefix a (x ∷ xs) zs (h, k) = (h, Absent-prefix a xs zs k)

Absent-drop :
    (a : ℕ) (xs : List Entry) (e : Entry) (ys : List Entry)
    → Absent a (xs ++ e ∷ ys)
    → Absent a (xs ++ ys)
Absent-drop a [] e ys (h, k) = k
Absent-drop a (x ∷ xs) e ys (h, k) = (h, Absent-drop a xs e ys k)

AllBelow-drop :
    (n : ℕ) (xs : List Entry) (e : Entry) (ys : List Entry)
    → AllBelow n (xs ++ e ∷ ys)
    → AllBelow n (xs ++ ys)
AllBelow-drop n [] e ys (h, k) = k
AllBelow-drop n (x ∷ xs) e ys (h, k) = (h, AllBelow-drop n xs e ys k)

-- The item at `t`, which is before `e`, is pointed to the one behind `e`, and `e` is freed.
abbrev pub Unlinked : (ℕ → Option Cell) → ℕ → Entry → List Entry → List Entry → Type 0
Unlinked h t e ys zs =
    (c : Cell) × (h t ≡ some c)
    × Segment
        (write_cell (write_cell h t (some (record c { next = first_or none ys }))) e.addr none) zs
        none

Segment-unlink_one :
    (h : ℕ → Option Cell) (x e : Entry) (ys : List Entry)
    → Segment h (x ∷ e ∷ ys) none
    → Unlinked h x.addr e ys (x ∷ ys)
Segment-unlink_one h x e ys (s, (a, b), (r, k, u)) = (
  cell_of x (some e.addr),
  s,
  (
    rw (==_ne x.addr e.addr a, ==_self x.addr),
    b,
    Segment-frame (write_cell h x.addr (some (cell_of x (first_or none ys)))) ys none e.addr none k
        (Segment-frame h ys none x.addr (some (cell_of x (first_or none ys))) b u),
  ),
)

Segment-unlink :
    (h : ℕ → Option Cell) (x : Entry) (xs : List Entry) (e : Entry) (ys : List Entry) (t : ℕ)
    → Segment h (x ∷ xs ++ e ∷ ys) none
    → last_from (some x.addr) xs ≡ some t
    → Unlinked h t e ys (x ∷ xs ++ ys)
Segment-unlink h x [] e ys t s q =
    subst (λ a. Unlinked h a e ys (x ∷ ys)) (some_same x.addr t q) (Segment-unlink_one h x e ys s)
Segment-unlink h x (y ∷ xs) e ys t (s, a, u) q =
    let (c, there, v) = Segment-unlink h y xs e ys t u q in
    (
      c,
      there,
      (
        rw
            (
              ==_ne x.addr e.addr (Absent-mid x.addr (y ∷ xs) e ys a),
              ==_ne x.addr t
                  (Absent-last x.addr y xs t (Absent-prefix x.addr (y ∷ xs) (e ∷ ys) a) q),
            )
            s,
        Absent-drop x.addr (y ∷ xs) e ys a,
        v,
      ),
    )

-- The matching item is the first.
unlink-first :
    (s : Store) (l : Linked) (e : Entry) (ys : List Entry)
    → Models s l (e ∷ ys)
    → Gives (unlink s l none e.addr (cell_of e (first_or none ys))) ys
unfolding unlink
unlink-first s l e [] m = (
  free_cell s e.addr,
  empty_list,
  refl,
  record { heads = refl; tails = refl; chain = tt; bounded = tt },
)
unlink-first s l e (y ∷ ys) m = (
  free_cell s e.addr,
  record l { head = some y.addr },
  refl,
  record {
    heads = refl;
    tails = m.tails;
    chain = Segment-frame s.cell_at (y ∷ ys) none e.addr none (m.chain.1) (m.chain.2);
    bounded = m.bounded.1;
  },
)

unlink_at :
    (s : Store) (l : Linked) (p a : ℕ) (b c : Cell)
    → s.cell_at p ≡ some b
    → unlink s l (some p) a c
      ≡ some (free_cell (store_cell s p (record b { next = c.next })) a, new_tail c.next (some p) l)
unfolding unlink set_next
unlink_at s l p a b c there = rw (unlink, set_next, there)

tail_of :
    (l : Linked) (x : Entry) (xs : List Entry) (e : Entry) (ys : List Entry) (t : ℕ)
    → last_from (some x.addr) xs ≡ some t
    → l.tail ≡ last_from none (x ∷ xs ++ e ∷ ys)
    → (new_tail (first_or none ys) (some t) l).tail ≡ last_from none (x ∷ xs ++ ys)
tail_of l x xs e [] t q h = sym q ∙ ap (last_from (some x.addr)) (sym (append_nil xs))
tail_of l x xs e (y ∷ ys) t q h =
    h ∙ last_from-mid none (x ∷ xs) e (y ∷ ys) ∙ sym (last_from-mid none (x ∷ xs) y ys)

head_of :
    (l : Linked) (t : ℕ) (ys : List Entry) → (new_tail (first_or none ys) (some t) l).head ≡ l.head
head_of l t [] = refl
head_of l t (y ∷ ys) = refl

unlink-later :
    (s : Store) (l : Linked) (x : Entry) (xs : List Entry) (e : Entry) (ys : List Entry) (t : ℕ)
    → last_from (some x.addr) xs ≡ some t
    → Models s l (x ∷ xs ++ e ∷ ys)
    → Gives (unlink s l (some t) e.addr (cell_of e (first_or none ys))) (x ∷ xs ++ ys)
unlink-later s l x xs e ys t q m =
    let (c, there, v) = Segment-unlink s.cell_at x xs e ys t m.chain q in
    (
      free_cell (store_cell s t (record c { next = first_or none ys })) e.addr,
      new_tail (first_or none ys) (some t) l,
      unlink_at s l t e.addr c (cell_of e (first_or none ys)) there,
      record {
        heads = head_of l t ys ∙ m.heads;
        tails = tail_of l x xs e ys t q m.tails;
        chain = v;
        bounded = AllBelow-drop s.fresh (x ∷ xs) e ys m.bounded;
      },
    )

-- The cell of an entry in the middle.
cell_of-mid :
    (h : ℕ → Option Cell) (xs : List Entry) (e : Entry) (ys : List Entry)
    → Segment h (xs ++ e ∷ ys) none
    → h e.addr ≡ some (cell_of e (first_or none ys))
cell_of-mid h [] e ys (s, k, u) = s
cell_of-mid h (x ∷ xs) e ys (s, k, u) = cell_of-mid h xs e ys u

unlink-Models :
    (s : Store) (l : Linked) (xs : List Entry) (e : Entry) (ys : List Entry)
    → Models s l (xs ++ e ∷ ys)
    → Gives (unlink s l (last_from none xs) e.addr (cell_of e (first_or none ys))) (xs ++ ys)
unlink-Models s l [] e ys m = unlink-first s l e ys m
unlink-Models s l (x ∷ xs) e ys m =
    let (t, q) = last_some x.addr xs in rw q (unlink-later s l x xs e ys t q m)

remove_from-Models :
    (fuel : ℕ) (s : Store) (l : Linked) (xs es : List Entry) (f : Flavor) (d : ℕ)
    → length es ≤ fuel
    → Models s l (xs ++ es)
    → Gives
        (remove_from fuel s l (last_from none xs) (first_or none es) f d)
        (xs ++ drop_first f d es)
unfolding remove_from drop_first
remove_from-Models zero s l xs [] f d h m = (s, l, refl, m)
remove_from-Models (suc fuel) s l xs [] f d h m = (s, l, refl, m)
remove_from-Models zero s l xs (e ∷ es) f d h m = absurd (omega arith)
remove_from-Models (suc fuel) s l xs (e ∷ es) f d h m =
    let there = cell_of-mid s.cell_at xs e es m.chain in
    elim (Bool-cases (e.datum == d && e.kind == f)) [
      | inl found ↦ rw (there, found) (unlink-Models s l xs e es m)
      | inr other ↦
          rw
            (
              there,
              other,
              ← append_assoc xs (e ∷ []) (drop_first f d es),
              ← last_from-mid none xs e [],
            )
            (remove_from-Models fuel s l (xs ++ e ∷ []) es f d (omega arith)
              (rw (append_assoc xs (e ∷ []) es) m))
    ]

-- Removing takes away the first item with the flavor and the data, and no other; a
-- fuel of the number of items is enough for the loop.
pub remove-Models :
    (s : Store) (l : Linked) (es : List Entry) (f : Flavor) (d fuel : ℕ)
    → Models s l es
    → length es ≤ fuel
    → Gives (remove fuel s l f d) (drop_first f d es)
unfolding remove
remove-Models s l es f d fuel m h =
    subst (λ p. Gives (remove_from fuel s l none p f d) (drop_first f d es)) (sym m.heads)
      (remove_from-Models fuel s l [] es f d h m)
