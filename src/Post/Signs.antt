-- ===== src/Post/Signs.antt =====
-- What makes a comparison one that sorting can use, and the ways to build such comparisons.
use cil.Base.{ℕ, ◌≡◌, ◌⊎◌, inl, inr, refl, sym, ap, ◌∙◌, [], ◌∷◌, arith}
use cil.Text.{Text}
use cil.Post.{Sign, below, same, above, flip, by_value, strcmp}

-- Among the things with the property `P`, `cmp` is a total order up to the pairs that it calls the
-- same.
pub record IsOrder {ℓ} {A : Type ℓ} (P : A → Type 0) (cmp : A → A → Sign) : Type ℓ where
  pub flips : (a b : A) → P a → P b → cmp b a ≡ flip (cmp a b)
  pub trans : (a b c : A) → P a → P b → P c → cmp a b ≡ below → cmp b c ≡ below → cmp a c ≡ below
  pub congr : (a b c : A) → P a → P b → P c → cmp a b ≡ same → cmp a c ≡ cmp b c

-- The laws of an order, for three things.
abbrev pub OrderAt {ℓ} : {A : Type ℓ} → (A → A → Sign) → A → A → A → Type 0
OrderAt cmp a b c =
    (cmp b a ≡ flip (cmp a b))
    × (cmp a b ≡ below → cmp b c ≡ below → cmp a c ≡ below)
    × (cmp a b ≡ same → cmp a c ≡ cmp b c)

pub IsOrder-at {ℓ} :
    {A : Type ℓ} (P : A → Type 0) (cmp : A → A → Sign) (a b c : A)
    → IsOrder P cmp
    → P a
    → P b
    → P c
    → OrderAt cmp a b c
IsOrder-at P cmp a b c o p q r = (o.flips a b p q, o.trans a b c p q r, o.congr a b c p q r)

-- One comparison, and a second one where the first says `same`.
abbrev pub then_by : Sign → Sign → Sign
then_by same t = t
then_by s t = s

pub flip-flip : (s : Sign) → flip (flip s) ≡ s
flip-flip below = refl
flip-flip same = refl
flip-flip above = refl

then_below : (s t : Sign) → then_by s t ≡ below → (s ≡ below) ⊎ ((s ≡ same) × (t ≡ below))
then_below below t h = inl refl
then_below same t h = inr (refl, h)
then_below above t h = cc

then_same : (s t : Sign) → then_by s t ≡ same → (s ≡ same) × (t ≡ same)
then_same below t h = cc
then_same same t h = (refl, h)
then_same above t h = cc

module _ {ℓ} {A : Type ℓ} (P : A → Type 0) where
  -- The congruence on the other side.
  congr_right :
      (c : A → A → Sign) (o : IsOrder P c) (x y z : A)
      → P x
      → P y
      → P z
      → c y z ≡ same
      → c x z ≡ c x y
  congr_right c o x y z p q r e =
      o.flips z x r p
      ∙ ap flip (o.congr z y x r q p (o.flips y z q r ∙ ap flip e))
      ∙ ap flip (o.flips x y p q)
      ∙ flip-flip (c x y)

  flips_then : (s t u v : Sign) → u ≡ flip s → v ≡ flip t → then_by u v ≡ flip (then_by s t)
  flips_then below t u v h k = rw h
  flips_then same t u v h k = rw (h, k)
  flips_then above t u v h k = rw h

  trans_then :
      (c d : A → A → Sign) (o : IsOrder P c) (u : IsOrder P d) (x y z : A)
      → P x
      → P y
      → P z
      → then_by (c x y) (d x y) ≡ below
      → then_by (c y z) (d y z) ≡ below
      → then_by (c x z) (d x z) ≡ below
  trans_then c d o u x y z p q r h k = elim (then_below (c x y) (d x y) h) [
    | inl e ↦ elim (then_below (c y z) (d y z) k) [
      | inl f ↦ rw (o.trans x y z p q r e f)
      | inr f ↦ rw (congr_right c o x y z p q r f.0, e)
    ]
    | inr e ↦ elim (then_below (c y z) (d y z) k) [
      | inl f ↦ rw (o.congr x y z p q r e.0, f)
      | inr f ↦ rw (o.congr x y z p q r e.0, f.0, u.trans x y z p q r e.1 f.1)
    ]
  ]

  pub then_by-IsOrder :
      (c d : A → A → Sign) → IsOrder P c → IsOrder P d → IsOrder P (λ a b. then_by (c a b) (d a b))
  then_by-IsOrder c d o u = record {
    flips =
        λ x y p q. flips_then (c x y) (d x y) (c y x) (d y x) (o.flips x y p q) (u.flips x y p q);
    trans = trans_then c d o u;
    congr = λ x y z p q r h.
        let (e, f) = then_same (c x y) (d x y) h in
        rw (o.congr x y z p q r e, u.congr x y z p q r f);
  }

  -- The contrary order.
  pub flip-IsOrder : (c : A → A → Sign) → IsOrder P c → IsOrder P (λ a b. flip (c a b))
  flip-IsOrder c o = record {
    flips = λ x y p q. ap flip (o.flips x y p q);
    trans = λ x y z p q r h k.
        sym (o.flips x z p r) ∙ o.trans z y x r q p (o.flips y z q r ∙ k) (o.flips x y p q ∙ h);
    congr = λ x y z p q r h. ap flip (o.congr x y z p q r (sym (flip-flip (c x y)) ∙ ap flip h));
  }

  pub IsOrder-of :
      (c d : A → A → Sign) → ((a b : A) → P a → P b → c a b ≡ d a b) → IsOrder P d → IsOrder P c
  IsOrder-of c d e o = record {
    flips = λ x y p q. rw (e x y p q, e y x q p) (o.flips x y p q);
    trans = λ x y z p q r. rw (e x y p q, e y z q r, e x z p r) (o.trans x y z p q r);
    congr = λ x y z p q r. rw (e x y p q, e y z q r, e x z p r) (o.congr x y z p q r);
  }

  pub by_value-IsOrder : (f : A → ℕ) → IsOrder P (λ a b. by_value (f a) (f b))
  by_value-IsOrder f = record {
    flips = λ x y p q. ground arith;
    trans = λ x y z p q r. ground arith;
    congr = λ x y z p q r. ground arith;
  }

strcmp-flip : (xs ys : Text) → strcmp ys xs ≡ flip (strcmp xs ys)
unfolding strcmp
strcmp-flip [] [] = refl
strcmp-flip [] (y ∷ ys) = refl
strcmp-flip (x ∷ xs) [] = refl
strcmp-flip (x ∷ xs) (y ∷ ys) = ground (arith, strcmp-flip xs ys)

strcmp_trans :
    (xs ys zs : Text) → strcmp xs ys ≡ below → strcmp ys zs ≡ below → strcmp xs zs ≡ below
unfolding strcmp
strcmp_trans [] [] zs h k = cc
strcmp_trans [] (y ∷ ys) [] h k = cc
strcmp_trans [] (y ∷ ys) (z ∷ zs) h k = refl
strcmp_trans (x ∷ xs) [] zs h k = cc
strcmp_trans (x ∷ xs) (y ∷ ys) [] h k = cc
strcmp_trans (x ∷ xs) (y ∷ ys) (z ∷ zs) h k = ground (arith, strcmp_trans xs ys zs)

strcmp_congr : (xs ys zs : Text) → strcmp xs ys ≡ same → strcmp xs zs ≡ strcmp ys zs
unfolding strcmp
strcmp_congr [] [] zs h = refl
strcmp_congr [] (y ∷ ys) zs h = cc
strcmp_congr (x ∷ xs) [] zs h = cc
strcmp_congr (x ∷ xs) (y ∷ ys) [] h = refl
strcmp_congr (x ∷ xs) (y ∷ ys) (z ∷ zs) h = ground (arith, strcmp_congr xs ys zs)

pub strcmp-IsOrder {ℓ} :
    {A : Type ℓ} (P : A → Type 0) (f : A → Text) → IsOrder P (λ a b. strcmp (f a) (f b))
strcmp-IsOrder P f = record {
  flips = λ x y p q. strcmp-flip (f x) (f y);
  trans = λ x y z p q r. strcmp_trans (f x) (f y) (f z);
  congr = λ x y z p q r. strcmp_congr (f x) (f y) (f z);
}
