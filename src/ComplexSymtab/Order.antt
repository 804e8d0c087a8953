-- ===== src/ComplexSymtab/Order.antt =====
-- One chain. Entries with the same first part stand in increasing order of the other three, so
-- that the early stop of the search is right; entries with other first parts may stand anywhere.
use cil.Base.{
  ◌≡◌, ◌≢◌, ◌⊎◌, sym, ◌∙◌, ap, suc, refl, length, [], ◌∷◌, Option, none, some, true, false, arith,
  if◌then◌else◌, Bool-cases, inl, inr,
}
use cil.ComplexSymtab.{Key, same_key, stops_before, Chain, insert_chain, search_chain}

-- Where the first parts agree, the first key is the smaller.
abbrev pub InOrder : Key → Key → Type 0
InOrder k e = k.key1 ≡ e.key1 → stops_before k e ≡ true

stops_before_trans :
    (a b c : Key) → stops_before a b ≡ true → stops_before b c ≡ true → stops_before a c ≡ true
unfolding stops_before
stops_before_trans a b c h k = ground arith

stops_before_total : (a b : Key) → same_key a b ≡ false → stops_before a b ≡ false → InOrder b a
unfolding stops_before same_key
stops_before_total a b h k e = ground arith

stops_before_key1 : (a b : Key) → stops_before a b ≡ true → a.key1 ≡ b.key1
unfolding stops_before
stops_before_key1 a b h = ground arith

same_key-key1 : (a b : Key) → same_key a b ≡ true → a.key1 ≡ b.key1
unfolding same_key
same_key-key1 a b h = ground arith

stops_before_ne :
    (a b c : Key) → stops_before a b ≡ true → same_key a c ≡ true → stops_before b c ≡ false
unfolding stops_before same_key
stops_before_ne a b c h k = ground arith

pub same_key_refl : (a : Key) → same_key a a ≡ true
unfolding same_key
same_key_refl a = ground arith

pub same_key_symm : (a b : Key) → same_key a b ≡ true → same_key b a ≡ true
unfolding same_key
same_key_symm a b h = ground arith

same_key_congr : (a b c : Key) → same_key a b ≡ true → same_key a c ≡ same_key b c
unfolding same_key
same_key_congr a b c h = ground arith

-- A key that stops before `a` is not found among what follows `a`.
lookup_clash : (k a e : Key) → stops_before k a ≡ true → InOrder a e → same_key k e ≡ true → ⊥
unfolding stops_before same_key
lookup_clash k a e h o same = ground (arith, o)

module _ {ℓ} {A : Type ℓ} where
  abbrev pub Follows : Key → Chain A → Type 0
  Follows k [] = Unit
  Follows k (e ∷ c) = InOrder k e.0 × Follows k c

  abbrev pub IsOrdered : Chain A → Type 0
  IsOrdered [] = Unit
  IsOrdered (e ∷ c) = Follows e.0 c × IsOrdered c

  -- The first entry with the key, with no early stop.
  unfoldable pub lookup : Key → Chain A → Option A
  lookup k [] = none
  lookup k (e ∷ c) = if same_key k e.0 then some e.1 else lookup k c

  Follows-trans : (a b : Key) (c : Chain A) → stops_before a b ≡ true → Follows b c → Follows a c
  Follows-trans a b [] h f = tt
  Follows-trans a b (e ∷ c) h (o, f) = (
    λ same. stops_before_trans a b e.0 h (o (sym (stops_before_key1 a b h) ∙ same)),
    Follows-trans a b c h f,
  )

  lookup_stopped :
      (k a : Key) (c : Chain A) → stops_before k a ≡ true → Follows a c → lookup k c ≡ none
  unfolding lookup
  lookup_stopped k a [] h f = refl
  lookup_stopped k a (e ∷ c) h (o, f) = elim (Bool-cases (same_key k e.0)) [
    | inl same ↦ absurd (lookup_clash k a e.0 h o same)
    | inr other ↦ rw other (lookup_stopped k a c h f)
  ]

  -- The early stop loses nothing.
  pub search_chain-lookup : (k : Key) (c : Chain A) → IsOrdered c → search_chain k c ≡ lookup k c
  unfolding search_chain lookup
  search_chain-lookup k [] o = refl
  search_chain-lookup k (e ∷ c) (f, o) = elim (Bool-cases (same_key k e.0)) [
    | inl same ↦ rw same
    | inr other ↦ elim (Bool-cases (stops_before k e.0)) [
      | inl stop ↦ rw (other, stop, lookup_stopped k e.0 c stop f)
      | inr on ↦ rw (other, on) (search_chain-lookup k c o)
    ]
  ]

  -- `r` is the chain `c` with an entry for `k` put in its place.
  pub record Inserted (k : Key) (d : A) (c r : Chain A) : Type ℓ where
    pub ordered : IsOrdered r
    pub longer : length r ≡ suc (length c)
    pub reads : (q : Key) → lookup q r ≡ (if same_key q k then some d else lookup q c)
    pub follows : (a : Key) → InOrder a k → Follows a c → Follows a r

  Inserted-here :
      (k : Key) (d : A) (c : Chain A) → IsOrdered c → Follows k c → Inserted k d c ((k, d) ∷ c)
  unfolding lookup
  Inserted-here k d c o f = record {
    ordered = (f, o);
    longer = refl;
    reads = λ q. refl;
    follows = λ a i g. (i, g);
  }

  Inserted-later :
      (k : Key) (d : A) (e : Key × A) (c r : Chain A)
      → IsOrdered (e ∷ c)
      → same_key k e.0 ≡ false
      → stops_before k e.0 ≡ false
      → Inserted k d c r
      → Inserted k d (e ∷ c) (e ∷ r)
  unfolding lookup
  Inserted-later k d e c r (f, o) other on ins = record {
    ordered = (ins.follows e.0 (stops_before_total k e.0 other on) f, ins.ordered);
    longer = ap suc ins.longer;
    reads = λ q. rw (ins.reads q) (ground (arith, same_key_congr q k e.0));
    follows = λ a i (g, h). (g, ins.follows a i h);
  }

  -- Exactly the keys that the chain already holds are refused, and the others go in.
  pub insert_chain-Inserted :
      (k : Key) (d : A) (c : Chain A)
      → IsOrdered c
      → (lookup k c ≡ none) × ((r : Chain A) × (insert_chain k d c ≡ some r) × Inserted k d c r)
        ⊎ (lookup k c ≢ none) × (insert_chain k d c ≡ none)
  unfolding insert_chain lookup
  insert_chain-Inserted k d [] o = inl (refl, ((k, d) ∷ [], refl, Inserted-here k d [] tt tt))
  insert_chain-Inserted k d (e ∷ c) (f, o) = elim (Bool-cases (same_key k e.0)) [
    | inl same ↦ rw same (inr (cc, refl))
    | inr other ↦ elim (Bool-cases (stops_before k e.0)) [
      | inl stop ↦
          rw (other, stop)
            (inl (
              lookup_stopped k e.0 c stop f,
              (
                (k, d) ∷ e ∷ c,
                refl,
                Inserted-here k d (e ∷ c) (f, o) (λ _. stop, Follows-trans k e.0 c stop f),
              ),
            ))
      | inr on ↦
          rw (other, on)
            (elim (insert_chain-Inserted k d c o) [
              | inl (free, (r, put, ins)) ↦
                  inl (free, (e ∷ r, rw put, Inserted-later k d e c r (f, o) other on ins))
              | inr (taken, refused) ↦ inr (taken, rw refused)
            ])
    ]
  ]
