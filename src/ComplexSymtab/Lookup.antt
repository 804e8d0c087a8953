-- ===== src/ComplexSymtab/Lookup.antt =====
-- The table is a finite map: its invariant, and insertion and search against `view`.
use cil.Base.{
  ℕ, zero, suc, ◌+◌, ◌-◌, ◌/◌, ◌%◌, ◌^◌, ◌<◌, ◌≡◌, ◌≢◌, ◌⊎◌, inl, inr, refl, ap, ◌∙◌, List, [], ◌∷◌,
  Option, none, some, true, false, arith, ◌==◌, ==_iff, if◌then◌else◌, Bool-cases, length,
  get_elem?, set, replicate, length-set, length-replicate, bit_and, sepol_ok, sepol_eexist,
}
use mathlib.Core.Path.{subst}
use cil.ComplexSymtab.{Key, same_key, Chain, Table, hash, init, place, insert, search}
use cil.ComplexSymtab.Bits.{bit_and-le}
use cil.ComplexSymtab.Order.{
  IsOrdered, lookup, same_key_refl, same_key_symm, search_chain-lookup, Inserted,
  insert_chain-Inserted,
}

hash_congr : (a b : Key) (mask : ℕ) → same_key a b ≡ true → hash a mask ≡ hash b mask
unfolding hash same_key
hash_congr a b mask h = ap (λ (s : ℕ). bit_and (s / 4) mask) (ground arith)

hash_apart : (q k : Key) (mask : ℕ) → (hash k mask == hash q mask) ≡ false → same_key q k ≡ false
hash_apart q k mask away = elim (Bool-cases (same_key q k)) [
  | inl same ↦ absurd (ground (arith, hash_congr q k mask same))
  | inr other ↦ other
]

module _ {ℓ} {A : Type ℓ} where
  abbrev pub AllOrdered : List (Chain A) → Type 0
  AllOrdered [] = Unit
  AllOrdered (c ∷ cs) = IsOrdered c × AllOrdered cs

  unfoldable pub entries : List (Chain A) → ℕ
  entries [] = 0
  entries (c ∷ cs) = length c + entries cs

  pub record IsValid (t : Table A) : Type 0 where
    pub width : length t.htable ≡ t.nslots
    pub masked : suc t.mask ≡ t.nslots
    pub ordered : AllOrdered t.htable
    pub counted : t.nelems ≡ entries t.htable % 2 ^ 32

  -- The chain of a slot, empty past the end.
  chain_at : List (Chain A) → ℕ → Chain A
  chain_at [] i = []
  chain_at (c ∷ cs) zero = c
  chain_at (c ∷ cs) (suc i) = chain_at cs i

  -- The finite map that a table stands for.
  pub view : Table A → Key → Option A
  view t q = lookup q (chain_at t.htable (hash q t.mask))

  get_elem?-chain_at :
      (cs : List (Chain A)) (i : ℕ) → i < length cs → get_elem? cs i ≡ some (chain_at cs i)
  unfolding chain_at
  get_elem?-chain_at [] i h = absurd (omega arith)
  get_elem?-chain_at (c ∷ cs) zero h = refl
  get_elem?-chain_at (c ∷ cs) (suc i) h = get_elem?-chain_at cs i (omega arith)

  chain_at-IsOrdered : (cs : List (Chain A)) (i : ℕ) → AllOrdered cs → IsOrdered (chain_at cs i)
  unfolding chain_at
  chain_at-IsOrdered [] i o = tt
  chain_at-IsOrdered (c ∷ cs) zero o = o.0
  chain_at-IsOrdered (c ∷ cs) (suc i) o = chain_at-IsOrdered cs i o.1

  AllOrdered-set :
      (cs : List (Chain A)) (i : ℕ) (r : Chain A)
      → AllOrdered cs
      → IsOrdered r
      → AllOrdered (set cs i r)
  AllOrdered-set [] i r o h = tt
  AllOrdered-set (c ∷ cs) zero r o h = (h, o.1)
  AllOrdered-set (c ∷ cs) (suc i) r o h = (o.0, AllOrdered-set cs i r o.1 h)

  entries-set :
      (cs : List (Chain A)) (i : ℕ) (r : Chain A)
      → i < length cs
      → length r ≡ suc (length (chain_at cs i))
      → entries (set cs i r) ≡ suc (entries cs)
  unfolding chain_at entries
  entries-set [] i r h e = absurd (omega arith)
  entries-set (c ∷ cs) zero r h e = omega arith
  entries-set (c ∷ cs) (suc i) r h e = omega (arith, entries-set cs i r)

  chain_at-set_self :
      (cs : List (Chain A)) (i : ℕ) (r : Chain A) → i < length cs → chain_at (set cs i r) i ≡ r
  unfolding chain_at
  chain_at-set_self [] i r h = absurd (omega arith)
  chain_at-set_self (c ∷ cs) zero r h = refl
  chain_at-set_self (c ∷ cs) (suc i) r h = chain_at-set_self cs i r (omega arith)

  chain_at-set_other :
      (cs : List (Chain A)) (i j : ℕ) (r : Chain A)
      → i ≢ j
      → chain_at (set cs i r) j ≡ chain_at cs j
  unfolding chain_at
  chain_at-set_other [] i j r h = refl
  chain_at-set_other (c ∷ cs) zero zero r h = absurd (h refl)
  chain_at-set_other (c ∷ cs) zero (suc j) r h = refl
  chain_at-set_other (c ∷ cs) (suc i) zero r h = refl
  chain_at-set_other (c ∷ cs) (suc i) (suc j) r h = chain_at-set_other cs i j r (omega arith)

  hash-lt : (t : Table A) (k : Key) → IsValid t → hash k t.mask < length t.htable
  unfolding hash
  hash-lt t k v =
      omega (arith, v.masked, v.width, bit_and-le ((k.key1 + k.key2 + k.key3 + k.key4) / 4) t.mask)

  search-view : (t : Table A) (k : Key) → IsValid t → search t k ≡ some (view t k)
  unfolding search view
  search-view t k v = rw (
    get_elem?-chain_at t.htable (hash k t.mask) (hash-lt t k v),
    search_chain-lookup k (chain_at t.htable (hash k t.mask))
        (chain_at-IsOrdered t.htable (hash k t.mask) v.ordered),
  )

  -- `r` is the table with a new entry for `k`.
  pub record Added (t : Table A) (k : Key) (d : A) (r : Table A) : Type ℓ where
    pub valid : IsValid r
    pub reads : (q : Key) → view r q ≡ (if same_key q k then some d else view t q)

  placed-Added :
      (t : Table A) (k : Key) (d : A) (c : Chain A)
      → IsValid t
      → Inserted k d (chain_at t.htable (hash k t.mask)) c
      → Added t k d (place t (hash k t.mask) (some c)).1
  unfolding place view
  placed-Added t k d c v ins =
      let slot = hash k t.mask in
      let fits = hash-lt t k v in
      record {
        valid = record {
          width = length-set t.htable slot c ∙ v.width;
          masked = v.masked;
          ordered = AllOrdered-set t.htable slot c v.ordered ins.ordered;
          counted = omega (arith, v.counted, entries-set t.htable slot c fits ins.longer);
        };
        reads = λ q. elim (Bool-cases (slot == hash q t.mask)) [
          | inl here ↦
              rw (← (==_iff slot (hash q t.mask)).0 here, chain_at-set_self t.htable slot c fits)
                (ins.reads q)
          | inr away ↦ rw (
            chain_at-set_other t.htable slot (hash q t.mask) c (ground arith),
            hash_apart q k t.mask away,
          )
        ];
      }

  -- On a valid table an insertion stays within `htable`. A key that is not there is added: the
  -- table stays valid, a lookup of that key finds the new datum, any other lookup is unchanged.
  -- A key that is there is refused with SEPOL_EEXIST, and the table does not change.
  pub insert-view :
      (t : Table A) (k : Key) (d : A)
      → IsValid t
      → (view t k ≡ none) × ((r : Table A) × (insert t k d ≡ some (sepol_ok, r)) × Added t k d r)
        ⊎ (view t k ≢ none) × (insert t k d ≡ some (sepol_eexist, t))
  unfolding insert view place
  insert-view t k d v =
      let c = chain_at t.htable (hash k t.mask) in
      rw (get_elem?-chain_at t.htable (hash k t.mask) (hash-lt t k v))
        (elim (insert_chain-Inserted k d c
          (chain_at-IsOrdered t.htable (hash k t.mask) v.ordered)) [
            | inl (free, (r, put, ins)) ↦ inl (free, (_, rw put, placed-Added t k d r v ins))
            | inr (taken, refused) ↦ inr (taken, rw refused)
          ])

  insert-Added :
      (t r : Table A) (k : Key) (d : A)
      → IsValid t
      → insert t k d ≡ some (sepol_ok, r)
      → (view t k ≡ none) × Added t k d r
  insert-Added t r k d v p = elim (insert-view t k d v) [
    | inl (free, (r', put, added)) ↦ let e : r' ≡ r = cc in (free, subst (Added t k d) e added)
    | inr (taken, refused) ↦ cc
  ]

  replicate-IsValid :
      (n q : ℕ)
      → AllOrdered (replicate n [])
        × (entries (replicate n []) ≡ 0)
        × (chain_at (replicate n []) q ≡ [])
  unfolding replicate entries chain_at
  replicate-IsValid zero q = (tt, refl, refl)
  replicate-IsValid (suc n) zero =
      let (o, e, _) = replicate-IsValid n 0 in ((tt, o), omega arith, refl)
  replicate-IsValid (suc n) (suc q) =
      let (o, e, c) = replicate-IsValid n q in ((tt, o), omega arith, c)

  -- On a new table of 1 to 2 ^ 32 - 1 slots every search misses, and the table is valid.
  pub init-view :
      (size : ℕ) (q : Key)
      → 0 < size
      → size < 2 ^ 32
      → IsValid (init {A = A} size) × (search (init {A = A} size) q ≡ some none)
  unfolding init
  init-view size q pos small =
      let slots = replicate-IsValid size (hash q ((size + 2 ^ 32 - 1) % 2 ^ 32)) in
      let valid : IsValid (init {A = A} size) = record {
        width = length-replicate {A = Chain A} size [];
        masked = omega arith;
        ordered = slots.0;
        counted = omega arith;
      } in
      (valid, search-view (init size) q valid ∙ ap some (unfold view lookup in rw (slots.2)))

  -- An entry that was put in is found, and no later insertion of another key hides it.
  pub search-insert :
      (t r s : Table A) (j k : Key) (d e : A)
      → IsValid t
      → insert t k d ≡ some (sepol_ok, r)
      → insert r j e ≡ some (sepol_ok, s)
      → search s k ≡ some (some d)
  search-insert t r s j k d e v p q =
      let (_, one) = insert-Added t r k d v p in
      let (free, two) = insert-Added r s j e one.valid q in
      rw (search-view s k two.valid, two.reads k, one.reads k, same_key_refl k)
        (elim (Bool-cases (same_key k j)) [
          | inl same ↦
              let clash : some d ≡ none = rw (one.reads j, same_key_symm k j same) at free in cc
          | inr other ↦ rw other
        ])
