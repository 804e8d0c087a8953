-- ===== src/Fqn/Qualified.antt =====
-- What the qualification does to the blocks.
use cil.Base.{
  ℕ, append_assoc, ◌⊎◌, ◌+◌, ◌≡◌, refl, sym, ap, ◌∙◌, inl, inr, List, [], ◌∷◌, ◌++◌, Bool, true,
  false, not, ◌&&◌, ◌==◌, ltb, leb, if◌then◌else◌, length, length-append, map, Status, sepol_err,
  is_ok, arith, Bool-cases,
}
use mathlib.Core.Path.{subst}
use cil.Text.{Text}
use cil.Fqn.{
  Datum, Symtab, Block, Blocks, block, no_blocks, one_block, FqnArgs, dot, is_skipped, qualify_decl,
  symtab_map, qualify_table, child_args, qualify_block, qualify_blocks, fqn_qualify,
}
use cil.Fqn.Paths.{
  dotted, full_name, all, named, named_table, named_block, named_blocks, fits_name, fits_table,
  fits_block, fits_blocks,
}
use cil.Verify.Names.{cil_max_name_length}

-- A call succeeds exactly where `fits`, and gives `out` then.
abbrev pub Agrees {ℓ} : {A : Type ℓ} → Status × A → Bool → A → Type ℓ
Agrees r fits out = (is_ok r.0 ≡ fits) × (fits ≡ true → r.1 ≡ out)

leb-not : (m n : ℕ) → leb m n ≡ not (ltb n m)
leb-not m n = ground arith

-- One call after another, up to the first that fails.
then-Agrees {ℓ} :
    {A : Type ℓ} (r : Status × A) (f : Bool) (out : A)
    → Agrees r f out
    → (is_ok r.0 ≡ true) × (f ≡ true) × (r.1 ≡ out) ⊎ (is_ok r.0 ≡ false) × (f ≡ false)
then-Agrees r f out (h, k) = elim (Bool-cases f) [
  | inl e ↦ inl (h ∙ e, e, k e)
  | inr e ↦ inr (h ∙ e, e)
]

symtab_map-Agrees {ℓ} :
    {A : Type ℓ} (f : A → Status × A) (fits : A → Bool) (out : A → A) (xs : List A)
    → ((x : A) → Agrees (f x) (fits x) (out x))
    → Agrees (symtab_map f xs) (all fits xs) (map out xs)
unfolding symtab_map all
symtab_map-Agrees f fits out [] h = (refl, λ _. refl)
symtab_map-Agrees f fits out (x ∷ xs) h =
    let (a, b) = symtab_map-Agrees f fits out xs h in
    elim (then-Agrees (f x) (fits x) (out x) (h x)) [
      | inl (e, g, q) ↦ rw (e, g, q) (a, λ k. ap (λ l. out x ∷ l) (b k))
      | inr (e, g) ↦ rw (e, g) (e, λ k. cc)
    ]

abbrev pub args_of : List Text → FqnArgs
args_of path = record { prefix = dotted path; len = length (dotted path) }

pub qualify_decl-Agrees :
    (path : List Text) (d : Datum)
    → (length (dotted path) == 0) ≡ false
    → Agrees (qualify_decl (args_of path) d) (fits_name path d) (named path d)
unfolding qualify_decl full_name
qualify_decl-Agrees path d h =
    elim (Bool-cases (ltb (length (dotted path) + length d.name) cil_max_name_length)) [
      | inl e ↦
          rw
            (
              h,
              length-append (dotted path) d.name,
              leb-not cil_max_name_length (length (dotted path) + length d.name),
              e,
            )
            (refl, λ _. refl)
      | inr e ↦
          rw
            (
              h,
              length-append (dotted path) d.name,
              leb-not cil_max_name_length (length (dotted path) + length d.name),
              e,
            )
            (refl, λ k. cc)
    ]

qualify_table-Agrees :
    (path : List Text) (t : Symtab)
    → (length (dotted path) == 0) ≡ false
    → Agrees (qualify_table (args_of path) t) (fits_table path t) (named_table path t)
unfolding qualify_table
qualify_table-Agrees path t h =
    let (a, b) =
      symtab_map-Agrees (qualify_decl (args_of path)) (fits_name path) (named path) t.data_list
        (λ d. qualify_decl-Agrees path d h) in
    elim (Bool-cases (is_skipped t.index)) [
      | inl e ↦ rw e (refl, λ _. refl)
      | inr e ↦ rw e (a, λ k. ap (λ l. record t { data_list = l }) (b k))
    ]

dotted-snoc :
    (path : List Text) (name : Text)
    → dotted (path ++ name ∷ []) ≡ (dotted path ++ name) ++ dot ∷ []
unfolding dotted
dotted-snoc [] name = refl
dotted-snoc (p ∷ path) name =
    ap (λ x. p ++ dot ∷ x) (dotted-snoc path name)
    ∙ sym (append_assoc p (dot ∷ (dotted path ++ name)) (dot ∷ []))
    ∙ ap (λ x. x ++ dot ∷ []) (sym (append_assoc p (dot ∷ dotted path) name))

child_len :
    (path : List Text) (name : Text)
    → length (dotted path) + length name + 1 ≡ length (dotted (path ++ name ∷ []))
child_len path name = omega (
  arith,
  ap length (dotted-snoc path name),
  length-append (dotted path ++ name) (dot ∷ []),
  length-append (dotted path) name,
)

inside_ne : (path : List Text) (name : Text) → (length (dotted (path ++ name ∷ [])) == 0) ≡ false
inside_ne path name = rw (← child_len path name) (ground arith)

child-args_of :
    (path : List Text) (name : Text) → child_args (args_of path) name ≡ args_of (path ++ name ∷ [])
child-args_of path name =
    ap (λ x. record { prefix = x; len = length (dotted path) + length name + 1 })
      (sym (dotted-snoc path name))
    ∙ ap (λ x. record { prefix = dotted (path ++ name ∷ []); len = x }) (child_len path name)

-- A block that is not too long, from what holds of its tables and of its blocks.
abbrev inside : FqnArgs → Text → List Symtab → Blocks → Status × Block
inside child name tables children =
    let r = symtab_map (qualify_table child) tables in
    let below = qualify_blocks child children in
    if leb cil_max_name_length child.len
    then (sepol_err, block true name tables children)
    else if is_ok r.0
    then (below.0, block true name r.1 below.1)
    else (r.0, block true name r.1 children)

inside-Agrees :
    (path : List Text) (name : Text) (tables : List Symtab) (children : Blocks)
    → Agrees
        (symtab_map (qualify_table (args_of path)) tables)
        (all (fits_table path) tables)
        (map (named_table path) tables)
    → Agrees
        (qualify_blocks (args_of path) children)
        (fits_blocks path children)
        (named_blocks path children)
    → Agrees
        (inside (args_of path) name tables children)
        (ltb (length (dotted path)) cil_max_name_length
          && (all (fits_table path) tables && fits_blocks path children))
        (block true name (map (named_table path) tables) (named_blocks path children))
inside-Agrees path name tables children h k =
    let long = leb-not cil_max_name_length (length (dotted path)) in
    elim (Bool-cases (ltb (length (dotted path)) cil_max_name_length)) [
      | inr e ↦ rw (long, e) (refl, λ l. cc)
      | inl e ↦
          elim (then-Agrees (symtab_map (qualify_table (args_of path)) tables)
            (all (fits_table path) tables) (map (named_table path) tables) h) [
              | inl (a, f, q) ↦
                  rw (long, e, a, f, q)
                    (k.0, λ l. ap (λ x. block true name (map (named_table path) tables) x) (k.1 l))
              | inr (a, f) ↦ rw (long, e, a, f) (a, λ l. cc)
            ]
    ]

step-Agrees :
    (path : List Text) (is_block : Bool) (name : Text) (tables : List Symtab) (children : Blocks)
    → Agrees
        (qualify_blocks (args_of (path ++ name ∷ [])) children)
        (fits_blocks (path ++ name ∷ []) children)
        (named_blocks (path ++ name ∷ []) children)
    → Agrees
        (qualify_block (args_of path) (block is_block name tables children))
        (fits_block path (block is_block name tables children))
        (named_block path (block is_block name tables children))
unfolding qualify_block fits_block named_block
step-Agrees path false name tables children h = (refl, λ _. refl)
step-Agrees path true name tables children h =
    let inner = path ++ name ∷ [] in
    subst
      (λ c.
        Agrees (inside c name tables children) (fits_block path (block true name tables children))
          (named_block path (block true name tables children)))
      (sym (child-args_of path name))
      (inside-Agrees inner name tables children
        (symtab_map-Agrees (qualify_table (args_of inner)) (fits_table inner) (named_table inner)
          tables (λ t. qualify_table-Agrees inner t (inside_ne path name)))
        h)

mutual
  unfolding qualify_block fits_block named_block

  block-Agrees :
      (path : List Text) (b : Block)
      → Agrees (qualify_block (args_of path) b) (fits_block path b) (named_block path b)
  block-Agrees path (block is_block name tables children) =
      step-Agrees path is_block name tables children (blocks-Agrees (path ++ name ∷ []) children)

  blocks-Agrees :
      (path : List Text) (bs : Blocks)
      → Agrees (qualify_blocks (args_of path) bs) (fits_blocks path bs) (named_blocks path bs)
  blocks-Agrees path no_blocks = (refl, λ _. refl)
  blocks-Agrees path (one_block b bs) =
      let k = blocks-Agrees path bs in
      elim (then-Agrees (qualify_block (args_of path) b) (fits_block path b) (named_block path b)
        (block-Agrees path b)) [
          | inl (a, f, q) ↦ rw (a, f, q) (k.0, λ l. ap (one_block (named_block path b)) (k.1 l))
          | inr (a, f) ↦ rw (a, f) (a, λ l. cc)
        ]

-- The qualification succeeds exactly where no full name and no prefix is too long, and then every
-- declaration in a block has its full name, but those of the tables that are skipped.
pub fqn_qualify-named :
    (bs : Blocks)
    → (is_ok (fqn_qualify bs).0 ≡ fits_blocks [] bs)
      × (fits_blocks [] bs ≡ true → (fqn_qualify bs).1 ≡ named_blocks [] bs)
unfolding fqn_qualify dotted
fqn_qualify-named bs = blocks-Agrees [] bs
