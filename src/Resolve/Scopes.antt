-- ===== src/Resolve/Scopes.antt =====
-- The order in which the scopes around a node are searched, and names without dots.
use cil.Base.{
  ℕ, List, [], ◌∷◌, ◌++◌, Option, none, some, false, ◌≡◌, refl, inl, inr, ◌==◌, ◌&&◌, if◌then◌else◌,
  sepol_ok, sepol_err, is_ok, Bool-cases,
}
use cil.Flavor.{Flavor}
use cil.Flavor.Index.{cil_sym_unknown, flavor_to_symtab_index}
use cil.Text.{Text, text_eq}
use cil.Resolve.{
  Store, Scope, no_node, root_node, block_node, blockinherit_node, macro_node, call_node,
  other_node, Arg, Found, symtab_in, returned, get_datum, find_arg, resolve_name_call_args,
  search_from, resolve_name_with_parents, resolve_name_with_root, resolve_name_helper, has_dot,
  finish, actual_datum, resolve_name,
}

-- Where a name may be declared: in a table of an array, or as a parameter of a call's macro.
pub data Place : Type 0 where
  array_place : ℕ → Place
  args_place : Option (List Arg) → Place

-- The places around a node, innermost first. The block that a blockinherit names comes behind the
-- scopes around the blockinherit, and the scopes around a macro before those around its call.
unfoldable pub order : Scope → List Place
order no_node = []
order root_node = []
order (block_node a parent) = array_place a ∷ order parent
order (blockinherit_node block parent) = order parent ++ order block
order (macro_node a parent) = array_place a ∷ order parent
order (call_node args above_macro parent) = args_place args ∷ order above_macro ++ order parent
order (other_node parent) = order parent

abbrev pub or_else {ℓ} : {A : Type ℓ} → Option A → Option A → Option A
or_else none y = y
or_else (some x) y = some x

abbrev pub some_datum : Option ℕ → Option (Option ℕ)
some_datum none = none
some_datum (some d) = some (some d)

-- The first argument for a parameter of that name and kind; the number is the kind of the argument
-- before.
unfoldable pub hit_arg : ℕ → List Arg → Text → ℕ → Option (Option ℕ)
unfolding flavor_to_symtab_index
hit_arg k [] name i = none
hit_arg k (a ∷ args) name i =
    let j = (flavor_to_symtab_index a.arg_flavor k).1 in
    let rest = hit_arg j args name i in
    if j == i && text_eq name a.param_str then some a.arg else rest

-- What a name stands for in a place, for declarations of the kind `i`.
unfoldable pub hit : Store → Text → ℕ → Place → Option (Option ℕ)
unfolding hit_arg
hit st name i (array_place a) = some_datum (st.search (symtab_in a i) name)
hit st name i (args_place none) = none
hit st name i (args_place (some args)) = hit_arg cil_sym_unknown args name i

unfoldable pub first_hit : Store → Text → ℕ → List Place → Option (Option ℕ)
unfolding hit
first_hit st name i [] = none
first_hit st name i (p ∷ ps) = or_else (hit st name i p) (first_hit st name i ps)

-- A lookup that finds what `o` says, or fails where that is nothing.
abbrev pub Answers : Option (Option ℕ) → Found → Type 0
Answers none r = is_ok r.0 ≡ false
Answers (some d) r = r ≡ (sepol_ok, d)

-- A name that stands for `o`: an alias is followed, and a failure leaves no datum.
abbrev pub Outcome : Store → Option (Option ℕ) → Found → Type 0
Outcome st none r = (is_ok r.0 ≡ false) × (r.1 ≡ none)
Outcome st (some none) r = r ≡ (sepol_ok, none)
Outcome st (some (some d)) r = r ≡ (sepol_ok, some (actual_datum st d))

Answers-else :
    (o o' : Option (Option ℕ)) (r r' : Found)
    → Answers o r
    → (is_ok r.0 ≡ false → Answers o' r')
    → Answers (or_else o o') (if is_ok r.0 then r else r')
Answers-else none o' r r' h k = rw h (k h)
Answers-else (some d) o' r r' h k = rw h refl

or_else_assoc : (x y z : Option (Option ℕ)) → or_else x (or_else y z) ≡ or_else (or_else x y) z
or_else_assoc none y z = refl
or_else_assoc (some x) y z = refl

module _ (st : Store) (name : Text) (i : ℕ) where
  first_hit-append :
      (ps qs : List Place)
      → first_hit st name i (ps ++ qs) ≡ or_else (first_hit st name i ps) (first_hit st name i qs)
  unfolding first_hit
  first_hit-append [] qs = refl
  first_hit-append (p ∷ ps) qs =
      rw (first_hit-append ps qs)
        (or_else_assoc (hit st name i p) (first_hit st name i ps) (first_hit st name i qs))

  pub get_datum-Answers :
      (a : ℕ)
      → Answers (some_datum (st.search (symtab_in a i) name)) (get_datum st (symtab_in a i) name)
  unfolding get_datum
  get_datum-Answers a =
      elim (st.search (symtab_in a i) name) as (λ o. Answers (some_datum o) (returned o)) [
        | none ↦ refl
        | some d ↦ refl
      ]

  find_arg-Answers :
      (k : ℕ) (args : List Arg) (datum : Option ℕ)
      → Answers (hit_arg k args name i) (find_arg k args name i datum)
  unfolding hit_arg find_arg
  find_arg-Answers k [] datum = refl
  find_arg-Answers k (a ∷ args) datum =
      let j = (flavor_to_symtab_index a.arg_flavor k).1 in
      elim (Bool-cases (j == i && text_eq name a.param_str)) [
        | inl here ↦ rw here refl
        | inr further ↦ rw further (find_arg-Answers j args datum)
      ]

  call_args-Answers :
      (args : Option (List Arg)) (datum : Option ℕ)
      → Answers (hit st name i (args_place args)) (resolve_name_call_args args name i datum)
  unfolding hit resolve_name_call_args
  call_args-Answers none datum = refl
  call_args-Answers (some args) datum = find_arg-Answers cil_sym_unknown args datum

  search_from-Answers :
      (s : Scope) (f : Found)
      → is_ok f.0 ≡ false
      → Answers (first_hit st name i (order s)) (search_from st s name i f)
  unfolding order first_hit search_from
  search_from-Answers no_node f h = h
  search_from-Answers root_node f h = h
  search_from-Answers (block_node a p) f h =
      let r = get_datum st (symtab_in a i) name in
      Answers-else (hit st name i (array_place a)) (first_hit st name i (order p)) r
        (search_from st p name i r) (get_datum-Answers a) (λ bad. search_from-Answers p r bad)
  search_from-Answers (macro_node a p) f h =
      let r = get_datum st (symtab_in a i) name in
      Answers-else (hit st name i (array_place a)) (first_hit st name i (order p)) r
        (search_from st p name i r) (get_datum-Answers a) (λ bad. search_from-Answers p r bad)
  search_from-Answers (blockinherit_node b p) f h =
      let r = search_from st p name i (sepol_err, f.1) in
      rw (first_hit-append (order p) (order b)) (
        Answers-else (first_hit st name i (order p)) (first_hit st name i (order b)) r
          (search_from st b name i (sepol_err, r.1)) (search_from-Answers p (sepol_err, f.1) refl)
          (λ bad. search_from-Answers b (sepol_err, r.1) refl))
  search_from-Answers (call_node args m p) f h =
      let r = resolve_name_call_args args name i f.1 in
      let s = search_from st m name i (sepol_err, r.1) in
      let rest = search_from st p name i s in
      rw (first_hit-append (order m) (order p)) (
        Answers-else (hit st name i (args_place args))
          (or_else (first_hit st name i (order m)) (first_hit st name i (order p))) r
          (if is_ok s.0 then s else rest) (call_args-Answers args f.1)
          (λ bad.
            Answers-else (first_hit st name i (order m)) (first_hit st name i (order p)) s rest
              (search_from-Answers m (sepol_err, r.1) refl)
              (λ worse. search_from-Answers p s worse)))
  search_from-Answers (other_node p) f h = search_from-Answers p f h

  first_hit-root :
      first_hit st name i (array_place st.root ∷ [])
      ≡ some_datum (st.search (symtab_in st.root i) name)
  unfolding first_hit hit
  first_hit-root =
      elim (st.search (symtab_in st.root i) name)
        as (λ o. or_else (some_datum o) none ≡ some_datum o) [ none ↦ refl | some d ↦ refl ]

  -- The places where a name is looked for: the scopes around the node, then the root.
  abbrev pub places : Scope → List Place
  places parent = order parent ++ array_place st.root ∷ []

  pub helper-Answers :
      (parent : Scope) (datum : Option ℕ)
      → Answers (first_hit st name i (places parent)) (resolve_name_helper st parent name i datum)
  unfolding resolve_name_helper resolve_name_with_parents resolve_name_with_root
  helper-Answers parent datum =
      let r = search_from st parent name i (sepol_err, datum) in
      rw (first_hit-append (order parent) (array_place st.root ∷ []), first_hit-root)
        (Answers-else (first_hit st name i (order parent))
          (some_datum (st.search (symtab_in st.root i) name)) r
          (get_datum st (symtab_in st.root i) name)
          (search_from-Answers parent (sepol_err, datum) refl) (λ bad. get_datum-Answers st.root))

pub finish-Outcome :
    (st : Store) (o : Option (Option ℕ)) (r : Found) → Answers o r → Outcome st o (finish st r)
unfolding finish
finish-Outcome st none (rc, none) h = (h, refl)
finish-Outcome st none (rc, some d) h = rw h (h, refl)
finish-Outcome st (some none) r h = rw h refl
finish-Outcome st (some (some d)) r h = rw h refl

-- A name without a dot stands for its first declaration of the wanted kind in the scopes around
-- the statement, innermost first, and then in the root: that is what the lookup returns, with an
-- alias followed, and where there is none it fails and leaves no datum. Around a call the
-- parameters come first, then the scopes around the macro, then those around the call.
pub resolve_name-places :
    (st : Store) (flavor : Flavor) (parent : Scope) (name : Text) (i : ℕ)
    → has_dot name ≡ false
    → Outcome st
        (first_hit st name i (places st name i parent))
        (resolve_name st flavor parent name i)
unfolding resolve_name
resolve_name-places st flavor parent name i h = rw h (
    finish-Outcome st (first_hit st name i (places st name i parent))
      (resolve_name_helper st parent name i none) (helper-Answers st name i parent none))
