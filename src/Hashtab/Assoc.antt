-- ===== src/Hashtab/Assoc.antt =====
-- Lists of keys and data keep the promises of the hash tables: no law rules out another.
use cil.Base.{
  ℕ, ◌≡◌, ◌≢◌, refl, sym, ◌∙◌, List, [], ◌∷◌, Option, none, some, false, if◌then◌else◌, inl, inr,
  Status, sepol_ok, sepol_eexist, Bool-cases,
}
use cil.Text.{Text, text_eq, text_eq_self, eq_of_text_eq}
use cil.Hashtab.{Hashtab, IsLawful}

abbrev pub Entries : Type 0
Entries = List (Text × ℕ)

unfoldable pub search_entries : Entries → Text → Option ℕ
search_entries [] key = none
search_entries ((k, d) ∷ kds) key =
    let rest = search_entries kds key in if text_eq k key then some d else rest

abbrev insert_absent : Option ℕ → Entries → Text → ℕ → Status × Entries
insert_absent none t key d = (sepol_ok, (key, d) ∷ t)
insert_absent (some e) t key d = (sepol_eexist, t)

unfoldable pub remove_entries : Entries → Text → Entries
remove_entries [] key = []
remove_entries ((k, d) ∷ kds) key =
    let rest = remove_entries kds key in if text_eq k key then rest else (k, d) ∷ rest

unfoldable pub entries_hashtab : Hashtab Entries
unfolding search_entries remove_entries
entries_hashtab = record {
  search = search_entries;
  insert = λ t key d. insert_absent (search_entries t key) t key d;
  remove = remove_entries;
}

text_eq-ne : (s t : Text) → s ≢ t → text_eq s t ≡ false
text_eq-ne s t h = elim (Bool-cases (text_eq s t)) [
  | inl same ↦ absurd (h (eq_of_text_eq s t same))
  | inr other ↦ other
]

search_remove_self : (t : Entries) (key : Text) → search_entries (remove_entries t key) key ≡ none
unfolding search_entries remove_entries
search_remove_self [] key = refl
search_remove_self ((k, d) ∷ kds) key = elim (Bool-cases (text_eq k key)) [
  | inl same ↦ rw same (search_remove_self kds key)
  | inr other ↦ rw other (rw other (search_remove_self kds key))
]

search_remove_other :
    (t : Entries) (key k : Text)
    → k ≢ key
    → search_entries (remove_entries t key) k ≡ search_entries t k
unfolding search_entries remove_entries
search_remove_other [] key k h = refl
search_remove_other ((j, d) ∷ kds) key k h = elim (Bool-cases (text_eq j key)) [
  | inl same ↦
      let apart = text_eq-ne j k (λ p. h (sym p ∙ eq_of_text_eq j key same)) in
      rw (same, apart) (search_remove_other kds key k h)
  | inr other ↦ rw other (elim (Bool-cases (text_eq j k)) [
    | inl here ↦ rw here refl
    | inr further ↦ rw further (search_remove_other kds key k h)
  ])
]

search-cons_other :
    (t : Entries) (key k : Text) (d : ℕ)
    → k ≢ key
    → search_entries ((key, d) ∷ t) k ≡ search_entries t k
unfolding search_entries
search-cons_other t key k d h = rw (text_eq-ne key k (λ p. h (sym p))) refl

search-cons_self : (t : Entries) (key : Text) (d : ℕ) → search_entries ((key, d) ∷ t) key ≡ some d
unfolding search_entries
search-cons_self t key d = rw (text_eq_self key) refl

pub entries_hashtab-IsLawful : IsLawful entries_hashtab
unfolding entries_hashtab
entries_hashtab-IsLawful = record {
  insert_old = λ t key d e h. rw h refl;
  insert_new = λ t key d h. rw h refl;
  search-insert_self = λ t key d h. rw h (search-cons_self t key d);
  search-insert_other = λ t key d k h other. rw h (search-cons_other t key k d other);
  search-remove_self = search_remove_self;
  search-remove_other = search_remove_other;
}
