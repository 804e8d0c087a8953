-- ===== src/Post/Paths.antt =====
-- The scan of a file context's path, against the pieces that the path is written with.
use cil.Base.{
  ◌⊎◌, append_nil, ℕ, suc, ◌+◌, ◌≡◌, ◌≢◌, refl, sym, ap, ◌∙◌, List, [], ◌∷◌, ◌++◌, none, some, Bool,
  true, false, ◌||◌, ==_ne, arith, if◌then◌else◌, length,
}
use cil.Text.{Text, codes}
use cil.Post.{
  FcData, fc_start, backslash, is_meta, count_meta, count_plain, fill_from, fc_fill_data,
}

-- A regular expression's piece: a meta character, an ordinary character, or a character behind a
-- backslash.
pub data Piece : Type 0 where
  meta_char plain_char escaped_char : ℕ → Piece

abbrev pub write : List Piece → Text
write [] = []
write (meta_char c ∷ ps) = c ∷ write ps
write (plain_char c ∷ ps) = c ∷ write ps
write (escaped_char c ∷ ps) = backslash ∷ c ∷ write ps

abbrev pub Among : Text → ℕ → Type 0
Among [] c = ⊥
Among (m ∷ ms) c = (c ≡ m) ⊎ Among ms c

abbrev pub IsMeta : ℕ → Type 0
IsMeta c = Among (codes ".^$?*+|[({") c

IsMeta-is_meta : (c : ℕ) → IsMeta c → is_meta c ≡ true
IsMeta-is_meta c h = ground (arith, h)

plain-is_meta : (c : ℕ) → ¬ IsMeta c → is_meta c ≡ false
plain-is_meta c h = ground (arith, h)

-- The characters are of the kind that their pieces say; an escaped one may be any.
abbrev pub AreValid : List Piece → Type 0
AreValid [] = Unit
AreValid (meta_char c ∷ ps) = IsMeta c × AreValid ps
AreValid (plain_char c ∷ ps) = (¬ IsMeta c) × (c ≢ backslash) × AreValid ps
AreValid (escaped_char c ∷ ps) = AreValid ps

unfoldable pub any_meta : List Piece → Bool
any_meta [] = false
any_meta (meta_char c ∷ ps) = true
any_meta (plain_char c ∷ ps) = any_meta ps
any_meta (escaped_char c ∷ ps) = any_meta ps

-- The number of pieces before the first meta character.
unfoldable pub stem : List Piece → ℕ
stem [] = 0
stem (meta_char c ∷ ps) = 0
stem (plain_char c ∷ ps) = suc (stem ps)
stem (escaped_char c ∷ ps) = suc (stem ps)

fill_from-meta :
    (d : FcData) (c : ℕ) (cs : Text)
    → is_meta c ≡ true
    → fill_from d (c ∷ cs) ≡ fill_from (count_meta d) cs
unfolding fill_from
fill_from-meta d c [] h = rw h
fill_from-meta d c (e ∷ cs) h = rw h

fill_from-plain :
    (d : FcData) (c : ℕ) (cs : Text)
    → is_meta c ≡ false
    → c ≢ backslash
    → fill_from d (c ∷ cs) ≡ fill_from (count_plain d) cs
unfolding fill_from
fill_from-plain d c [] h k = rw (h, ==_ne c backslash k)
fill_from-plain d c (e ∷ cs) h k = rw (h, ==_ne c backslash k)

fill_from-escaped :
    (d : FcData) (c : ℕ) (cs : Text)
    → fill_from d (backslash ∷ c ∷ cs) ≡ fill_from (count_plain d) cs
unfolding fill_from
fill_from-escaped d c cs = refl

-- What the scan adds to `d` for the pieces.
abbrev pub counted : FcData → List Piece → FcData
counted d ps = record {
  has_meta = d.has_meta || any_meta ps;
  stem_len = if d.has_meta then d.stem_len else d.stem_len + stem ps;
  str_len = d.str_len + length ps;
}

FcData-ext :
    (d e : FcData)
    → d.has_meta ≡ e.has_meta
    → d.stem_len ≡ e.stem_len
    → d.str_len ≡ e.str_len
    → d ≡ e
FcData-ext d e h k l = λ i. record { has_meta = h i; stem_len = k i; str_len = l i }

counted-nil : (d : FcData) → d ≡ counted d []
unfolding any_meta stem
counted-nil d = FcData-ext d (counted d []) (ground arith) (ground arith) (ground arith)

counted-meta :
    (d : FcData) (c : ℕ) (ps : List Piece)
    → counted (count_meta d) ps ≡ counted d (meta_char c ∷ ps)
unfolding any_meta stem
counted-meta d c ps =
    FcData-ext (counted (count_meta d) ps) (counted d (meta_char c ∷ ps)) (ground arith)
      (ground arith) (ground arith)

counted-plain :
    (d : FcData) (c : ℕ) (ps : List Piece)
    → counted (count_plain d) ps ≡ counted d (plain_char c ∷ ps)
unfolding any_meta stem
counted-plain d c ps =
    FcData-ext (counted (count_plain d) ps) (counted d (plain_char c ∷ ps)) refl (ground arith)
      (ground arith)

counted-escaped :
    (d : FcData) (c : ℕ) (ps : List Piece)
    → counted (count_plain d) ps ≡ counted d (escaped_char c ∷ ps)
unfolding any_meta stem
counted-escaped d c ps =
    FcData-ext (counted (count_plain d) ps) (counted d (escaped_char c ∷ ps)) refl (ground arith)
      (ground arith)

fill_from-counted :
    (ps : List Piece) (d : FcData) (rest : Text)
    → AreValid ps
    → fill_from d (write ps ++ rest) ≡ fill_from (counted d ps) rest
fill_from-counted [] d rest v = ap (λ x. fill_from x rest) (counted-nil d)
fill_from-counted (meta_char c ∷ ps) d rest (h, v) =
    fill_from-meta d c (write ps ++ rest) (IsMeta-is_meta c h)
    ∙ fill_from-counted ps (count_meta d) rest v
    ∙ ap (λ x. fill_from x rest) (counted-meta d c ps)
fill_from-counted (plain_char c ∷ ps) d rest (h, k, v) =
    fill_from-plain d c (write ps ++ rest) (plain-is_meta c h) k
    ∙ fill_from-counted ps (count_plain d) rest v
    ∙ ap (λ x. fill_from x rest) (counted-plain d c ps)
fill_from-counted (escaped_char c ∷ ps) d rest v =
    fill_from-escaped d c (write ps ++ rest)
    ∙ fill_from-counted ps (count_plain d) rest v
    ∙ ap (λ x. fill_from x rest) (counted-escaped d c ps)

-- For a path that is written with valid pieces: `meta` says whether there is a meta character,
-- `stem_len` is the number of pieces before the first one, and `str_len` is the number of pieces; a
-- backslash that is added at the end makes the scan read behind the end.
pub fc_fill_data-pieces :
    (ps : List Piece)
    → AreValid ps
    → (fc_fill_data (write ps)
        ≡ some (record { has_meta = any_meta ps; stem_len = stem ps; str_len = length ps }))
      × (fc_fill_data (write ps ++ backslash ∷ []) ≡ none)
unfolding fc_fill_data fill_from
fc_fill_data-pieces ps v = (
  ap fc_fill_data (sym (append_nil (write ps)))
      ∙ fill_from-counted ps fc_start [] v
      ∙ ap some (
          FcData-ext (counted fc_start ps)
            (record { has_meta = any_meta ps; stem_len = stem ps; str_len = length ps }) refl
            (omega arith) (omega arith)),
  fill_from-counted ps fc_start (backslash ∷ []) v,
)
