-- ===== src/Post.antt =====
-- The comparisons that sort the labeling statements, and the scan of a file context's path, of
-- src/cil_post.c. Of an int that a comparison returns only the sign is kept, which is all that qsort
-- reads.
pub mod Signs
pub mod Paths
pub mod Orders
pub mod Examples
use cil.Base.{
  ℕ, zero, suc, ◌+◌, ◌-◌, ◌%◌, ◌^◌, List, [], ◌∷◌, Option, none, some, Bool, true, false, not, ◌&&◌,
  ◌||◌, ◌==◌, ltb, if◌then◌else◌, take,
}
use cil.Text.{Text}

pub data Sign : Type 0 where
  below same above : Sign

abbrev pub flip : Sign → Sign
flip below = above
flip same = same
flip above = below

-- The pattern `if (a < b) rc = -1; else if (b < a) rc = 1; else rc = 0`.
abbrev pub by_value : ℕ → ℕ → Sign
by_value a b = if ltb a b then below else if ltb b a then above else same

-- strcmp on strings, memcmp on as many bytes.
pub strcmp : Text → Text → Sign
strcmp [] [] = same
strcmp [] (y ∷ ys) = below
strcmp (x ∷ xs) [] = above
strcmp (x ∷ xs) (y ∷ ys) =
    let rest = strcmp xs ys in if ltb x y then below else if ltb y x then above else rest

-- `struct fc_data`.
pub record FcData : Type 0 where
  pub has_meta : Bool
  pub stem_len : ℕ
  pub str_len : ℕ

abbrev pub fc_start : FcData
fc_start = record { has_meta = false; stem_len = 0; str_len = 0 }

abbrev pub backslash : ℕ
backslash = 92

-- . ^ $ ? * + | [ ( {
abbrev pub is_meta : ℕ → Bool
is_meta c =
    c == 46
    || c == 94
    || c == 36
    || c == 63
    || c == 42
    || c == 43
    || c == 124
    || c == 91
    || c == 40
    || c == 123

abbrev pub count_meta : FcData → FcData
count_meta d = record d { has_meta = true; str_len = d.str_len + 1 }

abbrev pub count_plain : FcData → FcData
count_plain d = record d {
  stem_len = if d.has_meta then d.stem_len else d.stem_len + 1;
  str_len = d.str_len + 1;
}

-- The loop of `cil_post_fc_fill_data`. `none` where it reads behind the string's end, past a
-- backslash that is the last character.
pub fill_from : FcData → Text → Option FcData
fill_from d [] = some d
fill_from d (c ∷ []) =
    if is_meta c then some (count_meta d) else if c == backslash then none else some (count_plain d)
fill_from d (c ∷ e ∷ cs) =
    let special = fill_from (count_meta d) (e ∷ cs) in
    let escaped = fill_from (count_plain d) cs in
    let ordinary = fill_from (count_plain d) (e ∷ cs) in
    if is_meta c then special else if c == backslash then escaped else ordinary

pub fc_fill_data : Text → Option FcData
unfolding fill_from
fc_fill_data path = fill_from fc_start path

pub record Filecon : Type 0 where
  pub path_str : Text
  pub file_type : ℕ

-- The comparison of two paths' data and types.
pub data_compare : FcData × ℕ → FcData × ℕ → Sign
data_compare (a, a_type) (b, b_type) =
    if a.has_meta && not b.has_meta
    then below
    else if b.has_meta && not a.has_meta
    then above
    else if ltb a.stem_len b.stem_len
    then below
    else if ltb b.stem_len a.stem_len
    then above
    else if ltb a.str_len b.str_len
    then below
    else if ltb b.str_len a.str_len
    then above
    else if ltb a_type b_type
    then below
    else if ltb b_type a_type
    then above
    else same

pub filecon_compare : Filecon → Filecon → Option Sign
unfolding fc_fill_data data_compare
filecon_compare a b = elim (fc_fill_data a.path_str) [
  | none ↦ none
  | some da ↦ elim (fc_fill_data b.path_str) [
    | none ↦ none
    | some db ↦ some (data_compare (da, a.file_type) (db, b.file_type))
  ]
]

-- The ports of a portcon or ioportcon, or the memory of an iomemcon: two uint32_t.
pub record Range : Type 0 where
  pub low : ℕ
  pub high : ℕ

-- A difference of two uint32_t.
abbrev pub sub_word : ℕ → ℕ → ℕ
sub_word a b = (a + 2 ^ 32 - b) % 2 ^ 32

-- The sign of a uint32_t that is stored into an int.
abbrev pub sign_of_word : ℕ → Sign
sign_of_word w = if w == 0 then same else if ltb w (2 ^ 31) then above else below

pub portcon_compare : Range → Range → Sign
portcon_compare a b =
    let rc = sub_word (sub_word a.high a.low) (sub_word b.high b.low) in
    if rc == 0 then by_value a.low b.low else sign_of_word rc

pub iomemcon_compare : Range → Range → Sign
iomemcon_compare a b =
    let rc = sub_word (sub_word a.high a.low) (sub_word b.high b.low) in
    if rc == 0 then by_value a.low b.low else sign_of_word rc

pub ioportcon_compare : Range → Range → Sign
ioportcon_compare a b =
    let rc = sub_word (sub_word a.high a.low) (sub_word b.high b.low) in
    if rc == 0 then by_value a.low b.low else sign_of_word rc

pub record Genfscon : Type 0 where
  pub fs : Text
  pub path : Text

pub genfscon_compare : Genfscon → Genfscon → Sign
unfolding strcmp
genfscon_compare a b = elim (strcmp a.fs b.fs) [ same ↦ strcmp a.path b.path | rc ↦ rc ]

-- The interface's name.
pub netifcon_compare : Text → Text → Sign
unfolding strcmp
netifcon_compare a b = strcmp a b

-- `family` of the address, and the bytes of the union `ip` in the mask and the address.
pub record Nodecon : Type 0 where
  pub family : ℕ
  pub mask : Text
  pub addr : Text

abbrev pub af_inet : ℕ
af_inet = 2

abbrev pub af_inet6 : ℕ
af_inet6 = 10

-- `memcmp` on the first `n` bytes of the masks, then of the addresses.
abbrev pub masks_first : ℕ → Nodecon → Nodecon → Sign
masks_first n a b = elim (strcmp (take n a.mask) (take n b.mask)) [
  | same ↦ strcmp (take n a.addr) (take n b.addr)
  | rc ↦ flip rc
]

pub nodecon_compare : Nodecon → Nodecon → Sign
unfolding strcmp
nodecon_compare a b =
    if not (a.family == b.family)
    then (if a.family == af_inet then below else above)
    else if a.family == af_inet
    then masks_first 4 a b
    else masks_first 16 a b

pub pirqcon_compare : ℕ → ℕ → Sign
pirqcon_compare a b = by_value a b

pub pcidevicecon_compare : ℕ → ℕ → Sign
pcidevicecon_compare a b = by_value a b

pub record Fsuse : Type 0 where
  pub use_type : ℕ
  pub fs_str : Text

pub fsuse_compare : Fsuse → Fsuse → Sign
unfolding strcmp
fsuse_compare a b =
    if ltb a.use_type b.use_type
    then below
    else if ltb b.use_type a.use_type
    then above
    else strcmp a.fs_str b.fs_str
