-- ===== src/Post/Orders.antt =====
-- The comparisons are orders.
use cil.Base.{
  ℕ, ◌-◌, ◌^◌, ◌≤◌, ◌<◌, ◌≡◌, ◌⊎◌, inl, inr, refl, sym, ◌∙◌, ◌==◌, arith, if◌then◌else◌, take,
}
use cil.Text.{Text}
use cil.Post.{
  Sign, below, same, above, flip, by_value, strcmp, FcData, data_compare, Range, portcon_compare,
  iomemcon_compare, ioportcon_compare, Genfscon, genfscon_compare, netifcon_compare, Nodecon,
  af_inet, af_inet6, masks_first, nodecon_compare, pirqcon_compare, pcidevicecon_compare, Fsuse,
  fsuse_compare,
}
use cil.Post.Signs.{
  IsOrder, OrderAt, IsOrder-at, then_by, then_by-IsOrder, flip-IsOrder, IsOrder-of,
  by_value-IsOrder, strcmp-IsOrder,
}

abbrev pub Any {ℓ} : {A : Type ℓ} → A → Type 0
Any a = Unit

abbrev pub no_meta : FcData → ℕ
no_meta d = if d.has_meta then 0 else 1

data_compare-lex :
    (a b : FcData × ℕ)
    → data_compare a b
      ≡ then_by (by_value (no_meta a.0) (no_meta b.0)) (
          then_by
            (by_value a.0.stem_len b.0.stem_len)
            (then_by (by_value a.0.str_len b.0.str_len) (by_value a.1 b.1)))
unfolding data_compare
data_compare-lex a b = ground arith

data_compare-IsOrder : IsOrder Any data_compare
data_compare-IsOrder =
    IsOrder-of Any data_compare _ (λ a b _ _. data_compare-lex a b)
      (then_by-IsOrder Any _ _ (by_value-IsOrder Any (λ a. no_meta a.0)) (
        then_by-IsOrder Any _ _ (by_value-IsOrder Any (λ a. a.0.stem_len)) (
          then_by-IsOrder Any _ _ (by_value-IsOrder Any (λ a. a.0.str_len))
            (by_value-IsOrder Any (λ a. a.1)))))

-- File contexts are sorted by an order: the comparison has the laws of one, and it puts those whose
-- path has a meta character first, then those with the shorter stem, with the shorter path, and with
-- the smaller type.
pub data_compare-OrderAt :
    (a b c : FcData × ℕ)
    → OrderAt data_compare a b c
      × (data_compare a b
          ≡ then_by (by_value (if a.0.has_meta then 0 else 1) (if b.0.has_meta then 0 else 1)) (
              then_by
                (by_value a.0.stem_len b.0.stem_len)
                (then_by (by_value a.0.str_len b.0.str_len) (by_value a.1 b.1))))
data_compare-OrderAt a b c =
    (IsOrder-at Any data_compare a b c data_compare-IsOrder tt tt tt, data_compare-lex a b)

-- A range that starts below its end, and whose width an int can hold.
abbrev pub IsNarrow : Range → Type 0
IsNarrow r = (r.low ≤ r.high) × (r.high < 2 ^ 32) × (r.high - r.low < 2 ^ 31)

portcon_compare-lex :
    (a b : Range)
    → IsNarrow a
    → IsNarrow b
    → portcon_compare a b
      ≡ then_by (by_value (a.high - a.low) (b.high - b.low)) (by_value a.low b.low)
unfolding portcon_compare
portcon_compare-lex a b h k = ground arith

range-IsOrder :
    (cmp : Range → Range → Sign)
    → ((a b : Range)
        → IsNarrow a
        → IsNarrow b
        → cmp a b ≡ then_by (by_value (a.high - a.low) (b.high - b.low)) (by_value a.low b.low))
    → IsOrder IsNarrow cmp
range-IsOrder cmp lex = IsOrder-of IsNarrow cmp _ lex (
    then_by-IsOrder IsNarrow _ _ (by_value-IsOrder IsNarrow (λ r. r.high - r.low))
      (by_value-IsOrder IsNarrow (λ r. r.low)))

iomemcon_compare-lex :
    (a b : Range)
    → IsNarrow a
    → IsNarrow b
    → iomemcon_compare a b
      ≡ then_by (by_value (a.high - a.low) (b.high - b.low)) (by_value a.low b.low)
unfolding iomemcon_compare
iomemcon_compare-lex a b h k = ground arith

ioportcon_compare-lex :
    (a b : Range)
    → IsNarrow a
    → IsNarrow b
    → ioportcon_compare a b
      ≡ then_by (by_value (a.high - a.low) (b.high - b.low)) (by_value a.low b.low)
unfolding ioportcon_compare
ioportcon_compare-lex a b h k = ground arith

ranges-IsOrder :
    IsOrder IsNarrow portcon_compare
    × IsOrder IsNarrow iomemcon_compare
    × IsOrder IsNarrow ioportcon_compare
ranges-IsOrder = (
  range-IsOrder portcon_compare portcon_compare-lex,
  range-IsOrder iomemcon_compare iomemcon_compare-lex,
  range-IsOrder ioportcon_compare ioportcon_compare-lex,
)

-- Ports and memory are sorted by an order: for ranges that start below their ends, and whose widths
-- an int holds, the comparisons have the laws of one.
pub ranges-OrderAt :
    (a b c : Range)
    → IsNarrow a
    → IsNarrow b
    → IsNarrow c
    → OrderAt portcon_compare a b c
      × OrderAt iomemcon_compare a b c
      × OrderAt ioportcon_compare a b c
ranges-OrderAt a b c h k l = (
  IsOrder-at IsNarrow portcon_compare a b c ranges-IsOrder.0 h k l,
  IsOrder-at IsNarrow iomemcon_compare a b c ranges-IsOrder.1 h k l,
  IsOrder-at IsNarrow ioportcon_compare a b c ranges-IsOrder.2 h k l,
)

-- Of ranges that start below their ends, and whose widths an int holds, the narrower comes first,
-- and of two as wide as each other the lower; all three comparisons agree.
pub ranges-lex :
    (a b : Range)
    → IsNarrow a
    → IsNarrow b
    → (portcon_compare a b
        ≡ then_by (by_value (a.high - a.low) (b.high - b.low)) (by_value a.low b.low))
      × (iomemcon_compare a b ≡ portcon_compare a b)
      × (ioportcon_compare a b ≡ portcon_compare a b)
ranges-lex a b h k = (
  portcon_compare-lex a b h k,
  iomemcon_compare-lex a b h k ∙ sym (portcon_compare-lex a b h k),
  ioportcon_compare-lex a b h k ∙ sym (portcon_compare-lex a b h k),
)

genfscon_compare-lex :
    (a b : Genfscon) → genfscon_compare a b ≡ then_by (strcmp a.fs b.fs) (strcmp a.path b.path)
unfolding genfscon_compare
genfscon_compare-lex a b =
    elim (strcmp a.fs b.fs)
      as (λ s.
        elim s [ same ↦ strcmp a.path b.path | rc ↦ rc ] ≡ then_by s (strcmp a.path b.path)) [
          | below ↦ refl
          | same ↦ refl
          | above ↦ refl
        ]

fsuse_compare-lex :
    (a b : Fsuse)
    → fsuse_compare a b ≡ then_by (by_value a.use_type b.use_type) (strcmp a.fs_str b.fs_str)
unfolding fsuse_compare
fsuse_compare-lex a b = ground arith

-- The statements that are sorted by names and numbers are sorted by orders: genfscon, netifcon,
-- fsuse, pirqcon and pcidevicecon.
pub names-IsOrder :
    IsOrder Any genfscon_compare
    × IsOrder Any netifcon_compare
    × IsOrder Any fsuse_compare
    × IsOrder Any pirqcon_compare
    × IsOrder Any pcidevicecon_compare
unfolding netifcon_compare pirqcon_compare pcidevicecon_compare
names-IsOrder = (
  IsOrder-of Any genfscon_compare _ (λ a b _ _. genfscon_compare-lex a b)
      (then_by-IsOrder Any _ _ (strcmp-IsOrder Any (λ a. a.fs)) (strcmp-IsOrder Any (λ a. a.path))),
  strcmp-IsOrder Any (λ a. a),
  IsOrder-of Any fsuse_compare _ (λ a b _ _. fsuse_compare-lex a b)
      (then_by-IsOrder Any _ _ (by_value-IsOrder Any (λ a. a.use_type))
        (strcmp-IsOrder Any (λ a. a.fs_str))),
  by_value-IsOrder Any (λ a. a),
  by_value-IsOrder Any (λ a. a),
)

abbrev pub HasFamily : Nodecon → Type 0
HasFamily n = (n.family ≡ af_inet) ⊎ (n.family ≡ af_inet6)

abbrev pub ip_bytes : Nodecon → Text → Text
ip_bytes n bs = take (if n.family == af_inet then 4 else 16) bs

masks_first-then :
    (n : ℕ) (a b : Nodecon)
    → masks_first n a b
      ≡ then_by
          (flip (strcmp (take n a.mask) (take n b.mask)))
          (strcmp (take n a.addr) (take n b.addr))
masks_first-then n a b =
    let addrs = strcmp (take n a.addr) (take n b.addr) in
    elim (strcmp (take n a.mask) (take n b.mask))
      as (λ s. elim s [ same ↦ addrs | rc ↦ flip rc ] ≡ then_by (flip s) addrs) [
        | below ↦ refl
        | same ↦ refl
        | above ↦ refl
      ]

nodecon_compare-lex :
    (a b : Nodecon)
    → HasFamily a
    → HasFamily b
    → nodecon_compare a b
      ≡ then_by (by_value a.family b.family) (
          then_by
            (flip (strcmp (ip_bytes a a.mask) (ip_bytes b b.mask)))
            (strcmp (ip_bytes a a.addr) (ip_bytes b b.addr)))
unfolding nodecon_compare
nodecon_compare-lex a b (inl e) (inl f) = rw (e, f) (masks_first-then 4 a b)
nodecon_compare-lex a b (inl e) (inr f) = rw (e, f)
nodecon_compare-lex a b (inr e) (inl f) = rw (e, f)
nodecon_compare-lex a b (inr e) (inr f) = rw (e, f) (masks_first-then 16 a b)

nodecon_compare-IsOrder : IsOrder HasFamily nodecon_compare
nodecon_compare-IsOrder = IsOrder-of HasFamily nodecon_compare _ nodecon_compare-lex (
    then_by-IsOrder HasFamily _ _ (by_value-IsOrder HasFamily (λ n. n.family)) (
      then_by-IsOrder HasFamily _ _
        (flip-IsOrder HasFamily (λ a b. strcmp (ip_bytes a a.mask) (ip_bytes b b.mask))
          (strcmp-IsOrder HasFamily (λ n. ip_bytes n n.mask)))
        (strcmp-IsOrder HasFamily (λ n. ip_bytes n n.addr))))

-- Addresses of the two families are sorted by an order: IPv4 before IPv6, then by the mask, the
-- greatest first, then by the address.
pub nodecon_compare-OrderAt :
    (a b c : Nodecon)
    → HasFamily a
    → HasFamily b
    → HasFamily c
    → OrderAt nodecon_compare a b c
      × (nodecon_compare a b
          ≡ then_by (by_value a.family b.family) (
              then_by
                (flip (strcmp (ip_bytes a a.mask) (ip_bytes b b.mask)))
                (strcmp (ip_bytes a a.addr) (ip_bytes b b.addr))))
nodecon_compare-OrderAt a b c h k l = (
  IsOrder-at HasFamily nodecon_compare a b c nodecon_compare-IsOrder h k l,
  nodecon_compare-lex a b h k,
)
