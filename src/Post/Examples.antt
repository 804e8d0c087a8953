-- ===== src/Post/Examples.antt =====
-- Tests, and the theorems at concrete statements.
use cil.Base.{
  inl, inr, ℕ, ◌-◌, ◌≡◌, refl, List, [], ◌∷◌, ◌++◌, some, none, true, false, arith, length,
}
use cil.Text.{codes}
use cil.Post.{
  below, by_value, FcData, data_compare, fc_fill_data, backslash, filecon_compare, Range,
  portcon_compare, iomemcon_compare, ioportcon_compare, Nodecon,
}
use cil.Post.Signs.{OrderAt, then_by}
use cil.Post.Paths.{
  Piece, meta_char, plain_char, escaped_char, write, any_meta, stem, fc_fill_data-pieces,
}
use cil.Post.Orders.{data_compare-OrderAt, ranges-OrderAt, ranges-lex}

filecon_test :
    filecon_compare
      (record { path_str = codes "/a/.*"; file_type = 1 })
      (record { path_str = codes "/a"; file_type = 1 })
    ≡ some below
unfolding filecon_compare
filecon_test = refl

abbrev with_meta : FcData × ℕ
with_meta = (record { has_meta = true; stem_len = 3; str_len = 5 }, 1)

abbrev plain_path : ℕ → FcData × ℕ
plain_path n = (record { has_meta = false; stem_len = n; str_len = n }, 2)

data_compare-OrderAt_example :
    OrderAt data_compare with_meta (plain_path 1) (plain_path 2)
    × (data_compare with_meta (plain_path 1)
        ≡ then_by (by_value 0 1) (then_by (by_value 3 1) (then_by (by_value 5 1) (by_value 1 2))))
data_compare-OrderAt_example = data_compare-OrderAt with_meta (plain_path 1) (plain_path 2)

-- A backslash at the end is read past.
filecon_end_test :
    filecon_compare
      (record { path_str = 47 ∷ backslash ∷ []; file_type = 1 })
      (record { path_str = codes "/a"; file_type = 1 })
    ≡ none
unfolding filecon_compare
filecon_end_test = refl

abbrev port : ℕ → Range
port p = record { low = p; high = p }

abbrev ports : Range
ports = record { low = 1; high = 1023 }

-- All of the memory is wider than an int holds: it comes before a single address.
memory_test : iomemcon_compare (record { low = 0; high = 4294967295 }) (port 0) ≡ below
unfolding iomemcon_compare
memory_test = refl

ranges-OrderAt_example :
    OrderAt portcon_compare (port 80) (port 443) ports
    × OrderAt iomemcon_compare (port 80) (port 443) ports
    × OrderAt ioportcon_compare (port 80) (port 443) ports
ranges-OrderAt_example =
    ranges-OrderAt (port 80) (port 443) ports (ground arith) (ground arith) (ground arith)

ranges-lex_example :
    (portcon_compare (port 80) ports ≡ then_by (by_value (80 - 80) (1023 - 1)) (by_value 80 1))
    × (iomemcon_compare (port 80) ports ≡ portcon_compare (port 80) ports)
    × (ioportcon_compare (port 80) ports ≡ portcon_compare (port 80) ports)
ranges-lex_example = ranges-lex (port 80) ports (ground arith) (ground arith)

abbrev host : ℕ → Nodecon
host n = record { family = 2; mask = 255 ∷ 255 ∷ 255 ∷ 0 ∷ []; addr = 10 ∷ 0 ∷ n ∷ 0 ∷ [] }

abbrev host6 : Nodecon
host6 = record { family = 10; mask = 255 ∷ []; addr = 254 ∷ [] }

abbrev two_pieces : List Piece
two_pieces = plain_char 47 ∷ escaped_char 46 ∷ meta_char 42 ∷ []

fc_fill_data-pieces_example :
    (fc_fill_data (write two_pieces)
      ≡ some (record {
        has_meta = any_meta two_pieces;
        stem_len = stem two_pieces;
        str_len = length two_pieces;
      }))
    × (fc_fill_data (write two_pieces ++ backslash ∷ []) ≡ none)
fc_fill_data-pieces_example =
    fc_fill_data-pieces two_pieces
      ((λ h. ground (arith, h)), ground arith, (inr (inr (inr (inr (inl refl)))), tt))
