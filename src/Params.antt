-- ===== src/Params.antt =====
-- powerhose/util.py: `encode_params` and `decode_params`, and the `--params` argument in between.
pub mod Laws
use powerhoc.Common.{ℕ, List, [], ◌∷◌, Bytes, codes}
use powerhoc.Dict.{Dict, bytes_eq, set}
use powerhoc.Exc.{Result, ok, err, value_error, ◌>>=◌}
use powerhoc.Text.{split, join}

-- `':'.join(i) for i in items`
unfoldable pub item_lines : Dict Bytes Bytes → List Bytes
unfolding join
item_lines [] = []
item_lines ((key, value) ∷ items) = join (codes ":") (key ∷ value ∷ []) ∷ item_lines items

unfoldable pub encode_params : Dict Bytes Bytes → Bytes
unfolding item_lines join
encode_params d = join (codes "|") (item_lines d)

-- `key, value = parts`: any other number of parts is a `ValueError`.
unfoldable pub unpack_pair : List Bytes → Result (Bytes × Bytes)
unpack_pair (key ∷ value ∷ []) = ok (key, value)
unpack_pair _ = err value_error

unfoldable pub decode_items : List Bytes → Dict Bytes Bytes → Result (Dict Bytes Bytes)
unfolding unpack_pair split set
decode_items [] output_dict = ok output_dict
decode_items (items ∷ rest) output_dict = do
  (key, value) ← unpack_pair (split (codes ":") items)
  decode_items rest (set key value output_dict)

unfoldable pub decode_params : Bytes → Result (Dict Bytes Bytes)
unfolding decode_items split
decode_params params = decode_items (split (codes "|") params) []
