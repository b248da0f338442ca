-- ===== src/Tests/Util.antt =====
-- The theorems on keys, ids and escaped texts at concrete inputs.
use forty_six.Base.{◌≡◌, refl, [], ◌∷◌, some, codes, arith}
use mathlib.Core.Option
use forty_six.Util.Keys.{binary_prefix}
use forty_six.Util.Keys.Layout.{assemble_key-injective}
use forty_six.Util.Ids.{from_uint64}
use forty_six.Util.Ids.Decode.{read_base64, read-from_uint64}
use forty_six.Util.Escape.{escape, unescape}
use forty_six.Util.Escape.Undo.{unescape-escape}

assemble_key-injective_example :
    (binary_prefix 0 ≡ binary_prefix 0)
    × (codes "AAAB" ≡ codes "AAAB")
    × (codes "AAAC" ∷ [] ≡ codes "AAAC" ∷ [])
assemble_key-injective_example =
    assemble_key-injective (binary_prefix 0) (binary_prefix 0) (codes "AAAB") (codes "AAAB")
      (codes "AAAC" ∷ []) (codes "AAAC" ∷ []) (ground arith) (ground arith) refl

read-from_uint64_example : Option.map (read_base64 0) (from_uint64 16777217) ≡ some 16777217
read-from_uint64_example = read-from_uint64 16777217 (omega arith)

unescape-escape_example : unescape (escape (codes "a\t\\b")) ≡ codes "a\t\\b"
unescape-escape_example = unescape-escape (codes "a\t\\b") (ground arith)
