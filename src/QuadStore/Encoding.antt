-- ===== src/QuadStore/Encoding.antt =====
-- badgerStore of store.go: a dataset is one value, a line of four tab-separated ids for each quad. Its
-- List is in QuadStore/Scan.
pub mod RoundTrip
use forty_six.Base.{
  ℕ, ◌≡◌, List, [], ◌∷◌, Bytes, false, length, map, ltb, if◌then◌else◌, Result, ok, err, ◌>>=◌,
  Error, key_not_found, not_found, parse_quads,
}
use forty_six.Text.{split, join}
use forty_six.Util.Keys.{dataset_prefix, assemble_key}
use forty_six.Badger.{Database}
use forty_six.QuadStore.{Quad}

abbrev tab : ℕ
tab = b'\t'

abbrev newline : ℕ
newline = b'\n'

-- The line of a quad, in Set.
unfoldable pub quad_line : Quad → Bytes
quad_line q = join tab (q.subject ∷ q.predicate ∷ q.object ∷ q.graph ∷ [])

-- The value that Set writes.
unfoldable pub quads_value : List Quad → Bytes
quads_value quads = join newline (map quad_line quads)

-- One line in getQuads.
unfoldable pub parse_quad : List Bytes → Result Quad
parse_quad (s ∷ p ∷ o ∷ g ∷ []) = ok (record { subject = s; predicate = p; object = o; graph = g })
parse_quad _ = err parse_quads

unfoldable pub parse_lines : List Bytes → Result (List Quad)
parse_lines [] = ok []
parse_lines (line ∷ lines) = do
  q ← parse_quad (split tab line)
  rest ← parse_lines lines
  ok (q ∷ rest)

unfoldable pub get_quads : Bytes → Result (List Quad)
get_quads val =
    let lines = split newline val in
    if ltb (length lines) 2 then err parse_quads else parse_lines lines

abbrev pub dataset_key : Bytes → Bytes
dataset_key id = assemble_key dataset_prefix false (id ∷ [])

found : Result Bytes → Result (List Quad)
found (ok val) = get_quads val
found (err key_not_found) = err not_found
found (err e) = err e

module _ (b : Database) where
  open b use {Db, begin, delete, set_entry, commit}

  -- Get
  unfoldable pub get : Bytes → Db → Result (List Quad)
  unfolding found
  get id db = found (b.get (begin db) (dataset_key id))

  -- Set and Delete: db.Update begins a transaction, runs the function and commits.
  unfoldable pub set : Bytes → List Quad → Db → Result Db
  set id quads db = do t ← set_entry (begin db) (dataset_key id) (quads_value quads); commit t

  unfoldable pub remove : Bytes → Db → Result Db
  remove id db = do t ← delete (begin db) (dataset_key id); commit t
