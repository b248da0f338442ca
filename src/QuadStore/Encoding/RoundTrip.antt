-- ===== src/QuadStore/Encoding/RoundTrip.antt =====
-- A dataset of two quads or more is read back from the database; a smaller one is not.
use forty_six.Base.{
  ◌≡◌, ◌∙◌, refl, List, [], ◌∷◌, Bytes, length, map, ltb, le→ltb, if◌then◌else◌, ok, err, >>=-eq-ok,
  bytes_eq_self, parse_quads, All, All-append, Lacks, arith,
}
use forty_six.Text.{split, join}
use forty_six.Text.Parts.{split-join, split_one}
use forty_six.Strconv.RoundTrip.{IsPlain}
use forty_six.Statement.Parse.{Lacks-tab, Lacks-newline}
use forty_six.Badger.{Database, Reads}
use forty_six.QuadStore.{Quad}
use forty_six.QuadStore.Encoding.{
  tab, newline, quad_line, quads_value, parse_quad, parse_lines, get_quads, dataset_key, get, set,
}

-- No id of the quad has a tab or a newline in it.
pub record IsPlainQuad (q : Quad) : Type 0 where
  pub subject : All IsPlain q.subject
  pub predicate : All IsPlain q.predicate
  pub object : All IsPlain q.object
  pub graph : All IsPlain q.graph

split-quad_line :
    (q : Quad)
    → IsPlainQuad q
    → split tab (quad_line q) ≡ q.subject ∷ q.predicate ∷ q.object ∷ q.graph ∷ []
unfolding quad_line
split-quad_line q h = split-join tab _ (cc) (
  Lacks-tab q.subject h.subject,
  (
    Lacks-tab q.predicate h.predicate,
    (Lacks-tab q.object h.object, (Lacks-tab q.graph h.graph, tt)),
  ),
)

quad_line-Lacks : (q : Quad) → IsPlainQuad q → Lacks newline (quad_line q)
unfolding quad_line join
quad_line-Lacks q h = All-append _ q.subject _ (Lacks-newline q.subject h.subject) (
  omega arith,
  All-append _ q.predicate _ (Lacks-newline q.predicate h.predicate) (
    omega arith,
    All-append _ q.object _ (Lacks-newline q.object h.object)
        (omega arith, Lacks-newline q.graph h.graph),
  ),
)

lines-Lack : (qs : List Quad) → All IsPlainQuad qs → All (Lacks newline) (map quad_line qs)
lines-Lack [] h = tt
lines-Lack (q ∷ qs) (hq, h) = (quad_line-Lacks q hq, lines-Lack qs h)

parse_lines-map : (qs : List Quad) → All IsPlainQuad qs → parse_lines (map quad_line qs) ≡ ok qs
unfolding parse_lines
parse_lines-map [] h = refl
parse_lines-map (q ∷ qs) (hq, h) =
    rw (split-quad_line q hq, parse_lines-map qs h) (unfold parse_quad in refl)

-- getQuads reads back the value that Set writes for a dataset of at least two quads, and refuses that
-- of an empty dataset and of a single quad, where no id has a tab or a newline in it.
pub get_quads-quads_value :
    (qs : List Quad)
    → All IsPlainQuad qs
    → get_quads (quads_value qs) ≡ (if ltb (length qs) 2 then err parse_quads else ok qs)
unfolding get_quads quads_value
get_quads-quads_value [] h = unfold split join in refl
get_quads-quads_value (q ∷ []) (hq, _) =
    unfold join in rw (split_one newline (quad_line q) (quad_line-Lacks q hq))
get_quads-quads_value (q ∷ q' ∷ qs) h = rw (
  split-join newline (map quad_line (q ∷ q' ∷ qs)) (cc) (lines-Lack (q ∷ q' ∷ qs) h),
  le→ltb (length (map quad_line (q ∷ q' ∷ qs))) 2 (omega arith),
  le→ltb (length (q ∷ q' ∷ qs)) 2 (omega arith),
  parse_lines-map (q ∷ q' ∷ qs) h,
)

module _ (b : Database) (laws : Reads b) where
  open b use {Db, begin, commit, set_entry}

  set-steps :
      (id : Bytes) (qs : List Quad) (db db' : Db)
      → set b id qs db ≡ ok db'
      → (t : b.Txn) × (set_entry (begin db) (dataset_key id) (quads_value qs) ≡ ok t)
        × (commit t ≡ ok db')
  unfolding set
  set-steps id qs db db' = >>=-eq-ok (set_entry (begin db) (dataset_key id) (quads_value qs)) commit

  get-stored :
      (id val : Bytes) (db : Db)
      → b.get (begin db) (dataset_key id) ≡ ok val
      → get b id db ≡ get_quads val
  unfolding get
  get-stored id val db e = rw e

  -- Get in the database that Set leaves behind without an error gives the dataset back exactly if it
  -- has two quads or more; of a smaller one it is the error of a value that cannot be parsed. No id
  -- has a tab or a newline in it.
  pub get-set_badger :
      (id : Bytes) (qs : List Quad) (db db' : Db)
      → All IsPlainQuad qs
      → set b id qs db ≡ ok db'
      → get b id db' ≡ (if ltb (length qs) 2 then err parse_quads else ok qs)
  get-set_badger id qs db db' h done =
      let (t, written, committed) = set-steps id qs db db' done in
      get-stored id (quads_value qs) db' (
        laws.get-commit t db' (dataset_key id) committed
        ∙ laws.get-set_entry (begin db) t (dataset_key id) (quads_value qs) (dataset_key id) written
        ∙ rw bytes_eq_self)
      ∙ get_quads-quads_value qs h
