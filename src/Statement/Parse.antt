-- ===== src/Statement/Parse.antt =====
-- getStatements reads back the statements that String wrote one behind the other.
use forty_six.Base.{
  ◌^◌, ◌<◌, ◌≡◌, refl, ap, some, List, [], ◌∷◌, ◌++◌, map, append_assoc, arith, Bytes, length,
  length-append, le→ltb, ok, All, All-map, All-append, Lacks,
}
use forty_six.Text.{split, join}
use forty_six.Text.Parts.{split-append, split-join}
use forty_six.Strconv.{format_uint}
use forty_six.Strconv.RoundTrip.{parse-format, IsPlain, format_uint-IsPlain}
use forty_six.Statement.{
  Statement, to_string, tab, newline, parse_line, parse_lines, drop_last, get_statements,
}

-- What a stored statement is: ids with no tab and no newline, and an index of 64 bits.
pub record IsStored (s : Statement) : Type 0 where
  pub base : All IsPlain s.base
  pub graph : All IsPlain s.graph
  pub index : s.index < 2 ^ 64

-- the value of an entry: the texts of its statements
unfoldable pub entry_value : List Statement → Bytes
entry_value [] = []
entry_value (s ∷ ss) = to_string s ++ entry_value ss

pub Lacks-tab : (s : Bytes) → All IsPlain s → Lacks b'\t' s
Lacks-tab s = All-map s (λ c h. h.0)

pub Lacks-newline : (s : Bytes) → All IsPlain s → Lacks b'\n' s
Lacks-newline s = All-map s (λ c h. h.1)

fields : Statement → List Bytes
fields s = s.base ∷ format_uint s.index ∷ s.graph ∷ []

line : Statement → Bytes
line s = join tab (fields s)

to_string-line : (s : Statement) → to_string s ≡ line s ++ newline ∷ []
unfolding to_string line fields join
to_string-line s = simp append_assoc

line-Lacks : (s : Statement) → IsStored s → Lacks newline (line s)
unfolding line fields join
line-Lacks s h =
    let base = Lacks-newline s.base h.base in
    let index = Lacks-newline (format_uint s.index) (format_uint-IsPlain s.index) in
    let graph = Lacks-newline s.graph h.graph in
    All-append _ s.base (tab ∷ (format_uint s.index ++ tab ∷ s.graph)) base
      (omega arith, All-append _ (format_uint s.index) (tab ∷ s.graph) index (omega arith, graph))

split-line : (s : Statement) → IsStored s → split tab (line s) ≡ fields s
unfolding line fields
split-line s h = split-join tab (fields s) (cc) (
  Lacks-tab s.base h.base,
  (Lacks-tab (format_uint s.index) (format_uint-IsPlain s.index), (Lacks-tab s.graph h.graph, tt)),
)

parse_line-fields : (s : Statement) → IsStored s → parse_line (fields s) ≡ ok (some s)
unfolding parse_line fields
parse_line-fields s h = rw (parse-format s.index h.index)

parse_lines-map :
    (ss : List Statement) → All IsStored ss → parse_lines (map line ss) ≡ ok (map some ss)
unfolding parse_lines
parse_lines-map [] h = refl
parse_lines-map (s ∷ ss) (hs, hss) =
    rw (split-line s hs, parse_line-fields s hs, parse_lines-map ss hss)

split-entry_value :
    (ss : List Statement)
    → All IsStored ss
    → split newline (entry_value ss) ≡ map line ss ++ [] ∷ []
unfolding entry_value
split-entry_value [] h = unfold split in refl
split-entry_value (s ∷ ss) (hs, hss) = rw (
  to_string-line,
  append_assoc,
  split-append newline (line s) (entry_value ss) (line-Lacks s hs),
  split-entry_value ss hss,
)

drop_last-append : (xs : List Bytes) (y : Bytes) → drop_last (xs ++ y ∷ []) ≡ xs
unfolding drop_last
drop_last-append [] y = refl
drop_last-append (x ∷ []) y = refl
drop_last-append (x ∷ x' ∷ xs) y = ap (λ r. x ∷ r) (drop_last-append (x' ∷ xs) y)

-- The statements of an entry, none of whose ids has a tab or a newline in it and whose indices are
-- uint64s, are read back from its value, in their order.
pub get_statements-entry_value :
    (ss : List Statement) → All IsStored ss → get_statements (entry_value ss) ≡ ok (map some ss)
unfolding get_statements
get_statements-entry_value [] h = unfold entry_value split in refl
get_statements-entry_value (s ∷ ss) h = rw (
  split-entry_value (s ∷ ss) h,
  le→ltb (length (map line (s ∷ ss) ++ [] ∷ [])) 2
      (omega (arith, length-append (map line ss) ([] ∷ []))),
  drop_last-append,
  parse_lines-map (s ∷ ss) h,
)
