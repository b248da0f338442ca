-- ===== src/Statement.antt =====
-- statement.go: the source of a triple, and the list of sources that a ternary entry holds. `URI` and
-- `Graph`, which only ask the dictionary for terms, are not modelled.
pub mod Parse
use forty_six.Base.{
  ℕ, ◌<◌, ◌^◌, Bool, ◌≡◌, Option, none, some, List, [], ◌∷◌, ◌++◌, Bytes, length, ltb,
  if◌then◌else◌, Result, ok, ◌>>=◌, Lacks,
}
use forty_six.Text.{split}
use forty_six.Strconv.{format_uint, parse_uint}

pub record Statement : Type 0 where
  pub base : Bytes
  pub index : ℕ
  pub graph : Bytes

abbrev tab : ℕ
tab = b'\t'

abbrev newline : ℕ
newline = b'\n'

-- Statement.String
unfoldable pub to_string : Statement → Bytes
to_string s = s.base ++ tab ∷ (format_uint s.index ++ tab ∷ (s.graph ++ newline ∷ []))

-- One round of the loop: a line that has not three parts leaves a nil pointer.
unfoldable pub parse_line : List Bytes → Result (Option Statement)
parse_line (base ∷ index ∷ graph ∷ []) = do
  n ← parse_uint index
  ok (some (record { base = base; index = n; graph = graph }))
parse_line _ = ok none

unfoldable pub parse_lines : List Bytes → Result (List (Option Statement))
parse_lines [] = ok []
parse_lines (line ∷ lines) = do
  s ← parse_line (split tab line)
  rest ← parse_lines lines
  ok (s ∷ rest)

-- lines[:len(lines)-1]
unfoldable pub drop_last : List Bytes → List Bytes
drop_last [] = []
drop_last (x ∷ []) = []
drop_last (x ∷ y ∷ xs) = x ∷ drop_last (y ∷ xs)

unfoldable pub get_statements : Bytes → Result (List (Option Statement))
get_statements val =
    let lines = split newline val in
    if ltb (length lines) 2 then ok [] else parse_lines (drop_last lines)
