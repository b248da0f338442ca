-- ===== src/Util/Escape.antt =====
-- escape and unescape of util.go: the quoting of a literal's text in its id.
pub mod Table
pub mod Stages
pub mod Undo
use forty_six.Base.{ℕ, [], ◌∷◌, Bytes}
use forty_six.Text.{replace, replace_pair}

abbrev pub backslash : ℕ
backslash = b'\\'

abbrev pub quote : ℕ
quote = b'"'

abbrev pub newline : ℕ
newline = b'\n'

abbrev pub return : ℕ
return = b'\r'

abbrev pub tab : ℕ
tab = b'\t'

unfoldable pub escape : Bytes → Bytes
unfolding replace
escape s =
    let s = replace backslash (backslash ∷ backslash ∷ []) s in
    let s = replace quote (backslash ∷ quote ∷ []) s in
    let s = replace newline (backslash ∷ b'n' ∷ []) s in
    let s = replace return (backslash ∷ b'r' ∷ []) s in replace tab (backslash ∷ b't' ∷ []) s

unfoldable pub unescape : Bytes → Bytes
unfolding replace_pair
unescape s =
    let s = replace_pair backslash backslash (backslash ∷ []) s in
    let s = replace_pair backslash quote (quote ∷ []) s in
    let s = replace_pair backslash b'n' (newline ∷ []) s in
    let s = replace_pair backslash b'r' (return ∷ []) s in replace_pair backslash b't' (tab ∷ []) s
