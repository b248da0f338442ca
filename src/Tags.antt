-- ===== src/Tags.antt =====
-- tags.go: which URIs are those of datasets. `Parse`, which takes a URI apart by net/url, is not
-- modelled.
pub mod Accept
use forty_six.Base.{
  ℕ, Bool, true, false, ◌&&◌, Option, none, some, List, [], ◌∷◌, ◌++◌, Bytes, length, leb, ◌==◌,
  if◌then◌else◌,
}
use forty_six.Text.{index, index_byte}
use forty_six.Term.{Term, named_node}

abbrev pub hash : ℕ
hash = b'#'

-- nilTagScheme
unfoldable pub nil_test : Bytes → Bool
nil_test uri = false

starts : Option ℕ → Bool
starts none = false
starts (some i) = i == 0

from : ℕ → Option ℕ → Bool
from n none = false
from n (some i) = leb n i

-- prefixTagScheme.Test
unfoldable pub prefix_test : Bytes → Bytes → Bool
unfolding starts from
prefix_test pts uri = starts (index pts uri) && from (length pts) (index_byte hash uri)

is_none : Option ℕ → Bool
is_none none = true
is_none (some i) = false

-- The guard of Store.Set, for the test of the store's tag scheme: whether the node may name a
-- dataset.
unfoldable pub accepts : (Bytes → Bool) → Term → Bool
unfolding is_none
accepts test (named_node uri) = is_none (index_byte hash uri) && test (uri ++ hash ∷ [])
accepts test _ = true
