-- ===== src/QuadStore/Memory.antt =====
-- memoryStore of store.go: a map of datasets, and the list of their ids in order.
pub mod Order
pub mod Listing
use forty_six.Base.{
  ℕ, suc, ◌+◌, List, [], ◌∷◌, ◌++◌, Option, none, some, Bytes, length, take, drop, get_or, ltb,
  if◌then◌else◌, Result, ok, err, not_found, panic,
}
use forty_six.Dict.{Dict, lookup, insert, remove}
use forty_six.QuadStore.{Quad}
use forty_six.QuadStore.Sort.{search_strings}

pub record MemoryStore : Type 0 where
  pub datasets : Dict (List Quad)
  pub values : List Bytes

-- MakeMemoryStore
abbrev pub empty : MemoryStore
empty = record { datasets = []; values = [] }

-- The append, the copy and the assignment move what stands from `i` on one place up.
abbrev pub insert_at : ℕ → Bytes → List Bytes → List Bytes
insert_at i value values = take i values ++ value ∷ drop i values

-- append(values[:i], values[i+1:]...)
abbrev pub remove_at : ℕ → List Bytes → List Bytes
remove_at i values = take i values ++ drop (suc i) values

-- Set never fails.
unfoldable pub set : Bytes → List Quad → MemoryStore → MemoryStore
set id quads m = record {
  datasets = insert id quads m.datasets;
  values = insert_at (search_strings m.values id) id m.values;
}

found : Option (List Quad) → Result (List Quad)
found none = err not_found
found (some quads) = ok quads

unfoldable pub get : Bytes → MemoryStore → Result (List Quad)
unfolding found
get id m = found (lookup id m.datasets)

-- At an index past the end, where no id is from `id` on, the slice expression panics.
delete_found : Option (List Quad) → Bytes → MemoryStore → Result MemoryStore
delete_found none id m = err not_found
delete_found (some quads) id m =
    let i = search_strings m.values id in
    if ltb i (length m.values)
    then ok (record { datasets = remove id m.datasets; values = remove_at i m.values })
    else err panic

unfoldable pub delete : Bytes → MemoryStore → Result MemoryStore
unfolding delete_found
delete id m = delete_found (lookup id m.datasets) id m

-- memoryList: an index into the ids. The store is the shared one, at the time of each call.
unfoldable pub list : Bytes → MemoryStore → ℕ
list id m = search_strings m.values id

-- Next: the id, if there is one, and the new index.
unfoldable pub next : MemoryStore → ℕ → Option Bytes × ℕ
next m i = if ltb i (length m.values) then (some (get_or m.values i []), i + 1) else (none, i)
