-- ===== src/Iterator.antt =====
-- iterator.go and query.go: the search for the solutions of a query. Its state is the graph of
-- variables and constraints, here behind an interface of the operations on a variable, and the
-- blacklist.
pub mod Outcome
pub mod Tick
pub mod Promises
pub mod Advance
pub mod Solutions
pub mod Flags
pub mod Tail
use forty_six.Base.{
  ℕ, zero, suc, Bool, List, Option, none, some, Bytes, ◌==◌, if◌then◌else◌, Result, ok, ◌>>=◌,
}

-- A query's variables, which are counted from zero, with the operations of variable.go and `push`.
-- `ins` and `outs` are the sorted dependency maps, and a Saved is a *vcache.
pub record Graph : Type 1 where
  pub State : Type 0
  pub Saved : Type 0
  pub size : ℕ
  pub ins : ℕ → List ℕ
  pub outs : ℕ → List ℕ
  pub value : ℕ → State → Bytes
  pub root : ℕ → State → Bytes
  -- u.value = u.Next()
  pub next : ℕ → State → State
  -- u.value = u.Seek(v)
  pub seek : ℕ → Bytes → State → State
  pub set_value : ℕ → Bytes → State → State
  pub save : ℕ → State → Saved
  -- the saved value
  pub saved_value : Saved → Bytes
  pub load : ℕ → Saved → State → State
  -- iter.push(iter.variables[i], min, max)
  pub push : ℕ → ℕ → ℕ → State → Result State

-- `m[i] = v`
abbrev pub update {ℓ} : {A : Type ℓ} → ℕ → A → (ℕ → A) → ℕ → A
update i v f j = if i == j then v else f j

module _ (g : Graph) where
  pub record Machine : Type 0 where
    pub graph : g.State
    pub blacklist : ℕ → Bool

  -- A []*vcache, whose length is told where it is ranged over.
  abbrev pub Delta : Type 0
  Delta = ℕ → Option g.Saved

  abbrev pub no_delta : Delta
  no_delta i = none

  abbrev pub or_saved : Option g.Saved → g.Saved → Option g.Saved
  or_saved none saved = some saved
  or_saved (some first) saved = some first

  -- `if delta[l] == nil { delta[l] = saved }`
  unfoldable pub keep_first : ℕ → g.Saved → Delta → Delta
  keep_first l saved delta = update l (or_saved (delta l) saved) delta

  unfoldable pub restore_one : ℕ → ℕ → Option g.Saved → g.State → Result g.State
  restore_one i max none s = ok s
  restore_one i max (some saved) s = g.push i i max (g.load i saved s)

  -- The loop of restore over the next `n` entries, from the index `i` on.
  unfoldable pub restore_from : ℕ → ℕ → Delta → ℕ → g.State → Result g.State
  restore_from zero i cache max s = ok s
  restore_from (suc n) i cache max s = do
    s ← restore_one i max (cache i) s
    restore_from n (suc i) cache max s

  unfoldable pub restore : ℕ → Delta → ℕ → g.State → Result g.State
  restore n cache max s = restore_from n 0 cache max s

  -- u.value = u.Seek(u.root)
  unfoldable pub seek_root : ℕ → g.State → g.State
  seek_root i s = g.seek i (g.root i s) s
