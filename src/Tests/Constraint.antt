-- ===== src/Tests/Constraint.antt =====
-- Seek and Next of a set of two constraints, each over an iterator that ranges over one key.
use mathlib.Core.Option.{some-injective}
use mathlib.Core.List.{Memᴰ}
use forty_six.Base.{
  ◌≡◌, ◌∙◌, refl, sym, ap, ap₂, true, false, Bool-cases, inl, inr, List, [], ◌∷◌, Option, none,
  some, Bytes, bytes_eq, codes, if◌then◌else◌, arith, All,
}
use forty_six.Text.{has_prefix, after_last}
use forty_six.QuadStore.Sort.{bytes_le, bytes_le_refl}
use forty_six.Badger.Cursor.{Cursor, Seeks}
use forty_six.Constraint.{Constraint, value, seek, item_value}
use forty_six.Constraint.Seek.{IsScan}
use forty_six.Constraint.Set.{seek_set, seek_loop, seek_round, seek_case, seek_at, next_set}
use forty_six.Constraint.Values.{Nearest, IsReady}
use forty_six.Constraint.Next.{Successor, StandsAt}
use forty_six.Constraint.Least.{HasAll, Knows, seek_set-Nearest, next_set-Successor}

abbrev one_key : Cursor
one_key = record {
  Iter = Bytes × Option Bytes;
  item = λ it. it.1;
  next = λ it. (it.0, none);
  seek = λ key it. (it.0, if bytes_le key it.0 then some it.0 else none);
}

one_key-Seeks : Seeks one_key
one_key-Seeks = record {
  Has = λ it j. it.0 ≡ j;
  item-seek = λ key j it h. found key it.0 j h;
  least = λ key u it h le. (it.0, rw (ap (bytes_le key) h ∙ le) refl, rw h (bytes_le_refl u));
  keep-seek = λ key u it. (λ h. h, λ h. h);
  item-next = λ k j it h e e'. absurd (cc e');
  least-next = λ k u it h e h' below. absurd (same h h' below);
  keep-next = λ u it. (λ h. h, λ h. h);
}
  where
    same : {m k u : Bytes} → m ≡ k → m ≡ u → bytes_le u k ≡ false → ⊥
    same {m} h h' below = cc (sym (bytes_le_refl m) ∙ ap₂ bytes_le h' h ∙ below)

    found :
        (key k j : Bytes)
        → (if bytes_le key k then some k else none) ≡ some j
        → (k ≡ j) × (bytes_le key j ≡ true)
    found key k j h = elim (Bool-cases (bytes_le key k)) [
      | inl e ↦
          let same = some-injective _ _ (rw e at h) in (same, ap (bytes_le key) (sym same) ∙ e)
      | inr e ↦ absurd (cc (rw e at h))
    ]

abbrev front : Bytes
front = codes "aAAAB\tAAAC"

abbrev key : Bytes
key = codes "aAAAB\tAAAC\tAAAD"

abbrev constraint : Constraint one_key
constraint = record {
  place = 2;
  prefix = codes "aAAAB\tAAAC\t";
  iterator = (key, none);
  terms = record { subject = codes "AAAB"; predicate = codes "AAAC"; object = [] };
}

constraint-IsScan : IsScan one_key one_key-Seeks front constraint.iterator
unfolding one_key-Seeks
constraint-IsScan k h p = (codes "AAAD", sym h, ground arith, λ e. cc)

lands_at : (seek one_key (codes "AAAA") constraint).0 ≡ codes "AAAD"
unfolding seek value item_value has_prefix after_last bytes_le
lands_at = refl

-- a constraint on the same variable from another triple
abbrev other_front : Bytes
other_front = codes "iAAAE"

abbrev other_key : Bytes
other_key = codes "iAAAE\tAAAD"

abbrev other : Constraint one_key
other = record {
  place = 1;
  prefix = codes "iAAAE\t";
  iterator = (other_key, none);
  terms = record { subject = codes "AAAE"; predicate = []; object = [] };
}

other-IsScan : IsScan one_key one_key-Seeks other_front other.iterator
unfolding one_key-Seeks
other-IsScan k h p = (codes "AAAD", sym h, ground arith, λ e. cc)

both-IsReady : All (IsReady one_key one_key-Seeks) (constraint ∷ other ∷ [])
both-IsReady = ((front, refl, constraint-IsScan), ((other_front, refl, other-IsScan), tt))

abbrev ids : List Bytes
ids = codes "AAAD" ∷ []

both-Knows : Knows one_key one_key-Seeks ids (constraint ∷ other ∷ [])
unfolding one_key-Seeks
both-Knows = (λ u h. Memᴰ.head (cc h), (λ u h. Memᴰ.head (cc h), tt))

meets_at :
    seek_set one_key 5 (codes "AAAA") (constraint ∷ other ∷ [])
    ≡ some (
      codes "AAAD",
      record constraint { iterator = (key, some key) }
          ∷ record other { iterator = (other_key, some other_key) }
          ∷ [],
    )
unfolding seek_set seek_loop seek_round seek_case seek_at seek value item_value has_prefix
    after_last bytes_le bytes_eq
meets_at = refl

abbrev Both : Bytes → Type 0
Both = HasAll one_key one_key-Seeks (constraint ∷ other ∷ [])

seek_set-Nearest_example :
    (w : Bytes) × (cs : List (Constraint one_key)) × (seek_set one_key 5
        (codes "AAAA")
        (constraint ∷ other ∷ [])
      ≡ some (w, cs))
    × Nearest Both (codes "AAAA") w
seek_set-Nearest_example =
    seek_set-Nearest one_key one_key-Seeks ids 5 (codes "AAAA") constraint (other ∷ []) both-IsReady
      both-Knows (omega arith)

-- the first constraint, at its value
abbrev standing : Constraint one_key
standing = record constraint { iterator = (key, some key) }

standing-StandsAt : StandsAt one_key one_key-Seeks standing (codes "AAAD")
unfolding one_key-Seeks
standing-StandsAt = (refl, refl)

standing-IsReady : All (IsReady one_key one_key-Seeks) (standing ∷ other ∷ [])
unfolding one_key-Seeks
standing-IsReady = ((front, refl, constraint-IsScan), ((other_front, refl, other-IsScan), tt))

standing-Knows : Knows one_key one_key-Seeks ids (standing ∷ other ∷ [])
unfolding one_key-Seeks
standing-Knows = (λ u h. Memᴰ.head (cc h), (λ u h. Memᴰ.head (cc h), tt))

next_set-Successor_example :
    (w : Bytes) × (cs : List (Constraint one_key)) × (next_set one_key 5 (standing ∷ other ∷ [])
      ≡ some (w, cs))
    × Successor (HasAll one_key one_key-Seeks (standing ∷ other ∷ [])) (codes "AAAD") w
next_set-Successor_example =
    next_set-Successor one_key one_key-Seeks ids 5 (codes "AAAD") standing (other ∷ [])
      standing-IsReady standing-Knows (omega arith) standing-StandsAt
