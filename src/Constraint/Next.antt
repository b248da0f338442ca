-- ===== src/Constraint/Next.antt =====
-- Next of a constraint finds the least of its values above the one that it stands at.
use forty_six.Base.{
  ◌≡◌, ◌≢◌, ◌∙◌, refl, sym, ap, true, false, [], ◌∷◌, ◌++◌, Option, none, some, Bytes,
}
use forty_six.Util.Keys.{tab}
use forty_six.QuadStore.Sort.{bytes_le, bytes_le_total}
use forty_six.Badger.Cursor.{Cursor, Seeks}
use forty_six.Constraint.{item_value, Constraint, value, next}
use forty_six.Constraint.Seek.{IsScan, Lands, lands, between, gives-prefix, bytes_le-append}
use forty_six.Constraint.Values.{Ranges, IsReady, HasValue}

-- `w` is the least id of the set `S` above `v`, or the empty id where there is none.
abbrev pub Successor : (Bytes → Type 0) → Bytes → Bytes → Type 0
Successor S v w =
    (w ≢ [] → S w × (bytes_le w v ≡ false))
    × ((u : Bytes) → S u → bytes_le u v ≡ false → (w ≢ []) × (bytes_le w u ≡ true))

module _ (cur : Cursor) (laws : Seeks cur) where
  open laws use {Has}

  -- The iterator stands at the value `v`.
  abbrev pub StandsAt : Constraint cur → Bytes → Type 0
  StandsAt c v = HasValue cur laws c v × (cur.item c.iterator ≡ some (c.prefix ++ v))

  pub next-Ranges :
      (S : Bytes → Type 0) (c : Constraint cur)
      → Ranges cur laws S c
      → Ranges cur laws S (next cur c).1
  unfolding next
  next-Ranges S c ((pre, e, scan), same) = (
    (pre, e, λ key has. scan key ((laws.keep-next key c.iterator).1 has)),
    λ u.
        let (to, back) = laws.keep-next (c.prefix ++ u) c.iterator in
        (λ s. to ((same u).0 s), λ h. (same u).1 (back h)),
  )

  module _ (pre v : Bytes) (it : cur.Iter) (scan : IsScan cur laws pre it) where
    open laws use {item-next, least-next}

    abbrev p : Bytes
    p = pre ++ tab ∷ []

    succeeds_to :
        (r : Option Bytes)
        → Has it (p ++ v)
        → cur.item it ≡ some (p ++ v)
        → cur.item (cur.next it) ≡ r
        → item_value p r ≢ []
        → Has it (p ++ item_value p r) × (bytes_le (item_value p r) v ≡ false)
    unfolding Lands
    succeeds_to none has at e h = absurd (h (unfold item_value in refl))
    succeeds_to (some key) has at e h =
        let (there, gt) = item-next (p ++ v) key it has at e in
        let (u, same, split, ne, have, le) =
          lands cur laws pre v key it scan (gives-prefix cur laws p key h) there
            (bytes_le_total key (p ++ v) gt) in
        (
          rw same have,
          rw same (sym (bytes_le-append p u v) ∙ ap (λ k. bytes_le k (p ++ v)) (sym split) ∙ gt),
        )

    succeeds_least :
        (u : Bytes)
        → Has it (p ++ v)
        → cur.item it ≡ some (p ++ v)
        → Has it (p ++ u)
        → bytes_le u v ≡ false
        → let w = item_value p (cur.item (cur.next it)) in (w ≢ []) × (bytes_le w u ≡ true)
    unfolding Lands
    succeeds_least u has at hu gt =
        let (key, e, below) =
          least-next (p ++ v) (p ++ u) it has at hu (bytes_le-append p u v ∙ gt) in
        let (there, over) = item-next (p ++ v) key it has at e in
        let le = bytes_le_total key (p ++ v) over in
        let (w, same, split, ne, _, _) =
          lands cur laws pre v key it scan (between p v u key le below) there le in
        rw (e, same)
          (ne, sym (bytes_le-append p w u) ∙ ap (λ k. bytes_le k (p ++ u)) (sym split) ∙ below)

  pub next-Successor :
      (v : Bytes) (c : Constraint cur)
      → IsReady cur laws c
      → StandsAt c v
      → Successor (HasValue cur laws c) v (next cur c).0
  unfolding next value
  next-Successor v c (pre, e, scan) (has, at) = go c.prefix e has at
    where
      go :
          (p : Bytes)
          → p ≡ pre ++ tab ∷ []
          → Has c.iterator (p ++ v)
          → cur.item c.iterator ≡ some (p ++ v)
          → Successor
              (λ u. Has c.iterator (p ++ u))
              v
              (item_value p (cur.item (cur.next c.iterator)))
      go p e = rw e λ has at. (
        succeeds_to pre v c.iterator scan _ has at refl,
        λ u hu gt. succeeds_least pre v c.iterator scan u has at hu gt,
      )
