-- ===== src/Constraint/Seek.antt =====
-- Seek of a constraint finds the least of its values that is not below the one given.
use forty_six.Base.{
  ◌≡◌, ◌≢◌, ◌∙◌, refl, sym, ap, subst, true, [], ◌∷◌, ◌++◌, append_assoc, Option, none, some, Bytes,
  arith, Lacks, Bool-cases, inl, inr,
}
use forty_six.Text.{has_prefix}
use forty_six.Text.Search.{after_last-append}
use forty_six.Util.Keys.{tab}
use forty_six.QuadStore.Sort.{bytes_le}
use forty_six.Badger.Cursor.{Cursor, Seeks}
use forty_six.Constraint.{key_value, item_value, Constraint, value, seek}

-- a shared prefix does not count
pub bytes_le-append : (p v w : Bytes) → bytes_le (p ++ v) (p ++ w) ≡ bytes_le v w
unfolding bytes_le
bytes_le-append [] v w = refl
bytes_le-append (c ∷ p) v w = ground (arith, bytes_le-append p v w)

-- What stands between two texts with a prefix has that prefix.
pub between :
    (p v u k : Bytes)
    → bytes_le (p ++ v) k ≡ true
    → bytes_le k (p ++ u) ≡ true
    → has_prefix p k ≡ true
unfolding bytes_le has_prefix
between [] v u k h h' = refl
between (c ∷ p) v u [] h h' = ground (arith, h)
between (c ∷ p) v u (x ∷ k) h h' = ground (arith, between p v u k, h, h')

key_value-append : (pre v : Bytes) → Lacks tab v → key_value ((pre ++ tab ∷ []) ++ v) ≡ v
key_value-append pre v h = rw append_assoc (after_last-append tab pre v _ h)

module _ (cur : Cursor) (laws : Seeks cur) where
  open laws use {Has}

  -- The keys with the constraint's prefix, which ends in a tab, go on with one id, which has no tab in
  -- it and is not empty.
  abbrev pub IsScan : Bytes → cur.Iter → Type 0
  IsScan pre it =
      (key : Bytes)
      → Has it key
      → has_prefix (pre ++ tab ∷ []) key ≡ true
      → (u : Bytes) × (key ≡ (pre ++ tab ∷ []) ++ u) × Lacks tab u × (u ≢ [])

  -- what a key with the prefix is
  unfoldable pub Lands : Bytes → Bytes → cur.Iter → Bytes → Type 0
  Lands pre v it key =
      (u : Bytes) × (item_value (pre ++ tab ∷ []) (some key) ≡ u)
      × (key ≡ (pre ++ tab ∷ []) ++ u)
      × (u ≢ [])
      × Has it ((pre ++ tab ∷ []) ++ u)
      × (bytes_le v u ≡ true)

  pub lands :
      (pre v key : Bytes) (it : cur.Iter)
      → IsScan pre it
      → has_prefix (pre ++ tab ∷ []) key ≡ true
      → Has it key
      → bytes_le ((pre ++ tab ∷ []) ++ v) key ≡ true
      → Lands pre v it key
  unfolding Lands item_value
  lands pre v key it scan hp has le =
      let (u, e, lacks, ne) = scan key has hp in
      (
        u,
        rw hp (ap key_value e ∙ key_value-append pre u lacks),
        e,
        ne,
        subst (Has it) e has,
        sym (bytes_le-append (pre ++ tab ∷ []) v u)
            ∙ ap (bytes_le ((pre ++ tab ∷ []) ++ v)) (sym e)
            ∙ le,
      )

  -- An item that gives an id has the prefix.
  pub gives-prefix : (p key : Bytes) → item_value p (some key) ≢ [] → has_prefix p key ≡ true
  unfolding item_value
  gives-prefix p key h = elim (Bool-cases (has_prefix p key)) [
    | inl e ↦ e
    | inr e ↦ absurd (h (rw e refl))
  ]

  found :
      (pre v : Bytes) (it : cur.Iter) (r : Option Bytes)
      → IsScan pre it
      → cur.item (cur.seek ((pre ++ tab ∷ []) ++ v) it) ≡ r
      → item_value (pre ++ tab ∷ []) r ≢ []
      → Has it ((pre ++ tab ∷ []) ++ item_value (pre ++ tab ∷ []) r)
        × (bytes_le v (item_value (pre ++ tab ∷ []) r) ≡ true)
  unfolding Lands
  found pre v it none scan e h = absurd (h (unfold item_value in refl))
  found pre v it (some key) scan e h =
      let (has, le) = laws.item-seek _ key it e in
      let (u, same, _, ne, there, above) =
        lands pre v key it scan (gives-prefix (pre ++ tab ∷ []) key h) has le in
      (rw same there, rw same above)

  nearest :
      (pre v u : Bytes) (it : cur.Iter)
      → IsScan pre it
      → Has it ((pre ++ tab ∷ []) ++ u)
      → bytes_le v u ≡ true
      → let w = item_value (pre ++ tab ∷ []) (cur.item (cur.seek ((pre ++ tab ∷ []) ++ v) it)) in
        (w ≢ []) × (bytes_le w u ≡ true)
  unfolding Lands
  nearest pre v u it scan has le =
      let p = pre ++ tab ∷ [] in
      let (key, e, below) = laws.least (p ++ v) (p ++ u) it has (bytes_le-append p v u ∙ le) in
      let (has', above) = laws.item-seek (p ++ v) key it e in
      let (w, same, at, ne, _, _) =
        lands pre v key it scan (between p v u key above below) has' above in
      rw (e, same)
        (ne, sym (bytes_le-append p w u) ∙ ap (λ k. bytes_le k (p ++ u)) (sym at) ∙ below)

  -- Seek gives an id only if there is a key with the constraint's prefix and that id, and it is not
  -- below the id given. If there is any such id, Seek gives one, and the least.
  pub seek-least :
      (pre v : Bytes) (c : Constraint cur)
      → c.prefix ≡ pre ++ tab ∷ []
      → IsScan pre c.iterator
      → ((seek cur v c).0 ≢ []
          → Has c.iterator ((pre ++ tab ∷ []) ++ (seek cur v c).0)
            × (bytes_le v (seek cur v c).0 ≡ true))
        × ((u : Bytes)
            → Has c.iterator ((pre ++ tab ∷ []) ++ u)
            → bytes_le v u ≡ true
            → ((seek cur v c).0 ≢ []) × (bytes_le (seek cur v c).0 u ≡ true))
  unfolding seek value
  seek-least pre v c e scan =
      rw e (found pre v c.iterator _ scan refl, λ u has le. nearest pre v u c.iterator scan has le)
