-- ===== src/Index/Remove.antt =====
-- deleteQuads keeps the index that of a list of triples.
use forty_six.Base.{
  ok-injective, ℕ, zero, suc, ◌<◌, ◌≡◌, ◌∙◌, refl, sym, ap, subst, true, false, List, [], ◌∷◌,
  Bytes, bytes_eq, bytes_eq_iff, bytes_eq_self, if◌then◌else◌, arith, key_not_found, Result, ok,
  err, >>=-eq-ok, All,
}
use forty_six.Util.Triples.{Triple}
use forty_six.Statement.{Statement}
use forty_six.Statement.Parse.{IsStored, entry_value, get_statements-entry_value}
use forty_six.Badger.{Database, Reads, set_safe, done}
use forty_six.Badger.Safe.{get-set_safe}
use forty_six.Caches.Binary.{binary_key}
use forty_six.Index.{
  ternary_key, result, Session, keep_sources, remove_entry, remove_triple, drop_triple,
}
use forty_six.Index.Keys.{
  IsPlainTriple, triple_eq, triple_eq_self, ternary-ne-binary, ternary-ne-ternary, ternary_key-eq,
}
use forty_six.Index.Step.{count-txn, result-done}
use forty_six.Index.Spec.{found, contains, discard, Holds}
use forty_six.Index.Drop.{Shrinks, drops-hits, drop_triple-Shrinks}
use forty_six.Index.Discard.{
  others, is_empty, other_sources-others, discard-contained, contains-discard, discard-Once,
  entry_value_cons, entry_value_nil,
}

module _ (b : Database) (laws : Reads b) where
  gone-entries :
      (x y : Triple Bytes) (s s₁ s₂ s' : Session b) (p : ℕ)
      → Shrinks b laws 0 x s s₁
      → Shrinks b laws 1 x s₁ s₂
      → Shrinks b laws 2 x s₂ s'
      → p < 3
      → IsPlainTriple x
      → IsPlainTriple y
      → b.get s'.txn (ternary_key p y)
        ≡ (if triple_eq x y then err key_not_found else b.get s.txn (ternary_key p y))
  gone-entries x y s s₁ s₂ s' zero t₁ t₂ t₃ hp hx hy = ground (
    arith,
    t₁.entries (ternary_key 0 y),
    t₂.entries (ternary_key 0 y),
    t₃.entries (ternary_key 0 y),
    ternary_key-eq 0 x y hp hx hy,
    ternary-ne-ternary x y 1 0,
    ternary-ne-ternary x y 2 0,
  )
  gone-entries x y s s₁ s₂ s' (suc zero) t₁ t₂ t₃ hp hx hy = ground (
    arith,
    t₁.entries (ternary_key 1 y),
    t₂.entries (ternary_key 1 y),
    t₃.entries (ternary_key 1 y),
    ternary_key-eq 1 x y hp hx hy,
    ternary-ne-ternary x y 0 1,
    ternary-ne-ternary x y 2 1,
  )
  gone-entries x y s s₁ s₂ s' (suc (suc zero)) t₁ t₂ t₃ hp hx hy = ground (
    arith,
    t₁.entries (ternary_key 2 y),
    t₂.entries (ternary_key 2 y),
    t₃.entries (ternary_key 2 y),
    ternary_key-eq 2 x y hp hx hy,
    ternary-ne-ternary x y 0 2,
    ternary-ne-ternary x y 1 2,
  )
  gone-entries x y s s₁ s₂ s' (suc (suc (suc p))) t₁ t₂ t₃ hp hx hy = absurd (omega arith)

  drop_triple-Holds :
      (x : Triple Bytes) (ts : List (Triple Bytes)) (s s' : Session b)
      → IsPlainTriple x
      → contains x ts ≡ true
      → Holds b ts s
      → drop_triple b x s ≡ ok s'
      → Holds b (discard x ts) s' × (b.get s'.txn (ternary_key 0 x) ≡ err key_not_found)
  drop_triple-Holds x ts s s' hx has h e =
      let (s₁, s₂, t₁, t₂, t₃) = drop_triple-Shrinks b laws x s s' e in
      let read = gone-entries x x s s₁ s₂ s' 0 t₁ t₂ t₃ (omega arith) hx hx in
      (
        record {
          once = discard-Once x ts h.once;
          entries = λ p y hp hy. ground (
            arith,
            gone-entries x y s s₁ s₂ s' p t₁ t₂ t₃ hp hx hy,
            contains-discard x y ts h.once,
            h.entries p y hp hy,
          );
          pairs = λ q a c.
              let k = binary_key q a c in
              t₃.pairs q a c _ (t₂.pairs q a c _ (t₁.pairs q a c _ (h.pairs q a c)))
              ∙ ap ok (omega (arith, discard-contained x ts k has, drops-hits x k));
        },
        read ∙ rw (triple_eq_self x) refl,
      )

  rewrite-Holds :
      (x : Triple Bytes) (val : Bytes) (ts : List (Triple Bytes)) (s : Session b) (t : b.Txn)
      → IsPlainTriple x
      → contains x ts ≡ true
      → Holds b ts s
      → set_safe b (ternary_key 0 x) val s.txn ≡ done t
      → Holds b ts (record s { txn = t }) × (b.get t (ternary_key 0 x) ≡ ok val)
  rewrite-Holds x val ts s t hx has h w =
      let read : (j : Bytes)
          → b.get t j ≡ (if bytes_eq (ternary_key 0 x) j then ok val else b.get s.txn j) =
        λ j. get-set_safe b laws s.txn t (ternary_key 0 x) val j w in
      (
        record {
          once = h.once;
          entries = λ p y hp hy. ground (
            arith,
            read (ternary_key p y),
            bytes_eq_iff (ternary_key 0 x) (ternary_key p y),
            h.entries p y hp hy,
            h.entries 0 x (omega arith) hx,
            has,
          );
          pairs = λ q a c.
              count-txn b s.binary s.txn t (binary_key q a c)
                (read (binary_key q a c) ∙ rw (ternary-ne-binary x x 0 q a c (omega arith)))
              ∙ h.pairs q a c;
        },
        read (ternary_key 0 x) ∙ rw bytes_eq_self refl,
      )

  -- The value that the statements which stay are stored as: an entry with none is deleted.
  abbrev pub remaining : List Statement → Result Bytes
  remaining rest = if is_empty rest then err key_not_found else ok (entry_value rest)

  keep_sources-Holds :
      (x : Triple Bytes) (rest : List Statement) (ts : List (Triple Bytes)) (s s' : Session b)
      → IsPlainTriple x
      → contains x ts ≡ true
      → Holds b ts s
      → keep_sources b x (entry_value rest) s ≡ ok s'
      → Holds b (if is_empty rest then discard x ts else ts) s'
        × (b.get s'.txn (ternary_key 0 x) ≡ remaining rest)
  unfolding keep_sources
  keep_sources-Holds x [] ts s s' hx has h e =
      drop_triple-Holds x ts s s' hx has h (rw entry_value_nil at e)
  keep_sources-Holds x (c ∷ rest) ts s s' hx has h e =
      let (a, v, q) = entry_value_cons c rest in
      let (t, w, k) =
        >>=-eq-ok (result (set_safe b (ternary_key 0 x) (a ∷ v) s.txn)) _ (rw q at e) in
      let (holds, read) = rewrite-Holds x (a ∷ v) ts s t hx has h (result-done _ t w) in
      subst
        (λ (s : Session b).
          Holds b ts s × (b.get s.txn (ternary_key 0 x) ≡ ok (entry_value (c ∷ rest))))
        (ok-injective _ s' k) (holds, read ∙ ap ok (sym q))

  -- Where the index of a list of triples stands in the transaction and the caches, and a triple's
  -- entry has a list of statements, the triple's round of deleteQuads that returns no error leaves
  -- the statements of other datasets in the entry and the index as it was, or, where there are none,
  -- deletes the entry and leaves the index of the list without the triple. The ids of the triple have
  -- no tab in them, and no id of a statement a tab or a newline.
  pub remove_triple-Holds :
      (origin : Bytes) (x : Triple Bytes) (ss : List Statement) (ts : List (Triple Bytes))
      (s s' : Session b)
      → IsPlainTriple x
      → All IsStored ss
      → Holds b ts s
      → b.get s.txn (ternary_key 0 x) ≡ ok (entry_value ss)
      → remove_triple b origin x s ≡ ok s'
      → Holds b (if is_empty (others origin ss) then discard x ts else ts) s'
        × (b.get s'.txn (ternary_key 0 x) ≡ remaining (others origin ss))
  unfolding remove_triple remove_entry
  remove_triple-Holds origin x ss ts s s' hx hs h e k =
      let has : contains x ts ≡ true =
        ok-injective _ _ (sym (h.entries 0 x (omega arith) hx) ∙ rw e refl) in
      keep_sources-Holds x (others origin ss) ts s s' hx has h
        (rw (e, get_statements-entry_value ss hs, other_sources-others origin ss) at k)

  -- A round of deleteQuads for a triple that the index does not have changes nothing.
  pub remove_triple_missing :
      (origin : Bytes) (x : Triple Bytes) (ts : List (Triple Bytes)) (s : Session b)
      → IsPlainTriple x
      → Holds b ts s
      → contains x ts ≡ false
      → remove_triple b origin x s ≡ ok s
  unfolding remove_triple remove_entry
  remove_triple_missing origin x ts s hx h absent =
      missing (b.get s.txn (ternary_key 0 x)) (h.entries 0 x (omega arith) hx ∙ ap ok absent)
    where
      missing : (r : Result Bytes) → found r ≡ ok false → remove_entry b origin x r s ≡ ok s
      missing (err key_not_found) f = refl
      missing (err _) f = cc
      missing (ok v) f = ground (arith, f)
