-- ===== src/Index/Invariant.antt =====
-- Store.Set keeps the index that of a list of triples.
use forty_six.Base.{
  ℕ, zero, suc, ◌+◌, ◌^◌, ◌<◌, ◌≡◌, ◌∙◌, refl, sym, ap, Bool, true, List, Bytes, if◌then◌else◌,
  arith, ok, Bool-cases, inl, inr, length,
}
use forty_six.Util.Triples.{Triple}
use forty_six.Statement.{Statement}
use forty_six.Badger.{Database, Reads}
use forty_six.Caches.Binary.{binary_key}
use forty_six.Caches.Binary.View.{count}
use forty_six.Index.{ternary_key, Session, add_triple}
use forty_six.Index.Keys.{IsPlainTriple, triple_eq, ternary-ne-ternary, ternary_key-eq}
use forty_six.Index.Step.{hits, hits_le}
use forty_six.Index.Spec.{found, Once, contains, add, touched, touched_le, Holds, triple_eq_sound}
use forty_six.Index.Add.{Rounds, add_triple-Rounds}

contains-add :
    (x y : Triple Bytes) (ts : List (Triple Bytes))
    → contains y (add x ts) ≡ (if triple_eq x y then true else contains y ts)
unfolding contains
contains-add x y ts = elim (Bool-cases (triple_eq x y)) [
  | inl e ↦ elim (Bool-cases (contains x ts)) [
    | inl q ↦ rw (q, e, sym (triple_eq_sound x y e)) q
    | inr q ↦ rw (q, e) refl
  ]
  | inr e ↦ ground (arith, e)
]

add-Once : (x : Triple Bytes) (ts : List (Triple Bytes)) → Once ts → Once (add x ts)
add-Once x ts h = elim (Bool-cases (contains x ts)) [ inl q ↦ rw q h | inr q ↦ rw q (q, h) ]

touched-add :
    (x : Triple Bytes) (k : Bytes) (ts : List (Triple Bytes))
    → touched (add x ts) k
      ≡ (if contains x ts then 0 else hits 2 x k)
        + ((if contains x ts then 0 else hits 1 x k)
            + ((if contains x ts then 0 else hits 0 x k) + touched ts k))
unfolding touched
touched-add x k ts = ground arith

module _ (b : Database) (laws : Reads b) where
  Rounds-entries :
      (x y : Triple Bytes) (there : Bool) (s s' : Session b) (p : ℕ)
      → Rounds b laws x there s s'
      → p < 3
      → IsPlainTriple x
      → IsPlainTriple y
      → found (b.get s'.txn (ternary_key p y))
        ≡ (if triple_eq x y then ok true else found (b.get s.txn (ternary_key p y)))
  unfolding Rounds
  Rounds-entries x y there s s' zero (s₁, s₂, t₁, t₂, t₃) hp hx hy = ground (
    arith,
    t₁.entries (ternary_key 0 y),
    t₂.entries (ternary_key 0 y),
    t₃.entries (ternary_key 0 y),
    ternary_key-eq 0 x y hp hx hy,
    ternary-ne-ternary x y 1 0,
    ternary-ne-ternary x y 2 0,
  )
  Rounds-entries x y there s s' (suc zero) (s₁, s₂, t₁, t₂, t₃) hp hx hy = ground (
    arith,
    t₁.entries (ternary_key 1 y),
    t₂.entries (ternary_key 1 y),
    t₃.entries (ternary_key 1 y),
    ternary_key-eq 1 x y hp hx hy,
    ternary-ne-ternary x y 0 1,
    ternary-ne-ternary x y 2 1,
  )
  Rounds-entries x y there s s' (suc (suc zero)) (s₁, s₂, t₁, t₂, t₃) hp hx hy = ground (
    arith,
    t₁.entries (ternary_key 2 y),
    t₂.entries (ternary_key 2 y),
    t₃.entries (ternary_key 2 y),
    ternary_key-eq 2 x y hp hx hy,
    ternary-ne-ternary x y 0 2,
    ternary-ne-ternary x y 1 2,
  )
  Rounds-entries x y there s s' (suc (suc (suc p))) r hp hx hy = absurd (omega arith)

  Rounds-pairs :
      (x : Triple Bytes) (there : Bool) (s s' : Session b) (q : ℕ) (a c : Bytes) (n : ℕ)
      → Rounds b laws x there s s'
      → n + 6 < 2 ^ 32
      → count b s.binary s.txn (binary_key q a c) ≡ ok n
      → let k = binary_key q a c in
        count b s'.binary s'.txn k
        ≡ ok (
            (if there then 0 else hits 2 x k)
            + ((if there then 0 else hits 1 x k) + ((if there then 0 else hits 0 x k) + n)))
  unfolding Rounds
  Rounds-pairs x there s s' q a c n (s₁, s₂, t₁, t₂, t₃) room hn =
      let k = binary_key q a c in
      let m = (if there then 0 else hits 0 x k) + n in
      let m' = (if there then 0 else hits 1 x k) + m in
      t₃.pairs q a c m' (ground (arith, hits_le 0 x k, hits_le 1 x k))
        (t₂.pairs q a c m (ground (arith, hits_le 0 x k)) (t₁.pairs q a c n (omega arith) hn))

  -- Where the index of a list of triples stands in the transaction and the caches, a quad's round of
  -- the loop of Store.Set that returns no error leaves the index of the list with its triple added:
  -- the same list if the triple was there. The ids of the triple have no tab in them, and the list
  -- has fewer than 2^29 triples, so that no count overflows.
  pub add_triple-Holds :
      (x : Triple Bytes) (source : Statement) (ts : List (Triple Bytes)) (s s' : Session b)
      → IsPlainTriple x
      → length ts < 2 ^ 29
      → Holds b ts s
      → add_triple b x source s ≡ ok s'
      → Holds b (add x ts) s'
  add_triple-Holds x source ts s s' hx room h e =
      let r =
        add_triple-Rounds b laws x source (contains x ts) s s' (λ p hp. h.entries p x hp hx) e in
      record {
        once = add-Once x ts h.once;
        entries = λ p y hp hy.
            Rounds-entries x y (contains x ts) s s' p r hp hx hy
            ∙ ground (arith, contains-add x y ts, h.entries p y hp hy);
        pairs = λ q a c.
            let k = binary_key q a c in
            Rounds-pairs x (contains x ts) s s' q a c (touched ts k) r
              (omega (arith, touched_le ts k)) (h.pairs q a c)
            ∙ ap ok (sym (touched-add x k ts));
      }
