-- ===== src/Dictionary/Parts.antt =====
-- The parts of an id: a literal's text is found behind its quotes, and the id of an IRI in front of a
-- hash or a question mark.
use mathlib.Core.Option.{some-injective}
use forty_six.Base.{
  ℕ, suc, ◌≡◌, ◌≢◌, refl, ap, false, [], ◌∷◌, ◌++◌, Option, none, some, Bytes, bytes_eq,
  bytes_eq_iff, length, take, drop, All, All-map, Lacks, arith, Result, ok, err, append_assoc,
}
use forty_six.Util.Ids.Decode.{IsBase64}
use forty_six.Util.Escape.{escape, quote}
use forty_six.Util.Escape.Table.{spell, escape_byte, escape-spell}
use forty_six.Badger.{Database}
use forty_six.Tags.{hash}
use forty_six.Dict.{lookup}
use forty_six.Dictionary.{
  Sequence, IriDictionary, id_key, remember, get_value, cached_value, stored_value,
}
use forty_six.Dictionary.View.{known, value_of}
use forty_six.Dictionary.Terms.{query, push, scan, match_literal}

-- The scan passes an escaped byte in front of a text that is not empty.
scan-escape_byte :
    (c : ℕ) (u : Bytes) → u ≢ [] → scan (escape_byte c ++ u) ≡ push (escape_byte c) (scan u)
unfolding scan
scan-escape_byte c [] h = absurd (h refl)
scan-escape_byte c (x ∷ s) h = ground arith

append-ne-nil : (s t : Bytes) (x : ℕ) → s ++ x ∷ t ≢ []
append-ne-nil [] t x = cc
append-ne-nil (c ∷ s) t x = cc

scan-quote : (rest : Bytes) → scan (quote ∷ rest) ≡ some ([], rest)
unfolding scan
scan-quote [] = refl
scan-quote (c ∷ rest) = refl

scan-spell :
    (s rest : Bytes) → scan (spell escape_byte s ++ quote ∷ rest) ≡ some (spell escape_byte s, rest)
unfolding spell
scan-spell [] rest = scan-quote rest
scan-spell (c ∷ s) rest = rw (
  append_assoc,
  scan-escape_byte c (spell escape_byte s ++ quote ∷ rest) (append-ne-nil _ rest quote),
  scan-spell s rest,
)

-- The id of a literal begins with its escaped text in quotes.
pub match_literal-quoted :
    (s rest : Bytes)
    → match_literal (quote ∷ ((escape s ++ quote ∷ []) ++ rest)) ≡ some (escape s, rest)
unfolding match_literal
match_literal-quoted s rest = rw (append_assoc, escape-spell) (scan-spell s rest)

pub bytes_ne : (s t : Bytes) → s ≢ t → bytes_eq s t ≡ false
bytes_ne s t h = ground (arith, bytes_eq_iff s t)

pub take-length : (s t : Bytes) → take (length s) (s ++ t) ≡ s
take-length [] t = refl
take-length (c ∷ s) t = ap (λ r. c ∷ r) (take-length s t)

pub drop-length : (s t : Bytes) (c : ℕ) → drop (suc (length s)) (s ++ c ∷ t) ≡ t
drop-length [] t c = refl
drop-length (d ∷ s) t c = drop-length s t c

pub no_hash : (id : Bytes) → All IsBase64 id → Lacks hash id
no_hash id = All-map id (λ c h. ground arith)

pub no_query : (id : Bytes) → All IsBase64 id → Lacks query id
no_query id = All-map id (λ c h. ground arith)

pub match_literal-id : (id : Bytes) → All IsBase64 id → match_literal id ≡ none
unfolding match_literal
match_literal-id [] h = refl
match_literal-id (c ∷ id) (hc, h) = ground arith

pub match_literal-part :
    (id s : Bytes) (x : ℕ) → All IsBase64 id → x ≢ quote → match_literal (id ++ x ∷ s) ≡ none
unfolding match_literal
match_literal-part [] s x h hx = ground arith
match_literal-part (c ∷ id) s x (hc, h) hx = ground arith

module _ (b : Database) (q : Sequence) where
  pub get_value-value_of :
      (id value : Bytes) (d : IriDictionary b q)
      → value_of b q d id ≡ some value
      → (d' : IriDictionary b q) × (get_value b q id d ≡ ok (value, d'))
  unfolding value_of get_value cached_value stored_value
  get_value-value_of id value d h = cases (lookup id d.values) h
    where
      from_entry :
          (r : Result Bytes)
          → known none r ≡ some value
          → (d' : IriDictionary b q) × (stored_value b q id r d ≡ ok (value, d'))
      from_entry (ok v) k =
          (remember b q id value d, ap (λ v. ok (v, remember b q id v d)) (some-injective _ _ k))
      from_entry (err e) k = cc

      cases :
          (r : Option Bytes)
          → known r (b.get d.txn (id_key id)) ≡ some value
          → (d' : IriDictionary b q) × (cached_value b q id r d ≡ ok (value, d'))
      cases (some v) k = (d, ap (λ v. ok (v, d)) (some-injective _ _ k))
      cases none k = from_entry (b.get d.txn (id_key id)) k
