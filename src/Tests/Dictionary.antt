-- ===== src/Tests/Dictionary.antt =====
-- The theorems on the dictionary at concrete terms.
use mathlib.Core.Option.{some-injective}
use forty_six.Base.{
  ◌++◌, invalid_term, ℕ, suc, ◌≡◌, ◌∙◌, refl, sym, ap, subst, true, false, [], ◌∷◌, Option, none,
  some, Bytes, codes, arith, Result, ok, err, bytes_eq, All,
}
use forty_six.Util.Ids.{from_uint64}
use forty_six.Util.Ids.Decode.{IsBase64}
use forty_six.Badger.{set_safe}
use forty_six.Dict.{lookup, insert}
use forty_six.Term.{Term, named_node, blank_node}
use forty_six.Dictionary.{
  Sequence, IriDictionary, allocate, new_iri, stored_iri, cached_iri, get_iri,
}
use forty_six.Dictionary.View.{id_of, value_of, IsCoherent, IsFresh, Extends, get_iri-Extends}
use forty_six.Dictionary.Terms.{TagScheme, Datatypes, get_id}
use forty_six.Dictionary.RoundTrip.{Read, get_term-get_id}
use forty_six.Dictionary.Strings
use forty_six.Dictionary.Strings.{Syntax, angles, get_term-get_id_string}
use forty_six.Tests.Disk.{disk, disk-Reads, blank}

abbrev counting : Sequence
counting = record { Counter = ℕ; next = λ n. ok (n, suc n) }

abbrev opened : IriDictionary disk counting
opened = record {
  update = true;
  sequence = some 128;
  txn = (2, blank);
  values = ([], []) ∷ [];
  ids = ([], []) ∷ [];
}

only_empty :
    (value id : Bytes) → id_of disk counting opened value ≡ some id → (value ≡ []) × (id ≡ [])
unfolding id_of lookup bytes_eq
only_empty [] id h = (refl, sym (some-injective _ _ h))
only_empty (c ∷ value) id h = cc

opened-IsCoherent : IsCoherent disk counting opened
unfolding value_of lookup
opened-IsCoherent = record {
  back = λ value id h. let (v, i) = only_empty value id h in rw (v, i) (unfold bytes_eq in refl);
  plain = λ value id h. subst (All IsBase64) (sym (only_empty value id h).1) tt;
}

first_text : from_uint64 128 ≡ some (codes "AACA")
unfolding from_uint64
first_text = refl

same_id :
    (n : ℕ) (id : Bytes)
    → ◌≡◌ {A = Option ℕ} (some 128) (some n)
    → from_uint64 n ≡ some id
    → codes "AACA" ≡ id
same_id n id e t =
    some-injective _ _
      (sym first_text ∙ subst (λ m. from_uint64 m ≡ some id) (sym (some-injective _ _ e)) t)

opened-IsFresh : IsFresh disk counting opened
opened-IsFresh counter counter' n id c e t =
    subst (λ i. value_of disk counting opened i ≡ none)
      (same_id n id (c ∙ ap some (first_of counter n counter' e)) t)
      (unfold value_of lookup bytes_eq in refl)
  where
    first_of : (k n k' : ℕ) → ◌≡◌ {A = Result (ℕ × ℕ)} (ok (k, suc k)) (ok (n, k')) → k ≡ n
    first_of k n k' h = cc

abbrev Opened : Type 0
Opened = IriDictionary disk counting

abbrev state_of : Result (Bytes × Opened) → Opened
state_of (ok r) = r.1
state_of (err e) = opened

abbrev taken : Opened
taken = state_of (get_iri disk counting (codes "x") opened)

takes : get_iri disk counting (codes "x") opened ≡ ok (codes "AACA", taken)
unfolding get_iri cached_iri stored_iri new_iri allocate lookup insert bytes_eq from_uint64 set_safe
takes = refl

get_iri-Extends_example :
    Extends disk counting (codes "x") (codes "AACA") opened taken × IsCoherent disk counting taken
get_iri-Extends_example =
    get_iri-Extends disk disk-Reads counting (codes "x") (codes "AACA") opened taken
      opened-IsCoherent opened-IsFresh takes

abbrev no_tags : TagScheme
no_tags = record { test = λ uri. false; parse = λ uri. ([], []) }

abbrev datatypes : Datatypes
datatypes = record { xsd_string = codes "string"; lang_string = codes "langString" }

abbrev label : Bytes
label = codes "AACA#b0"

gives :
    get_id disk counting no_tags datatypes (blank_node (codes "b0")) (named_node (codes "x")) opened
    ≡ ok (label, taken)
unfolding get_id get_iri cached_iri stored_iri new_iri allocate lookup insert bytes_eq from_uint64
    set_safe
gives = refl

get_term-get_id_example :
    Read disk disk-Reads counting no_tags datatypes label
      (blank_node (codes "b0"))
      (named_node (codes "x"))
      taken
get_term-get_id_example =
    get_term-get_id disk disk-Reads counting no_tags datatypes (blank_node (codes "b0"))
      (named_node (codes "x")) opened taken label opened-IsCoherent opened-IsFresh
      (λ (e : codes "b0" ≡ []). cc, ground arith) gives

-- a syntax of named nodes alone
abbrev pub angle_print : Term → Bytes
angle_print (named_node v) = angles v
angle_print term = []

abbrev pub up_to_end : Bytes → Bytes
up_to_end [] = []
up_to_end (c ∷ []) = []
up_to_end (c ∷ d ∷ s) = c ∷ up_to_end (d ∷ s)

abbrev pub angle_parse : Bytes → Result Term
angle_parse [] = err invalid_term
angle_parse (c ∷ s) = ok (named_node (up_to_end s))

pub up_to_end-append : (s : Bytes) (c : ℕ) → up_to_end (s ++ c ∷ []) ≡ s
up_to_end-append [] c = refl
up_to_end-append (d ∷ []) c = refl
up_to_end-append (d ∷ d' ∷ s) c = ap (λ r. d ∷ r) (up_to_end-append (d' ∷ s) c)

abbrev pub angle_syntax : Syntax
angle_syntax = record {
  print = angle_print;
  parse = angle_parse;
  IsIri = λ s. Unit;
  parse-angles = λ s h. ap (λ r. ok (named_node r)) (up_to_end-append s b'>');
}

get_term-get_id_string_example :
    Strings.get_term angle_syntax
      (Strings.get_id angle_syntax (blank_node (codes "b0")) (named_node (codes "x")))
      (named_node (codes "x"))
    ≡ ok (blank_node (codes "b0"))
get_term-get_id_string_example =
    get_term-get_id_string angle_syntax (blank_node (codes "b0")) (named_node (codes "x"))
      (λ (e : codes "b0" ≡ []). cc, tt)
