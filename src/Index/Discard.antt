-- ===== src/Index/Discard.antt =====
-- Lists of sources and of triples with something taken out, for deleteQuads.
use forty_six.Base.{
  ℕ, ◌+◌, ◌≡◌, ◌∙◌, refl, Bool, true, false, List, [], ◌∷◌, ◌++◌, map, some, Bytes, bytes_eq,
  if◌then◌else◌, arith, ok, Bool-cases, inl, inr,
}
use forty_six.Util.Triples.{Triple}
use forty_six.Statement.{Statement, to_string}
use forty_six.Statement.Parse.{entry_value}
use forty_six.Index.{other_sources}
use forty_six.Index.Keys.{triple_eq}
use forty_six.Index.Step.{hits}
use forty_six.Index.Spec.{Once, contains, discard, touched, triple_eq_sound}

-- the sources of other datasets
unfoldable pub others : Bytes → List Statement → List Statement
others origin [] = []
others origin (x ∷ xs) =
    let rest = others origin xs in if bytes_eq x.base origin then rest else x ∷ rest

abbrev pub is_empty : List Statement → Bool
is_empty [] = true
is_empty (x ∷ xs) = false

pub other_sources-others :
    (origin : Bytes) (ss : List Statement)
    → other_sources origin (map some ss) ≡ ok (entry_value (others origin ss))
unfolding other_sources others entry_value
other_sources-others origin [] = refl
other_sources-others origin (x ∷ xs) = rw (other_sources-others origin xs) (ground arith)

pub discard-contained :
    (x : Triple Bytes) (ts : List (Triple Bytes)) (k : Bytes)
    → contains x ts ≡ true
    → touched ts k ≡ hits 0 x k + hits 1 x k + hits 2 x k + touched (discard x ts) k
unfolding contains discard touched
discard-contained x [] k h = ground arith
discard-contained x (y ∷ ts) k h = elim (Bool-cases (triple_eq y x)) [
  | inl e ↦ rw (e, triple_eq_sound y x e)
  | inr e ↦ ground (arith, e, h, discard-contained x ts k)
]

pub contains-discard :
    (x y : Triple Bytes) (ts : List (Triple Bytes))
    → Once ts
    → contains y (discard x ts) ≡ (if triple_eq x y then false else contains y ts)
unfolding contains discard
contains-discard x y [] h = ground arith
contains-discard x y (z ∷ ts) (hz, h) = ground (
  arith,
  hz,
  contains-discard x y ts h,
  triple_eq_sound z x,
  triple_eq_sound x y,
  triple_eq_sound z y,
)

pub discard-Once : (x : Triple Bytes) (ts : List (Triple Bytes)) → Once ts → Once (discard x ts)
unfolding discard
discard-Once x [] h = tt
discard-Once x (z ∷ ts) (hz, h) = elim (Bool-cases (triple_eq z x)) [
  | inl e ↦ rw e h
  | inr e ↦ rw e (contains-discard x z ts h ∙ ground (arith, hz, e), discard-Once x ts h)
]

first_byte :
    (base s rest : Bytes) (x : ℕ) → (a : ℕ) × (v : Bytes) × ((base ++ x ∷ s) ++ rest ≡ a ∷ v)
first_byte [] s rest x = (x, s ++ rest, refl)
first_byte (c ∷ base) s rest x = (c, (base ++ x ∷ s) ++ rest, refl)

-- No statement is written as the empty text.
pub entry_value_cons :
    (c : Statement) (rest : List Statement)
    → (a : ℕ) × (v : Bytes) × (entry_value (c ∷ rest) ≡ a ∷ v)
unfolding entry_value to_string
entry_value_cons c rest = first_byte c.base _ (entry_value rest) _

pub entry_value_nil : entry_value [] ≡ []
unfolding entry_value
entry_value_nil = refl
