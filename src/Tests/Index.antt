-- ===== src/Tests/Index.antt =====
-- The theorems on the index at a concrete triple.
use forty_six.Base.{
  zero, suc, ◌≡◌, refl, [], ◌∷◌, Bytes, codes, arith, Result, ok, err, if◌then◌else◌, bytes_eq,
}
use forty_six.Text.{split}
use forty_six.Util.Triples.{Triple, permute}
use forty_six.Util.Keys.{assemble_key}
use forty_six.Strconv.{format_uint, parse_uint}
use forty_six.Statement.{Statement, to_string, get_statements, parse_lines, parse_line, drop_last}
use forty_six.Statement.Parse.{IsStored, entry_value}
use forty_six.Badger.{set_safe, delete_safe}
use forty_six.Dict.{lookup, insert}
use forty_six.Caches.Unary
use forty_six.Caches.Binary.{delta}
use forty_six.Caches.Binary.View.{count}
use forty_six.Index.{
  ternary_key, Session, fresh, add_triple, add_permutation, add_entry, add_missing, remove_triple,
  remove_entry, other_sources, keep_sources, drop_triple, drop_permutation, after_drop,
}
use forty_six.Index.Keys.{IsPlainTriple}
use forty_six.Index.Spec.{contains, add, discard, touched, Holds}
use forty_six.Caches.Succeed.{HasCounts}
use forty_six.Caches.Unary.View.{counts}
use forty_six.Index.Succeed.{TakesWrites, add_triple_succeeds}
use forty_six.Index.Invariant.{add_triple-Holds}
use forty_six.Index.Discard.{is_empty, others}
use forty_six.Index.Remove.{remaining, remove_triple-Holds}
use forty_six.Tests.Disk.{disk, disk-Reads, blank}

abbrev terms : Triple Bytes
terms = record { subject = codes "AAAB"; predicate = codes "AAAC"; object = codes "AAAD" }

terms-IsPlainTriple : IsPlainTriple terms
terms-IsPlainTriple = record {
  subject = ground arith;
  predicate = ground arith;
  object = ground arith;
}

abbrev start : Session disk
start = fresh disk (2, blank)

start-Holds : Holds disk [] start
start-Holds = record {
  once = tt;
  entries = λ p y hp hy. unfold contains in refl;
  pairs = λ q a c. unfold count lookup touched in refl;
}

abbrev statement : Statement
statement = record { base = codes "AAAE"; index = 0; graph = [] }

abbrev state_of : Result (Session disk) → Session disk
state_of (ok s) = s
state_of (err e) = start

abbrev added : Session disk
added = state_of (add_triple disk terms statement start)

adds : add_triple disk terms statement start ≡ ok added
unfolding add_triple add_permutation add_entry add_missing permute delta Unary.increment
    Unary.get_index lookup insert set_safe to_string bytes_eq assemble_key
adds = refl

added-Holds : Holds disk (add terms []) added
added-Holds =
    add_triple-Holds disk disk-Reads terms statement [] start added terms-IsPlainTriple
      (omega arith) start-Holds adds

add_triple-Holds_example : Holds disk (add terms []) added
add_triple-Holds_example =
    add_triple-Holds disk disk-Reads terms statement [] start added terms-IsPlainTriple
      (omega arith) start-Holds adds

statement-IsStored : IsStored statement
statement-IsStored = record { base = ground arith; graph = tt; index = omega arith }

abbrev removed : Session disk
removed = state_of (remove_triple disk (codes "AAAE") terms added)

-- the entry that is there
written : disk.get added.txn (ternary_key 0 terms) ≡ ok (entry_value (statement ∷ []))
unfolding add_triple add_permutation add_entry add_missing permute delta Unary.increment
    Unary.get_index lookup insert set_safe to_string bytes_eq assemble_key entry_value format_uint
written = refl

removes : remove_triple disk (codes "AAAE") terms added ≡ ok removed
unfolding add_triple add_permutation add_entry add_missing permute delta Unary.increment
    Unary.decrement Unary.get_index lookup insert set_safe to_string bytes_eq assemble_key
    remove_triple remove_entry get_statements parse_lines parse_line drop_last split parse_uint
    other_sources keep_sources drop_triple drop_permutation after_drop delete_safe format_uint
removes = refl

remove_triple-Holds_example :
    Holds disk
      (if is_empty (others (codes "AAAE") (statement ∷ []))
        then discard terms (add terms [])
        else add terms [])
      removed
    × (disk.get removed.txn (ternary_key 0 terms)
        ≡ remaining disk disk-Reads (others (codes "AAAE") (statement ∷ [])))
remove_triple-Holds_example =
    remove_triple-Holds disk disk-Reads (codes "AAAE") terms (statement ∷ []) (add terms []) added
      removed terms-IsPlainTriple (statement-IsStored, tt) added-Holds written removes

disk_takes : TakesWrites disk
unfolding set_safe
disk_takes k v (zero, m) = ((1, λ j. if bytes_eq k j then ok v else m j), refl)
disk_takes k v (suc n, m) = ((n, λ j. if bytes_eq k j then ok v else m j), refl)

start-HasCounts : HasCounts disk start.unary start.txn
unfolding counts lookup
start-HasCounts a = (Unary.zeros, refl)

add_triple_succeeds_example :
    (s' : Session disk) × (add_triple disk terms statement start ≡ ok s')
    × Holds disk (add terms []) s'
    × HasCounts disk s'.unary s'.txn
add_triple_succeeds_example =
    add_triple_succeeds disk disk-Reads disk_takes terms statement [] start terms-IsPlainTriple
      (omega arith) start-Holds start-HasCounts
