-- ===== src/Tests/Search.antt =====
-- The search over three variables with two values each, of which variable 2 depends on variable 1.
use forty_six.Base.{
  ℕ, zero, suc, ◌+◌, ◌<◌, ◌≡◌, ◌⊎◌, refl, Bool, true, false, List, [], ◌∷◌, none, some, Bytes,
  codes, bytes_eq, ok,
}
use forty_six.Term.{named_node, value}
use forty_six.Iterator.{Graph, Machine, Delta, update, no_delta}
use forty_six.Iterator.Outcome.{Outcome, done}
use forty_six.Iterator.Tick.{tick, walk, crawl, hand_over, keep_pushed}
use forty_six.Iterator.Advance.{advance, spread}
use forty_six.Iterator.Promises.{Promise, tick-Promise}
use forty_six.Iterator.Tail.{advance_tail}
use forty_six.Iterator.Solutions.{
  Words, Iterator, next, index, seek, seek_from, seek_rooted, seek_value, first_root, push_cache,
  reset, word_ids,
}
use forty_six.Iterator.Flags.{IsOver, next-IsOver, next-seek}

abbrev value_of : ℕ → Bytes
value_of zero = codes "a"
value_of (suc zero) = codes "b"
value_of (suc (suc n)) = []

abbrev depends : ℕ → List ℕ
depends zero = []
depends (suc zero) = []
depends (suc (suc n)) = 1 ∷ []

abbrev pushes : ℕ → List ℕ
pushes zero = []
pushes (suc zero) = 2 ∷ []
pushes (suc (suc n)) = []

-- the state is the position of each variable in its values
abbrev graph : Graph
graph = record {
  State = ℕ → ℕ;
  Saved = ℕ;
  size = 3;
  ins = depends;
  outs = pushes;
  value = λ i s. value_of (s i);
  root = λ i s. codes "a";
  next = λ i s. update i (s i + 1) s;
  seek = λ i v s. update i 0 s;
  set_value = λ i v s. update i 0 s;
  save = λ i s. s i;
  saved_value = λ saved. value_of saved;
  load = λ i saved s. update i saved s;
  push = λ i min max s. ok s;
}

abbrev begin : Machine graph
begin = record { graph = λ i. 0; blacklist = λ i. false }

abbrev result_of : Outcome (Bool × Delta graph × Machine graph) → Bool × Delta graph × Machine graph
result_of (done r) = r
result_of _ = (false, no_delta graph, begin)

abbrev ticked : Bool × Delta graph × Machine graph
ticked = result_of (tick graph 3 2 0 (no_delta graph) begin)

tick_done : tick graph 3 2 0 (no_delta graph) begin ≡ done (true, ticked.1, ticked.2)
unfolding tick walk crawl hand_over keep_pushed bytes_eq
tick_done = refl

tick-Promise_example : Promise graph (no_delta graph) begin (true, ticked.1, ticked.2)
tick-Promise_example =
    tick-Promise graph 3 2 0 (no_delta graph) ticked.1 begin ticked.2 true tick_done

abbrev position_of : Outcome (ℕ × Delta graph × Machine graph) → ℕ × Delta graph × Machine graph
position_of (done r) = r
position_of _ = (0, no_delta graph, begin)

abbrev advanced : ℕ × Delta graph × Machine graph
advanced = position_of (advance graph (tick graph 3) 3 3 (no_delta graph) begin)

advance_done :
    advance graph (tick graph 3) 3 3 (no_delta graph) begin ≡ done (2, advanced.1, advanced.2)
unfolding advance spread bytes_eq
advance_done = refl

advance_tail_example :
    (advanced.2.blacklist ≡ begin.blacklist)
    × ((◌≡◌ {A = ℕ} 2 3) ⊎ ((2 < 3) × (advanced.1 ≡ no_delta graph)))
    × ((advanced.1 ≡ no_delta graph) ⊎ (advanced.1 ≡ no_delta graph))
advance_tail_example =
    advance_tail graph 3 3 3 2 (no_delta graph) advanced.1 begin advanced.2 (λ i. refl) advance_done

abbrev words : Words
words = record { term = λ v. some (named_node v); id = λ t. ok (value t); text = value }

abbrev iterator : Iterator graph words
iterator = record {
  query = [];
  domain = named_node (codes "x") ∷ named_node (codes "y") ∷ named_node (codes "z") ∷ [];
  pivot = 3;
  bot = true;
  top = false;
  empty = false;
  ids = [];
  cache = no_delta graph;
  machine = begin;
}

-- the iterator behind its last solution
abbrev spent : Iterator graph words
spent = record iterator { top = true; bot = false }

next-IsOver_example : IsOver graph words spent
next-IsOver_example = next-IsOver graph words 0 spent spent spent_done
  where
    spent_done : next graph words 0 none spent ≡ done (none, spent)
    spent_done = unfold next in refl

abbrev iterator_of : Outcome (Iterator graph words) → Iterator graph words
iterator_of (done it) = it
iterator_of _ = spent

abbrev sought : Iterator graph words
sought = iterator_of (seek graph words 3 [] spent)

seek_done : seek graph words 3 [] spent ≡ done sought
unfolding seek seek_from seek_rooted seek_value first_root push_cache reset word_ids bytes_eq
seek_done = refl

next-seek_example :
    next graph words 3 none sought
    ≡ done (some (index graph words sought), record sought { bot = false })
next-seek_example = next-seek graph words 3 3 [] none spent sought refl seek_done
