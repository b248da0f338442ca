-- ===== src/Lib.antt =====
-- Styx, an RDF database over the key-value store badger (the Go package of the repository's root). A
-- dataset is stored under a name; the quads of all datasets are indexed by their terms, so that the
-- database can be searched for the subgraphs that match a pattern.
--
-- The parts, from the ground up, and where they are modelled:
--
--   Base, Text, Strconv   the language and its library: tests on numbers, byte strings, the results of
--     fallible calls, and what the program uses of the packages strings and strconv. Go's strings are
--     lists of bytes, and a machine word is a natural number with its wrap-around written out.
--   Util      util.go and constants.go: assembleKey and the prefixes (Util/Keys), the permutations of a
--     triple (Util/Triples), fromUint64 (Util/Ids), escape and unescape (Util/Escape).
--   Badger    setSafe and deleteSafe of util.go, over the interface Database of badger's transactions.
--     The record Reads states what badger documents of them: reads see the transaction's own writes and
--     what has been committed, and only a read reports a missing key.
--   Dict      Go's maps, as association lists in any order.
--   Statement statement.go: the sources of a triple, and the value of an index entry.
--   Caches    caches.go: unaryCache and binaryCache, and their Commits. The abstract view of a cache is
--     the count that it stands for over the entries of its transaction (Caches/Unary/View and
--     Caches/Binary/View).
--   Index     set.go and delete.go: the rounds of Store.Set for one quad (add_triple) and deleteQuads
--     (remove_triple, delete_quads). The abstract view is a list of triples: Index/Spec says what
--     entries and binary counts the index of a list has, Index/Invariant and Index/Remove that the two
--     keep it, Index/Succeed that adding succeeds where the database takes the writes.
--   Term, Tags, Dictionary   the terms of go-rdfjs, tags.go, and the iriDictionary of dictionary.go:
--     getIRI, getValue, GetID, GetTerm. The table of IRIs that the maps and the entries stand for is
--     the view of Dictionary/View. Dictionary/Strings is the stringDictionary.
--   QuadStore store.go: memoryStore (QuadStore/Memory) and badgerStore (QuadStore/Encoding), and the
--     binary search of the package sort (QuadStore/Sort). badgerStore's List is in QuadStore/Scan.
--   Store     Store.Set, Store.Delete and Store.Get of set.go, delete.go and get.go, over interfaces of
--     the dictionary and of the quad store (Store), with what they rely on as laws (Store/RoundTrip).
--     Store/Listing has list.go.
--   Constraint   constraint.go: value, Next, Seek and getCount of one constraint, over an interface of
--     badger's iterators (Badger/Cursor), and Seek and Next of a constraintSet (Constraint/Set). What a
--     round of the search keeps is in Constraint/Agreement, the search in Constraint/Intersect.
--   JsonLd    the conversions of util.go from and to json-gold: fromLdNode, toLdNode, and so on up to
--     fromLdDataset and ToRDFDataset.
--   Assembly  assemble.go, and the insertions of iterator.go: newIterator up to the scores. A pointer to
--     a variable is its index, and the constraints are one list of entries. Assembly/Order has the sort
--     of the variables with Less, the relabelling, and the loop that deletes the backward edges: of a
--     variable it has the node, the score and the edges. Assembly/Dependencies has the maps in and out.
--   Iterator  query.go and iterator.go: tick (Iterator/Tick), next (Iterator/Advance), and the methods
--     Next, Seek, Index, Get, Domain, Graph and Collect (Iterator/Solutions). They stand on the record
--     Graph, an interface of the operations on a variable: Next, Seek, save, load and push.
--   Api       api/rpc.go (Api/Rpc): the five methods, Handle, and the end of a connection, over
--     interfaces of the decoders and of the store. Api/Rpc/Queries has Store.Query of styx.go and Close
--     of an iterator, as far as they begin and end transactions, and makes of them the interface of the
--     store. api/http.go (Api/Http): ServeHTTP, whose response is the list of its calls of the writer,
--     and whether it has panicked.
--   Tests     a concrete database and the theorems at concrete inputs.
--
-- A Go error is a value of Base.Error, and a call that may fail gives a Result; `panic` stands for the
-- run-time panics that the modelled code can reach. An error ends the modelled call, and the state it
-- leaves is given up, as the callers do. setSafe and deleteSafe return a transaction beside their
-- error, which unaryCache.Commit goes on with: their result is an Outcome.
--
-- Fuel: FormatUint's loop has 13 rounds, for 64 bits in digits of five bits (Strconv); sort.Search has
-- as many rounds as the slice has entries, and each round at least halves the rest (QuadStore/Sort).
-- The search of constraintSet.Seek has at most as many rounds as there are constraints, times one more
-- than they have values, and one: each round that does not count up moves to a greater value
-- (Constraint/Intersect). The loops and the recursion of tick and next, whose length the database
-- decides, have no bound of their own: a result out_of_fuel says that the fuel was not enough. All
-- other loops are structural, but for the one that reads n-quads in ServeHTTP, which has no round. A
-- call whose outcome the database decides is described where it returns no error.
--
-- Parameters: badger's transactions, its iterators and its sequence, the tag scheme's Parse (which
-- stands on net/url), the two datatype IRIs, the printer and the parser of go-rdfjs, what json-gold's
-- NewLiteral keeps, the decoders of the server's messages, and what it uses of net/http. One
-- transaction writes at a time. The fields of Iterator.Graph stand for variable.go and push of
-- query.go.
--
-- Not modelled: the arithmetic of the scores, which are float64s, the initial values of the
-- variables and the links between the constraints of a quad in newIterator, save, load and
-- push, Prov, the opening and closing of the database and of the dictionary, getDataset and
-- SetJSONLD, which call the JSON-LD processor, and api/main.go, whose work is input and output.
pub mod Api
pub mod Base
pub mod Text
pub mod Util
pub mod Strconv
pub mod Statement
pub mod Badger
pub mod Dict
pub mod Caches
pub mod QuadStore
pub mod Term
pub mod Tags
pub mod Index
pub mod Dictionary
pub mod Store
pub mod JsonLd
pub mod Assembly
pub mod Iterator
pub mod Constraint
pub mod Tests
