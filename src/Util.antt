-- ===== src/Util.antt =====
-- util.go and the key prefixes of constants.go: index keys, permutations of a triple, base64 ids and
-- the escaping of literals. util.go's conversions to and from JSON-LD are in JsonLd.
pub mod Keys
pub mod Triples
pub mod Ids
pub mod Escape
