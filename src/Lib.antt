-- ===== src/Lib.antt =====
-- A verification library for the commit store and the batch engine of Coln.
--
-- THE PROGRAM. The store (packages/coln-store) keeps rows that are added by commits. A commit is a payload
-- behind a framed header with its content hash; commits form a graph by their parents, and its tips are the
-- heads that a new transaction builds on. Operations name rows by the commit that added them. On the wire a
-- commit writes each such hash once, in a dictionary; in memory a packer interns them, with a snapshot that
-- can be rolled back. The batch engine (packages/coln-batch) answers conjunctive queries over Z-sets: rows
-- of 64-bit keys with weights. A catalog checks and prepares a query, and an executor runs it.
--
-- THE FILES. Value: packages/coln-store/src/value.rs, op.rs and the wire types of table/cell.rs.
-- Commit/Hash: commit/hash.rs. Commit/HashDict and Commit/HashDict/Wire: commit/hash_dict.rs, `HashMapper`
-- and its wire form. Commit/Codec: commit/utils.rs and commit/error.rs. Commit/Leb128: commit/leb128.rs.
-- Commit/Chunk: commit/chunk.rs, `Chunk` and `Header`. Ir: the schemas of
-- packages/coln-flir-rs/src/ir/mod.rs. Commit/Wire: the payload of a commit, from its cells up:
-- Commit/Wire/PrimValue is commit/wire/prim.rs, and Columns, Group, Body and Payload beside it are
-- commit/wire/data.rs; Commit/Wire/Libraries holds the crates that they call. Commit/Record: the record
-- `Commit` of commit/mod.rs with its constructors and readers. Store: the first two loops of `apply_commits`
-- of store/mod.rs. Commit/Graph: commit/graph.rs, `CommitGraph`. Pack:
-- pack/id_packer.rs, the packed types of pack/mod.rs and `unpack_row_view` of table/handle.rs. Txn: txn/id.rs and `collect_op_hashes` of
-- commit/mod.rs. Batch/Types, Batch/Relation, Batch/Relation/Rows, Batch/Table, Batch/Query,
-- Batch/Reference, Batch/BinaryJoin: types.rs, relation.rs, table.rs, query.rs, reference.rs and
-- binary_join.rs of packages/coln-batch/src. The files below each of these hold its theorems. Prelude holds
-- what they share: tests, lists, maps, sets, integers, sorting, panics and the invariant of interners.
-- Examples holds concrete runs.
--
-- THE CORRESPONDENCE. Functions keep their names. What the source mutates is an argument and a part of the
-- result; a `pos: &mut usize` is a position in and a position out. `Parsed` has the three ends of a reader:
-- a value, an error, a panic; `Outcome` has a value or a panic, for code without errors. Integers are
-- natural numbers with the wrap-around or the check of the source written out; a `usize` has 64 bits. A
-- `HashMap` is an association list, a `BTreeSet` a sorted list. `debug_assert!` and
-- `debug_assert_eq!` count as assertions. `sort_unstable_by` is a stable sort here: equal rows may come in
-- another order in the source, which can decide whether the sum of their weights overflows on the way.
-- Readers that reserve a vector for a count that they have just read do so without the failure of
-- `Vec::with_capacity` on huge counts; here only the loop after it runs.
--
-- PARAMETERS. The hash function BLAKE3, of which the round trips need only that a hash has 32 bytes; the
-- writers of the leb128 crate, of which they need that they write the LEB128 forms (Commit/Leb128/Format
-- and Signed); the columns of the hexane crate, its `lebsize`, the signed reader of the leb128 crate and
-- UTF-8, of which they need that what was written is read back (`Faithful` of Commit/Wire/Libraries); the
-- JSON of a root payload. The tables of a store are two lookups, by position and by path. An error has the
-- fixed part of its message; what `format!` puts into it is left out.
--
-- BOUNDS AND FUEL. `read_u64` and `read_i64` have 10 rounds: the tenth byte either ends the number or is
-- refused, as the shift has passed 64. `bound_loop` has as many rounds as the range has rows, which shrinks
-- in each. `merge_loop` has the rows of both sides as rounds, and takes one in each. `take_ready` has one
-- round for each commit and one more, as a commit becomes ready once.
--
-- Numbers of bytes that a round trip allows stay below 2^59, where the length in a `ValueMeta` still fits.
--
-- NOT MODELLED. The columns of tables (they stand on the hexane crate), the tables, the rest
-- of the store and its transactions, the generic join, rules and fixpoints, Arrow and Parquet, printing and serde, and
-- the other packages.
pub mod Prelude
pub mod Ir
pub mod Value
pub mod Commit
pub mod Pack
pub mod Txn
pub mod Store
pub mod Batch
pub mod Examples
