-- ===== src/Lib.antt =====
-- Verification library of crates/database of boomerang, a sync engine between SQLite and
-- Postgres.
--
-- The program's parts. Strings are interned: a StringInterner gives a text a Symbol, a 32-bit
-- number, and resolves a Symbol to its text. A DatabaseSchema describes tables, columns and
-- foreign keys by symbols, and is stored as bytes that hold the interner's own bytes. Each
-- database keeps a log of row changes; TruthTable reads both logs as ordered streams, joins them
-- by table and record, and reports for each record which side wins. The SQL that the dialects
-- write quotes names and values by Ident and Lit.
--
-- Base: names that all modules share: Boolean tests on numbers (Tests), lists (Lists), orders on
-- numbers, strings and pairs (Order), signed integers (Int), little-endian integers
-- (LittleEndian), the results of fallible code (Outcome: a value, an error, a panic, or fuel
-- that ran out; Panic: a value or a panic), the binary search of a slice (Search), and texts as
-- bytes (Text).
--
-- Interner: crates/database/src/core/string_interner.rs. Symbol is Symbol; Pool is MemoryPool
-- (new, alloc, committed_bytes), with memory as a function from addresses; Strings is
-- LockFreeStringArray (get, get_unchecked, push); Cache is ThreadLocalCache and the two closures
-- that read and fill it; Utf8 is str::from_utf8; Hash is prefix8 and the hash of a text; Types
-- holds StringInterner and the interface of hashbrown's HashTable; Lookup has get, contains,
-- resolve, resolve_unchecked, offset_of, resolve_raw_offset and len; Intern has get_or_intern
-- and insert_unique; Create has the constructors, bytes, from_bytes and from_bytes_unchecked.
-- Proofs stand in the modules below these. hashbrown's table and rustc_hash's hash_one are
-- parameters. One call runs at a time on one thread: the locks, the compare-and-swap that loses
-- a race, and LAST_CHUNK are not modelled, nor are prefetches and the release of memory. The
-- machine is little-endian.
--
-- Schema: crates/database/src/core/schema.rs and the column types of core/value.rs. Types has
-- the tables, columns, foreign keys, flags and actions; Flags is about ColumnFlags; Codec has
-- encode (Write), the decoders (Read) on readers of a byte list (Bytes), and the proofs. The
-- schema is generic in the interner, whose bytes and whose loader are arguments.
-- decode_unchecked has a fault of its own for undefined behaviour.
--
-- Schema.Lookup: the methods of TableRef, ColumnRef and DatabaseSchema. A TableRef or a
-- ColumnRef is an index. ByName is about the index by name and the binary search in it, which is
-- that of Base.Search.
--
-- Builder: crates/database/src/core/schema_builder.rs. State has DatabaseSchemaBuilder, Rows has
-- add_row and finish_table, Sort stands for the standard library's sort by a key, Kahn has the
-- topological order, and Build has build. The interner's get_or_intern is an argument of
-- add_row. ByName is about the index by name, Resolve about what the names of a foreign key are
-- resolved to and ResolveAll about the loop that does so, Edges about the graph, Kahn.Count,
-- Release, Drain, Whole and Order about the topological order, Numbered and Compact about the
-- new pool of foreign keys, Places about the new indices, Result, Assemble and Total about the
-- schema, Sorted about the order of its tables, Grow, Cover, Pushed and Grown about the rows,
-- Leaves about leaf_tables of the schema, and Promise puts them together.
--
-- Sql: Ident and Lit of crates/database/src/core.rs (Quote), with a reader of quoted tokens as
-- SQL reads them.
--
-- Postgres: crates/database/src/dialect/postgres.rs. Load has load_schema on what sqlx answers
-- for the rows and for the hash: each column is a value or an error of sqlx. Loaded is about a
-- catalogue that is read. Setup has new and remove_setup, with the texts of the triggers, on a
-- record of what sqlx answers, whose queries of constant text are operations of their own. Keyed
-- is about new.
--
-- Sqlite: crates/database/src/dialect/sqlite.rs, where it computes SQL. Default has sqlite_type
-- and sqlite_default, Ddl the texts that create the tables and store the hash, Trigger those
-- that create and drop the triggers. Texts are bytes in UTF-8. Live has the tables that a
-- database has, as alter_tables reads them, an association list for each HashMap, whose order of
-- iteration is an argument. Alter has the plan of alter_tables, a list of statements that is
-- written as their texts one behind the other; Alter.Names has what the accessors of the schema
-- answer, Alter.Wanted the plan without loops, with Alter.Change about it, Alter.Columns is
-- about the loop over the columns, Alter.Reading reads the texts as SQL does, Alter.Case follows
-- one table whose name changed its case, with SQLite as an argument, and Alter.Text is about the
-- text. Open has new, from, bytes, create_tables, alter_tables, setup_triggers and drop_triggers
-- on what sqlx and tempfile answer, a record of functions; Open.Current is about from, with
-- Open.Ends, and Open.Succeeds about alter_tables. Hex, Cut and Keys hold theorems on the texts.
--
-- Value: Value and its conversions, of crates/database/src/core/value.rs, with the types of
-- other crates as an argument. Equal is about ==.
--
-- Dialect: DatabaseError and its texts, of crates/database/src/dialect.rs.
--
-- Sync: crates/database/src/sync/truth_table.rs and sync/log_row.rs. Log has the rows,
-- operations, entries and errors; Head has Head, TableCache and cmp_heads; Table has TruthTable:
-- pull, advance, resolve, new and next_entry. A stream is the list of what it will yield. The
-- interner and the schema are seen through SymbolTable. Join and Logged describe what the merge
-- should report, Memo, Rounds, Merge and Policy hold the proofs.
--
-- Fuel: next_entry takes a number of rounds and the caller that drains it a number of calls;
-- each round reads a row, so one more than the rows of both logs is enough. The queue loop of
-- build takes a round for each table, which the theorem on it shows to be enough. The binary
-- search runs as many rounds as its slice is long. from_bytes runs as many rounds as its buffer
-- has bytes, and each round moves the cursor by four bytes at least.
--
-- Not modelled: the conversions from f32. Of the SQLite dialect, close, the removal of temporary
-- files and the options of the connections are left out. The calls of sqlx, tempfile, the file
-- system and the clock, the benchmarks and the binary are left out, since they compute nothing
-- that this library could state.
pub mod Base
pub mod Dialect
pub mod Interner
pub mod Schema
pub mod Value
pub mod Sql
pub mod Builder
pub mod Sync
pub mod Sqlite
pub mod Postgres
