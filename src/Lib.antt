-- ===== src/Lib.antt =====
-- Nimbis, a Redis-compatible server on an LSM store: a model of its parts and theorems about them.
--
-- The server reads commands in the RESP protocol (nimbis-resp), runs them (nimbis) and keeps the data in
-- five ordered key-value databases (nimbis-storage), one for strings and metadata and one for the elements
-- of each kind of collection.
--
-- Prelude: the names of the library that all files use, Boolean tests on numbers, lists of bytes, machine
-- integers as a sign and a magnitude, decimal printing and reading.
--
-- Resp: nimbis-resp/src.
--   Types: types.rs and error.rs, values and errors. A `HashSet` or a `HashMap` is its elements in the
--     order of iteration; a float is its 64 bits.
--   External: what comes from outside: `memchr`, the printing and the reading of floats, as a record of
--     functions with the laws that their documentation gives.
--   Utils: utils.rs, `find_crlf`, `peek_line`, `parse_integer`, `parse_double`. Below it Line and Integer.
--   Encode: encode.rs, one function per `encode_*`; the buffer is passed and returned.
--   Parser: parser.rs. Inline has `parse_inline_command`, Frames the stack and `handle_parsed_value`, Items
--     one function per `parse_*` and `start_*`. A parser is its stack with the top first; a function gets
--     the buffer and returns what is left of it. `parse_loop` is the loop of `RespParser::parse`.
--   Parser/Extends, Steady, Stream, Resume, Advance, Blank and RoundTrip: proofs.
--
-- Storage: nimbis-storage/src.
--   BigEndian: `put_u16`, `put_u64`, `get_u64` and so on of the crate `bytes`, and the order of keys.
--   DataType: data_type.rs and the decoder's errors of error.rs.
--   Keys: the keys of all databases, one record and one `encode_*` per key file, and the prefixes of
--     utils.rs. Score: `encode_score` and `decode_score` of zset/score_key.rs on the 64 bits of a float.
--   Meta: string/value.rs and string/meta.rs, the values of the string database; a clock is an argument.
--   Version: version.rs; a turn of a thread is one `compare_exchange`, and turns come in any order.
--   Compaction: compaction_filter.rs; the lookup in the string database is a function argument.
--   Database: the databases of the crate slatedb as an interface, a record of get, put, delete, write and
--     scan with laws on the newest entry of each key, the ghost function `view`.
--   Engine: storage.rs: the five databases and the clock as a state, operations as actions that return a
--     result and a state, also after an error; `get_meta`, `meta_put_opts` and `flush_all`. `MetaValue` is
--     the trait of string/meta.rs as a record. A reading of the clock counts it on.
--   Strings, Hashes, Lists, Sets, Zsets: storage_string.rs, storage_hash.rs, storage_list.rs, storage_set.rs,
--     storage_zset.rs, one function per operation, with its loop and the rest behind each early return as helpers.
--   Elements: what hashes and sets share: an element counts if its sequence number is not below the version
--     in the metadata. Below it, how writes change the count, for any collection with such metadata.
--   Engine/Rules, Entries, Lookup, Known, Flush: what actions do to the entries. Elements/Members, Counted, Validity,
--     Writes, Deletes, Shrink: the count of a collection.
--   Lock: lock.rs, the stripes that a command locks; the hash is a function argument.
--   Keys/Prefix, Keys/Order, Meta/RoundTrip, Compaction/Judge, Strings/Stored,
--     Hashes/Update, Set, Get, Delete, Lists/Pushes, Pops, Sets/Add, Added,
--     Sadd, Remove, Zsets/Batch, Scores, Reads, Scored, Lock/Stripes: proofs.
--
-- Server: nimbis/src.
--   Platform: Rust's texts as parameters, and the texts of errors of nimbis-storage/src/error.rs.
--   Config: config.rs and cli.rs, with the levels and outputs of nimbis-telemetry/src/logger.rs. Fields has what
--     the derive of nimbis-macros/src/lib.rs generates, Setup the sources of the configuration. Checked and
--     Overrides: proofs.
--   Sessions: `ClientSessions` of client.rs, a map as a list in the order of iteration. Laws and Lives: the turns
--     of the tasks that server.rs starts, as a step relation, and proofs.
--   Commands: cmd/mod.rs and cmd/utils.rs. A command is a record of its metadata and `do_cmd`, a function on the
--     state that all connections share; it gives `none` where an index panics. Strings, Keys, Hashes, Lists, Sets,
--     Zsets, Client, Settings and Hello have one record per cmd_*.rs, Table is cmd/table.rs. Bounds and its
--     children: no index is out of range.
--   Connection: `ClientConnection` of client.rs; `run` takes the results of the reads and passes the socket on.
--     Total and Pipeline: proofs.
--
-- `with_capacity` panics for a huge number of elements, which `has_room` of Resp/External tells: in the parser the
-- panic is the error `capacity_overflow`, in a pop the result `none`, and the task of the connection ends with it.
--
-- Loops run on fuel: `find_crlf` and the inline loop on the length of the buffer plus one, and the loop of
-- `parse` too, since every round that goes on consumes a byte. So does the loop over the values of a read, since
-- a value takes a byte.
--
-- Not modelled: the text of the parser's error messages; `Hash` of a value: the model finds a value in a set or a map
-- by `==` alone; an allocation that fails for want of memory; in nimbis-storage
-- the opening and closing of databases, warnings, and reads that run at the same time, which are
-- done one after the other; several operations at once, which the locks keep apart; in nimbis the accepting of
-- sockets, the sampling of traces and the start of the runtime; of nimbis-telemetry what is behind the checks of
-- log levels and outputs; the parsing of attributes by macros; build tasks.
pub mod Prelude
pub mod Resp
pub mod Storage
pub mod Server
pub mod Tests
