-- ===== src/Lib.antt =====
-- An LSM-tree key-value store in C++20 (include/lsm, src), as a library of definitions translated from
-- the source and theorems about them.
--
-- The program. `KVStore` (src/kv_store.cpp) takes `put`, `get` and `remove`. A mutation is first
-- appended to the write-ahead log (src/wal.cpp), then applied to the memtable (src/memtable.cpp). A
-- memtable that is full is written to an SSTable (src/sstable.cpp), a sorted file with a sparse index,
-- a Bloom filter (src/bloom_filter.cpp) and a footer; the log is then truncated. A `get` asks the
-- memtable, then the tables from the newest to the oldest. When there are many tables, compaction
-- (src/compaction.cpp) merges them. `open` loads the tables that the manifest names and replays the log.
-- The command line (src/cli.cpp) opens a store and hands it what the lines of its input ask for.
--
-- The files.
--   Status, Result: include/lsm/status.h. A message is the bytes of the literal, `text "..."`, shut, so
--     that no proof depends on its wording.
--   Types: include/lsm/types.h; Types.Crc32 has `crc32` with its whole table.
--   Throws: functions that throw `std::runtime_error`.
--   Codec: encodeUint32LE and its three companions, which three source files define alike.
--   Frame: the layout of one record, which the log and the SSTable share.
--   Disk: the file system. Files and directories are functions of a path, and a value of `Os` says what
--     the operating system permits in a given state; theorems about a run without faults are stated for
--     `reliable`. A write that is accepted is in the file: buffering and fsync are not modelled. So a fault
--     that the source would meet only in the flush at the end of `appendRecord`, whose result it does not
--     ask for, is met by the write itself here, and is reported. A crash in the middle of an append is a
--     log that ends inside a record.
--   MemTable: include/lsm/memtable.h, src/memtable.cpp. `std::map` is a sorted association list
--     (Prelude.SortedMap). Sizes are in size_t, with the wrap-around written out.
--   Wal: include/lsm/wal.h, src/wal.cpp. Wal.Replay is `WAL::replay`, over any consumer; its loop takes
--     fuel, one more than the bytes of the file, which is enough as each record takes 13 bytes or more.
--   Bloom: include/lsm/bloom_filter.h, src/bloom_filter.cpp.
--   Options: include/lsm/options.h.
--   SsTable: include/lsm/sstable.h, src/sstable.cpp. SsTable.Index, SsTable.Footer, SsTable.Writer and
--     SsTable.Reader are the classes, SsTable.ReadAll is `readAllRecords`. The loops over records take
--     fuel, one more than the bytes of the file, as a record takes 13 of them. The search of the index is a
--     scan from the front, which finds what the binary search of the source finds where the index is sorted,
--     as in each table of a theorem on answers. Where a footer's sizes wrap, the source may throw as it
--     allocates a block; the definition returns the corruption of a truncated block. An interval of the sparse
--     index of 0 has no meaning in the source; a theorem in which a table is written assumes another.
--     SsTable.Layout, SsTable.Sparse and SsTable.Lookup are about what a reader finds,
--     SsTable.Appending and SsTable.Written about what the writer leaves.
--     SsTable.Loading, SsTable.Limits and SsTable.Reopen about a table that was written and opened again,
--     SsTable.ReadBack about `readAllRecords`.
--   Compaction: include/lsm/compaction.h, src/compaction.cpp. Compaction.Merge is about the entries that
--     survive, Compaction.Run about the files.
--   KvStore: include/lsm/kv_store.h, src/kv_store.cpp. KvStore.Names makes and reads the names of tables,
--     KvStore.Flush has the private functions, KvStore.Ops the public ones and KvStore.Open `open`.
--     KvStore.View says what map a store stands for; KvStore.Reading, KvStore.Publishing,
--     KvStore.Flushing, KvStore.Compacting, KvStore.Persisting, KvStore.Inserting and KvStore.Mutation follow it through the
--     operations. KvStore.Durable says what of a store is on disk, KvStore.Lasting that the operations keep
--     this; KvStore.Names.Manifest, KvStore.Replaying, KvStore.Numbering, KvStore.Reloading and KvStore.Recovery
--     are about the next `open`,
--     KvStore.Creation about the first one, KvStore.Durability about a mutation and then an `open`.
--     KvStore.Errors and KvStore.Closing are about a store that was closed, KvStore.Termination about `get`,
--     both on any operating system.
--     KvStore.Crashes is about crashes in an append and between the steps of a flush and a compaction.
--     KvStore.Crashes.Unrecorded and Wal.Refusal are about a put whose record the log refuses.
--     KvStore.Volume counts the bytes of the records of a store, KvStore.Capacity says how many are within
--     the format of a table, and KvStore.History is about any number of operations, one after another.
--   Cli: src/cli.cpp. Cli.Words takes a line apart, Cli.Session is the state of `main`, Cli.Commands has
--     the branches of its loop and Cli.Program the loop and `main`, from the arguments, the whole input
--     and the disk to the exit status, the two output streams and the disk. Cli.Requests says which
--     changes the lines ask for; Cli.Effects is about what they do to the store.
--   Prelude: the shared names and lemmas: tests, lists, bits, strings, sorted maps, decimals.
--   Tests: concrete runs, and the theorems at concrete inputs.
--
-- Numbers are native naturals; a w-bit integer has its wrap-around written out. A byte is a natural
-- number, and a theorem that needs it below 256 says so.
--
-- Not modelled: the program's own tests and its benchmark, the moving of a `KVStore` from one variable to
-- another, and the buffering of streams. A crash is a value of `Disk` that the steps before it have left.
pub mod Prelude
pub mod Status
pub mod Result
pub mod Throws
pub mod Types
pub mod Codec
pub mod Frame
pub mod Disk
pub mod MemTable
pub mod Wal
pub mod Bloom
pub mod Options
pub mod SsTable
pub mod Compaction
pub mod KvStore
pub mod Cli
mod Tests
