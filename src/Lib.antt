-- ===== src/Lib.antt =====
-- db-hobby: a small relational database in C, with sessions and snapshots, two-phase locks, slotted
-- pages, a buffer pool over a write-ahead log, a replica that follows the log, an LSM tree, and the
-- Raft consensus that replicates it.
--
-- The parts that are modelled, and the files here:
--
--   src/raft.h, src/raft.c      Raft and its children: one node of the consensus protocol. Types has
--                               the structs, Log, Commit, Send, Elect, Follow, Lead and Recv the
--                               functions, in the order of the source and under its names; the
--                               other children are proofs. A node is a record; what a function sends
--                               is its outbox, and the calls of the state machine are kept in
--                               `calls`.
--   src/lock.h, src/lock.c      Lock (locks), Lock/Waits (waits and deadlocks) and their proofs.
--   src/mvcc.h, src/mvcc.c      Mvcc: the status log of the transactions.
--   src/db.h, src/db.c          Txn and Txn/Exec: sessions, snapshots and `db_exec`.
--   src/db.c, src/sql.h         Where (values and LIKE) and Where/Conditions (the WHERE clause).
--   src/page.h, src/page.c      Page: the slotted page.
--   src/pager.h, src/pager.c    Pager: the file of pages.
--   src/wal.h, src/wal.c        Wal: the write-ahead log, and Wal/Recover: recovery and rollback. Format
--                               describes the records that wal.h defines; the other children are
--                               proofs: Redo, Undo, Torn, Replay and Marker on the loops over the
--                               log, Writes and Extend on what is appended to it, Atomic, Commit,
--                               NoForce, Steal, Stealing, Rollback, Reopen, Room and Lost on what
--                               survives.
--   src/bufpool.h, bufpool.c    BufferPool: the frames over a log, `wal_flush_commit` of src/db.c, and
--                               proofs on the search for a frame (Search), on what a caller sees
--                               (Views, Evict, Pick, Load, Fetch), on fetches that succeed (Room) and
--                               on what a commit stages (Staging) and on commits (Commits).
--   src/lsm.h, src/lsm.c        Lsm: the log-structured merge tree in its unique mode, and proofs on its
--                               searches (Bsearch), on what holds of a key (Versions), on a write
--                               (Upsert), on each operation (Map) and on a run of them (Refine).
--   src/replica.h, replica.c    Replica: the replica that follows the log, and its proofs.
--
-- How they interact: `db_exec` takes an id and a table lock for a write (Lock), runs the
-- statement, and settles the id in the status log (Mvcc); every row that is read passes
-- `row_visible`, by the snapshot that BEGIN took. A commit reaches its pages by `wal_stage` and
-- `wal_commit`, and the buffer pool's evictions by `wal_steal`; a replica reads the bytes that
-- `wal_commit` has written. The LSM tree stands alone, as it does in the source. Base holds what
-- all files share, Examples the theorems at concrete states.
--
-- Parameters. The realloc of the list of stolen pages is taken to succeed. `realloc` of the Raft
-- log is a function `alloc` from the size asked for to whether it succeeds. The tables with their
-- files, the executors and the IN-subqueries stand behind `Engine`, a record of functions that
-- every theorem takes as any functions at all.
--
-- Files. The log is its bytes, with a bound on its size beyond which a write is cut short and fails;
-- the data file is a function from page numbers to images and a length. A crash is any prefix of the
-- bytes that were being appended, with any of the unforced page writes lost. Other errors of the
-- operating system are left out: fsync, reads inside a file and page writes succeed.
--
-- Numbers. A key or value of the LSM tree, of type int64_t, is a number k + 2^63. An index, an id
-- or an id's counter is a natural number; the 64-bit terms and epochs and the 16-bit fields of a
-- page wrap around as written. Log indices, ids of transactions and table counts do not reach
-- 2^31 or 2^63, and no theorem speaks of their overflow.
--
-- Loops and fuel. Loops over arrays are recursions on lists or on a counter. `apply_committed` runs
-- for commit_index - last_applied rounds, `leader_advance_commit` for the indices above the commit
-- index. The search for deadlocks stops at LOCK_MAX_WAITS as the source does. `like_match` has fuel
-- for one round for each pair of a position in the text and one in the pattern, which is enough. The
-- loops over the log have its length and one more, and read at least a byte in each round. The
-- binary searches of the LSM tree have as fuel the number of entries, which each round lessens.
--
-- Not modelled: the latches of the buffer pool and its overlapping reads, heaps, B+trees, the LSM
-- tree's files, multi mode, scan and compaction, the sockets of log shipping, the SQL parser, the
-- executors, the optimizer, parallel scans, the server, and the state file of a Raft node
-- (raft_save, raft_load).
pub mod Base
pub mod BufferPool
pub mod Examples
pub mod Lock
pub mod Lsm
pub mod Mvcc
pub mod Page
pub mod Pager
pub mod Wal
pub mod Raft
pub mod Replica
pub mod Txn
pub mod Where
