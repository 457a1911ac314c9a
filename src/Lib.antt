-- ===== src/Lib.antt =====
-- OnCloudKV: a key-value store on Raft over a log-structured storage engine.
--
-- A write goes through the batch writer (internal/consensus/batch.go) to Raft, which hands each committed
-- log entry to the state machine (internal/consensus/fsm.go). That writes to the storage engine
-- (internal/storage/engine.go) and tells the watch hub (internal/watch/hub.go). The engine appends to the
-- write-ahead log (internal/storage/wal/wal.go), then changes the memtable, a skip list
-- (internal/storage/skiplist/skiplist.go). A full memtable is flushed to a sorted table
-- (internal/storage/sstable/sstable.go) with a Bloom filter (internal/storage/bloom/bloom.go), and the
-- compactor (internal/storage/compaction/compaction.go) merges tables. Reads go through the router of
-- consistency modes (internal/consistency/router.go) to the engine. Clients come in by gRPC
-- (internal/api/grpc/server.go), as cmd/cli/main.go does, or by HTTP (internal/api/http/server.go).
-- cmd/server/main.go loads the configuration (internal/config/config.go), opens the engine, starts the Raft
-- node (internal/consensus/node.go), joins the gossip ring (internal/membership/memberlist.go) and serves.
--
-- Shared: Prelude (tests, lists, words), Bytes (encoding/binary), Keys (the order of Go strings), Entry (the
-- record of the memtable, the tables and the engine), Entries (a sorted list of entries: the abstract view
-- of a memtable and of a table).
-- Wal: header, record_bytes, read_all (writeRecord, ReadAll); Wal.Commit: commit_round, close
-- (groupCommitLoop, Append, Close) over an abstract file, whose laws are those of a buffered writer;
-- Wal.Crashes has what such a writer keeps to after an error and in a crash, Wal.Rounds and
-- Wal.History are about the whole loop.
-- Skiplist: put, delete, get, scan, all (Put, Delete, Get, Scan, All) over a heap of nodes by address;
-- Skiplist.Invariant has the well-formedness of the links and the entries that a list represents.
-- Bloom: new, add, contains (New, Add, Contains); the float formulas of the sizes are the parameter Sizing.
-- Sstable: write, close (Write, Close); Sstable.Reader: open_reader, get, scan (OpenReader, Get, Scan,
-- readEntry) over the bytes of the file.
-- Engine: recover, put, delete, get, scan, restore, flush, flush_loop, close (the methods of these names), with
-- the calls of the log as the interface Journal and the directory as a function of paths; open_engine (Open).
-- Engine.Recovery puts the log of Wal.Commit behind it, one request at a time, and recovers from its file;
-- Engine.Reopen has what a crash leaves of the log, a torn record at its end included.
-- Engine.View has the map that the engine should be, Engine.Runs the step relation of writes, flushes, crashes and
-- closes, and Engine.Steps is about its runs; Engine.Replays is about recovery from any records, Engine.Seen and
-- Engine.Scan are about scans, Engine.Snapshot and Fsm.Restore about a snapshot that is restored elsewhere.
-- Compaction: register, select_tier, merge, compact (Register, selectTier, merge, compact).
-- Watch: subscribe, unsubscribe, notify. Fsm: apply, snapshot, restore, persist. Batch: step, loop (loop with
-- its flush). Router: get, wait_for_index (Get, readIndex, waitForIndex).
-- Api: put, delete, get, scan, status, watch_loop (internal/api/grpc/server.go: Put, Delete, Get, Scan,
-- Status, Watch).
-- HttpApi: handle_key with get_key, put_key and delete_key, handle_scan, handle_status, handle_readyz (the
-- methods of these names). HttpApi.Mirror compares them with Api.
-- Config: load (Load). Node: new_node (NewNode), a computation on the state of its libraries that ends at the
-- first failure. Membership: join, members, leave. Server: main, as the list of what it does. Cli: put_cmd and
-- its like (putCmd and its like); Cli.RoundTrip puts the client on the service.
-- Tests: the theorems at concrete inputs.
--
-- An int64 is its bit pattern, a number below 2 ^ 64, and lengths are cut to the width of their field only
-- where the code does it. A walk of a skip list has the number of addresses in use as its fuel, which is more
-- than the nodes of a list; the replay of a log has one round more than the file has bytes, and each takes
-- eight; the binary search one round more than the index is long, and each narrows the range; the loops
-- over a table one round more than the bytes, and each takes some.
--
-- Not modelled: Raft, memberlist, gRPC, viper, cobra, JSON, CRC-32 and the file system, which are parameters
-- where the code uses them; locks and goroutines (an operation under a lock is one step, and a flush is two);
-- errors of opening a directory; listening; metrics, logging and generated code. Strings of the configuration are only
-- handed on, and stay texts; keys and values are bytes.
pub mod Prelude
pub mod Bytes
pub mod Keys
pub mod Entry
pub mod Bloom
pub mod Entries
pub mod Skiplist
pub mod Sstable
pub mod Wal
pub mod Compaction
pub mod Engine
pub mod Watch
pub mod Fsm
pub mod Batch
pub mod Router
pub mod Api
pub mod HttpApi
pub mod Config
pub mod Node
pub mod Membership
pub mod Server
pub mod Cli
pub mod Tests
