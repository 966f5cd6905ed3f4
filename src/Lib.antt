-- ===== src/Lib.antt =====
-- A model of DeltaFS, a distributed file system whose metadata is kept by servers over key-value
-- stores, with proofs about it.
--
-- Parts and how they interact. A metadata server (src/libdeltafs/mds_srv.cc) answers calls on the
-- entries of directories. It keeps a cache of directories (util/dcntl.cc), a table of leases on
-- lookup results (util/lease.cc), and its inode and session counters; all else is in a database of
-- entries, directory infos and directory indexes (util/mdb.cc). Writers of a directory run one at a
-- time and publish by a transaction; readers meanwhile read the snapshot of that transaction. A
-- client (mds_cli.cc) resolves paths with a cache of lookups that the leases keep valid, sends each
-- call to the server that a directory's index names, and follows redirections; it reaches a server
-- through an RPC layer (mds_api.cc) that turns calls into messages. The client library
-- (deltafs_client.cc) stands on it with file descriptors and a current directory. The filters of
-- plfsio (plfsio/v1/filter.cc and cuckoo.cc) stand beside the tables of its logs and tell a reader
-- which keys cannot be there.
--
-- Files.
--   Prelude: tests on numbers, lists and byte strings over the native numbers.
--   Mds/Types: values and options; what is taken from pdlfs-common, as the record `Ext`.
--   Mds/Db: MDB with its transactions, a function for each operation, on a `Session`.
--   Mds/Laws: what is relied on of the key-value store (`IsStore`) and of varints (`IsCoding`).
--   Mds/Table, Mds/Server: DirTable, LeaseTable, Dir, Lease and the state `Srv` of MDS::SRV.
--   Mds/Dirs: LoadDir, FetchDir and the checks that open a handler. Mds/Handler: their sequence.
--   Mds/Read: Fstat, Lookup, Listdir, Readidx, Opensession, Getinput, Getoutput.
--   Mds/Write, Mds/Update, Mds/Perm: Fcreat and Mkdir; Unlink, Utime and Trunc; Uperm, Chmod and
--     Chown. A handler is `begin_write`, then its `_io` part on the store, then its `end_` part, as
--     the source drops the mutex between them. `begin_write` is the lock of the directory under the
--     mutex, the new transaction and its publication, run without other work in between.
--   Mds/Enter, Mds/Frame, Mds/Quiet, Mds/Stored: lemmas on the parts that the handlers share.
--   Mds/Visible, Mds/Gone, Mds/Updated: what Fstat replies after a write. Mds/Permitted: what Uperm
--     changes of a mode. Mds/Isolation: Fstat's load and read as steps among
--     other work, while a write is going on. Mds/Inodes,
--     Mds/Sessions: the numbers that are given out. Mds/Reload: the cached directory against the
--     stored one. Mds/Leases/Protocol: the interleavings of Lookup and Uperm as steps; its siblings
--     say what each step does to a lease.
--   Mds/Rpc/Calls: the calls of mds_api.h and what they return. Mds/Rpc/Wire: the codings that are
--     taken from pdlfs-common, and parsers over them. Mds/Rpc/Codec, Mds/Rpc/Results: how each call
--     and each result is written and read. Mds/Rpc/Peers: MDS::RPC::CLI and MDS::RPC::SRV.
--     Mds/Rpc/Server: MDS::SRV as what stands behind them. Their siblings hold the proofs.
--   Cli/State: MDS::CLI, its caches, and how an operation ends. Cli/Access: the permission checks.
--     Cli/Redirect: the loop over redirections with the helpers `_Lookup`, `_Fstat` and so on.
--     Cli/Find: FetchIndex and Lookup. Cli/Resolve: ResolvePath. Cli/Ops: the operations on an
--     entry. Cli/Parents: Mkdir. Cli/Listing: Listdir, Accessdir, Access. Cli/Walk with its
--     children, Cli/Cached and Cli/Ends hold proofs.
--   Client/Files: the table of file descriptors of deltafs_client.cc. Client/Paths: the expansion
--     of paths, Chroot, Chdir, Umask, and the operations that go on to the MDS client.
--     Client/Slots, Client/Closed, Client/Reached and Client/Clean hold proofs.
--   Plfsio/Bytewise, Plfsio/Bloom: bit strings and the bloom filter. Plfsio/Bitmap: the
--     uncompressed bitmap. Plfsio/Compressed: the buckets in memory that the compressed bitmap
--     formats share, with Set and Iter. Plfsio/Delta: the varint bitmap formats over them. Their
--     children hold the proofs.
--   Plfsio/Cuckoo: the cuckoo filter of plfsio/v1/cuckoo.cc. Its children Bits, Power, Table, Block
--     and Filter model it: bit operations, tables and AddTo, blocks with keys set aside, and the
--     bytes with the search in them. Kept, Cells and Moves are about AddTo, Bytes,
--     Values, Search and Loop about the search, Fresh, Added, Staged, More, Finished, Trailer and
--     Matches about a whole filter, Stray and Overflow about building further tables.
--   Plfsio/Bufio: DirectWriter of plfsio/v1/bufio.cc with the manager of compactions of
--     compaction_mgr.h, whose compactions run in other threads. Its functions are what happens under
--     the mutex between two waits; Bufio/Log has them as steps, and Bufio/Drain follows them.
--   Plfsio/Handles: the handles of tables and epochs of plfsio/v1/format.cc.
--   Tests: runs, and the theorems at concrete inputs.
--
-- Choices. Clock readings and the choices of the caches (which entries leave, or that none can) are
-- arguments of a call (`Answers`, `Waits`). A handler is a function from the state to the reply and
-- the next state; a redirection is a reply. Machine integers wrap by `%`; `int size` is its 32-bit
-- pattern. Bit fields that are disjoint are added. Fuel: four rounds and a last byte hold the
-- seven-bit groups of a uint32_t, and the scan of a bitmap takes a byte in each round, so its
-- length is enough. The loop over redirections has as fuel the redirects that are allowed, the
-- search for a free descriptor the size of the table. The loop over further tables of a cuckoo
-- filter has the number of keys set aside, fewer than 2 ^ 32; it ends before that is used up, by a
-- theorem, if a move is allowed. A read past the keys' bytes is the outcome `strayed`. Mkdir with missing parents has its own fuel,
-- and an outcome `running` when it is used up.
--
-- Not modelled: waiting for a directory that another thread loads, assertions, log lines, reference
-- counts of cache entries, the number of bloom probes (floating point in the source, a field here).
-- Calls of a client run one at a time. Of the
-- buffered writer, Sync, Finish and compaction in the calling thread are left out. Of the client library, opening, reading and writing files
-- are left for later, as are the C API and the rest of plfsio; pdlfs-common is a library and stays
-- a parameter.
pub mod Prelude
pub mod Cli
pub mod Client
pub mod Mds
pub mod Plfsio
pub mod Tests
