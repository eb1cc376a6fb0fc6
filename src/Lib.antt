-- ===== src/Lib.antt =====
-- The storage and transaction core of RMDB (rmdb/src), a relational database server.
--
-- A server thread runs statements for a transaction. The executors read and write records in pages;
-- pages live in frames of the buffer pool, which moves them from and to the disk and asks a replacer
-- for the frame to evict. Before they touch a record, executors ask the lock manager for locks,
-- which a transaction keeps until it ends. What a transaction changes is put in the buffer of the log,
-- which is written to the log file when the buffer is full and when the transaction ends; at its
-- start the server reads the log again.
--
-- Files:
--   Common       Boolean tests, lists, integers, association lists, memory as a function from
--                addresses to bytes, and integers as bytes, that the others share.
--   Replacer     replacer/lru_replacer.cpp: `victim`, `pin`, `unpin`, `Size` are `victim`, `pin`,
--                `unpin`, `size`. `LRUlist_` is a list of nodes with identities and `LRUhash_` maps
--                a frame to its node, as the source maps it to an iterator.
--   Storage      storage/page.h and storage/disk_manager.cpp: page ids, pages, and the transfers (Disk),
--                with what the disk has for a page (Stored).
--   Pool         storage/buffer_pool_manager.cpp: one function per method, under the method's name.
--                A `Page *` is the index of its frame.
--   Transaction  transaction/txn_defs.h and transaction/transaction.h: the types;
--                transaction/transaction_manager.cpp: `begin`, `ensure_txn_logged`, `commit` and `abort`
--                (Manager), and what a commit and an abort leave (Commit, Abort, Release, Locks, Recovered).
--   Lock         transaction/concurrency/lock_manager.cpp: locks on tables (Table) and records
--                (Record) and `unlock`, and what they keep (Exclusion, Calls, Runs, Admission). A
--                call is a function of the `Transaction` object and `lock_table_`.
--   Record       record/bitmap.h: the functions of `Bitmap` on a function from offsets to bytes (Bitmap);
--                record/rm_file_handle.cpp: the calls of `RmFileHandle` (File), and what they do to the
--                records (Slots, Contents, Calls, Reread, Insert, Overrun); record/rm_manager.h: the
--                header of a new file (Create); record/rm_scan.cpp: `RmScan` (Scan). `insert_record` at
--                a rid is `insert_record_at`.
--   Index        index/ix_index_handle.h and .cpp: `ix_compare` (Compare, Order, Rows); `IxNodeHandle` (Node), with
--                what its searches find (Search, Found) and its changes keep (Insert, Remove, Halves);
--                `IxIndexHandle`: `find_leaf_page` and `get_value` (Tree, Value), `split` and
--                `insert_into_parent` (Grow, Split, Root), `insert_entry` and `maintain_parent` (Entry,
--                Divided, FirstSplit), and index/ix_scan.cpp with the bounds over leaves (Scan,
--                Leaves, Range), where `lower_bound` and `upper_bound` of the tree are
--                `lower_bound_iid` and `upper_bound_iid`, as the node's have these names.
--   Log          recovery/log_defs.h and recovery/log_manager.h: the log records, with `serialize`
--                (Encode), `deserialize` (Decode) and their agreement (Format, Reads, RoundTrip);
--                storage/disk_manager.cpp: `write_log` and `read_log` (Device);
--                recovery/log_manager.cpp: the buffer of the log (Manager, Append, Extent,
--                Durable);
--                recovery/log_recovery.cpp: `analyze` (Recovery), what one round of its loops does
--                (Next, Scan, Window, Rounds), and what it finds (Replay, Classify, Analyze, Snoc). ListDevice is a log file
--                for the tests.
--   DateTime     common/datetime_util.h, under the functions' names; `format_datetime` prints by
--                `print_datetime`, and the tests of `parse_datetime` are `well_formed` and `in_range`.
--
-- How it is modelled. Every method of the replacer, the buffer pool and the lock manager holds the
-- component's latch from its first change to its end, so that a call is one function from a state to a
-- state, and threads are a sequence of calls. A call that throws gives the state that it leaves behind.
-- The system calls `lseek`, `read` and `write` are the parameter `Device`, whose documented
-- behaviour is `IsDevice`, on transfers of one page at a byte offset; the bytes of a page are a type that
-- is a parameter too. The offset of a page is the product of two values of type `int` and wraps around as
-- compiled code has it, and so does the page counter of a file; what the disk has for a page is `stored`
-- (Storage/Stored), for page numbers from 0 to 2 ^ 19 - 1, whose offsets are in range. Frame numbers, pin
-- counts and node identities are natural numbers: they do not reach the bounds of `int`. The page numbers
-- of record files and indexes are integers without bound.
-- `assert` is compiled in: the build sets its own release flags, without NDEBUG. The loop of
-- `next_bit` runs on the number of rounds that it has left. The two loops of `analyze` run on fuel, a
-- number of rounds: more rounds than there are records in the log are enough where the loops end.
--
-- The invariant of the buffer pool, `IsGood`: the page table, the free list and the replacer agree
-- with the frames, and the pages in the pool have numbers from 0 to 2 ^ 19 - 1; no frame is lost; and a
-- clean, unpinned page is on the disk as in its frame.
--
-- The log manager, `IsLogged`: the file and then the buffer hold the bytes of all records, in order. The
-- system calls on the log file are the parameter `LogDevice`. A log of 2 GiB or more, whose offsets pass
-- the bounds of `int`, is outside of the model.
--
-- The transaction manager works on `Server`: one transaction, the log manager, the lock table, and the
-- tables with their indexes, a type that is a parameter. What undoes a write and what flushes the
-- pages are the interface `Storage`. Its pointers are not null; start timestamps are left out.
--
-- A record file is its header in memory and on the disk, and its pages by number; the pins of the pages
-- are left out, and so is a page that the pool cannot bring. An access outside of the slots of a page is
-- the value `overrun`. Whether a lock is granted is the parameter `may_lock`; what a write of the header
-- leaves on the disk is the parameter `put_hdr`, and where it is short the call ends with `write_failed`.
-- The bitmap and the slots of a page, which the source lays out in one block, are two
-- stores.
--
-- An index file is its header and its nodes by page number; the pool is taken to bring every page, and
-- pins are left out. A key is the list of its bytes; a search tree has its leaves at one level and
-- inner keys that separate what is below them. The loop of a node's binary search runs on the number
-- of keys, which is enough; the descent, the walk along the leaves and the way up the parents run on
-- fuel, for which a theorem on the first two states how much is enough. `none` is a failed assertion.
--
-- The lock manager: no call waits; a conflict throws, which is the value `refused`, with what the call
-- has changed by then. An entry that `lock_table_[id]` makes stays, as in the source.
--
-- Not modelled: gap locks; opening, creating and deleting files; the hash functions; log sequence
-- numbers of pages; redo and undo of the log; the removal from the tree with its merging, and creating
-- and opening an index; the executors, the planner and the catalogue; and the parser,
-- which is generated, the server's sockets and threads, and the test programs.
pub mod Common
pub mod Replacer
pub mod Storage
pub mod Pool
pub mod Transaction
pub mod Lock
pub mod Record
pub mod Index
pub mod Log
pub mod DateTime
