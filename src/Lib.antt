-- ===== src/Lib.antt =====
-- TecnicoFS: an in-memory file system (fs/) with a message broker (mbroker/) on top of it.
--
-- Parts of the program and their modules:
--   fs/config.h, fs/state.h, fs/operations.h   data types and constants: Fs/Types
--   fs/state.c   the tables and the accesses to them:
--     state_init, state_destroy                 Fs/Setup
--     data_block_alloc, data_block_free, data_block_get   Fs/Blocks (the loop: Fs/Tables)
--     inode_alloc, inode_create, inode_delete, inode_get   Fs/Inodes
--     add_dir_entry, clear_dir_entry, find_in_dir   Fs/Dir, on the bytes of Fs/Entries
--     the open file table, write_to_open_file, read_from_open_file   Fs/Files
--   fs/operations.c   the calls of a client, in terms of fs/state.c: Fs/Ops
--   producer-consumer/   the queue of requests between the broker's threads: Pcq
--   protocol/protocol.c, and mbroker_receive_connection of mbroker/mbroker.c   the request packet
--     that a client writes and the broker reads: Protocol
--   mbroker/   the table of boxes, the requests of a manager and the listing: Broker. It reaches the
--     file system through the interface FileSystem of Broker/Files, which Fs/Ops fills
--     Broker/Start: mbroker_init
--     Broker/Listener: the loop of `main` that reads the requests
--     Broker/Sessions: the sessions of a publisher and a subscriber, on fs/operations.c itself
--   publisher/pub.c, subscriber/sub.c   the loops that carry the messages: Clients; the command lines
--     and their requests: Clients/Command
--   manager/manager.c   the command line and its request: Manager/Command; how the manager reads the
--     answers and prints them: Manager
--   utils/insertion-sort.c   the sort of the listed boxes: Manager/Insert
-- Fs/Run is the state monad of all of them, and Prelude the shared tests, lists, byte strings and C
-- integers. The modules below a component's module hold its proofs.
--
-- The state is the record `State`: the static variables of fs/state.c but the locks. The locks and
-- the artificial delays are left out; each call is a step that runs to its end. A pointer into a
-- table is an index, a NULL pointer is `none`, `int` is ℤ and `size_t` is ℕ, with the wrap-around
-- written out where the code adds or subtracts sizes; casts of a table index to `int` are taken to
-- be exact. `fs_data` is the list of the data blocks, each the list of its bytes, and a directory's
-- entries are read from these bytes: 40 bytes of name and a four-byte `int`, the lowest byte first.
-- What `malloc` returns is a parameter, and its contents are arbitrary.
--
-- A failed assertion, an access outside of a table or block, a remainder by 0, and the end of the
-- fuel are outcomes of their own (`Fault`). The file system has fuel in two places: in `tfs_open`
-- it counts the symbolic links that are followed (the code follows a cycle of links for ever), and
-- the loop of `tfs_copy_from_external_fs` has one round for each byte of the file and one more,
-- which is enough since each round but the last takes a byte.
--
-- The abstract view: an inode holds a list of bytes (`Holds`), whatever the block, and a directory
-- is a map from names to inumbers (`inumber_of`), whatever the order of its entries. Reads, writes
-- and changes of a directory are described in this view. `IsMounted` is the invariant between the
-- calls of a client: the tables have their entries, blocks are not empty, inode 0 is the root
-- directory, and each of its names stands for an inode in use that is no directory. The modules
-- below Fs/Ops prove the calls in terms of it; that a file's block is not the root's, and that a
-- file with one link has one name, are conditions of the theorems that need them.
--
-- In the queue, what a call does after the loop that waits is one step, since all of it runs under
-- `pcq_current_size_lock`; a call that must wait is the outcome `sleeps`, which changes nothing. The
-- queue's contents are a list, the oldest element first (`Represents`). Pcq/Wakeups follows the
-- threads that wait on the two condition variables: who has tested and not yet gone to sleep, who
-- sleeps, who was woken, and which signals are still to be sent. Threads may wake up by themselves.
--
-- The boxes of the broker are a table with its marks of use and the counter `n_boxes`; `IsBroker`
-- ties the three together. The pipes are the bytes in them. The manager's loop over the answers has
-- fuel of one round for each byte received and one more, which is enough since each round but the
-- last takes a byte.
--
-- The session of a publisher takes a message from its pipe, writes it to the file of the box without
-- the box's mutex, and then, under the mutex, counts it and broadcasts: three steps. A subscriber
-- tests for a message under the mutex, is about to sleep while it still holds it, sleeps in
-- `cond_wait`, from which a broadcast wakes it or it wakes by itself, looks whether the box is still
-- there, and writes its packets. `Step` lets these follow one another in any order, with the bytes
-- of the publisher's client arriving at any time. The box stays in the table while the sessions run.
-- The fuel of `listen` is an argument: one round for each request and one more is enough, unless an
-- unknown code comes. The loops of the clients have one round for each byte and one more.
--
-- Not modelled: the locks of utils/better-locks.c and the logging, which have no logic of their own;
-- the opening and closing of pipes, the retries of interrupted calls and the handler of SIGINT, which
-- are input and output; the command line of the broker itself; and as yet the loop in which a worker
-- calls its handlers.
pub mod Prelude
pub mod Fs
pub mod Pcq
pub mod Protocol
pub mod Broker
pub mod Clients
pub mod Manager
