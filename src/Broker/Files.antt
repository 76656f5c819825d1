-- ===== src/Broker/Files.antt =====
-- mbroker/mbroker.c uses the file system through the calls of fs/operations.h: these calls as an
-- interface, and fs/operations.c behind it.
use tecnico_fs_so.Prelude.{ℕ, List, minus_one, some, ℤ}
use tecnico_fs_so.Fs.Run.{M, Run, ok, halt}
use tecnico_fs_so.Fs.Ops.{tfs_open, tfs_close, tfs_unlink}

-- The calls, each with its result and the files after it. A path is a string.
pub record FileSystem : Type 1 where
  pub Store : Type 0
  pub open_file : List ℕ → ℕ → Store → ℤ × Store
  pub close_file : ℤ → Store → ℤ × Store
  pub unlink_file : List ℕ → Store → ℤ × Store

-- The files of fs/operations.c, or the fault in which a call ended before: then every call fails.
abbrev pub TfsStore : Type 0
TfsStore = Run (Unit {0})

abbrev pub result_of : Run ℤ → ℤ × TfsStore
result_of (ok r s) = (r, ok tt s)
result_of (halt e) = (minus_one, halt e)

abbrev pub call_on : M ℤ → TfsStore → ℤ × TfsStore
call_on m (ok _ s) = result_of (m s)
call_on m (halt e) = (minus_one, halt e)

-- `fuel` bounds the symbolic links that an opened path leads through.
abbrev pub tfs : ℕ → FileSystem
tfs fuel = record {
  Store = TfsStore;
  open_file = λ name mode. call_on (tfs_open fuel (some name) mode);
  close_file = λ fhandle. call_on (tfs_close fhandle);
  unlink_file = λ name. call_on (tfs_unlink (some name));
}
