-- ===== src/Fs/Setup.antt =====
-- fs/state.c, `state_init` and `state_destroy`.
pub mod Init
use tecnico_fs_so.Prelude.{
  ℕ, zero, suc, ℤ, pos, minus_one, Bool, true, false, ◌&&◌, List, [], ◌∷◌, Option, none, some,
  if◌then◌else◌,
}
use tecnico_fs_so.Fs.Types.{Params, AllocationState, free, Memory}
use tecnico_fs_so.Fs.Run.{M, pure, gets, modify, ◌>>=◌, ◌>>◌}

abbrev pub is_some : {A : Type 0} → Option A → Bool
is_some none = false
is_some (some a) = true

-- A table that is NULL has no entries.
abbrev pub or_empty : {A : Type 0} → Option (List A) → List A
or_empty none = []
or_empty (some table) = table

-- `for (i = 0; i < n; i++) table[i] = FREE`.
unfoldable pub fill_free : ℕ → List AllocationState → List AllocationState
fill_free zero table = table
fill_free (suc n) [] = []
fill_free (suc n) (a ∷ table) = free ∷ fill_free n table

abbrev pub all_allocated : Memory → Bool
all_allocated mem =
    is_some mem.inode_table
    && (mem.inode_locks
        && (is_some mem.freeinode_ts
            && (is_some mem.fs_data
                && (mem.dir_locks
                    && (is_some mem.free_blocks
                        && (is_some mem.open_file_table && is_some mem.free_open_file_entries))))))

-- The tables are marked as free if all of them were allocated.
abbrev pub mark_free : Bool → Params → M ℤ
mark_free false params = pure minus_one
mark_free true params = do
  modify (λ s. record s {
    freeinode_ts = fill_free params.max_inode_count s.freeinode_ts;
    free_blocks = fill_free params.max_block_count s.free_blocks;
    free_open_file_entries = fill_free params.max_open_files_count s.free_open_file_entries;
  })
  pure (pos 0)

abbrev pub init_unless : Bool → Params → Memory → M ℤ
init_unless true params mem = pure minus_one
init_unless false params mem = do
  modify (λ s. record s {
    mounted = is_some mem.inode_table;
    inode_table = or_empty mem.inode_table;
    freeinode_ts = or_empty mem.freeinode_ts;
    fs_data = or_empty mem.fs_data;
    free_blocks = or_empty mem.free_blocks;
    open_file_table = or_empty mem.open_file_table;
    free_open_file_entries = or_empty mem.free_open_file_entries;
  })
  mark_free (all_allocated mem) params

-- `mem` is what `malloc` returns. The parameters are stored before the test.
unfoldable pub state_init : Params → Memory → M ℤ
state_init params mem = do
  modify (λ s. record s { fs_params = params })
  mounted ← gets (λ s. s.mounted)
  init_unless mounted params mem

unfoldable pub state_destroy : M ℤ
state_destroy = do
  mounted ← gets (λ s. s.mounted)
  if mounted
      then (do
        modify (λ s. record s {
          mounted = false;
          inode_table = [];
          freeinode_ts = [];
          fs_data = [];
          free_blocks = [];
          open_file_table = [];
          free_open_file_entries = [];
        })
        pure (pos 0))
      else pure minus_one
