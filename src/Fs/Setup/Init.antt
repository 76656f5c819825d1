-- ===== src/Fs/Setup/Init.antt =====
-- fs/state.c, `state_init`: what the file system is after it.
use tecnico_fs_so.Prelude.{
  ℕ, refl, Bool, List, Option, [], arith, false, get_elem?, length, minus_one, none, pos, some, suc,
  true, zero, ℤ, ◌<◌, ◌∷◌, ◌≡◌, ◌≤◌,
}
use tecnico_fs_so.Fs.Types.{AllocationState, Params, State, Memory, free}
use tecnico_fs_so.Fs.Setup.{
  fill_free, state_init, is_some, all_allocated, or_empty, init_unless, mark_free,
}
use tecnico_fs_so.Fs.Run.{Run, ok}

-- Each table that `malloc` returned has room for the entries asked for.
pub record Enough (params : Params) (mem : Memory) : Type 0 where
  pub inodes :
      (table : List AllocationState)
      → mem.freeinode_ts ≡ some table
      → params.max_inode_count ≤ length table
  pub blocks :
      (table : List AllocationState)
      → mem.free_blocks ≡ some table
      → params.max_block_count ≤ length table
  pub handles :
      (table : List AllocationState)
      → mem.free_open_file_entries ≡ some table
      → params.max_open_files_count ≤ length table

-- The first `n` entries are free.
abbrev pub AllFree : ℕ → List AllocationState → Type 0
AllFree n table = (k : ℕ) → k < n → get_elem? table k ≡ some free

-- A file system without inodes, data blocks and open files in use.
pub record Fresh (params : Params) (t : State) : Type 0 where
  pub params_set : t.fs_params ≡ params
  pub mounted : t.mounted ≡ true
  pub inodes_free : AllFree params.max_inode_count t.freeinode_ts
  pub blocks_free : AllFree params.max_block_count t.free_blocks
  pub handles_free : AllFree params.max_open_files_count t.free_open_file_entries

-- The outcome of `state_init`.
pub data Starts (s : State) (params : Params) (mem : Memory) : Run ℤ → Type 0 where
  refused : s.mounted ≡ true → Starts s params mem (ok minus_one (record s { fs_params = params }))
  no_memory :
      {t : State}
      → s.mounted ≡ false
      → all_allocated mem ≡ false
      → Starts s params mem (ok minus_one t)
  started :
      {t : State}
      → s.mounted ≡ false
      → all_allocated mem ≡ true
      → Fresh params t
      → Starts s params mem (ok (pos 0) t)

pub fill_free-AllFree :
    (n : ℕ) (table : List AllocationState) → n ≤ length table → AllFree n (fill_free n table)
unfolding fill_free
fill_free-AllFree zero table h k lt = absurd (omega arith)
fill_free-AllFree (suc n) [] h k lt = absurd (omega arith)
fill_free-AllFree (suc n) (a ∷ table) h zero lt = refl
fill_free-AllFree (suc n) (a ∷ table) h (suc k) lt =
    fill_free-AllFree n table (omega arith) k (omega arith)

or_empty-AllFree :
    (n : ℕ) (table : Option (List AllocationState))
    → is_some table ≡ true
    → ((xs : List AllocationState) → table ≡ some xs → n ≤ length xs)
    → AllFree n (fill_free n (or_empty table))
or_empty-AllFree n none p h = cc
or_empty-AllFree n (some xs) p h = fill_free-AllFree n xs (h xs refl)

-- The state after the tables are allocated and marked.
abbrev initial : State → Params → Memory → State
initial s params mem = record {
  fs_params = params;
  mounted = is_some mem.inode_table;
  inode_table = or_empty mem.inode_table;
  freeinode_ts = fill_free params.max_inode_count (or_empty mem.freeinode_ts);
  fs_data = or_empty mem.fs_data;
  free_blocks = fill_free params.max_block_count (or_empty mem.free_blocks);
  open_file_table = or_empty mem.open_file_table;
  free_open_file_entries =
      fill_free params.max_open_files_count (or_empty mem.free_open_file_entries);
}

initial-Fresh :
    (s : State) (params : Params) (mem : Memory)
    → Enough params mem
    → all_allocated mem ≡ true
    → Fresh params (initial s params mem)
initial-Fresh s params mem enough all = record {
  params_set = refl;
  mounted = ground arith;
  inodes_free =
      or_empty-AllFree params.max_inode_count mem.freeinode_ts (ground arith) enough.inodes;
  blocks_free =
      or_empty-AllFree params.max_block_count mem.free_blocks (ground arith) enough.blocks;
  handles_free =
      or_empty-AllFree params.max_open_files_count mem.free_open_file_entries (ground arith)
        enough.handles;
}

by_memory :
    (s : State) (params : Params) (mem : Memory)
    → Enough params mem
    → s.mounted ≡ false
    → (b : Bool) → all_allocated mem ≡ b
    → Starts s params mem (
        mark_free b params (record (initial s params mem) {
          freeinode_ts = or_empty mem.freeinode_ts;
          free_blocks = or_empty mem.free_blocks;
          free_open_file_entries = or_empty mem.free_open_file_entries;
        }))
by_memory s params mem enough e true all = started e all (initial-Fresh s params mem enough all)
by_memory s params mem enough e false all = no_memory e all

by_mounted :
    (s : State) (params : Params) (mem : Memory)
    → Enough params mem
    → (b : Bool) → s.mounted ≡ b
    → Starts s params mem (init_unless b params mem (record s { fs_params = params }))
by_mounted s params mem enough true e = refused e
by_mounted s params mem enough false e = by_memory s params mem enough e (all_allocated mem) refl

-- On a file system that is not initialised, `state_init` returns 0 and stores the parameters, with
-- every inode, data block and handle free, if every allocation succeeds; if one fails, it returns
-- -1. On an initialised one it returns -1 and changes nothing but the parameters, which it replaces.
-- The tables that `malloc` returns are long enough; their contents are arbitrary.
pub state_init-Starts :
    (s : State) (params : Params) (mem : Memory)
    → Enough params mem
    → Starts s params mem (state_init params mem s)
unfolding state_init
state_init-Starts s params mem enough = by_mounted s params mem enough s.mounted refl
