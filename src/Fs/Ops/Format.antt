-- ===== src/Fs/Ops/Format.antt =====
-- fs/operations.c, `tfs_init`: the file system is set up, with an empty root directory.
use tecnico_fs_so.Prelude.{
  refl, List, [], ap, arith, get_elem?, length, pos, set, some, suc, true, zero, ℕ, ◌<◌, ◌∷◌, ◌≡◌,
  ◌≤◌, Bool-cases, get_elem?-set_ne, inl, inr, ◌*◌, ◌==◌, ◌∙◌, ==→eq, false, get_elem?-set_self,
  length-set, lt_of_get_elem?, minus_one,
}
use tecnico_fs_so.Fs.Ops.Root.{IsMounted}
use tecnico_fs_so.Fs.Types.{
  Inode, Params, State, AllocationState, Memory, taken, OpenFileEntry, free, dir_entry_size,
}
use tecnico_fs_so.Fs.Setup.{fill_free, state_init}
use tecnico_fs_so.Fs.Inodes.{max_dir_entries}
use tecnico_fs_so.Fs.Entries.WellFormed.{Absent, NoneLive, NoneLive-Absent, NoneLive-IsListing}
use tecnico_fs_so.Fs.Entries.{clear_inumbers}
use tecnico_fs_so.Fs.Dir.Laws.{listing_of}
use tecnico_fs_so.Fs.Setup.Init.{AllFree, fill_free-AllFree}
use tecnico_fs_so.Fs.Run.{ok}
use tecnico_fs_so.Fs.Files.WriteBack.{BlocksExist}
use tecnico_fs_so.Fs.Entries.Cleared.{clear_inumbers-NoneLive, length-clear_inumbers}
use tecnico_fs_so.Fs.Ops.{tfs_init}
use tecnico_fs_so.Fs.Dir.Access.{inumber_of}
use tecnico_fs_so.Fs.Dir.{entry_inumber}
use tecnico_fs_so.Fs.Inodes.CreateRoot.{with_root, inode_create-root, root_inode}

-- Each call of `malloc` in `state_init` returns a table that is long enough.
pub record Granted (params : Params) (mem : Memory) : Type 0 where
  pub inode_table : List Inode
  pub freeinode_ts : List AllocationState
  pub fs_data : List (List ℕ)
  pub free_blocks : List AllocationState
  pub open_file_table : List OpenFileEntry
  pub free_open_file_entries : List AllocationState
  pub memory : mem ≡ record {
    inode_table = some inode_table;
    inode_locks = true;
    freeinode_ts = some freeinode_ts;
    fs_data = some fs_data;
    dir_locks = true;
    free_blocks = some free_blocks;
    open_file_table = some open_file_table;
    free_open_file_entries = some free_open_file_entries;
  }
  pub inodes : params.max_inode_count ≤ length inode_table
  pub inode_marks : params.max_inode_count ≤ length freeinode_ts
  pub block_marks : params.max_block_count ≤ length free_blocks
  pub data_blocks :
      (b : ℕ)
      → b < params.max_block_count
      → (block : List ℕ) × (get_elem? fs_data b ≡ some block) × (length block ≡ params.block_size)
  pub handles : params.max_open_files_count ≤ length open_file_table
  pub handle_marks : params.max_open_files_count ≤ length free_open_file_entries

-- The state with a file system that has an empty root directory and nothing else.
pub record Formatted (params : Params) (t : State) (block : List ℕ) : Type 0 where
  pub set_up : IsMounted t block
  pub params_set : t.fs_params ≡ params
  pub no_names : (name : List ℕ) → Absent name (listing_of t block)
  pub inodes_free :
      (k : ℕ) → 0 < k → k < params.max_inode_count → get_elem? t.freeinode_ts k ≡ some free
  pub blocks_free :
      (b : ℕ) → 0 < b → b < params.max_block_count → get_elem? t.free_blocks b ≡ some free
  pub handles_free : AllFree params.max_open_files_count t.free_open_file_entries

pub length-fill_free :
    (n : ℕ) (table : List AllocationState) → length (fill_free n table) ≡ length table
unfolding fill_free
length-fill_free zero table = refl
length-fill_free (suc n) [] = refl
length-fill_free (suc n) (a ∷ table) = ap suc (length-fill_free n table)

module _ (s : State) {params : Params} {mem : Memory} (g : Granted params mem)
    (p : 0 < params.max_inode_count) (q : 0 < params.max_block_count)
    (bytes : 0 < params.block_size) where
  -- The state after `state_init`.
  abbrev tables : State
  tables = record {
    fs_params = params;
    mounted = true;
    inode_table = g.inode_table;
    freeinode_ts = fill_free params.max_inode_count g.freeinode_ts;
    fs_data = g.fs_data;
    free_blocks = fill_free params.max_block_count g.free_blocks;
    open_file_table = g.open_file_table;
    free_open_file_entries = fill_free params.max_open_files_count g.free_open_file_entries;
  }

  abbrev first_block : List ℕ
  first_block = (g.data_blocks 0 q).0

  abbrev root_block : List ℕ
  root_block = clear_inumbers (max_dir_entries tables) 0 first_block

  room : max_dir_entries tables * dir_entry_size ≤ length first_block
  room = let (block, at, size) = g.data_blocks 0 q in omega (arith, size)

  no_names : NoneLive (listing_of (with_root tables first_block) root_block)
  no_names = clear_inumbers-NoneLive (max_dir_entries tables) first_block room

  all_blocks : BlocksExist (with_root tables first_block)
  all_blocks = record {
    marks = omega (
      arith,
      length-set (fill_free params.max_block_count g.free_blocks) 0 taken,
      length-fill_free params.max_block_count g.free_blocks,
      g.block_marks,
    );
    block_of = λ b lt. elim (Bool-cases (b == 0)) [
      | inl first ↦
          let (block, at, size) = g.data_blocks 0 q in
          let same : b ≡ 0 = ==→eq b 0 first in
          (
            root_block,
            ap (get_elem? (set g.fs_data 0 root_block)) same
                ∙ get_elem?-set_self g.fs_data 0 root_block (lt_of_get_elem? g.fs_data 0 block at),
            length-clear_inumbers (max_dir_entries tables) 0 first_block ∙ size,
          )
      | inr other ↦
          let (block, at, size) = g.data_blocks b lt in
          (block, get_elem?-set_ne g.fs_data 0 b root_block (λ e. ground arith) ∙ at, size)
    ];
  }

  names-Absent :
      (name : List ℕ) → Absent name (listing_of (with_root tables first_block) root_block)
  names-Absent name =
      NoneLive-Absent name (listing_of (with_root tables first_block) root_block) no_names

  with_root-IsMounted : IsMounted (with_root tables first_block) root_block
  with_root-IsMounted =
      let (block, at, size) = g.data_blocks 0 q in
      let marks_size = length-fill_free params.max_inode_count g.freeinode_ts in
      record {
        root = record {
          node = root_inode params.block_size;
          at_inode = get_elem?-set_self g.inode_table 0 _ (omega (arith, g.inodes));
          is_directory = refl;
          pointer = refl;
          valid_block = q;
          block_at =
              get_elem?-set_self g.fs_data 0 root_block (lt_of_get_elem? g.fs_data 0 block at);
          long = omega (arith, room, length-clear_inumbers (max_dir_entries tables) 0 first_block);
          listing =
              NoneLive-IsListing (listing_of (with_root tables first_block) root_block) no_names;
        };
        root_valid = p;
        block_bytes = bytes;
        root_in_use =
            get_elem?-set_self (fill_free params.max_inode_count g.freeinode_ts) 0 taken
              (omega (arith, g.inode_marks, marks_size));
        root_block_in_use =
            get_elem?-set_self (fill_free params.max_block_count g.free_blocks) 0 taken
              (omega (arith, g.block_marks, length-fill_free params.max_block_count g.free_blocks));
        inodes = record {
          inode_marks = omega (
            arith,
            g.inode_marks,
            marks_size,
            length-set (fill_free params.max_inode_count g.freeinode_ts) 0 taken,
          );
          inode_entries =
              omega (arith, g.inodes, length-set g.inode_table 0 (root_inode params.block_size));
        };
        handles = record {
          handle_marks = omega (
            arith,
            g.handle_marks,
            length-fill_free params.max_open_files_count g.free_open_file_entries,
          );
          handle_entries = g.handles;
        };
        blocks = all_blocks;
        named = λ name k e.
            let none_found : inumber_of name (listing_of (with_root tables first_block) root_block)
                ≡ minus_one =
              ap entry_inumber (names-Absent name) in
            cc;
      }

  -- The tables that `malloc` returned are long enough, there is an inode and a data block at least,
  -- and blocks are not empty: `tfs_init` on a file system that is not set up returns 0 and sets it up, with a root
  -- directory without names in inode 0 and block 0; all other inodes and blocks and all handles are
  -- free. What the memory held does not matter.
  pub tfs_init-Formatted :
      s.mounted ≡ false
      → (t : State) × (block : List ℕ) × (tfs_init (some params) mem s ≡ ok (pos 0) t)
        × Formatted params t block
  unfolding tfs_init state_init
  tfs_init-Formatted unmounted =
      let (block, at, size) = g.data_blocks 0 q in
      let inode_free : get_elem? (fill_free params.max_inode_count g.freeinode_ts) 0 ≡ some free =
        fill_free-AllFree params.max_inode_count g.freeinode_ts g.inode_marks 0 p in
      let block_free : get_elem? (fill_free params.max_block_count g.free_blocks) 0 ≡ some free =
        fill_free-AllFree params.max_block_count g.free_blocks g.block_marks 0 q in
      (
        with_root tables first_block,
        root_block,
        rw g.memory (
            rw unmounted (
              rw
                (inode_create-root tables bytes p q inode_free block_free (omega (arith, g.inodes))
                  at)
                refl)),
        record {
          set_up = with_root-IsMounted;
          params_set = refl;
          no_names = names-Absent;
          inodes_free = λ k above lt.
              get_elem?-set_ne (fill_free params.max_inode_count g.freeinode_ts) 0 k taken
                (λ e. ground arith)
              ∙ fill_free-AllFree params.max_inode_count g.freeinode_ts g.inode_marks k lt;
          blocks_free = λ b above lt.
              get_elem?-set_ne (fill_free params.max_block_count g.free_blocks) 0 b taken
                (λ e. ground arith)
              ∙ fill_free-AllFree params.max_block_count g.free_blocks g.block_marks b lt;
          handles_free =
              fill_free-AllFree params.max_open_files_count g.free_open_file_entries g.handle_marks;
        },
      )
