-- ===== src/Fs/Types.antt =====
-- The data of fs/state.h, fs/config.h and fs/operations.h, and the static state of fs/state.c.
use tecnico_fs_so.Prelude.{ℕ, ℤ, Bool, List, Option}

-- ROOT_DIR_INUM, MAX_FILE_NAME, and sizeof(dir_entry_t): 40 bytes of name and an `int`.
abbrev pub root_dir_inum : ℕ
root_dir_inum = 0

abbrev pub max_file_name : ℕ
max_file_name = 40

abbrev pub dir_entry_size : ℕ
dir_entry_size = 44

-- A `char const *`: `none` is NULL, and a string is its bytes before the NUL.
abbrev pub CharPtr : Type 0
CharPtr = Option (List ℕ)

pub record Params : Type 0 where
  pub max_inode_count : ℕ
  pub max_block_count : ℕ
  pub max_open_files_count : ℕ
  pub block_size : ℕ

pub data InodeType : Type 0 where
  t_file t_directory t_sym_link : InodeType

pub record Inode : Type 0 where
  pub i_node_type : InodeType
  pub i_size : ℕ
  pub i_data_block : ℤ
  pub i_hard_links : ℕ

-- `d_name` is the whole array, NUL and what follows it included.
pub record DirEntry : Type 0 where
  pub d_name : List ℕ
  pub d_inumber : ℤ

pub data AllocationState : Type 0 where
  free taken : AllocationState

pub record OpenFileEntry : Type 0 where
  pub of_inumber : ℤ
  pub of_offset : ℕ

-- The static variables of state.c but the locks. `fs_data` is the array of blocks, each the list
-- of its bytes. `mounted` is `inode_table != NULL`; a table that is NULL has no entries.
pub record State : Type 0 where
  pub fs_params : Params
  pub mounted : Bool
  pub inode_table : List Inode
  pub freeinode_ts : List AllocationState
  pub fs_data : List (List ℕ)
  pub free_blocks : List AllocationState
  pub open_file_table : List OpenFileEntry
  pub free_open_file_entries : List AllocationState

-- What the calls of `malloc` in `state_init` return: `none` is NULL, and the contents of the
-- memory are whatever they are.
pub record Memory : Type 0 where
  pub inode_table : Option (List Inode)
  pub inode_locks : Bool
  pub freeinode_ts : Option (List AllocationState)
  pub fs_data : Option (List (List ℕ))
  pub dir_locks : Bool
  pub free_blocks : Option (List AllocationState)
  pub open_file_table : Option (List OpenFileEntry)
  pub free_open_file_entries : Option (List AllocationState)
