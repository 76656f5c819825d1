-- ===== src/Fs/Samples.antt =====
-- A small file system for the tests and the instances of theorems.
use tecnico_fs_so.Prelude.{ℕ, pos, true, false, List, [], ◌∷◌, replicate, some, ◌++◌}
use tecnico_fs_so.Fs.Types.{
  Params, Memory, State, Inode, t_file, taken, CharPtr, AllocationState, t_directory, free,
}

abbrev pub small : Params
small = record {
  max_inode_count = 3;
  max_block_count = 3;
  max_open_files_count = 2;
  block_size = 100;
}

abbrev pub any_inode : Inode
any_inode = record { i_node_type = t_file; i_size = 7; i_data_block = pos 9; i_hard_links = 5 }

-- What `malloc` returns is not zeroed.
abbrev pub small_memory : Memory
small_memory = record {
  inode_table = some (replicate 3 any_inode);
  inode_locks = true;
  freeinode_ts = some (replicate 3 taken);
  fs_data = some (replicate 3 (replicate 100 46));
  dir_locks = true;
  free_blocks = some (replicate 3 taken);
  open_file_table = some (replicate 2 (record { of_inumber = pos 8; of_offset = 8 }));
  free_open_file_entries = some (replicate 2 taken);
}

-- Before the first call: no table is allocated.
abbrev pub unmounted : State
unmounted = record {
  fs_params = record {
    max_inode_count = 0;
    max_block_count = 0;
    max_open_files_count = 0;
    block_size = 0;
  };
  mounted = false;
  inode_table = [];
  freeinode_ts = [];
  fs_data = [];
  free_blocks = [];
  open_file_table = [];
  free_open_file_entries = [];
}

-- "/f", "/g" and the string "hello".
abbrev pub path_f : CharPtr
path_f = some (b'/' ∷ b'f' ∷ [])

abbrev pub path_g : CharPtr
path_g = some (b'/' ∷ b'g' ∷ [])

abbrev pub hello : List ℕ
hello = b'h' ∷ b'e' ∷ b'l' ∷ b'l' ∷ b'o' ∷ []

-- A file system with two files, of which the first is open twice, and one free block.
abbrev pub with_files : Params
with_files = record {
  max_inode_count = 3;
  max_block_count = 4;
  max_open_files_count = 2;
  block_size = 8;
}

abbrev pub file_node : Inode
file_node = record { i_node_type = t_file; i_size = 5; i_data_block = pos 1; i_hard_links = 1 }

abbrev pub other_node : Inode
other_node = record { i_node_type = t_file; i_size = 3; i_data_block = pos 2; i_hard_links = 1 }

abbrev pub root_node : Inode
root_node = record { i_node_type = t_directory; i_size = 8; i_data_block = pos 0; i_hard_links = 1 }

abbrev pub file_block : List ℕ
file_block = b'h' ∷ b'e' ∷ b'l' ∷ b'l' ∷ b'o' ∷ 46 ∷ 46 ∷ 46 ∷ []

abbrev pub new_block : List ℕ
new_block = b'h' ∷ b'e' ∷ b'l' ∷ b'x' ∷ b'y' ∷ 46 ∷ 46 ∷ 46 ∷ []

abbrev pub other_block : List ℕ
other_block = b'a' ∷ b'b' ∷ b'c' ∷ 46 ∷ 46 ∷ 46 ∷ 46 ∷ 46 ∷ []

abbrev pub spare_block : List ℕ
spare_block = 46 ∷ 46 ∷ 46 ∷ 46 ∷ 46 ∷ 46 ∷ 46 ∷ 46 ∷ []

-- The bytes of the first file, the offset of its first handle, and the use of the last block vary.
abbrev pub file_system : List ℕ → ℕ → AllocationState → State
file_system block offset last = record {
  fs_params = with_files;
  mounted = true;
  inode_table = root_node ∷ file_node ∷ other_node ∷ [];
  freeinode_ts = taken ∷ taken ∷ taken ∷ [];
  fs_data = spare_block ∷ block ∷ other_block ∷ spare_block ∷ [];
  free_blocks = taken ∷ taken ∷ taken ∷ last ∷ [];
  open_file_table =
      record { of_inumber = pos 1; of_offset = offset }
      ∷ record { of_inumber = pos 1; of_offset = 3 }
      ∷ [];
  free_open_file_entries = taken ∷ taken ∷ [];
}

abbrev pub xy : List ℕ
xy = b'x' ∷ b'y' ∷ []

-- A root directory with the name "f" for inode 1, and an entry that was never used.
abbrev pub root_block : List ℕ
root_block =
    b'f' ∷ replicate 39 0
    ++ 1 ∷ 0 ∷ 0 ∷ 0 ∷ []
    ++ replicate 40 46
    ++ replicate 4 255
    ++ replicate 12 46

abbrev pub directory_system : State
directory_system = record {
  fs_params = small;
  mounted = true;
  inode_table =
      record { i_node_type = t_directory; i_size = 100; i_data_block = pos 0; i_hard_links = 1 }
      ∷ other_node
      ∷ other_node
      ∷ [];
  freeinode_ts = taken ∷ taken ∷ free ∷ [];
  fs_data = root_block ∷ replicate 100 46 ∷ replicate 100 46 ∷ [];
  free_blocks = taken ∷ taken ∷ taken ∷ [];
  open_file_table = replicate 2 (record { of_inumber = pos 8; of_offset = 8 });
  free_open_file_entries = free ∷ free ∷ [];
}

abbrev pub name_f : List ℕ
name_f = b'f' ∷ []

abbrev pub name_g : List ℕ
name_g = b'g' ∷ []

-- An empty root directory, whose names were never written.
abbrev pub empty_root : List ℕ
empty_root =
    replicate 40 46 ++ replicate 4 255 ++ replicate 40 46 ++ replicate 4 255 ++ replicate 12 46

abbrev pub empty_system : State
empty_system = record {
  fs_params = small;
  mounted = true;
  inode_table =
      record { i_node_type = t_directory; i_size = 100; i_data_block = pos 0; i_hard_links = 1 }
      ∷ any_inode
      ∷ any_inode
      ∷ [];
  freeinode_ts = taken ∷ free ∷ free ∷ [];
  fs_data = empty_root ∷ replicate 100 46 ∷ replicate 100 46 ∷ [];
  free_blocks = taken ∷ free ∷ free ∷ [];
  open_file_table = replicate 2 (record { of_inumber = pos 8; of_offset = 8 });
  free_open_file_entries = free ∷ free ∷ [];
}
