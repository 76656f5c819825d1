-- ===== src/Fs/Inodes/CreateRoot.antt =====
-- fs/state.c, `inode_create` for the root directory, the first inode of a new file system.
use tecnico_fs_so.Prelude.{
  refl, List, [], arith, get_elem?, get_elem?-some, length, pos, set, some, suc, zero, ℕ, ◌<◌, ◌∷◌,
  ◌≡◌, pos→==_false,
}
use tecnico_fs_so.Fs.Inodes.Create.{update-set}
use tecnico_fs_so.Fs.Types.{Inode, State, AllocationState, t_directory, taken, free}
use tecnico_fs_so.Fs.Tables.{first_free, found}
use tecnico_fs_so.Fs.Inodes.{inode_create, inode_alloc, max_dir_entries}
use tecnico_fs_so.Fs.Entries.{clear_inumbers}
use tecnico_fs_so.Fs.Blocks.{data_block_alloc}
use tecnico_fs_so.Fs.Run.{ok}
use tecnico_fs_so.Fs.Run.Steps.{index-pos, update_inode-ok, read_block-ok}
use tecnico_fs_so.Fs.Files.Handles.{data_block_get-pointer}

first_free-first :
    (n : ℕ) (table : List AllocationState)
    → 0 < n
    → get_elem? table 0 ≡ some free
    → first_free n table ≡ found 0
unfolding first_free
first_free-first zero table p e = absurd (omega arith)
first_free-first (suc n) [] p e = cc
first_free-first (suc n) (a ∷ table) p e =
    let head_free : a ≡ free = ground arith in rw head_free refl

abbrev pub root_inode : ℕ → Inode
root_inode size = record {
  i_node_type = t_directory;
  i_size = size;
  i_data_block = pos 0;
  i_hard_links = 1;
}

-- The state after the root directory was made.
abbrev pub with_root : State → List ℕ → State
with_root s block = record s {
  freeinode_ts = set s.freeinode_ts 0 taken;
  inode_table = set s.inode_table 0 (root_inode s.fs_params.block_size);
  free_blocks = set s.free_blocks 0 taken;
  fs_data = set s.fs_data 0 (clear_inumbers (max_dir_entries s) 0 block);
}

pub inode_create-root :
    (s : State) {block : List ℕ}
    → 0 < s.fs_params.block_size
    → 0 < s.fs_params.max_inode_count
    → 0 < s.fs_params.max_block_count
    → get_elem? s.freeinode_ts 0 ≡ some free
    → get_elem? s.free_blocks 0 ≡ some free
    → 0 < length s.inode_table
    → get_elem? s.fs_data 0 ≡ some block
    → inode_create t_directory s ≡ ok (pos 0) (with_root s block)
unfolding inode_create inode_alloc data_block_alloc
inode_create-root s {block} bytes p q inode_free block_free in_table at =
    let (old, at_inode) = get_elem?-some s.inode_table 0 in_table in
    let a : State = record s { freeinode_ts = set s.freeinode_ts 0 taken } in
    let directory : Inode = record old { i_node_type = t_directory } in
    let sized : Inode = record directory {
      i_size = s.fs_params.block_size;
      i_data_block = pos 0;
    } in
    let b : State = record a { free_blocks = set s.free_blocks 0 taken } in
    let c : State = record b { inode_table = set s.inode_table 0 sized } in
    let cleared : List ℕ = clear_inumbers (max_dir_entries s) 0 block in
    let d : State = record b { fs_data = set s.fs_data 0 cleared } in
    rw
      (
        pos→==_false s.fs_params.block_size bytes,
        first_free-first s.fs_params.max_inode_count s.freeinode_ts p inode_free,
      )
      (rw (index-pos a 0) (
        rw (update_inode-ok a 0 (λ n. record n { i_node_type = t_directory }) at_inode) (
          rw
            (
              pos→==_false s.fs_params.block_size bytes,
              first_free-first s.fs_params.max_block_count s.free_blocks q block_free,
            )
            (rw
              (update-set b 0 directory
                (λ n. record n { i_size = s.fs_params.block_size; i_data_block = pos 0 }) in_table)
              (rw (data_block_get-pointer c 0 refl q) (
                rw (read_block-ok c 0 at) (
                  rw (update-set d 0 sized (λ n. record n { i_hard_links = 1 }) in_table)
                    refl)))))))
