-- ===== src/Fs/Ops.antt =====
-- fs/operations.c: the calls of a client. Each is one run of the state monad; the locks that make
-- a call atomic are not part of the state.
pub mod Root
pub mod Open
pub mod Keep
pub mod Names
pub mod Empty
pub mod OpenEmpty
pub mod Copy
pub mod CopyLoop
pub mod CopyLaws
pub mod Format
pub mod ReadBack
pub mod Change
pub mod Unlink
pub mod UnlinkSteps
pub mod UnlinkLaws
pub mod Link
mod Examples
use tecnico_fs_so.Prelude.{
  ℕ, zero, suc, ◌+◌, ◌-◌, ◌^◌, ◌/◌, ◌%◌, ℤ, pos, minus_one, is_minus_one, int_eq, nonneg, Bool,
  true, false, not, ◌&&◌, ◌||◌, List, [], ◌∷◌, ◌++◌, length, take, drop, Option, none, some,
  if◌then◌else◌, ltb, ◌==◌, bytes_eq,
}
use tecnico_fs_so.Fs.Types.{
  Params, Memory, CharPtr, root_dir_inum, InodeType, t_file, t_directory, t_sym_link,
}
use tecnico_fs_so.Fs.Run.{
  M, fail, overrun, out_of_fuel, pure, gets, assert, in_bounds, update_inode, read_inode,
  read_block, write_block, ◌>>=◌, ◌>>◌,
}
use tecnico_fs_so.Fs.Blocks.{data_block_alloc, data_block_free, data_block_get}
use tecnico_fs_so.Fs.Entries.{c_string}
use tecnico_fs_so.Fs.Inodes.{inode_create, inode_delete, inode_get}
use tecnico_fs_so.Fs.Dir.{add_dir_entry, clear_dir_entry, find_in_dir}
use tecnico_fs_so.Fs.Files.{
  add_to_open_file_table, remove_from_open_file_table, write_to_open_file, read_from_open_file,
  delete_if_unused,
}
use tecnico_fs_so.Fs.Setup.{state_init, state_destroy}

abbrev pub is_dir : InodeType → Bool
is_dir t_directory = true
is_dir t_file = false
is_dir t_sym_link = false

abbrev pub is_sym_link : InodeType → Bool
is_sym_link t_sym_link = true
is_sym_link t_file = false
is_sym_link t_directory = false

abbrev starts_with_slash : List ℕ → Bool
starts_with_slash [] = false
starts_with_slash (c ∷ cs) = c == b'/'

abbrev pub valid_pathname : CharPtr → Bool
valid_pathname none = false
valid_pathname (some name) = ltb 1 (length name) && starts_with_slash name

-- `name + 1`.
abbrev pub after_slash : CharPtr → List ℕ
after_slash none = []
after_slash (some name) = drop 1 name

unfoldable pub tfs_default_params : Params
tfs_default_params = record {
  max_inode_count = 64;
  max_block_count = 1024;
  max_open_files_count = 16;
  block_size = 1024;
}

abbrev or_default : Option Params → Params
or_default none = tfs_default_params
or_default (some params) = params

unfoldable pub tfs_init : Option Params → Memory → M ℤ
tfs_init params_ptr mem = do
  done ← state_init (or_default params_ptr) mem
  if int_eq done (pos 0)
      then (do
        root ← inode_create t_directory
        if int_eq root (pos root_dir_inum) then pure (pos 0) else pure minus_one)
      else pure minus_one

unfoldable pub tfs_destroy : M ℤ
tfs_destroy = state_destroy

-- The root inode is given by its index.
unfoldable pub tfs_lookup : CharPtr → ℕ → M ℤ
tfs_lookup name root_inode = do
  root ← read_inode root_inode
  if not (int_eq root.i_data_block (pos 0)) || not (valid_pathname name)
      then pure minus_one
      else find_in_dir root_inode (after_slash name)

-- The flags of `tfs_file_mode_t`: bit 0, 1 and 2.
abbrev has_bit : ℕ → ℕ → Bool
has_bit k mode = mode / 2 ^ k % 2 == 1

abbrev pub tfs_o_creat : ℕ
tfs_o_creat = 1

abbrev pub tfs_o_trunc : ℕ
tfs_o_trunc = 2

abbrev pub tfs_o_append : ℕ
tfs_o_append = 4

abbrev pub wants_creat : ℕ → Bool
wants_creat = has_bit 0

abbrev pub wants_trunc : ℕ → Bool
wants_trunc = has_bit 1

abbrev pub wants_append : ℕ → Bool
wants_append = has_bit 2

-- The string at the start of a block, which must end within the block.
abbrev pub target_of : List ℕ → M CharPtr
target_of block = do
  in_bounds (ltb (length (c_string block)) (length block))
  pure (some (c_string block))

abbrev pub truncate : ℕ → Bool → M (Unit {0})
truncate i false = pure tt
truncate i true = do
  inode ← read_inode i
  if ltb 0 inode.i_size
      then (do data_block_free inode.i_data_block; update_inode i (λ n. record n { i_size = 0 }))
      else pure tt

-- `again` is the recursive call, on the target of a symbolic link.
abbrev pub open_existing : (CharPtr → M ℤ) → ℤ → ℕ → M ℤ
open_existing again inum mode = do
  i ← inode_get inum
  inode ← read_inode i
  assert (not (is_dir inode.i_node_type))
  if is_sym_link inode.i_node_type
      then (do
        b ← data_block_get inode.i_data_block
        block ← read_block b
        target ← target_of block
        again target)
      else (do
        truncate i (wants_trunc mode)
        current ← read_inode i
        add_to_open_file_table inum (if wants_append mode then current.i_size else 0))

abbrev pub open_new : CharPtr → ℕ → M ℤ
open_new name root = do
  inum ← inode_create t_file
  if is_minus_one inum then pure minus_one else (do
    added ← add_dir_entry root (after_slash name) inum
    if is_minus_one added
        then (do inode_delete inum; pure minus_one)
        else add_to_open_file_table inum 0)

abbrev pub open_step : (CharPtr → M ℤ) → CharPtr → ℕ → M ℤ
open_step again name mode =
    if valid_pathname name
    then (do
      root ← inode_get (pos root_dir_inum)
      inum ← tfs_lookup name root
      if nonneg inum
          then open_existing again inum mode
          else (if wants_creat mode then open_new name root else pure minus_one))
    else pure minus_one

-- The fuel counts the symbolic links that are followed.
unfoldable pub tfs_open : ℕ → CharPtr → ℕ → M ℤ
tfs_open zero name mode = fail out_of_fuel
tfs_open (suc fuel) name mode = open_step (λ target. tfs_open fuel target mode) name mode

unfoldable pub tfs_close : ℤ → M ℤ
tfs_close fhandle = remove_from_open_file_table fhandle

unfoldable pub tfs_write : ℤ → Option (List ℕ) → ℕ → M ℤ
tfs_write fhandle buffer to_write = write_to_open_file fhandle buffer to_write

unfoldable pub tfs_read : ℤ → Bool → ℕ → M (ℤ × List ℕ)
tfs_read fhandle buffer len = read_from_open_file fhandle buffer len

-- `strcmp(target, link) == 0`.
abbrev pub same_path : CharPtr → CharPtr → Bool
same_path (some target) (some link) = bytes_eq target link
same_path none link = false
same_path (some target) none = false

-- `memcpy(block, target, strlen(target) + 1)`.
abbrev pub write_target : ℕ → CharPtr → M (Unit {0})
write_target b none = fail overrun
write_target b (some target) = write_block b 0 (target ++ 0 ∷ [])

unfoldable pub tfs_sym_link : CharPtr → CharPtr → M ℤ
tfs_sym_link target link =
    if not (valid_pathname target) || (not (valid_pathname link) || same_path target link)
    then pure minus_one
    else (do
      link_inum ← inode_create t_sym_link
      if is_minus_one link_inum then pure minus_one else (do
        i ← inode_get link_inum
        bnum ← data_block_alloc
        if is_minus_one bnum then (do inode_delete link_inum; pure minus_one) else (do
          update_inode i (λ n. record n { i_data_block = bnum })
          b ← data_block_get bnum
          write_target b target
          root ← inode_get (pos root_dir_inum)
          added ← add_dir_entry root (after_slash link) link_inum
          if is_minus_one added
              then (do inode_delete link_inum; pure minus_one)
              else pure (pos 0))))

unfoldable pub tfs_link : CharPtr → CharPtr → M ℤ
tfs_link target link =
    if not (valid_pathname target) || not (valid_pathname link) then pure minus_one else (do
      root ← inode_get (pos root_dir_inum)
      target_inum ← tfs_lookup target root
      if is_minus_one target_inum then pure minus_one else (do
        added ← add_dir_entry root (after_slash link) target_inum
        if is_minus_one added then pure minus_one else (do
          i ← inode_get target_inum
          inode ← read_inode i
          if is_sym_link inode.i_node_type
              then (do clear_dir_entry root (after_slash link); pure minus_one)
              else (do
                update_inode i (λ n. record n { i_hard_links = (n.i_hard_links + 1) % 2 ^ 64 })
                pure (pos 0)))))

unfoldable pub tfs_unlink : CharPtr → M ℤ
tfs_unlink target =
    if valid_pathname target
    then (do
      root ← inode_get (pos root_dir_inum)
      target_inum ← tfs_lookup target root
      if is_minus_one target_inum then pure minus_one else (do
        i ← inode_get target_inum
        inode ← read_inode i
        assert (not (is_dir inode.i_node_type))
        cleared ← clear_dir_entry root (after_slash target)
        if is_minus_one cleared then pure minus_one else (do
          update_inode i (λ n. record n { i_hard_links = (n.i_hard_links + 2 ^ 64 - 1) % 2 ^ 64 })
          delete_if_unused target_inum i
          pure (pos 0))))
    else pure minus_one

-- The copying loop over what is left of the external file, in chunks of `n` bytes: `true` if the
-- file was read to its end.
unfoldable pub copy_chunks : ℕ → ℕ → ℤ → List ℕ → M Bool
copy_chunks zero n dest_file rest = fail out_of_fuel
copy_chunks (suc fuel) n dest_file rest = do
  let chunk = take n rest
  if length chunk == 0 then pure true else (do
    written ← tfs_write dest_file (some chunk) (length chunk)
    if int_eq written (pos (length chunk))
        then copy_chunks fuel n dest_file (drop n rest)
        else pure false)

-- `source` is the content of the external file, `none` if the path is NULL or `fopen` fails, and
-- `closes` says whether `fclose` succeeds. Each round but the last reads a byte at least, so
-- `length content + 1` rounds are enough.
abbrev pub copy_into : ℕ → List ℕ → Bool → CharPtr → M ℤ
copy_into fuel content closes dest_path = do
  dest_file ← tfs_open fuel dest_path (tfs_o_creat + tfs_o_trunc)
  if is_minus_one dest_file then pure minus_one else (do
    block_size ← gets (λ s. s.fs_params.block_size)
    done ← copy_chunks (length content + 1) block_size dest_file content
    closed ← tfs_close dest_file
    if not done || (not closes || is_minus_one closed) then pure minus_one else pure (pos 0))

unfoldable pub tfs_copy_from_external_fs : ℕ → Option (List ℕ) → Bool → CharPtr → M ℤ
tfs_copy_from_external_fs fuel none closes dest_path = pure minus_one
tfs_copy_from_external_fs fuel (some content) closes dest_path =
    if valid_pathname dest_path then copy_into fuel content closes dest_path else pure minus_one
