-- ===== src/Fs/Ops/Root.antt =====
-- fs/operations.c: the root directory, and how a call looks a path up in it.
use tecnico_fs_so.Prelude.{
  refl, List, arith, get_elem?, length, lt→ltb, pos, some, true, ℕ, ◌<◌, ◌∷◌, ◌≡◌, ◌≢◌,
}
use tecnico_fs_so.Fs.Run.{ok}
use tecnico_fs_so.Fs.Types.{taken, t_directory, CharPtr, State, Inode}
use tecnico_fs_so.Fs.Entries.Names.{IsName}
use tecnico_fs_so.Fs.Ops.{tfs_lookup, valid_pathname}
use tecnico_fs_so.Fs.Dir.Access.{IsDirectory, inumber_of, find_in_dir-inumber_of}
use tecnico_fs_so.Fs.Inodes.Create.{InodesExist}
use tecnico_fs_so.Fs.Files.Table.{HandlesExist}
use tecnico_fs_so.Fs.Dir.Laws.{listing_of}
use tecnico_fs_so.Fs.Files.WriteBack.{BlocksExist}
use tecnico_fs_so.Fs.Run.Steps.{read_inode-ok}

-- The absolute path of a name.
abbrev pub path : List ℕ → CharPtr
path name = some (b'/' ∷ name)

-- A name stands for an inode in use that has a link, and that is no directory.
pub record NamesInode (s : State) (k : ℕ) : Type 0 where
  pub valid : k < s.fs_params.max_inode_count
  pub in_use : get_elem? s.freeinode_ts k ≡ some taken
  pub node : Inode
  pub node_at : get_elem? s.inode_table k ≡ some node
  pub no_directory : node.i_node_type ≢ t_directory
  pub linked : node.i_hard_links ≢ 0

-- The file system is set up: the tables have their entries, and inode 0 is the root directory, whose
-- entries stand in block 0 and hold `block`.
pub record IsMounted (s : State) (block : List ℕ) : Type 0 where
  pub root : IsDirectory s 0 0 block
  pub root_valid : 0 < s.fs_params.max_inode_count
  pub block_bytes : 0 < s.fs_params.block_size
  pub root_in_use : get_elem? s.freeinode_ts 0 ≡ some taken
  pub root_block_in_use : get_elem? s.free_blocks 0 ≡ some taken
  pub inodes : InodesExist s
  pub handles : HandlesExist s
  pub blocks : BlocksExist s
  pub named :
      (name : List ℕ) (k : ℕ) → inumber_of name (listing_of s block) ≡ pos k → NamesInode s k

pub valid_pathname-path : (name : List ℕ) → IsName name → valid_pathname (path name) ≡ true
valid_pathname-path name n = rw (lt→ltb 1 (length (b'/' ∷ name)) (omega (arith, n.not_empty))) refl

-- A path is looked up as the name behind its slash.
pub tfs_lookup-inumber_of :
    {s : State} {block : List ℕ} (name : List ℕ)
    → IsDirectory s 0 0 block
    → IsName name
    → tfs_lookup (path name) 0 s ≡ ok (inumber_of name (listing_of s block)) s
unfolding tfs_lookup
tfs_lookup-inumber_of {s} name d n =
    rw (read_inode-ok s 0 d.at_inode)
      (rw (d.pointer, valid_pathname-path name n) (find_in_dir-inumber_of name d n))
