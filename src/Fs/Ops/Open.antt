-- ===== src/Fs/Ops/Open.antt =====
-- fs/operations.c, `tfs_open`: what a path that names a file opens, and how a file is emptied.
use tecnico_fs_so.Prelude.{
  refl, inl, inr, List, ap, arith, get_elem?, if◌then◌else◌, le→ltb_false, lt→ltb, minus_one,
  nonneg, pos, set, set_self, some, suc, sym, true, ℕ, ℤ, ◌<◌, ◌∙◌, ◌≡◌, ◌⊎◌,
}
use tecnico_fs_so.Fs.Run.{ok, pure, M, Run, ◌>>=◌, ◌>>◌, read_inode}
use tecnico_fs_so.Fs.Types.{t_file, free, State, Inode, AllocationState, CharPtr}
use tecnico_fs_so.Fs.Ops.Root.{IsMounted, path, valid_pathname-path, tfs_lookup-inumber_of}
use tecnico_fs_so.Fs.Entries.Names.{IsName}
use tecnico_fs_so.Fs.Inodes.Delete.{OwnsBlock, free_pointer}
use tecnico_fs_so.Fs.Ops.{
  tfs_open, truncate, open_step, open_existing, wants_trunc, wants_creat, open_new, wants_append,
}
use tecnico_fs_so.Fs.Dir.Access.{inumber_of}
use tecnico_fs_so.Fs.Run.Steps.{read_inode-ok, update_inode-ok, assert-ok}
use tecnico_fs_so.Fs.Dir.Laws.{listing_of}
use tecnico_fs_so.Fs.Files.{add_to_open_file_table}
use tecnico_fs_so.Fs.Files.Handles.{inode_get-ok}

module _ {s : State} {block : List ℕ} (name : List ℕ) (m : IsMounted s block)
    (n : IsName name) where
  -- The first steps of `tfs_open`: the path is looked up in the root directory.
  pub open-lookup :
      (again : CharPtr → M ℤ) (mode : ℕ) {x : ℤ}
      → inumber_of name (listing_of s block) ≡ x
      → open_step again (path name) mode s
        ≡ (if nonneg x
              then open_existing again x mode
              else (if wants_creat mode then open_new (path name) 0 else pure minus_one))
            s
  open-lookup again mode e =
      rw (valid_pathname-path name n)
        (rw (inode_get-ok s 0 m.root_valid) (rw (tfs_lookup-inumber_of name m.root n) (rw e refl)))

  -- A path of a file opens it: it is emptied if that is asked for, and then entered in the table.
  pub open-file :
      (fuel k mode : ℕ) {node : Inode}
      → inumber_of name (listing_of s block) ≡ pos k
      → k < s.fs_params.max_inode_count
      → get_elem? s.inode_table k ≡ some node
      → node.i_node_type ≡ t_file
      → tfs_open (suc fuel) (path name) mode s
        ≡ (do
          truncate k (wants_trunc mode)
          current ← read_inode k
          add_to_open_file_table (pos k) (if wants_append mode then current.i_size else 0))
            s
  unfolding tfs_open
  open-file fuel k mode {node} e valid at file =
      open-lookup (λ target. tfs_open fuel target mode) mode e
      ∙ rw (inode_get-ok s k valid)
          (rw (read_inode-ok s k at) (rw file (rw (assert-ok s refl) refl)))

-- The state after the file has been emptied.
abbrev pub emptied : State → ℕ → Inode → List AllocationState → State
emptied s k node marks = record s {
  free_blocks = marks;
  inode_table = set s.inode_table k (record node { i_size = 0 });
}

-- The block of a file is given back if it has one.
pub data Empties (s : State) (k : ℕ) (node : Inode) : Run (Unit {0}) → Type 0 where
  gives_back :
      {b : ℕ}
      → 0 < node.i_size
      → node.i_data_block ≡ pos b
      → Empties s k node (ok tt (emptied s k node (set s.free_blocks b free)))
  was_empty : node.i_size ≡ 0 → Empties s k node (ok tt (emptied s k node s.free_blocks))

emptied_self :
    (s : State) (k : ℕ) (node : Inode)
    → get_elem? s.inode_table k ≡ some node
    → node.i_size ≡ 0
    → emptied s k node s.free_blocks ≡ s
emptied_self s k node at e =
    let same : record node { i_size = 0 } ≡ node = ap (λ z. record node { i_size = z }) (sym e) in
    ap (λ n. record s { inode_table = set s.inode_table k n }) same
    ∙ ap (λ table. record s { inode_table = table }) (set_self s.inode_table k node at)

pub truncate-Empties :
    {s : State} (k b : ℕ) {node : Inode}
    → get_elem? s.inode_table k ≡ some node
    → (node.i_size ≡ 0) ⊎ OwnsBlock s node b
    → Empties s k node (truncate k true s)
truncate-Empties {s} k b {node} at (inl empty) =
    let done : Empties s k node (ok tt (emptied s k node s.free_blocks)) = was_empty empty in
    rw (read_inode-ok s k at)
      (rw (le→ltb_false 0 node.i_size (omega arith)) (rw (emptied_self s k node at empty) at done))
truncate-Empties {s} k b {node} at (inr own) = rw (read_inode-ok s k at) (
    rw (lt→ltb 0 node.i_size own.not_empty) (
      rw (free_pointer s b own.pointer own.valid_block own.in_table) (
        rw
          (update_inode-ok (record s { free_blocks = set s.free_blocks b free }) k
            (λ n. record n { i_size = 0 }) at)
          (gives_back own.not_empty own.pointer))))
