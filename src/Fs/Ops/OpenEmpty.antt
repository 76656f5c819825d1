-- ===== src/Fs/Ops/OpenEmpty.antt =====
-- fs/operations.c: `tfs_open` with TFS_O_CREAT and TFS_O_TRUNC, as the copy opens its target.
use tecnico_fs_so.Prelude.{
  refl, List, get_elem?, get_elem?-set_self, length, lt_of_get_elem?, pos, set, some, ℕ, ◌≡◌, ◌≢◌,
  ◌⊎◌, ==→eq, Bool-cases, ap, arith, get_elem?-set_ne, inl, inr, length-set, suc, ◌+◌, ◌<◌, ◌==◌,
  ◌^◌, ◌∙◌, ◌≤◌,
}
use tecnico_fs_so.Fs.Ops.Empty.{EmptyFile, OpensEmpty, add_handle, open_new-OpensEmpty}
use tecnico_fs_so.Fs.Types.{State, Inode, AllocationState, t_file, free}
use tecnico_fs_so.Fs.Entries.WellFormed.{Absent}
use tecnico_fs_so.Fs.Ops.Root.{IsMounted, path}
use tecnico_fs_so.Fs.Dir.Laws.{listing_of}
use tecnico_fs_so.Fs.Run.{Run, and_then, ◌>>=◌, read_inode}
use tecnico_fs_so.Fs.Dir.Access.{inumber_of}
use tecnico_fs_so.Fs.Inodes.Delete.{OwnsBlock}
use tecnico_fs_so.Fs.Ops.Open.{
  Empties, emptied, gives_back, was_empty, open-lookup, open-file, truncate-Empties,
}
use tecnico_fs_so.Fs.Ops.Keep.{Keeps-IsMounted, emptied-Keeps}
use tecnico_fs_so.Fs.Files.{add_to_open_file_table}
use tecnico_fs_so.Fs.Run.Steps.{read_inode-ok}
use tecnico_fs_so.Fs.Ops.{tfs_open, tfs_o_creat, tfs_o_trunc}
use tecnico_fs_so.Fs.Entries.Names.{IsName}
use tecnico_fs_so.Fs.Dir.{entry_inumber}

-- The name is free, or it stands for a file that is empty or has a block of its own.
pub data ForWriting (s : State) (block name : List ℕ) : Type 0 where
  new_file : Absent name (listing_of s block) → ForWriting s block name
  old_file :
      (k b : ℕ) {node : Inode}
      → inumber_of name (listing_of s block) ≡ pos k
      → get_elem? s.inode_table k ≡ some node
      → node.i_node_type ≡ t_file
      → (node.i_size ≡ 0) ⊎ (OwnsBlock s node b × (b ≢ 0))
      → ForWriting s block name

still_free :
    (marks : List AllocationState) (c b : ℕ)
    → get_elem? marks b ≡ some free
    → get_elem? (set marks c free) b ≡ some free
still_free marks c b e = elim (Bool-cases (c == b)) [
  | inl same ↦
      rw (==→eq c b same) (get_elem?-set_self marks b free (lt_of_get_elem? marks b free e))
  | inr other ↦ get_elem?-set_ne marks c b free (λ q. ground arith) ∙ e
]

pub own_block :
    {s : State} {b c : ℕ} {node : Inode}
    → (node.i_size ≡ 0) ⊎ (OwnsBlock s node b × (b ≢ 0))
    → 0 < node.i_size
    → node.i_data_block ≡ pos c
    → (c ≢ 0) × (c < length s.free_blocks)
own_block (inl z) p pointer = absurd (omega arith)
own_block (inr (own, ne)) p pointer =
    let pointer' = own.pointer in let in_table = own.in_table in (ground arith, ground arith)

module _ {s : State} {block : List ℕ} (name : List ℕ) (m : IsMounted s block) where
  -- The file after it was emptied, with the marks of the blocks that this leaves.
  emptied-EmptyFile :
      (k : ℕ) {node : Inode} (marks : List AllocationState)
      → inumber_of name (listing_of s block) ≡ pos k
      → get_elem? s.inode_table k ≡ some node
      → node.i_node_type ≡ t_file
      → length marks ≡ length s.free_blocks
      → get_elem? marks 0 ≡ get_elem? s.free_blocks 0
      → ((b : ℕ) → get_elem? s.free_blocks b ≡ some free → get_elem? marks b ≡ some free)
      → EmptyFile s (emptied s k node marks) block block name k (record node { i_size = 0 })
  emptied-EmptyFile k {node} marks e at file size first still_free =
      let not_root : k ≢ 0 = λ z.
        let at_root : get_elem? s.inode_table 0 ≡ some node = rw z at at in
        let is_root = m.root.at_inode in let directory = m.root.is_directory in ground arith in
      record {
        mounted = Keeps-IsMounted (emptied-Keeps k node marks at not_root size first) m;
        params = refl;
        is_named = e;
        others = λ other ne. refl;
        node_at = get_elem?-set_self s.inode_table k _ (lt_of_get_elem? s.inode_table k node at);
        is_file = file;
        is_empty = refl;
        not_root = not_root;
        block_marks = still_free;
      }

  old-EmptyFile :
      (k b : ℕ) {node : Inode} {r : Run (Unit {0})}
      → inumber_of name (listing_of s block) ≡ pos k
      → get_elem? s.inode_table k ≡ some node
      → node.i_node_type ≡ t_file
      → (node.i_size ≡ 0) ⊎ (OwnsBlock s node b × (b ≢ 0))
      → Empties s k node r
      → OpensEmpty s block name
          (and_then r (λ u. do current ← read_inode k; add_to_open_file_table (pos k) 0))
  old-EmptyFile k b {node} e at file own (gives_back {b = c} some_bytes pointer) =
      let f =
        emptied-EmptyFile k (set s.free_blocks c free) e at file (length-set s.free_blocks c free)
          (get_elem?-set_ne s.free_blocks c 0 free (own_block own some_bytes pointer).0)
          (still_free s.free_blocks c) in
      rw (read_inode-ok (emptied s k node (set s.free_blocks c free)) k f.node_at)
        (add_handle refl f)
  old-EmptyFile k b {node} e at file own (was_empty z) =
      let f = emptied-EmptyFile k s.free_blocks e at file refl refl (λ b e. e) in
      rw (read_inode-ok (emptied s k node s.free_blocks) k f.node_at) (add_handle refl f)

  -- Opening a path with these flags gives the lowest free handle, at offset 0, of a file that is
  -- empty and that the name now stands for; every other name keeps its inumber, and the file system
  -- stays set up. It returns -1 if all handles are open, and then the name still stands for an empty
  -- file, or if the name was free and either all inodes are in use or all entries of the directory
  -- are, and then no name has changed. The name is a C string of 1 to 39 bytes that is free or
  -- stands for a file, which is empty or has a block other than the root's; there are at most 2^31
  -- inodes.
  pub tfs_open-OpensEmpty :
      (fuel : ℕ)
      → IsName name
      → s.fs_params.max_inode_count ≤ 2 ^ 31
      → ForWriting s block name
      → OpensEmpty s block name (tfs_open (suc fuel) (path name) (tfs_o_creat + tfs_o_trunc) s)
  unfolding tfs_open
  tfs_open-OpensEmpty fuel n small (new_file absent) =
      rw (open-lookup name m n (λ target. tfs_open fuel target 3) 3 (ap entry_inumber absent))
        (open_new-OpensEmpty name m n small absent)
  tfs_open-OpensEmpty fuel n small (old_file k b e at file own) =
      rw (open-file name m n fuel k 3 e (m.named name k e).valid at file) (
        old-EmptyFile k b e at file own
          (truncate-Empties k b at (elim own [ inl z ↦ inl z | inr (o, ne) ↦ inr o ])))
