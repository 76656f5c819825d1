-- ===== src/Fs/Ops/UnlinkLaws.antt =====
-- fs/operations.c, `tfs_unlink`: the whole call.
use tecnico_fs_so.Prelude.{
  refl, Bool-cases, List, ap, arith, get_elem?, inl, inr, minus_one, pos, some, true, ℕ, ◌-◌, ◌<◌,
  ◌^◌, ◌≡◌, ◌≢◌, ◌⊎◌, ◌==◌, ◌∙◌, if◌then◌else◌, ==→eq, is_minus_one, not, ℤ, ◌%◌, ◌+◌,
}
use tecnico_fs_so.Fs.Types.{Inode, State, InodeType, t_directory, t_file, t_sym_link}
use tecnico_fs_so.Fs.Files.{delete_if_unused}
use tecnico_fs_so.Fs.Run.{Run, and_then, pure, ◌>>◌, update_inode}
use tecnico_fs_so.Fs.Dir.Access.{inumber_of}
use tecnico_fs_so.Fs.Dir.Laws.{listing_of, cleared, not_there, Clears, clear_dir_entry-Clears}
use tecnico_fs_so.Fs.Inodes.Delete.{OwnsBlock}
use tecnico_fs_so.Fs.Ops.Root.{IsMounted, path, valid_pathname-path, tfs_lookup-inumber_of}
use tecnico_fs_so.Fs.Run.Steps.{read_inode-ok, assert-ok, update_inode-ok}
use tecnico_fs_so.Fs.Ops.Unlink.{
  Unlinks, ForUnlinking, unused_name, used_name, not_bound, one_less, any_open-some,
}
use tecnico_fs_so.Fs.Ops.{tfs_unlink, is_dir}
use tecnico_fs_so.Fs.Entries.Names.{IsName}
use tecnico_fs_so.Fs.Files.Handles.{inode_get-ok}
use tecnico_fs_so.Fs.Dir.{entry_inumber}
use tecnico_fs_so.Fs.Ops.Names.{Renamed-IsMounted}
use tecnico_fs_so.Fs.Ops.UnlinkSteps.{stays_linked, last_link}

not_directory : (i_type : InodeType) → i_type ≢ t_directory → not (is_dir i_type) ≡ true
not_directory t_directory ne = absurd (ne refl)
not_directory t_file ne = refl
not_directory t_sym_link ne = refl

module _ {s : State} {block : List ℕ} (name : List ℕ) {k : ℕ} {node : Inode} (m : IsMounted s block)
    (e : inumber_of name (listing_of s block) ≡ pos k)
    (at : get_elem? s.inode_table k ≡ some node) where
  same_node : (m.named name k e).node ≡ node
  same_node = let at_k = (m.named name k e).node_at in ground arith

  type_of : node.i_node_type ≢ t_directory
  type_of = rw same_node at (m.named name k e).no_directory

  pub not_the_root : k ≢ 0
  not_the_root z =
      let at_root : get_elem? s.inode_table 0 ≡ some node = rw z at at in
      let is_root = m.root.at_inode in
      let same : m.root.node ≡ node = ground arith in type_of (rw same at m.root.is_directory)

  by_clear :
      {b : ℕ} {r : Run ℤ}
      → (node.i_size ≡ 0) ⊎ (OwnsBlock s node b × (b ≢ 0))
      → node.i_hard_links < 2 ^ 64
      → (node.i_hard_links ≡ 1
          → (other : List ℕ) → name ≢ other
          → inumber_of other (listing_of s block) ≢ pos k)
      → Clears s 0 0 block name r
      → Unlinks s block name (
          and_then r (λ done. if is_minus_one done then pure minus_one else (do
            update_inode k (λ n. record n { i_hard_links = (n.i_hard_links + 2 ^ 64 - 1) % 2 ^ 64 })
            delete_if_unused (pos k) k
            pure (pos 0))))
  by_clear own bound alone (not_there absent) =
      let free_name : inumber_of name (listing_of s block) ≡ minus_one = ap entry_inumber absent in
      cc
  by_clear own bound alone (cleared {t = t} block' r) =
      let mounted : IsMounted t block' = Renamed-IsMounted r (λ j q. cc) m in
      let in_t : get_elem? t.inode_table k ≡ some node =
        ap (λ u. get_elem? u.inode_table k) r.only_block ∙ at in
      let linked : node.i_hard_links ≢ 0 = rw same_node at (m.named name k e).linked in
      let handles = m.handles in
      let (opened, is_open) =
        any_open-some s.fs_params.max_open_files_count s.free_open_file_entries s.open_file_table
          (pos k) handles.handle_marks handles.handle_entries in
      rw (update_inode-ok t k one_less in_t) (elim (Bool-cases (node.i_hard_links == 1)) [
        | inl one ↦
            let last : node.i_hard_links ≡ 1 = ==→eq node.i_hard_links 1 one in
            last_link m e at r not_the_root mounted opened is_open last own (alone last)
        | inr more ↦ stays_linked m e at r not_the_root mounted (ground arith) bound
      ])

-- Deleting a path's name ends. If the name stands for an inode, it returns 0, and the name is free
-- then: an inode with more links has one less; one with a single link is kept without links while a
-- handle is open on it, and else it is given back, and its block, too, if it has bytes. If the name
-- is free, it returns -1 and changes nothing. Either way the file system stays set up and every
-- other name keeps its inumber. The name is a C string of 1 to 39 bytes; its inode has fewer than
-- 2^64 links, no other name if it has one link, and no bytes or a block other than the root's.
pub tfs_unlink-Unlinks :
    {s : State} {block : List ℕ} (name : List ℕ)
    → IsMounted s block
    → IsName name
    → ForUnlinking s block name
    → Unlinks s block name (tfs_unlink (path name) s)
unfolding tfs_unlink
tfs_unlink-Unlinks {s} {block} name m n (unused_name e) = rw (valid_pathname-path name n) (
    rw (inode_get-ok s 0 m.root_valid)
      (rw (tfs_lookup-inumber_of name m.root n) (rw e (not_bound e))))
tfs_unlink-Unlinks {s} {block} name m n (used_name k b {node = node} e at own bound alone) =
    let inode = m.named name k e in
    rw (valid_pathname-path name n) (
      rw (inode_get-ok s 0 m.root_valid) (
        rw (tfs_lookup-inumber_of name m.root n) (
          rw e (
            rw (inode_get-ok s k inode.valid) (
              rw (read_inode-ok s k at) rw
                (assert-ok s (not_directory node.i_node_type (type_of name m e at)))
                (by_clear name m e at own bound alone (clear_dir_entry-Clears name n m.root)))))))
