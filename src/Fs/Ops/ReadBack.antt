-- ===== src/Fs/Ops/ReadBack.antt =====
-- fs/operations.c: a file that was copied is opened by its path and read.
use tecnico_fs_so.Prelude.{
  List, [], arith, get_elem?, length, min, minus_one, pos, some, take, true, ℕ, ℤ, ◌-◌, ◌<◌, ◌^◌,
  ◌≡◌, Bool-cases, ap, inl, inr, ltb, ltb_false→le, ltb→lt, suc, sym, take_all, ◌∙◌, ◌≤◌,
}
use tecnico_fs_so.Fs.Types.{State, Inode, taken, t_file}
use tecnico_fs_so.Fs.Ops.{tfs_read, tfs_copy_from_external_fs, tfs_open}
use tecnico_fs_so.Fs.Run.{Run, ok, and_then, ◌>>=◌}
use tecnico_fs_so.Fs.Files.{read_from_open_file, get_open_file_entry, handle_entry}
use tecnico_fs_so.Fs.Files.Content.{Holds, nothing, stored, read_from_open_file-slice}
use tecnico_fs_so.Fs.Files.Table.{
  with_handle, HandlesExist, GivesHandle, handle_given, with_handle-IsOpen, all_open,
  add_to_open_file_table-GivesHandle,
}
use tecnico_fs_so.Fs.Ops.Root.{IsMounted, path}
use tecnico_fs_so.Fs.Files.Handles.{IsOpen}
use tecnico_fs_so.Fs.Entries.Names.{IsName}
use tecnico_fs_so.Fs.Ops.OpenEmpty.{ForWriting}
use tecnico_fs_so.Fs.Ops.CopyLaws.{
  CopiesFile, file_copied, file_not_copied, tfs_copy_from_external_fs-CopiesFile,
}
use tecnico_fs_so.Fs.Dir.Access.{inumber_of}
use tecnico_fs_so.Fs.Dir.Laws.{listing_of}
use tecnico_fs_so.Fs.Ops.Open.{open-file}
use tecnico_fs_so.Fs.Run.Steps.{read_inode-ok}

-- The outcome of opening the path of a file that holds `content`, and reading `len` bytes.
pub data ReadsBack (t : State) (content : List ℕ) (len : ℕ) : Run (ℤ × List ℕ) → Type 0 where
  read_whole :
      {u : State}
      → ReadsBack t content len (ok (pos (min len (length content)), take len content) u)
  none_left :
      ((j : ℕ)
        → j < t.fs_params.max_open_files_count
        → get_elem? t.free_open_file_entries j ≡ some taken)
      → ReadsBack t content len (ok (minus_one, []) t)

with_handle-Holds :
    {t : State} {node : Inode} {content : List ℕ} (h k : ℕ)
    → Holds t node content
    → Holds (with_handle t h k 0) node content
with_handle-Holds h k (nothing e) = nothing e
with_handle-Holds h k (stored p d) = stored p (record {
  pointer = d.pointer;
  valid_block = d.valid_block;
  block_at = d.block_at;
  full_size = d.full_size;
  fits = d.fits;
})

take-min : (n : ℕ) (us : List ℕ) → take (min n (length us)) us ≡ take n us
take-min n us = elim (Bool-cases (ltb n (length us))) [
  | inl inside ↦
      let same : min n (length us) ≡ n = omega (arith, ltb→lt n (length us) inside) in
      ap (λ m. take m us) same
  | inr whole ↦
      let long = ltb_false→le n (length us) whole in
      take_all us (min n (length us)) (omega arith) ∙ sym (take_all us n long)
]

read_front :
    {s t : State} {h k : ℕ} {node : Inode} {content : List ℕ} (len : ℕ)
    → IsOpen t h k 0 node
    → Holds t node content
    → t.fs_params.block_size < 2 ^ 63
    → ReadsBack s content len (tfs_read (pos h) true len t)
unfolding tfs_read
read_front {content = content} len o holds small =
    let start : min 0 (length content) ≡ 0 = omega arith in
    let count : min len (length content - 0) ≡ min len (length content) = omega arith in
    rw (read_from_open_file-slice len o holds small)
      (rw (start, count) (rw (take-min len content) read_whole))

by_handle :
    {t : State} {k : ℕ} {node : Inode} {content : List ℕ} (len : ℕ) {r : Run ℤ}
    → HandlesExist t
    → k < t.fs_params.max_inode_count
    → get_elem? t.inode_table k ≡ some node
    → Holds t node content
    → t.fs_params.block_size < 2 ^ 63
    → GivesHandle t k 0 r
    → ReadsBack t content len (and_then r (λ h. tfs_read h true len))
unfolding tfs_read read_from_open_file get_open_file_entry handle_entry
by_handle {t} {k} {content = content} len exist valid at holds small
      (handle_given {h = h} lt e before) =
    read_front len (with_handle-IsOpen 0 exist lt valid at) (with_handle-Holds h k holds) small
by_handle len exist valid at holds small (all_open all) = none_left all

open_and_read :
    {t : State} {block name content : List ℕ} {node : Inode} (fuel k len : ℕ)
    → IsMounted t block
    → IsName name
    → inumber_of name (listing_of t block) ≡ pos k
    → get_elem? t.inode_table k ≡ some node
    → node.i_node_type ≡ t_file
    → Holds t node content
    → t.fs_params.block_size < 2 ^ 63
    → ReadsBack t content len ((tfs_open (suc fuel) (path name) 0 >>= λ h. tfs_read h true len) t)
open_and_read {t} {name = name} fuel k len m n e at file holds small =
    let inode = m.named name k e in
    rw (open-file name m n fuel k 0 e inode.valid at file) (
      rw (read_inode-ok t k at) (
        by_handle len m.handles inode.valid at holds small
          (add_to_open_file_table-GivesHandle k 0 m.handles inode.valid inode.in_use)))

-- What a successful copy has stored is read back: the path is opened without flags, and a read of
-- `len` bytes returns the first `len` bytes of what was copied, or all of them if there are fewer.
-- If all handles are open, opening returns -1, and so does the read. The conditions are those of
-- the copy.
pub tfs_read-tfs_copy_from_external_fs :
    {s t : State} {block : List ℕ} (fuel : ℕ) (name content : List ℕ) (len : ℕ)
    → IsMounted s block
    → IsName name
    → ForWriting s block name
    → s.fs_params.max_inode_count ≤ 2 ^ 31
    → 0 < s.fs_params.block_size
    → s.fs_params.block_size < 2 ^ 63
    → tfs_copy_from_external_fs (suc fuel) (some content) true (path name) s ≡ ok (pos 0) t
    → ReadsBack t content len ((tfs_open (suc fuel) (path name) 0 >>= λ h. tfs_read h true len) t)
tfs_read-tfs_copy_from_external_fs {s} {t} {block} fuel name content len m n target inodes
      some_bytes small copied =
    by_copy copied (
      tfs_copy_from_external_fs-CopiesFile fuel name content true m n target inodes some_bytes
        small)
  where
    by_copy :
        {r : Run ℤ}
        → r ≡ ok (pos 0) t
        → CopiesFile s block name content true r
        → ReadsBack t content len
            ((tfs_open (suc fuel) (path name) 0 >>= λ h. tfs_read h true len) t)
    by_copy e (file_copied {t = u} k node kept at_name at file holds fine) =
        let same : u ≡ t = ground arith in
        let small_u : u.fs_params.block_size < 2 ^ 63 = rw kept.params small in
        rw same at (open_and_read fuel k len kept.mounted n at_name at file holds small_u)
    by_copy e (file_not_copied kept why) = cc
