-- ===== src/Fs/Ops/CopyLaws.antt =====
-- fs/operations.c: what `tfs_copy_from_external_fs` leaves in the file system.
use tecnico_fs_so.Prelude.{
  Bool, List, arith, false, get_elem?, length, minus_one, pos, set, some, true, ℕ, ℤ, ◌<◌, ◌≡◌, ◌≢◌,
  refl, Bool-cases, if◌then◌else◌, inl, inr, is_minus_one, not, suc, ◌+◌, ◌^◌, ◌||◌, ◌≤◌,
}
use tecnico_fs_so.Fs.Types.{State, Inode, free, t_file}
use tecnico_fs_so.Fs.Ops.Root.{IsMounted, path, valid_pathname-path}
use tecnico_fs_so.Fs.Ops.Copy.{OpenFile, EmptyFile-OpenFile}
use tecnico_fs_so.Fs.Ops.Empty.{OpensEmpty, opened_empty, no_handle, not_created}
use tecnico_fs_so.Fs.Run.{Run, ok, and_then, pure, ◌>>=◌, gets}
use tecnico_fs_so.Fs.Files.Content.{Holds, nothing, stored}
use tecnico_fs_so.Fs.Ops.Keep.{Keeps-IsMounted, closed-Keeps}
use tecnico_fs_so.Fs.Dir.Access.{inumber_of}
use tecnico_fs_so.Fs.Ops.{tfs_close, tfs_copy_from_external_fs, copy_chunks}
use tecnico_fs_so.Fs.Dir.Laws.{listing_of}
use tecnico_fs_so.Fs.Files.Table.{remove_from_open_file_table-linked}
use tecnico_fs_so.Fs.Ops.CopyLoop.{
  CopiesChunks, all_copied, no_block, copy_chunks-CopiesChunks, too_long,
}
use tecnico_fs_so.Fs.Entries.Names.{IsName}
use tecnico_fs_so.Fs.Ops.OpenEmpty.{ForWriting, tfs_open-OpensEmpty}

-- Why a copy returns -1.
pub data NotCopied (s : State) (block name content : List ℕ) (closes : Bool) : Type 0 where
  not_opened :
      {t : State} → OpensEmpty s block name (ok minus_one t) → NotCopied s block name content closes
  too_many_bytes : s.fs_params.block_size < length content → NotCopied s block name content closes
  blocks_used :
      0 < length content
      → ((b : ℕ) → b < s.fs_params.max_block_count → get_elem? s.free_blocks b ≢ some free)
      → NotCopied s block name content closes
  close_failed : closes ≡ false → NotCopied s block name content closes

-- In the state `t` after a call, the file system is set up, and every name but one stands for what
-- it stood for in `s`.
pub record OthersKept (s t : State) (block block' name : List ℕ) : Type 0 where
  pub mounted : IsMounted t block'
  pub params : t.fs_params ≡ s.fs_params
  pub others :
      (other : List ℕ)
      → name ≢ other
      → inumber_of other (listing_of t block') ≡ inumber_of other (listing_of s block)

-- The outcome of a copy.
pub data CopiesFile (s : State) (block name content : List ℕ) (closes : Bool) : Run ℤ → Type 0 where
  file_copied :
      {t : State} {block' : List ℕ} (k : ℕ) (node : Inode)
      → OthersKept s t block block' name
      → inumber_of name (listing_of t block') ≡ pos k
      → get_elem? t.inode_table k ≡ some node
      → node.i_node_type ≡ t_file
      → Holds t node content
      → closes ≡ true
      → CopiesFile s block name content closes (ok (pos 0) t)
  file_not_copied :
      {t : State} {block' : List ℕ}
      → OthersKept s t block block' name
      → NotCopied s block name content closes
      → CopiesFile s block name content closes (ok minus_one t)

abbrev closed_handle : State → ℕ → State
closed_handle t h = record t { free_open_file_entries = set t.free_open_file_entries h free }

module _ {s t : State} {block block' name : List ℕ} {h k offset : ℕ} {content : List ℕ}
    (f : OpenFile s t block block' name h k offset content) where
  tfs_close-ok : tfs_close (pos h) t ≡ ok (pos 0) (closed_handle t h)
  unfolding tfs_close
  tfs_close-ok =
      let n = f.mounted.named name k f.is_named in
      let at = n.node_at in
      let at_open = f.is_open.inode_at in
      let same : n.node ≡ f.node = ground arith in
      remove_from_open_file_table-linked f.is_open n.in_use (rw (← same) n.linked)

  closed-OthersKept : OthersKept s (closed_handle t h) block block' name
  closed-OthersKept = record {
    mounted = Keeps-IsMounted (closed-Keeps t h) f.mounted;
    params = f.params;
    others = f.others;
  }

closed-Holds :
    {t : State} {node : Inode} {content : List ℕ} (h : ℕ)
    → Holds t node content
    → Holds (closed_handle t h) node content
closed-Holds h (nothing e) = nothing e
closed-Holds h (stored p d) = stored p (record {
  pointer = d.pointer;
  valid_block = d.valid_block;
  block_at = d.block_at;
  full_size = d.full_size;
  fits = d.fits;
})

module _ {s : State} {block name content : List ℕ} (closes : Bool) where
  -- What follows the loop.
  by_loop :
      {t : State} {block' : List ℕ} {h k : ℕ} {r : Run Bool}
      → t.fs_params ≡ s.fs_params
      → ((b : ℕ) → get_elem? s.free_blocks b ≡ some free → get_elem? t.free_blocks b ≡ some free)
      → CopiesChunks s t block block' name h k content r
      → CopiesFile s block name content closes (
          and_then r (λ done. do
            closed ← tfs_close (pos h)
            if not done || (not closes || is_minus_one closed)
                then pure minus_one
                else pure (pos 0)))
  by_loop {h = h} {k} params still_free (all_copied {u = u} f fits) =
      rw (tfs_close-ok f) (elim (Bool-cases closes) [
        | inl fine ↦ rw fine (
            file_copied k f.node (closed-OthersKept f) f.is_named f.is_open.inode_at f.is_file
              (closed-Holds h f.holds) refl)
        | inr failed ↦ rw failed (file_not_copied (closed-OthersKept f) (close_failed refl))
      ])
  by_loop params still_free (too_long f long) =
      rw (tfs_close-ok f) (file_not_copied (closed-OthersKept f) (too_many_bytes long))
  by_loop {t} params still_free (no_block f p all) = rw (tfs_close-ok f) (
      file_not_copied (closed-OthersKept f) (
        blocks_used p (λ b lt is_free.
          let in_use = all b (rw params lt) in let unused = still_free b is_free in cc)))

  by_open :
      {r : Run ℤ}
      → 0 < s.fs_params.block_size
      → s.fs_params.block_size < 2 ^ 63
      → OpensEmpty s block name r
      → CopiesFile s block name content closes (
          and_then r (λ dest_file. if is_minus_one dest_file then pure minus_one else (do
            block_size ← gets (λ s. s.fs_params.block_size)
            done ← copy_chunks (length content + 1) block_size dest_file content
            closed ← tfs_close dest_file
            if not done || (not closes || is_minus_one closed)
                then pure minus_one
                else pure (pos 0))))
  by_open some_bytes small (opened_empty is_free lower f o) =
      by_loop f.params f.block_marks
        (copy_chunks-CopiesChunks content (EmptyFile-OpenFile f o) f.not_root some_bytes small)
  by_open some_bytes small (no_handle all f) =
      file_not_copied (record { mounted = f.mounted; params = f.params; others = f.others })
        (not_opened (no_handle all f))
  by_open some_bytes small (not_created m params absent why) =
      file_not_copied (record { mounted = m; params = params; others = λ other ne. rw params refl })
        (not_opened (not_created m params absent why))

-- Copying an external file ends, and returns 0 or -1. If it returns 0, the path's name stands for a
-- file that holds the whole content. It returns -1 only if the path could not be opened, the content
-- is longer than a block, no data block was free, or the external file could not be closed. Either
-- way the file system stays set up and every other name keeps its inumber. The name is a C string of
-- 1 to 39 bytes that is free or stands for a file, which is empty or has a block other than the
-- root's; the block size is above 0 and below 2^63, and there are at most 2^31 inodes.
pub tfs_copy_from_external_fs-CopiesFile :
    {s : State} {block : List ℕ} (fuel : ℕ) (name content : List ℕ) (closes : Bool)
    → IsMounted s block
    → IsName name
    → ForWriting s block name
    → s.fs_params.max_inode_count ≤ 2 ^ 31
    → 0 < s.fs_params.block_size
    → s.fs_params.block_size < 2 ^ 63
    → CopiesFile s block name content closes
        (tfs_copy_from_external_fs (suc fuel) (some content) closes (path name) s)
unfolding tfs_copy_from_external_fs
tfs_copy_from_external_fs-CopiesFile fuel name content closes m n target inodes some_bytes small =
    rw (valid_pathname-path name n)
      (by_open closes some_bytes small (tfs_open-OpensEmpty name m fuel n inodes target))
