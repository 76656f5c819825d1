-- ===== src/Fs/Files/Content.antt =====
-- The bytes that an inode of fs/state.c stands for, which forgets in which block they lie.
use tecnico_fs_so.Prelude.{
  ℕ, ◌+◌, ◌-◌, ◌^◌, ◌<◌, min, ◌≡◌, sym, pos, true, List, [], length, length-take, take, slice,
  slice-take, arith, slice-nil,
}
use tecnico_fs_so.Fs.Types.{State, Inode}
use tecnico_fs_so.Fs.Run.{ok}
use tecnico_fs_so.Fs.Files.{read_from_open_file}
use tecnico_fs_so.Fs.Files.Handles.{IsOpen, HasBlock, at_offset}
use tecnico_fs_so.Fs.Files.Read.{read_from_open_file_lem, read_from_empty_file}

-- The inode holds these bytes: none, or the first `i_size` of its block.
pub data Holds (s : State) (inode : Inode) : List ℕ → Type 0 where
  nothing : inode.i_size ≡ 0 → Holds s inode []
  stored :
      {b : ℕ} {block : List ℕ}
      → 0 < inode.i_size
      → HasBlock s inode b block
      → Holds s inode (take inode.i_size block)

pub length-Holds :
    {s : State} {inode : Inode} {content : List ℕ}
    → Holds s inode content
    → length content ≡ inode.i_size
length-Holds (nothing e) = sym e
length-Holds {inode = inode} (stored {block = block} p d) =
    omega (arith, length-take inode.i_size block, d.fits, d.full_size)

length_zero : (offset len : ℕ) → min len (0 - min offset 0) ≡ 0
length_zero offset len = omega arith

offset_zero : (offset len : ℕ) → min offset 0 + min len (0 - min offset 0) ≡ 0
offset_zero offset len = omega arith

-- A read through an open handle copies the stretch of the file's bytes that starts at the handle's
-- offset (or at the end of the file, if that is smaller) and has the length asked for, cut at the
-- end of the file; it returns the number of these bytes, moves the handle's offset behind them,
-- and changes nothing else. The block size is below 2^63.
pub read_from_open_file-slice :
    {s : State} {h i offset : ℕ} {inode : Inode} {content : List ℕ} (len : ℕ)
    → IsOpen s h i offset inode
    → Holds s inode content
    → s.fs_params.block_size < 2 ^ 63
    → let start = min offset (length content) in
      let n = min len (length content - start) in
      read_from_open_file (pos h) true len s
      ≡ ok (pos n, slice content start n) (at_offset s h i (start + n))
read_from_open_file-slice {s} {h} {i} {offset} {inode} len o (nothing e) small =
    rw (read_from_empty_file len o e, slice-nil ℕ (min offset 0))
      (cc (offset_zero offset len, length_zero offset len))
read_from_open_file-slice {offset = offset} {inode} len o (stored {block = block} p d) small =
    let size = length-Holds (stored p d) in
    rw
      (
        size,
        slice-take inode.i_size (min offset inode.i_size)
            (min len (inode.i_size - min offset inode.i_size)) block (omega arith),
      )
      (read_from_open_file_lem len o d small)
