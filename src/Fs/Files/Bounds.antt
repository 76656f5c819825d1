-- ===== src/Fs/Files/Bounds.antt =====
-- fs/state.c, `write_to_open_file`: how far a write goes.
use tecnico_fs_so.Prelude.{
  List, arith, drop, get_elem?, length, length-append, length-drop, length-take, max, pos, some,
  splice, take, ℕ, ℤ, ◌++◌, ◌+◌, ◌≡◌, ◌≤◌, ap, min, ◌-◌, ◌<◌, ◌^◌,
}
use tecnico_fs_so.Fs.Files.WriteBack.{Writes, BlocksExist, wrote, unchanged, no_space}
use tecnico_fs_so.Fs.Types.{State, Inode}
use tecnico_fs_so.Fs.Run.{Run, ok}
use tecnico_fs_so.Fs.Files.Handles.{IsOpen, at_offset}
use tecnico_fs_so.Fs.Files.Content.{Holds, length-Holds}
use tecnico_fs_so.Fs.Files.{write_to_open_file}
use tecnico_fs_so.Fs.Files.WriteLem.{size_fits, write_to_open_file-splice}

length-splice :
    (us : List ℕ) (off : ℕ) (xs : List ℕ)
    → off ≤ length us
    → length (splice us off xs) ≡ max (length us) (off + length xs)
length-splice us off xs h = omega (
  arith,
  length-append (take off us) (xs ++ drop (off + length xs) us),
  length-append xs (drop (off + length xs) us),
  length-take off us,
  length-drop (off + length xs) us,
)

-- Where a file ends after a write of `n` bytes at `start`.
pub record Ends (t : State) (i start n block_size old : ℕ) : Type 0 where
  pub after : Inode
  pub at : get_elem? t.inode_table i ≡ some after
  pub size : after.i_size ≡ max old (start + n)
  pub in_block : after.i_size ≤ block_size

by_outcome :
    {s t : State} {h i start m n : ℕ} {inode : Inode} {content buffer : List ℕ} {r : Run ℤ}
    → get_elem? s.inode_table i ≡ some inode
    → Holds s inode content
    → start ≤ length content
    → m ≤ length buffer
    → Writes s h i start m inode content buffer r
    → r ≡ ok (pos n) t
    → (n ≡ m) × Ends t i start n s.fs_params.block_size inode.i_size
by_outcome {s} {t} {i = i} {start} {m} {n} {inode} {content} {buffer} at holds inside in_buffer
      (wrote {t = u} b source w) e =
    let count : n ≡ m = ground arith in
    let same : u ≡ t = ground arith in
    let old = length-Holds holds in
    let new = length-Holds w.holds in
    let spliced = length-splice content start (take m buffer) inside in
    let block = ap (λ p. p.block_size) w.params in
    let ends : Ends u i start m s.fs_params.block_size inode.i_size = record {
      after = w.after;
      at = w.opened.inode_at;
      size = omega (arith, length-take m buffer);
      in_block = omega (arith, size_fits w.holds);
    } in
    (count, rw same at (rw (← count) at ends))
by_outcome {s} {t} {h} {i} {start} {m} {n} {inode} at holds inside in_buffer
      (unchanged {t = u} z moved) e =
    let count : n ≡ m = ground arith in
    let same : at_offset s h i start ≡ t = ground arith in
    let old = length-Holds holds in
    let ends : Ends (at_offset s h i start) i start m s.fs_params.block_size inode.i_size = record {
      after = inode;
      at = at;
      size = omega arith;
      in_block = size_fits holds;
    } in
    (count, rw same at (rw (← count) at ends))
by_outcome at holds inside in_buffer (no_space z q all moved) e = cc

-- A write that returns a number of bytes has written no more than it was asked to, and as many as
-- fit into one block: they end within the block, and the file's size is now the larger one of its
-- old size and the place where they end. They start at the handle's offset, or at the end of the
-- file if that is smaller. Every data block exists, the block size and the number of bytes asked
-- for are below 2^63, and the buffer has that many bytes.
pub write_to_open_file-Ends :
    {s t : State} {h i offset n : ℕ} {inode : Inode} {content : List ℕ} (buffer : List ℕ)
    (to_write : ℕ)
    → IsOpen s h i offset inode
    → Holds s inode content
    → BlocksExist s
    → s.fs_params.block_size < 2 ^ 63
    → to_write < 2 ^ 63
    → to_write ≤ length buffer
    → write_to_open_file (pos h) (some buffer) to_write s ≡ ok (pos n) t
    → let start = min offset inode.i_size in
      (n ≡ min to_write (s.fs_params.block_size - start))
      × Ends t i start n s.fs_params.block_size inode.i_size
write_to_open_file-Ends {s} {t} {i = i} {offset} {n} {inode} {content} buffer to_write o holds exist
      small bound in_buffer e =
    let start = min offset (length content) in
    let bounded : (n ≡ min to_write (s.fs_params.block_size - start))
        × Ends t i start n s.fs_params.block_size inode.i_size =
      by_outcome o.inode_at holds (omega arith) (omega arith)
        (write_to_open_file-splice buffer to_write o holds exist small bound in_buffer) e in
    rw (length-Holds holds) at bounded
