-- ===== src/Fs/Files/RoundTrip.antt =====
-- fs/state.c: what is written through one handle is read through another, and what a write leaves
-- alone.
use tecnico_fs_so.Prelude.{
  ℕ, List, ap, arith, get_elem?, inl, inr, length, lt_of_get_elem?, min, pos, some, splice, sym,
  take, true, ℤ, ◌+◌, ◌-◌, ◌<◌, ◌^◌, ◌∙◌, ◌≡◌, ◌≢◌, ◌≤◌, length-splice_ge, slice-splice,
}
use tecnico_fs_so.Fs.Types.{State, Inode, taken}
use tecnico_fs_so.Fs.Files.Handles.{IsOpen, at_offset}
use tecnico_fs_so.Fs.Files.WriteBack.{
  OwnOrFree, Wrote, Writes, BlocksExist, wrote, unchanged, no_space,
}
use tecnico_fs_so.Fs.Run.{Run, ok}
use tecnico_fs_so.Fs.Files.Content.{Holds, nothing, stored, read_from_open_file-slice}
use tecnico_fs_so.Fs.Files.{read_from_open_file, write_to_open_file}
use tecnico_fs_so.Fs.Files.WriteLem.{write_to_open_file-splice, at_offset-Holds}
use tecnico_fs_so.Fs.Files.Write.{length-take_le}

pub handle_after :
    {s t : State} {h g i offset start b : ℕ} {inode : Inode} {content : List ℕ}
    → IsOpen s g i start inode
    → h ≢ g
    → (w : Wrote s t h i offset b content) → IsOpen t g i start w.after
handle_after {s} {t} {h} {g} {i} {offset} {start} o ne w = record {
  valid_handle = rw w.params o.valid_handle;
  handle_taken = rw w.open_handles o.handle_taken;
  file = w.handles g ne ∙ o.file;
  in_table = lt_of_get_elem? t.open_file_table g _ (w.handles g ne ∙ o.file);
  valid_inode = w.opened.valid_inode;
  inode_at = w.opened.inode_at;
}

read_back :
    {s t : State} {h g i offset n : ℕ} {inode : Inode} {content buffer : List ℕ} {r : Run ℤ}
    → Writes s h i offset n inode content buffer r
    → r ≡ ok (pos n) t
    → 0 < n
    → n ≤ length buffer
    → offset ≤ length content
    → IsOpen s g i offset inode
    → h ≢ g
    → s.fs_params.block_size < 2 ^ 63
    → read_from_open_file (pos g) true n t
      ≡ ok (pos n, take n buffer) (at_offset t g i (offset + n))
read_back {s} {t} {h} {g} {i} {offset} {n} {inode} {content} {buffer} (wrote {t = u} b source w) e p
      in_buffer inside o ne small =
    let same : u ≡ t = cc in
    let xs : List ℕ = take n buffer in
    let size = length-take_le n buffer in_buffer in
    let long = length-splice_ge content offset xs inside in
    let start_eq : min offset (length (splice content offset xs)) ≡ offset = omega arith in
    let len_eq : min n (length (splice content offset xs) - offset) ≡ n = omega arith in
    let read = read_from_open_file-slice n (handle_after o ne w) w.holds (rw w.params small) in
    rw same at (rw (start_eq, len_eq, slice-splice content offset xs n (sym size) inside) at read)
read_back (unchanged z e') e p in_buffer inside o ne small = absurd (omega arith)
read_back (no_space z q all e') e p in_buffer inside o ne small = cc

count_of :
    {s t : State} {h i offset m n : ℕ} {inode : Inode} {content buffer : List ℕ} {r : Run ℤ}
    → Writes s h i offset m inode content buffer r
    → r ≡ ok (pos n) t
    → m ≡ n
count_of (wrote b source w) e = ground arith
count_of (unchanged z e') e = ground arith
count_of (no_space z q all e') e = cc

-- Two different handles are open on one file, the second at the place where a write through the
-- first starts: if the write returns a number of bytes above 0, a read of that length through the
-- second handle returns just the bytes that were to be written, and moves only that handle. Every
-- data block exists, the block size and the number of bytes asked for are below 2^63, and the
-- buffer has that many bytes.
pub read-write_to_open_file :
    {s t : State} {h g i offset start n : ℕ} {inode : Inode} {content : List ℕ} (buffer : List ℕ)
    (to_write : ℕ)
    → IsOpen s h i offset inode
    → Holds s inode content
    → BlocksExist s
    → s.fs_params.block_size < 2 ^ 63
    → to_write < 2 ^ 63
    → to_write ≤ length buffer
    → h ≢ g
    → start ≡ min offset (length content)
    → IsOpen s g i start inode
    → 0 < n
    → write_to_open_file (pos h) (some buffer) to_write s ≡ ok (pos n) t
    → read_from_open_file (pos g) true n t ≡ ok (pos n, take n buffer) (at_offset t g i (start + n))
read-write_to_open_file {s} {t} {h} {i = i} {offset} {start} {n} {inode} {content} buffer to_write o
      c exist small bound in_buffer ne at_start o' p e =
    read_back outcome e p (omega (arith, count)) (omega (arith, at_start)) o' ne small
  where
    whole :
        Writes s h i start
          (min to_write (s.fs_params.block_size - start))
          inode
          content
          buffer
          (write_to_open_file (pos h) (some buffer) to_write s)
    whole = rw at_start (write_to_open_file-splice buffer to_write o c exist small bound in_buffer)

    count : min to_write (s.fs_params.block_size - start) ≡ n
    count = count_of whole e

    outcome :
        Writes s h i start n inode content buffer
          (write_to_open_file (pos h) (some buffer) to_write s)
    outcome = rw count at whole

-- Another inode shares no block with the one written: its block is in use, and is another one.
pub record Apart (s : State) (inode other : Inode) : Type 0 where
  pub in_use :
      (b : ℕ)
      → 0 < other.i_size
      → other.i_data_block ≡ pos b
      → get_elem? s.free_blocks b ≡ some taken
  pub distinct : 0 < inode.i_size → 0 < other.i_size → inode.i_data_block ≢ other.i_data_block

OwnOrFree-ne :
    {s : State} {inode other : Inode} {b c : ℕ}
    → Apart s inode other
    → OwnOrFree s inode b
    → 0 < other.i_size
    → other.i_data_block ≡ pos c
    → b ≢ c
OwnOrFree-ne a (inl (p, own)) q e same = a.distinct p q (own ∙ ap pos same ∙ sym e)
OwnOrFree-ne {s} {b = b} {c} a (inr (z, is_free)) q e same =
    let at_c : get_elem? s.free_blocks b ≡ some taken = rw same (a.in_use c q e) in cc

write-Holds_other :
    {s t : State} {h i offset b : ℕ} {inode other : Inode} {content rest : List ℕ}
    → Wrote s t h i offset b content
    → OwnOrFree s inode b
    → Apart s inode other
    → Holds s other rest
    → Holds t other rest
write-Holds_other w source a (nothing e) = nothing e
write-Holds_other w source a (stored {b = c} p d) = stored p (record {
  pointer = d.pointer;
  valid_block = rw w.params d.valid_block;
  block_at = w.blocks c (OwnOrFree-ne a source p d.pointer) ∙ d.block_at;
  full_size = d.full_size ∙ ap (λ p. p.block_size) (sym w.params);
  fits = rw w.params d.fits;
})

after_outcome :
    {s t : State} {h i offset n : ℕ} {inode other : Inode} {content buffer rest : List ℕ} {x : ℤ}
    {r : Run ℤ}
    → Writes s h i offset n inode content buffer r
    → r ≡ ok x t
    → Apart s inode other
    → Holds s other rest
    → Holds t other rest
after_outcome {t = t} (wrote {t = u} b source w) e a c =
    let same : u ≡ t = cc in rw same at (write-Holds_other w source a c)
after_outcome {s} {t} {h} {i} {offset} (unchanged z e') e a c =
    let same : t ≡ at_offset s h i offset = cc in rw same (at_offset-Holds s h i offset c)
after_outcome {s} {t} {h} {i} {offset} (no_space z q all e') e a c =
    let same : t ≡ at_offset s h i offset = cc in rw same (at_offset-Holds s h i offset c)

-- Whatever a write through an open handle returns, every other inode holds the same bytes
-- afterwards, if its block is in use and is not the block of the file written. Every data block
-- exists, the block size and the number of bytes asked for are below 2^63, and the buffer has that
-- many bytes.
pub write_to_open_file-Holds_other :
    {s t : State} {h i offset : ℕ} {inode other : Inode} {content rest : List ℕ} {x : ℤ}
    (buffer : List ℕ) (to_write : ℕ)
    → IsOpen s h i offset inode
    → Holds s inode content
    → BlocksExist s
    → s.fs_params.block_size < 2 ^ 63
    → to_write < 2 ^ 63
    → to_write ≤ length buffer
    → Apart s inode other
    → Holds s other rest
    → write_to_open_file (pos h) (some buffer) to_write s ≡ ok x t
    → Holds t other rest
write_to_open_file-Holds_other buffer to_write o c exist small bound in_buffer a c' e =
    after_outcome (write_to_open_file-splice buffer to_write o c exist small bound in_buffer) e a c'
