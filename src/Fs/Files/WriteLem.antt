-- ===== src/Fs/Files/WriteLem.antt =====
-- fs/state.c, `write_to_open_file`: every outcome of a write through an open handle.
use tecnico_fs_so.Prelude.{
  ℕ, refl, List, [], arith, get_elem?-set_ne, get_elem?-set_self, inl, inr, length, length-set,
  lt_of_get_elem?, pos, set, take, ℤ, ◌+◌, ◌<◌, ◌^◌, ◌∙◌, ◌≡◌, ◌≤◌, ap, set-set, set_self, splice,
  sym, take_zero_of, Bool-cases, ltb, ltb→lt, min, some, ◌-◌, eq_zero→==, pos→==_false, get_elem?,
}
use tecnico_fs_so.Fs.Files.WriteBack.{
  wrote, Wrote, Writes, BlocksExist, after_write-Wrote, after_write, no_space, unchanged,
  kind_of-set,
}
use tecnico_fs_so.Fs.Blocks.Alloc.{gives, none_free, AllocatesBlock, data_block_alloc-lowest}
use tecnico_fs_so.Fs.Types.{State, Inode, taken}
use tecnico_fs_so.Fs.Files.Handles.{IsOpen, at_offset, HasBlock}
use tecnico_fs_so.Fs.Files.{write_first, write_bytes, write_to_open_file}
use tecnico_fs_so.Fs.Run.{Run}
use tecnico_fs_so.Fs.Files.Write.{
  Fits, write_bytes-ok, rest_of_write, write_to_open_file-rest, with_bytes,
}
use tecnico_fs_so.Fs.Blocks.{data_block_alloc}
use tecnico_fs_so.Fs.Run.Steps.{update_inode-ok}
use tecnico_fs_so.Fs.Files.Content.{Holds, length-Holds, nothing, stored}

pub at_offset-IsOpen :
    {s : State} {h i offset : ℕ} {inode : Inode} (k : ℕ)
    → IsOpen s h i offset inode
    → IsOpen (at_offset s h i k) h i k inode
at_offset-IsOpen {s} {h} {i} k o = record {
  valid_handle = o.valid_handle;
  handle_taken = o.handle_taken;
  file = get_elem?-set_self s.open_file_table h _ o.in_table;
  in_table =
      rw (length-set s.open_file_table h (record { of_inumber = pos i; of_offset = k })) o.in_table;
  valid_inode = o.valid_inode;
  inode_at = o.inode_at;
}

at_offset_self :
    {s : State} {h i offset : ℕ} {inode : Inode}
    → IsOpen s h i offset inode
    → at_offset s h i offset ≡ s
at_offset_self {s} {h} o =
    ap (λ table. record s { open_file_table = table }) (set_self s.open_file_table h _ o.file)

at_offset_twice : (s : State) (h i k : ℕ) → at_offset (at_offset s h i k) h i k ≡ at_offset s h i k
at_offset_twice s h i k =
    ap (λ table. record s { open_file_table = table }) (set-set s.open_file_table h _ _)

-- Moving the handle to the end of the file first makes no difference.
after_clip :
    (k : ℕ) {s t : State} {h i offset b : ℕ} {content : List ℕ}
    → Wrote (at_offset s h i k) t h i offset b content
    → Wrote s t h i offset b content
after_clip k {s} {t} {h} {i} w = record {
  after = w.after;
  opened = w.opened;
  holds = w.holds;
  params = w.params;
  inodes = w.inodes;
  handles = λ g ne. w.handles g ne ∙ get_elem?-set_ne s.open_file_table h g _ ne;
  open_handles = w.open_handles;
  blocks = w.blocks;
  sizes = w.sizes;
  marks = w.marks;
  inode_marks = w.inode_marks;
  inode_count = w.inode_count;
  handle_count =
      w.handle_count
      ∙ length-set s.open_file_table h (record { of_inumber = pos i; of_offset = k });
  kinds = w.kinds;
  block_marks = w.block_marks;
}

-- The empty file has got block `b`.
abbrev with_block : State → ℕ → Inode → ℕ → State
with_block s i inode b = record s {
  free_blocks = set s.free_blocks b taken;
  inode_table = set s.inode_table i (record inode { i_data_block = pos b });
}

after_block :
    (inode : Inode) {s t : State} {h i offset b : ℕ} {content : List ℕ}
    → get_elem? s.inode_table i ≡ some inode
    → Wrote (with_block s i inode b) t h i offset b content
    → Wrote s t h i offset b content
after_block inode {s} {t} {h} {i} {b = b} at w = record {
  after = w.after;
  opened = w.opened;
  holds = w.holds;
  params = w.params;
  inodes = λ j ne. w.inodes j ne ∙ get_elem?-set_ne s.inode_table i j _ ne;
  handles = w.handles;
  open_handles = w.open_handles;
  blocks = w.blocks;
  sizes = w.sizes;
  marks = w.marks ∙ length-set s.free_blocks b taken;
  inode_marks = w.inode_marks;
  inode_count = w.inode_count ∙ length-set s.inode_table i (record inode { i_data_block = pos b });
  handle_count = w.handle_count;
  kinds = λ j. w.kinds j ∙ kind_of-set s.inode_table i j _ at refl;
  block_marks = elim w.block_marks [
    | inl e ↦ inr e
    | inr e ↦ inr (e ∙ set-set s.free_blocks b taken taken)
  ];
}

module _ (s : State) (h i offset n : ℕ) (buffer : List ℕ) {inode : Inode}
    (o : IsOpen s h i offset inode) (small : s.fs_params.block_size < 2 ^ 63) (some_bytes : 0 < n)
    (in_buffer : n ≤ length buffer) (in_block : offset + n ≤ s.fs_params.block_size) where
  -- A file with a block.
  write_bytes-Writes :
      {b : ℕ} {block : List ℕ}
      → 0 < inode.i_size
      → offset ≤ inode.i_size
      → HasBlock s inode b block
      → Writes s h i offset n inode
          (take inode.i_size block)
          buffer
          (write_bytes h i (pos i) offset buffer n s)
  write_bytes-Writes {b} {block} p inside d =
      let fits : Fits block offset buffer n = omega (arith, d.full_size) in
      rw
        (write_bytes-ok s h i offset n b buffer o.inode_at d.pointer d.valid_block d.block_at fits
          o.in_table)
        (wrote b (inl (p, d.pointer))
          (after_write-Wrote s h i offset n b buffer o d fits inside some_bytes))

  -- The state in which a file without bytes has got block `b`.
  with_block-IsOpen :
      (b : ℕ) → IsOpen (with_block s i inode b) h i offset (record inode { i_data_block = pos b })
  with_block-IsOpen b = record {
    valid_handle = o.valid_handle;
    handle_taken = o.handle_taken;
    file = o.file;
    in_table = o.in_table;
    valid_inode = o.valid_inode;
    inode_at =
        get_elem?-set_self s.inode_table i _ (lt_of_get_elem? s.inode_table i inode o.inode_at);
  }

  write_first-Writes :
      {r : Run ℤ}
      → AllocatesBlock s r
      → data_block_alloc s ≡ r
      → BlocksExist s
      → inode.i_size ≡ 0
      → offset ≡ 0
      → Writes s h i offset n inode [] buffer (write_first h i (pos i) offset buffer n s)
  unfolding write_first
  write_first-Writes (gives {b = b} lt e before) alloc exist empty zero_offset =
      let (block, at_b, full_size) = exist.block_of b lt in
      let u : State = with_block s i inode b in
      let opened = with_block-IsOpen b in
      let d : HasBlock u (record inode { i_data_block = pos b }) b block = record {
        pointer = refl;
        valid_block = lt;
        block_at = at_b;
        full_size = full_size;
        fits = omega arith;
      } in
      let fits : Fits block offset buffer n = omega arith in
      let after : Wrote u (after_write u h i offset n b buffer opened d fits (omega arith)) h i
          (offset + n) b (splice [] offset (take n buffer)) =
        rw (take_zero_of inode.i_size block empty) at
          (after_write-Wrote u h i offset n b buffer opened d fits (omega arith) some_bytes) in
      rw alloc (
        rw
          (update_inode-ok (record s { free_blocks = set s.free_blocks b taken }) i
            (λ inode. record inode { i_data_block = pos b }) o.inode_at)
          (rw (write_bytes-ok u h i offset n b buffer opened.inode_at refl lt at_b fits o.in_table)
            (wrote b (inr (empty, e)) (after_block inode o.inode_at after))))
  write_first-Writes (none_free all) alloc exist empty zero_offset =
      rw alloc (no_space empty some_bytes all (sym (at_offset_self o)))

-- From the state with the clipped offset back to the state before the call.
clip-Writes :
    (k : ℕ) {s : State} {h i n : ℕ} {inode : Inode} {content buffer : List ℕ} {r : Run ℤ}
    → Writes (at_offset s h i k) h i k n inode content buffer r
    → Writes s h i k n inode content buffer r
clip-Writes k (wrote b source w) = wrote b source (after_clip k w)
clip-Writes k {s} {h} {i} (unchanged z e) = unchanged z (e ∙ at_offset_twice s h i k)
clip-Writes k {s} {h} {i} (no_space z p all e) = no_space z p all (e ∙ at_offset_twice s h i k)

write_rest-Writes :
    (s : State) (h i offset n : ℕ) (buffer : List ℕ) {inode : Inode} {content : List ℕ}
    → IsOpen s h i offset inode
    → Holds s inode content
    → BlocksExist s
    → s.fs_params.block_size < 2 ^ 63
    → offset ≤ inode.i_size
    → n ≤ length buffer
    → offset + n ≤ s.fs_params.block_size
    → Writes s h i offset n inode content buffer (rest_of_write inode.i_size h i offset buffer n s)
write_rest-Writes s h i offset n buffer {inode} {content} o c exist small inside in_buffer
      in_block =
    elim (Bool-cases (ltb 0 n)) [
      | inr done ↦ rw done (unchanged (ground arith) (sym (at_offset_self o)))
      | inl more ↦ rw more (by_content c (ltb→lt 0 n more))
    ]
  where
    by_content :
        {content : List ℕ}
        → Holds s inode content
        → 0 < n
        → Writes s h i offset n inode content buffer (with_bytes inode.i_size h i offset buffer n s)
    by_content (nothing e) p = rw (eq_zero→== inode.i_size e) (
        write_first-Writes s h i offset n buffer o small p in_buffer in_block
          (data_block_alloc-lowest s (omega (arith, p, in_block)) exist.marks) refl exist e
          (omega arith))
    by_content (stored q d) p =
        rw (pos→==_false inode.i_size q)
          (write_bytes-Writes s h i offset n buffer o small p in_buffer in_block q inside d)

pub size_fits :
    {s : State} {inode : Inode} {content : List ℕ}
    → Holds s inode content
    → inode.i_size ≤ s.fs_params.block_size
size_fits (nothing e) = omega arith
size_fits (stored p d) = d.fits

-- The moved handle does not change what the inodes hold.
pub at_offset-Holds :
    (s : State) (h i k : ℕ) {inode : Inode} {content : List ℕ}
    → Holds s inode content
    → Holds (at_offset s h i k) inode content
at_offset-Holds s h i k (nothing e) = nothing e
at_offset-Holds s h i k (stored p d) = stored p (record {
  pointer = d.pointer;
  valid_block = d.valid_block;
  block_at = d.block_at;
  full_size = d.full_size;
  fits = d.fits;
})

-- A write through an open handle starts at the handle's offset, or at the end of the file if that
-- is smaller, and takes as many bytes as fit into one block. It splices these bytes into the file,
-- returns their number and leaves the handle behind them; it returns -1 only when the file is
-- empty, there is a byte to write and every data block is taken. A block that it takes was free,
-- and it changes no other inode, handle or block. Every data block exists, the block size and the
-- number of bytes asked for are below 2^63, and the buffer has that many bytes.
pub write_to_open_file-splice :
    {s : State} {h i offset : ℕ} {inode : Inode} {content : List ℕ} (buffer : List ℕ) (to_write : ℕ)
    → IsOpen s h i offset inode
    → Holds s inode content
    → BlocksExist s
    → s.fs_params.block_size < 2 ^ 63
    → to_write < 2 ^ 63
    → to_write ≤ length buffer
    → let start = min offset (length content) in
      let n = min to_write (s.fs_params.block_size - start) in
      Writes s h i start n inode content buffer
        (write_to_open_file (pos h) (some buffer) to_write s)
write_to_open_file-splice {s} {h} {i} {offset} {inode} buffer to_write o c exist small bound
      in_buffer =
    let fits : inode.i_size ≤ s.fs_params.block_size = size_fits c in
    let start = min offset inode.i_size in
    rw (length-Holds c, write_to_open_file-rest buffer to_write o fits small bound)
      (clip-Writes start (
        write_rest-Writes (at_offset s h i start) h i start _ buffer (at_offset-IsOpen start o)
          (at_offset-Holds s h i start c)
          (record { marks = exist.marks; block_of = exist.block_of }) small (omega arith)
          (omega arith) (omega arith)))
