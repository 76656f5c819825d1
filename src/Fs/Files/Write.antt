-- ===== src/Fs/Files/Write.antt =====
-- fs/state.c, `write_to_open_file`: the state after a write, with and without a new data block.
use tecnico_fs_so.Prelude.{
  ℕ, List, ◌≤◌, get_elem?, length, set, put, take, ◌≡◌, arith, pos, some, leb, length-take, le→leb,
  ◌+◌, ◌<◌, ◌^◌, if◌then◌else◌, ltb, min, ℤ, ◌-◌, ◌==◌,
}
use tecnico_fs_so.Fs.Files.{write_bytes, grow, write_to_open_file, write_first}
use tecnico_fs_so.Fs.Types.{State, Inode}
use tecnico_fs_so.Fs.Run.{ok, M, pure}
use tecnico_fs_so.Fs.Run.Steps.{
  read_inode-ok, in_bounds-ok, write_block-ok, update_inode-ok, read_at-ok,
}
use tecnico_fs_so.Fs.Files.Handles.{
  set_handle-ok, add_size-lt, at_offset, IsOpen, data_block_get-pointer, get_open_file_entry-IsOpen,
  inode_get-ok, clip-min, fitting-min,
}

-- The state after `n` bytes of `buffer` went to `offset` in block `b` of inode `i`, through handle `h`.
abbrev pub written : State → ℕ → ℕ → Inode → ℕ → List ℕ → ℕ → List ℕ → ℕ → State
written s h i inode b block offset buffer n = record s {
  fs_data = set s.fs_data b (put block offset (take n buffer));
  open_file_table = set s.open_file_table h (record { of_inumber = pos i; of_offset = offset + n });
  inode_table = set s.inode_table i (grow (offset + n) inode);
}

-- The stretch of the buffer fits, and no `size_t` sum wraps.
pub record Fits (block : List ℕ) (offset : ℕ) (buffer : List ℕ) (n : ℕ) : Type 0 where
  pub in_buffer : n ≤ length buffer
  pub in_block : offset + n ≤ length block
  pub small : length block < 2 ^ 63

pub length-take_le : (n : ℕ) (buffer : List ℕ) → n ≤ length buffer → length (take n buffer) ≡ n
length-take_le n buffer h = omega (arith, length-take n buffer)

pub write_bytes-ok :
    (s : State) (h i offset n b : ℕ) (buffer : List ℕ) {inode : Inode} {block : List ℕ}
    → get_elem? s.inode_table i ≡ some inode
    → inode.i_data_block ≡ pos b
    → b < s.fs_params.max_block_count
    → get_elem? s.fs_data b ≡ some block
    → Fits block offset buffer n
    → h < length s.open_file_table
    → write_bytes h i (pos i) offset buffer n s
      ≡ ok (pos n) (written s h i inode b block offset buffer n)
unfolding write_bytes
write_bytes-ok s h i offset n b buffer {inode} {block} at_i pointer valid at_b fits lt =
    let t : State = record s { fs_data = set s.fs_data b (put block offset (take n buffer)) } in
    let u : State = at_offset t h i (offset + n) in
    let room : offset + length (take n buffer) ≤ length block =
      omega (arith, fits.in_block, length-take_le n buffer fits.in_buffer) in
    rw (read_inode-ok s i at_i) (
      rw (data_block_get-pointer s b pointer valid) (
        rw (in_bounds-ok s {b = leb n (length buffer)} (le→leb n (length buffer) fits.in_buffer)) (
          rw (write_block-ok s b offset (take n buffer) at_b room) (
            rw
              (
                set_handle-ok t h _ lt,
                add_size-lt offset n (omega (arith, fits.in_block, fits.small)),
              )
              (rw (update_inode-ok u i (grow (offset + n)) at_i))))))

-- The part of `write_to_open_file` for `n > 0` bytes, and what follows when `n` is known.
abbrev pub with_bytes : ℕ → ℕ → ℕ → ℕ → List ℕ → ℕ → M ℤ
with_bytes size h i offset buffer n =
    if size == 0
    then write_first h i (pos i) offset buffer n
    else write_bytes h i (pos i) offset buffer n

abbrev pub rest_of_write : ℕ → ℕ → ℕ → ℕ → List ℕ → ℕ → M ℤ
rest_of_write size h i offset buffer n =
    if ltb 0 n then with_bytes size h i offset buffer n else pure (pos n)

pub write_to_open_file-rest :
    {s : State} {h i offset : ℕ} {inode : Inode} (buffer : List ℕ) (to_write : ℕ)
    → IsOpen s h i offset inode
    → inode.i_size ≤ s.fs_params.block_size
    → s.fs_params.block_size < 2 ^ 63
    → to_write < 2 ^ 63
    → let start = min offset inode.i_size in
      let n = min to_write (s.fs_params.block_size - start) in
      write_to_open_file (pos h) (some buffer) to_write s
      ≡ rest_of_write inode.i_size h i start buffer n (at_offset s h i start)
unfolding write_to_open_file
write_to_open_file-rest {s} {h} {i} {offset} {inode} buffer to_write o fits small bound =
    rw (get_open_file_entry-IsOpen o) (
      rw (read_at-ok s.open_file_table h s o.file) (
        rw (inode_get-ok s i o.valid_inode) (
          rw (read_inode-ok s i o.inode_at) (
            rw (
              set_handle-ok s h _ o.in_table,
              clip-min,
              fitting-min s.fs_params.block_size (min offset inode.i_size) to_write (omega arith)
                  small bound,
            )))))
