-- ===== src/Fs/Files/Read.antt =====
-- fs/state.c, `read_from_open_file`, against the bytes that a file holds.
use tecnico_fs_so.Prelude.{
  ℤ, drop, length-set, set-set, take_zero_of, ap, if◌then◌else◌, [], ltb, Bool-cases, inl, inr, ℕ,
  ◌+◌, ◌-◌, ◌^◌, ◌≤◌, ◌<◌, min, ◌≡◌, pos, true, List, length, slice, get_elem?, some, arith, leb,
}
use tecnico_fs_so.Fs.Types.{State, Inode, OpenFileEntry}
use tecnico_fs_so.Fs.Run.{ok, M, pure}
use tecnico_fs_so.Fs.Run.Steps.{read_at-ok, read_inode-ok, read_block-ok, in_bounds-ok}
use tecnico_fs_so.Fs.Files.{read_from_open_file, read_bytes}
use tecnico_fs_so.Fs.Files.Handles.{
  IsOpen, HasBlock, at_offset, get_open_file_entry-IsOpen, inode_get-ok, data_block_get-ok,
  set_handle-ok, clip-min, shorter-min, sub_size-le, add_size-lt,
}

read_bytes-ok :
    (s : State) (h i offset n b : ℕ) {block : List ℕ}
    → b < s.fs_params.max_block_count
    → get_elem? s.fs_data b ≡ some block
    → offset + n ≤ length block
    → length block < 2 ^ 63
    → h < length s.open_file_table
    → read_bytes h (pos i) (pos b) offset n s
      ≡ ok (pos n, slice block offset n) (at_offset s h i (offset + n))
unfolding read_bytes
read_bytes-ok s h i offset n b {block} valid e fits small lt = rw (data_block_get-ok s b valid) (
    rw (read_block-ok s b e) (
      rw (in_bounds-ok s {b = leb (offset + n) (length block)} (ground arith))
        (rw (set_handle-ok s h _ lt) (rw (add_size-lt offset n (omega arith))))))

-- What is left of `read_from_open_file` when the offset and the length are known.
abbrev rest_of_read : ℕ → ℕ → ℤ → ℕ → ℕ → M (ℤ × List ℕ)
rest_of_read h i data_block offset n =
    if ltb 0 n then read_bytes h (pos i) data_block offset n else pure (pos n, [])

rest_of_read-ok :
    (s : State) (h i offset n b : ℕ) {block : List ℕ}
    → b < s.fs_params.max_block_count
    → get_elem? s.fs_data b ≡ some block
    → offset + n ≤ length block
    → length block < 2 ^ 63
    → h < length s.open_file_table
    → rest_of_read h i (pos b) offset n (at_offset s h i offset)
      ≡ ok (pos n, slice block offset n) (at_offset s h i (offset + n))
rest_of_read-ok s h i offset n b {block} valid e fits small lt = elim (Bool-cases (ltb 0 n)) [
  | inl more ↦ rw more (
      rw
        (read_bytes-ok (at_offset s h i offset) h i offset n b valid e fits small
          (rw (length-set s.open_file_table h (entry offset)) lt))
        (ap (λ table. ok (pos n, slice block offset n) (record s { open_file_table = table }))
          (set-set s.open_file_table h (entry offset) (entry (offset + n)))))
  | inr done ↦
      let zero_n : n ≡ 0 = ground arith in
      rw (done, take_zero_of n (drop offset block) zero_n)
        (ap (λ k. ok (pos n, []) (at_offset s h i k)) (omega arith))
]
  where
    entry : ℕ → OpenFileEntry
    entry k = record { of_inumber = pos i; of_offset = k }

-- A read through an open handle of a file with a data block copies the bytes from the offset on, at
-- most `len` and none behind the end of the file, returns their number, moves the handle's offset
-- behind them, and changes nothing else. An offset behind the end of the file counts as its end.
pub read_from_open_file_lem :
    {s : State} {h i offset : ℕ} {inode : Inode} {b : ℕ} {block : List ℕ} (len : ℕ)
    → IsOpen s h i offset inode
    → HasBlock s inode b block
    → s.fs_params.block_size < 2 ^ 63
    → let start = min offset inode.i_size in
      let n = min len (inode.i_size - start) in
      read_from_open_file (pos h) true len s
      ≡ ok (pos n, slice block start n) (at_offset s h i (start + n))
unfolding read_from_open_file
read_from_open_file_lem {s} {h} {i} {offset} {inode} {b} {block} len o d small =
    rw (get_open_file_entry-IsOpen o) (
      rw (read_at-ok s.open_file_table h s o.file) (
        rw (inode_get-ok s i o.valid_inode) (
          rw (read_inode-ok s i o.inode_at) (
            rw
              (
                set_handle-ok s h _ o.in_table,
                clip-min,
                sub_size-le inode.i_size (min offset inode.i_size) (omega arith)
                    (omega (arith, d.fits)),
                shorter-min,
                d.pointer,
              )
              (rest_of_read-ok s h i (min offset inode.i_size)
                (min len (inode.i_size - min offset inode.i_size)) b d.valid_block d.block_at
                (omega (arith, d.fits, d.full_size)) (omega (arith, d.full_size)) o.in_table)))))

min_zero : (n : ℕ) → min n 0 ≡ 0
min_zero n = omega arith

-- The same of a file without bytes, for which no data block is looked at.
pub read_from_empty_file :
    {s : State} {h i offset : ℕ} {inode : Inode} (len : ℕ)
    → IsOpen s h i offset inode
    → inode.i_size ≡ 0
    → read_from_open_file (pos h) true len s ≡ ok (pos 0, []) (at_offset s h i 0)
unfolding read_from_open_file
read_from_empty_file {s} {h} {i} {offset} {inode} len o e = rw (get_open_file_entry-IsOpen o) (
    rw (read_at-ok s.open_file_table h s o.file) (
      rw (inode_get-ok s i o.valid_inode) (
        rw (read_inode-ok s i o.inode_at) (
          rw (set_handle-ok s h _ o.in_table, clip-min, e, shorter-min, min_zero offset)
            (rw (sub_size-le 0 0 (omega arith) (omega arith), min_zero len))))))
