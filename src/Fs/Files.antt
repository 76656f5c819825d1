-- ===== src/Fs/Files.antt =====
-- fs/state.c, the open file table: opening, closing, reading and writing through a handle.
pub mod Handles
pub mod Read
pub mod Content
pub mod Write
pub mod WriteBack
pub mod WriteLem
pub mod RoundTrip
pub mod Bounds
pub mod Table
use tecnico_fs_so.Prelude.{
  ℕ, zero, suc, ◌+◌, ◌-◌, ◌%◌, ◌^◌, ℤ, pos, minus_one, is_minus_one, int_eq, Bool, true, false, not,
  ◌&&◌, ◌||◌, List, [], ◌∷◌, length, take, slice, Option, none, some, if◌then◌else◌, ltb, leb, ◌==◌,
}
use tecnico_fs_so.Fs.Types.{AllocationState, free, taken, OpenFileEntry, Inode}
use tecnico_fs_so.Fs.Run.{
  ok, halt, overrun, M, pure, gets, assert, in_bounds, index, read_at, write_at, update_inode,
  read_inode, read_block, write_block, ◌>>=◌, ◌>>◌,
}
use tecnico_fs_so.Fs.Tables.{
  Scan, found, absent, beyond, first_free, taken_at, valid_inumber, valid_file_handle,
  valid_file_content,
}
use tecnico_fs_so.Fs.Blocks.{data_block_alloc, data_block_get}
use tecnico_fs_so.Fs.Inodes.{inode_get, inode_delete}

-- `size_t` arithmetic.
unfoldable pub add_size : ℕ → ℕ → ℕ
add_size a b = (a + b) % 2 ^ 64

unfoldable pub sub_size : ℕ → ℕ → ℕ
sub_size a b = (a + 2 ^ 64 - b) % 2 ^ 64

unfoldable pub set_handle : ℕ → OpenFileEntry → M (Unit {0})
set_handle i e = do
  s ← gets (λ s. s)
  write_at s.open_file_table i e (λ table s. record s { open_file_table = table })

unfoldable pub mark_handle : ℕ → AllocationState → M (Unit {0})
mark_handle i a = do
  s ← gets (λ s. s)
  write_at s.free_open_file_entries i a (λ table s. record s { free_open_file_entries = table })

abbrev pub take_handle : ℤ → ℕ → Scan → M ℤ
take_handle inumber offset (found i) = do
  mark_handle i taken
  set_handle i (record { of_inumber = inumber; of_offset = offset })
  pure (pos i)
take_handle inumber offset absent = pure minus_one
take_handle inumber offset beyond = λ _. halt overrun

unfoldable pub add_to_open_file_table : ℤ → ℕ → M ℤ
add_to_open_file_table inumber offset = do
  s ← gets (λ s. s)
  if not (valid_inumber s inumber) || not (taken_at s.freeinode_ts inumber)
      then pure minus_one
      else take_handle inumber offset
          (first_free s.fs_params.max_open_files_count s.free_open_file_entries)

-- `none` is NULL, and a pointer is the index of the entry.
unfoldable pub handle_entry : Bool → ℤ → M (Option ℕ)
handle_entry true fhandle = do i ← index fhandle; pure (some i)
handle_entry false fhandle = pure none

unfoldable pub get_open_file_entry : ℤ → M (Option ℕ)
get_open_file_entry fhandle = do
  s ← gets (λ s. s)
  handle_entry (valid_file_handle s fhandle && taken_at s.free_open_file_entries fhandle) fhandle

-- The loop of `is_file_open` over the first `n` entries; `none` is an access outside of the tables.
unfoldable pub any_open : ℕ → List AllocationState → List OpenFileEntry → ℤ → Option Bool
any_open zero states files inumber = some false
any_open (suc n) [] files inumber = none
any_open (suc n) (a ∷ states) [] inumber = none
any_open (suc n) (free ∷ states) (f ∷ files) inumber = any_open n states files inumber
any_open (suc n) (taken ∷ states) (f ∷ files) inumber =
    if int_eq f.of_inumber inumber then some true else any_open n states files inumber

unfoldable pub answer : Option Bool → M Bool
answer none s = halt overrun
answer (some b) s = ok b s

unfoldable pub is_file_open : ℤ → M Bool
is_file_open inumber = do
  s ← gets (λ s. s)
  if not (valid_inumber s inumber)
      then pure false
      else answer (
          any_open s.fs_params.max_open_files_count s.free_open_file_entries s.open_file_table
            inumber)

-- The inode whose last link and last handle are gone is deleted: the end of
-- `remove_from_open_file_table` and of `tfs_unlink`.
unfoldable pub delete_if_unused : ℤ → ℕ → M (Unit {0})
delete_if_unused inumber i = do
  inode ← read_inode i
  if inode.i_hard_links == 0
      then (do opened ← is_file_open inumber; if opened then pure tt else inode_delete inumber)
      else pure tt

abbrev pub close_handle : ℤ → Option ℕ → M ℤ
close_handle fhandle none = pure minus_one
close_handle fhandle (some f) = do
  s ← gets (λ s. s)
  file ← read_at s.open_file_table f
  assert (valid_file_content s file.of_inumber)
  assert (valid_file_handle s fhandle)
  assert (taken_at s.free_open_file_entries fhandle)
  h ← index fhandle
  mark_handle h free
  i ← inode_get file.of_inumber
  delete_if_unused file.of_inumber i
  pure (pos 0)

unfoldable pub remove_from_open_file_table : ℤ → M ℤ
remove_from_open_file_table fhandle = do
  file ← get_open_file_entry fhandle
  close_handle fhandle file

-- The offset that `write_to_open_file` and `read_from_open_file` go on with.
unfoldable pub clip : ℕ → ℕ → ℕ
clip offset size = if ltb size offset then size else offset

-- How much of `available` is asked for.
unfoldable pub shorter : ℕ → ℕ → ℕ
shorter len available = if ltb len available then len else available

-- How much of `to_write` fits into the block.
unfoldable pub fitting : ℕ → ℕ → ℕ → ℕ
fitting block_size offset to_write =
    if ltb block_size (add_size to_write offset) then sub_size block_size offset else to_write

-- `if (offset > i_size) i_size = offset`.
unfoldable pub grow : ℕ → Inode → Inode
grow offset inode = record inode {
  i_size = if ltb inode.i_size offset then offset else inode.i_size;
}

-- `memcpy(block + offset, buffer, n)` and what follows it.
unfoldable pub write_bytes : ℕ → ℕ → ℤ → ℕ → List ℕ → ℕ → M ℤ
write_bytes f i inumber offset buffer n = do
  inode ← read_inode i
  b ← data_block_get inode.i_data_block
  in_bounds (leb n (length buffer))
  write_block b offset (take n buffer)
  set_handle f (record { of_inumber = inumber; of_offset = add_size offset n })
  update_inode i (grow (add_size offset n))
  pure (pos n)

-- An empty file gets a block first.
unfoldable pub write_first : ℕ → ℕ → ℤ → ℕ → List ℕ → ℕ → M ℤ
write_first f i inumber offset buffer n = do
  bnum ← data_block_alloc
  if is_minus_one bnum then pure minus_one else (do
    update_inode i (λ inode. record inode { i_data_block = bnum })
    write_bytes f i inumber offset buffer n)

abbrev write_through : ℕ → List ℕ → ℕ → M ℤ
write_through f buffer to_write = do
  s ← gets (λ s. s)
  file ← read_at s.open_file_table f
  i ← inode_get file.of_inumber
  inode ← read_inode i
  let offset = clip file.of_offset inode.i_size
  set_handle f (record file { of_offset = offset })
  let n = fitting s.fs_params.block_size offset to_write
  if ltb 0 n
      then (if inode.i_size == 0
          then write_first f i file.of_inumber offset buffer n
          else write_bytes f i file.of_inumber offset buffer n)
      else pure (pos n)

abbrev write_opened : Option ℕ → List ℕ → ℕ → M ℤ
write_opened none buffer to_write = pure minus_one
write_opened (some f) buffer to_write = write_through f buffer to_write

-- `buffer` is NULL or holds the bytes that can be read from it.
unfoldable pub write_to_open_file : ℤ → Option (List ℕ) → ℕ → M ℤ
write_to_open_file fhandle none to_write = pure minus_one
write_to_open_file fhandle (some buffer) to_write = do
  file ← get_open_file_entry fhandle
  write_opened file buffer to_write

unfoldable pub read_bytes : ℕ → ℤ → ℤ → ℕ → ℕ → M (ℤ × List ℕ)
read_bytes f inumber data_block offset n = do
  b ← data_block_get data_block
  block ← read_block b
  in_bounds (leb (offset + n) (length block))
  set_handle f (record { of_inumber = inumber; of_offset = add_size offset n })
  pure (pos n, slice block offset n)

abbrev read_through : ℕ → ℕ → M (ℤ × List ℕ)
read_through f len = do
  s ← gets (λ s. s)
  file ← read_at s.open_file_table f
  i ← inode_get file.of_inumber
  inode ← read_inode i
  let offset = clip file.of_offset inode.i_size
  set_handle f (record file { of_offset = offset })
  let available = sub_size inode.i_size offset
  let n = shorter len available
  if ltb 0 n then read_bytes f file.of_inumber inode.i_data_block offset n else pure (pos n, [])

abbrev read_opened : Option ℕ → ℕ → M (ℤ × List ℕ)
read_opened none len = pure (minus_one, [])
read_opened (some f) len = read_through f len

-- Beside the result stands what was copied to `buffer`, which is NULL if the first test is false.
unfoldable pub read_from_open_file : ℤ → Bool → ℕ → M (ℤ × List ℕ)
read_from_open_file fhandle false len = pure (minus_one, [])
read_from_open_file fhandle true len = do file ← get_open_file_entry fhandle; read_opened file len
