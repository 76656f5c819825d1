-- ===== src/Fs/Files/Handles.antt =====
-- fs/state.c, the open file table: what an open handle gives access to.
use tecnico_fs_so.Prelude.{
  ℕ, ◌+◌, ◌-◌, ◌^◌, ◌≤◌, ◌<◌, min, ◌≡◌, refl, pos, true, List, length, get_elem?, lt→ltb, set, some,
  arith, ℤ,
}
use tecnico_fs_so.Fs.Types.{State, AllocationState, taken, Inode, OpenFileEntry}
use tecnico_fs_so.Fs.Run.{ok}
use tecnico_fs_so.Fs.Run.Steps.{assert-ok, index-pos, write_at-ok}
use tecnico_fs_so.Fs.Tables.{taken_at}
use tecnico_fs_so.Fs.Blocks.{data_block_get}
use tecnico_fs_so.Fs.Inodes.{inode_get}
use tecnico_fs_so.Fs.Files.{
  get_open_file_entry, handle_entry, set_handle, mark_handle, clip, shorter, fitting, add_size,
  sub_size,
}

-- Handle `h` is open on inode `i`, at an offset.
pub record IsOpen (s : State) (h i offset : ℕ) (inode : Inode) : Type 0 where
  pub valid_handle : h < s.fs_params.max_open_files_count
  pub handle_taken : get_elem? s.free_open_file_entries h ≡ some taken
  pub file :
      get_elem? s.open_file_table h ≡ some (record { of_inumber = pos i; of_offset = offset })
  pub in_table : h < length s.open_file_table
  pub valid_inode : i < s.fs_params.max_inode_count
  pub inode_at : get_elem? s.inode_table i ≡ some inode

-- The inode's data stand in block `b`, which holds `block`.
pub record HasBlock (s : State) (inode : Inode) (b : ℕ) (block : List ℕ) : Type 0 where
  pub pointer : inode.i_data_block ≡ pos b
  pub valid_block : b < s.fs_params.max_block_count
  pub block_at : get_elem? s.fs_data b ≡ some block
  pub full_size : length block ≡ s.fs_params.block_size
  pub fits : inode.i_size ≤ s.fs_params.block_size

-- The state with the entry of handle `h` written.
abbrev pub at_offset : State → ℕ → ℕ → ℕ → State
at_offset s h i offset = record s {
  open_file_table = set s.open_file_table h (record { of_inumber = pos i; of_offset = offset });
}

pub taken_at-some :
    (table : List AllocationState) (n : ℕ)
    → get_elem? table n ≡ some taken
    → taken_at table (pos n) ≡ true
taken_at-some table n e = rw (e, taken_at)

pub get_open_file_entry-IsOpen :
    {s : State} {h i offset : ℕ} {inode : Inode}
    → IsOpen s h i offset inode
    → get_open_file_entry (pos h) s ≡ ok (some h) s
unfolding get_open_file_entry handle_entry
get_open_file_entry-IsOpen {s} {h} o =
    rw (lt→ltb _ _ o.valid_handle, taken_at-some s.free_open_file_entries h o.handle_taken)
      (rw (index-pos s h))

pub inode_get-ok :
    (s : State) (i : ℕ) → i < s.fs_params.max_inode_count → inode_get (pos i) s ≡ ok i s
unfolding inode_get
inode_get-ok s i lt = rw (lt→ltb _ _ lt) (rw (assert-ok s refl, index-pos s i))

pub data_block_get-ok :
    (s : State) (b : ℕ) → b < s.fs_params.max_block_count → data_block_get (pos b) s ≡ ok b s
unfolding data_block_get
data_block_get-ok s b lt = rw (lt→ltb _ _ lt) (rw (assert-ok s refl, index-pos s b))

pub set_handle-ok :
    (s : State) (h : ℕ) (e : OpenFileEntry)
    → h < length s.open_file_table
    → set_handle h e s ≡ ok tt (record s { open_file_table = set s.open_file_table h e })
unfolding set_handle
set_handle-ok s h e lt = write_at-ok s.open_file_table h e _ s lt

pub mark_handle-ok :
    (s : State) (h : ℕ) (a : AllocationState)
    → h < length s.free_open_file_entries
    → mark_handle h a s
      ≡ ok tt (record s { free_open_file_entries = set s.free_open_file_entries h a })
unfolding mark_handle
mark_handle-ok s h a lt = write_at-ok s.free_open_file_entries h a _ s lt

pub clip-min : (offset size : ℕ) → clip offset size ≡ min offset size
unfolding clip
clip-min offset size = ground arith

pub shorter-min : (len available : ℕ) → shorter len available ≡ min len available
unfolding shorter
shorter-min len available = ground arith

pub sub_size-le : (a b : ℕ) → b ≤ a → a < 2 ^ 64 → sub_size a b ≡ a - b
unfolding sub_size
sub_size-le a b h k = omega arith

pub add_size-lt : (a b : ℕ) → a + b < 2 ^ 64 → add_size a b ≡ a + b
unfolding add_size
add_size-lt a b h = omega arith

-- No `size_t` sum wraps here, so the bytes that are written are those that fit into the block.
pub fitting-min :
    (block_size offset to_write : ℕ)
    → offset ≤ block_size
    → block_size < 2 ^ 63
    → to_write < 2 ^ 63
    → fitting block_size offset to_write ≡ min to_write (block_size - offset)
unfolding fitting add_size sub_size
fitting-min block_size offset to_write h k l = ground arith

pub data_block_get-pointer :
    (s : State) {x : ℤ} (b : ℕ)
    → x ≡ pos b
    → b < s.fs_params.max_block_count
    → data_block_get x s ≡ ok b s
data_block_get-pointer s b e lt = rw e (data_block_get-ok s b lt)
