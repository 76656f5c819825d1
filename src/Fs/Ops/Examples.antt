-- ===== src/Fs/Ops/Examples.antt =====
-- Instances of the theorems on fs/operations.c, on small file systems.
use tecnico_fs_so.Prelude.{
  refl, List, ap, arith, get_elem?, length, minus_one, pos, replicate, some, suc, zero, ℕ, ◌<◌, ◌≡◌,
  read_int, true, ◌+◌, [], bytes_eq, int_bytes, ◌++◌, ◌∷◌, Bool-cases, inl, inr, ◌∙◌, bytes_eq→eq,
  none,
}
use tecnico_fs_so.Fs.Samples.{
  empty_system, empty_root, name_f, hello, small, any_inode, small_memory, unmounted, root_block,
  name_g,
}
use tecnico_fs_so.Fs.Entries.WellFormed.{
  Absent, NoneLive, NoneLive-Absent, NoneLive-IsListing, IsListing,
}
use tecnico_fs_so.Fs.Ops.Root.{IsMounted, path}
use tecnico_fs_so.Fs.Entries.{
  entries, entry_at, is_live, find_first, c_string, name_bytes, is_live_name, shift,
}
use tecnico_fs_so.Fs.Dir.Laws.{listing_of}
use tecnico_fs_so.Fs.Types.{t_directory, State, t_file, taken, free, DirEntry, Inode}
use tecnico_fs_so.Fs.Dir.Access.{inumber_of}
use tecnico_fs_so.Fs.Dir.{entry_inumber, find_in_dir, add_dir_entry, with_directory, store_entry}
use tecnico_fs_so.Fs.Ops.CopyLaws.{CopiesFile, tfs_copy_from_external_fs-CopiesFile}
use tecnico_fs_so.Fs.Entries.Names.{IsName}
use tecnico_fs_so.Fs.Ops.Empty.{OpensEmpty}
use tecnico_fs_so.Fs.Ops.{
  tfs_open, tfs_copy_from_external_fs, tfs_o_creat, tfs_o_trunc, copy_chunks, tfs_close, tfs_init,
  tfs_read, tfs_lookup, tfs_write, tfs_unlink, tfs_link,
}
use tecnico_fs_so.Fs.Ops.OpenEmpty.{new_file, tfs_open-OpensEmpty}
use tecnico_fs_so.Fs.Ops.Format.{Granted, Formatted, tfs_init-Formatted}
use tecnico_fs_so.Fs.Ops.ReadBack.{ReadsBack, tfs_read-tfs_copy_from_external_fs}
use tecnico_fs_so.Fs.Run.{
  ◌>>=◌, ok, assert, in_bounds, read_at, index, write_at, update_inode, read_inode, read_block,
  write_block,
}
use tecnico_fs_so.Fs.Files.{
  remove_from_open_file_table, add_to_open_file_table, write_to_open_file, get_open_file_entry,
  set_handle, mark_handle, handle_entry, clip, shorter, fitting, grow, add_size, sub_size,
  write_bytes, write_first, delete_if_unused,
}
use tecnico_fs_so.Fs.Inodes.{inode_create, inode_alloc, inode_get}
use tecnico_fs_so.Fs.Tables.{first_free}
use tecnico_fs_so.Fs.Blocks.{data_block_alloc, data_block_get}
use tecnico_fs_so.Fs.Entries.Listing.{find_first-hit, find_first-miss}
use tecnico_fs_so.Fs.Ops.Unlink.{Unlinks, used_name}
use tecnico_fs_so.Fs.Ops.UnlinkLaws.{tfs_unlink-Unlinks}
use tecnico_fs_so.Fs.Ops.Link.{Links, tfs_link-Links, some_target}

empty_block :
    (b : ℕ)
    → b < 3
    → (block : List ℕ) × (get_elem? empty_system.fs_data b ≡ some block) × (length block ≡ 100)
empty_block zero lt = (empty_root, refl, refl)
empty_block (suc zero) lt = (replicate 100 46, refl, refl)
empty_block (suc (suc zero)) lt = (replicate 100 46, refl, refl)
empty_block (suc (suc (suc b))) lt = absurd (omega arith)

no_names : NoneLive (listing_of empty_system empty_root)
unfolding entries entry_at is_live read_int
no_names = (refl, (refl, tt))

empty-Absent : (name : List ℕ) → Absent name (listing_of empty_system empty_root)
empty-Absent name = NoneLive-Absent name (listing_of empty_system empty_root) no_names

empty-IsMounted : IsMounted empty_system empty_root
empty-IsMounted = record {
  root = record {
    node = record {
      i_node_type = t_directory;
      i_size = 100;
      i_data_block = pos 0;
      i_hard_links = 1;
    };
    at_inode = refl;
    is_directory = refl;
    pointer = refl;
    valid_block = omega arith;
    block_at = refl;
    long = omega arith;
    listing = NoneLive-IsListing (listing_of empty_system empty_root) no_names;
  };
  root_valid = omega arith;
  block_bytes = omega arith;
  root_in_use = refl;
  root_block_in_use = refl;
  inodes = record { inode_marks = omega arith; inode_entries = omega arith };
  handles = record { handle_marks = omega arith; handle_entries = omega arith };
  blocks = record { marks = omega arith; block_of = empty_block };
  named = λ name k e.
      let none_found : inumber_of name (listing_of empty_system empty_root) ≡ minus_one =
        ap entry_inumber (empty-Absent name) in
      cc;
}

f-IsName : IsName name_f
f-IsName = record {
  c_chars = (λ e. absurd (omega arith), tt);
  not_empty = omega arith;
  short = omega arith;
}

tfs_open-OpensEmpty_example :
    OpensEmpty empty_system empty_root name_f
      (tfs_open 1 (path name_f) (tfs_o_creat + tfs_o_trunc) empty_system)
tfs_open-OpensEmpty_example =
    tfs_open-OpensEmpty name_f empty-IsMounted 0 f-IsName (omega arith)
      (new_file (empty-Absent name_f))

tfs_copy_from_external_fs-CopiesFile_example :
    CopiesFile empty_system empty_root name_f hello true
      (tfs_copy_from_external_fs 1 (some hello) true (path name_f) empty_system)
tfs_copy_from_external_fs-CopiesFile_example =
    tfs_copy_from_external_fs-CopiesFile 0 name_f hello true empty-IsMounted f-IsName
      (new_file (empty-Absent name_f)) (omega arith) (omega arith) (omega arith)

abbrev copied_system : State
copied_system = record empty_system {
  inode_table =
      record { i_node_type = t_directory; i_size = 100; i_data_block = pos 0; i_hard_links = 1 }
      ∷ record { i_node_type = t_file; i_size = 5; i_data_block = pos 1; i_hard_links = 1 }
      ∷ any_inode
      ∷ [];
  freeinode_ts = taken ∷ taken ∷ free ∷ [];
  fs_data = root_block ∷ (hello ++ replicate 95 46) ∷ replicate 100 46 ∷ [];
  free_blocks = taken ∷ taken ∷ free ∷ [];
  open_file_table =
      record { of_inumber = pos 1; of_offset = 5 }
      ∷ record { of_inumber = pos 8; of_offset = 8 }
      ∷ [];
}

hello_copied :
    tfs_copy_from_external_fs 1 (some hello) true (path name_f) empty_system
    ≡ ok (pos 0) copied_system
unfolding tfs_copy_from_external_fs copy_chunks tfs_close remove_from_open_file_table inode_create
    inode_alloc first_free data_block_alloc data_block_get int_bytes read_int tfs_open tfs_lookup
    inode_get find_in_dir find_first add_dir_entry add_to_open_file_table tfs_write
    write_to_open_file get_open_file_entry c_string entry_at entries name_bytes bytes_eq assert
    in_bounds read_at index write_at update_inode read_inode read_block write_block set_handle
    mark_handle handle_entry clip shorter fitting grow add_size sub_size write_bytes write_first
    delete_if_unused with_directory store_entry
hello_copied = refl

tfs_read-tfs_copy_from_external_fs_example :
    ReadsBack copied_system hello 3
      ((tfs_open 1 (path name_f) 0 >>= λ h. tfs_read h true 3) copied_system)
tfs_read-tfs_copy_from_external_fs_example =
    tfs_read-tfs_copy_from_external_fs 0 name_f hello 3 empty-IsMounted f-IsName
      (new_file (empty-Absent name_f)) (omega arith) (omega arith) (omega arith) hello_copied

small-Granted : Granted small small_memory
small-Granted = record {
  inode_table = replicate 3 any_inode;
  freeinode_ts = replicate 3 taken;
  fs_data = replicate 3 (replicate 100 46);
  free_blocks = replicate 3 taken;
  open_file_table = replicate 2 (record { of_inumber = pos 8; of_offset = 8 });
  free_open_file_entries = replicate 2 taken;
  memory = refl;
  inodes = omega arith;
  inode_marks = omega arith;
  block_marks = omega arith;
  data_blocks = any_block;
  handles = omega arith;
  handle_marks = omega arith;
}
  where
    any_block :
        (b : ℕ)
        → b < 3
        → (block : List ℕ) × (get_elem? (replicate 3 (replicate 100 46)) b ≡ some block)
          × (length block ≡ 100)
    any_block zero lt = (replicate 100 46, refl, refl)
    any_block (suc zero) lt = (replicate 100 46, refl, refl)
    any_block (suc (suc zero)) lt = (replicate 100 46, refl, refl)
    any_block (suc (suc (suc b))) lt = absurd (omega arith)

tfs_init-Formatted_example :
    (t : State) × (block : List ℕ) × (tfs_init (some small) small_memory unmounted ≡ ok (pos 0) t)
    × Formatted small t block
tfs_init-Formatted_example =
    tfs_init-Formatted unmounted small-Granted (omega arith) (omega arith) (omega arith) refl

abbrev entry_f : DirEntry
entry_f = record { d_name = b'f' ∷ replicate 39 0; d_inumber = pos 1 }

abbrev entry_unused : DirEntry
entry_unused = record { d_name = replicate 40 46; d_inumber = minus_one }

root_entries : listing_of copied_system root_block ≡ entry_f ∷ entry_unused ∷ []
unfolding entries entry_at read_int
root_entries = refl

unused_last : (name : List ℕ) → find_first (is_live_name name) (entry_unused ∷ []) ≡ none
unfolding find_first
unused_last name = refl

-- The only name of the directory is "f".
only_f :
    (name : List ℕ) (k : ℕ)
    → inumber_of name (listing_of copied_system root_block) ≡ pos k
    → (k ≡ 1) × (is_live_name name entry_f ≡ true)
only_f name k e = elim (Bool-cases (is_live_name name entry_f)) [
  | inl hit ↦
      let first = find_first-hit (is_live_name name) entry_f (entry_unused ∷ []) hit in
      let same : inumber_of name (listing_of copied_system root_block) ≡ pos 1 =
        rw root_entries (ap entry_inumber first) in
      (cc, hit)
  | inr miss ↦
      let later = find_first-miss (is_live_name name) entry_f (entry_unused ∷ []) miss in
      let none_found : inumber_of name (listing_of copied_system root_block) ≡ minus_one =
        rw root_entries
          (ap entry_inumber later ∙ ap (λ o. entry_inumber (shift o)) (unused_last name)) in
      cc
]

copied_block :
    (b : ℕ)
    → b < 3
    → (block : List ℕ) × (get_elem? copied_system.fs_data b ≡ some block) × (length block ≡ 100)
copied_block zero lt = (root_block, refl, refl)
copied_block (suc zero) lt = (hello ++ replicate 95 46, refl, refl)
copied_block (suc (suc zero)) lt = (replicate 100 46, refl, refl)
copied_block (suc (suc (suc b))) lt = absurd (omega arith)

root-IsListing : IsListing (listing_of copied_system root_block)
unfolding entries entry_at find_first c_string read_int bytes_eq
root-IsListing = (inl (refl, refl), (inr (refl, inr tt), tt))

abbrev hello_node : Inode
hello_node = record { i_node_type = t_file; i_size = 5; i_data_block = pos 1; i_hard_links = 1 }

copied-IsMounted : IsMounted copied_system root_block
copied-IsMounted = record {
  root = record {
    node = record {
      i_node_type = t_directory;
      i_size = 100;
      i_data_block = pos 0;
      i_hard_links = 1;
    };
    at_inode = refl;
    is_directory = refl;
    pointer = refl;
    valid_block = omega arith;
    block_at = refl;
    long = omega arith;
    listing = root-IsListing;
  };
  root_valid = omega arith;
  block_bytes = omega arith;
  root_in_use = refl;
  root_block_in_use = refl;
  inodes = record { inode_marks = omega arith; inode_entries = omega arith };
  handles = record { handle_marks = omega arith; handle_entries = omega arith };
  blocks = record { marks = omega arith; block_of = copied_block };
  named = λ name k e.
      let (same, hit) = only_f name k e in
      rw same (record {
        valid = omega arith;
        in_use = refl;
        node = hello_node;
        node_at = refl;
        no_directory = λ z. cc;
        linked = λ z. absurd (omega arith);
      });
}

f_named : inumber_of name_f (listing_of copied_system root_block) ≡ pos 1
unfolding entries entry_at find_first c_string read_int bytes_eq
f_named = refl

f_name_of : (other : List ℕ) → is_live_name other entry_f ≡ true → name_f ≡ other
unfolding c_string
f_name_of other hit = bytes_eq→eq name_f other hit

tfs_unlink-Unlinks_example :
    Unlinks copied_system root_block name_f (tfs_unlink (path name_f) copied_system)
tfs_unlink-Unlinks_example = tfs_unlink-Unlinks name_f copied-IsMounted f-IsName (
    used_name 1 1 f_named refl
      (inr (
        record {
          not_empty = omega arith;
          pointer = refl;
          valid_block = omega arith;
          in_table = omega arith;
        },
        (λ z. absurd (omega arith)),
      ))
      (omega arith) (λ one other ne e. ne (f_name_of other (only_f other 1 e).1)))

g-IsName : IsName name_g
g-IsName = record {
  c_chars = (λ e. absurd (omega arith), tt);
  not_empty = omega arith;
  short = omega arith;
}

tfs_link-Links_example :
    Links copied_system root_block name_f name_g
      (tfs_link (path name_f) (path name_g) copied_system)
tfs_link-Links_example =
    tfs_link-Links name_f name_g copied-IsMounted f-IsName g-IsName (omega arith)
      (some_target 1 f_named refl (omega arith))
