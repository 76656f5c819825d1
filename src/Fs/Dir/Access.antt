-- ===== src/Fs/Dir/Access.antt =====
-- fs/state.c: a directory in the state, and the accesses of its functions.
use tecnico_fs_so.Prelude.{
  ℕ, List, arith, false, get_elem?, int_bytes, length, pos, put, set, some, ℤ, ◌*◌, ◌<◌, ◌≡◌, ◌≤◌,
  ap, get_elem?-set_self, length-int_bytes, length-put, lt_of_get_elem?, set-set, ◌∙◌,
}
use tecnico_fs_so.Fs.Types.{DirEntry, State, Inode, t_directory, dir_entry_size, max_file_name}
use tecnico_fs_so.Fs.Entries.Names.{IsName}
use tecnico_fs_so.Fs.Dir.{find_in_dir, with_directory, bad_name, entry_inumber, store_entry}
use tecnico_fs_so.Fs.Entries.{inumber_offset, name_offset, entries, find_first, is_live_name}
use tecnico_fs_so.Fs.Entries.WellFormed.{IsListing}
use tecnico_fs_so.Fs.Run.{M, ok, pure}
use tecnico_fs_so.Fs.Inodes.{max_dir_entries}
use tecnico_fs_so.Fs.Run.Steps.{read_inode-ok, write_block-ok, read_block-ok}
use tecnico_fs_so.Fs.Files.Handles.{data_block_get-pointer}

-- Inode `dir` is a directory, and its entries stand in block `b`, which holds `block`.
pub record IsDirectory (s : State) (dir b : ℕ) (block : List ℕ) : Type 0 where
  pub node : Inode
  pub at_inode : get_elem? s.inode_table dir ≡ some node
  pub is_directory : node.i_node_type ≡ t_directory
  pub pointer : node.i_data_block ≡ pos b
  pub valid_block : b < s.fs_params.max_block_count
  pub block_at : get_elem? s.fs_data b ≡ some block
  pub long : max_dir_entries s * dir_entry_size ≤ length block
  pub listing : IsListing (entries (max_dir_entries s) block)

-- What a name stands for: an inumber, or -1.
abbrev pub inumber_of : List ℕ → List DirEntry → ℤ
inumber_of name es = entry_inumber (find_first (is_live_name name) es)

pub IsName-good : (name : List ℕ) → IsName name → bad_name name ≡ false
IsName-good name n = ground (arith, n.not_empty, n.short)

pub with_directory-ok :
    {s : State} {dir b : ℕ} {block : List ℕ} (body : ℕ → List DirEntry → M ℤ)
    → IsDirectory s dir b block
    → with_directory dir body s ≡ body b (entries (max_dir_entries s) block) s
unfolding with_directory
with_directory-ok {s} {dir} {b} body d = rw (read_inode-ok s dir d.at_inode) (
    rw d.is_directory
      (rw (data_block_get-pointer s b d.pointer d.valid_block) (rw (read_block-ok s b d.block_at))))

-- In a directory, `find_in_dir` returns the inumber of the first entry in use that has the name,
-- or -1 if there is none, and changes nothing. The name is a C string of 1 to 39 bytes.
pub find_in_dir-inumber_of :
    {s : State} {dir b : ℕ} {block : List ℕ} (name : List ℕ)
    → IsDirectory s dir b block
    → IsName name
    → find_in_dir dir name s ≡ ok (inumber_of name (entries (max_dir_entries s) block)) s
unfolding find_in_dir
find_in_dir-inumber_of {s} name d n =
    rw (IsName-good name n)
      (with_directory-ok (λ b es. pure (entry_inumber (find_first (is_live_name name) es))) d)

-- The bytes of a directory's block after an inumber and a name are stored at entry `i`.
abbrev pub stored_entry : List ℕ → ℕ → ℤ → List ℕ → List ℕ
stored_entry block i x name = put (put block (inumber_offset i) (int_bytes x)) (name_offset i) name

pub length-stored_entry :
    (block : List ℕ) (i : ℕ) (x : ℤ) (name : List ℕ)
    → length (stored_entry block i x name) ≡ length block
length-stored_entry block i x name =
    length-put (put block (inumber_offset i) (int_bytes x)) (name_offset i) name
    ∙ length-put block (inumber_offset i) (int_bytes x)

abbrev pub with_entry : State → ℕ → List ℕ → State
with_entry s b block = record s { fs_data = set s.fs_data b block }

pub store_entry-ok :
    {s : State} {dir b : ℕ} {block : List ℕ} (i : ℕ) (x : ℤ) (name : List ℕ)
    → IsDirectory s dir b block
    → i < max_dir_entries s
    → length name ≡ max_file_name
    → store_entry b i x name s ≡ ok (pos 0) (with_entry s b (stored_entry block i x name))
unfolding store_entry
store_entry-ok {s} {dir} {b} {block} i x name d lt size =
    let first : List ℕ = put block (inumber_offset i) (int_bytes x) in
    let t : State = with_entry s b first in
    rw
      (write_block-ok s b (inumber_offset i) (int_bytes x) d.block_at
        (omega (arith, length-int_bytes x, d.long)))
      (rw
        (write_block-ok t b (name_offset i) name
          (get_elem?-set_self s.fs_data b first (lt_of_get_elem? s.fs_data b block d.block_at))
          (omega (arith, length-put block (inumber_offset i) (int_bytes x), d.long)))
        (ap (λ blocks. ok (pos 0) (record s { fs_data = blocks }))
          (set-set s.fs_data b first (stored_entry block i x name))))

-- The directory after the entry is stored, if that keeps its entries well-formed.
pub with_entry-IsDirectory :
    {s : State} {dir b : ℕ} {block : List ℕ} (i : ℕ) (x : ℤ) (name : List ℕ)
    → IsDirectory s dir b block
    → IsListing (entries (max_dir_entries s) (stored_entry block i x name))
    → IsDirectory (with_entry s b (stored_entry block i x name)) dir b (stored_entry block i x name)
with_entry-IsDirectory {s} {dir} {b} {block} i x name d listing = record {
  node = d.node;
  at_inode = d.at_inode;
  is_directory = d.is_directory;
  pointer = d.pointer;
  valid_block = d.valid_block;
  block_at = get_elem?-set_self s.fs_data b _ (lt_of_get_elem? s.fs_data b block d.block_at);
  long = omega (
    arith,
    d.long,
    length-put block (inumber_offset i) (int_bytes x),
    length-put (put block (inumber_offset i) (int_bytes x)) (name_offset i) name,
  );
  listing = listing;
}
