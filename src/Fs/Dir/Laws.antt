-- ===== src/Fs/Dir/Laws.antt =====
-- fs/state.c: what `add_dir_entry` and `clear_dir_entry` do to the names of a directory.
use tecnico_fs_so.Prelude.{
  ℕ, refl, List, ap, arith, get_elem?, lt_of_get_elem?, minus_one, none, not, pos,
  read_int-int_bytes, set, some, ℤ, ◌<◌, ◌^◌, ◌∙◌, ◌≡◌, ◌≢◌, Option, lt→ltb, sym,
  read_int-minus_one, replicate, length,
}
use tecnico_fs_so.Fs.Types.{DirEntry, State, max_file_name}
use tecnico_fs_so.Fs.Dir.Access.{
  IsDirectory, inumber_of, stored_entry, store_entry-ok, with_entry-IsDirectory, IsName-good,
  with_directory-ok, length-stored_entry,
}
use tecnico_fs_so.Fs.Entries.Names.{IsName, length-name_bytes}
use tecnico_fs_so.Fs.Run.{Run, ok}
use tecnico_fs_so.Fs.Entries.{entries, is_live_name, find_first, is_live, name_bytes, has_name}
use tecnico_fs_so.Fs.Entries.WellFormed.{
  Absent, new_entry, add-IsListing, blank, erase-IsListing, erase-Absent,
}
use tecnico_fs_so.Fs.Inodes.{max_dir_entries}
use tecnico_fs_so.Fs.Entries.Listing.{Found, Found-Hit}
use tecnico_fs_so.Fs.Entries.Layout.{length-entries, entries-store}
use tecnico_fs_so.Fs.Dir.{
  store_entry, entry_inumber, add_dir_entry, add_new, clear_dir_entry, fill_entry, erase_entry,
}
use tecnico_fs_so.Fs.Entries.Lookup.{
  find_new, find_new_other, Absent-of_no_name, Found-of, find_erased_other,
}

abbrev pub listing_of : State → List ℕ → List DirEntry
listing_of s block = entries (max_dir_entries s) block

-- A directory whose names stand for the same as before, but one.
pub record Renamed (s t : State) (dir b : ℕ) (block block' : List ℕ) (name : List ℕ) (x : ℤ)
    : Type 0 where
  pub still : IsDirectory t dir b block'
  pub only_block : t ≡ record s { fs_data = set s.fs_data b block' }
  pub same_size : length block' ≡ length block
  pub self : inumber_of name (listing_of t block') ≡ x
  pub others :
      (other : List ℕ)
      → name ≢ other
      → inumber_of other (listing_of t block') ≡ inumber_of other (listing_of s block)

-- The outcome of adding a name.
pub data Adds (s : State) (dir b : ℕ) (block name : List ℕ) (k : ℕ) : Run ℤ → Type 0 where
  added :
      {t : State} (block' : List ℕ)
      → Absent name (listing_of s block)
      → Renamed s t dir b block block' name (pos k)
      → Adds s dir b block name k (ok (pos 0) t)
  present : ¬ (Absent name (listing_of s block)) → Adds s dir b block name k (ok minus_one s)
  no_room :
      find_first (λ e. not (is_live e)) (listing_of s block) ≡ none
      → Adds s dir b block name k (ok minus_one s)

-- The outcome of deleting a name.
pub data Clears (s : State) (dir b : ℕ) (block name : List ℕ) : Run ℤ → Type 0 where
  cleared :
      {t : State} (block' : List ℕ)
      → Renamed s t dir b block block' name minus_one
      → Clears s dir b block name (ok (pos 0) t)
  not_there : Absent name (listing_of s block) → Clears s dir b block name (ok minus_one s)

module _ {s : State} {dir b : ℕ} {block : List ℕ} (name : List ℕ) (n : IsName name)
    (d : IsDirectory s dir b block) where
  es : List DirEntry
  es = entries (max_dir_entries s) block

  index_lt : {i : ℕ} {a : DirEntry} → get_elem? es i ≡ some a → i < max_dir_entries s
  unfolding es
  index_lt {i} {a} e =
      omega (arith, lt_of_get_elem? es i a e, length-entries (max_dir_entries s) block)

  add_at :
      {i : ℕ} {old : DirEntry} (k : ℕ)
      → k < 2 ^ 31
      → Absent name es
      → Found (λ e. not (is_live e)) es (some (i, old))
      → Adds s dir b block name k (store_entry b i (pos k) (name_bytes name) s)
  unfolding es
  add_at {i} {old} k small absent f =
      let hit = Found-Hit (λ e. not (is_live e)) f in
      let lt = index_lt hit.at_index in
      let stored : entries (max_dir_entries s) (stored_entry block i (pos k) (name_bytes name))
          ≡ set es i (new_entry name k) =
        entries-store (max_dir_entries s) i block (pos k) (name_bytes name) lt d.long
          (length-name_bytes name n.short)
        ∙ ap (λ x. set es i (record { d_name = name_bytes name; d_inumber = x }))
            (read_int-int_bytes k small) in
      rw (store_entry-ok i (pos k) (name_bytes name) d lt (length-name_bytes name n.short)) (
        added (stored_entry block i (pos k) (name_bytes name)) absent (record {
          still =
              with_entry-IsDirectory i (pos k) (name_bytes name) d
                (rw stored (add-IsListing name k n f d.listing absent));
          only_block = refl;
          same_size = length-stored_entry block i (pos k) (name_bytes name);
          self = rw stored (ap entry_inumber (find_new name k n hit absent));
          others = λ other ne. rw stored (ap entry_inumber (find_new_other name other k n hit ne));
        }))

  by_room :
      {o : Option (ℕ × DirEntry)} (k : ℕ)
      → k < 2 ^ 31
      → Absent name es
      → find_first (λ e. not (is_live e)) es ≡ o
      → Adds s dir b block name k (fill_entry name (pos k) b o s)
  unfolding es
  by_room {o = none} k small absent e = no_room e
  by_room {o = some (i, old)} k small absent e =
      add_at k small absent (Found-of (λ e. not (is_live e)) es e)

  by_name :
      {o : Option (ℕ × DirEntry)} (k : ℕ)
      → k < 2 ^ 31
      → find_first (is_live_name name) es ≡ o
      → Adds s dir b block name k (add_new name (pos k) b es o s)
  unfolding es
  by_name {o = none} k small e = by_room k small e refl
  by_name {o = some x} k small e = present (λ absent. let wrong = sym e ∙ absent in cc)

  -- Adding a name to a directory stores it once: afterwards the name stands for the inumber, every
  -- other name for what it stood for, and nothing but the directory's block has changed. It returns
  -- -1 and changes nothing if the name is in use, or if every entry is. The names that the memory
  -- held before do not count. The name is a C string of 1 to 39 bytes, the inumber valid and below
  -- 2^31.
  pub add_dir_entry-Adds :
      (k : ℕ)
      → k < s.fs_params.max_inode_count
      → k < 2 ^ 31
      → Adds s dir b block name k (add_dir_entry dir name (pos k) s)
  unfolding add_dir_entry es
  add_dir_entry-Adds k valid small =
      rw (IsName-good name n, lt→ltb k s.fs_params.max_inode_count valid)
        (rw
          (with_directory-ok (λ b es. add_new name (pos k) b es (find_first (is_live_name name) es))
            d)
          (by_name k small refl))

  erase-Found :
      {i : ℕ} {old : DirEntry}
      → Found (has_name name) es (some (i, old))
      → Clears s dir b block name (store_entry b i minus_one (replicate max_file_name 0) s)
  unfolding es
  erase-Found {i} {old} f =
      let hit = Found-Hit (has_name name) f in
      let lt = index_lt hit.at_index in
      let zeros : List ℕ = replicate max_file_name 0 in
      let stored : entries (max_dir_entries s) (stored_entry block i minus_one zeros)
          ≡ set es i blank =
        entries-store (max_dir_entries s) i block minus_one zeros lt d.long refl
        ∙ ap (λ x. set es i (record { d_name = zeros; d_inumber = x })) read_int-minus_one in
      rw (store_entry-ok i minus_one zeros d lt refl) (
        cleared (stored_entry block i minus_one zeros) (record {
          still =
              with_entry-IsDirectory i minus_one zeros d
                (rw stored (erase-IsListing es i d.listing));
          only_block = refl;
          same_size = length-stored_entry block i minus_one zeros;
          self = rw stored (ap entry_inumber (erase-Absent name n f d.listing));
          others = λ other ne. rw stored (ap entry_inumber (find_erased_other name other hit ne));
        }))

  erase_at :
      {o : Option (ℕ × DirEntry)}
      → find_first (has_name name) es ≡ o
      → Clears s dir b block name (erase_entry b o s)
  unfolding es
  erase_at {o = none} e = not_there (Absent-of_no_name name es e)
  erase_at {o = some (i, old)} e = erase-Found (Found-of (has_name name) es e)

  -- Deleting a name from a directory leaves the name unused and every other name as it was, and
  -- changes nothing but the directory's block; it returns -1 and changes nothing only if the name is
  -- not in use. The name is a C string of 1 to 39 bytes.
  pub clear_dir_entry-Clears : Clears s dir b block name (clear_dir_entry dir name s)
  unfolding clear_dir_entry es
  clear_dir_entry-Clears = rw (IsName-good name n) (
      rw (with_directory-ok (λ b es. erase_entry b (find_first (has_name name) es)) d)
        (erase_at refl))
