-- ===== src/Fs/Files/Table.antt =====
-- fs/state.c: how a handle of the open file table is given out and given back.
use tecnico_fs_so.Prelude.{
  refl, arith, false, get_elem?, get_elem?-set_self, length, length-set, lt_of_get_elem?, lt→ltb,
  minus_one, pos, set, some, ℕ, ℤ, ◌<◌, ◌==◌, ◌≡◌, ◌≢◌, ◌≤◌,
}
use tecnico_fs_so.Fs.Run.{ok, Run}
use tecnico_fs_so.Fs.Types.{free, taken, State, Inode, OpenFileEntry}
use tecnico_fs_so.Fs.Tables.Search.{hit, miss, First, first_free-First}
use tecnico_fs_so.Fs.Files.{
  add_to_open_file_table, remove_from_open_file_table, delete_if_unused, take_handle,
}
use tecnico_fs_so.Fs.Tables.{Scan}
use tecnico_fs_so.Fs.Files.Handles.{
  taken_at-some, IsOpen, get_open_file_entry-IsOpen, mark_handle-ok, set_handle-ok, inode_get-ok,
}
use tecnico_fs_so.Fs.Run.Steps.{read_at-ok, assert-ok, index-pos, read_inode-ok}

-- The open file table has an entry for each handle.
pub record HandlesExist (s : State) : Type 0 where
  pub handle_marks : s.fs_params.max_open_files_count ≤ length s.free_open_file_entries
  pub handle_entries : s.fs_params.max_open_files_count ≤ length s.open_file_table

abbrev pub with_handle : State → ℕ → ℕ → ℕ → State
with_handle s h i offset = record s {
  free_open_file_entries = set s.free_open_file_entries h taken;
  open_file_table = set s.open_file_table h (record { of_inumber = pos i; of_offset = offset });
}

-- The outcome of adding a file to the table.
pub data GivesHandle (s : State) (i offset : ℕ) : Run ℤ → Type 0 where
  handle_given :
      {h : ℕ}
      → h < s.fs_params.max_open_files_count
      → get_elem? s.free_open_file_entries h ≡ some free
      → ((j : ℕ) → j < h → get_elem? s.free_open_file_entries j ≡ some taken)
      → GivesHandle s i offset (ok (pos h) (with_handle s h i offset))
  all_open :
      ((j : ℕ)
        → j < s.fs_params.max_open_files_count
        → get_elem? s.free_open_file_entries j ≡ some taken)
      → GivesHandle s i offset (ok minus_one s)

take_handle-GivesHandle :
    {s : State} (i offset : ℕ) {r : Scan}
    → HandlesExist s
    → First s.fs_params.max_open_files_count s.free_open_file_entries r
    → GivesHandle s i offset (take_handle (pos i) offset r s)
take_handle-GivesHandle {s} i offset x (hit {i = h} lt e before) =
    let t : State = record s { free_open_file_entries = set s.free_open_file_entries h taken } in
    let entry : OpenFileEntry = record { of_inumber = pos i; of_offset = offset } in
    rw (mark_handle-ok s h taken (omega (arith, x.handle_marks)))
      (rw (set_handle-ok t h entry (omega (arith, x.handle_entries))) (handle_given lt e before))
take_handle-GivesHandle i offset x (miss all) = all_open all

-- A file is entered at the lowest free handle with the offset given, or -1 is returned and nothing
-- changed if there is none; the inode is valid and in use.
pub add_to_open_file_table-GivesHandle :
    {s : State} (i offset : ℕ)
    → HandlesExist s
    → i < s.fs_params.max_inode_count
    → get_elem? s.freeinode_ts i ≡ some taken
    → GivesHandle s i offset (add_to_open_file_table (pos i) offset s)
unfolding add_to_open_file_table
add_to_open_file_table-GivesHandle {s} i offset x valid in_use =
    rw (lt→ltb i s.fs_params.max_inode_count valid, taken_at-some s.freeinode_ts i in_use)
      (take_handle-GivesHandle i offset x (first_free-First _ _ x.handle_marks))

pub with_handle-IsOpen :
    {s : State} {h i : ℕ} (offset : ℕ) {inode : Inode}
    → HandlesExist s
    → h < s.fs_params.max_open_files_count
    → i < s.fs_params.max_inode_count
    → get_elem? s.inode_table i ≡ some inode
    → IsOpen (with_handle s h i offset) h i offset inode
with_handle-IsOpen {s} {h} {i} offset x lt valid at = record {
  valid_handle = lt;
  handle_taken =
      get_elem?-set_self s.free_open_file_entries h taken (omega (arith, x.handle_marks));
  file = get_elem?-set_self s.open_file_table h _ (omega (arith, x.handle_entries));
  in_table = omega (
    arith,
    x.handle_entries,
    length-set s.open_file_table h (record { of_inumber = pos i; of_offset = offset }),
  );
  valid_inode = valid;
  inode_at = at;
}

-- A handle of a file that still has a name is given back.
pub remove_from_open_file_table-linked :
    {s : State} {h i offset : ℕ} {inode : Inode}
    → IsOpen s h i offset inode
    → get_elem? s.freeinode_ts i ≡ some taken
    → inode.i_hard_links ≢ 0
    → remove_from_open_file_table (pos h) s
      ≡ ok (pos 0) (record s { free_open_file_entries = set s.free_open_file_entries h free })
unfolding remove_from_open_file_table delete_if_unused
remove_from_open_file_table-linked {s} {h} {i} {inode = inode} o in_use linked =
    let t : State = record s { free_open_file_entries = set s.free_open_file_entries h free } in
    let some_links : (inode.i_hard_links == 0) ≡ false = ground (arith, linked) in
    rw (get_open_file_entry-IsOpen o) (
      rw (read_at-ok s.open_file_table h s o.file) (
        rw
          (
            lt→ltb i s.fs_params.max_inode_count o.valid_inode,
            taken_at-some s.freeinode_ts i in_use,
          )
          (rw (assert-ok s refl) (
            rw (lt→ltb h s.fs_params.max_open_files_count o.valid_handle, assert-ok s refl)
              (rw (taken_at-some s.free_open_file_entries h o.handle_taken, assert-ok s refl)
                (rw (index-pos s h) (
                  rw
                    (mark_handle-ok s h free
                      (lt_of_get_elem? s.free_open_file_entries h taken o.handle_taken))
                    (rw (inode_get-ok t i o.valid_inode)
                      (rw (read_inode-ok t i o.inode_at) (rw some_links refl))))))))))
