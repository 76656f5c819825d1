-- ===== src/Broker/Handlers/Replies.antt =====
-- mbroker/mbroker.c: a handler reports what it did to the table.
use tecnico_fs_so.Prelude.{
  ℕ, Bool-cases, List, false, inl, inr, int_eq, length, nonneg, pos, true, ℤ, ◌<◌, ap, arith,
  negsuc, ◌≡◌, ◌≢◌,
}
use tecnico_fs_so.Broker.Types.{Broker, Call, ends}
use tecnico_fs_so.Broker.Files.{FileSystem}
use tecnico_fs_so.Broker.Handlers.{
  Handled, handle_create, handle_remove, after_box_create, after_box_delete, reports,
}
use tecnico_fs_so.Broker.Table.Laws.{
  IsBroker, Creates, Removes, box_delete-Removes, created, removed, full, not_there,
  box_create-Creates, boxes_of,
}
use tecnico_fs_so.Fs.Entries.Names.{IsCString}
use tecnico_fs_so.Protocol.{box_name_max_len}
use tecnico_fs_so.Broker.Table.View.{NoneNamed}
use tecnico_fs_so.Fs.Ops.{tfs_o_creat}

int_eq_zero : (r : ℤ) → int_eq r (pos 0) ≡ true → r ≡ pos 0
int_eq_zero (pos n) e = ap pos (ground arith)
int_eq_zero (negsuc n) e = absurd (cc)

int_ne_zero : (r : ℤ) → int_eq r (pos 0) ≡ false → r ≢ pos 0
int_ne_zero r e z = absurd (let same : int_eq (pos 0) (pos 0) ≡ false = rw z at e in cc)

-- The outcome of a request to create a box, of which `first` is the answer to opening its file and
-- `second` the answer to creating it after that: what is reported, and the files and the table
-- afterwards.
pub data CreateReport {Store : Type 0} (close_file : ℤ → Store → ℤ × Store)
    (first second : ℤ × Store) (br : Broker) (box_name : List ℕ) : Handled Store → Type 0 where
  file_exists :
      nonneg first.0 ≡ true
      → CreateReport close_file first second br box_name
          (reports false (close_file first.0 first.1).1 br)
  not_creatable :
      nonneg first.0 ≡ false
      → nonneg second.0 ≡ false
      → CreateReport close_file first second br box_name
          (reports false (close_file second.0 second.1).1 br)
  box_made :
      {t : Broker}
      → nonneg first.0 ≡ false
      → nonneg second.0 ≡ true
      → Creates br box_name (ends (pos 0) t)
      → CreateReport close_file first second br box_name
          (reports true (close_file second.0 second.1).1 t)
  table_full :
      nonneg first.0 ≡ false
      → nonneg second.0 ≡ true
      → length (boxes_of br) ≡ br.slots
      → CreateReport close_file first second br box_name
          (reports false (close_file second.0 second.1).1 br)

-- The outcome of a request to remove a box, of which `unlinked` is the answer to unlinking its file.
pub data RemoveReport {Store : Type 0} (files : Store) (unlinked : ℤ × Store) (br : Broker)
    (box_name : List ℕ) : Handled Store → Type 0 where
  box_gone :
      {t : Broker}
      → Removes br box_name (ends (pos 0) t)
      → unlinked.0 ≡ pos 0
      → RemoveReport files unlinked br box_name (reports true unlinked.1 t)
  no_box :
      NoneNamed box_name (boxes_of br)
      → RemoveReport files unlinked br box_name (reports false files br)
  file_left :
      {t : Broker}
      → Removes br box_name (ends (pos 0) t)
      → unlinked.0 ≢ pos 0
      → RemoveReport files unlinked br box_name (reports false unlinked.1 t)

module _ (fs : FileSystem) {br : Broker} (w : IsBroker br) (box_name : List ℕ) where
  open fs use {Store, open_file, close_file, unlink_file}

  table_report :
      {r : Call ℤ} {first second : ℤ × Store}
      → nonneg first.0 ≡ false
      → nonneg second.0 ≡ true
      → Creates br box_name r
      → CreateReport close_file first second br box_name (after_box_create fs second.0 second.1 r)
  table_report absent opened (created front back box before after name size subscribers slots w') =
      box_made absent opened (created front back box before after name size subscribers slots w')
  table_report absent opened (full all) = table_full absent opened all

  -- Whatever the file system answers: if the file of the box can be opened, then a request to create
  -- the box is answered with failure, and the opened file is closed; if not, and the file cannot be
  -- created either, also with failure. If it is created, the answer is success and the box is put
  -- into the table, or failure because every entry of the table is in use. The table is as before
  -- with every failure. The name is a string of 2 to 31 bytes, and the table well-formed.
  pub handle_create-CreateReport :
      (files : Store)
      → IsCString box_name
      → 1 < length box_name
      → length box_name < box_name_max_len
      → CreateReport close_file
          (open_file box_name 0 files)
          (open_file box_name tfs_o_creat (open_file box_name 0 files).1)
          br
          box_name
          (handle_create fs box_name files br)
  unfolding handle_create
  handle_create-CreateReport files c p short =
      let first = open_file box_name 0 files in
      let second = open_file box_name tfs_o_creat first.1 in
      elim (Bool-cases (nonneg first.0)) [
        | inl exists_file ↦ rw exists_file (file_exists exists_file)
        | inr no_file ↦ rw no_file (elim (Bool-cases (nonneg second.0)) [
          | inl opened ↦
              rw opened (table_report no_file opened (box_create-Creates w box_name c p short))
          | inr refused ↦ rw refused (not_creatable no_file refused)
        ])
      ]

  removal_report :
      {r : Call ℤ} (files : Store)
      → Removes br box_name r
      → RemoveReport files
          (unlink_file box_name files)
          br
          box_name
          (after_box_delete fs box_name files r)
  removal_report files (removed front back box before name unnamed after slots w') =
      let gone = removed front back box before name unnamed after slots w' in
      elim (Bool-cases (int_eq (unlink_file box_name files).0 (pos 0))) [
        | inl done ↦ rw done (box_gone gone (int_eq_zero (unlink_file box_name files).0 done))
        | inr kept ↦ rw kept (file_left gone (int_ne_zero (unlink_file box_name files).0 kept))
      ]
  removal_report files (not_there unnamed) = no_box unnamed

  -- Whatever the file system answers, a request to remove a box is answered with success just if the
  -- box was taken out of the table and unlinking its file returned 0. It is answered with failure if
  -- no box has the name, and then the files and the table are as before, or if the box was taken out
  -- of the table and unlinking its file returned something else. The table is well-formed.
  pub handle_remove-RemoveReport :
      (files : Store)
      → RemoveReport files
          (unlink_file box_name files)
          br
          box_name
          (handle_remove fs box_name files br)
  unfolding handle_remove
  handle_remove-RemoveReport files = removal_report files (box_delete-Removes w box_name)
