-- ===== src/Fs/Ops/Empty.antt =====
-- fs/operations.c: `tfs_open` with the flags that create a file or empty it.

use tecnico_fs_so.Prelude.{
  List, get_elem?, minus_one, pos, some, ℕ, ℤ, ◌<◌, ◌≡◌, ◌≢◌, refl, ap, arith, get_elem?-set_self,
  none, not, ◌∙◌, ◌⊎◌, if◌then◌else◌, inl, inr, is_minus_one, ◌^◌, ◌≤◌, set-set,
}
use tecnico_fs_so.Fs.Types.{State, Inode, taken, t_file, free}
use tecnico_fs_so.Fs.Run.{Run, ok, and_then, pure, ◌>>◌, ◌>>=◌}
use tecnico_fs_so.Fs.Files.Table.{
  GivesHandle, add_to_open_file_table-GivesHandle, handle_given, with_handle-IsOpen, all_open,
  with_handle,
}
use tecnico_fs_so.Fs.Ops.Root.{IsMounted, NamesInode, path}
use tecnico_fs_so.Fs.Files.Handles.{IsOpen}
use tecnico_fs_so.Fs.Files.{add_to_open_file_table}
use tecnico_fs_so.Fs.Dir.Access.{inumber_of}
use tecnico_fs_so.Fs.Ops.Keep.{Keeps-IsMounted, with_handle-Keeps, with_inode-Keeps}
use tecnico_fs_so.Fs.Dir.Laws.{
  listing_of, Renamed, Adds, added, present, no_room, add_dir_entry-Adds,
}
use tecnico_fs_so.Fs.Entries.WellFormed.{Absent}
use tecnico_fs_so.Fs.Entries.{find_first, is_live}
use tecnico_fs_so.Fs.Inodes.Create.{
  with_inode, new_inode, CreatesInode, created_inode, no_inode, inode_create-CreatesInode,
}
use tecnico_fs_so.Fs.Ops.Names.{Renamed-IsMounted}
use tecnico_fs_so.Fs.Entries.Names.{IsName}
use tecnico_fs_so.Fs.Inodes.{inode_delete}
use tecnico_fs_so.Fs.Ops.{open_new}
use tecnico_fs_so.Fs.Inodes.Delete.{
  Deletes, with_block, without_block, blank_inode, inode_delete-Deletes,
}
use tecnico_fs_so.Fs.Dir.{add_dir_entry}

-- In the state `t` after a call, the file system is set up, the name stands for file `k`, which is
-- empty, and every other name for what it stood for in `s`.
pub record EmptyFile (s t : State) (block block' name : List ℕ) (k : ℕ) (node : Inode)
    : Type 0 where
  pub mounted : IsMounted t block'
  pub params : t.fs_params ≡ s.fs_params
  pub is_named : inumber_of name (listing_of t block') ≡ pos k
  pub others :
      (other : List ℕ)
      → name ≢ other
      → inumber_of other (listing_of t block') ≡ inumber_of other (listing_of s block)
  pub node_at : get_elem? t.inode_table k ≡ some node
  pub is_file : node.i_node_type ≡ t_file
  pub is_empty : node.i_size ≡ 0
  pub not_root : k ≢ 0
  pub block_marks :
      (b : ℕ) → get_elem? s.free_blocks b ≡ some free → get_elem? t.free_blocks b ≡ some free

-- The outcome of opening a path to write it from its start.
pub data OpensEmpty (s : State) (block name : List ℕ) : Run ℤ → Type 0 where
  opened_empty :
      {t : State} {block' : List ℕ} {h k : ℕ} {node : Inode}
      → get_elem? s.free_open_file_entries h ≡ some free
      → ((j : ℕ) → j < h → get_elem? s.free_open_file_entries j ≡ some taken)
      → EmptyFile s t block block' name k node
      → IsOpen t h k 0 node
      → OpensEmpty s block name (ok (pos h) t)
  no_handle :
      {t : State} {block' : List ℕ} {k : ℕ} {node : Inode}
      → ((j : ℕ)
          → j < s.fs_params.max_open_files_count
          → get_elem? s.free_open_file_entries j ≡ some taken)
      → EmptyFile s t block block' name k node
      → OpensEmpty s block name (ok minus_one t)
  not_created :
      {t : State}
      → IsMounted t block
      → t.fs_params ≡ s.fs_params
      → Absent name (listing_of s block)
      → ((j : ℕ) → j < s.fs_params.max_inode_count → get_elem? s.freeinode_ts j ≡ some taken)
        ⊎ (find_first (λ e. not (is_live e)) (listing_of s block) ≡ none)
      → OpensEmpty s block name (ok minus_one t)

give_handle :
    {s t : State} {block block' name : List ℕ} {k : ℕ} {node : Inode} {r : Run ℤ}
    → t.free_open_file_entries ≡ s.free_open_file_entries
    → EmptyFile s t block block' name k node
    → GivesHandle t k 0 r
    → OpensEmpty s block name r
give_handle {t = t} {k = k} same f (handle_given {h = h} lt e before) =
    let n = f.mounted.named _ k f.is_named in
    let given : EmptyFile _ (with_handle t h k 0) _ _ _ k _ = record {
      params = f.params;
      mounted = Keeps-IsMounted (with_handle-Keeps t h k 0) f.mounted;
      is_named = f.is_named;
      others = f.others;
      node_at = f.node_at;
      is_file = f.is_file;
      is_empty = f.is_empty;
      not_root = f.not_root;
      block_marks = f.block_marks;
    } in
    opened_empty (rw same at e) (λ j less. rw same at (before j less)) given
      (with_handle-IsOpen 0 f.mounted.handles lt n.valid f.node_at)
give_handle same f (all_open all) = no_handle (λ j lt. rw same at (all j (rw f.params lt))) f

pub add_handle :
    {s t : State} {block block' name : List ℕ} {k : ℕ} {node : Inode}
    → t.free_open_file_entries ≡ s.free_open_file_entries
    → EmptyFile s t block block' name k node
    → OpensEmpty s block name (add_to_open_file_table (pos k) 0 t)
add_handle {k = k} same f =
    let n = f.mounted.named _ k f.is_named in
    give_handle same f (add_to_open_file_table-GivesHandle k 0 f.mounted.handles n.valid n.in_use)

-- The state `t` after the name was added to the directory and the inode made.
named-EmptyFile :
    {s t : State} {block block' name : List ℕ} {k : ℕ}
    → IsMounted s block
    → k < s.fs_params.max_inode_count
    → get_elem? s.freeinode_ts k ≡ some free
    → Renamed (with_inode s k (new_inode t_file)) t 0 0 block block' name (pos k)
    → EmptyFile s t block block' name k (new_inode t_file)
named-EmptyFile {s} {t} {block} {block'} {name} {k} m valid is_free r =
    let u : State = with_inode s k (new_inode t_file) in
    let keeps = with_inode-Keeps s k taken (new_inode t_file) is_free m.root_in_use in
    let at : get_elem? u.inode_table k ≡ some (new_inode t_file) =
      get_elem?-set_self s.inode_table k _ (omega (arith, m.inodes.inode_entries)) in
    let own : NamesInode u k = record {
      valid = valid;
      in_use = get_elem?-set_self s.freeinode_ts k taken (omega (arith, m.inodes.inode_marks));
      node = new_inode t_file;
      node_at = at;
      no_directory = λ e. cc;
      linked = λ e. absurd (omega arith);
    } in
    record {
      mounted =
          Renamed-IsMounted r (λ j e. let same : k ≡ j = cc in rw (← same) own)
            (Keeps-IsMounted keeps m);
      params = ap (λ u. u.fs_params) r.only_block;
      is_named = r.self;
      others = r.others;
      node_at = ap (λ u. get_elem? u.inode_table k) r.only_block ∙ at;
      is_file = refl;
      is_empty = refl;
      not_root = λ e.
          let at_root : get_elem? s.freeinode_ts 0 ≡ some free = rw e at is_free in
          let in_use = m.root_in_use in cc;
      block_marks = λ b e. ap (λ u. get_elem? u.free_blocks b) r.only_block ∙ e;
    }

-- The file was made, but its name does not fit into the directory: the inode is given back.
undone-OpensEmpty :
    {s : State} {block name : List ℕ} {k : ℕ}
    → IsMounted s block
    → k < s.fs_params.max_inode_count
    → get_elem? s.freeinode_ts k ≡ some free
    → Absent name (listing_of s block)
    → find_first (λ e. not (is_live e)) (listing_of s block) ≡ none
    → OpensEmpty s block name
        (and_then (inode_delete (pos k) (with_inode s k (new_inode t_file))) (λ u. pure minus_one))
undone-OpensEmpty {s} {block} {name} {k} m valid is_free absent full = by_outcome (
    inode_delete-Deletes u k 0 (new_inode t_file) valid
      (get_elem?-set_self s.inode_table k _ (omega (arith, m.inodes.inode_entries)))
      (get_elem?-set_self s.freeinode_ts k taken (omega (arith, m.inodes.inode_marks))) (inl refl))
  where
    u : State
    u = with_inode s k (new_inode t_file)

    by_outcome :
        {r : Run (Unit {0})}
        → Deletes u k (new_inode t_file) r
        → OpensEmpty s block name (and_then r (λ u. pure minus_one))
    by_outcome (with_block p e) = absurd (omega arith)
    by_outcome (without_block e) =
        let keeps =
          with_inode-Keeps s k free (blank_inode (new_inode t_file)) is_free m.root_in_use in
        not_created
          (rw
            (
              set-set s.inode_table k (new_inode t_file) (blank_inode (new_inode t_file)),
              set-set s.freeinode_ts k taken free,
            )
            (Keeps-IsMounted keeps m))
          refl absent (inr full)

pub open_new-OpensEmpty :
    {s : State} {block : List ℕ} (name : List ℕ)
    → IsMounted s block
    → IsName name
    → s.fs_params.max_inode_count ≤ 2 ^ 31
    → Absent name (listing_of s block)
    → OpensEmpty s block name (open_new (path name) 0 s)
open_new-OpensEmpty {s} {block} name m n small absent =
    by_inode (inode_create-CreatesInode t_file (λ e. cc) m.block_bytes m.inodes)
  where
    by_entry :
        {k : ℕ} {r : Run ℤ}
        → k < s.fs_params.max_inode_count
        → get_elem? s.freeinode_ts k ≡ some free
        → Adds (with_inode s k (new_inode t_file)) 0 0 block name k r
        → OpensEmpty s block name (
            and_then r (λ entered.
              if is_minus_one entered
              then (do inode_delete (pos k); pure minus_one)
              else add_to_open_file_table (pos k) 0))
    by_entry lt is_free (added block' a renamed) =
        add_handle (ap (λ u. u.free_open_file_entries) renamed.only_block)
          (named-EmptyFile m lt is_free renamed)
    by_entry lt is_free (present there) = absurd (there absent)
    by_entry lt is_free (no_room full) = undone-OpensEmpty m lt is_free absent full

    by_inode :
        {r : Run ℤ}
        → CreatesInode s t_file r
        → OpensEmpty s block name (
            and_then r (λ inum. if is_minus_one inum then pure minus_one else (do
              entered ← add_dir_entry 0 name inum
              if is_minus_one entered
                  then (do inode_delete inum; pure minus_one)
                  else add_to_open_file_table inum 0)))
    by_inode (created_inode {i = k} lt is_free before) =
        let keeps = with_inode-Keeps s k taken (new_inode t_file) is_free m.root_in_use in
        let mounted = Keeps-IsMounted keeps m in
        by_entry lt is_free (add_dir_entry-Adds name n mounted.root k lt (omega arith))
    by_inode (no_inode all) = not_created m refl absent (inl all)
