-- ===== src/Fs/Inodes/Create.antt =====
-- fs/state.c, `inode_create` for a file or a symbolic link.
use tecnico_fs_so.Prelude.{
  refl, ap, arith, get_elem?, get_elem?-set_self, get_elem?-some, if◌then◌else◌, is_minus_one,
  length, minus_one, pos, set, set-set, some, ℕ, ℤ, ◌<◌, ◌∙◌, ◌≡◌, ◌≢◌, ◌≤◌, pos→==_false,
}
use tecnico_fs_so.Fs.Run.{ok, ◌>>◌, and_then, ◌>>=◌, Run, update_inode, pure, index}
use tecnico_fs_so.Fs.Types.{free, taken, t_directory, t_file, t_sym_link, InodeType, State, Inode}
use tecnico_fs_so.Fs.Tables.Search.{hit, miss, First, first_free-First}
use tecnico_fs_so.Fs.Inodes.{inode_create, inode_alloc, init_file, take_inode, init_inode}
use tecnico_fs_so.Fs.Tables.{Scan}
use tecnico_fs_so.Fs.Run.Steps.{update_inode-ok, index-pos}

-- The inode table has an entry for each inumber.
pub record InodesExist (s : State) : Type 0 where
  pub inode_marks : s.fs_params.max_inode_count ≤ length s.freeinode_ts
  pub inode_entries : s.fs_params.max_inode_count ≤ length s.inode_table

abbrev pub new_inode : InodeType → Inode
new_inode i_type = record {
  i_node_type = i_type;
  i_size = 0;
  i_data_block = minus_one;
  i_hard_links = 1;
}

abbrev pub with_inode : State → ℕ → Inode → State
with_inode s i inode = record s {
  freeinode_ts = set s.freeinode_ts i taken;
  inode_table = set s.inode_table i inode;
}

-- The outcome: the lowest free inode, which is empty and has one link, or none.
pub data CreatesInode (s : State) (i_type : InodeType) : Run ℤ → Type 0 where
  created_inode :
      {i : ℕ}
      → i < s.fs_params.max_inode_count
      → get_elem? s.freeinode_ts i ≡ some free
      → ((j : ℕ) → j < i → get_elem? s.freeinode_ts j ≡ some taken)
      → CreatesInode s i_type (ok (pos i) (with_inode s i (new_inode i_type)))
  no_inode :
      ((j : ℕ) → j < s.fs_params.max_inode_count → get_elem? s.freeinode_ts j ≡ some taken)
      → CreatesInode s i_type (ok minus_one s)

-- An update of an entry that was just written.
pub update-set :
    (s : State) (i : ℕ) (new : Inode) (f : Inode → Inode)
    → i < length s.inode_table
    → update_inode i f (record s { inode_table = set s.inode_table i new })
      ≡ ok tt (record s { inode_table = set s.inode_table i (f new) })
update-set s i new f lt =
    let t : State = record s { inode_table = set s.inode_table i new } in
    update_inode-ok t i f (get_elem?-set_self s.inode_table i new lt)
    ∙ ap (λ table. ok tt (record s { inode_table = table })) (set-set s.inode_table i new (f new))

-- The steps of `inode_create` behind the allocation, for a file or a symbolic link.
fill_inode :
    (s : State) (i : ℕ) (i_type : InodeType)
    → i < length s.inode_table
    → (update_inode i (λ n. record n { i_node_type = i_type }) >> init_file i) s
      ≡ ok (pos i) (record s { inode_table = set s.inode_table i (new_inode i_type) })
fill_inode s i i_type lt =
    let (old, at) = get_elem?-some s.inode_table i lt in
    let typed : Inode = record old { i_node_type = i_type } in
    let empty : Inode = record typed { i_size = 0; i_data_block = minus_one } in
    rw (update_inode-ok s i (λ n. record n { i_node_type = i_type }) at) (
      rw (update-set s i typed (λ n. record n { i_size = 0; i_data_block = minus_one }) lt)
        (rw (update-set s i empty (λ n. record n { i_hard_links = 1 }) lt) refl))

-- Creating a file or a symbolic link takes the lowest free inode and makes it empty, with one link;
-- it returns -1 and changes nothing if there is none.
pub inode_create-CreatesInode :
    {s : State} (i_type : InodeType)
    → i_type ≢ t_directory
    → 0 < s.fs_params.block_size
    → InodesExist s
    → CreatesInode s i_type (inode_create i_type s)
unfolding inode_create inode_alloc
inode_create-CreatesInode {s} i_type file bytes x =
    rw (pos→==_false s.fs_params.block_size bytes)
      (by_type i_type file (first_free-First _ _ x.inode_marks))
  where
    by_type :
        (k : InodeType)
        → k ≢ t_directory
        → {r : Scan} → First s.fs_params.max_inode_count s.freeinode_ts r
        → CreatesInode s k (
            and_then (take_inode s r) (λ inumber.
              if is_minus_one inumber then pure minus_one else (do
                i ← index inumber
                update_inode i (λ n. record n { i_node_type = k })
                init_inode k i)))
    by_type t_directory file f = absurd (file refl)
    by_type t_file file (hit {i = i} lt e before) =
        let t : State = record s { freeinode_ts = set s.freeinode_ts i taken } in
        rw (index-pos t i)
          (rw (fill_inode t i t_file (omega (arith, x.inode_entries))) (created_inode lt e before))
    by_type t_file file (miss all) = no_inode all
    by_type t_sym_link file (hit {i = i} lt e before) =
        let t : State = record s { freeinode_ts = set s.freeinode_ts i taken } in
        rw (index-pos t i) (
          rw (fill_inode t i t_sym_link (omega (arith, x.inode_entries)))
            (created_inode lt e before))
    by_type t_sym_link file (miss all) = no_inode all
