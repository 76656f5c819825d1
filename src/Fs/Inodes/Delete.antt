-- ===== src/Fs/Inodes/Delete.antt =====
-- fs/state.c, `inode_delete`: what is given back.
use tecnico_fs_so.Prelude.{
  ℕ, refl, List, get_elem?, inl, inr, length, lt→ltb, minus_one, pos, set, some, ◌<◌, ◌≡◌, ◌⊎◌,
  arith, if◌then◌else◌, le→ltb_false, lt_of_get_elem?, ltb, ℤ,
}
use tecnico_fs_so.Fs.Types.{Inode, State, AllocationState, free, taken}
use tecnico_fs_so.Fs.Inodes.{inode_delete}
use tecnico_fs_so.Fs.Run.{Run, ok, pure, update_inode, ◌>>◌, write_at}
use tecnico_fs_so.Fs.Blocks.{data_block_free}
use tecnico_fs_so.Fs.Run.Steps.{assert-ok, index-pos, read_inode-ok, update_inode-ok, write_at-ok}
use tecnico_fs_so.Fs.Files.Handles.{taken_at-some}

-- The inode's size is above 0, and its block is `b`.
pub record OwnsBlock (s : State) (inode : Inode) (b : ℕ) : Type 0 where
  pub not_empty : 0 < inode.i_size
  pub pointer : inode.i_data_block ≡ pos b
  pub valid_block : b < s.fs_params.max_block_count
  pub in_table : b < length s.free_blocks

-- The inode's entry in the inode table after it was deleted.
abbrev pub blank_inode : Inode → Inode
blank_inode inode = record inode { i_size = 0; i_data_block = minus_one; i_hard_links = 1 }

abbrev pub after_delete : State → ℕ → Inode → List AllocationState → State
after_delete s i inode blocks = record s {
  inode_table = set s.inode_table i (blank_inode inode);
  freeinode_ts = set s.freeinode_ts i free;
  free_blocks = blocks;
}

-- The outcome of a deletion: a block is given back only if the inode's size is above 0.
pub data Deletes (s : State) (i : ℕ) (inode : Inode) : Run (Unit {0}) → Type 0 where
  with_block :
      {b : ℕ}
      → 0 < inode.i_size
      → inode.i_data_block ≡ pos b
      → Deletes s i inode (ok tt (after_delete s i inode (set s.free_blocks b free)))
  without_block :
      inode.i_size ≡ 0 → Deletes s i inode (ok tt (after_delete s i inode s.free_blocks))

pub free_pointer :
    (s : State) (b : ℕ) {x : ℤ}
    → x ≡ pos b
    → b < s.fs_params.max_block_count
    → b < length s.free_blocks
    → data_block_free x s ≡ ok tt (record s { free_blocks = set s.free_blocks b free })
unfolding data_block_free
free_pointer s b e valid inside =
    rw (e, lt→ltb b s.fs_params.max_block_count valid)
      (rw (assert-ok s refl) (
        rw (index-pos s b) (
          write_at-ok s.free_blocks b free (λ table s. record s { free_blocks = table }) s inside)))

-- The rest of the deletion, after the block was given back or not.
reset :
    (s : State) (i : ℕ) (inode : Inode) (blocks : List AllocationState)
    → get_elem? s.inode_table i ≡ some inode
    → get_elem? s.freeinode_ts i ≡ some taken
    → (update_inode i blank_inode
          >> write_at s.freeinode_ts i free (λ table s. record s { freeinode_ts = table }))
        (record s { free_blocks = blocks })
      ≡ ok tt (after_delete s i inode blocks)
reset s i inode blocks at mark =
    let t : State = record s { free_blocks = blocks } in
    let u : State = record t { inode_table = set s.inode_table i (blank_inode inode) } in
    rw (update_inode-ok t i blank_inode at) (
      write_at-ok s.freeinode_ts i free (λ table s. record s { freeinode_ts = table }) u
        (lt_of_get_elem? s.freeinode_ts i taken mark))

-- Deleting an inode in use marks it as free and resets its entry. It frees the inode's block if the
-- inode's size is above 0, and no block if it is 0, even if the inode points to one; it changes
-- nothing else. The inode's number is valid, and so is the number of its block, if it has a size.
pub inode_delete-Deletes :
    (s : State) (i b : ℕ) (inode : Inode)
    → i < s.fs_params.max_inode_count
    → get_elem? s.inode_table i ≡ some inode
    → get_elem? s.freeinode_ts i ≡ some taken
    → (inode.i_size ≡ 0) ⊎ OwnsBlock s inode b
    → Deletes s i inode (inode_delete (pos i) s)
unfolding inode_delete
inode_delete-Deletes s i b inode lt at mark content =
    rw (lt→ltb i s.fs_params.max_inode_count lt, assert-ok s refl)
      (rw (assert-ok s (taken_at-some s.freeinode_ts i mark))
        (rw (index-pos s i) (rw (read_inode-ok s i at) (by_size content))))
  where
    by_size :
        (inode.i_size ≡ 0) ⊎ OwnsBlock s inode b
        → Deletes s i inode (
            ((if ltb 0 inode.i_size then data_block_free inode.i_data_block else pure tt)
                >> (update_inode i blank_inode
                    >> write_at s.freeinode_ts i free
                        (λ table s. record s { freeinode_ts = table })))
              s)
    by_size (inl empty) =
        rw (le→ltb_false 0 inode.i_size (omega arith))
          (rw (reset s i inode s.free_blocks at mark) (without_block empty))
    by_size (inr own) = rw (lt→ltb 0 inode.i_size own.not_empty) (
        rw (free_pointer s b own.pointer own.valid_block own.in_table) (
          rw (reset s i inode (set s.free_blocks b free) at mark)
            (with_block own.not_empty own.pointer)))
