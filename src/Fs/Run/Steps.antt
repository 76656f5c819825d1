-- ===== src/Fs/Run/Steps.antt =====
-- What each primitive access does when it is in range.
use tecnico_fs_so.Prelude.{
  ℕ, ◌+◌, ◌≤◌, ◌<◌, ◌≡◌, refl, pos, true, List, length, get_elem?, set, put, some, arith, leb,
  lt→ltb, Bool,
}
use tecnico_fs_so.Fs.Types.{State, Inode}
use tecnico_fs_so.Fs.Run.{
  ok, assert, in_bounds, read_at, index, write_at, update_inode, read_inode, read_block,
  write_block,
}

pub assert-ok : (s : State) {b : Bool} → b ≡ true → assert b s ≡ ok tt s
unfolding assert
assert-ok s e = rw e

pub in_bounds-ok : (s : State) {b : Bool} → b ≡ true → in_bounds b s ≡ ok tt s
unfolding in_bounds
in_bounds-ok s e = rw e

pub index-pos : (s : State) (n : ℕ) → index (pos n) s ≡ ok n s
unfolding index
index-pos s n = refl

pub read_at-ok :
    {A : Type 0} (table : List A) (i : ℕ) (s : State) {a : A}
    → get_elem? table i ≡ some a
    → read_at table i s ≡ ok a s
unfolding read_at
read_at-ok table i s e = rw (e, read_at)

pub write_at-ok :
    {A : Type 0} (table : List A) (i : ℕ) (a : A) (write : List A → State → State) (s : State)
    → i < length table
    → write_at table i a write s ≡ ok tt (write (set table i a) s)
unfolding write_at
write_at-ok table i a write s lt = rw (in_bounds-ok s (lt→ltb _ _ lt))

pub read_inode-ok :
    (s : State) (i : ℕ) {inode : Inode}
    → get_elem? s.inode_table i ≡ some inode
    → read_inode i s ≡ ok inode s
unfolding read_inode
read_inode-ok s i e = read_at-ok _ i s e

pub update_inode-ok :
    (s : State) (i : ℕ) (f : Inode → Inode) {inode : Inode}
    → get_elem? s.inode_table i ≡ some inode
    → update_inode i f s ≡ ok tt (record s { inode_table = set s.inode_table i (f inode) })
unfolding update_inode
update_inode-ok s i f e = rw (read_at-ok _ i s e)

pub read_block-ok :
    (s : State) (b : ℕ) {block : List ℕ}
    → get_elem? s.fs_data b ≡ some block
    → read_block b s ≡ ok block s
unfolding read_block
read_block-ok s b e = read_at-ok _ b s e

pub write_block-ok :
    (s : State) (b off : ℕ) (bytes : List ℕ) {block : List ℕ}
    → get_elem? s.fs_data b ≡ some block
    → off + length bytes ≤ length block
    → write_block b off bytes s
      ≡ ok tt (record s { fs_data = set s.fs_data b (put block off bytes) })
unfolding write_block
write_block-ok s b off bytes {block} e fits = rw (
  read_block-ok s b e,
  in_bounds-ok s {b = leb (off + length bytes) (length block)} (ground arith),
)
