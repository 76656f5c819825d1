-- ===== src/Fs/Run.antt =====
-- A call of the file system: explicit state passing, and the four ways in which a run can stop.
pub mod Steps
use tecnico_fs_so.Prelude.{
  ℕ, ◌+◌, ℤ, pos, negsuc, Bool, true, false, List, length, none, some, get_elem?, set, put, ltb,
  leb,
}
use tecnico_fs_so.Fs.Types.{State, Inode}

-- ALWAYS_ASSERT or PANIC ends the process; an access lies outside of a table or a block, which is
-- undefined behaviour; so is a remainder by 0; a recursion has used up its fuel.
pub data Fault : Type 0 where
  assertion overrun division out_of_fuel : Fault

pub data Run (A : Type 0) : Type 0 where
  ok : A → State → Run A
  halt : Fault → Run A

abbrev pub M : Type 0 → Type 0
M A = State → Run A

abbrev pub pure : {A : Type 0} → A → M A
pure a s = ok a s

abbrev pub fail : {A : Type 0} → Fault → M A
fail e s = halt e

abbrev pub and_then : {A B : Type 0} → Run A → (A → M B) → Run B
and_then (ok a s) f = f a s
and_then (halt e) f = halt e

infixl 5 ◌>>=◌ ◌>>◌
abbrev pub ◌>>=◌ : {A B : Type 0} → M A → (A → M B) → M B
◌>>=◌ m f s = and_then (m s) f

abbrev pub ◌>>◌ : {A B : Type 0} → M A → M B → M B
m >> k = m >>= λ _. k

abbrev pub gets : {A : Type 0} → (State → A) → M A
gets f s = ok (f s) s

abbrev pub modify : (State → State) → M (Unit {0})
modify f s = ok tt (f s)

-- ALWAYS_ASSERT.
unfoldable pub assert : Bool → M (Unit {0})
assert true s = ok tt s
assert false s = halt assertion

unfoldable pub in_bounds : Bool → M (Unit {0})
in_bounds true s = ok tt s
in_bounds false s = halt overrun

-- `table[i]`.
unfoldable pub read_at : {A : Type 0} → List A → ℕ → M A
read_at table i s = elim (get_elem? table i) [ none ↦ halt overrun | some a ↦ ok a s ]

-- An `int` as an index.
unfoldable pub index : ℤ → M ℕ
index (pos n) s = ok n s
index (negsuc n) s = halt overrun

-- `table[i] = a`, where the table is the one that `write` stores back.
unfoldable pub write_at : {A : Type 0} → List A → ℕ → A → (List A → State → State) → M (Unit {0})
write_at table i a write = do in_bounds (ltb i (length table)); modify (write (set table i a))

unfoldable pub update_inode : ℕ → (Inode → Inode) → M (Unit {0})
update_inode i f = do
  table ← gets (λ s. s.inode_table)
  inode ← read_at table i
  modify (λ s. record s { inode_table = set table i (f inode) })

unfoldable pub read_inode : ℕ → M Inode
read_inode i = do table ← gets (λ s. s.inode_table); read_at table i

unfoldable pub read_block : ℕ → M (List ℕ)
read_block b = do blocks ← gets (λ s. s.fs_data); read_at blocks b

-- `memcpy` to `off` bytes behind the start of block `b`.
unfoldable pub write_block : ℕ → ℕ → List ℕ → M (Unit {0})
write_block b off bytes = do
  block ← read_block b
  in_bounds (leb (off + length bytes) (length block))
  modify (λ s. record s { fs_data = set s.fs_data b (put block off bytes) })
