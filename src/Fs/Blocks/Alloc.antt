-- ===== src/Fs/Blocks/Alloc.antt =====
-- fs/state.c, `data_block_alloc` and `data_block_free`: which block is handed out, and that freeing
-- it undoes the allocation.
use tecnico_fs_so.Prelude.{
  ℕ, ◌≤◌, ◌<◌, ◌≡◌, ℤ, pos, minus_one, length, length-set, get_elem?, set, some, arith, lt→ltb, ap,
  refl, pos→==_false,
}
use tecnico_fs_so.Fs.Types.{State, free, taken}
use tecnico_fs_so.Fs.Run.{Run, ok}
use tecnico_fs_so.Fs.Tables.{Scan}
use tecnico_fs_so.Fs.Tables.Search.{First, hit, miss, first_free-First, set-set_free}
use tecnico_fs_so.Fs.Blocks.{take_block, data_block_alloc, data_block_free}
use tecnico_fs_so.Fs.Run.Steps.{assert-ok, index-pos, write_at-ok}

-- The outcome of an allocation: the lowest free block, now taken and nothing else changed, or -1
-- when all blocks are taken, with the state as it was.
pub data AllocatesBlock (s : State) : Run ℤ → Type 0 where
  gives :
      {b : ℕ}
      → b < s.fs_params.max_block_count
      → get_elem? s.free_blocks b ≡ some free
      → ((j : ℕ) → j < b → get_elem? s.free_blocks j ≡ some taken)
      → AllocatesBlock s (ok (pos b) (record s { free_blocks = set s.free_blocks b taken }))
  none_free :
      ((j : ℕ) → j < s.fs_params.max_block_count → get_elem? s.free_blocks j ≡ some taken)
      → AllocatesBlock s (ok minus_one s)

take_block-AllocatesBlock :
    (s : State) {r : Scan}
    → First s.fs_params.max_block_count s.free_blocks r
    → AllocatesBlock s (take_block s r)
take_block-AllocatesBlock s (hit lt e before) = gives lt e before
take_block-AllocatesBlock s (miss all) = none_free all

-- If blocks are not empty, on a table with an entry for each block, `data_block_alloc` hands out the lowest free block and
-- marks only that one as taken, or returns -1 and changes nothing if every block is taken.
pub data_block_alloc-lowest :
    (s : State)
    → 0 < s.fs_params.block_size
    → s.fs_params.max_block_count ≤ length s.free_blocks
    → AllocatesBlock s (data_block_alloc s)
unfolding data_block_alloc
data_block_alloc-lowest s p h =
    rw (pos→==_false s.fs_params.block_size p)
      (take_block-AllocatesBlock s (first_free-First _ _ h))

free_taken :
    (s : State) (b : ℕ)
    → b < s.fs_params.max_block_count
    → s.fs_params.max_block_count ≤ length s.free_blocks
    → get_elem? s.free_blocks b ≡ some free
    → data_block_free (pos b) (record s { free_blocks = set s.free_blocks b taken }) ≡ ok tt s
unfolding data_block_free
free_taken s b lt fits e =
    let t : State = record s { free_blocks = set s.free_blocks b taken } in
    rw (lt→ltb _ _ lt) (
      rw (assert-ok t refl, index-pos t b)
        (rw (write_at-ok t.free_blocks b free _ t (omega (arith, length-set s.free_blocks b taken)))
          (ap (λ table. ok tt (record s { free_blocks = table }))
            (set-set_free s.free_blocks b e))))

free_allocated :
    (s : State) {r : Run ℤ} {b : ℕ} {t : State}
    → AllocatesBlock s r
    → s.fs_params.max_block_count ≤ length s.free_blocks
    → r ≡ ok (pos b) t
    → data_block_free (pos b) t ≡ ok tt s
free_allocated s {b = b} {t} (gives {b = c} lt e before) fits p =
    let q : b ≡ c = ground arith in
    let u : t ≡ record s { free_blocks = set s.free_blocks c taken } = cc in
    rw (q, u) (free_taken s c lt fits e)
free_allocated s (none_free all) fits p = cc

-- If blocks are not empty, on a table with an entry for each block, freeing a block that was just allocated gives the state
-- before the allocation back.
pub data_block_free-data_block_alloc :
    (s : State) (b : ℕ) (t : State)
    → 0 < s.fs_params.block_size
    → s.fs_params.max_block_count ≤ length s.free_blocks
    → data_block_alloc s ≡ ok (pos b) t
    → data_block_free (pos b) t ≡ ok tt s
data_block_free-data_block_alloc s b t bytes fits p =
    free_allocated s (data_block_alloc-lowest s bytes fits) fits p
