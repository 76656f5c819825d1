-- ===== src/Fs/Tables/Search.antt =====
-- What the allocators' loop of fs/state.c finds.
use tecnico_fs_so.Prelude.{
  ℕ, zero, suc, ◌≤◌, ◌<◌, ◌≡◌, refl, List, [], ◌∷◌, length, get_elem?, set, some, arith, ap,
}
use tecnico_fs_so.Fs.Types.{AllocationState, free, taken}
use tecnico_fs_so.Fs.Tables.{Scan, found, absent, next, first_free}

-- The first `n` entries are searched from the front: all before the result are taken.
pub data First (n : ℕ) (table : List AllocationState) : Scan → Type 0 where
  hit :
      {i : ℕ}
      → i < n
      → get_elem? table i ≡ some free
      → ((j : ℕ) → j < i → get_elem? table j ≡ some taken)
      → First n table (found i)
  miss : ((j : ℕ) → j < n → get_elem? table j ≡ some taken) → First n table absent

First-next :
    {n : ℕ} {table : List AllocationState} {r : Scan}
    → First n table r
    → First (suc n) (taken ∷ table) (next r)
First-next {n} {table} (hit {i = i} lt e before) = hit (omega arith) e behind
  where
    behind : (j : ℕ) → j < suc i → get_elem? (taken ∷ table) j ≡ some taken
    behind zero h = refl
    behind (suc j) h = before j (omega arith)
First-next {n} {table} (miss all) = miss behind
  where
    behind : (j : ℕ) → j < suc n → get_elem? (taken ∷ table) j ≡ some taken
    behind zero h = refl
    behind (suc j) h = all j (omega arith)

pub first_free-First :
    (n : ℕ) (table : List AllocationState) → n ≤ length table → First n table (first_free n table)
unfolding first_free
first_free-First zero table h = miss (λ j l. absurd (omega arith))
first_free-First (suc n) [] h = absurd (omega arith)
first_free-First (suc n) (free ∷ table) h = hit (omega arith) refl (λ j l. absurd (omega arith))
first_free-First (suc n) (taken ∷ table) h = First-next (first_free-First n table (omega arith))

pub set-set_free :
    (table : List AllocationState) (i : ℕ)
    → get_elem? table i ≡ some free
    → set (set table i taken) i free ≡ table
set-set_free [] i e = refl
set-set_free (a ∷ table) zero e = ground arith
set-set_free (a ∷ table) (suc i) e = ap (◌∷◌ a) (set-set_free table i e)
