-- ===== src/Fs/Ops/Unlink.antt =====
-- fs/operations.c, `tfs_unlink`: what becomes of the name, and of the inode that it stood for.
use tecnico_fs_so.Prelude.{
  refl, Bool, Bool-cases, List, [], ap, arith, false, get_elem?, inl, inr, int_eq, length,
  minus_one, pos, some, suc, true, zero, ℕ, ℤ, ◌%◌, ◌+◌, ◌-◌, ◌<◌, ◌^◌, ◌∷◌, ◌≡◌, ◌≢◌, ◌≤◌, ◌⊎◌,
}
use tecnico_fs_so.Fs.Types.{Inode, State, AllocationState, taken, OpenFileEntry, free}
use tecnico_fs_so.Fs.Files.{any_open}
use tecnico_fs_so.Fs.Run.{Run, ok}
use tecnico_fs_so.Fs.Dir.Access.{inumber_of}
use tecnico_fs_so.Fs.Dir.Laws.{listing_of}
use tecnico_fs_so.Fs.Inodes.Delete.{OwnsBlock}
use tecnico_fs_so.Fs.Ops.CopyLaws.{OthersKept}

-- The name is free, or it stands for an inode that no other name stands for if it has one link.
pub data ForUnlinking (s : State) (block name : List ℕ) : Type 0 where
  unused_name : inumber_of name (listing_of s block) ≡ minus_one → ForUnlinking s block name
  used_name :
      (k b : ℕ) {node : Inode}
      → inumber_of name (listing_of s block) ≡ pos k
      → get_elem? s.inode_table k ≡ some node
      → (node.i_size ≡ 0) ⊎ (OwnsBlock s node b × (b ≢ 0))
      → node.i_hard_links < 2 ^ 64
      → (node.i_hard_links ≡ 1
          → (other : List ℕ) → name ≢ other
          → inumber_of other (listing_of s block) ≢ pos k)
      → ForUnlinking s block name

-- What becomes of inode `k`.
pub data LosesLink (s t : State) (k : ℕ) (node : Inode) : Type 0 where
  still_linked :
      1 < node.i_hard_links
      → get_elem? t.inode_table k ≡ some (record node { i_hard_links = node.i_hard_links - 1 })
      → LosesLink s t k node
  still_open :
      node.i_hard_links ≡ 1
      → any_open s.fs_params.max_open_files_count s.free_open_file_entries s.open_file_table (pos k)
        ≡ some true
      → get_elem? t.inode_table k ≡ some (record node { i_hard_links = 0 })
      → get_elem? t.freeinode_ts k ≡ some taken
      → LosesLink s t k node
  given_back :
      node.i_hard_links ≡ 1
      → any_open s.fs_params.max_open_files_count s.free_open_file_entries s.open_file_table (pos k)
        ≡ some false
      → get_elem? t.freeinode_ts k ≡ some free
      → ((b : ℕ)
          → 0 < node.i_size
          → node.i_data_block ≡ pos b
          → get_elem? t.free_blocks b ≡ some free)
      → LosesLink s t k node

-- The outcome of deleting a name.
pub data Unlinks (s : State) (block name : List ℕ) : Run ℤ → Type 0 where
  not_bound :
      inumber_of name (listing_of s block) ≡ minus_one → Unlinks s block name (ok minus_one s)
  unlinked :
      {t : State} {block' : List ℕ} {k : ℕ} {node : Inode}
      → inumber_of name (listing_of s block) ≡ pos k
      → get_elem? s.inode_table k ≡ some node
      → OthersKept s t block block' name
      → inumber_of name (listing_of t block') ≡ minus_one
      → LosesLink s t k node
      → Unlinks s block name (ok (pos 0) t)

pub any_open-some :
    (n : ℕ) (marks : List AllocationState) (files : List OpenFileEntry) (inumber : ℤ)
    → n ≤ length marks
    → n ≤ length files
    → (b : Bool) × (any_open n marks files inumber ≡ some b)
unfolding any_open
any_open-some zero marks files inumber h h' = (false, refl)
any_open-some (suc n) [] files inumber h h' = absurd (omega arith)
any_open-some (suc n) (a ∷ marks) [] inumber h h' = absurd (omega arith)
any_open-some (suc n) (free ∷ marks) (f ∷ files) inumber h h' =
    any_open-some n marks files inumber (omega arith) (omega arith)
any_open-some (suc n) (taken ∷ marks) (f ∷ files) inumber h h' =
    elim (Bool-cases (int_eq f.of_inumber inumber)) [
      | inl same ↦ (true, rw same refl)
      | inr other ↦
          let (b, e) = any_open-some n marks files inumber (omega arith) (omega arith) in
          (b, rw other e)
    ]

-- The number of links after one is taken away.
abbrev pub one_less : Inode → Inode
one_less node = record node { i_hard_links = (node.i_hard_links + 2 ^ 64 - 1) % 2 ^ 64 }

pub one_less-pred :
    (node : Inode)
    → 0 < node.i_hard_links
    → node.i_hard_links < 2 ^ 64
    → one_less node ≡ record node { i_hard_links = node.i_hard_links - 1 }
one_less-pred node p bound =
    let count : (node.i_hard_links + 2 ^ 64 - 1) % 2 ^ 64 ≡ node.i_hard_links - 1 = omega arith in
    ap (λ n. record node { i_hard_links = n }) count
