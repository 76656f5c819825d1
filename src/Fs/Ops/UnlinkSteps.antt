-- ===== src/Fs/Ops/UnlinkSteps.antt =====
-- fs/operations.c, `tfs_unlink`: the steps behind the deletion of the name.
use tecnico_fs_so.Prelude.{
  refl, Bool, Bool-cases, List, ap, arith, false, get_elem?, inl, inr, length, minus_one, pos, some,
  true, ℕ, ◌-◌, ◌<◌, ◌^◌, ◌≡◌, ◌≢◌, ◌⊎◌, get_elem?-set_self, lt_of_get_elem?, ◌==◌, ◌∙◌, Option,
  bytes_eq, bytes_eq_refl, bytes_eq→eq, sym, eq_zero→==, get_elem?-set_ne, if◌then◌else◌, lt→ltb,
  set, set-set,
}
use tecnico_fs_so.Fs.Types.{Inode, State, AllocationState, taken, free}
use tecnico_fs_so.Fs.Files.{any_open, delete_if_unused, is_file_open, answer}
use tecnico_fs_so.Fs.Run.{Run, and_then, pure}
use tecnico_fs_so.Fs.Dir.Access.{inumber_of}
use tecnico_fs_so.Fs.Dir.Laws.{listing_of, Renamed}
use tecnico_fs_so.Fs.Inodes.Delete.{
  OwnsBlock, with_block, without_block, Deletes, inode_delete-Deletes, blank_inode,
}
use tecnico_fs_so.Fs.Ops.CopyLaws.{OthersKept}
use tecnico_fs_so.Fs.Ops.Root.{IsMounted, NamesInode}
use tecnico_fs_so.Fs.Ops.Change.{
  changed, relinked-IsMounted, other-NamesInode, changed-IsMounted, SameRoot-refl, SameRoot-set,
}
use tecnico_fs_so.Fs.Run.Steps.{read_inode-ok}
use tecnico_fs_so.Fs.Inodes.{inode_delete}
use tecnico_fs_so.Fs.Ops.OpenEmpty.{own_block}
use tecnico_fs_so.Fs.Ops.Unlink.{
  Unlinks, still_linked, still_open, given_back, unlinked, one_less, one_less-pred,
}

module _ {s t : State} {block block' name : List ℕ} {k : ℕ} {node : Inode} (m : IsMounted s block)
    (e : inumber_of name (listing_of s block) ≡ pos k) (at : get_elem? s.inode_table k ≡ some node)
    (r : Renamed s t 0 0 block block' name minus_one) (not_root : k ≢ 0)
    (mounted : IsMounted t block') where
  abbrev pub relinked : State
  relinked = changed t k (one_less node) t.freeinode_ts t.free_blocks

  in_t : get_elem? t.inode_table k ≡ some node
  in_t = ap (λ u. get_elem? u.inode_table k) r.only_block ∙ at

  kept_names :
      {marks block_marks : List AllocationState} (new : Inode)
      → IsMounted (changed t k new marks block_marks) block'
      → OthersKept s (changed t k new marks block_marks) block block' name
  kept_names new n = record {
    mounted = n;
    params = ap (λ u. u.fs_params) r.only_block;
    others = r.others;
  }

  pub stays_linked :
      1 < node.i_hard_links
      → node.i_hard_links < 2 ^ 64
      → Unlinks s block name (and_then (delete_if_unused (pos k) k relinked) (λ u. pure (pos 0)))
  unfolding delete_if_unused
  stays_linked p bound =
      let links : one_less node ≡ record node { i_hard_links = node.i_hard_links - 1 } =
        one_less-pred node (omega arith) bound in
      let here : get_elem? relinked.inode_table k ≡ some (one_less node) =
        get_elem?-set_self t.inode_table k (one_less node)
          (lt_of_get_elem? t.inode_table k node in_t) in
      let count : (one_less node).i_hard_links ≡ node.i_hard_links - 1 =
        ap (λ n. n.i_hard_links) links in
      let more : ((one_less node).i_hard_links == 0) ≡ false = ground (arith, count) in
      rw (read_inode-ok relinked k here) (
        rw more (
          unlinked e at
            (kept_names (one_less node) (
              relinked-IsMounted mounted k (one_less node) not_root in_t refl
                (omega (arith, count))))
            r.self (still_linked p (here ∙ ap some links))))

  -- No name is left that stands for the inode.
  named_others :
      {marks block_marks : List AllocationState} (new : Inode)
      → ((other : List ℕ) → name ≢ other → inumber_of other (listing_of s block) ≢ pos k)
      → ((j : ℕ) → k ≢ j → get_elem? marks j ≡ get_elem? t.freeinode_ts j)
      → (other : List ℕ) (j : ℕ) → inumber_of other (listing_of t block') ≡ pos j
      → NamesInode (changed t k new marks block_marks) j
  named_others {block_marks = block_marks} new alone same_marks other j e' =
      elim (Bool-cases (bytes_eq name other)) [
        | inl eq ↦
            let same : name ≡ other = bytes_eq→eq name other eq in
            let gone : inumber_of other (listing_of t block') ≡ minus_one = rw (← same) r.self in cc
        | inr ne ↦
            let differs : name ≢ other = λ q. let refl_eq = bytes_eq_refl name in cc in
            let before : inumber_of other (listing_of s block) ≡ pos j =
              sym (r.others other differs) ∙ e' in
            let apart : k ≢ j = λ q. alone other differs (before ∙ ap pos (sym q)) in
            other-NamesInode mounted k new block_marks apart (same_marks j apart)
              (mounted.named other j e')
      ]

  abbrev pub open_now : Option Bool
  open_now =
      any_open s.fs_params.max_open_files_count s.free_open_file_entries s.open_file_table (pos k)

  same_params : t.fs_params ≡ s.fs_params
  same_params = ap (λ u. u.fs_params) r.only_block

  same_blocks : length t.free_blocks ≡ length s.free_blocks
  same_blocks = ap (λ u. length u.free_blocks) r.only_block

  valid_k : k < t.fs_params.max_inode_count
  valid_k = rw same_params (m.named name k e).valid

  in_use_k : get_elem? t.freeinode_ts k ≡ some taken
  in_use_k = ap (λ u. get_elem? u.freeinode_ts k) r.only_block ∙ (m.named name k e).in_use

  relinked_at : get_elem? relinked.inode_table k ≡ some (one_less node)
  relinked_at =
      get_elem?-set_self t.inode_table k (one_less node) (lt_of_get_elem? t.inode_table k node in_t)

  no_links : node.i_hard_links ≡ 1 → one_less node ≡ record node { i_hard_links = 0 }
  no_links one =
      one_less-pred node (omega arith) (omega arith)
      ∙ ap (λ n. record node { i_hard_links = n - 1 }) one

  -- The last link is gone.
  last_steps :
      (opened : Bool)
      → open_now ≡ some opened
      → node.i_hard_links ≡ 1
      → delete_if_unused (pos k) k relinked
        ≡ (if opened then pure tt else inode_delete (pos k)) relinked
  unfolding delete_if_unused is_file_open answer
  last_steps opened is_open one =
      let none_left : ((one_less node).i_hard_links == 0) ≡ true =
        eq_zero→== (one_less node).i_hard_links (ap (λ n. n.i_hard_links) (no_links one)) in
      let open_in_t : any_open t.fs_params.max_open_files_count t.free_open_file_entries
            t.open_file_table (pos k)
          ≡ some opened =
        ap
          (λ u.
            any_open u.fs_params.max_open_files_count u.free_open_file_entries u.open_file_table
              (pos k))
          r.only_block
        ∙ is_open in
      rw (read_inode-ok relinked k relinked_at)
        (rw none_left (rw (lt→ltb k t.fs_params.max_inode_count valid_k) (rw open_in_t refl)))

  by_delete :
      {b : ℕ} {u : Run (Unit {0})}
      → open_now ≡ some false
      → node.i_hard_links ≡ 1
      → (node.i_size ≡ 0) ⊎ (OwnsBlock s node b × (b ≢ 0))
      → ((other : List ℕ) → name ≢ other → inumber_of other (listing_of s block) ≢ pos k)
      → Deletes relinked k (one_less node) u
      → Unlinks s block name (and_then u (λ u. pure (pos 0)))
  by_delete closed one own alone (with_block {b = c} p pointer) =
      let new : Inode = blank_inode (one_less node) in
      let marks = set t.freeinode_ts k free in
      let block_marks = set t.free_blocks c free in
      rw (set-set t.inode_table k (one_less node) new) (
        unlinked e at
          (kept_names new (
            changed-IsMounted mounted k new not_root (SameRoot-set t.freeinode_ts k free not_root)
              (SameRoot-set t.free_blocks c free (own_block own p pointer).0)
              (named_others new alone (λ j ne. get_elem?-set_ne t.freeinode_ts k j free ne))))
          r.self
          (given_back one closed
            (get_elem?-set_self t.freeinode_ts k free
              (lt_of_get_elem? t.freeinode_ts k taken in_use_k))
            (λ d q pointer'.
              let same : c ≡ d = ground arith in
              let in_table : c < length t.free_blocks =
                rw same_blocks (own_block own p pointer).1 in
              rw (← same) (get_elem?-set_self t.free_blocks c free in_table))))
  by_delete closed one own alone (without_block z) =
      let new : Inode = blank_inode (one_less node) in
      rw (set-set t.inode_table k (one_less node) new) (
        unlinked e at
          (kept_names new (
            changed-IsMounted mounted k new not_root (SameRoot-set t.freeinode_ts k free not_root)
              (SameRoot-refl t.free_blocks)
              (named_others new alone (λ j ne. get_elem?-set_ne t.freeinode_ts k j free ne))))
          r.self
          (given_back one closed
            (get_elem?-set_self t.freeinode_ts k free
              (lt_of_get_elem? t.freeinode_ts k taken in_use_k))
            (λ d q pointer. absurd (omega arith))))

  pub last_link :
      {b : ℕ} (opened : Bool)
      → open_now ≡ some opened
      → node.i_hard_links ≡ 1
      → (node.i_size ≡ 0) ⊎ (OwnsBlock s node b × (b ≢ 0))
      → ((other : List ℕ) → name ≢ other → inumber_of other (listing_of s block) ≢ pos k)
      → Unlinks s block name (and_then (delete_if_unused (pos k) k relinked) (λ u. pure (pos 0)))
  last_link true is_open one own alone = rw (last_steps true is_open one) (
      unlinked e at
        (kept_names (one_less node) (
          changed-IsMounted mounted k (one_less node) not_root (SameRoot-refl t.freeinode_ts)
            (SameRoot-refl t.free_blocks) (named_others (one_less node) alone (λ j ne. refl))))
        r.self (still_open one is_open (relinked_at ∙ ap some (no_links one)) in_use_k))
  last_link {b} false is_open one own alone = rw (last_steps false is_open one) (
      by_delete is_open one own alone (
        inode_delete-Deletes relinked k b (one_less node) valid_k relinked_at in_use_k (elim own [
          | inl z ↦ inl z
          | inr (o, ne) ↦ inr (record {
            not_empty = o.not_empty;
            pointer = o.pointer;
            valid_block = rw same_params o.valid_block;
            in_table = rw same_blocks o.in_table;
          })
        ])))
