-- ===== src/Fs/Ops/Link.antt =====
-- fs/operations.c, `tfs_link`: a second name for a file.
use tecnico_fs_so.Prelude.{
  refl, List, ap, arith, false, get_elem?, get_elem?-set_self, lt_of_get_elem?, minus_one, none,
  not, pos, some, sym, true, ℕ, ℤ, ◌%◌, ◌+◌, ◌<◌, ◌^◌, ◌∙◌, ◌≡◌, Bool-cases, if◌then◌else◌, inl,
  inr, is_minus_one, ◌≤◌,
}
use tecnico_fs_so.Fs.Dir.Laws.{
  cleared, not_there, Clears, Renamed, listing_of, added, present, no_room, Adds,
  add_dir_entry-Adds, clear_dir_entry-Clears,
}
use tecnico_fs_so.Fs.Ops.CopyLaws.{OthersKept}
use tecnico_fs_so.Fs.Ops.UnlinkLaws.{not_the_root}
use tecnico_fs_so.Fs.Types.{Inode, State}
use tecnico_fs_so.Fs.Ops.Root.{
  IsMounted, path, valid_pathname-path, tfs_lookup-inumber_of, NamesInode,
}
use tecnico_fs_so.Fs.Run.{Run, and_then, ok, pure, ◌>>=◌, read_inode, ◌>>◌, update_inode}
use tecnico_fs_so.Fs.Dir.Access.{inumber_of}
use tecnico_fs_so.Fs.Entries.WellFormed.{Absent}
use tecnico_fs_so.Fs.Ops.{is_sym_link, tfs_link}
use tecnico_fs_so.Fs.Entries.{find_first, is_live}
use tecnico_fs_so.Fs.Ops.Change.{changed, relinked-IsMounted}
use tecnico_fs_so.Fs.Ops.Names.{Renamed-IsMounted}
use tecnico_fs_so.Fs.Dir.{entry_inumber, clear_dir_entry}
use tecnico_fs_so.Fs.Entries.Names.{IsName}
use tecnico_fs_so.Fs.Inodes.{inode_get}
use tecnico_fs_so.Fs.Files.Handles.{inode_get-ok}
use tecnico_fs_so.Fs.Run.Steps.{read_inode-ok, update_inode-ok}

-- The target's name is free, or its inode has room for one more link.
pub data ForLinking (s : State) (block target : List ℕ) : Type 0 where
  no_target : inumber_of target (listing_of s block) ≡ minus_one → ForLinking s block target
  some_target :
      (k : ℕ) {node : Inode}
      → inumber_of target (listing_of s block) ≡ pos k
      → get_elem? s.inode_table k ≡ some node
      → node.i_hard_links + 1 < 2 ^ 64
      → ForLinking s block target

-- Why no name is added.
pub data NotLinked (s : State) (block target link : List ℕ) : Type 0 where
  target_unknown :
      inumber_of target (listing_of s block) ≡ minus_one → NotLinked s block target link
  link_in_use : ¬ (Absent link (listing_of s block)) → NotLinked s block target link
  directory_full :
      find_first (λ e. not (is_live e)) (listing_of s block) ≡ none → NotLinked s block target link
  target_is_link :
      {k : ℕ} {node : Inode}
      → inumber_of target (listing_of s block) ≡ pos k
      → get_elem? s.inode_table k ≡ some node
      → is_sym_link node.i_node_type ≡ true
      → NotLinked s block target link

-- The outcome of `tfs_link`.
pub data Links (s : State) (block target link : List ℕ) : Run ℤ → Type 0 where
  linked_to :
      {t : State} {block' : List ℕ} {k : ℕ} {node : Inode}
      → inumber_of target (listing_of s block) ≡ pos k
      → get_elem? s.inode_table k ≡ some node
      → is_sym_link node.i_node_type ≡ false
      → Absent link (listing_of s block)
      → OthersKept s t block block' link
      → inumber_of link (listing_of t block') ≡ pos k
      → get_elem? t.inode_table k ≡ some (record node { i_hard_links = node.i_hard_links + 1 })
      → Links s block target link (ok (pos 0) t)
  not_linked :
      {t : State} {block' : List ℕ}
      → OthersKept s t block block' link
      → inumber_of link (listing_of t block') ≡ inumber_of link (listing_of s block)
      → NotLinked s block target link
      → Links s block target link (ok minus_one t)

unchanged_names :
    {s : State} {block : List ℕ} (link : List ℕ)
    → IsMounted s block
    → OthersKept s s block block link
unchanged_names link m = record { mounted = m; params = refl; others = λ other ne. refl }

abbrev one_more : Inode → Inode
one_more node = record node { i_hard_links = (node.i_hard_links + 1) % 2 ^ 64 }

one_more-suc :
    (node : Inode)
    → node.i_hard_links + 1 < 2 ^ 64
    → one_more node ≡ record node { i_hard_links = node.i_hard_links + 1 }
one_more-suc node bound =
    let count : (node.i_hard_links + 1) % 2 ^ 64 ≡ node.i_hard_links + 1 = omega arith in
    ap (λ n. record node { i_hard_links = n }) count

Renamed-inode :
    {s t : State} {block block' name : List ℕ} {x : ℤ} {node : Inode} (k : ℕ)
    → Renamed s t 0 0 block block' name x
    → get_elem? s.inode_table k ≡ some node
    → get_elem? t.inode_table k ≡ some node
Renamed-inode k r at = ap (λ u. get_elem? u.inode_table k) r.only_block ∙ at

module _ {s t : State} {block block' target link : List ℕ} {k : ℕ} {node : Inode}
    (m : IsMounted s block) (e : inumber_of target (listing_of s block) ≡ pos k)
    (at : get_elem? s.inode_table k ≡ some node) (absent : Absent link (listing_of s block))
    (r : Renamed s t 0 0 block block' link (pos k)) (mounted : IsMounted t block') where
  -- The name is taken away again.
  by_undo :
      {u : Run ℤ}
      → is_sym_link node.i_node_type ≡ true
      → Clears t 0 0 block' link u
      → Links s block target link (and_then u (λ done. pure minus_one))
  by_undo sym_link (cleared {t = v} block'' q) =
      not_linked
        (record {
          mounted = Renamed-IsMounted q (λ j z. cc) mounted;
          params = ap (λ u. u.fs_params) q.only_block ∙ ap (λ u. u.fs_params) r.only_block;
          others = λ other ne. q.others other ne ∙ r.others other ne;
        })
        (q.self ∙ sym (ap entry_inumber absent)) (target_is_link e at sym_link)
  by_undo sym_link (not_there gone) =
      let no_inumber : inumber_of link (listing_of t block') ≡ minus_one = ap entry_inumber gone in
      let named = r.self in cc

  counted :
      is_sym_link node.i_node_type ≡ false
      → node.i_hard_links + 1 < 2 ^ 64
      → Links s block target link
          (ok (pos 0) (changed t k (one_more node) t.freeinode_ts t.free_blocks))
  counted no_link bound =
      let more = one_more-suc node bound in
      let count : (one_more node).i_hard_links ≡ node.i_hard_links + 1 =
        ap (λ n. n.i_hard_links) more in
      linked_to e at no_link absent
        (record {
          mounted =
              relinked-IsMounted mounted k (one_more node) (not_the_root target m e at)
                (Renamed-inode k r at) refl (omega (arith, count));
          params = ap (λ u. u.fs_params) r.only_block;
          others = r.others;
        })
        r.self
        (get_elem?-set_self t.inode_table k (one_more node)
            (lt_of_get_elem? t.inode_table k node (Renamed-inode k r at))
          ∙ ap some more)

module _ {s : State} {block target : List ℕ} (link : List ℕ) {k : ℕ} {node : Inode}
    (m : IsMounted s block) (n : IsName link) (e : inumber_of target (listing_of s block) ≡ pos k)
    (at : get_elem? s.inode_table k ≡ some node) where
  by_add :
      {r : Run ℤ}
      → node.i_hard_links + 1 < 2 ^ 64
      → Adds s 0 0 block link k r
      → Links s block target link (
          and_then r (λ entered. if is_minus_one entered then pure minus_one else (do
            i ← inode_get (pos k)
            inode ← read_inode i
            if is_sym_link inode.i_node_type
                then (do clear_dir_entry 0 link; pure minus_one)
                else (do update_inode i one_more; pure (pos 0)))))
  by_add bound (present there) = not_linked (unchanged_names link m) refl (link_in_use there)
  by_add bound (no_room full) = not_linked (unchanged_names link m) refl (directory_full full)
  by_add bound (added {t = t} block' absent r) =
      let same_target : (j : ℕ) → pos k ≡ pos j → NamesInode s j =
        λ j q. m.named target j (e ∙ q) in
      let mounted : IsMounted t block' = Renamed-IsMounted r same_target m in
      let params = ap (λ u. u.fs_params) r.only_block in
      let valid : k < t.fs_params.max_inode_count = rw params (m.named target k e).valid in
      let in_t = Renamed-inode k r at in
      rw (inode_get-ok t k valid) (
        rw (read_inode-ok t k in_t) (elim (Bool-cases (is_sym_link node.i_node_type)) [
          | inl sym_link ↦ rw sym_link (
              by_undo m e at absent r mounted sym_link (clear_dir_entry-Clears link n mounted.root))
          | inr no_link ↦ rw no_link (
              rw (update_inode-ok t k one_more in_t)
                (counted m e at absent r mounted no_link bound))
        ]))

-- Giving a file a second name ends. If it returns 0, the link's name was free and stands for the
-- target's inode now, which is no symbolic link and has one more link. It returns -1 only if the
-- target's name is free, the link's name is in use, all entries of the directory are, or the target
-- is a symbolic link; then the link's name stands for what it stood for, too. Either way the file
-- system stays set up and every other name keeps its inumber. Both names are C strings of 1 to 39
-- bytes, the target's inode has fewer than 2^64 - 1 links, and there are at most 2^31 inodes.
pub tfs_link-Links :
    {s : State} {block : List ℕ} (target link : List ℕ)
    → IsMounted s block
    → IsName target
    → IsName link
    → s.fs_params.max_inode_count ≤ 2 ^ 31
    → ForLinking s block target
    → Links s block target link (tfs_link (path target) (path link) s)
unfolding tfs_link
tfs_link-Links {s} target link m n n' small (no_target e) =
    rw (valid_pathname-path target n, valid_pathname-path link n')
      (rw (inode_get-ok s 0 m.root_valid) (
        rw (tfs_lookup-inumber_of target m.root n)
          (rw e (not_linked (unchanged_names link m) refl (target_unknown e)))))
tfs_link-Links {s} target link m n n' small (some_target k e at bound) =
    let valid = (m.named target k e).valid in
    rw (valid_pathname-path target n, valid_pathname-path link n')
      (rw (inode_get-ok s 0 m.root_valid) (
        rw (tfs_lookup-inumber_of target m.root n) (
          rw e (
            by_add link m n' e at bound
              (add_dir_entry-Adds link n' m.root k valid (omega arith))))))
