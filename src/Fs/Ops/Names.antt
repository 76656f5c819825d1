-- ===== src/Fs/Ops/Names.antt =====
-- fs/operations.c: the file system stays set up when a name of the root directory is changed.
use tecnico_fs_so.Prelude.{
  inl, inr, Bool-cases, List, ap, bytes_eq, bytes_eq→eq, get_elem?-set_ne, length, pos, sym, ℕ, ℤ,
  ◌==◌, ◌∙◌, ◌≡◌, ==→eq, arith, bytes_eq_refl, get_elem?, get_elem?-set_self, lt_of_get_elem?, set,
  some,
}
use tecnico_fs_so.Fs.Types.{State}
use tecnico_fs_so.Fs.Ops.Root.{NamesInode, IsMounted}
use tecnico_fs_so.Fs.Dir.Laws.{Renamed, listing_of}
use tecnico_fs_so.Fs.Files.WriteBack.{BlocksExist}
use tecnico_fs_so.Fs.Dir.Access.{inumber_of}

NamesInode-same :
    {s t : State} {k : ℕ}
    → t.fs_params ≡ s.fs_params
    → t.freeinode_ts ≡ s.freeinode_ts
    → t.inode_table ≡ s.inode_table
    → NamesInode s k
    → NamesInode t k
NamesInode-same e e' e'' n = record {
  valid = rw e n.valid;
  in_use = rw e' n.in_use;
  node = n.node;
  node_at = rw e'' n.node_at;
  no_directory = n.no_directory;
  linked = n.linked;
}

module _ {s t : State} {block block' name : List ℕ} {x : ℤ}
    (r : Renamed s t 0 0 block block' name x) where
  blocks_after :
      length block ≡ s.fs_params.block_size
      → get_elem? s.fs_data 0 ≡ some block
      → BlocksExist s
      → BlocksExist t
  blocks_after full at_zero exist = rw r.only_block (record {
    marks = exist.marks;
    block_of = λ b lt. elim (Bool-cases (b == 0)) [
      | inl first ↦
          let self : get_elem? (set s.fs_data 0 block') 0 ≡ some block' =
            get_elem?-set_self s.fs_data 0 block' (lt_of_get_elem? s.fs_data 0 block at_zero) in
          let same : b ≡ 0 = ==→eq b 0 first in
          (block', ap (get_elem? (set s.fs_data 0 block')) same ∙ self, r.same_size ∙ full)
      | inr other ↦
          let (data_block, at, size) = exist.block_of b lt in
          (data_block, get_elem?-set_ne s.fs_data 0 b block' (λ e. ground arith) ∙ at, size)
    ];
  })

  -- The inode that the name stands for, if any, is one that a name may stand for.
  pub Renamed-IsMounted :
      ((k : ℕ) → x ≡ pos k → NamesInode s k) → IsMounted s block → IsMounted t block'
  Renamed-IsMounted new m =
      let params = ap (λ u. u.fs_params) r.only_block in
      let marks = ap (λ u. u.freeinode_ts) r.only_block in
      let table = ap (λ u. u.inode_table) r.only_block in
      let block_marks = ap (λ u. u.free_blocks) r.only_block in
      let handle_marks = ap (λ u. u.free_open_file_entries) r.only_block in
      let handles = ap (λ u. u.open_file_table) r.only_block in
      let (old, at_zero, full) = m.blocks.block_of 0 m.root.valid_block in
      let same : old ≡ block = (let e = sym at_zero ∙ m.root.block_at in cc) in
      record {
        root = r.still;
        root_valid = rw params m.root_valid;
        block_bytes = rw params m.block_bytes;
        root_in_use = rw marks m.root_in_use;
        root_block_in_use = rw block_marks m.root_block_in_use;
        inodes = record {
          inode_marks = rw (params, marks) m.inodes.inode_marks;
          inode_entries = rw (params, table) m.inodes.inode_entries;
        };
        handles = record {
          handle_marks = rw (params, handle_marks) m.handles.handle_marks;
          handle_entries = rw (params, handles) m.handles.handle_entries;
        };
        blocks = blocks_after (ap length (sym same) ∙ full) m.root.block_at m.blocks;
        named = λ other k e. elim (Bool-cases (bytes_eq name other)) [
          | inl eq ↦
              let same_name = bytes_eq→eq name other eq in
              NamesInode-same params marks table
                (new k (sym r.self ∙ ap (λ z. inumber_of z (listing_of t block')) same_name ∙ e))
          | inr ne ↦ NamesInode-same params marks table (
              m.named other k
                (sym (r.others other (λ q. let refl_eq = bytes_eq_refl name in cc)) ∙ e))
        ];
      }
