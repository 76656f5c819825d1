-- ===== src/Fs/Ops/Keep.antt =====
-- fs/operations.c: changes of the state that keep the file system set up, with the names of its root
-- directory.
use tecnico_fs_so.Prelude.{
  refl, inl, inr, none, some, List, Option, ap, arith, get_elem?, get_elem?-set_ne, length,
  length-set, pos, set, ℕ, ◌∙◌, ◌≡◌, ◌≢◌,
}
use tecnico_fs_so.Fs.Types.{free, taken, Inode, State, AllocationState}
use tecnico_fs_so.Fs.Dir.Access.{IsDirectory}
use tecnico_fs_so.Fs.Ops.Root.{IsMounted, NamesInode}
use tecnico_fs_so.Fs.Files.WriteBack.{
  Wrote, kind_of, BlocksExist, Wrote-BlocksExist, kind, kind_of-set,
}
use tecnico_fs_so.Fs.Files.Table.{with_handle}
use tecnico_fs_so.Fs.Ops.Open.{emptied}

-- The root's inode and block stay, and so does what each inode in use is.
pub record Keeps (s t : State) : Type 0 where
  pub params : t.fs_params ≡ s.fs_params
  pub in_use :
      (j : ℕ) → get_elem? s.freeinode_ts j ≡ some taken → get_elem? t.freeinode_ts j ≡ some taken
  pub marks_size : length t.freeinode_ts ≡ length s.freeinode_ts
  pub inodes_size : length t.inode_table ≡ length s.inode_table
  pub kinds :
      (j : ℕ)
      → get_elem? s.freeinode_ts j ≡ some taken
      → kind_of (get_elem? t.inode_table j) ≡ kind_of (get_elem? s.inode_table j)
  pub root_node : get_elem? t.inode_table 0 ≡ get_elem? s.inode_table 0
  pub root_data : get_elem? t.fs_data 0 ≡ get_elem? s.fs_data 0
  pub root_mark : get_elem? t.free_blocks 0 ≡ get_elem? s.free_blocks 0
  pub handle_marks_size : length t.free_open_file_entries ≡ length s.free_open_file_entries
  pub handles_size : length t.open_file_table ≡ length s.open_file_table
  pub blocks : BlocksExist s → BlocksExist t

kind_of-some :
    (x : Option Inode) (node : Inode)
    → kind_of x ≡ some (kind node)
    → (new : Inode) × (x ≡ some new) × (kind new ≡ kind node)
kind_of-some none node e = absurd (ground arith)
kind_of-some (some new) node e = (new, refl, ground arith)

NamesInode-Keeps : {s t : State} {k : ℕ} → Keeps s t → NamesInode s k → NamesInode t k
NamesInode-Keeps {s} {t} {k} x n =
    let same : kind_of (get_elem? t.inode_table k) ≡ some (kind n.node) =
      x.kinds k n.in_use ∙ ap kind_of n.node_at in
    let (new, at, eq) = kind_of-some (get_elem? t.inode_table k) n.node same in
    let type_eq : new.i_node_type ≡ n.node.i_node_type = ap (λ p. p.0) eq in
    let link_eq : new.i_hard_links ≡ n.node.i_hard_links = ap (λ p. p.1) eq in
    record {
      valid = rw x.params n.valid;
      in_use = x.in_use k n.in_use;
      node = new;
      node_at = at;
      no_directory = rw type_eq n.no_directory;
      linked = rw link_eq n.linked;
    }

Keeps-IsDirectory :
    {s t : State} {block : List ℕ} → Keeps s t → IsDirectory s 0 0 block → IsDirectory t 0 0 block
Keeps-IsDirectory x d = record {
  node = d.node;
  at_inode = x.root_node ∙ d.at_inode;
  is_directory = d.is_directory;
  pointer = d.pointer;
  valid_block = rw x.params d.valid_block;
  block_at = x.root_data ∙ d.block_at;
  long = rw x.params d.long;
  listing = rw x.params d.listing;
}

pub Keeps-IsMounted :
    {s t : State} {block : List ℕ} → Keeps s t → IsMounted s block → IsMounted t block
Keeps-IsMounted x m = record {
  root = Keeps-IsDirectory x m.root;
  root_valid = rw x.params m.root_valid;
  block_bytes = rw x.params m.block_bytes;
  root_in_use = x.in_use 0 m.root_in_use;
  root_block_in_use = x.root_mark ∙ m.root_block_in_use;
  inodes = record {
    inode_marks = rw (x.params, x.marks_size) m.inodes.inode_marks;
    inode_entries = rw (x.params, x.inodes_size) m.inodes.inode_entries;
  };
  handles = record {
    handle_marks = rw (x.params, x.handle_marks_size) m.handles.handle_marks;
    handle_entries = rw (x.params, x.handles_size) m.handles.handle_entries;
  };
  blocks = x.blocks m.blocks;
  named = λ name k e. NamesInode-Keeps x (m.named name k (rw x.params at e));
}

-- A handle is given out or given back.
pub with_handle-Keeps : (s : State) (h i offset : ℕ) → Keeps s (with_handle s h i offset)
with_handle-Keeps s h i offset = record {
  params = refl;
  in_use = λ j e. e;
  marks_size = refl;
  inodes_size = refl;
  kinds = λ j e. refl;
  root_node = refl;
  root_data = refl;
  root_mark = refl;
  handle_marks_size = length-set s.free_open_file_entries h taken;
  handles_size = length-set s.open_file_table h (record { of_inumber = pos i; of_offset = offset });
  blocks = λ x. record { marks = x.marks; block_of = x.block_of };
}

pub closed-Keeps :
    (s : State) (h : ℕ)
    → Keeps s (record s { free_open_file_entries = set s.free_open_file_entries h free })
closed-Keeps s h = record {
  params = refl;
  in_use = λ j e. e;
  marks_size = refl;
  inodes_size = refl;
  kinds = λ j e. refl;
  root_node = refl;
  root_data = refl;
  root_mark = refl;
  handle_marks_size = length-set s.free_open_file_entries h free;
  handles_size = refl;
  blocks = λ x. record { marks = x.marks; block_of = x.block_of };
}

-- A file other than the root is emptied.
pub emptied-Keeps :
    {s : State} (k : ℕ) (node : Inode) (marks : List AllocationState)
    → get_elem? s.inode_table k ≡ some node
    → k ≢ 0
    → length marks ≡ length s.free_blocks
    → get_elem? marks 0 ≡ get_elem? s.free_blocks 0
    → Keeps s (emptied s k node marks)
emptied-Keeps {s} k node marks at not_root size root_mark = record {
  params = refl;
  in_use = λ j e. e;
  marks_size = refl;
  inodes_size = length-set s.inode_table k (record node { i_size = 0 });
  kinds = λ j e. kind_of-set s.inode_table k j _ at refl;
  root_node = get_elem?-set_ne s.inode_table k 0 _ not_root;
  root_data = refl;
  root_mark = root_mark;
  handle_marks_size = refl;
  handles_size = refl;
  blocks = λ x. record { marks = rw size x.marks; block_of = x.block_of };
}

-- The entry of a free inode is written, and the inode marked.
pub with_inode-Keeps :
    (s : State) (i : ℕ) (mark : AllocationState) (inode : Inode)
    → get_elem? s.freeinode_ts i ≡ some free
    → get_elem? s.freeinode_ts 0 ≡ some taken
    → Keeps s (record s {
      freeinode_ts = set s.freeinode_ts i mark;
      inode_table = set s.inode_table i inode;
    })
with_inode-Keeps s i mark inode is_free root = record {
  params = refl;
  in_use = λ j e. get_elem?-set_ne s.freeinode_ts i j mark (other j e) ∙ e;
  marks_size = length-set s.freeinode_ts i mark;
  inodes_size = length-set s.inode_table i inode;
  kinds = λ j e. ap kind_of (get_elem?-set_ne s.inode_table i j inode (other j e));
  root_node = get_elem?-set_ne s.inode_table i 0 inode (other 0 root);
  root_data = refl;
  root_mark = refl;
  handle_marks_size = refl;
  handles_size = refl;
  blocks = λ x. record { marks = x.marks; block_of = x.block_of };
}
  where
    other : (j : ℕ) → get_elem? s.freeinode_ts j ≡ some taken → i ≢ j
    other j e same = let at_i : get_elem? s.freeinode_ts i ≡ some taken = rw same e in cc

-- A file other than the root is written, whose block is not the root's.
pub Wrote-Keeps :
    {s t : State} {h i offset b : ℕ} {content : List ℕ}
    → Wrote s t h i offset b content
    → i ≢ 0
    → b ≢ 0
    → Keeps s t
Wrote-Keeps {s} {t} {b = b} w not_root other_block = record {
  params = w.params;
  in_use = λ j e. rw w.inode_marks e;
  marks_size = ap length w.inode_marks;
  inodes_size = w.inode_count;
  kinds = λ j e. w.kinds j;
  root_node = w.inodes 0 not_root;
  root_data = w.blocks 0 other_block;
  root_mark = elim w.block_marks [
    | inl e ↦ ap (λ marks. get_elem? marks 0) e
    | inr e ↦
        ap (λ marks. get_elem? marks 0) e ∙ get_elem?-set_ne s.free_blocks b 0 taken other_block
  ];
  handle_marks_size = ap length w.open_handles;
  handles_size = w.handle_count;
  blocks = Wrote-BlocksExist w;
}
