-- ===== src/Fs/Ops/Change.antt =====
-- fs/operations.c: the file system stays set up when one inode changes, or is given back.
use tecnico_fs_so.Prelude.{
  refl, Bool-cases, List, arith, get_elem?, get_elem?-set_ne, inl, inr, length, length-set, pos,
  set, some, ℕ, ◌==◌, ◌∙◌, ◌≡◌, ◌≢◌, ==→eq, ap, get_elem?-set_self, lt_of_get_elem?, sym,
}
use tecnico_fs_so.Fs.Ops.Root.{IsMounted, NamesInode}
use tecnico_fs_so.Fs.Types.{AllocationState, State, Inode}
use tecnico_fs_so.Fs.Dir.Access.{inumber_of}
use tecnico_fs_so.Fs.Dir.Laws.{listing_of}

-- The state with another entry for inode `k`, and other marks.
abbrev pub changed : State → ℕ → Inode → List AllocationState → List AllocationState → State
changed t k new inode_marks block_marks = record t {
  inode_table = set t.inode_table k new;
  freeinode_ts = inode_marks;
  free_blocks = block_marks;
}

-- The marks agree at the root's place, and their number is the same.
pub record SameRoot (marks old : List AllocationState) : Type 0 where
  pub size : length marks ≡ length old
  pub first : get_elem? marks 0 ≡ get_elem? old 0

pub SameRoot-refl : (marks : List AllocationState) → SameRoot marks marks
SameRoot-refl marks = record { size = refl; first = refl }

pub SameRoot-set :
    (marks : List AllocationState) (k : ℕ) (a : AllocationState)
    → k ≢ 0
    → SameRoot (set marks k a) marks
SameRoot-set marks k a ne = record {
  size = length-set marks k a;
  first = get_elem?-set_ne marks k 0 a ne;
}

module _ {t : State} {block : List ℕ} (m : IsMounted t block) (k : ℕ) (new : Inode) where
  pub changed-IsMounted :
      {inode_marks block_marks : List AllocationState}
      → k ≢ 0
      → SameRoot inode_marks t.freeinode_ts
      → SameRoot block_marks t.free_blocks
      → ((name : List ℕ) (j : ℕ)
          → inumber_of name (listing_of t block) ≡ pos j
          → NamesInode (changed t k new inode_marks block_marks) j)
      → IsMounted (changed t k new inode_marks block_marks) block
  changed-IsMounted not_root i b named = record {
    root = record {
      node = m.root.node;
      at_inode = get_elem?-set_ne t.inode_table k 0 new not_root ∙ m.root.at_inode;
      is_directory = m.root.is_directory;
      pointer = m.root.pointer;
      valid_block = m.root.valid_block;
      block_at = m.root.block_at;
      long = m.root.long;
      listing = m.root.listing;
    };
    root_valid = m.root_valid;
    block_bytes = m.block_bytes;
    root_in_use = i.first ∙ m.root_in_use;
    root_block_in_use = b.first ∙ m.root_block_in_use;
    inodes = record {
      inode_marks = rw i.size m.inodes.inode_marks;
      inode_entries = rw (length-set t.inode_table k new) m.inodes.inode_entries;
    };
    handles = record {
      handle_marks = m.handles.handle_marks;
      handle_entries = m.handles.handle_entries;
    };
    blocks = record { marks = rw b.size m.blocks.marks; block_of = m.blocks.block_of };
    named = named;
  }

  -- A name that stands for another inode.
  pub other-NamesInode :
      {j : ℕ} {inode_marks : List AllocationState} (block_marks : List AllocationState)
      → k ≢ j
      → get_elem? inode_marks j ≡ get_elem? t.freeinode_ts j
      → NamesInode t j
      → NamesInode (changed t k new inode_marks block_marks) j
  other-NamesInode {j} block_marks ne mark n = record {
    valid = n.valid;
    in_use = mark ∙ n.in_use;
    node = n.node;
    node_at = get_elem?-set_ne t.inode_table k j new ne ∙ n.node_at;
    no_directory = n.no_directory;
    linked = n.linked;
  }

  self-NamesInode :
      {node : Inode}
      → get_elem? t.inode_table k ≡ some node
      → new.i_node_type ≡ node.i_node_type
      → new.i_hard_links ≢ 0
      → NamesInode t k
      → NamesInode (changed t k new t.freeinode_ts t.free_blocks) k
  self-NamesInode {node} at type_eq linked n = record {
    valid = n.valid;
    in_use = n.in_use;
    node = new;
    node_at = get_elem?-set_self t.inode_table k new (lt_of_get_elem? t.inode_table k node at);
    no_directory =
        let at_k = n.node_at in
        let same : n.node ≡ node = ground arith in
        let other_type = n.no_directory in
        λ e. other_type (ap (λ x. x.i_node_type) same ∙ sym type_eq ∙ e);
    linked = linked;
  }

  -- The number of links of a file changes, and does not become 0.
  pub relinked-IsMounted :
      {node : Inode}
      → k ≢ 0
      → get_elem? t.inode_table k ≡ some node
      → new.i_node_type ≡ node.i_node_type
      → new.i_hard_links ≢ 0
      → IsMounted (changed t k new t.freeinode_ts t.free_blocks) block
  relinked-IsMounted {node} not_root at type_eq linked =
      changed-IsMounted not_root (SameRoot-refl t.freeinode_ts) (SameRoot-refl t.free_blocks)
        (λ name j e.
          let n = m.named name j e in
          elim (Bool-cases (k == j)) [
            | inl same ↦
                let here : k ≡ j = ==→eq k j same in
                let at_k : NamesInode t k = rw here n in
                rw (← here) (self-NamesInode at type_eq linked at_k)
            | inr other ↦ other-NamesInode t.free_blocks (λ q. ground arith) refl n
          ])
