-- ===== src/Fs/Files/WriteBack.antt =====
-- fs/state.c, `write_to_open_file`, against the bytes that a file holds.
use tecnico_fs_so.Prelude.{
  ℕ, refl, List, arith, get_elem?, get_elem?-set_ne, get_elem?-set_self, length, length-put,
  length-set, lt_of_get_elem?, max, minus_one, pos, put, some, splice, take, take-put-splice, ℤ,
  ◌+◌, ◌<◌, ◌∙◌, ◌≡◌, ◌≢◌, ◌≤◌, ◌⊎◌, Option, [], ap, none, set, suc, sym, zero, ◌∷◌, inl,
}
use tecnico_fs_so.Fs.Types.{State, Inode, free, taken, InodeType}
use tecnico_fs_so.Fs.Files.Handles.{IsOpen, HasBlock, at_offset}
use tecnico_fs_so.Fs.Run.{Run, ok}
use tecnico_fs_so.Fs.Files.Content.{Holds, stored}
use tecnico_fs_so.Fs.Files.Write.{Fits, written, length-take_le}
use tecnico_fs_so.Fs.Files.{grow}

-- The size of a block that a table holds or not.
abbrev pub size_of : Option (List ℕ) → Option ℕ
size_of none = none
size_of (some block) = some (length block)

size_of-set :
    (blocks : List (List ℕ)) (b k : ℕ) {block : List ℕ} (new : List ℕ)
    → get_elem? blocks b ≡ some block
    → length new ≡ length block
    → size_of (get_elem? (set blocks b new) k) ≡ size_of (get_elem? blocks k)
size_of-set [] b k new e same = refl
size_of-set (x ∷ blocks) zero zero {block} new e same =
    let at_head : x ≡ block = ground arith in ap some (same ∙ ap length (sym at_head))
size_of-set (x ∷ blocks) zero (suc k) new e same = refl
size_of-set (x ∷ blocks) (suc b) zero new e same = refl
size_of-set (x ∷ blocks) (suc b) (suc k) new e same = size_of-set blocks b k new e same

-- The type and the links of an inode that a table holds or not.
abbrev pub kind : Inode → InodeType × ℕ
kind inode = (inode.i_node_type, inode.i_hard_links)

abbrev pub kind_of : Option Inode → Option (InodeType × ℕ)
kind_of none = none
kind_of (some inode) = some (kind inode)

pub kind_of-set :
    (table : List Inode) (i j : ℕ) {inode : Inode} (new : Inode)
    → get_elem? table i ≡ some inode
    → kind new ≡ kind inode
    → kind_of (get_elem? (set table i new) j) ≡ kind_of (get_elem? table j)
kind_of-set [] i j new e same = refl
kind_of-set (x ∷ table) zero zero {inode} new e same =
    let at_head : x ≡ inode = ground arith in ap some (same ∙ ap kind (sym at_head))
kind_of-set (x ∷ table) zero (suc j) new e same = refl
kind_of-set (x ∷ table) (suc i) zero new e same = refl
kind_of-set (x ∷ table) (suc i) (suc j) new e same = kind_of-set table i j new e same

-- How the state `t` after a write differs from the state `s` before it: handle `h` stands behind
-- the bytes written, inode `i` holds `content`, and only handle `h`, inode `i` and block `b` differ.
pub record Wrote (s t : State) (h i offset b : ℕ) (content : List ℕ) : Type 0 where
  pub after : Inode
  pub opened : IsOpen t h i offset after
  pub holds : Holds t after content
  pub params : t.fs_params ≡ s.fs_params
  pub inodes : (j : ℕ) → i ≢ j → get_elem? t.inode_table j ≡ get_elem? s.inode_table j
  pub handles : (g : ℕ) → h ≢ g → get_elem? t.open_file_table g ≡ get_elem? s.open_file_table g
  pub open_handles : t.free_open_file_entries ≡ s.free_open_file_entries
  pub blocks : (k : ℕ) → b ≢ k → get_elem? t.fs_data k ≡ get_elem? s.fs_data k
  pub sizes : (k : ℕ) → size_of (get_elem? t.fs_data k) ≡ size_of (get_elem? s.fs_data k)
  pub marks : length t.free_blocks ≡ length s.free_blocks
  pub inode_marks : t.freeinode_ts ≡ s.freeinode_ts
  pub inode_count : length t.inode_table ≡ length s.inode_table
  pub handle_count : length t.open_file_table ≡ length s.open_file_table
  pub kinds : (j : ℕ) → kind_of (get_elem? t.inode_table j) ≡ kind_of (get_elem? s.inode_table j)
  pub block_marks : (t.free_blocks ≡ s.free_blocks) ⊎ (t.free_blocks ≡ set s.free_blocks b taken)

-- The block that is written is the inode's own, or was free and the inode had none.
abbrev pub OwnOrFree : State → Inode → ℕ → Type 0
OwnOrFree s inode b =
    ((0 < inode.i_size) × (inode.i_data_block ≡ pos b))
    ⊎ ((inode.i_size ≡ 0) × (get_elem? s.free_blocks b ≡ some free))

-- The outcome of writing `n` bytes of `buffer` at `offset` to an inode that holds `content`.
pub data Writes (s : State) (h i offset n : ℕ) (inode : Inode) (content buffer : List ℕ)
    : Run ℤ → Type 0 where
  wrote :
      {t : State} (b : ℕ)
      → OwnOrFree s inode b
      → Wrote s t h i (offset + n) b (splice content offset (take n buffer))
      → Writes s h i offset n inode content buffer (ok (pos n) t)
  unchanged :
      {t : State}
      → n ≡ 0
      → t ≡ at_offset s h i offset
      → Writes s h i offset n inode content buffer (ok (pos n) t)
  no_space :
      {t : State}
      → inode.i_size ≡ 0
      → 0 < n
      → ((k : ℕ) → k < s.fs_params.max_block_count → get_elem? s.free_blocks k ≡ some taken)
      → t ≡ at_offset s h i offset
      → Writes s h i offset n inode content buffer (ok minus_one t)

-- The tables of the data blocks have an entry for each block, and each block has its full size.
pub record BlocksExist (s : State) : Type 0 where
  pub marks : s.fs_params.max_block_count ≤ length s.free_blocks
  pub block_of :
      (b : ℕ)
      → b < s.fs_params.max_block_count
      → (block : List ℕ) × (get_elem? s.fs_data b ≡ some block)
        × (length block ≡ s.fs_params.block_size)

module _ (s : State) (h i offset n b : ℕ) (buffer : List ℕ) {inode : Inode} {block : List ℕ}
    (o : IsOpen s h i offset inode) (d : HasBlock s inode b block)
    (fits : Fits block offset buffer n) (inside : offset ≤ inode.i_size) where
  abbrev pub after_write : State
  after_write = written s h i inode b block offset buffer n

  after_write-IsOpen : IsOpen after_write h i (offset + n) (grow (offset + n) inode)
  after_write-IsOpen = record {
    valid_handle = o.valid_handle;
    handle_taken = o.handle_taken;
    file = get_elem?-set_self s.open_file_table h _ o.in_table;
    in_table =
        rw (length-set s.open_file_table h (record { of_inumber = pos i; of_offset = offset + n }))
          o.in_table;
    valid_inode = o.valid_inode;
    inode_at =
        get_elem?-set_self s.inode_table i _ (lt_of_get_elem? s.inode_table i inode o.inode_at);
  }

  size-grow : (grow (offset + n) inode).i_size ≡ max inode.i_size (offset + n)
  unfolding grow
  size-grow = ground arith

  kind-grow : kind (grow (offset + n) inode) ≡ kind inode
  unfolding grow
  kind-grow = refl

  after_write-HasBlock :
      HasBlock after_write (grow (offset + n) inode) b (put block offset (take n buffer))
  after_write-HasBlock = record {
    pointer = unfold grow in d.pointer;
    valid_block = d.valid_block;
    block_at = get_elem?-set_self s.fs_data b _ (lt_of_get_elem? s.fs_data b block d.block_at);
    full_size = length-put block offset (take n buffer) ∙ d.full_size;
    fits = omega (arith, size-grow, d.fits, fits.in_block, d.full_size);
  }

  after_write-Holds :
      0 < n
      → Holds after_write
          (grow (offset + n) inode)
          (splice (take inode.i_size block) offset (take n buffer))
  after_write-Holds p =
      rw
        (← take-put-splice (grow (offset + n) inode).i_size inode.i_size offset block
          (take n buffer) (omega (arith, size-grow, length-take_le n buffer fits.in_buffer)) inside
          (omega (arith, length-take_le n buffer fits.in_buffer, fits.in_block)))
        (stored (omega (arith, size-grow)) after_write-HasBlock)

  pub after_write-Wrote :
      0 < n
      → Wrote s after_write h i
          (offset + n)
          b
          (splice (take inode.i_size block) offset (take n buffer))
  after_write-Wrote p = record {
    after = grow (offset + n) inode;
    opened = after_write-IsOpen;
    holds = after_write-Holds p;
    params = refl;
    inodes = λ j ne. get_elem?-set_ne s.inode_table i j _ ne;
    handles = λ g ne. get_elem?-set_ne s.open_file_table h g _ ne;
    open_handles = refl;
    blocks = λ k ne. get_elem?-set_ne s.fs_data b k _ ne;
    sizes = λ k. size_of-set s.fs_data b k _ d.block_at (length-put block offset (take n buffer));
    marks = refl;
    inode_marks = refl;
    inode_count = length-set s.inode_table i (grow (offset + n) inode);
    handle_count =
        length-set s.open_file_table h (record { of_inumber = pos i; of_offset = offset + n });
    kinds = λ j. kind_of-set s.inode_table i j (grow (offset + n) inode) o.inode_at kind-grow;
    block_marks = inl refl;
  }

size_of-some :
    (x : Option (List ℕ)) {n : ℕ}
    → size_of x ≡ some n
    → (block : List ℕ) × (x ≡ some block) × (length block ≡ n)
size_of-some none size = absurd (ground arith)
size_of-some (some block) size = (block, refl, ground arith)

-- A write keeps the tables of the blocks as they should be.
pub Wrote-BlocksExist :
    {s t : State} {h i offset b : ℕ} {content : List ℕ}
    → Wrote s t h i offset b content
    → BlocksExist s
    → BlocksExist t
Wrote-BlocksExist {s} {t} w exist = record {
  marks = rw (w.marks, w.params) exist.marks;
  block_of = λ k lt.
      let (block, at_k, full) = exist.block_of k (rw (← w.params) lt) in
      let size : size_of (get_elem? t.fs_data k) ≡ some s.fs_params.block_size =
        w.sizes k ∙ ap size_of at_k ∙ ap some full in
      size_of-some (get_elem? t.fs_data k) (rw w.params size);
}
