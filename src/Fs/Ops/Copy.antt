-- ===== src/Fs/Ops/Copy.antt =====
-- fs/operations.c: the loop of `tfs_copy_from_external_fs`, on the empty file that it has opened.
use tecnico_fs_so.Prelude.{
  refl, List, [], ap, get_elem?, length, length-set, minus_one, pos, some, sym, ℕ, ℤ, ◌<◌, ◌∙◌, ◌≡◌,
  ◌≢◌, arith, inl, inr, min, splice, take, ◌-◌, ◌^◌, ◌≤◌, append_nil, drop_all, take_all, ◌+◌,
}
use tecnico_fs_so.Fs.Ops.Empty.{EmptyFile}
use tecnico_fs_so.Fs.Types.{State, Inode, taken, t_file, free}
use tecnico_fs_so.Fs.Ops.Root.{IsMounted}
use tecnico_fs_so.Fs.Ops.Keep.{Keeps, Keeps-IsMounted, Wrote-Keeps}
use tecnico_fs_so.Fs.Run.{Run, ok}
use tecnico_fs_so.Fs.Files.WriteBack.{Wrote, kind_of, Writes, wrote, unchanged, no_space, kind}
use tecnico_fs_so.Fs.Files.Handles.{at_offset, IsOpen}
use tecnico_fs_so.Fs.Dir.Access.{inumber_of}
use tecnico_fs_so.Fs.Files.WriteLem.{at_offset-IsOpen, at_offset-Holds, write_to_open_file-splice}
use tecnico_fs_so.Fs.Dir.Laws.{listing_of}
use tecnico_fs_so.Fs.Files.Content.{nothing, Holds, length-Holds}
use tecnico_fs_so.Fs.Ops.{tfs_write}
use tecnico_fs_so.Fs.Files.Write.{write_to_open_file-rest}

-- In the state `t` the file system is set up, the name stands for file `k`, which holds `content`
-- and which handle `h` is open on, and every other name for what it stood for in `s`.
pub record OpenFile (s t : State) (block block' name : List ℕ) (h k offset : ℕ) (content : List ℕ)
    : Type 0 where
  pub mounted : IsMounted t block'
  pub params : t.fs_params ≡ s.fs_params
  pub is_named : inumber_of name (listing_of t block') ≡ pos k
  pub others :
      (other : List ℕ)
      → name ≢ other
      → inumber_of other (listing_of t block') ≡ inumber_of other (listing_of s block)
  pub node : Inode
  pub is_open : IsOpen t h k offset node
  pub holds : Holds t node content
  pub is_file : node.i_node_type ≡ t_file

pub EmptyFile-OpenFile :
    {s t : State} {block block' name : List ℕ} {h k : ℕ} {node : Inode}
    → EmptyFile s t block block' name k node
    → IsOpen t h k 0 node
    → OpenFile s t block block' name h k 0 []
EmptyFile-OpenFile {node = node} f o = record {
  mounted = f.mounted;
  params = f.params;
  is_named = f.is_named;
  others = f.others;
  node = node;
  is_open = o;
  holds = nothing f.is_empty;
  is_file = f.is_file;
}

at_offset-Keeps : (t : State) (h k offset : ℕ) → Keeps t (at_offset t h k offset)
at_offset-Keeps t h k offset = record {
  params = refl;
  in_use = λ j e. e;
  marks_size = refl;
  inodes_size = refl;
  kinds = λ j e. refl;
  root_node = refl;
  root_data = refl;
  root_mark = refl;
  handle_marks_size = refl;
  handles_size = length-set t.open_file_table h (record { of_inumber = pos k; of_offset = offset });
  blocks = λ x. record { marks = x.marks; block_of = x.block_of };
}

module _ {s t : State} {block block' name : List ℕ} {h k : ℕ} where
  pub at_offset-OpenFile :
      {offset : ℕ} {content : List ℕ} (start : ℕ)
      → OpenFile s t block block' name h k offset content
      → OpenFile s (at_offset t h k start) block block' name h k start content
  at_offset-OpenFile start f = record {
    mounted = Keeps-IsMounted (at_offset-Keeps t h k start) f.mounted;
    params = f.params;
    is_named = f.is_named;
    others = f.others;
    node = f.node;
    is_open = at_offset-IsOpen start f.is_open;
    holds = at_offset-Holds t h k start f.holds;
    is_file = f.is_file;
  }

  Wrote-OpenFile :
      {u : State} {offset start b : ℕ} {content new : List ℕ}
      → OpenFile s t block block' name h k offset content
      → k ≢ 0
      → b ≢ 0
      → Wrote t u h k start b new
      → OpenFile s u block block' name h k start new
  Wrote-OpenFile {u} f not_root other_block w = record {
    mounted = Keeps-IsMounted (Wrote-Keeps w not_root other_block) f.mounted;
    params = w.params ∙ f.params;
    is_named = rw w.params f.is_named;
    others = λ other ne. rw w.params (f.others other ne);
    node = w.after;
    is_open = w.opened;
    holds = w.holds;
    is_file =
        let same : kind_of (some w.after) ≡ kind_of (some f.node) =
          ap kind_of (sym w.opened.inode_at) ∙ w.kinds k ∙ ap kind_of f.is_open.inode_at in
        let same_kind : kind w.after ≡ kind f.node = ground arith in
        ap (λ p. p.0) same_kind ∙ f.is_file;
  }

-- The outcome of the first write: all bytes or none.
pub data WritesFirst (s t : State) (block block' name : List ℕ) (h k : ℕ) (chunk : List ℕ)
    : Run ℤ → Type 0 where
  all_written :
      {u : State}
      → OpenFile s u block block' name h k (length chunk) chunk
      → WritesFirst s t block block' name h k chunk (ok (pos (length chunk)) u)
  none_written :
      {u : State}
      → OpenFile s u block block' name h k 0 []
      → ((j : ℕ) → j < t.fs_params.max_block_count → get_elem? t.free_blocks j ≡ some taken)
      → WritesFirst s t block block' name h k chunk (ok minus_one u)

module _ {s t : State} {block block' name : List ℕ} {h k : ℕ} where
  by_write :
      {node : Inode} {chunk : List ℕ} {r : Run ℤ}
      → OpenFile s t block block' name h k 0 []
      → k ≢ 0
      → node.i_size ≡ 0
      → 0 < length chunk
      → Writes t h k 0 (length chunk) node [] chunk r
      → WritesFirst s t block block' name h k chunk r
  by_write f not_root empty p (wrote b (inl (q, pointer)) w) = absurd (omega arith)
  by_write {chunk = chunk} f not_root empty p (wrote b (inr (z, is_free)) w) =
      let other_block : b ≢ 0 = λ e.
        let at_root : get_elem? t.free_blocks 0 ≡ some free = rw e at is_free in
        let in_use = f.mounted.root_block_in_use in cc in
      let all : splice [] 0 (take (length chunk) chunk) ≡ chunk =
        rw (take_all chunk (length chunk) (omega arith))
          (rw (drop_all {A = ℕ} [] (0 + length chunk) (omega arith)) (append_nil chunk)) in
      let zero_start : 0 + length chunk ≡ length chunk = omega arith in
      all_written (Wrote-OpenFile f not_root other_block (rw (all, zero_start) at w))
  by_write f not_root empty p (unchanged z e) = absurd (omega arith)
  by_write f not_root empty p (no_space z q all e) =
      none_written (rw e (at_offset-OpenFile 0 f)) all

  pub first_write :
      (chunk : List ℕ)
      → OpenFile s t block block' name h k 0 []
      → k ≢ 0
      → t.fs_params.block_size < 2 ^ 63
      → 0 < length chunk
      → length chunk ≤ t.fs_params.block_size
      → WritesFirst s t block block' name h k chunk
          (tfs_write (pos h) (some chunk) (length chunk) t)
  unfolding tfs_write
  first_write chunk f not_root small p fits =
      let count : min (length chunk) (t.fs_params.block_size - 0) ≡ length chunk = omega arith in
      by_write f not_root (sym (length-Holds f.holds)) p (
        rw count at (
          write_to_open_file-splice chunk (length chunk) f.is_open f.holds f.mounted.blocks small
            (omega arith) (omega arith)))

  -- Nothing is written behind a full block.
  pub write_at_end :
      {offset : ℕ} {content : List ℕ} (chunk : List ℕ)
      → OpenFile s t block block' name h k offset content
      → t.fs_params.block_size < 2 ^ 63
      → length chunk < 2 ^ 63
      → offset ≡ t.fs_params.block_size
      → length content ≡ offset
      → tfs_write (pos h) (some chunk) (length chunk) t ≡ ok (pos 0) (at_offset t h k offset)
  unfolding tfs_write
  write_at_end {offset} chunk f small bound full size =
      let size_eq : f.node.i_size ≡ offset = omega (arith, length-Holds f.holds) in
      let start : min offset f.node.i_size ≡ offset = omega arith in
      let count : min (length chunk) (t.fs_params.block_size - offset) ≡ 0 = omega arith in
      rw (write_to_open_file-rest chunk (length chunk) f.is_open (omega arith) small bound)
        (rw (start, count) refl)
