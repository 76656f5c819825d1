-- ===== src/Fs/Entries/Layout.antt =====
-- fs/state.h: reading and writing a `dir_entry_t` in the bytes of a directory's block.
use tecnico_fs_so.Prelude.{
  ℕ, refl, List, ap, arith, drop, drop-put_le, length, put, set, suc, zero, ◌*◌, ◌+◌, ◌<◌, ◌∷◌, ◌≡◌,
  ◌≤◌, drop-drop, drop-put_shift, get_elem?, int_bytes, length-int_bytes, read_int, slice-put_self,
  some, take, take-put_le, ℤ, ◌-◌, drop-overwrite, slice, take-overwrite, length-drop, length-put,
  set-set, ◌∙◌,
}
use tecnico_fs_so.Fs.Entries.{entries, entry_at, inumber_offset, name_offset}
use tecnico_fs_so.Fs.Types.{DirEntry, dir_entry_size, max_file_name}

pub length-entries : (n : ℕ) (block : List ℕ) → length (entries n block) ≡ n
unfolding entries
length-entries zero block = refl
length-entries (suc n) block = ap suc (length-entries n (drop dir_entry_size block))

entry_at-put_behind :
    (block : List ℕ) (pt : ℕ) (xs : List ℕ)
    → dir_entry_size ≤ pt
    → entry_at (put block pt xs) ≡ entry_at block
unfolding entry_at
entry_at-put_behind block pt xs h = rw (
  take-put_le max_file_name block pt xs (omega arith),
  drop-put_shift max_file_name block (pt - max_file_name) xs {pt = pt} (omega arith),
  take-put_le 4 (drop max_file_name block) (pt - max_file_name) xs (omega arith),
)

-- Bytes that are written within entry `i` change that entry alone.
pub entries-put :
    (n i off : ℕ) (block xs : List ℕ) {pt : ℕ} {e : DirEntry}
    → i < n
    → off + length xs ≤ dir_entry_size
    → pt ≡ i * dir_entry_size + off
    → entry_at (put (drop (i * dir_entry_size) block) off xs) ≡ e
    → entries n (put block pt xs) ≡ set (entries n block) i e
unfolding entries
entries-put zero i off block xs lt fits at_pt same = absurd (omega arith)
entries-put (suc n) zero off block xs {pt} {e} lt fits at_pt same =
    let here : pt ≡ off = omega arith in
    rw (here, drop-put_le dir_entry_size block off xs fits)
      (ap (λ a. a ∷ entries n (drop dir_entry_size block)) same)
entries-put (suc n) (suc i) off block xs {pt} {e} lt fits at_pt same =
    let rest = drop dir_entry_size block in
    let off' : ℕ = pt - dir_entry_size in
    let there =
      drop-drop (i * dir_entry_size) dir_entry_size block {m = suc i * dir_entry_size}
        (omega arith) in
    rw
      (
        entry_at-put_behind block pt xs (omega arith),
        drop-put_shift dir_entry_size block off' xs {pt = pt} (omega arith),
      )
      (ap (λ es. entry_at block ∷ es)
        (entries-put n i off rest xs {pt = off'} {e = e} (omega arith) fits (omega arith)
          (rw there same)))

-- Entry `i` of the array starts at byte `44 * i`.
pub get_elem?-entries :
    (n i : ℕ) (block : List ℕ)
    → i < n
    → get_elem? (entries n block) i ≡ some (entry_at (drop (i * dir_entry_size) block))
unfolding entries
get_elem?-entries zero i block h = absurd (omega arith)
get_elem?-entries (suc n) zero block h = refl
get_elem?-entries (suc n) (suc i) block h = rw (
  get_elem?-entries n i (drop dir_entry_size block) (omega arith),
  drop-drop (i * dir_entry_size) dir_entry_size block {m = suc i * dir_entry_size} (omega arith),
)

module _ (block : List ℕ) (long : dir_entry_size ≤ length block) where
  pub entry_at-put_inumber :
      (x : ℤ)
      → entry_at (put block max_file_name (int_bytes x))
        ≡ record { d_name = take max_file_name block; d_inumber = read_int (int_bytes x) }
  unfolding entry_at read_int int_bytes
  entry_at-put_inumber x = rw (
    take-put_le max_file_name block max_file_name (int_bytes x) (omega arith),
    slice-put_self block max_file_name (int_bytes x) (omega (arith, length-int_bytes x)),
  )

  entry_at-put_name :
      (name : List ℕ)
      → length name ≡ max_file_name
      → entry_at (put block 0 name)
        ≡ record { d_name = name; d_inumber = (entry_at block).d_inumber }
  unfolding entry_at
  entry_at-put_name name e = rw (drop-overwrite max_file_name block name (omega arith)) (
      ap (λ d. record { d_name = d; d_inumber = read_int (slice block max_file_name 4) })
        (rw e at (take-overwrite block name (omega arith))))

-- Storing an inumber and then 40 bytes of name at place `i` of a block with room for `n` entries,
-- `i` below `n`, sets entry `i` of the `n` entries that are read from the block, to these bytes
-- and to what the inumber's own bytes read as, and leaves the other entries as they are.
pub entries-store :
    (n i : ℕ) (block : List ℕ) (x : ℤ) (name : List ℕ)
    → i < n
    → n * dir_entry_size ≤ length block
    → length name ≡ max_file_name
    → entries n (put (put block (inumber_offset i) (int_bytes x)) (name_offset i) name)
      ≡ set (entries n block) i (record { d_name = name; d_inumber = read_int (int_bytes x) })
entries-store n i block x name lt long e =
    let rest = drop (name_offset i) block in
    let room : dir_entry_size ≤ length rest = omega (arith, length-drop (name_offset i) block) in
    let stored = put rest max_file_name (int_bytes x) in
    let stored_room : dir_entry_size ≤ length stored =
      omega (arith, length-put rest max_file_name (int_bytes x)) in
    let number = entry_at-put_inumber rest room x in
    let first =
      entries-put n i max_file_name block (int_bytes x) lt (omega (arith, length-int_bytes x)) refl
        number in
    let shift =
      drop-put_shift (name_offset i) block max_file_name (int_bytes x) {pt = inumber_offset i}
        (omega arith) in
    let both =
      entry_at-put_name stored stored_room name e
      ∙ ap (λ a. record { d_name = name; d_inumber = a.d_inumber }) number in
    entries-put n i 0 (put block (inumber_offset i) (int_bytes x)) name
      {e = record { d_name = name; d_inumber = read_int (int_bytes x) }} lt (omega arith)
      (omega arith) (rw shift both)
    ∙ rw first (set-set (entries n block) i _ _)
